-- ===== src/BlockIndex/Record.antt =====
-- The records of the block index in the bytes that Bitcoin Core stores, and read back.
use bitcoinstats.Common.{ℕ, ◌-◌, ◌^◌, ◌<◌, ◌≤◌, ◌≡◌, refl, sym, subst, ap, ◌∙◌, arith}
use bitcoinstats.Common.{Bool, true, false, if◌then◌else◌, le→leb, eq→==}
use bitcoinstats.Common.{some, List, [], ◌++◌, length, take, le_bytes}
use bitcoinstats.Common.{length-append, append_assoc, take-append_left, drop-append_left}
use bitcoinstats.Common.{||-true, take_all, length-le_bytes, le_value-le_bytes}
use bitcoinstats.Common.Options.{>>=-some}
use bitcoinstats.BlockIndex.{CBlockIndex, construct, has, read_field_if, scan_bytes, scan_u32}
use bitcoinstats.BlockIndex.{block_have_data, block_have_undo, block_have_mask}
use bitcoinstats.BlockIndex.{read_header, read_fields, read_block_index}
use bitcoinstats.BlockIndex.Varint128.{write_varint128}
use bitcoinstats.BlockIndex.Varint128.{read_varint128-write_varint128}

-- The format of a record. A field stands in it only when its flag of the status is set.
unfoldable pub field_bytes_if : Bool → ℕ → List ℕ
field_bytes_if flag value = if flag then write_varint128 value else []

unfoldable pub header_bytes : CBlockIndex → List ℕ
header_bytes index =
    le_bytes 4 index.block_version
    ++ (index.hash_previous
        ++ (index.hash_merkle_root
            ++ (le_bytes 4 index.time ++ (le_bytes 4 index.bits ++ le_bytes 4 index.nonce))))

unfoldable pub fields_bytes : CBlockIndex → List ℕ
fields_bytes index =
    write_varint128 index.version_number
    ++ (write_varint128 index.block_height
        ++ (write_varint128 index.block_status
            ++ (write_varint128 index.transaction_count
                ++ (field_bytes_if (has index.block_status block_have_mask) index.file_index
                    ++ (field_bytes_if (has index.block_status block_have_data) index.file_offset
                        ++ field_bytes_if (has index.block_status block_have_undo)
                            index.undo_offset)))))

unfoldable pub index_bytes : CBlockIndex → List ℕ
index_bytes index = fields_bytes index ++ header_bytes index

-- The fields fit, and those whose flag is not set are zero, as the constructor leaves them.
pub record IsStorable (i : CBlockIndex) : Type 0 where
  pub version_fits : i.version_number < 2 ^ 64
  pub height_fits : i.block_height < 2 ^ 64
  pub status_fits : i.block_status < 2 ^ 64
  pub count_fits : i.transaction_count < 2 ^ 64
  pub file_fits : i.file_index < 2 ^ 64
  pub offset_fits : i.file_offset < 2 ^ 64
  pub undo_fits : i.undo_offset < 2 ^ 64
  pub file_flag : has i.block_status block_have_mask ≡ false → i.file_index ≡ 0
  pub offset_flag : has i.block_status block_have_data ≡ false → i.file_offset ≡ 0
  pub undo_flag : has i.block_status block_have_undo ≡ false → i.undo_offset ≡ 0
  pub block_version_fits : i.block_version < 2 ^ 32
  pub previous_length : length i.hash_previous ≡ 32
  pub merkle_length : length i.hash_merkle_root ≡ 32
  pub time_fits : i.time < 2 ^ 32
  pub bits_fits : i.bits < 2 ^ 32
  pub nonce_fits : i.nonce < 2 ^ 32
  pub hash_length : length i.block_hash ≡ 32

scan_bytes-append :
    (xs rest : List ℕ) (n : ℕ) → length xs ≡ n → scan_bytes n (xs ++ rest) ≡ some (xs, rest)
unfolding scan_bytes
scan_bytes-append xs rest n h =
    let le : length xs ≤ length (xs ++ rest) = omega (arith, length-append xs rest) in
    subst (λ (k : ℕ). scan_bytes k (xs ++ rest) ≡ some (xs, rest)) h
      (rw (le→leb _ _ le, take-append_left xs rest, drop-append_left xs rest) refl)

scan_u32-append :
    (v : ℕ) (rest : List ℕ) → v < 2 ^ 32 → scan_u32 (le_bytes 4 v ++ rest) ≡ some (v, rest)
unfolding scan_u32
scan_u32-append v rest h =
    >>=-some (scan_bytes 4 (le_bytes 4 v ++ rest)) _
      (scan_bytes-append (le_bytes 4 v) rest 4 (length-le_bytes 4 v))
      (ap (λ (t : ℕ). some (t, rest)) (le_value-le_bytes 4 v h))

read_field_if-bytes :
    (flag : Bool) (value : ℕ) (rest : List ℕ)
    → value < 2 ^ 64
    → (flag ≡ false → value ≡ 0)
    → read_field_if flag 0 (field_bytes_if flag value ++ rest) ≡ some (value, rest)
unfolding read_field_if field_bytes_if
read_field_if-bytes true value rest fits unset = read_varint128-write_varint128 value rest fits
read_field_if-bytes false value rest fits unset = ap (λ (t : ℕ). some (t, rest)) (sym (unset refl))

append_assoc6 :
    (a b c d e f rest : List ℕ)
    → (a ++ (b ++ (c ++ (d ++ (e ++ f))))) ++ rest ≡ a ++ (b ++ (c ++ (d ++ (e ++ (f ++ rest)))))
append_assoc6 a b c d e f rest =
    rw (append_assoc a, append_assoc b, append_assoc c, append_assoc d, append_assoc e) refl

append_assoc7 :
    (a b c d e f g rest : List ℕ)
    → (a ++ (b ++ (c ++ (d ++ (e ++ (f ++ g)))))) ++ rest
      ≡ a ++ (b ++ (c ++ (d ++ (e ++ (f ++ (g ++ rest))))))
append_assoc7 a b c d e f g rest =
    append_assoc a (b ++ (c ++ (d ++ (e ++ (f ++ g))))) rest
    ∙ ap (λ (t : List ℕ). a ++ t) (append_assoc6 b c d e f g rest)

abbrev with_header : (i : CBlockIndex) → CBlockIndex → CBlockIndex
with_header i j = record j {
  block_version = i.block_version;
  hash_previous = i.hash_previous;
  hash_merkle_root = i.hash_merkle_root;
  time = i.time;
  bits = i.bits;
  nonce = i.nonce;
}

read_header-bytes :
    (i j : CBlockIndex) (rest : List ℕ)
    → IsStorable i
    → read_header j (header_bytes i ++ rest) ≡ some (with_header i j, rest)
unfolding read_header header_bytes
read_header-bytes i j rest w =
    ap (read_header j) (
      append_assoc6 (le_bytes 4 i.block_version) i.hash_previous i.hash_merkle_root
        (le_bytes 4 i.time) (le_bytes 4 i.bits) (le_bytes 4 i.nonce) rest)
    ∙ >>=-some _ _ (scan_u32-append i.block_version _ w.block_version_fits) (
        >>=-some _ _ (scan_bytes-append i.hash_previous _ 32 w.previous_length) (
          >>=-some _ _ (scan_bytes-append i.hash_merkle_root _ 32 w.merkle_length) (
            >>=-some _ _ (scan_u32-append i.time _ w.time_fits) (
              >>=-some _ _ (scan_u32-append i.bits _ w.bits_fits)
                (>>=-some _ _ (scan_u32-append i.nonce rest w.nonce_fits) refl)))))

abbrev with_fields : (i : CBlockIndex) → CBlockIndex → CBlockIndex
with_fields i j = record j {
  version_number = i.version_number;
  block_height = i.block_height;
  block_status = i.block_status;
  transaction_count = i.transaction_count;
  file_index = i.file_index;
  file_offset = i.file_offset;
  undo_offset = i.undo_offset;
}

read_fields-bytes :
    (i : CBlockIndex) (hash : List ℕ) (rest : List ℕ)
    → IsStorable i
    → read_fields (construct hash) (fields_bytes i ++ rest)
      ≡ some (with_fields i (construct hash), rest)
unfolding read_fields fields_bytes construct
read_fields-bytes i hash rest w =
    ap (read_fields (construct hash)) (
      append_assoc7 (write_varint128 i.version_number) (write_varint128 i.block_height)
        (write_varint128 i.block_status) (write_varint128 i.transaction_count)
        (field_bytes_if (has i.block_status block_have_mask) i.file_index)
        (field_bytes_if (has i.block_status block_have_data) i.file_offset)
        (field_bytes_if (has i.block_status block_have_undo) i.undo_offset) rest)
    ∙ >>=-some _ _ (read_varint128-write_varint128 i.version_number _ w.version_fits) (
        >>=-some _ _ (read_varint128-write_varint128 i.block_height _ w.height_fits) (
          >>=-some _ _ (read_varint128-write_varint128 i.block_status _ w.status_fits) (
            >>=-some _ _ (read_varint128-write_varint128 i.transaction_count _ w.count_fits) (
              >>=-some _ _ (read_field_if-bytes _ i.file_index _ w.file_fits w.file_flag) (
                >>=-some _ _ (read_field_if-bytes _ i.file_offset _ w.offset_fits w.offset_flag) (
                  >>=-some _ _ (read_field_if-bytes _ i.undo_offset rest w.undo_fits w.undo_flag)
                    refl))))))

abbrev with_hash : CBlockIndex → List ℕ → CBlockIndex
with_hash i hash = record i { block_hash = hash }

-- A record that is stored in the format of Bitcoin Core, with its fields in their widths, its hashes
-- of 32 bytes and the fields without their flag of the status zero, is read back by a new CBlockIndex
-- of its hash, with and without assertions, and what stands behind it is left.
pub read_block_index-index_bytes :
    (ndebug : Bool) (i : CBlockIndex) (rest : List ℕ)
    → IsStorable i
    → read_block_index ndebug
        (construct i.block_hash)
        (index_bytes i ++ rest)
        (length (index_bytes i))
      ≡ some (i, rest)
unfolding read_block_index index_bytes construct
read_block_index-index_bytes ndebug i rest w =
    >>=-some _ _
      (ap (read_fields (construct i.block_hash))
          (append_assoc (fields_bytes i) (header_bytes i) rest)
        ∙ read_fields-bytes i i.block_hash (header_bytes i ++ rest) w)
      (>>=-some _ _ (read_header-bytes i _ rest w) (
        let size : length (index_bytes i ++ rest) - length rest ≡ length (index_bytes i) =
          omega (arith, length-append (index_bytes i) rest) in
        let hash : take 32 i.block_hash ≡ i.block_hash =
          take_all 32 i.block_hash (omega (arith, w.hash_length)) in
        rw (eq→== _ _ size, ||-true ndebug)
          (ap (λ (h : List ℕ). some (with_header i (with_fields i (with_hash i h)), rest)) hash)))
