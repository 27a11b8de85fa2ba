-- ===== src/BlockFiles/Ends.antt =====
-- `readBlockHeader` of src/BlockChain.cpp at the end of the last file.
use bitcoinstats.Common.{ℕ, ◌+◌, ◌≤◌, ◌<◌, arith}
use bitcoinstats.Common.{◌≡◌, refl, ap, ◌∙◌, Bool, false, Option, none}
use bitcoinstats.Common.{leb, lt→ltb, lt→not_leb, if◌then◌else◌, u32}
use bitcoinstats.Common.{List, length, length-set}
use bitcoinstats.BlockChain.Stream.{Outcome, ok}
use bitcoinstats.BlockFiles.{File, Scanner, fread, fread_u32, file_of, put_file}
use bitcoinstats.BlockFiles.{is_read}
use bitcoinstats.BlockFiles.Scan.{open_block, magic_of_opened, first_magic, look_for_block}
use bitcoinstats.BlockFiles.Scan.{read_if_found, read_block_header}

-- The scan at the end of the last file.
pub record Ended (s : Scanner) (r : Outcome (Bool × Scanner)) : Type 0 where
  pub after : Scanner
  pub returns : r ≡ ok (false, after)
  pub same_headers : after.block_header_set ≡ s.block_header_set
  pub same_count : after.scan_count ≡ s.scan_count

fread_u32-end : (f : File) → length f.contents ≤ f.position → (fread_u32 f).0 ≡ none
unfolding fread_u32 fread
fread_u32-end f h =
    let e : leb (f.position + 4) (length f.contents) ≡ false = lt→not_leb _ _ (omega arith) in
    rw e refl

pub read_block_header-Ended :
    (files : ℕ → Option (List ℕ)) (ndebug : Bool) (s : Scanner)
    → s.block_index < length s.block_data_files
    → files (length s.block_data_files) ≡ none
    → length (file_of s).contents ≤ (file_of s).position
    → Ended s (read_block_header files ndebug s)
unfolding read_block_header read_if_found look_for_block first_magic magic_of_opened open_block
read_block_header-Ended files ndebug s inside no_more at_end =
    let f = file_of s in
    let f' = (fread_u32 f).1 in
    let s1 = put_file s f' in
    let size : length s1.block_data_files ≡ length s.block_data_files =
      length-set s.block_data_files s.block_index f' in
    let missing : files (length s1.block_data_files) ≡ none = ap files size ∙ no_more in
    let opens : open_block files s1
        ≡ (false, record s1 { block_index = length s1.block_data_files }) =
      rw (missing, open_block) refl in
    let r : fread_u32 f ≡ (none, f') = ap (λ (o : Option ℕ). (o, f')) (fread_u32-end f at_end) in
    let magic : magic_of_opened files s1
        ≡ (none, record s1 { block_index = length s1.block_data_files }) =
      ap
        (λ (o : Bool × Scanner).
          let next = fread_u32 (file_of o.1) in
          if o.0 then (next.0, put_file o.1 next.1) else (none, o.1))
        opens in
    record {
      after = record s1 { block_index = length s1.block_data_files };
      returns = rw (lt→ltb _ _ inside) (
          ap
            (λ (t : Option ℕ × File).
              read_if_found ndebug (look_for_block files ndebug (first_magic files s t)))
            r
          ∙ ap
              (λ (t : Option ℕ × Scanner). read_if_found ndebug (
                look_for_block files ndebug
                  (t.0, (if is_read t.0 then u32 (file_of t.1).position else u32 f.position, t.1))))
              magic);
      same_headers = refl;
      same_count = refl;
    }
