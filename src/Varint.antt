-- ===== src/Varint.antt =====
-- include/varint.h: a second reader of variable length integers, over the bytes at `data`.
use bitcoinstats.Common.{
  ℕ, ◌+◌, ◌*◌, ◌/◌, ◌%◌, ◌^◌, ◌<◌, ◌≤◌, ◌≡◌, refl, ap, ap₂, ◌∙◌, arith, inl, inr,
}
use bitcoinstats.Common.{
  Bool-cases, true, false, ltb, leb, lt→ltb, le→not_ltb, le→leb, if◌then◌else◌,
}
use bitcoinstats.Common.{List, [], ◌∷◌, ◌++◌, take, get_or, le_value, le_bytes}
use bitcoinstats.BlockChain.Format.{compact_size}
mod Tests

-- readVariableLengthInteger: the value, and how far the returned pointer has moved.
unfoldable pub read_varint : List ℕ → ℕ × ℕ
read_varint bytes =
    let v8 = get_or bytes 0 0 in
    let v16 = le_value (take 2 bytes) in
    let v32 = le_value (take 4 bytes) in
    if ltb v8 0xfd
    then (v8, 1)
    else if ltb v16 0xffff
    then (v16, 2)
    else if ltb v32 0xffffffff
    then (v32, 4)
    else (le_value (take 8 bytes), 8)

-- Of the numbers up to 0xffff those below 0xfd are read back. From 0xfd on the tag is read as the
-- low byte: the value is 0xfd and the low byte of the number above it, and the last byte of the
-- number is left in the stream.
pub read_varint-compact_size :
    (n : ℕ) (behind : List ℕ)
    → n < 0x10000
    → read_varint (compact_size n ++ behind)
      ≡ (if ltb n 0xfd then (n, 1) else (0xfd + 256 * (n % 256), 2))
unfolding read_varint compact_size
read_varint-compact_size n behind fits = elim (Bool-cases (ltb n 0xfd)) [
  | inl e ↦ rw (e, e)
  | inr e ↦
      let value : 0xfd + 256 * (n % 256 + 256 * 0) ≡ 0xfd + 256 * (n % 256) = omega arith in
      let small : ltb (0xfd + 256 * (n % 256 + 256 * 0)) 0xffff ≡ true =
        lt→ltb _ 0xffff (omega arith) in
      rw (e, le→leb n 0xffff (omega arith)) (rw small (ap (λ (k : ℕ). (k, 2)) value))
]
