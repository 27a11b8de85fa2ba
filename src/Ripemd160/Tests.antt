-- ===== src/Ripemd160/Tests.antt =====
-- Runs of src/RIPEMD160.cpp's model, and its theorem at a concrete input.
use bitcoinstats.Common.{ℕ, ◌≡◌, refl, List, [], ◌∷◌, arith}
use bitcoinstats.Ripemd160.{load_dwords, bytes_to_dword, put_bytes, xor_byte, md_chunks, md_finish}
use bitcoinstats.Ripemd160.{hashcode, compute_ripemd160}
use bitcoinstats.Ripemd160.Compress.{compress, combine, left_line, right_line, md_round}
use bitcoinstats.Ripemd160.Compress.{f_f, f_g, f_h, f_i, f_j}
use bitcoinstats.Ripemd160.Reference.{reference_hash}
use bitcoinstats.Ripemd160.Correct.{compute_ripemd160-reference}

abbrev abc : List ℕ
abc = b'a' ∷ b'b' ∷ b'c' ∷ []

ripemd160_abc :
    compute_ripemd160 abc
    ≡ 0x8e ∷ 0xb2 ∷ 0x08 ∷ 0xf7 ∷ 0xe0 ∷ 0x5d ∷ 0x98 ∷ 0x7a ∷ 0x9b ∷ 0x04 ∷ 0x4a ∷ 0x8e ∷ 0x98
      ∷ 0xc6 ∷ 0xb0 ∷ 0x87 ∷ 0xf1 ∷ 0x5a ∷ 0x0b ∷ 0xfc ∷ []
unfolding compute_ripemd160 md_chunks md_finish hashcode put_bytes xor_byte load_dwords
    bytes_to_dword compress combine left_line right_line md_round f_f f_g f_h f_i f_j
ripemd160_abc = refl

compute_ripemd160-reference_example : compute_ripemd160 abc ≡ reference_hash abc
compute_ripemd160-reference_example = compute_ripemd160-reference abc (omega arith) (omega arith)
