-- ===== src/Sha256/Tests.antt =====
-- Runs of src/SHA256.cpp's model, and its theorems at concrete inputs.
use bitcoinstats.Common.{ℕ, ◌≡◌, refl, List, [], ◌∷◌, ◌++◌, replicate}
use bitcoinstats.Sha256.{sha256_init, sha256_finalize, compute_sha256}
use bitcoinstats.Sha256.Compress.{sha256_guts, load_words, extend_words, do_rounds, add_words}
use bitcoinstats.Sha256.Reference.{reference_hash}
use bitcoinstats.Sha256.Correct.{update_all, finalize-update_all}
use bitcoinstats.Sha256.Fips.{fips_hash}
use bitcoinstats.Sha256.Standard.{compute_sha256-fips_hash}
use bitcoinstats.Sha256.Streaming.{Holds, init-Holds}
use bitcoinstats.Sha256.Update.{update-Holds}
use bitcoinstats.Sha256.Byteswap.{le_bytes-byteswap}
use bitcoinstats.Sha256.{sha256_update}
use bitcoinstats.Sha256.Compress.{byteswap}
use bitcoinstats.Common.{le_bytes, reverse, arith}

abbrev abc : List ℕ
abc = b'a' ∷ b'b' ∷ b'c' ∷ []

sha256_abc :
    compute_sha256 abc
    ≡ 0xba ∷ 0x78 ∷ 0x16 ∷ 0xbf ∷ 0x8f ∷ 0x01 ∷ 0xcf ∷ 0xea ∷ 0x41 ∷ 0x41 ∷ 0x40 ∷ 0xde ∷ 0x5d
      ∷ 0xae ∷ 0x22 ∷ 0x23 ∷ 0xb0 ∷ 0x03 ∷ 0x61 ∷ 0xa3 ∷ 0x96 ∷ 0x17 ∷ 0x7a ∷ 0x9c ∷ 0xb4 ∷ 0x10
      ∷ 0xff ∷ 0x61 ∷ 0xf2 ∷ 0x00 ∷ 0x15 ∷ 0xad ∷ []
unfolding compute_sha256 sha256_guts load_words extend_words do_rounds add_words
sha256_abc = refl

finalize-update_all_example :
    sha256_finalize (update_all (sha256_init (replicate 64 7)) (abc ∷ replicate 70 1 ∷ abc ∷ []))
    ≡ reference_hash (b'a' ∷ b'b' ∷ b'c' ∷ replicate 70 1 ++ abc)
finalize-update_all_example =
    finalize-update_all (replicate 64 7) (abc ∷ replicate 70 1 ∷ abc ∷ []) refl

compute_sha256-fips_hash_example : compute_sha256 abc ≡ fips_hash abc
compute_sha256-fips_hash_example =
    compute_sha256-fips_hash abc (omega arith, (omega arith, (omega arith, tt)))

update-Holds_example : Holds (sha256_update (sha256_init (replicate 64 0)) abc) ([] ++ abc)
update-Holds_example =
    update-Holds (sha256_init (replicate 64 0)) [] abc (init-Holds (replicate 64 0) refl)

le_bytes-byteswap_example : le_bytes 4 (byteswap 0x01020304) ≡ reverse (le_bytes 4 0x01020304)
le_bytes-byteswap_example = le_bytes-byteswap 0x01020304 (omega arith)
