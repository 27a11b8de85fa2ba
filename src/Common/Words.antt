-- ===== src/Common/Words.antt =====
-- Fixed-width words as native numbers, and their bytes in memory, lowest first.
use Prim.Native.Nat.{ℕ, zero, suc, ◌+◌, ◌*◌, ◌/◌, ◌%◌, ◌^◌, ◌<◌}
use mathlib.Core.Path.{◌≡◌, refl, ap}
use mathlib.Core.List.{List, [], ◌∷◌, ◌++◌}
use native.Mathlib.Omega.{arith}
use native.Mathlib.Nat.{pow-suc}
use bitcoinstats.Common.Lists.{length, All}

abbrev pub u8 : ℕ → ℕ
u8 n = n % 2 ^ 8

abbrev pub u16 : ℕ → ℕ
u16 n = n % 2 ^ 16

abbrev pub u32 : ℕ → ℕ
u32 n = n % 2 ^ 32

abbrev pub u64 : ℕ → ℕ
u64 n = n % 2 ^ 64

infixl 75 ◌<<<◌ ◌>>>◌
abbrev pub ◌<<<◌ : ℕ → ℕ → ℕ
x <<< k = x * 2 ^ k

abbrev pub ◌>>>◌ : ℕ → ℕ → ℕ
x >>> k = x / 2 ^ k

abbrev pub IsByte : ℕ → Type 0
IsByte b = b < 256

abbrev pub IsBytes : List ℕ → Type 0
IsBytes = All IsByte

-- The number whose little-endian bytes these are.
abbrev pub le_value : List ℕ → ℕ
le_value [] = 0
le_value (b ∷ bs) = b + 256 * le_value bs

-- The `n` low bytes of a number, lowest first.
abbrev pub le_bytes : ℕ → ℕ → List ℕ
le_bytes zero v = []
le_bytes (suc n) v = v % 256 ∷ le_bytes n (v / 256)

pub length-le_bytes : (n v : ℕ) → length (le_bytes n v) ≡ n
length-le_bytes zero v = refl
length-le_bytes (suc n) v = ap suc (length-le_bytes n (v / 256))

pub le_bytes-IsBytes : (n v : ℕ) → IsBytes (le_bytes n v)
le_bytes-IsBytes zero v = tt
le_bytes-IsBytes (suc n) v = (omega arith, le_bytes-IsBytes n (v / 256))

pub le_value-le_bytes : (n v : ℕ) → v < 256 ^ n → le_value (le_bytes n v) ≡ v
le_value-le_bytes zero v h = omega arith
le_value-le_bytes (suc n) v h =
    omega (arith, pow-suc 256 n, le_value-le_bytes n (v / 256) (omega (arith, pow-suc 256 n)))

pub le_value-lt : (bs : List ℕ) → IsBytes bs → le_value bs < 256 ^ length bs
le_value-lt [] h = omega arith
le_value-lt (b ∷ bs) h = omega (arith, pow-suc 256 (length bs), le_value-lt bs h.1, h.0)

pub le_bytes-le_value : (bs : List ℕ) → IsBytes bs → le_bytes (length bs) (le_value bs) ≡ bs
le_bytes-le_value [] h = refl
le_bytes-le_value (b ∷ bs) h =
    let low : (b + 256 * le_value bs) % 256 ≡ b = omega (arith, h.0) in
    let high : (b + 256 * le_value bs) / 256 ≡ le_value bs = omega (arith, h.0) in
    rw (low, high) (ap (λ t. b ∷ t) (le_bytes-le_value bs h.1))

pub le_value-append :
    (xs ys : List ℕ) → le_value (xs ++ ys) ≡ le_value xs + 256 ^ length xs * le_value ys
le_value-append [] ys = omega arith
le_value-append (x ∷ xs) ys =
    omega (arith, ap (λ (t : ℕ). t * le_value ys) (pow-suc 256 (length xs)), le_value-append xs ys)

cons8 :
    {a b c d e f g h a' b' c' d' e' f' g' h' : ℕ}
    → a ≡ a'
    → b ≡ b'
    → c ≡ c'
    → d ≡ d'
    → e ≡ e'
    → f ≡ f'
    → g ≡ g'
    → h ≡ h'
    → a ∷ b ∷ c ∷ d ∷ e ∷ f ∷ g ∷ h ∷ [] ≡ a' ∷ b' ∷ c' ∷ d' ∷ e' ∷ f' ∷ g' ∷ h' ∷ []
cons8 p q r s t u v w = cc

-- The two halves of eight bytes, and the bytes above the eighth do not show.
pub le_bytes_halves :
    (lo hi : ℕ) → lo < 2 ^ 32 → le_bytes 8 (hi * 2 ^ 32 + lo) ≡ le_bytes 4 lo ++ le_bytes 4 hi
le_bytes_halves lo hi h =
    cons8 (omega arith) (omega arith) (omega arith) (omega arith) (omega arith) (omega arith)
      (omega arith) (omega arith)

pub le_bytes-mod : (v : ℕ) → le_bytes 8 (v % 2 ^ 64) ≡ le_bytes 8 v
le_bytes-mod v =
    cons8 (omega arith) (omega arith) (omega arith) (omega arith) (omega arith) (omega arith)
      (omega arith) (omega arith)
