-- ===== src/RandPool.antt =====
-- include/rand.h: a random number generator, and a pool of numbers that are drawn without
-- duplicates. The `int`s of the pool are not negative.
use bitcoinstats.Common.{ℕ, zero, suc, ◌+◌, ◌-◌, ◌*◌, ◌%◌, ◌==◌, if◌then◌else◌, bit_and, u32}
use bitcoinstats.Common.{Bool, true, false, List, [], ◌∷◌, ◌++◌, set, get_or}
mod Swaps
mod Draws
mod Tests

-- Rand: the 32 bits of `mCurrent`.
-- Rand::Get: the number, and the new `mCurrent`, which wraps around.
unfoldable pub rand_get : ℕ → ℕ × ℕ
rand_get current =
    let current' = u32 (current * 214013 + 2531011) in (bit_and current' 0x7fffffff, current')

pub record RandPool : Type 0 where
  pub rand : ℕ
  pub pool_data : List ℕ
  pub size : ℕ
  pub top : ℕ

-- `for (int i=0; i<mSize; i++) mData[i] = i;`
unfoldable pub numbers_from : ℕ → ℕ → List ℕ
numbers_from i zero = []
numbers_from i (suc n) = i ∷ numbers_from (i + 1) n

-- The constructor.
unfoldable pub new_pool : ℕ → ℕ → RandPool
new_pool size seed = record {
  rand = u32 seed;
  pool_data = numbers_from 0 size;
  size = size;
  top = size;
}

-- RandPool::Get, once the pool is not exhausted.
unfoldable pub draw : RandPool → ℕ × RandPool
draw p =
    let r = rand_get p.rand in
    let entry = r.0 % p.top in
    let top = p.top - 1 in
    let ret = get_or p.pool_data entry 0 in
    let moved = set p.pool_data entry (get_or p.pool_data top 0) in
    (ret, record p { rand = r.1; pool_data = set moved top ret; top = top })

-- RandPool::Get: the number, `shuffled`, and the pool.
unfoldable pub get : RandPool → ℕ × (Bool × RandPool)
get p =
    let shuffled = p.top == 0 in
    let d = draw (if shuffled then record p { top = p.size } else p) in (d.0, (shuffled, d.1))

-- Calls of Get, one after the other: the numbers and the pool.
unfoldable pub get_many : ℕ → RandPool → List ℕ × RandPool
get_many zero p = ([], p)
get_many (suc n) p = let g = get p in let later = get_many n g.1.1 in (g.0 ∷ later.0, later.1)
