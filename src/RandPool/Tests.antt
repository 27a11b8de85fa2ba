-- ===== src/RandPool/Tests.antt =====
-- The theorem on the pool of include/rand.h at a concrete input, and a run of it.
use bitcoinstats.Common.{◌≡◌, refl, arith, [], ◌∷◌}
use bitcoinstats.RandPool.{rand_get, draw, get, get_many, new_pool, numbers_from}
use bitcoinstats.RandPool.Draws.{Dealt, get_many-Dealt, get-IsPool, new_pool-IsPool}
use bitcoinstats.RandPool.Swaps.{IsPool}

get_many_run : (get_many 5 (new_pool 5 1)).0 ≡ 4 ∷ 3 ∷ 2 ∷ 1 ∷ 0 ∷ []
unfolding get_many get draw rand_get new_pool numbers_from
get_many_run = refl

get_many_example :
    Dealt 5 (new_pool 5 1) (get_many 5 (new_pool 5 1)).0 (get_many 5 (new_pool 5 1)).1
unfolding new_pool
get_many_example = get_many-Dealt 5 (new_pool 5 1) (new_pool-IsPool 5 1 (omega arith)) (omega arith)

get-IsPool_example : IsPool (get (new_pool 5 1)).1.1
get-IsPool_example = get-IsPool (new_pool 5 1) (new_pool-IsPool 5 1 (omega arith))
