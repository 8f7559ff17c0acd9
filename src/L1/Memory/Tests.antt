-- ===== src/L1/Memory/Tests.antt =====
-- A small arbiter.
use ipvn.Base.{ℕ, ◌*◌, ◌/◌, ◌-◌, ◌^◌, ◌<◌, ◌≡◌, refl, true, List, [], ◌∷◌, arith}
use ipvn.L1.Memory.{
  replay, qos, unknown, Arbiter, new_arbiter, quota, reserve, Request, reserves, releases, serve,
}
use ipvn.L1.Memory.Balance.{IsBalanced, serve-IsBalanced, Partitions}
use ipvn.L1.Memory.Grants.{reserve_wraps}

abbrev percent : ℕ → ℕ → ℕ
percent p n = n * p / 100

percent-Partitions : Partitions percent 1000
percent-Partitions = omega arith

abbrev small : Arbiter
small = new_arbiter percent 1000

abbrev traffic : List Request
traffic =
    reserves replay 150 ∷ reserves qos 400 ∷ reserves (unknown "x") 60 ∷ releases replay 70 ∷ []

traffic_books : ((serve small traffic).total_alloc ≡ 140) × ((serve small traffic).rejections ≡ 1)
unfolding serve new_arbiter
traffic_books = (refl, refl)

serve-IsBalanced_example : IsBalanced (serve small traffic)
unfolding new_arbiter
serve-IsBalanced_example =
    serve-IsBalanced percent 1000 traffic percent-Partitions (omega arith) (omega arith)

abbrev charged : Arbiter
charged = (reserve small replay 150).0

reserve_wraps_example :
    ((reserve charged replay (2 ^ 64 - 100)).1 ≡ true)
    × ((quota replay (reserve charged replay (2 ^ 64 - 100)).0).allocated
        < (quota replay charged).allocated)
unfolding reserve new_arbiter
reserve_wraps_example =
    reserve_wraps charged replay (2 ^ 64 - 100) (ground arith) (omega arith) (omega arith)
