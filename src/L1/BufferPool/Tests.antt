-- ===== src/L1/BufferPool/Tests.antt =====
-- One buffer that goes round.
use ipvn.Base.{List, [], ◌∷◌, arith}
use ipvn.L1.BufferPool.{new_buffer_pool, level, acquire, retain, recycle, release}
use ipvn.L1.BufferPool.Acquisition.{IsHandedOut}
use ipvn.L1.BufferPool.Exclusive.{
  Use, take_buffer, hold, give_back, use_buffer, use_all, acquire-use_all,
}

abbrev round : List Use
round = take_buffer 900 0 ∷ hold 0 ∷ give_back 0 ∷ give_back 0 ∷ []

acquire-use_all_example :
    IsHandedOut
      (use_all new_buffer_pool round)
      1200
      (acquire (use_all new_buffer_pool round) 1200 0)
unfolding use_buffer new_buffer_pool acquire level retain release recycle
acquire-use_all_example =
    acquire-use_all round 1200 0 (tt, (omega arith, (omega arith, (omega arith, tt))))
