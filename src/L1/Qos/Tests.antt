-- ===== src/L1/Qos/Tests.antt =====
-- A manager with whole numbers for its amounts, and a hash in which every third nonce solves.
use ipvn.Base.{ℕ, ◌+◌, ◌-◌, ◌*◌, ◌/◌, ◌%◌, ◌≡◌, refl, [], ◌∷◌, some, ltb, leb, arith, get_or}
use ipvn.L1.Qos.{
  bulk, Floats, Hashing, Readings, QosManager, new_qos_manager, evaluate_packet, is_solution,
  starts_with_zeros, solve_pow, found,
}
use ipvn.L1.Qos.Pow.{IsFirst, solve_pow-IsFirst}
use ipvn.L1.Qos.Buckets.{IsArithmetic, IsSound}
use ipvn.L1.Qos.Credit.{packet, solution, serve_all, serve_all-IsSound}

abbrev whole : Floats
whole = record {
  F = ℕ;
  of_int = λ n. n;
  seconds = λ ns. ns / 1000000000;
  add = λ a b. a + b;
  sub = λ a b. a - b;
  mul = λ a b. a * b;
  gt = λ a b. ltb b a;
  ge = λ a b. leb b a;
  rate_1179648 = 1179648;
  burst_65536 = 65536;
  threshold_1000 = 1000;
}

whole-IsArithmetic : IsArithmetic whole
whole-IsArithmetic = record {
  gt_irrefl = λ a. ground arith;
  gt-sub = λ a c n covered low. ground arith;
}

abbrev thirds : Hashing
thirds = record {
  sha256 = λ bytes. (get_or bytes 8 0 + 1) % 3 ∷ 0 ∷ [];
  decode_hex = λ s. some (7 ∷ []);
  challenge_hex = λ did salt now. "c0ffee";
}

abbrev clock : Readings
clock = record { created = 10; consumed = 20; stamped = 30; issued = 40; lasting = 50 }

serve_all-IsSound_example : IsSound whole (
    serve_all whole thirds (new_qos_manager whole) (
      packet "did:a" bulk 65000 [] clock
      ∷ packet "did:a" bulk 900 [] clock
      ∷ solution "c0ffee" 2 60
      ∷ []))
serve_all-IsSound_example =
    serve_all-IsSound whole thirds
      (packet "did:a" bulk 65000 [] clock
        ∷ packet "did:a" bulk 900 [] clock
        ∷ solution "c0ffee" 2 60
        ∷ [])
      whole-IsArithmetic

abbrev spent : QosManager whole
spent = (evaluate_packet whole thirds (new_qos_manager whole) "did:a" bulk 65000 [] clock).0

solve_pow-IsFirst_example :
    (nonce : ℕ) × ((solve_pow thirds 9 "c0ffee" 16 ≡ found nonce)
      × IsFirst thirds (7 ∷ []) 16 0 nonce)
unfolding is_solution starts_with_zeros
solve_pow-IsFirst_example =
    solve_pow-IsFirst thirds "c0ffee" (7 ∷ []) 16 9 8 refl refl (omega arith) (omega arith)
