-- ===== src/L1/Qos/Pow.antt =====
-- SolvePoW of src/pkg/l1/qos.go: the search for a nonce.
use ipvn.Base.{
  ℕ, zero, suc, ◌+◌, ◌%◌, ◌^◌, ◌≤◌, ◌<◌, ◌≡◌, refl, ◌∙◌, subst, String, true, false, List, none,
  some, arith, Bool-cases, inl, inr,
}
use native.Mathlib.Decide.{ℕ_discrete}
use ipvn.L1.Qos.{Hashing, bad_hex, found, is_solution, search_nonce, solve_pow}

-- The first nonce from `start` on that solves the challenge.
pub record IsFirst (h : Hashing) (ch_bytes : List ℕ) (difficulty start nonce : ℕ) : Type 0 where
  pub solves : is_solution h ch_bytes difficulty nonce ≡ true
  pub from_start : start ≤ nonce
  pub least : (m : ℕ) → start ≤ m → m < nonce → is_solution h ch_bytes difficulty m ≡ false

module _ (h : Hashing) (ch_bytes : List ℕ) (difficulty : ℕ) where
  later-IsFirst :
      (start nonce : ℕ)
      → is_solution h ch_bytes difficulty start ≡ false
      → IsFirst h ch_bytes difficulty (start + 1) nonce
      → IsFirst h ch_bytes difficulty start nonce
  later-IsFirst start nonce e first = record {
    solves = first.solves;
    from_start = omega (arith, first.from_start);
    least = λ m low high. elim (ℕ_discrete start m) [
      | yes same ↦ subst (λ x. is_solution h ch_bytes difficulty x ≡ false) same e
      | no other ↦ first.least m (ground arith) high
    ];
  }

  search_nonce_next :
      (fuel start : ℕ)
      → is_solution h ch_bytes difficulty start ≡ false
      → start + 1 < 2 ^ 64
      → search_nonce h (suc fuel) ch_bytes difficulty start
        ≡ search_nonce h fuel ch_bytes difficulty (start + 1)
  unfolding search_nonce
  search_nonce_next fuel start e word =
      let step : (start + 1) % 2 ^ 64 ≡ start + 1 = omega arith in rw (e, step) refl

  search_nonce-IsFirst :
      (fuel start good : ℕ)
      → start ≤ good
      → good < start + fuel
      → good < 2 ^ 64
      → is_solution h ch_bytes difficulty good ≡ true
      → (nonce : ℕ) × ((search_nonce h fuel ch_bytes difficulty start ≡ found nonce)
          × IsFirst h ch_bytes difficulty start nonce)
  unfolding search_nonce
  search_nonce-IsFirst zero start good low high word s = absurd (omega arith)
  search_nonce-IsFirst (suc fuel) start good low high word s =
      elim (Bool-cases (is_solution h ch_bytes difficulty start)) [
        | inl e ↦ (
          start,
          (
            rw e refl,
            record {
              solves = e;
              from_start = omega arith;
              least = λ m a b. absurd (omega (arith, a, b));
            },
          ),
        )
        | inr e ↦ elim (ℕ_discrete start good) [
          | yes same ↦ absurd (ground (arith, same, e, s))
          | no other ↦
              let (nonce, (run, first)) =
                search_nonce-IsFirst fuel (start + 1) good (ground arith) (omega arith) word s in
              (
                nonce,
                (
                  search_nonce_next fuel start e (ground arith) ∙ run,
                  later-IsFirst start nonce e first,
                ),
              )
        ]
      ]

pub solve_pow-bad :
    (h : Hashing) (fuel : ℕ) (challenge_hex : String) (difficulty : ℕ)
    → h.decode_hex challenge_hex ≡ none
    → solve_pow h fuel challenge_hex difficulty ≡ bad_hex
unfolding solve_pow
solve_pow-bad h fuel challenge_hex difficulty d = rw (solve_pow, d) refl

pub solve_pow-search :
    (h : Hashing) (challenge_hex : String) (ch_bytes : List ℕ) (difficulty fuel : ℕ)
    → h.decode_hex challenge_hex ≡ some ch_bytes
    → solve_pow h fuel challenge_hex difficulty ≡ search_nonce h fuel ch_bytes difficulty 0
unfolding solve_pow
solve_pow-search h challenge_hex ch_bytes difficulty fuel d = rw (solve_pow, d) refl

-- If some 64-bit nonce solves the challenge, then SolvePoW returns after at most one round more than
-- that nonce, with the least nonce that solves it.
pub solve_pow-IsFirst :
    (h : Hashing) (challenge_hex : String) (ch_bytes : List ℕ) (difficulty fuel good : ℕ)
    → h.decode_hex challenge_hex ≡ some ch_bytes
    → is_solution h ch_bytes difficulty good ≡ true
    → good < 2 ^ 64
    → good < fuel
    → (nonce : ℕ) × ((solve_pow h fuel challenge_hex difficulty ≡ found nonce)
        × IsFirst h ch_bytes difficulty 0 nonce)
solve_pow-IsFirst h challenge_hex ch_bytes difficulty fuel good d s word enough =
    let (nonce, (run, first)) =
      search_nonce-IsFirst h ch_bytes difficulty fuel 0 good (omega arith) (omega arith) word s in
    (nonce, (solve_pow-search h challenge_hex ch_bytes difficulty fuel d ∙ run, first))
