-- ===== src/L0/Replay/Tests.antt =====
-- Runs of the filter, and its theorems at concrete numbers.
use ipvn.Base.{ℕ, ◌≡◌, refl, Bool, true, false, List, [], ◌∷◌}
use ipvn.Base.Words.{shl64, shr64}
use ipvn.Window.{decide_all}
use ipvn.L0.Replay.{
  new_filter, mark, shift_left, validate_and_update, validate_all, is_marked, advance, shift_bits,
  carry_bits, shift_words, clear_words, move_words,
}
use ipvn.L0.Replay.Refinement.{validate_all-eq-decide_all}

-- In order, late, repeated, far ahead, and then out of the window.
abbrev arrivals : List ℕ
arrivals = 5 ∷ 3 ∷ 70 ∷ 5 ∷ 4 ∷ 3 ∷ 5000 ∷ 3976 ∷ 3977 ∷ []

abbrev verdicts : List Bool
verdicts = true ∷ true ∷ true ∷ false ∷ true ∷ false ∷ true ∷ false ∷ true ∷ []

arrivals-verdicts : (validate_all new_filter arrivals).1 ≡ verdicts
unfolding validate_all validate_and_update new_filter shl64 shr64 is_marked advance shift_left
    shift_bits carry_bits shift_words clear_words move_words mark
arrivals-verdicts = refl

validate_all-eq-decide_all_example : (validate_all new_filter arrivals).1 ≡ decide_all [] arrivals
validate_all-eq-decide_all_example = validate_all-eq-decide_all arrivals
