-- ===== src/Window/History.antt =====
-- The specification of a replay window: a decision over the whole history of accepted numbers,
-- with no bitmap.
use ipvn.Base.{
  ℕ, ◌-◌, ◌<◌, ◌≡◌, refl, Bool, true, false, ◌||◌, not, List, [], ◌∷◌, arith, ltb, leb, ◌==◌,
  if◌then◌else◌,
}
use ipvn.Window.Contract.{window_size}

abbrev pub member : ℕ → List ℕ → Bool
member s [] = false
member s (x ∷ xs) = x == s || member s xs

abbrev pub highest : List ℕ → ℕ
highest [] = 0
highest (x ∷ xs) = if ltb (highest xs) x then x else highest xs

-- A number is fresh above the highest accepted one, or inside the window and not accepted yet.
unfoldable pub admits : List ℕ → ℕ → Bool
admits past s =
    if ltb (highest past) s
    then true
    else (if leb window_size (highest past - s) then false else not (member s past))

abbrev pub record_if : Bool → ℕ → List ℕ → List ℕ
record_if true s past = s ∷ past
record_if false s past = past

-- The accepted numbers, newest first, after the numbers of a list have arrived in its order.
unfoldable pub remember : List ℕ → List ℕ → List ℕ
remember past [] = past
remember past (s ∷ rest) = remember (record_if (admits past s) s past) rest

-- No number stands twice.
abbrev pub IsDistinct : List ℕ → Type 0
IsDistinct [] = Unit {0}
IsDistinct (x ∷ xs) = (member x xs ≡ false) × IsDistinct xs

pub member-above : (s : ℕ) (past : List ℕ) → highest past < s → member s past ≡ false
member-above s [] h = refl
member-above s (x ∷ xs) h = ground (arith, member-above s xs)

pub admits-not_member : (past : List ℕ) (s : ℕ) → admits past s ≡ true → member s past ≡ false
unfolding admits
admits-not_member past s h = ground (arith, member-above s past)

record_if-IsDistinct :
    (past : List ℕ) (s : ℕ) → IsDistinct past → IsDistinct (record_if (admits past s) s past)
record_if-IsDistinct past s d = ground (arith, admits-not_member past s)

pub remember-IsDistinct :
    (past arriving : List ℕ) → IsDistinct past → IsDistinct (remember past arriving)
unfolding remember
remember-IsDistinct past [] d = d
remember-IsDistinct past (s ∷ rest) d =
    remember-IsDistinct (record_if (admits past s) s past) rest (record_if-IsDistinct past s d)

-- The decisions on the numbers of a list, in its order.
unfoldable pub decide_all : List ℕ → List ℕ → List Bool
decide_all past [] = []
decide_all past (s ∷ rest) = admits past s ∷ decide_all (record_if (admits past s) s past) rest
