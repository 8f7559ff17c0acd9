-- ===== src/Core/Modes/History.antt =====
-- The history that SetMode of src/pkg/core/operating_modes.go keeps.
use ipvn.Base.{
  ℕ, ◌≤◌, ◌≡◌, refl, String, true, false, not, ◌&&◌, ◌||◌, List, [], ◌∷◌, ◌++◌, some, leb, length,
  length-append, arith, Bool-cases, inl, inr,
}
use ipvn.Core.Modes.{
  NodeOperatingMode, other_mode, ModeTransition, Controller, new_operating_mode_controller,
  is_valid_mode, same_mode, without_first, bounded, set_mode, allows_discovery,
  allows_unpinned_peers, is_degraded, validate_mode_string, ModeRequest, set_modes,
}

-- The mode that the first transition of a history left, before the current mode.
abbrev pub first_mode : NodeOperatingMode → List ModeTransition → NodeOperatingMode
first_mode current [] = current
first_mode current (t ∷ ts) = t.from_mode

-- Each transition changes the mode, and leads to where the next one starts, the last to the
-- current mode.
abbrev pub IsLinked : NodeOperatingMode → List ModeTransition → Type 0
IsLinked current [] = Unit
IsLinked current (t ∷ ts) =
    (t.to_mode ≡ first_mode current ts)
    × (same_mode t.from_mode t.to_mode ≡ false)
    × IsLinked current ts

without_first-IsLinked :
    (current : NodeOperatingMode) (h : List ModeTransition)
    → IsLinked current h
    → IsLinked current (without_first h)
without_first-IsLinked current [] l = l
without_first-IsLinked current (t ∷ ts) l = l.2

bounded-IsLinked :
    (current : NodeOperatingMode) (h : List ModeTransition)
    → IsLinked current h
    → IsLinked current (bounded h)
bounded-IsLinked current h l = elim (Bool-cases (leb 32 (length h))) [
  | inl full ↦ rw full (without_first-IsLinked current h l)
  | inr room ↦ rw room l
]

first_mode-append :
    (t : ModeTransition) (h : List ModeTransition) (new : NodeOperatingMode)
    → first_mode new (h ++ (t ∷ [])) ≡ first_mode t.from_mode h
first_mode-append t [] new = refl
first_mode-append t (u ∷ us) new = refl

append-IsLinked :
    (t : ModeTransition) (h : List ModeTransition)
    → same_mode t.from_mode t.to_mode ≡ false
    → IsLinked t.from_mode h
    → IsLinked t.to_mode (h ++ (t ∷ []))
append-IsLinked t [] d l = (refl, d, tt)
append-IsLinked t (u ∷ us) d l =
    (rw (first_mode-append t us t.to_mode) l.0, l.1, append-IsLinked t us d l.2)

length-bounded : (h : List ModeTransition) → length h ≤ 32 → length (bounded h) ≤ 31
length-bounded [] b = omega arith
length-bounded (t ∷ ts) b = ground arith

-- What holds of a controller after any calls.
abbrev pub IsTraced : Controller → Type 0
IsTraced c = (length c.history ≤ 32) × IsLinked c.current_mode c.history

set_mode_kept :
    (c : Controller) (mode : NodeOperatingMode) (cause : String) (now : ℕ)
    → (not (is_valid_mode mode) || same_mode c.current_mode mode) ≡ true
    → (set_mode c mode cause now).0 ≡ c
unfolding set_mode
set_mode_kept c mode cause now h = ground arith

set_mode-IsTraced :
    (c : Controller) (mode : NodeOperatingMode) (cause : String) (now : ℕ)
    → IsTraced c
    → IsTraced (set_mode c mode cause now).0
unfolding set_mode
set_mode-IsTraced c mode cause now (b, l) = elim (Bool-cases (not (is_valid_mode mode))) [
  | inl invalid ↦ rw invalid (b, l)
  | inr valid ↦ elim (Bool-cases (same_mode c.current_mode mode)) [
    | inl same ↦ rw (valid, same) (b, l)
    | inr new ↦
        rw (valid, new)
          (
            omega (
              arith,
              length-bounded c.history b,
              length-append (bounded c.history) (
                  record {
                    from_mode = c.current_mode;
                    to_mode = mode;
                    reason = cause;
                    timestamp = now;
                  }
                  ∷ []),
            ),
            append-IsLinked _ (bounded c.history) new (bounded-IsLinked c.current_mode c.history l),
          )
  ]
]

set_modes_keep-IsTraced :
    (c : Controller) (rs : List ModeRequest) → IsTraced c → IsTraced (set_modes c rs)
unfolding set_modes
set_modes_keep-IsTraced c [] h = h
set_modes_keep-IsTraced c (r ∷ rs) h =
    set_modes_keep-IsTraced (set_mode c r.mode r.cause r.at).0 rs
      (set_mode-IsTraced c r.mode r.cause r.at h)

new_controller-IsTraced :
    (initial : NodeOperatingMode) → IsTraced (new_operating_mode_controller initial)
unfolding new_operating_mode_controller
new_controller-IsTraced initial = (omega arith, tt)

-- After any calls of SetMode on a new controller, the history holds at most 32 transitions, each
-- one changes the mode and starts where the one before it ended, and the last one ended in the
-- current mode.
pub set_modes-IsTraced :
    (initial : NodeOperatingMode) (rs : List ModeRequest)
    → IsTraced (set_modes (new_operating_mode_controller initial) rs)
set_modes-IsTraced initial rs =
    set_modes_keep-IsTraced (new_operating_mode_controller initial) rs
      (new_controller-IsTraced initial)

validated-is_valid_mode :
    (text : String) (mode : NodeOperatingMode)
    → validate_mode_string text ≡ some mode
    → is_valid_mode mode ≡ true
unfolding validate_mode_string
validated-is_valid_mode text (other_mode s) h = ground arith
validated-is_valid_mode text mode h = refl

set_mode_valid :
    (c : Controller) (cause : String) (now : ℕ) (mode : NodeOperatingMode)
    → is_valid_mode mode ≡ true
    → ((set_mode c mode cause now).1 ≡ true)
      × (same_mode (set_mode c mode cause now).0.current_mode mode ≡ true)
      × (allows_discovery (set_mode c mode cause now).0 ≡ (
          allows_unpinned_peers (set_mode c mode cause now).0
          && not (is_degraded (set_mode c mode cause now).0)))
unfolding set_mode allows_discovery allows_unpinned_peers is_degraded
set_mode_valid c cause now (other_mode s) h = ground arith
set_mode_valid c cause now mode h = ground arith

-- A text that ValidateModeString reads is a mode that SetMode accepts, and it is the current mode
-- after that: one that allows discovery only if it allows unpinned peers and is not degraded.
pub validate_mode_string-set_mode :
    (c : Controller) (text cause : String) (now : ℕ) (mode : NodeOperatingMode)
    → validate_mode_string text ≡ some mode
    → ((set_mode c mode cause now).1 ≡ true)
      × (same_mode (set_mode c mode cause now).0.current_mode mode ≡ true)
      × (allows_discovery (set_mode c mode cause now).0 ≡ (
          allows_unpinned_peers (set_mode c mode cause now).0
          && not (is_degraded (set_mode c mode cause now).0)))
validate_mode_string-set_mode c text cause now mode h =
    set_mode_valid c cause now mode (validated-is_valid_mode text mode h)
