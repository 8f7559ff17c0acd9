-- ===== src/Core/Modes.antt =====
-- OperatingModeController of src/pkg/core/operating_modes.go. The mode is a string type: any text
-- may be asked for. The lock makes each call one step; the clock is an argument of SetMode.
pub mod History
mod Tests
use ipvn.Base.{
  ℕ, String, Bool, true, false, not, List, [], ◌∷◌, ◌++◌, Option, none, some, leb, if◌then◌else◌,
  length, str_eq, ◌||◌,
}

pub data NodeOperatingMode : Type 0 where
  mode_open mode_safe mode_degraded : NodeOperatingMode
  other_mode : String → NodeOperatingMode

pub record ModeTransition : Type 0 where
  pub from_mode : NodeOperatingMode
  pub to_mode : NodeOperatingMode
  pub reason : String
  pub timestamp : ℕ

pub record Controller : Type 0 where
  pub current_mode : NodeOperatingMode
  pub history : List ModeTransition

abbrev initial_or_open : NodeOperatingMode → NodeOperatingMode
initial_or_open (other_mode s) = if str_eq s "" then mode_open else other_mode s
initial_or_open m = m

unfoldable pub new_operating_mode_controller : NodeOperatingMode → Controller
new_operating_mode_controller initial = record {
  current_mode = initial_or_open initial;
  history = [];
}

abbrev pub is_valid_mode : NodeOperatingMode → Bool
is_valid_mode (other_mode s) = false
is_valid_mode m = true

abbrev pub same_mode : NodeOperatingMode → NodeOperatingMode → Bool
same_mode mode_open mode_open = true
same_mode mode_safe mode_safe = true
same_mode mode_degraded mode_degraded = true
same_mode (other_mode s) (other_mode t) = str_eq s t
same_mode m n = false

-- `c.history[1:]`.
abbrev pub without_first : List ModeTransition → List ModeTransition
without_first [] = []
without_first (t ∷ ts) = ts

abbrev pub bounded : List ModeTransition → List ModeTransition
bounded h = if leb 32 (length h) then without_first h else h

-- The error of an unknown mode is `false`.
unfoldable pub set_mode : Controller → NodeOperatingMode → String → ℕ → Controller × Bool
set_mode c new_mode reason now =
    let transition : ModeTransition = record {
      from_mode = c.current_mode;
      to_mode = new_mode;
      reason = reason;
      timestamp = now;
    } in
    if not (is_valid_mode new_mode)
    then (c, false)
    else (if same_mode c.current_mode new_mode then (c, true) else (
      record { current_mode = new_mode; history = bounded c.history ++ (transition ∷ []) },
      true,
    ))

unfoldable pub allows_discovery : Controller → Bool
allows_discovery c = same_mode c.current_mode mode_open

unfoldable pub allows_unpinned_peers : Controller → Bool
allows_unpinned_peers c = not (same_mode c.current_mode mode_safe)

unfoldable pub is_degraded : Controller → Bool
is_degraded c = same_mode c.current_mode mode_degraded

unfoldable pub validate_mode_string : String → Option NodeOperatingMode
validate_mode_string m =
    if str_eq m "MODE_OPEN" || str_eq m "open" || str_eq m "OPEN"
    then some mode_open
    else (if str_eq m "MODE_SAFE" || str_eq m "safe" || str_eq m "SAFE"
        then some mode_safe
        else (if str_eq m "MODE_DEGRADED" || str_eq m "degraded" || str_eq m "DEGRADED"
            then some mode_degraded
            else none))

pub record ModeRequest : Type 0 where
  pub mode : NodeOperatingMode
  pub cause : String
  pub at : ℕ

unfoldable pub set_modes : Controller → List ModeRequest → Controller
set_modes c [] = c
set_modes c (r ∷ rs) = set_modes (set_mode c r.mode r.cause r.at).0 rs
