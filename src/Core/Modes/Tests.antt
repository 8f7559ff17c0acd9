-- ===== src/Core/Modes/Tests.antt =====
-- A few changes of mode.
use ipvn.Base.{List, [], ◌∷◌, ◌≡◌, refl, length}
use ipvn.Core.Modes.{
  Controller, mode_open, mode_safe, mode_degraded, other_mode, new_operating_mode_controller,
  set_mode, set_modes, ModeRequest,
}

abbrev requests : List ModeRequest
requests =
    record { mode = mode_safe; cause = "a"; at = 1 }
    ∷ record { mode = mode_safe; cause = "b"; at = 2 }
    ∷ record { mode = other_mode "x"; cause = "c"; at = 3 }
    ∷ record { mode = mode_degraded; cause = "d"; at = 4 }
    ∷ []

requests_history :
    length (set_modes (new_operating_mode_controller (other_mode "")) requests).history ≡ 2
unfolding set_modes set_mode new_operating_mode_controller
requests_history = refl

abbrev open_controller : Controller
open_controller = new_operating_mode_controller mode_open
