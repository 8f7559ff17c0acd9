-- ===== src/L1/KeyRotation/Tests.antt =====
-- A sentinel with a toy hash.
use ipvn.Base.{ℕ, ◌≡◌, String, true, false, List, [], ◌∷◌, some, arith, length}
use ipvn.L1.KeyRotation.{Sentinel, zero_key, needs_rotation, track_all, rotate}
use ipvn.L1.KeyRotation.Budget.{needs_rotation-rotate}

abbrev toy_hash : List ℕ → List ℕ
toy_hash bytes = length bytes ∷ []

abbrev epoch_text : ℕ → String → List ℕ
epoch_text n id = n ∷ []

abbrev sentinel : Sentinel
sentinel = record {
  session_id = "s";
  keys = record {
    epoch = 1;
    active_key = 7 ∷ [];
    previous_key = zero_key;
    created_at = 0;
    has_previous = false;
  };
  bytes_count = 90;
  packets_count = 3;
  max_bytes = 100;
  max_packets = 4;
  lifetime = 50;
}

needs_rotation-rotate_example :
    needs_rotation
      (track_all
        (rotate toy_hash epoch_text sentinel (some (5 ∷ [])) 10).0
        ((30, 11) ∷ (70, 12) ∷ []))
      13
    ≡ true
needs_rotation-rotate_example =
    needs_rotation-rotate toy_hash epoch_text sentinel (5 ∷ []) 10 ((30, 11) ∷ (70, 12) ∷ []) 13
      (omega arith) (omega arith)
