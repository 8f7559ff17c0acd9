-- ===== src/L1/KeyRotation/Epochs.antt =====
-- The keys of two epochs and the period of grace, in src/pkg/l1/key_rotation.go.
use ipvn.Base.{ℕ, ◌+◌, ◌≤◌, ◌≡◌, String, List, some, ltb, if◌then◌else◌, arith}
use ipvn.Base.Words.{u64}
use ipvn.L1.KeyRotation.{
  Sentinel, zero_key, key_transition_grace_period, get_keys, next_key, rotate,
}

-- After a rotation with a salt at `start`, the keys read at a later time are: the hash of the old
-- active key, the salt and the text of the new epoch as the active key; and, up to the end of the
-- period of grace, the old active key as the previous one, then no previous key but zeros.
pub get_keys-rotate :
    (sha256 : List ℕ → List ℕ) (epoch_text : ℕ → String → List ℕ) (s : Sentinel) (salt : List ℕ)
    (start now : ℕ)
    → start ≤ now
    → ((get_keys (rotate sha256 epoch_text s (some salt) start).0 now).active_key
        ≡ next_key sha256 epoch_text s salt)
      × ((get_keys (rotate sha256 epoch_text s (some salt) start).0 now).epoch
          ≡ u64 (s.keys.epoch + 1))
      × ((get_keys (rotate sha256 epoch_text s (some salt) start).0 now).previous_key
          ≡ (if ltb (start + key_transition_grace_period) now then zero_key else s.keys.active_key))
unfolding get_keys rotate
get_keys-rotate sha256 epoch_text s salt start now h = ground arith
