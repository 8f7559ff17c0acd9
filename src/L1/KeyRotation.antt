-- ===== src/L1/KeyRotation.antt =====
-- KeyRotationSentinel of src/pkg/l1/key_rotation.go. Keys are rows of bytes, times nanoseconds. The
-- hash of crypto/sha256 and fmt's text `epoch:N:ID` are parameters; the bytes that crypto/rand
-- gives a call, or none, are an argument. The lock and the atomics make each call one step.
pub mod Budget
pub mod Epochs
mod Tests
use ipvn.Base.{
  ℕ, ◌+◌, ◌-◌, String, Bool, true, false, ◌&&◌, ◌||◌, List, [], ◌∷◌, ◌++◌, Option, none, some, ltb,
  leb, if◌then◌else◌, replicate,
}
use ipvn.Base.Words.{u64}

abbrev pub default_max_bytes_per_key : ℕ
default_max_bytes_per_key = 1073741824

abbrev pub default_max_packets_per_key : ℕ
default_max_packets_per_key = 1000000

abbrev pub default_key_lifetime : ℕ
default_key_lifetime = 3600000000000

abbrev pub key_transition_grace_period : ℕ
key_transition_grace_period = 30000000000

-- `[32]byte{}`.
abbrev pub zero_key : List ℕ
zero_key = replicate 32 0

pub record SessionKeys : Type 0 where
  pub epoch : ℕ
  pub active_key : List ℕ
  pub previous_key : List ℕ
  pub created_at : ℕ
  pub has_previous : Bool

pub record Sentinel : Type 0 where
  pub session_id : String
  pub keys : SessionKeys
  pub bytes_count : ℕ
  pub packets_count : ℕ
  pub max_bytes : ℕ
  pub max_packets : ℕ
  pub lifetime : ℕ

unfoldable pub new_key_rotation_sentinel : String → Option (List ℕ) → ℕ → Option Sentinel
new_key_rotation_sentinel session_id none now = none
new_key_rotation_sentinel session_id (some initial_key) now = some (record {
  session_id = session_id;
  keys = record {
    epoch = 1;
    active_key = initial_key;
    previous_key = zero_key;
    created_at = now;
    has_previous = false;
  };
  bytes_count = 0;
  packets_count = 0;
  max_bytes = default_max_bytes_per_key;
  max_packets = default_max_packets_per_key;
  lifetime = default_key_lifetime;
})

unfoldable pub needs_rotation : Sentinel → ℕ → Bool
needs_rotation s now =
    leb s.max_bytes s.bytes_count
    || leb s.max_packets s.packets_count
    || leb s.lifetime (now - s.keys.created_at)

-- The size of a packet is that of its uint64.
unfoldable pub track_traffic : Sentinel → ℕ → ℕ → Sentinel × Bool
track_traffic s packet_bytes now =
    let s' = record s {
      bytes_count = u64 (s.bytes_count + packet_bytes);
      packets_count = u64 (s.packets_count + 1);
    } in
    (s', needs_rotation s' now)

unfoldable pub get_keys : Sentinel → ℕ → SessionKeys
get_keys s now =
    if s.keys.has_previous && ltb key_transition_grace_period (now - s.keys.created_at)
    then record (s.keys) { has_previous = false; previous_key = zero_key }
    else s.keys

unfoldable pub set_limits : Sentinel → ℕ → ℕ → ℕ → Sentinel
set_limits s max_bytes max_packets lifetime = record s {
  max_bytes = max_bytes;
  max_packets = max_packets;
  lifetime = lifetime;
}

-- The sizes of packets that go by, each with the time of its call.
unfoldable pub track_all : Sentinel → List (ℕ × ℕ) → Sentinel
track_all s [] = s
track_all s ((packet_bytes, now) ∷ ps) = track_all (track_traffic s packet_bytes now).0 ps

module _ (sha256 : List ℕ → List ℕ) (epoch_text : ℕ → String → List ℕ) where
  unfoldable pub next_key : Sentinel → List ℕ → List ℕ
  next_key s salt =
      sha256 (s.keys.active_key ++ salt ++ epoch_text (u64 (s.keys.epoch + 1)) s.session_id)

  -- The error of a failed read of the salt is `none`.
  unfoldable pub rotate : Sentinel → Option (List ℕ) → ℕ → Sentinel × Option ℕ
  rotate s none now = (s, none)
  rotate s (some salt) now = (
    record s {
      keys = record {
        epoch = u64 (s.keys.epoch + 1);
        active_key = next_key s salt;
        previous_key = s.keys.active_key;
        created_at = now;
        has_previous = true;
      };
      bytes_count = 0;
      packets_count = 0;
    },
    some (u64 (s.keys.epoch + 1)),
  )
