-- ===== src/L1/BlindStore.antt =====
-- MemoryBlindBeaconStore of src/pkg/l1/blind_store.go. Times are in nanoseconds; the clock is an
-- argument. The lock makes each call one step.
pub mod Lifetimes
mod Tests
use ipvn.Base.{ℕ, ◌+◌, String, Bool, List, [], ◌∷◌, Option, none, some, ltb, if◌then◌else◌}
use ipvn.Base.Dict.{lookup, insert, delete}

pub record StoredBeacon : Type 0 where
  pub bytes : List ℕ
  pub expires_at : ℕ

pub data BeaconError : Type 0 where
  not_found out_of_date : BeaconError

pub data Fetched : Type 0 where
  found : List ℕ → Fetched
  failed : BeaconError → Fetched

abbrev pub Store : Type 0
Store = List (String × StoredBeacon)

unfoldable pub new_store : Store
new_store = []

unfoldable pub put_beacon : Store → String → List ℕ → ℕ → ℕ → Store
put_beacon m topic bytes ttl now = insert topic (record { bytes = bytes; expires_at = now + ttl }) m

abbrev pub fetched : Option StoredBeacon → ℕ → Fetched
fetched none now = failed not_found
fetched (some b) now = if ltb b.expires_at now then failed out_of_date else found b.bytes

unfoldable pub get_beacon : Store → String → ℕ → Fetched
get_beacon m topic now = fetched (lookup topic m) now

pub data FetchedAll : Type 0 where
  found_all : List (List ℕ) → FetchedAll
  failed_all : BeaconError → FetchedAll

abbrev pub as_all : Fetched → FetchedAll
as_all (found b) = found_all (b ∷ [])
as_all (failed e) = failed_all e

unfoldable pub get_all_beacons : Store → String → ℕ → FetchedAll
get_all_beacons m topic now = as_all (get_beacon m topic now)

unfoldable pub delete_beacon : Store → String → Store
delete_beacon m topic = delete topic m

pub data StoreCall : Type 0 where
  puts : String → List ℕ → ℕ → ℕ → StoreCall
  deletes : String → StoreCall

unfoldable pub call : Store → StoreCall → Store
call m (puts topic bytes ttl now) = put_beacon m topic bytes ttl now
call m (deletes topic) = delete_beacon m topic

unfoldable pub call_all : Store → List StoreCall → Store
call_all m [] = m
call_all m (c ∷ cs) = call_all (call m c) cs
