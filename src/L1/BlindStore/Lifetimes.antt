-- ===== src/L1/BlindStore/Lifetimes.antt =====
-- How long a beacon can be read.
use ipvn.Base.{
  ℕ, ◌+◌, ◌≡◌, ◌≢◌, refl, ap, ◌∙◌, String, List, [], ◌∷◌, none, ltb, if◌then◌else◌, arith, All,
  str_eq_iff,
}
use ipvn.Base.Dict.{lookup, delete, lookup-insert, lookup-insert_self, lookup-delete}
use ipvn.L1.BlindStore.{
  not_found, out_of_date, found, failed, Store, put_beacon, fetched, get_beacon, delete_beacon,
  StoreCall, puts, deletes, call, call_all,
}

-- The call is about another topic.
abbrev pub IsElsewhere : String → StoreCall → Type 0
IsElsewhere topic (puts t bytes ttl now) = t ≢ topic
IsElsewhere topic (deletes t) = t ≢ topic

lookup-call :
    (topic : String) (m : Store) (c : StoreCall)
    → IsElsewhere topic c
    → lookup topic (call m c) ≡ lookup topic m
unfolding call put_beacon delete_beacon
lookup-call topic m (puts t bytes ttl now) h = ground (
  arith,
  lookup-insert t topic (record { bytes = bytes; expires_at = now + ttl }) m,
  str_eq_iff t topic,
)
lookup-call topic m (deletes t) h = ground (arith, lookup-delete t topic m, str_eq_iff t topic)

lookup-call_all :
    (topic : String) (m : Store) (cs : List StoreCall)
    → All (IsElsewhere topic) cs
    → lookup topic (call_all m cs) ≡ lookup topic m
unfolding call_all
lookup-call_all topic m [] h = refl
lookup-call_all topic m (c ∷ cs) h =
    lookup-call_all topic (call m c) cs h.1 ∙ lookup-call topic m c h.0

-- A beacon that is put is read back, after any calls about other topics, until its time to live has
-- passed, and after that refused as out of date.
pub get_beacon-put_beacon :
    (m : Store) (topic : String) (bytes : List ℕ) (ttl start : ℕ) (cs : List StoreCall) (now : ℕ)
    → All (IsElsewhere topic) cs
    → get_beacon (call_all (put_beacon m topic bytes ttl start) cs) topic now
      ≡ (if ltb (start + ttl) now then failed out_of_date else found bytes)
unfolding get_beacon put_beacon
get_beacon-put_beacon m topic bytes ttl start cs now h =
    ap (λ o. fetched o now)
      (lookup-call_all topic _ cs h
        ∙ lookup-insert_self topic (record { bytes = bytes; expires_at = start + ttl }) m)

-- A deleted topic is not found after any calls about other topics.
pub get_beacon-delete_beacon :
    (m : Store) (topic : String) (cs : List StoreCall) (now : ℕ)
    → All (IsElsewhere topic) cs
    → get_beacon (call_all (delete_beacon m topic) cs) topic now ≡ failed not_found
unfolding get_beacon delete_beacon
get_beacon-delete_beacon m topic cs now h =
    let gone : lookup topic (delete topic m) ≡ none =
      ground (arith, lookup-delete topic topic m, str_eq_iff topic topic) in
    ap (λ o. fetched o now) (lookup-call_all topic (delete topic m) cs h ∙ gone)
