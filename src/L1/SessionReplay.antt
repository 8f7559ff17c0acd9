-- ===== src/L1/SessionReplay.antt =====
-- AntiReplayFilter of src/pkg/l1/anti_replay_session.go: a replay window for each session, over the
-- quotas of the memory arbiter. The clock is an argument of each call. fmt's text
-- `originDID:sessionID` is the parameter `session_key`. The lock makes each call one step.
pub mod Bits
unfoldable pub use Bits.*
pub mod Words
pub mod Steps
pub mod Sessions
pub mod Guarantees
pub mod Budget
mod Tests
use ipvn.Base.{
  ℕ, zero, suc, ◌+◌, ◌-◌, ◌/◌, ◌%◌, bit_and, bit_or, String, Bool, true, false, ◌&&◌, ◌||◌, not,
  List, [], ◌∷◌, Option, none, some, ltb, leb, ◌==◌, if◌then◌else◌, get_or, set, replicate, length,
}
use ipvn.Base.Dict.{lookup, insert}
use ipvn.Base.Int.{ℤ, pos, negsuc, ◌-ℤ◌, ltb_ℤ, s64}
use ipvn.Base.Words.{shl64, shr64, u64}
use ipvn.L1.Memory.{Arbiter, BudgetClass, replay, reserve}

abbrev pub max_allowed_jitter_sec : ℕ
max_allowed_jitter_sec = 60

pub record SessionReplayTracker : Type 0 where
  pub session_id : ℕ
  pub max_seq : ℕ
  pub seen_bits : List ℕ
  pub last_seen : ℤ

pub record AntiReplayStats : Type 0 where
  pub evaluated_packets : ℕ
  pub accepted_packets : ℕ
  pub immediate_replays : ℕ
  pub stale_replays : ℕ
  pub cross_session_drops : ℕ
  pub timestamp_drops : ℕ

pub record SessionFilter : Type 0 where
  pub sessions : List (String × SessionReplayTracker)
  pub latest_seen : List (String × ℤ)
  pub latest_session : List (String × ℕ)
  pub arbiter : Option Arbiter
  pub stats : AntiReplayStats

unfoldable pub new_session_filter : Option Arbiter → SessionFilter
new_session_filter arbiter = record {
  sessions = [];
  latest_seen = [];
  latest_session = [];
  arbiter = arbiter;
  stats = record {
    evaluated_packets = 0;
    accepted_packets = 0;
    immediate_replays = 0;
    stale_replays = 0;
    cross_session_drops = 0;
    timestamp_drops = 0;
  };
}

-- A timestamp in nanoseconds or milliseconds is brought to seconds.
unfoldable pub to_seconds : ℤ → ℤ
to_seconds (pos ts) =
    if ltb 100000000000000 ts
    then pos (ts / 1000000000)
    else (if ltb 100000000000 ts then pos (ts / 1000) else pos ts)
to_seconds (negsuc ts) = negsuc ts

-- `now - tsSec` in int64, more than a minute old or more than ten seconds ahead.
unfoldable pub is_out_of_time : ℤ → ℤ → Bool
is_out_of_time now ts_sec =
    let diff = s64 (now -ℤ ts_sec) in
    ltb_ℤ (pos max_allowed_jitter_sec) diff || ltb_ℤ diff (negsuc 9)

-- Reading a missing key of a Go map gives the zero value.
abbrev pub value_or {ℓ} : {V : Type ℓ} → Option V → V → V
value_or none d = d
value_or (some v) d = v

-- The arguments of a call of Accept, and the clock at it.
pub record Packet : Type 0 where
  pub origin_did : String
  pub session_id : ℕ
  pub seq : ℕ
  pub ts : ℤ
  pub now : ℤ

abbrev pub count_evaluated : SessionFilter → SessionFilter
count_evaluated f = record f {
  stats = record (f.stats) { evaluated_packets = u64 (f.stats.evaluated_packets + 1) };
}

abbrev count_accepted : AntiReplayStats → AntiReplayStats
count_accepted s = record s { accepted_packets = u64 (s.accepted_packets + 1) }

-- `if tsSec > lastSeenTs { … }` and `if sessionID > lastSessID { … }`.
unfoldable pub note_latest : SessionFilter → Packet → SessionFilter
note_latest f p =
    let ts_sec = to_seconds p.ts in
    record f {
      latest_seen =
          if ltb_ℤ (value_or (lookup p.origin_did f.latest_seen) (pos 0)) ts_sec
          then insert p.origin_did ts_sec f.latest_seen
          else f.latest_seen;
      latest_session =
          if ltb (value_or (lookup p.origin_did f.latest_session) 0) p.session_id
          then insert p.origin_did p.session_id f.latest_session
          else f.latest_session;
    }

unfoldable pub is_cross_session : SessionFilter → Packet → Bool
is_cross_session f p =
    let last_sess_id = value_or (lookup p.origin_did f.latest_session) 0 in
    ltb 0 last_sess_id
    && ltb p.session_id last_sess_id
    && ltb_ℤ (to_seconds p.ts) (value_or (lookup p.origin_did f.latest_seen) (pos 0))

-- `f.arbiter != nil && !f.arbiter.Reserve(BudgetReplay, 256)` refuses; the arbiter is changed
-- either way.
unfoldable pub reserve_session : Option Arbiter → Option Arbiter × Bool
reserve_session none = (none, true)
reserve_session (some a) = let (a', granted) = reserve a replay 256 in (some a', granted)

-- The branch of Accept for a session without a tracker.
unfoldable pub open_session : SessionFilter → String → Packet → SessionFilter × Bool
open_session f key p =
    let (arbiter', granted) = reserve_session f.arbiter in
    let f' = note_latest (record f { arbiter = arbiter' }) p in
    let tracker : SessionReplayTracker = record {
      session_id = p.session_id;
      max_seq = p.seq;
      seen_bits = mark_bit fresh_bits 0;
      last_seen = p.now;
    } in
    if granted
    then (
      record f' { sessions = insert key tracker f.sessions; stats = count_accepted f.stats },
      true,
    )
    else (record f { arbiter = arbiter' }, false)

pub data Verdict : Type 0 where
  fresh stale_replay immediate_replay : Verdict

-- The window of a tracker, from `seq > tracker.MaxSeq` on.
unfoldable pub slide : SessionReplayTracker → ℕ → SessionReplayTracker × Verdict
slide t seq =
    let shift = seq - t.max_seq in
    let offset = t.max_seq - seq in
    if ltb t.max_seq seq
    then (
      record t {
        max_seq = seq;
        seen_bits =
            mark_bit
              (if leb anti_replay_window_size shift
                then fresh_bits
                else shift_window t.seen_bits shift)
              0;
      },
      fresh,
    )
    else (if leb anti_replay_window_size offset
        then (t, stale_replay)
        else (if is_bit_set t.seen_bits offset
            then (t, immediate_replay)
            else (record t { seen_bits = mark_bit t.seen_bits offset }, fresh)))

abbrev count_verdict : Verdict → AntiReplayStats → AntiReplayStats
count_verdict fresh s = count_accepted s
count_verdict stale_replay s = record s { stale_replays = u64 (s.stale_replays + 1) }
count_verdict immediate_replay s = record s { immediate_replays = u64 (s.immediate_replays + 1) }

abbrev is_fresh : Verdict → Bool
is_fresh fresh = true
is_fresh v = false

-- The branch of Accept for a session with a tracker.
unfoldable pub follow_session :
    SessionFilter → String → Packet → SessionReplayTracker → SessionFilter × Bool
follow_session f key p t =
    let (t', verdict) = slide (record t { last_seen = p.now }) p.seq in
    (
      record (note_latest f p) {
        sessions = insert key t' f.sessions;
        stats = count_verdict verdict f.stats;
      },
      is_fresh verdict,
    )

abbrev pub in_session :
    SessionFilter → String → Packet → Option SessionReplayTracker → SessionFilter × Bool
in_session f key p none = open_session f key p
in_session f key p (some t) = follow_session f key p t

module _ (session_key : String → ℕ → String) where
  abbrev pub key_of : Packet → String
  key_of p = session_key p.origin_did p.session_id

  unfoldable pub accept : SessionFilter → Packet → SessionFilter × Bool
  accept f0 p =
      let f = count_evaluated f0 in
      if is_out_of_time p.now (to_seconds p.ts)
      then (
        record f {
          stats = record (f.stats) { timestamp_drops = u64 (f.stats.timestamp_drops + 1) };
        },
        false,
      )
      else (if is_cross_session f p
          then (
            record f {
              stats = record (f.stats) {
                cross_session_drops = u64 (f.stats.cross_session_drops + 1);
              };
            },
            false,
          )
          else in_session f (key_of p) p (lookup (key_of p) f.sessions))

  unfoldable pub accept_all : SessionFilter → List Packet → SessionFilter × List Bool
  accept_all f [] = (f, [])
  accept_all f (p ∷ ps) =
      let (f', verdict) = accept f p in
      let (f'', verdicts) = accept_all f' ps in (f'', verdict ∷ verdicts)
