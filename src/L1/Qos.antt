-- ===== src/L1/Qos.antt =====
-- QoSManager of src/pkg/l1/qos.go: a token bucket for each identity, and proofs of work that refill
-- it. Go's float64, SHA-256, the hex codec and the text that a challenge is hashed from are
-- parameters. The clock is monotonic; each reading of it is an argument.
pub mod Pow
pub mod Buckets
pub mod Credit
mod Tests
use ipvn.Base.{
  ℕ, zero, suc, ◌+◌, ◌-◌, ◌*◌, ◌/◌, ◌%◌, ◌^◌, String, Bool, true, false, List, [], ◌∷◌, ◌++◌,
  Option, none, some, ltb, ◌==◌, if◌then◌else◌,
}
use ipvn.Base.Dict.{lookup, insert, delete}

pub data TrafficClass : Type 0 where
  control : TrafficClass
  interactive : TrafficClass
  bulk : TrafficClass

-- Amounts of tokens: Go's float64, `Sub(…).Seconds()`, and the three figures of NewQoSManager.
pub record Floats : Type 1 where
  pub F : Type 0
  pub of_int : ℕ → F
  pub seconds : ℕ → F
  pub add : F → F → F
  pub sub : F → F → F
  pub mul : F → F → F
  pub gt : F → F → Bool
  pub ge : F → F → Bool
  pub rate_1179648 : F
  pub burst_65536 : F
  pub threshold_1000 : F

-- The libraries that the proofs of work call.
pub record Hashing : Type 0 where
  pub sha256 : List ℕ → List ℕ
  pub decode_hex : String → Option (List ℕ)
  pub challenge_hex : String → List ℕ → ℕ → String

pub record Challenge : Type 0 where
  pub peer_did : String
  pub challenge : String
  pub difficulty : ℕ
  pub issued_at : ℕ
  pub expires_at : ℕ

-- The readings of the clock during one EvaluatePacket, in their order.
pub record Readings : Type 0 where
  pub created : ℕ
  pub consumed : ℕ
  pub stamped : ℕ
  pub issued : ℕ
  pub lasting : ℕ

abbrev pub pow_lifetime_ns : ℕ
pow_lifetime_ns = 30000000000

abbrev pub byte_at : ℕ → ℕ → ℕ
byte_at x i = x / 256 ^ i % 256

-- binary.BigEndian.PutUint64.
abbrev pub put_uint64 : ℕ → List ℕ
put_uint64 x =
    byte_at x 7
    ∷ byte_at x 6
    ∷ byte_at x 5
    ∷ byte_at x 4
    ∷ byte_at x 3
    ∷ byte_at x 2
    ∷ byte_at x 1
    ∷ byte_at x 0
    ∷ []

-- The loop over the first bytes of a hash.
unfoldable pub starts_with_zeros : ℕ → List ℕ → Bool
starts_with_zeros zero hash = true
starts_with_zeros (suc n) [] = true
starts_with_zeros (suc n) (b ∷ hash) =
    let rest = starts_with_zeros n hash in if b == 0 then rest else false

-- What SolvePoW returns: an error, or a nonce; the loop itself has no bound, the model has fuel.
pub data Solution : Type 0 where
  bad_hex : Solution
  found : ℕ → Solution
  out_of_fuel : Solution

module _ (h : Hashing) where
  unfoldable pub is_solution : List ℕ → ℕ → ℕ → Bool
  is_solution ch_bytes difficulty nonce =
      starts_with_zeros (difficulty / 8) (h.sha256 (ch_bytes ++ put_uint64 nonce))

  -- The unbounded loop of SolvePoW from a nonce on; nonces wrap as uint64 do.
  unfoldable pub search_nonce : ℕ → List ℕ → ℕ → ℕ → Solution
  search_nonce zero ch_bytes difficulty nonce = out_of_fuel
  search_nonce (suc fuel) ch_bytes difficulty nonce =
      let next = search_nonce fuel ch_bytes difficulty ((nonce + 1) % 2 ^ 64) in
      if is_solution ch_bytes difficulty nonce then found nonce else next

  unfoldable pub solve_pow : ℕ → String → ℕ → Solution
  solve_pow fuel challenge_hex difficulty = elim (h.decode_hex challenge_hex) [
    | none ↦ bad_hex
    | some ch_bytes ↦ search_nonce fuel ch_bytes difficulty 0
  ]

pub record TokenBucket (f : Floats) : Type 0 where
  pub capacity : f.F
  pub tokens : f.F
  pub refill_rate : f.F
  pub last_refill : ℕ

pub record QosManager (f : Floats) : Type 0 where
  pub buckets : List (String × TokenBucket f)
  pub active_pows : List (String × Challenge)
  pub default_rate : f.F
  pub burst_limit : f.F
  pub pow_threshold : f.F
  pub total_throttled : ℕ
  pub pows_issued : ℕ
  pub pows_solved : ℕ

module _ (f : Floats) where
  abbrev pub new_token_bucket : f.F → f.F → ℕ → TokenBucket f
  new_token_bucket capacity refill_rate now = record {
    capacity = capacity;
    tokens = capacity;
    refill_rate = refill_rate;
    last_refill = now;
  }

  -- Consume up to its test.
  unfoldable pub refill : TokenBucket f → ℕ → TokenBucket f
  refill tb now =
      let tokens = f.add tb.tokens (f.mul (f.seconds (now - tb.last_refill)) tb.refill_rate) in
      record tb {
        last_refill = now;
        tokens = if f.gt tokens tb.capacity then tb.capacity else tokens;
      }

  unfoldable pub consume : TokenBucket f → f.F → ℕ → TokenBucket f × Bool
  consume tb n now =
      let filled = refill tb now in
      if f.ge filled.tokens n
      then (record filled { tokens = f.sub filled.tokens n }, true)
      else (filled, false)

  unfoldable pub new_qos_manager : QosManager f
  new_qos_manager = record {
    buckets = [];
    active_pows = [];
    default_rate = f.rate_1179648;
    burst_limit = f.burst_65536;
    pow_threshold = f.threshold_1000;
    total_throttled = 0;
    pows_issued = 0;
    pows_solved = 0;
  }

  -- The bucket of an identity, a new one where it has none.
  unfoldable pub bucket_or_new : QosManager f → String → ℕ → TokenBucket f
  bucket_or_new qm did now = elim (lookup did qm.buckets) [
    | none ↦ new_token_bucket qm.burst_limit qm.default_rate now
    | some b ↦ b
  ]

  abbrev pub new_challenge : Hashing → String → List ℕ → Readings → Challenge
  new_challenge h did salt t = record {
    peer_did = did;
    challenge = h.challenge_hex did salt t.stamped;
    difficulty = 16;
    issued_at = t.issued;
    expires_at = t.lasting + pow_lifetime_ns;
  }

  -- The packet is refused and a proof of work asked for.
  unfoldable pub throttle : QosManager f → Challenge → QosManager f
  throttle qm ch = record qm {
    total_throttled = (qm.total_throttled + 1) % 2 ^ 64;
    pows_issued = (qm.pows_issued + 1) % 2 ^ 64;
    active_pows = insert ch.challenge ch qm.active_pows;
  }

  -- What EvaluatePacket does with a packet that is not control traffic.
  unfoldable pub evaluate_data :
      Hashing
      → QosManager f
      → String
      → ℕ
      → List ℕ
      → Readings
      → QosManager f × Bool × Option Challenge
  evaluate_data h qm did size salt t =
      let (tb, allowed) = consume (bucket_or_new qm did t.created) (f.of_int size) t.consumed in
      let charged = record qm { buckets = insert did tb qm.buckets } in
      let ch = new_challenge h did salt t in
      if allowed then (charged, true, none) else (throttle charged ch, false, some ch)

  unfoldable pub evaluate_packet :
      Hashing
      → QosManager f
      → String
      → TrafficClass
      → ℕ
      → List ℕ
      → Readings
      → QosManager f × Bool × Option Challenge
  evaluate_packet h qm did control size salt t = (qm, true, none)
  evaluate_packet h qm did tc size salt t = evaluate_data h qm did size salt t

  unfoldable pub restored : QosManager f → String → List (String × TokenBucket f)
  restored qm did = elim (lookup did qm.buckets) [
    | none ↦ qm.buckets
    | some b ↦ insert did (record b { tokens = qm.burst_limit }) qm.buckets
  ]

  unfoldable pub credit : QosManager f → String → Challenge → QosManager f
  credit qm challenge_hex ch = record qm {
    active_pows = delete challenge_hex qm.active_pows;
    pows_solved = (qm.pows_solved + 1) % 2 ^ 64;
    buckets = restored qm ch.peer_did;
  }

  -- A pending challenge whose time is not over.
  unfoldable pub check_solution :
      Hashing → QosManager f → String → Challenge → ℕ → QosManager f × Bool
  check_solution h qm challenge_hex ch nonce = elim (h.decode_hex ch.challenge) [
    | none ↦ (qm, false)
    | some ch_bytes ↦
        if is_solution h ch_bytes ch.difficulty nonce
        then (credit qm challenge_hex ch, true)
        else (qm, false)
  ]

  unfoldable pub verify_and_credit_pow :
      Hashing → QosManager f → String → ℕ → ℕ → QosManager f × Bool
  verify_and_credit_pow h qm challenge_hex nonce now =
      let forgotten = record qm { active_pows = delete challenge_hex qm.active_pows } in
      elim (lookup challenge_hex qm.active_pows) [
        | none ↦ (forgotten, false)
        | some ch ↦
            if ltb ch.expires_at now
            then (forgotten, false)
            else check_solution h qm challenge_hex ch nonce
      ]
