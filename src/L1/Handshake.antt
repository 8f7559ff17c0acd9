-- ===== src/L1/Handshake.antt =====
-- The exchange of keys of src/pkg/l1/pqc_handshake.go. SHA-256 and HMAC are parameters, and so are
-- the encapsulations of src/pkg/l1/pqc_hybrid.go, which stand for X25519 and ML-KEM-768. A
-- timestamp is an int64 of nanoseconds or seconds.
pub mod Agreement
mod Tests
use ipvn.Base.{
  ℕ, ◌+◌, ◌-◌, ◌*◌, ◌/◌, ◌%◌, ◌^◌, String, Bool, true, false, ◌||◌, List, [], ◌∷◌, ◌++◌, Option,
  none, some, ltb, ◌==◌, if◌then◌else◌, take, not,
}
use ipvn.Base.Int.{ℤ, pos, negsuc, pos_part, ◌-ℤ◌, ltb_ℤ, s64}

abbrev pub Bytes : Type 0
Bytes = List ℕ

pub record SessionKeys : Type 0 where
  pub tx_key : Bytes
  pub rx_key : Bytes
  pub session_id : Bytes
  pub pfs_active : Bool

pub record Ciphertext : Type 0 where
  pub ephemeral_x25519 : Bytes
  pub salt : Bytes
  pub full_pqc_ciphertext : Bytes

pub record HybridKeyPair : Type 0 where
  pub did : String
  pub secret : Bytes

pub record Initiation : Type 0 where
  pub sender_did : String
  pub recipient_did : String
  pub ciphertext : Ciphertext
  pub timestamp : ℤ

pub record Response : Type 0 where
  pub session_id : Bytes
  pub auth_tag : Bytes
  pub timestamp : ℤ

-- The cryptographic calls. The public key of a target is a pair of texts.
pub record Kem : Type 0 where
  pub sha256 : Bytes → Bytes
  pub hmac : Bytes → Bytes → Bytes
  pub text_bytes : String → Bytes
  pub encapsulate : Bytes → String → Option (Bytes × Ciphertext)
  pub decapsulate : HybridKeyPair → Ciphertext → Option Bytes

abbrev pub byte_at : ℕ → ℕ → ℕ
byte_at x i = x / 256 ^ i % 256

-- uint64 of an int64.
abbrev pub word_of : ℤ → ℕ
word_of (pos n) = n % 2 ^ 64
word_of (negsuc n) = 2 ^ 64 - 1 - n % 2 ^ 64

-- PutUint64.
abbrev pub time_bytes : ℤ → Bytes
time_bytes t =
    let x = word_of t in
    byte_at x 7
    ∷ byte_at x 6
    ∷ byte_at x 5
    ∷ byte_at x 4
    ∷ byte_at x 3
    ∷ byte_at x 2
    ∷ byte_at x 1
    ∷ byte_at x 0
    ∷ []

-- Both comparisons of bytes: hmac.Equal and `==` of arrays.
abbrev pub bytes_eq : Bytes → Bytes → Bool
bytes_eq [] [] = true
bytes_eq (a ∷ xs) (b ∷ ys) = if a == b then bytes_eq xs ys else false
bytes_eq xs ys = false

-- Seconds are brought to nanoseconds, in int64.
abbrev pub to_nano : ℤ → ℤ
to_nano (pos n) = if ltb n 100000000000000 then s64 (pos (n * 1000000000)) else pos n
to_nano (negsuc n) = s64 (negsuc (n * 1000000000 + 999999999))

-- The age is an int64 of nanoseconds.
unfoldable pub is_stale : ℤ → ℤ → Bool
is_stale now timestamp =
    let age = s64 (now -ℤ to_nano timestamp) in
    ltb_ℤ age (negsuc 9999999999) || ltb_ℤ (pos 60000000000) age

module _ (kem : Kem) where
  abbrev pub direction_key : Bytes → Bytes → String → String → String → Bytes
  direction_key shared_key salt from to label = kem.sha256 (
      shared_key
      ++ (salt
          ++ (kem.text_bytes from
              ++ (kem.text_bytes "->" ++ (kem.text_bytes to ++ kem.text_bytes label)))))

  unfoldable pub derive_handshake_keys : Bytes → Bytes → String → String → Bool → SessionKeys
  derive_handshake_keys shared_key salt sender_did recipient_did is_initiator =
      let tx_sum = take 32 (direction_key shared_key salt sender_did recipient_did ":TX_KEY") in
      let rx_sum = take 32 (direction_key shared_key salt recipient_did sender_did ":RX_KEY") in
      record {
        tx_key = if is_initiator then tx_sum else rx_sum;
        rx_key = if is_initiator then rx_sum else tx_sum;
        session_id = take 16 (kem.sha256 (shared_key ++ (salt ++ kem.text_bytes ":SESSION_ID")));
        pfs_active = true;
      }

  unfoldable pub compute_auth_tag : Bytes → Bytes → ℤ → Bytes
  compute_auth_tag key session_id timestamp =
      take 16 (kem.hmac key (session_id ++ time_bytes timestamp))

  abbrev pub initiation_of :
      HybridKeyPair → String → ℤ → Bytes × Ciphertext → Initiation × SessionKeys
  initiation_of initiator_keys target_did now (shared_key, cipher) = (
    record {
      sender_did = initiator_keys.did;
      recipient_did = target_did;
      ciphertext = cipher;
      timestamp = now;
    },
    derive_handshake_keys shared_key cipher.salt initiator_keys.did target_did true,
  )

  -- Without an initiator's keys or a target's key there is an error too.
  unfoldable pub initiate_1rtt :
      Option HybridKeyPair → Option Bytes → String → String → ℤ → Option (Initiation × SessionKeys)
  initiate_1rtt none target_pub target_hex target_did now = none
  initiate_1rtt (some keys) none target_hex target_did now = none
  initiate_1rtt (some keys) (some target_pub) target_hex target_did now =
      elim (kem.encapsulate target_pub target_hex) [
        | none ↦ none
        | some sealed ↦ some (initiation_of keys target_did now sealed)
      ]

  abbrev pub response_of : HybridKeyPair → Initiation → ℤ → Bytes → Response × SessionKeys
  response_of responder_keys init_msg now shared_key =
      let keys =
        derive_handshake_keys shared_key init_msg.ciphertext.salt init_msg.sender_did
          responder_keys.did false in
      (
        record {
          session_id = keys.session_id;
          auth_tag = compute_auth_tag keys.tx_key keys.session_id now;
          timestamp = now;
        },
        keys,
      )

  unfoldable pub respond_1rtt :
      Option HybridKeyPair → Initiation → ℤ → Option (Response × SessionKeys)
  respond_1rtt none init_msg now = none
  respond_1rtt (some keys) init_msg now =
      if is_stale now init_msg.timestamp
      then none
      else elim (kem.decapsulate keys init_msg.ciphertext) [
        | none ↦ none
        | some shared_key ↦ some (response_of keys init_msg now shared_key)
      ]

  -- Whether the response completes the exchange.
  unfoldable pub finalize_1rtt : SessionKeys → Response → Bool
  finalize_1rtt keys resp_msg =
      if bytes_eq keys.session_id resp_msg.session_id
      then bytes_eq resp_msg.auth_tag
          (compute_auth_tag keys.rx_key keys.session_id resp_msg.timestamp)
      else false
