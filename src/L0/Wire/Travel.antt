-- ===== src/L0/Wire/Travel.antt =====
-- A packet of src/pkg/l0/wire.go from its signature to its verification by another node.
use ipvn.Base.{
  ◌≤◌, ◌≡◌, refl, sym, ap, ◌∙◌, subst, true, false, none, some, ltb, ◌==◌, length, arith,
  Bool-cases, Option-cases, inl, inr, ==_iff,
}
use ipvn.L0.Identity.{Crypto, Bytes, Identity, public_key_from_did, sign, verify_signature}
use ipvn.L0.Wire.{
  magic_bytes, wire_version, max_packet_size, WirePacket, Codec, decoded, Encoded, failed, encoded,
  encode, checked_header, decode_packet, unsigned, sign_packet, verify_packet_signature,
}

-- What the CBOR library promises of a packet: its map takes at least five bytes, and is read back.
pub record IsFaithful (codec : Codec) (p : WirePacket) : Type 0 where
  pub configured : codec.config_failed ≡ false
  pub read_back : (bytes : Bytes) → codec.marshal p ≡ some bytes → codec.unmarshal bytes ≡ some p
  pub framed : (bytes : Bytes) → codec.marshal p ≡ some bytes → 5 ≤ length bytes

-- What Ed25519 promises of one key pair.
pub record SignsAll (lib : Crypto) (id : Identity) : Type 0 where
  pub valid :
      (message : Bytes)
      → lib.ed25519_verify id.public_key message (lib.ed25519_sign id.private_key message) ≡ true
  pub not_empty :
      (message : Bytes) → (length (lib.ed25519_sign id.private_key message) == 0) ≡ false

module _ (codec : Codec) (p : WirePacket) (faithful : IsFaithful codec p) where
  -- What was encoded, and within which size.
  encode-inv :
      (bytes : Bytes)
      → encode codec p ≡ encoded bytes
      → (codec.marshal p ≡ some bytes) × (ltb max_packet_size (length bytes) ≡ false)
  unfolding encode
  encode-inv bytes e = elim (Option-cases (codec.marshal p)) [
    | inl m ↦ absurd (ground (arith, m, faithful.configured))
    | inr (found, m) ↦ elim (Bool-cases (ltb max_packet_size (length found))) [
      | inl big ↦ absurd (ground (arith, m, faithful.configured, big))
      | inr fits ↦
          let run : encode codec p ≡ encoded found =
            rw (encode, faithful.configured, m, fits) refl in
          let same : found ≡ bytes = ground (arith, sym run ∙ e) in
          (m ∙ ap some same, subst (λ b. ltb max_packet_size (length b) ≡ false) same fits)
    ]
  ]

  decode_packet-encode :
      (bytes : Bytes)
      → p.magic ≡ magic_bytes
      → p.version ≡ wire_version
      → encode codec p ≡ encoded bytes
      → decode_packet codec bytes ≡ decoded p
  unfolding decode_packet
  decode_packet-encode bytes m v e =
      let (found, fits) = encode-inv bytes e in
      let back = faithful.read_back bytes found in
      let long = faithful.framed bytes found in
      ground (arith, faithful.configured, fits, back, long, m, v)

module _ (codec : Codec) (lib : Crypto) where
  -- The signed packet, and what was signed.
  sign_packet-inv :
      (id : Identity) (p signed : WirePacket)
      → sign_packet codec lib id p ≡ (signed, none)
      → (bytes : Bytes) × ((encode codec (unsigned codec p) ≡ encoded bytes)
          × (signed ≡ record p { signature = sign lib id bytes }))
  unfolding sign_packet
  sign_packet-inv id p signed e = go (encode codec (unsigned codec p)) refl
    where
      go :
          (content : Encoded)
          → encode codec (unsigned codec p) ≡ content
          → (bytes : Bytes) × ((encode codec (unsigned codec p) ≡ encoded bytes)
              × (signed ≡ record p { signature = sign lib id bytes }))
      go (failed f) c =
          let run : sign_packet codec lib id p ≡ (unsigned codec p, some f) =
            rw (sign_packet, c) refl in
          absurd (ground (arith, ap (λ r. r.1) (sym run ∙ e)))
      go (encoded bytes) c =
          let run : sign_packet codec lib id p
              ≡ (record p { signature = sign lib id bytes }, none) =
            rw (sign_packet, c) refl in
          (bytes, (c, sym (ap (λ r. r.0) (sym run ∙ e))))

  signed_verifies :
      (id : Identity) (p : WirePacket) (bytes : Bytes)
      → SignsAll lib id
      → public_key_from_did lib p.source_did ≡ some id.public_key
      → encode codec (unsigned codec p) ≡ encoded bytes
      → verify_packet_signature codec lib (record p { signature = sign lib id bytes }) ≡ true
  unfolding verify_packet_signature sign verify_signature
  signed_verifies id p bytes promise key c =
      rw (promise.not_empty bytes, key, c) (promise.valid bytes)

-- A packet with the magic bytes and the version of this protocol that SignPacket signs for an
-- identity that the source names, and that Encode then serialises, is read by DecodePacket as the
-- packet that was sent, and its signature holds there; signing changed nothing else of it. This
-- relies on the promises of CBOR and Ed25519.
pub decode_packet-sign_packet :
    (codec : Codec) (lib : Crypto) (id : Identity) (p signed : WirePacket) (bytes : Bytes)
    → IsFaithful codec signed
    → SignsAll lib id
    → public_key_from_did lib p.source_did ≡ some id.public_key
    → p.magic ≡ magic_bytes
    → p.version ≡ wire_version
    → sign_packet codec lib id p ≡ (signed, none)
    → encode codec signed ≡ encoded bytes
    → (decode_packet codec bytes ≡ decoded signed)
      × ((verify_packet_signature codec lib signed ≡ true)
          × (unsigned codec signed ≡ unsigned codec p))
decode_packet-sign_packet codec lib id p signed bytes faithful promise key m v s e =
    let (content, (c, same)) = sign_packet-inv codec lib id p signed s in
    (
      decode_packet-encode codec signed faithful bytes (ap (λ q. q.magic) same ∙ m)
          (ap (λ q. q.version) same ∙ v) e,
      (
        subst (λ q. verify_packet_signature codec lib q ≡ true) (sym same)
            (signed_verifies codec lib id p content promise key c),
        ap (unsigned codec) same,
      ),
    )

checked_header-inv :
    (codec : Codec) (q p : WirePacket)
    → checked_header codec q ≡ decoded p
    → (q ≡ p) × ((q.magic ≡ magic_bytes) × (q.version ≡ wire_version))
checked_header-inv codec q p e = elim (Bool-cases (q.magic == magic_bytes)) [
  | inr m ↦ absurd (ground (arith, m, e))
  | inl m ↦ elim (Bool-cases (q.version == wire_version)) [
    | inr v ↦ absurd (ground (arith, m, v, e))
    | inl v ↦
        let run : checked_header codec q ≡ decoded q = rw (m, v) refl in
        (
          ground (arith, sym run ∙ e),
          ((==_iff q.magic magic_bytes).0 m, (==_iff q.version wire_version).0 v),
        )
  ]
]

-- A datagram that DecodePacket accepts has 5 to 1280 bytes, and its packet the magic bytes and the
-- version of this protocol; every other datagram is an error.
pub decode_packet-guards :
    (codec : Codec) (bytes : Bytes) (p : WirePacket)
    → decode_packet codec bytes ≡ decoded p
    → (5 ≤ length bytes)
      × ((length bytes ≤ max_packet_size)
          × ((p.magic ≡ magic_bytes)
              × ((p.version ≡ wire_version) × (codec.unmarshal bytes ≡ some p))))
unfolding decode_packet
decode_packet-guards codec bytes p e = elim (Option-cases (codec.unmarshal bytes)) [
  | inl u ↦ absurd (ground (arith, u))
  | inr (q, u) ↦
      let (same, (m, v)) = checked_header-inv codec q p (ground (arith, u)) in
      let magic : p.magic ≡ magic_bytes = ap (λ x. x.magic) (sym same) ∙ m in
      let version : p.version ≡ wire_version = ap (λ x. x.version) (sym same) ∙ v in
      (ground (arith, u), (ground (arith, u), (magic, (version, u ∙ ap some same))))
]
