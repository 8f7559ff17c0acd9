-- ===== src/L1/KeyRotation/Budget.antt =====
-- The budget of bytes, packets and time of a key, in src/pkg/l1/key_rotation.go.
use ipvn.Base.{
  ℕ, ◌+◌, ◌-◌, ◌^◌, ◌<◌, ◌≡◌, refl, ap, String, ◌||◌, List, [], ◌∷◌, some, leb, length, arith,
}
use ipvn.L1.KeyRotation.{SessionKeys, Sentinel, needs_rotation, track_traffic, track_all, rotate}

abbrev pub total_bytes : List (ℕ × ℕ) → ℕ
total_bytes [] = 0
total_bytes ((packet_bytes, now) ∷ ps) = packet_bytes + total_bytes ps

track_all_counts :
    (s : Sentinel) (ps : List (ℕ × ℕ))
    → s.bytes_count + total_bytes ps < 2 ^ 64
    → s.packets_count + length ps < 2 ^ 64
    → ((track_all s ps).bytes_count ≡ s.bytes_count + total_bytes ps)
      × ((track_all s ps).packets_count ≡ s.packets_count + length ps)
      × ((track_all s ps).max_bytes ≡ s.max_bytes)
      × ((track_all s ps).max_packets ≡ s.max_packets)
      × ((track_all s ps).lifetime ≡ s.lifetime)
      × ((track_all s ps).keys ≡ s.keys)
unfolding track_all track_traffic
track_all_counts s [] h k = (omega arith, omega arith, refl, refl, refl, refl)
track_all_counts s ((packet_bytes, now) ∷ ps) h k =
    let (b, p, mb, mp, l, keys) =
      track_all_counts (track_traffic s packet_bytes now).0 ps (omega arith) (omega arith) in
    (omega (arith, b), omega (arith, p), mb, mp, l, keys)

-- After a rotation with a salt at `start` and any packets whose bytes and number stay in uint64:
-- a new rotation is due exactly if the bytes since then have reached the limit of bytes, or the
-- packets that of packets, or the time that of a key's life.
pub needs_rotation-rotate :
    (sha256 : List ℕ → List ℕ) (epoch_text : ℕ → String → List ℕ) (s : Sentinel) (salt : List ℕ)
    (start : ℕ) (ps : List (ℕ × ℕ)) (now : ℕ)
    → total_bytes ps < 2 ^ 64
    → length ps < 2 ^ 64
    → needs_rotation (track_all (rotate sha256 epoch_text s (some salt) start).0 ps) now ≡ (
        leb s.max_bytes (total_bytes ps)
        || leb s.max_packets (length ps)
        || leb s.lifetime (now - start))
unfolding needs_rotation rotate
needs_rotation-rotate sha256 epoch_text s salt start ps now h k =
    let (b, p, mb, mp, l, keys) =
      track_all_counts (rotate sha256 epoch_text s (some salt) start).0 ps (omega arith)
        (omega arith) in
    ground (arith, ap (λ (x : SessionKeys). x.created_at) keys)
