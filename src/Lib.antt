-- ===== src/Lib.antt =====
-- ipvn7, a mesh network between identities: the parts of its Go packages (src/pkg) that decide.
--
-- A packet that reaches a node is checked for replays (per link in src/pkg/l0/anti_replay.go, per
-- session in src/pkg/l1/anti_replay_session.go, whose trackers are charged to the memory arbiter
-- of src/pkg/l1/memory_arbiter.go), then by the firewall over identities
-- (src/pkg/l1/firewall.go); the accepted ones drive the state machine of the node
-- (src/pkg/core/fsm.go, through src/pkg/core/pipeline_stages.go). Identities sign delegations and
-- mandates (src/pkg/l0/identity.go, src/pkg/l0/delegation.go), session keys are rotated
-- (src/pkg/l1/key_rotation.go), and a guard stops writes in a partitioned mesh
-- (src/pkg/l2/split_brain_guard.go). The modes of src/pkg/core/operating_modes.go stand above.
--
-- A peer becomes one by a handshake (src/pkg/l1/session_manager.go, src/pkg/l1/pqc_handshake.go) in
-- signed packets (src/pkg/l0/wire.go), and only if the firewall allows it; its data then travels
-- under the keys of the session. Its traffic is limited (src/pkg/l1/qos.go) and accounted for
-- (src/pkg/l2/accounting.go), and it may stand in the table of the mesh
-- (src/pkg/l2/dht_kademlia.go). The node replaces its own binary
-- (src/pkg/core/version_manager.go).
--
-- Files and code:
--   Base            shared names; Base/Words the arithmetic of uint64, Base/Int that of int64,
--                   Base/Dict Go's maps with text keys, Base/Bits the bits of numbers.
--   Window          what both replay filters promise: a contract of bitmaps, and the decision over
--                   the whole history of accepted numbers. L0/Replay and L1/SessionReplay fill
--                   the contract, each with its own shift.
--   L0/Replay       AntiReplayFilter of src/pkg/l0: `validate_and_update`, `shift_left`.
--   L0/Identity     DIDs and public keys: `canonical_did`, `public_key_from_did`.
--   L0/Delegation   `verify_chain`, links and mandates.
--   L0/Wire         Packet: `encode`, `decode_packet`, `sign_packet`.
--   L1/Handshake    `initiate_1rtt`, `respond_1rtt`, `finalize_1rtt`.
--   L1/Sessions     PQCSessionManager: `handle_handshake_init_packet` in Sessions/Accepting,
--                   `handle_handshake_resp_packet` and the data packets in Sessions/Completing.
--   L1/Qos          QoSManager: `evaluate_packet`, `verify_and_credit_pow`, `solve_pow`.
--   L1/Router       KleinbergRouter of src/pkg/l1/routing.go, its data in Router/Peers:
--                   `add_or_update_peer`, `remove_peer`, and
--                   `find_next_hop` in Router/NextHop.
--   L1/BufferPool   BufferPool: `acquire`, `retain`, `release`, over a store of buffers.
--   L1/Memory       GlobalMemoryArbiter: `reserve`, `release`.
--   L1/SessionReplay  AntiReplayFilter of src/pkg/l1: `accept`; `shift_window` in
--                   SessionReplay/Bits.
--   L1/Firewall     ZTNAFirewall: `eval`, `is_allowed` and the changes of policies.
--   L1/LinkHealing  LinkHealingEngine of src/pkg/l1/link_healing.go: `record_probe_result`.
--   L1/Pacing       PacketPacer of src/pkg/l1/pacing.go: `update_bottleneck_rate`, `pace`.
--   L1/BlindStore   MemoryBlindBeaconStore of src/pkg/l1/blind_store.go: `get_beacon`.
--   L1/KeyRotation  KeyRotationSentinel: `track_traffic`, `rotate`, `get_keys`.
--   L2/SplitBrain   SplitBrainGuard: `audit_liveness`.
--   L2/Accounting   TransitAccounting: `record_tx`, `record_rx`, `force_throttle`.
--   L2/Kademlia     RoutingTable of src/pkg/l2/dht_kademlia.go: `update`, `find_closest`.
--   Core/Versions   VersionManager: `prepare_atomic_update`, `confirm_success`, `execute_rollback`
--                   in Versions/Binary, `check_online_update` in Versions/Online; what
--                   it offers in Versions/Releases and Versions/Beacon.
--   Core/Fsm        DeterministicNodeFSM: `trigger_event`.
--   Core/Pipeline   LinearPipeline of src/pkg/core/pipeline.go: `execute`.
--   Core/Modes      OperatingModeController: `set_mode`.
--
-- State is passed explicitly: an operation takes the record of its component and gives it back with
-- its result, an error as a value. Where a mutex guards a method, the method is one step; the
-- theorems speak of lists of such steps in any order. The clock is an argument. Loops over a fixed
-- range recur on the rounds left, loops over lists on the list. The one loop without a bound, the
-- search of `solve_pow` for a nonce, recurs on fuel: one round more than a nonce that solves.
--
-- Parameters: Ed25519, SHA-256, hex and base64 (the record Crypto), CBOR (Codec), X25519, ML-KEM and
-- HMAC (Kem), ChaCha20-Poly1305 and JSON (Envelopes), sort.Slice, fmt's texts, floats, random
-- bytes, HTTP answers, the operating system's verdict on each call, and the stations of the
-- pipeline. Where a theorem relies on
-- them, it says so in its hypotheses.
--
-- Not modelled: metrics and their texts, sockets, the web interface, the health of the router's
-- peers as it is measured, and the files of discovery, names and egress. The firewall takes and
-- gives up its lock several times in one evaluation; here an evaluation is one step and reads the
-- clock once.
pub mod Base
pub mod Window
pub mod Core
pub mod L0
pub mod L1
pub mod L2
