-- ===== src/L1/SessionReplay/Tests.antt =====
-- Packets of two sessions of one origin, and the theorems at them.
use ipvn.Base.{
  ℕ, ◌*◌, ◌/◌, ◌≤◌, ◌≡◌, refl, String, true, false, List, [], ◌∷◌, none, some, arith, length, ◌==◌,
  if◌then◌else◌,
}
use ipvn.Base.Dict.{lookup, insert}
use ipvn.Base.Int.{pos, ◌-ℤ◌}
use ipvn.Base.Words.{shl64, shr64}
use ipvn.Window.{IsDistinct}
use ipvn.L1.Memory.{new_arbiter}
use ipvn.L1.Memory.Balance.{Partitions, new_arbiter-IsBalanced}
use ipvn.L1.SessionReplay.{
  new_session_filter, Packet, to_seconds, is_out_of_time, is_cross_session, note_latest,
  reserve_session, open_session, slide, follow_session, accept, accept_all, mark_bit, is_bit_set,
  new_word, new_words, shift_window,
}
use ipvn.L1.SessionReplay.Guarantees.{accepted_in, accept-admits, session_accepted_once}
use ipvn.L1.SessionReplay.Budget.{sessions_within_budget}

abbrev key_text : String → ℕ → String
key_text did n = if n == 1 then "a:1" else "a:2"

abbrev packet : ℕ → ℕ → ℕ → Packet
packet session seq ts = record {
  origin_did = "a";
  session_id = session;
  seq = seq;
  ts = pos ts;
  now = pos 1000;
}

-- In order, repeated, a new session, the old one with an older time, a time in milliseconds, and
-- a time too old.
abbrev packets : List Packet
packets =
    packet 1 5 990
    ∷ packet 1 70 991
    ∷ packet 1 5 991
    ∷ packet 1 6 992
    ∷ packet 2 5 1000
    ∷ packet 1 7 995
    ∷ packet 2 6 900
    ∷ []

packets_verdicts :
    (accept_all key_text (new_session_filter none) packets).1
    ≡ true ∷ true ∷ false ∷ true ∷ true ∷ false ∷ false ∷ []
unfolding accept_all accept new_session_filter to_seconds is_out_of_time is_cross_session
    note_latest reserve_session open_session slide follow_session mark_bit is_bit_set new_word
    new_words shift_window lookup insert shl64 shr64 ◌-ℤ◌
packets_verdicts = refl

session_accepted_once_example : IsDistinct (
    accepted_in key_text "a:1" [] packets (accept_all key_text (new_session_filter none) packets).1)
session_accepted_once_example = session_accepted_once key_text none "a:1" packets

accept-admits_example : (accept key_text (new_session_filter none) (packet 1 5 990)).1 ≡ true
unfolding new_session_filter lookup to_seconds is_out_of_time is_cross_session reserve_session ◌-ℤ◌
accept-admits_example = accept-admits key_text (new_session_filter none) (packet 1 5 990) [] refl

abbrev percent : ℕ → ℕ → ℕ
percent p n = n * p / 100

percent-Partitions : Partitions percent 2000
percent-Partitions = omega arith

sessions_within_budget_example :
    256
      * length
          (accept_all key_text
            (new_session_filter (some (new_arbiter percent 2000)))
            packets).0.sessions
    ≤ 400
unfolding new_arbiter
sessions_within_budget_example =
    sessions_within_budget key_text (new_arbiter percent 2000) packets
      (new_arbiter-IsBalanced percent 2000 percent-Partitions (omega arith)) refl (omega arith)
