-- ===== src/Core/Pipeline.antt =====
-- LinearPipeline of src/pkg/core/pipeline.go. A station is a name and a function on the packet that
-- may fail; the other fields of a packet are a type that only stations read. Whether the context
-- is cancelled is asked before each station: the answers are a function of the station's place.
-- Execute works on one snapshot, so the stations do not change under it.
pub mod Delivery
mod Tests
use Prim.Native.String.{◌++◌}
use ipvn.Base.{
  ℕ, zero, suc, String, Bool, true, false, ◌||◌, not, List, [], ◌∷◌, Option, none, some,
  if◌then◌else◌, str_eq,
}

-- PacketContext: the payload, and the fields that Execute reads and writes.
pub record PacketContext (P : Type 0) : Type 0 where
  pub payload : P
  pub dropped : Bool
  pub drop_reason : String
  pub handled : Bool

pub record PipelineStage (P : Type 0) : Type 0 where
  pub name : String
  pub process : PacketContext P → PacketContext P × Option String

-- What the handler of dead letters is called with.
pub record DeadLetter (P : Type 0) : Type 0 where
  pub packet : PacketContext P
  pub stage_name : String
  pub error : Option String

-- What an execution leaves: the packet, the letters handed over, the stations that have worked,
-- and the error returned.
pub record Outcome (P : Type 0) : Type 0 where
  pub packet : PacketContext P
  pub letters : List (DeadLetter P)
  pub worked : List String
  pub error : Option String

abbrev pub is_error : Option String → Bool
is_error none = false
is_error (some e) = true

abbrev pub error_text : Option String → String
error_text none = "<nil>"
error_text (some e) = e

module _ {P : Type 0} where
  -- `Dropped` and `DropReason` of a packet whose station has failed.
  abbrev pub marked_dropped : PacketContext P → Option String → PacketContext P
  marked_dropped c e = if c.dropped then c else record c {
    dropped = true;
    drop_reason =
        if str_eq c.drop_reason "" then "stage_error: " ++ error_text e else c.drop_reason;
  }

  -- The end of an execution at a station, with a letter to the handler.
  abbrev pub discard : PacketContext P → String → Option String → List String → Outcome P
  discard c name e worked = record {
    packet = c;
    letters = record { packet = c; stage_name = name; error = e } ∷ [];
    worked = worked;
    error = e;
  }

  abbrev pub finish : PacketContext P → Outcome P
  finish c = record { packet = c; letters = []; worked = []; error = none }

  abbrev pub also_worked : String → Outcome P → Outcome P
  also_worked name o = record o { worked = name ∷ o.worked }

  -- The loop of Execute from the station at place i on.
  unfoldable pub execute_from :
      (ℕ → Option String) → ℕ → List (PipelineStage P) → PacketContext P → Outcome P
  execute_from canceled i [] c = finish c
  execute_from canceled i (stage ∷ rest) c =
      let (c', e) = stage.process c in
      let onward = execute_from canceled (suc i) rest c' in
      if is_error (canceled i)
      then discard (record c { dropped = true; drop_reason = "context_canceled" }) stage.name
          (canceled i) []
      else (if is_error e || c'.dropped
          then discard (marked_dropped c' e) stage.name e (stage.name ∷ [])
          else (if c'.handled
              then also_worked stage.name (finish c')
              else also_worked stage.name onward))

  unfoldable pub execute :
      (ℕ → Option String) → List (PipelineStage P) → PacketContext P → Outcome P
  execute canceled stages c = execute_from canceled 0 stages c

  -- AddStage: a copy of the stations with one more at the end.
  unfoldable pub add_stage : List (PipelineStage P) → PipelineStage P → List (PipelineStage P)
  add_stage [] stage = stage ∷ []
  add_stage (s ∷ stages) stage = s ∷ add_stage stages stage
