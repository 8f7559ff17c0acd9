-- ===== src/Core/Pipeline/Tests.antt =====
-- A line of three stations on numbers.
use ipvn.Base.{
  ℕ, ◌+◌, ◌≡◌, refl, String, true, false, List, [], ◌∷◌, Option, none, some, ltb, if◌then◌else◌,
}
use ipvn.Core.Pipeline.{PacketContext, PipelineStage, execute, execute_from, add_stage}
use ipvn.Core.Pipeline.Delivery.{IsDelivered, IsPrefix, names, execute-IsDelivered}

abbrev never : ℕ → Option String
never i = none

abbrev decode : PipelineStage ℕ
decode = record { name = "decode"; process = λ c. (record c { payload = c.payload + 1 }, none) }

abbrev filter : PipelineStage ℕ
filter = record {
  name = "filter";
  process = λ c. if ltb c.payload 10 then (c, none) else (c, some "too large");
}

abbrev deliver : PipelineStage ℕ
deliver = record { name = "deliver"; process = λ c. (record c { handled = true }, none) }

abbrev line : List (PipelineStage ℕ)
line = add_stage (decode ∷ filter ∷ []) deliver

abbrev packet : ℕ → PacketContext ℕ
packet n = record { payload = n; dropped = false; drop_reason = ""; handled = false }

large_dropped : (execute never line (packet 20)).packet.drop_reason ≡ "stage_error: too large"
unfolding execute execute_from add_stage
large_dropped = refl

small_worked : (execute never line (packet 2)).worked ≡ "decode" ∷ "filter" ∷ "deliver" ∷ []
unfolding execute execute_from add_stage
small_worked = refl

execute-IsDelivered_example :
    IsDelivered (execute never line (packet 20))
    × IsPrefix (execute never line (packet 20)).worked (names line)
execute-IsDelivered_example = execute-IsDelivered never line (packet 20) refl
