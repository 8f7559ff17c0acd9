-- ===== src/Core/Pipeline/Delivery.antt =====
-- How an execution ends.
use ipvn.Base.{
  ℕ, suc, ◌≡◌, refl, String, true, false, ◌||◌, List, [], ◌∷◌, Option, none, arith, Bool-cases, inl,
  inr,
}
use ipvn.Core.Pipeline.{
  PacketContext, PipelineStage, DeadLetter, Outcome, is_error, marked_dropped, discard, also_worked,
  execute_from, execute,
}

-- The stations that have worked are the first ones, in their order.
abbrev pub IsPrefix : List String → List String → Type 0
IsPrefix [] ys = Unit
IsPrefix (x ∷ xs) [] = ⊥
IsPrefix (x ∷ xs) (y ∷ ys) = (x ≡ y) × IsPrefix xs ys

module _ {P : Type 0} where
  abbrev pub names : List (PipelineStage P) → List String
  names [] = []
  names (s ∷ stages) = s.name ∷ names stages

  abbrev Ends : List (DeadLetter P) → Option String → PacketContext P → Type 0
  Ends [] e c = (e ≡ none) × (c.dropped ≡ false)
  Ends (l ∷ []) e c = (c.dropped ≡ true) × (l.packet ≡ c) × (l.error ≡ e)
  Ends (l ∷ k ∷ ls) e c = ⊥

  -- One letter, which carries the dropped packet and the returned error; or no letter, no error and
  -- a packet that is not dropped.
  abbrev pub IsDelivered : Outcome P → Type 0
  IsDelivered o = Ends o.letters o.error o.packet

  discard-IsDelivered :
      (c : PacketContext P) (name : String) (e : Option String) (worked : List String)
      → c.dropped ≡ true
      → IsDelivered (discard c name e worked)
  discard-IsDelivered c name e worked h = (h, refl, refl)

  marked_dropped-dropped :
      (c : PacketContext P) (e : Option String) → (marked_dropped c e).dropped ≡ true
  marked_dropped-dropped c e = ground arith

  abbrev IsSound : List (PipelineStage P) → Outcome P → Type 0
  IsSound stages o = IsDelivered o × IsPrefix o.worked (names stages)

  execute_from-onward :
      (canceled : ℕ → Option String) (i : ℕ) (stage : PipelineStage P)
      (rest : List (PipelineStage P)) (c : PacketContext P)
      → is_error (canceled i) ≡ false
      → (is_error (stage.process c).1 || (stage.process c).0.dropped) ≡ false
      → (stage.process c).0.handled ≡ false
      → execute_from canceled i (stage ∷ rest) c
        ≡ also_worked stage.name (execute_from canceled (suc i) rest (stage.process c).0)
  unfolding execute_from
  execute_from-onward canceled i stage rest c h k l = rw (h, k, l)

  execute_from-IsSound :
      (canceled : ℕ → Option String) (i : ℕ) (stages : List (PipelineStage P)) (c : PacketContext P)
      → c.dropped ≡ false
      → IsSound stages (execute_from canceled i stages c)
  unfolding execute_from
  execute_from-IsSound canceled i [] c h = ((refl, h), tt)
  execute_from-IsSound canceled i (stage ∷ rest) c h = elim (Bool-cases (is_error (canceled i))) [
    | inl stop ↦ rw stop ((refl, refl, refl), tt)
    | inr go ↦ elim (Bool-cases (is_error (stage.process c).1 || (stage.process c).0.dropped)) [
      | inl bad ↦
          rw (go, bad)
            (
              (marked_dropped-dropped (stage.process c).0 (stage.process c).1, refl, refl),
              (refl, tt),
            )
      | inr good ↦
          let kept : (stage.process c).0.dropped ≡ false = ground arith in
          elim (Bool-cases (stage.process c).0.handled) [
            | inl handled ↦ rw (go, good, handled) ((refl, kept), (refl, tt))
            | inr onward ↦
                let (ends, prefix) =
                  execute_from-IsSound canceled (suc i) rest (stage.process c).0 kept in
                rw (execute_from-onward canceled i stage rest c go good onward)
                  (ends, (refl, prefix))
          ]
    ]
  ]

  -- An execution on a packet that is not dropped yet ends in one of two ways: with exactly one
  -- letter to the handler of dead letters, which carries the dropped packet and the returned
  -- error; or with no letter, no error and a packet that is not dropped. The stations that have
  -- worked are the first ones of the line, in their order.
  pub execute-IsDelivered :
      (canceled : ℕ → Option String) (stages : List (PipelineStage P)) (c : PacketContext P)
      → c.dropped ≡ false
      → IsDelivered (execute canceled stages c)
        × IsPrefix (execute canceled stages c).worked (names stages)
  unfolding execute
  execute-IsDelivered canceled stages c h = execute_from-IsSound canceled 0 stages c h
