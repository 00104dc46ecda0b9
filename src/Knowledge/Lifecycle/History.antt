-- ===== src/Knowledge/Lifecycle/History.antt =====
-- Repeated commands, recorded observations and the outcomes of a journal.
use apbra.Prelude.{
  ℕ, ◌≡◌, refl, sym, subst, ◌⊎◌, inl, inr, true, false, ◌&&◌, Option, none, some, List, [], ◌∷◌,
  ◌++◌, map, arith, ok, >>=-eq-ok, ◌==◌, eq_iff, All,
}
use apbra.Domain.{Actor}
use apbra.Knowledge.Lifecycle.Types.{
  WriteOutcome, not_sent, acknowledged, unknown, definitively_failed, write_acknowledged,
  write_outcome_unknown, definitive_failure, Command, Observation, Operation, Journal, Result,
  replay, command_eq_refl,
}
use apbra.Knowledge.Lifecycle.Shapes.{actor_shape, command_shape}
use apbra.Knowledge.Lifecycle.Replay.{
  position, advance, outcome_from, next_outcome, Progress, beginning, replay_operation,
  replay_operations, validate_journal, observed_outcome,
}
use apbra.Knowledge.Lifecycle.Commands.{
  find_replay, new_operation, extend, begin_operation, record_observation,
}
use apbra.Knowledge.Lifecycle.Valid.{validate-IsReplay, replay_operation-IsStep}
use apbra.Knowledge.Lifecycle.Longer.{map-command-replace}
use apbra.Knowledge.Lifecycle.Begin.{IsApplied, begin_operation-cases, begin_operation-valid}
use apbra.Knowledge.Lifecycle.Observe.{record_observation-cases}

-- The loop finds the command that was appended.
find_replay-new :
    (a : Actor) (c : Command) (xs : List Operation)
    → find_replay a c xs ≡ ok false
    → find_replay a c (xs ++ new_operation a c ∷ []) ≡ ok true
unfolding find_replay
find_replay-new a c [] h = ground (arith, command_eq_refl c, eq_iff c.command_key c.command_key)
find_replay-new a c (x ∷ xs) h = ground (arith, find_replay-new a c xs)

begin_operation-found :
    (j : Journal) (a : Actor) (c : Command)
    → validate_journal j ≡ ok tt
    → actor_shape a ≡ ok tt
    → command_shape c ≡ ok tt
    → (a.company_id == j.company_id) ≡ true
    → (j.company_id == c.company_id && c.document_id == j.document_id) ≡ true
    → find_replay a c j.operations ≡ ok true
    → begin_operation j a c ≡ ok (record { journal = j; disposition = replay })
unfolding begin_operation
begin_operation-found j a c valid actor command company scope found = ground arith

begin_operation-again :
    (j : Journal) (a : Actor) (c : Command) (r : Result)
    → begin_operation j a c ≡ ok r
    → (r ≡ record { journal = j; disposition = replay }) ⊎ IsApplied j a c r
    → begin_operation r.journal a c ≡ ok (record { journal = r.journal; disposition = replay })
begin_operation-again j a c r h (inl same) =
    subst
      (λ q.
        begin_operation q.journal a c ≡ ok (record { journal = q.journal; disposition = replay }))
      (sym same) (rw same at h)
begin_operation-again j a c r h (inr ap) =
    subst
      (λ q.
        begin_operation q.journal a c ≡ ok (record { journal = q.journal; disposition = replay }))
      (sym ap.result)
      (begin_operation-found (extend j (advance c (position j)) (new_operation a c)) a c
        (subst (λ q. validate_journal q.journal ≡ ok tt) ap.result
          (begin_operation-valid j a c r h))
        ap.actor ap.command ap.company ap.scope (find_replay-new a c j.operations ap.fresh))

-- After a call of `begin_operation` that returned, applied or replayed, the same command of the same
-- actor is answered by a replay of the journal that was returned, unchanged.
pub begin_operation-replay :
    (j : Journal) (a : Actor) (c : Command) (r : Result)
    → begin_operation j a c ≡ ok r
    → begin_operation r.journal a c ≡ ok (record { journal = r.journal; disposition = replay })
begin_operation-replay j a c r h =
    begin_operation-again j a c r h (begin_operation-cases j a c r h).1

-- An observation that is recorded leaves the revisions, the current identifiers, the tombstones and
-- the command of every operation as they were.
pub record_observation-keeps :
    (j : Journal) (o : Observation) (r : Result)
    → record_observation j o ≡ ok r
    → (position r.journal ≡ position j)
      × (map Operation.command r.journal.operations ≡ map Operation.command j.operations)
record_observation-keeps j o r h =
    let (valid, how) = record_observation-cases j o r h in
    elim how [
      | inl same ↦ rw same (refl, refl)
      | inr ret ↦
          let (s, v) = validate-IsReplay j valid in
          rw ret.result (
            refl,
            map-command-replace o ret.outcome j.company_id j.document_id j.operations ret.operation
                beginning s ret.found v.replayed,
          )
    ]

-- The last assertion about the write, if there is one.
abbrev pub last_write : List Observation → Option WriteOutcome
last_write [] = none
last_write (x ∷ xs) = elim (last_write xs) [
  | some w ↦ some w
  | none ↦ elim x.kind [
    | write_acknowledged ↦ some acknowledged
    | write_outcome_unknown ↦ some unknown
    | definitive_failure ↦ some definitively_failed
    | _ ↦ none
  ]
]

abbrev pub outcome_or : WriteOutcome → Option WriteOutcome → WriteOutcome
outcome_or w none = w
outcome_or w (some v) = v

outcome_from-last :
    (c : Command) (w v : WriteOutcome) (xs : List Observation)
    → outcome_from c w xs ≡ ok v
    → v ≡ outcome_or w (last_write xs)
unfolding outcome_from
outcome_from-last c w v [] h = ground arith
outcome_from-last c w v (x ∷ xs) h =
    ground (arith, outcome_from-last c (next_outcome x.kind w) v xs)

replay-outcomes :
    (c d : ℕ) (xs : List Operation) (s t : Progress)
    → replay_operations c d s xs ≡ ok t
    → All (λ x. x.write_outcome ≡ outcome_or not_sent (last_write x.observation_history)) xs
unfolding replay_operations observed_outcome
replay-outcomes c d [] s t h = tt
replay-outcomes c d (x ∷ xs) s t h =
    let (s', first, rest) = >>=-eq-ok (replay_operation c d s x) _ h in
    let st = replay_operation-IsStep c d s x s' first in
    (
      outcome_from-last x.command not_sent x.write_outcome x.observation_history st.outcome,
      replay-outcomes c d xs s' t rest,
    )

-- In a valid journal the outcome of every operation is the last assertion about its write, and
-- NOT_SENT where there is none.
pub validate_journal-outcomes :
    (j : Journal)
    → validate_journal j ≡ ok tt
    → All
        (λ x. x.write_outcome ≡ outcome_or not_sent (last_write x.observation_history))
        j.operations
validate_journal-outcomes j h =
    let (s, v) = validate-IsReplay j h in
    replay-outcomes j.company_id j.document_id j.operations beginning s v.replayed
