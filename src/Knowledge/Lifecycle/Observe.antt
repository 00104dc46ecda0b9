-- ===== src/Knowledge/Lifecycle/Observe.antt =====
-- `record_observation`: its result is a valid journal again.
use apbra.Prelude.{
  ℕ, ◌≡◌, refl, ap, subst, true, false, not, ◌&&◌, ◌||◌, Option, none, some, List, [], ◌∷◌, ◌++◌,
  map, arith, ok, err, ◌>>=◌, ◌==◌, opt_eq, Bool-cases, inl, inr, ◌⊎◌, any-append, each,
  each-append, each-All, All-each, All-map, contains, All-imp, if◌then◌else◌,
}
use apbra.Knowledge.Lifecycle.Types.{
  Command, Observation, Operation, Journal, Result, WriteOutcome, not_sent, Checked, Verdict,
  applied, replay, historical_only,
}
use apbra.Knowledge.Lifecycle.Shapes.{observation_shape, operation_shape, journal_shape}
use apbra.Knowledge.Lifecycle.Replay.{
  Position, Progress, beginning, observed_outcome, outcome_from, next_outcome, is_about,
  is_indexing, not_indexed, admission, contains_opt, validate_journal,
}
use apbra.Knowledge.Lifecycle.Commands.{
  Search, seen, target, find_target, observe, replace_operation, is_historical, record_observation,
}
use apbra.Knowledge.Lifecycle.Valid.{IsReplay, validate-IsReplay, IsReplay-validate}
use apbra.Knowledge.Lifecycle.Longer.{changed, replay-Replaced}
use apbra.Knowledge.Lifecycle.Target.{find_target-induction, IsReplay-aligned}

-- How a call of `record_observation` that returns a changed journal has gone.
pub record IsRetained (j : Journal) (o : Observation) (r : Result) : Type 0 where
  pub operation : Operation
  pub outcome : WriteOutcome
  pub shape : observation_shape o ≡ ok tt
  pub scope : (o.company_id == j.company_id && o.document_id == j.document_id) ≡ true
  pub found : find_target o none j.operations ≡ ok (target (some operation))
  pub admitted :
      (not (is_indexing o && not (is_historical o j))
        || not (contains o.revision_id j.pending_removal_revision_ids))
      ≡ true
  pub observed : observed_outcome (observe o operation) ≡ ok outcome
  pub result : r ≡ record {
    journal = record j {
      operations = map (replace_operation (changed o operation outcome)) j.operations;
    };
    disposition = if is_historical o j then historical_only else applied;
  }

pub record_observation-cases :
    (j : Journal) (o : Observation) (r : Result)
    → record_observation j o ≡ ok r
    → (validate_journal j ≡ ok tt)
      × ((r ≡ record { journal = j; disposition = replay }) ⊎ IsRetained j o r)
unfolding record_observation
record_observation-cases j o r h = (ground arith, by_search (find_target o none j.operations) refl)
  where
    by_outcome :
        (x : Operation) (m : Checked WriteOutcome)
        → find_target o none j.operations ≡ ok (target (some x))
        → observed_outcome (observe o x) ≡ m
        → IsRetained j o r
    by_outcome x (ok w) f e = record {
      operation = x;
      outcome = w;
      shape = ground arith;
      scope = ground arith;
      found = f;
      admitted = ground arith;
      observed = e;
      result = ground arith;
    }
    by_outcome x (err k) f e = absurd (ground arith)

    by_search :
        (m : Checked Search)
        → find_target o none j.operations ≡ m
        → (r ≡ record { journal = j; disposition = replay }) ⊎ IsRetained j o r
    by_search (ok seen) f = inl (ground arith)
    by_search (ok (target none)) f = absurd (ground arith)
    by_search (ok (target (some x))) f = inr (by_outcome x (observed_outcome (observe o x)) f refl)
    by_search (err k) f = absurd (ground arith)

-- The history of an operation is about the operation's command.
outcome_from-append :
    (c : Command) (w : WriteOutcome) (xs : List Observation) (o : Observation)
    → outcome_from c w (xs ++ o ∷ []) ≡ (outcome_from c w xs >>= λ v. outcome_from c v (o ∷ []))
unfolding outcome_from
outcome_from-append c w [] o = refl
outcome_from-append c w (x ∷ xs) o =
    ground (arith, outcome_from-append c (next_outcome x.kind w) xs o)

observed-is_about :
    (o : Observation) (x : Operation) (w : WriteOutcome)
    → observed_outcome (observe o x) ≡ ok w
    → is_about x.command o ≡ true
unfolding observed_outcome outcome_from
observed-is_about o x w h =
    let e = outcome_from-append x.command not_sent x.observation_history o in ground (arith, e)

changed-shape :
    (o : Observation) (x : Operation) (w : WriteOutcome)
    → operation_shape x ≡ ok tt
    → observation_shape o ≡ ok tt
    → operation_shape (changed o x w) ≡ ok tt
unfolding operation_shape
changed-shape o x w hx ho =
    ground (arith, each-append observation_shape x.observation_history (o ∷ []))

replaced-shape :
    (j : Journal) (xs : List Operation)
    → journal_shape j ≡ ok tt
    → each operation_shape xs ≡ ok tt
    → journal_shape (record j { operations = xs }) ≡ ok tt
unfolding journal_shape
replaced-shape j xs h k = ground arith

journal-operations :
    (j : Journal) → journal_shape j ≡ ok tt → each operation_shape j.operations ≡ ok tt
unfolding journal_shape
journal-operations j h = ground arith

-- The check on stored histories still passes with the new observation.
changed-not_indexed :
    (o : Observation) (x : Operation) (w : WriteOutcome) (current : Option ℕ)
    → not_indexed current x ≡ ok tt
    → (opt_eq (some x.command.operation_id) current ≡ true → is_indexing o ≡ false)
    → not_indexed current (changed o x w) ≡ ok tt
unfolding not_indexed
changed-not_indexed o x w current h new =
    ground (arith, any-append is_indexing x.observation_history (o ∷ []))

-- Where the current revision awaits removal, no indexing of it is admitted any more.
not_indexing :
    (j : Journal) (o : Observation) (r : Result) (s : Progress)
    → IsReplay j s
    → (ret : IsRetained j o r) → contains_opt s.at.current s.at.tombstones ≡ true
    → opt_eq (some (IsRetained.operation ret).command.operation_id) s.at.current_operation ≡ true
    → is_indexing o ≡ false
not_indexing j o r s v ret removed current =
    let x = ret.operation in
    let about = observed-is_about o x ret.outcome ret.observed in
    let aligned =
      find_target-induction
        (λ y.
          opt_eq (some y.command.operation_id) s.at.current_operation ≡ true
          → s.at.current ≡ some y.command.target_revision_id)
        o j.operations none x ret.found (λ y e. cc)
        (All-imp _ _ j.operations (λ y h fits. h) (IsReplay-aligned j s v)) in
    let pending : j.pending_removal_revision_ids ≡ s.at.tombstones =
      ap Position.tombstones v.derived in
    let operation : j.current_operation_id ≡ s.at.current_operation =
      ap Position.current_operation v.derived in
    let meant : o.revision_id ≡ x.command.target_revision_id = ground arith in
    let removed' =
      subst (λ cur. contains_opt cur s.at.tombstones ≡ true) (aligned current) removed in
    let here : contains o.revision_id j.pending_removal_revision_ids ≡ true =
      rw (meant, pending) removed' in
    let there : is_historical o j ≡ false = rw operation (ground arith) in
    ground (arith, here, there)

replace-not_indexed :
    (o : Observation) (x y : Operation) (w : WriteOutcome) (current : Option ℕ)
    → not_indexed current (changed o x w) ≡ ok tt
    → not_indexed current y ≡ ok tt
    → not_indexed current (replace_operation (changed o x w) y) ≡ ok tt
replace-not_indexed o x y w current h k =
    elim (Bool-cases (y.command.operation_id == x.command.operation_id)) [
      | inl same ↦ rw same h
      | inr other ↦ rw other k
    ]

replace-shape :
    (z y : Operation)
    → operation_shape z ≡ ok tt
    → operation_shape y ≡ ok tt
    → operation_shape (replace_operation z y) ≡ ok tt
replace-shape z y h k = elim (Bool-cases (y.command.operation_id == z.command.operation_id)) [
  | inl same ↦ rw same h
  | inr other ↦ rw other k
]

-- A check that every operation of the journal passes is passed by the one that is found.
found-passes :
    (check : Operation → Verdict) (j : Journal) (o : Observation) (x : Operation)
    → each check j.operations ≡ ok tt
    → find_target o none j.operations ≡ ok (target (some x))
    → check x ≡ ok tt
found-passes check j o x h f =
    find_target-induction (λ y. check y ≡ ok tt) o j.operations none x f (λ y e. cc)
      (All-imp _ _ j.operations (λ y k fits. k) (each-All check j.operations h))

retained-admission :
    (j : Journal) (o : Observation) (r : Result) (s : Progress)
    → IsReplay j s
    → (ret : IsRetained j o r)
    → admission s.at (map (replace_operation (changed o ret.operation ret.outcome)) j.operations)
      ≡ ok tt
unfolding admission
retained-admission j o r s v ret = elim (Bool-cases (contains_opt s.at.current s.at.tombstones)) [
  | inr none_removed ↦ rw none_removed refl
  | inl removed ↦
      let old : each (not_indexed s.at.current_operation) j.operations ≡ ok tt =
        rw removed at v.admitted in
      let own =
        changed-not_indexed o ret.operation ret.outcome s.at.current_operation
          (found-passes (not_indexed s.at.current_operation) j o ret.operation old ret.found)
          (not_indexing j o r s v ret removed) in
      rw removed (
        All-each _ _ (
          All-map _ (replace_operation (changed o ret.operation ret.outcome)) j.operations
            (λ y k. replace-not_indexed o ret.operation y ret.outcome s.at.current_operation own k)
            (each-All _ j.operations old)))
]

retained-shape :
    (j : Journal) (o : Observation) (r : Result)
    → journal_shape j ≡ ok tt
    → (ret : IsRetained j o r)
    → journal_shape (record j {
      operations = map (replace_operation (changed o ret.operation ret.outcome)) j.operations;
    })
      ≡ ok tt
retained-shape j o r h ret =
    let old = journal-operations j h in
    let own =
      changed-shape o ret.operation ret.outcome
        (found-passes operation_shape j o ret.operation old ret.found) ret.shape in
    replaced-shape j _ h (
      All-each operation_shape _ (
        All-map _ (replace_operation (changed o ret.operation ret.outcome)) j.operations
          (λ y k. replace-shape (changed o ret.operation ret.outcome) y own k)
          (each-All operation_shape j.operations old)))

-- The journal of every result of `record_observation` passes `_validate_journal` again.
pub record_observation-valid :
    (j : Journal) (o : Observation) (r : Result)
    → record_observation j o ≡ ok r
    → validate_journal r.journal ≡ ok tt
record_observation-valid j o r h =
    let (valid, how) = record_observation-cases j o r h in
    elim how [
      | inl same ↦ rw same valid
      | inr ret ↦
          let (s, v) = validate-IsReplay j valid in
          let (zs, again) =
            replay-Replaced o ret.outcome j.company_id j.document_id j.operations ret.operation
              beginning s ret.found ret.observed refl v.replayed in
          rw ret.result (
            IsReplay-validate _ (record s { observation_ids = zs })
              (record {
                shape = retained-shape j o r v.shape ret;
                replayed = again;
                derived = v.derived;
                admitted = retained-admission j o r s v ret;
              }))
    ]
