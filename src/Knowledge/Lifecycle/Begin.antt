-- ===== src/Knowledge/Lifecycle/Begin.antt =====
-- `begin_operation`: its result is a valid journal again.
use apbra.Prelude.{
  ℕ, ◌≡◌, refl, sym, ap, subst, Fallible-cases, inl, inr, ◌⊎◌, true, false, ◌&&◌, ◌||◌, Option,
  none, some, List, [], ◌∷◌, ◌++◌, arith, ok, ◌==◌, opt_eq, any, any-append, each-append, Bool,
}
use apbra.Domain.{Actor}
use apbra.Knowledge.Lifecycle.Types.{Revision, Command, Operation, Journal, Result, applied, replay}
use apbra.Knowledge.Lifecycle.Shapes.{
  uuid, revision_shape, command_shape, actor_shape, operation_shape, journal_shape,
}
use apbra.Knowledge.Lifecycle.Replay.{
  Position, position, action_preconditions, advance, bring, Progress, beginning, replay_operations,
  contains_opt, admission, validate_journal,
}
use apbra.Knowledge.Lifecycle.Commands.{reuses, find_replay, new_operation, extend, begin_operation}
use apbra.Knowledge.Lifecycle.Valid.{
  IsReplay, validate-IsReplay, replay_operation-IsStep, IsReplay-validate, replay-append,
  replay_induction,
}
use apbra.Knowledge.Lifecycle.Fresh.{
  KnowsTombstones, advance-KnowsTombstones, IsFresh, replay-IsFresh, after, replay_operation-new,
  not_indexed-fresh, not_indexed-new, fresh-contains,
}

contains_opt-append :
    (o : Option ℕ) (xs : List ℕ) (x : ℕ)
    → contains_opt o (xs ++ x ∷ []) ≡ (contains_opt o xs || opt_eq (some x) o)
contains_opt-append none xs x = refl
contains_opt-append (some y) xs x = rw (any-append (λ (z : ℕ). z == y) xs (x ∷ [])) (ground arith)

admission-bring :
    (a : Actor) (c : Command) (p : Position) (xs : List Operation) (o : Option Revision)
    → c.new_revision ≡ o
    → action_preconditions c p.revisions p.current a.membership_id ≡ ok tt
    → KnowsTombstones p
    → find_replay a c xs ≡ ok false
    → admission p xs ≡ ok tt
    → admission (bring c p o) (xs ++ new_operation a c ∷ []) ≡ ok tt
unfolding admission
admission-bring a c p xs (some r) e pre known f h =
    ground (arith, fresh-contains c r p a.membership_id pre e known)
admission-bring a c p xs none e pre known f h = ground (
  arith,
  contains_opt-append p.current p.tombstones c.target_revision_id,
  not_indexed-new a c (some c.operation_id) xs (not_indexed-fresh a c xs f),
  not_indexed-new a c p.current_operation xs,
)

bring-shape :
    (a : Actor) (c : Command) (j : Journal) (o : Option Revision)
    → c.new_revision ≡ o
    → journal_shape j ≡ ok tt
    → actor_shape a ≡ ok tt
    → command_shape c ≡ ok tt
    → journal_shape (extend j (bring c (position j) o) (new_operation a c)) ≡ ok tt
unfolding journal_shape actor_shape command_shape operation_shape
bring-shape a c j (some r) e h ha hc = ground (
  arith,
  each-append revision_shape j.revisions (r ∷ []),
  each-append operation_shape j.operations (new_operation a c ∷ []),
)
bring-shape a c j none e h ha hc = ground (
  arith,
  each-append uuid j.pending_removal_revision_ids (c.target_revision_id ∷ []),
  each-append operation_shape j.operations (new_operation a c ∷ []),
)

admission-advance :
    (a : Actor) (c : Command) (p : Position) (xs : List Operation)
    → action_preconditions c p.revisions p.current a.membership_id ≡ ok tt
    → KnowsTombstones p
    → find_replay a c xs ≡ ok false
    → admission p xs ≡ ok tt
    → admission (advance c p) (xs ++ new_operation a c ∷ []) ≡ ok tt
unfolding advance
admission-advance a c p xs = admission-bring a c p xs c.new_revision refl

advance-shape :
    (a : Actor) (c : Command) (j : Journal)
    → journal_shape j ≡ ok tt
    → actor_shape a ≡ ok tt
    → command_shape c ≡ ok tt
    → journal_shape (extend j (advance c (position j)) (new_operation a c)) ≡ ok tt
unfolding advance
advance-shape a c j = bring-shape a c j c.new_revision refl

pub replay-KnowsTombstones : (j : Journal) (s : Progress) → IsReplay j s → KnowsTombstones s.at
replay-KnowsTombstones j s v =
    replay_induction (λ t. KnowsTombstones t.at) j.company_id j.document_id
      (λ t t' x known step.
        let st = replay_operation-IsStep j.company_id j.document_id t x t' step in
        subst KnowsTombstones (sym st.position)
          (advance-KnowsTombstones x.command t.at x.initiator_membership_id st.pre known))
      j.operations beginning s (λ x h. cc) v.replayed

replay-extended :
    (j : Journal) (a : Actor) (c : Command) (s : Progress)
    → IsReplay j s
    → actor_shape a ≡ ok tt
    → find_replay a c j.operations ≡ ok false
    → (j.company_id == c.company_id && c.document_id == j.document_id) ≡ true
    → action_preconditions c s.at.revisions s.at.current a.membership_id ≡ ok tt
    → replay_operations j.company_id j.document_id beginning
        (j.operations ++ new_operation a c ∷ [])
      ≡ ok (after a c s)
unfolding replay_operations
replay-extended j a c s v ha fresh scope pre =
    let start : IsFresh a c beginning = record { identity = refl; operation = refl; key = refl } in
    let f =
      replay-IsFresh a c j.company_id j.document_id j.operations beginning s fresh v.replayed
        start in
    rw
      (
        replay-append j.company_id j.document_id beginning j.operations (new_operation a c ∷ []),
        v.replayed,
      )
      (ground (arith, replay_operation-new a c j.company_id j.document_id s f (ground arith) pre))

-- The command starts from a valid journal and its extension is valid.
extend-IsReplay :
    (j : Journal) (a : Actor) (c : Command) (s : Progress)
    → IsReplay j s
    → actor_shape a ≡ ok tt
    → command_shape c ≡ ok tt
    → (j.company_id == c.company_id && c.document_id == j.document_id) ≡ true
    → find_replay a c j.operations ≡ ok false
    → action_preconditions c j.revisions j.current_revision_id a.membership_id ≡ ok tt
    → IsReplay (extend j (advance c (position j)) (new_operation a c)) (after a c s)
extend-IsReplay j a c s v ha hc scope fresh pre =
    let pre' =
      subst (λ p. action_preconditions c p.revisions p.current a.membership_id ≡ ok tt) v.derived
        pre in
    record {
      shape = advance-shape a c j v.shape ha hc;
      replayed = replay-extended j a c s v ha fresh scope pre';
      derived = ap (advance c) v.derived;
      admitted =
          admission-advance a c s.at j.operations pre' (replay-KnowsTombstones j s v) fresh
            v.admitted;
    }

-- How a call of `begin_operation` that returns has gone.
pub record IsApplied (j : Journal) (a : Actor) (c : Command) (r : Result) : Type 0 where
  pub actor : actor_shape a ≡ ok tt
  pub command : command_shape c ≡ ok tt
  pub company : (a.company_id == j.company_id) ≡ true
  pub scope : (j.company_id == c.company_id && c.document_id == j.document_id) ≡ true
  pub fresh : find_replay a c j.operations ≡ ok false
  pub pre : action_preconditions c j.revisions j.current_revision_id a.membership_id ≡ ok tt
  pub result : r ≡ record {
    journal = extend j (advance c (position j)) (new_operation a c);
    disposition = applied;
  }

pub begin_operation-cases :
    (j : Journal) (a : Actor) (c : Command) (r : Result)
    → begin_operation j a c ≡ ok r
    → (validate_journal j ≡ ok tt)
      × ((r ≡ record { journal = j; disposition = replay }) ⊎ IsApplied j a c r)
unfolding begin_operation
begin_operation-cases j a c r h = (
  ground arith,
  elim (Fallible-cases (find_replay a c j.operations)) [
    | inl (true, found) ↦ inl (ground arith)
    | inl (false, found) ↦ inr (record {
      actor = ground arith;
      command = ground arith;
      company = ground arith;
      scope = ground arith;
      fresh = found;
      pre = ground arith;
      result = ground arith;
    })
    | inr (e, raised) ↦ absurd (ground arith)
  ],
)

-- The journal of every result of `begin_operation` passes `_validate_journal` again, applied or replayed.
pub begin_operation-valid :
    (j : Journal) (a : Actor) (c : Command) (r : Result)
    → begin_operation j a c ≡ ok r
    → validate_journal r.journal ≡ ok tt
begin_operation-valid j a c r h =
    let (valid, how) = begin_operation-cases j a c r h in
    elim how [
      | inl same ↦ rw same valid
      | inr ap ↦
          let (s, v) = validate-IsReplay j valid in
          rw ap.result (
            IsReplay-validate _ (after a c s)
              (extend-IsReplay j a c s v ap.actor ap.command ap.scope ap.fresh ap.pre))
    ]

find_replay-fresh :
    (a : Actor) (c : Command) (xs : List Operation) (b : Bool)
    → any (reuses c) xs ≡ false
    → find_replay a c xs ≡ ok b
    → b ≡ false
unfolding find_replay
find_replay-fresh a c [] b new h = ground arith
find_replay-fresh a c (x ∷ xs) b new h = find_replay-fresh a c xs b (ground arith) (ground arith)

-- A command that no operation uses is not a replay.
pub begin_operation-fresh :
    (j : Journal) (a : Actor) (c : Command) (r : Result)
    → any (reuses c) j.operations ≡ false
    → begin_operation j a c ≡ ok r
    → IsApplied j a c r
unfolding begin_operation
begin_operation-fresh j a c r new h = elim (Fallible-cases (find_replay a c j.operations)) [
  | inl (true, found) ↦
      let never = find_replay-fresh a c j.operations true new found in absurd (ground arith)
  | inl (false, found) ↦ record {
    actor = ground arith;
    command = ground arith;
    company = ground arith;
    scope = ground arith;
    fresh = found;
    pre = ground arith;
    result = ground arith;
  }
  | inr (e, raised) ↦ absurd (ground arith)
]
