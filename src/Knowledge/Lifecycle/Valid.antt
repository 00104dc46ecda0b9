-- ===== src/Knowledge/Lifecycle/Valid.antt =====
-- What `_validate_journal` establishes, part by part, and what is enough for it.
use apbra.Prelude.{
  ◌==◌, ◌&&◌, lookup, contains, contains_text, false, ℕ, ◌≡◌, refl, sym, subst, ◌∙◌, ◌↔◌, bind_ext,
  bind_assoc, true, List, [], ◌∷◌, ◌++◌, arith, ok, ◌>>=◌, >>=-eq-ok, >>-eq-ok, opt_eq_iff,
}
use apbra.Knowledge.Lifecycle.Types.{Revision, Operation, Journal, revision_eq_iff, outcome_eq_iff}
use apbra.Knowledge.Lifecycle.Shapes.{journal_shape}
use apbra.Knowledge.Lifecycle.Replay.{
  agrees, action_preconditions, add_observations, observed_outcome, advance, Position, position,
  revisions_eq, ids_eq, position_eq, Progress, beginning, replay_operation, replay_operations,
  admission, validate_journal,
}

revisions_eq_iff : (rs ss : List Revision) → (revisions_eq rs ss ≡ true) ↔ (rs ≡ ss)
revisions_eq_iff [] [] = ground arith
revisions_eq_iff [] (s ∷ ss) = ground arith
revisions_eq_iff (r ∷ rs) [] = ground arith
revisions_eq_iff (r ∷ rs) (s ∷ ss) = ground (arith, revision_eq_iff r s, revisions_eq_iff rs ss)

ids_eq_iff : (xs ys : List ℕ) → (ids_eq xs ys ≡ true) ↔ (xs ≡ ys)
ids_eq_iff [] [] = ground arith
ids_eq_iff [] (y ∷ ys) = ground arith
ids_eq_iff (x ∷ xs) [] = ground arith
ids_eq_iff (x ∷ xs) (y ∷ ys) = ground (arith, ids_eq_iff xs ys)

pub position_eq_iff : (p q : Position) → (position_eq p q ≡ true) ↔ (p ≡ q)
unfolding position_eq
position_eq_iff p q = ground (
  arith,
  revisions_eq_iff p.revisions q.revisions,
  opt_eq_iff p.current q.current,
  opt_eq_iff p.current_operation q.current_operation,
  ids_eq_iff p.tombstones q.tombstones,
)

-- The journal is well formed, and `s` is what the replay of its operations ends with.
pub record IsReplay (j : Journal) (s : Progress) : Type 0 where
  pub shape : journal_shape j ≡ ok tt
  pub replayed : replay_operations j.company_id j.document_id beginning j.operations ≡ ok s
  pub derived : position j ≡ s.at
  pub admitted : admission s.at j.operations ≡ ok tt

pub validate-IsReplay : (j : Journal) → validate_journal j ≡ ok tt → (s : Progress) × IsReplay j s
unfolding validate_journal
validate-IsReplay j h =
    let (shape, rest) = >>-eq-ok (journal_shape j) h in
    let (s, replayed, rest') =
      >>=-eq-ok (replay_operations j.company_id j.document_id beginning j.operations) _ rest in
    (
      s,
      record {
        shape = shape;
        replayed = replayed;
        derived = (position_eq_iff _ _).0 (ground arith);
        admitted = ground arith;
      },
    )

pub IsReplay-validate : (j : Journal) (s : Progress) → IsReplay j s → validate_journal j ≡ ok tt
unfolding validate_journal
IsReplay-validate j s v =
    ground (arith, v.shape, v.replayed, v.admitted, (position_eq_iff (position j) s.at).1 v.derived)

pub replay-append :
    (c d : ℕ) (s : Progress) (xs ys : List Operation)
    → replay_operations c d s (xs ++ ys)
      ≡ (replay_operations c d s xs >>= λ s'. replay_operations c d s' ys)
unfolding replay_operations
replay-append c d s [] ys = refl
replay-append c d s (x ∷ xs) ys =
    bind_ext (replay_operation c d s x) _ _ (λ s'. replay-append c d s' xs ys)
    ∙ sym (bind_assoc (replay_operation c d s x) _ _)

-- An invariant of every successful step holds after a successful replay.
pub replay_induction :
    (P : Progress → Type 0) (c d : ℕ)
    → ((s s' : Progress) (x : Operation) → P s → replay_operation c d s x ≡ ok s' → P s')
    → (xs : List Operation) (s s' : Progress) → P s
    → replay_operations c d s xs ≡ ok s'
    → P s'
unfolding replay_operations
replay_induction P c d step [] s s' h e = subst P (ground arith) h
replay_induction P c d step (x ∷ xs) s s' h e =
    let (t, first, rest) = >>=-eq-ok (replay_operation c d s x) _ e in
    replay_induction P c d step xs t s' (step s t x h first) rest

-- What one successful step of the replay has checked, and where it leads.
pub record IsStep (c d : ℕ) (s : Progress) (x : Operation) (t : Progress) : Type 0 where
  pub identity :
      agrees (lookup x.initiator_membership_id s.membership_identities) x.initiator_identity_id
      ≡ true
  pub scope : (x.command.company_id == c && x.command.document_id == d) ≡ true
  pub new_id : contains x.command.operation_id s.operation_ids ≡ false
  pub new_key : contains_text x.command.command_key s.command_keys ≡ false
  pub pre :
      action_preconditions x.command s.at.revisions s.at.current x.initiator_membership_id ≡ ok tt
  pub observations : add_observations s.observation_ids x.observation_history ≡ ok t.observation_ids
  pub outcome : observed_outcome x ≡ ok x.write_outcome
  pub position : t.at ≡ advance x.command s.at
  pub ids : t.operation_ids ≡ x.command.operation_id ∷ s.operation_ids
  pub keys : t.command_keys ≡ x.command.command_key ∷ s.command_keys
  pub identities :
      t.membership_identities
      ≡ (x.initiator_membership_id, x.initiator_identity_id) ∷ s.membership_identities

pub replay_operation-IsStep :
    (c d : ℕ) (s : Progress) (x : Operation) (t : Progress)
    → replay_operation c d s x ≡ ok t
    → IsStep c d s x t
unfolding replay_operation
replay_operation-IsStep c d s x t h = record {
  identity = ground arith;
  scope = ground arith;
  new_id = ground arith;
  new_key = ground arith;
  pre = ground arith;
  observations = ground arith;
  outcome = grind (arith, outcome_eq_iff);
  position = ground arith;
  ids = ground arith;
  keys = ground arith;
  identities = ground arith;
}

pub IsStep-replay_operation :
    (c d : ℕ) (s : Progress) (x : Operation) (t : Progress)
    → IsStep c d s x t
    → replay_operation c d s x ≡ ok t
unfolding replay_operation
IsStep-replay_operation c d s x t h = ground (
  arith,
  h.identity,
  h.scope,
  h.new_id,
  h.new_key,
  h.pre,
  h.observations,
  h.outcome,
  h.position,
  h.ids,
  h.keys,
  h.identities,
  outcome_eq_iff x.write_outcome x.write_outcome,
)
