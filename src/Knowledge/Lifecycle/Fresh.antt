-- ===== src/Knowledge/Lifecycle/Fresh.antt =====
-- What the loop of `begin_operation` establishes, and what the replay makes of a new command.
use apbra.Prelude.{
  ℕ, ◌≡◌, refl, subst, ==_iff, Bool-cases, inl, inr, true, false, not, ◌&&◌, ◌||◌, Option, none,
  some, List, [], ◌∷◌, ◌++◌, arith, ok, >>=-eq-ok, ◌==◌, any, any-append, each, each-append,
  contains, contains_text, lookup,
}
use apbra.Domain.{Actor}
use apbra.Knowledge.Lifecycle.Types.{Revision, Command, Operation}
use apbra.Knowledge.Lifecycle.Replay.{
  Position, action_preconditions, advance, bring, Progress, agrees, add_observations,
  observed_outcome, replay_operation, replay_operations, not_indexed,
}
use apbra.Knowledge.Lifecycle.Commands.{find_replay, new_operation, reuses}

-- Every tombstone names a revision of the document.
abbrev pub KnowsTombstones : Position → Type 0
KnowsTombstones p =
    (x : ℕ) → contains x p.tombstones ≡ true → any (λ r. r.revision_id == x) p.revisions ≡ true

bring-KnowsTombstones :
    (c : Command) (p : Position) (o : Option Revision)
    → (o ≡ none → any (λ r. r.revision_id == c.target_revision_id) p.revisions ≡ true)
    → KnowsTombstones p
    → KnowsTombstones (bring c p o)
bring-KnowsTombstones c p (some r) pre known x h =
    rw (any-append (λ (y : Revision). y.revision_id == x) p.revisions (r ∷ []))
      (rw (known x h) refl)
bring-KnowsTombstones c p none pre known x h = elim (Bool-cases (c.target_revision_id == x)) [
  | inl same ↦
      subst (λ y. any (λ (r : Revision). r.revision_id == y) p.revisions ≡ true)
        ((==_iff _ _).0 same) (pre refl)
  | inr other ↦
      known x
        (ground (arith, any-append (λ (y : ℕ). y == x) p.tombstones (c.target_revision_id ∷ [])))
]

-- A command without a revision is a DELETE, whose target is known.
delete_target :
    (c : Command) (rs : List Revision) (current : Option ℕ) (owner : ℕ)
    → action_preconditions c rs current owner ≡ ok tt
    → c.new_revision ≡ none
    → any (λ r. r.revision_id == c.target_revision_id) rs ≡ true
unfolding action_preconditions
delete_target c rs current owner pre e = ground arith

pub advance-KnowsTombstones :
    (c : Command) (p : Position) (owner : ℕ)
    → action_preconditions c p.revisions p.current owner ≡ ok tt
    → KnowsTombstones p
    → KnowsTombstones (advance c p)
unfolding advance
advance-KnowsTombstones c p owner pre known =
    bring-KnowsTombstones c p c.new_revision (delete_target c p.revisions p.current owner pre) known

-- What the loop of `begin_operation` has established when it falls through.
pub record IsFresh (a : Actor) (c : Command) (s : Progress) : Type 0 where
  pub identity : agrees (lookup a.membership_id s.membership_identities) a.identity_id ≡ true
  pub operation : contains c.operation_id s.operation_ids ≡ false
  pub key : contains_text c.command_key s.command_keys ≡ false

step-IsFresh :
    (a : Actor) (c : Command) (company document : ℕ) (s t : Progress) (x : Operation)
    → (not (x.initiator_membership_id == a.membership_id)
        || x.initiator_identity_id == a.identity_id)
      ≡ true
    → reuses c x ≡ false
    → replay_operation company document s x ≡ ok t
    → IsFresh a c s
    → IsFresh a c t
unfolding replay_operation
step-IsFresh a c company document s t x same new e h = ground arith

pub replay-IsFresh :
    (a : Actor) (c : Command) (company document : ℕ) (xs : List Operation) (s t : Progress)
    → find_replay a c xs ≡ ok false
    → replay_operations company document s xs ≡ ok t
    → IsFresh a c s
    → IsFresh a c t
unfolding find_replay replay_operations
replay-IsFresh a c company document [] s t f e h = ground arith
replay-IsFresh a c company document (x ∷ xs) s t f e h =
    let (s', first, rest) = >>=-eq-ok (replay_operation company document s x) _ e in
    replay-IsFresh a c company document xs s' t (ground arith) rest
      (step-IsFresh a c company document s s' x (ground arith) (ground arith) first h)

abbrev pub after : Actor → Command → Progress → Progress
after a c s = record s {
  at = advance c s.at;
  operation_ids = c.operation_id ∷ s.operation_ids;
  command_keys = c.command_key ∷ s.command_keys;
  membership_identities = (a.membership_id, a.identity_id) ∷ s.membership_identities;
}

-- The command, with no observation yet, replays as one more operation.
pub replay_operation-new :
    (a : Actor) (c : Command) (company document : ℕ) (s : Progress)
    → IsFresh a c s
    → (c.company_id == company && c.document_id == document) ≡ true
    → action_preconditions c s.at.revisions s.at.current a.membership_id ≡ ok tt
    → replay_operation company document s (new_operation a c) ≡ ok (after a c s)
unfolding replay_operation add_observations observed_outcome
replay_operation-new a c company document s h scope pre =
    ground (arith, h.identity, h.operation, h.key)

-- No operation of the journal has the new operation's identifier.
pub not_indexed-fresh :
    (a : Actor) (c : Command) (xs : List Operation)
    → find_replay a c xs ≡ ok false
    → each (not_indexed (some c.operation_id)) xs ≡ ok tt
unfolding find_replay not_indexed
not_indexed-fresh a c [] f = refl
not_indexed-fresh a c (x ∷ xs) f = ground (arith, not_indexed-fresh a c xs)

pub not_indexed-new :
    (a : Actor) (c : Command) (o : Option ℕ) (xs : List Operation)
    → each (not_indexed o) xs ≡ ok tt
    → each (not_indexed o) (xs ++ new_operation a c ∷ []) ≡ ok tt
unfolding not_indexed
not_indexed-new a c o xs h =
    rw (each-append (not_indexed o) xs (new_operation a c ∷ []), h) (ground arith)

fresh_revision :
    (c : Command) (r : Revision) (rs : List Revision) (current : Option ℕ) (owner : ℕ)
    → action_preconditions c rs current owner ≡ ok tt
    → c.new_revision ≡ some r
    → (any (λ old. old.revision_id == r.revision_id) rs ≡ false)
      × (r.revision_id ≡ c.target_revision_id)
unfolding action_preconditions
fresh_revision c r rs current owner pre e = ground arith

-- A new revision is under no tombstone.
pub fresh-contains :
    (c : Command) (r : Revision) (p : Position) (owner : ℕ)
    → action_preconditions c p.revisions p.current owner ≡ ok tt
    → c.new_revision ≡ some r
    → KnowsTombstones p
    → contains c.target_revision_id p.tombstones ≡ false
fresh-contains c r p owner pre e known =
    let (new, same) = fresh_revision c r p.revisions p.current owner pre e in
    let new' =
      subst (λ x. any (λ (old : Revision). old.revision_id == x) p.revisions ≡ false) same new in
    ground (arith, known c.target_revision_id, new')
