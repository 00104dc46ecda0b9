-- ===== src/Knowledge/Lifecycle/Target.antt =====
-- What the search loop of `record_observation` has established when it ends with a target.
use apbra.Prelude.{
  ℕ, ◌≡◌, refl, subst, true, false, Option, none, some, List, [], ◌∷◌, arith, ok, >>=-eq-ok, ◌==◌,
  opt_eq, opt_eq_iff, Bool-cases, inl, inr, ◌⊎◌, any, contains, contains-ne, All, All-imp,
  if◌then◌else◌,
}
use apbra.Knowledge.Lifecycle.Types.{Command, Observation, Operation, Revision, Journal}
use apbra.Knowledge.Lifecycle.Replay.{
  Position, beginning, advance, bring, Progress, replay_operation, replay_operations,
}
use apbra.Knowledge.Lifecycle.Commands.{find_observation, target, find_target}
use apbra.Knowledge.Lifecycle.Valid.{IsReplay, IsStep, replay_operation-IsStep, replay_induction}

-- The history does not hold the observation's identifier.
abbrev pub Lacks : Observation → List Observation → Type 0
Lacks o history = any (λ old. old.observation_id == o.observation_id) history ≡ false

pub find_observation-Lacks :
    (o : Observation) (history : List Observation)
    → find_observation o history ≡ ok false
    → Lacks o history
unfolding find_observation
find_observation-Lacks o [] h = refl
find_observation-Lacks o (x ∷ xs) h = ground (arith, find_observation-Lacks o xs)

abbrev pub AllLack : Observation → List Operation → Type 0
AllLack o = All (λ x. Lacks o x.observation_history)

abbrev pub choose : Observation → Operation → Option Operation → Option Operation
choose o x found = if x.command.operation_id == o.operation_id then some x else found

-- One round of the loop that has gone on to the end.
pub find_target-next :
    (o : Observation) (x : Operation) (xs : List Operation) (found : Option Operation)
    (y : Option Operation)
    → find_target o found (x ∷ xs) ≡ ok (target y)
    → Lacks o x.observation_history × (find_target o (choose o x found) xs ≡ ok (target y))
unfolding find_target
find_target-next o x xs found y h =
    (find_observation-Lacks o x.observation_history (ground arith), ground arith)

pub find_target-AllLack :
    (o : Observation) (xs : List Operation) (found y : Option Operation)
    → find_target o found xs ≡ ok (target y)
    → AllLack o xs
find_target-AllLack o [] found y h = tt
find_target-AllLack o (x ∷ xs) found y h =
    let (lacks, rest) = find_target-next o x xs found y h in
    (lacks, find_target-AllLack o xs (choose o x found) y rest)

-- A property of every operation that fits is one of the operation that the loop finds.
pub find_target-induction :
    (P : Operation → Type 0) (o : Observation) (xs : List Operation) (found : Option Operation)
    (x : Operation)
    → find_target o found xs ≡ ok (target (some x))
    → ((y : Operation) → found ≡ some y → P y)
    → All (λ y. (y.command.operation_id == o.operation_id) ≡ true → P y) xs
    → P x
unfolding find_target
find_target-induction P o [] found x h start all = start x (ground arith)
find_target-induction P o (y ∷ ys) found x h start all =
    let (_, rest) = find_target-next o y ys found (some x) h in
    elim (Bool-cases (y.command.operation_id == o.operation_id)) [
      | inl fits ↦
          find_target-induction P o ys (some y) x (ground arith)
            (λ z e. subst P (ground arith) (all.0 fits)) all.1
      | inr other ↦ find_target-induction P o ys found x (ground arith) start all.1
    ]

pub find_target-id :
    (o : Observation) (xs : List Operation) (x : Operation)
    → find_target o none xs ≡ ok (target (some x))
    → (x.command.operation_id == o.operation_id) ≡ true
find_target-id o xs x h =
    find_target-induction (λ y. (y.command.operation_id == o.operation_id) ≡ true) o xs none x h
      (λ y e. cc) (everywhere xs)
  where
    everywhere :
        (ys : List Operation)
        → All
            (λ y.
              (y.command.operation_id == o.operation_id) ≡ true
              → (y.command.operation_id == o.operation_id) ≡ true)
            ys
    everywhere [] = tt
    everywhere (y ∷ ys) = (λ e. e, everywhere ys)

-- Identifiers that the replay has met are met by no later operation.
pub replay-fresh :
    (i c d : ℕ) (xs : List Operation) (s t : Progress)
    → replay_operations c d s xs ≡ ok t
    → contains i s.operation_ids ≡ true
    → All (λ y. (y.command.operation_id == i) ≡ false) xs × (contains i t.operation_ids ≡ true)
unfolding replay_operations
replay-fresh i c d [] s t h known = (tt, ground arith)
replay-fresh i c d (x ∷ xs) s t h known =
    let (s', first, rest) = >>=-eq-ok (replay_operation c d s x) _ h in
    let st = replay_operation-IsStep c d s x s' first in
    let later = replay-fresh i c d xs s' t rest (rw st.ids (ground arith)) in
    ((contains-ne i x.command.operation_id s.operation_ids known st.new_id, later.0), later.1)

-- The current operation is the one whose command set or removed the current revision.
record IsAligned (y : Operation) (s : Progress) : Type 0 where
  known : contains y.command.operation_id s.operation_ids ≡ true
  aligned :
      opt_eq (some y.command.operation_id) s.at.current_operation ≡ true
      → s.at.current ≡ some y.command.target_revision_id

abbrev HasCurrent : Progress → Type 0
HasCurrent s = (i : ℕ) → s.at.current_operation ≡ some i → contains i s.operation_ids ≡ true

bring-current :
    (c : Command) (p : Position) (o : Option Revision)
    → ((bring c p o).current_operation ≡ some c.operation_id)
        × ((bring c p o).current ≡ some c.target_revision_id)
      ⊎ ((bring c p o).current_operation ≡ p.current_operation)
        × ((bring c p o).current ≡ p.current)
bring-current c p (some r) = inl (refl, refl)
bring-current c p none = ground (arith, opt_eq_iff (some c.target_revision_id) p.current)

advance-current :
    (c : Command) (p : Position)
    → ((advance c p).current_operation ≡ some c.operation_id)
        × ((advance c p).current ≡ some c.target_revision_id)
      ⊎ ((advance c p).current_operation ≡ p.current_operation)
        × ((advance c p).current ≡ p.current)
unfolding advance
advance-current c p = bring-current c p c.new_revision

step-HasCurrent :
    (c d : ℕ) (s t : Progress) (x : Operation) → IsStep c d s x t → HasCurrent s → HasCurrent t
step-HasCurrent c d s t x st h i e =
    ground (arith, st.ids, st.position, h i, advance-current x.command s.at)

step-IsAligned :
    (c d : ℕ) (s t : Progress) (x y : Operation) → IsStep c d s x t → IsAligned y s → IsAligned y t
step-IsAligned c d s t x y st h =
    let ne =
      contains-ne y.command.operation_id x.command.operation_id s.operation_ids h.known st.new_id in
    record {
      known = rw st.ids (ground (arith, h.known));
      aligned = λ e. ground (
        arith,
        st.position,
        h.aligned,
        advance-current x.command s.at,
        opt_eq_iff (some y.command.operation_id) s.at.current_operation,
      );
    }

own-IsAligned :
    (c d : ℕ) (s t : Progress) (x : Operation) → IsStep c d s x t → HasCurrent s → IsAligned x t
own-IsAligned c d s t x st h = record {
  known = rw st.ids (ground arith);
  aligned = λ e. ground (
    arith,
    st.position,
    st.new_id,
    h x.command.operation_id,
    advance-current x.command s.at,
    opt_eq_iff (some x.command.operation_id) s.at.current_operation,
  );
}

replay-keeps-IsAligned :
    (c d : ℕ) (xs : List Operation) (s t : Progress) (y : Operation)
    → replay_operations c d s xs ≡ ok t
    → IsAligned y s
    → IsAligned y t
replay-keeps-IsAligned c d xs s t y h k =
    replay_induction (IsAligned y) c d
      (λ s s' x k step. step-IsAligned c d s s' x y (replay_operation-IsStep c d s x s' step) k) xs
      s t k h

replay-IsAligned :
    (c d : ℕ) (xs : List Operation) (s t : Progress)
    → replay_operations c d s xs ≡ ok t
    → HasCurrent s
    → All (λ y. IsAligned y t) xs
unfolding replay_operations
replay-IsAligned c d [] s t h k = tt
replay-IsAligned c d (x ∷ xs) s t h k =
    let (s', first, rest) = >>=-eq-ok (replay_operation c d s x) _ h in
    let st = replay_operation-IsStep c d s x s' first in
    (
      replay-keeps-IsAligned c d xs s' t x rest (own-IsAligned c d s s' x st k),
      replay-IsAligned c d xs s' t rest (step-HasCurrent c d s s' x st k),
    )

-- In a valid journal, every operation that is the current one is about the current revision.
pub IsReplay-aligned :
    (j : Journal) (s : Progress)
    → IsReplay j s
    → All
        (λ y.
          opt_eq (some y.command.operation_id) s.at.current_operation ≡ true
          → s.at.current ≡ some y.command.target_revision_id)
        j.operations
IsReplay-aligned j s v =
    All-imp (λ y. IsAligned y s) _ j.operations (λ y h. h.aligned)
      (replay-IsAligned j.company_id j.document_id j.operations beginning s v.replayed (λ i e. cc))
