-- ===== src/Knowledge/Lifecycle/Longer.antt =====
-- The replay of a journal in which one operation's history is one observation longer.
use apbra.Prelude.{
  true, ℕ, ◌≡◌, refl, sym, subst, false, Option, none, some, List, [], ◌∷◌, ◌++◌, map, arith, ok,
  >>=-eq-ok, ◌==◌, ==_iff, ==_refl, Bool-cases, inl, inr, contains, All,
}
use apbra.Knowledge.Lifecycle.Types.{Observation, Operation, WriteOutcome}
use apbra.Knowledge.Lifecycle.Replay.{
  Progress, add_observations, observed_outcome, replay_operation, replay_operations,
}
use apbra.Knowledge.Lifecycle.Commands.{target, find_target, observe, replace_operation}
use apbra.Knowledge.Lifecycle.Valid.{IsStep, replay_operation-IsStep, IsStep-replay_operation}
use apbra.Knowledge.Lifecycle.Target.{
  Lacks, AllLack, find_target-AllLack, find_target-id, replay-fresh, find_target-next,
}

-- The operation that `record_observation` puts in the place of its target.
abbrev pub changed : Observation → Operation → WriteOutcome → Operation
changed o x w = record (observe o x) { write_outcome = w }

-- Two sets of observation identifiers, the second with at most `i` more.
abbrev Within : ℕ → List ℕ → List ℕ → Type 0
Within i xs ys = (x : ℕ) → contains x xs ≡ false → (i == x) ≡ false → contains x ys ≡ false

add_observations-Within :
    (o : Observation) (history : List Observation) (xs ys zs : List ℕ)
    → Lacks o history
    → Within o.observation_id xs ys
    → add_observations xs history ≡ ok zs
    → (zs' : List ℕ) × (add_observations ys history ≡ ok zs') × Within o.observation_id zs zs'
unfolding add_observations
add_observations-Within o [] xs ys zs lacks h e =
    (ys, refl, subst (λ l. Within o.observation_id l ys) (ground arith) h)
add_observations-Within o (x ∷ history) xs ys zs lacks h e =
    let (us, added, within) =
      add_observations-Within o history (x.observation_id ∷ xs) (x.observation_id ∷ ys) zs
        (ground arith) (λ y k ne. ground (arith, h y)) (ground arith) in
    (us, ground (arith, h x.observation_id), within)

replay-Within :
    (o : Observation) (c d : ℕ) (xs : List Operation) (s t : Progress) (ys : List ℕ)
    → AllLack o xs
    → Within o.observation_id s.observation_ids ys
    → replay_operations c d s xs ≡ ok t
    → (zs : List ℕ) × (replay_operations c d (record s { observation_ids = ys }) xs
        ≡ ok (record t { observation_ids = zs }))
unfolding replay_operations
replay-Within o c d [] s t ys lack h e = (ys, ground arith)
replay-Within o c d (x ∷ xs) s t ys lack h e =
    let (s', first, rest) = >>=-eq-ok (replay_operation c d s x) _ e in
    let st = replay_operation-IsStep c d s x s' first in
    let (us, added, within) =
      add_observations-Within o x.observation_history s.observation_ids ys s'.observation_ids lack.0
        h st.observations in
    let first' : replay_operation c d (record s { observation_ids = ys }) x
        ≡ ok (record s' { observation_ids = us }) =
      IsStep-replay_operation c d (record s { observation_ids = ys }) x
        (record s' { observation_ids = us })
        (record {
          identity = st.identity;
          scope = st.scope;
          new_id = st.new_id;
          new_key = st.new_key;
          pre = st.pre;
          observations = added;
          outcome = st.outcome;
          position = st.position;
          ids = st.ids;
          keys = st.keys;
          identities = st.identities;
        }) in
    let (zs, done) = replay-Within o c d xs s' t us lack.1 within rest in (zs, rw first' done)

-- The identifiers of a history that does not hold the observation's do not hold it either.
add_observations-contains :
    (o : Observation) (history : List Observation) (xs zs : List ℕ)
    → Lacks o history
    → contains o.observation_id xs ≡ false
    → add_observations xs history ≡ ok zs
    → contains o.observation_id zs ≡ false
unfolding add_observations
add_observations-contains o [] xs zs lacks h e = ground arith
add_observations-contains o (x ∷ history) xs zs lacks h e =
    add_observations-contains o history (x.observation_id ∷ xs) zs (ground arith) (ground arith)
      (ground arith)

add_observations-append :
    (o : Observation) (history : List Observation) (xs zs : List ℕ)
    → add_observations xs history ≡ ok zs
    → contains o.observation_id zs ≡ false
    → add_observations xs (history ++ o ∷ []) ≡ ok (o.observation_id ∷ zs)
unfolding add_observations
add_observations-append o [] xs zs e new = ground arith
add_observations-append o (x ∷ history) xs zs e new =
    ground (arith, add_observations-append o history (x.observation_id ∷ xs) zs)

-- Where no operation is meant, the search keeps what it has and the replacement changes nothing.
find_target-keeps :
    (o : Observation) (xs : List Operation) (found y : Option Operation)
    → All (λ x. (x.command.operation_id == o.operation_id) ≡ false) xs
    → find_target o found xs ≡ ok (target y)
    → found ≡ y
unfolding find_target
find_target-keeps o [] found y none_fits h = ground arith
find_target-keeps o (x ∷ xs) found y none_fits h =
    let (_, rest) = find_target-next o x xs found y h in
    find_target-keeps o xs found y none_fits.1 (ground (arith, none_fits.0))

map-replace_operation :
    (z : Operation) (xs : List Operation)
    → All (λ x. (x.command.operation_id == z.command.operation_id) ≡ false) xs
    → map (replace_operation z) xs ≡ xs
map-replace_operation z [] h = refl
map-replace_operation z (x ∷ xs) h = ground (arith, map-replace_operation z xs h.1)

-- The replay reaches the target, takes its longer history, and goes on as before.
replay-target :
    (o : Observation) (w : WriteOutcome) (c d : ℕ) (x : Operation) (xs : List Operation)
    (s s' t : Progress)
    → IsStep c d s x s'
    → Lacks o x.observation_history
    → AllLack o xs
    → observed_outcome (observe o x) ≡ ok w
    → contains o.observation_id s.observation_ids ≡ false
    → replay_operations c d s' xs ≡ ok t
    → (zs : List ℕ) × (replay_operations c d s (changed o x w ∷ xs)
        ≡ ok (record t { observation_ids = zs }))
unfolding replay_operations observed_outcome
replay-target o w c d x xs s s' t st lacks lack observed new rest =
    let new' =
      add_observations-contains o x.observation_history s.observation_ids s'.observation_ids lacks
        new st.observations in
    let u : Progress = record s' { observation_ids = o.observation_id ∷ s'.observation_ids } in
    let first : replay_operation c d s (changed o x w) ≡ ok u =
      IsStep-replay_operation c d s (changed o x w) u (record {
        identity = st.identity;
        scope = st.scope;
        new_id = st.new_id;
        new_key = st.new_key;
        pre = st.pre;
        observations =
            add_observations-append o x.observation_history s.observation_ids s'.observation_ids
              st.observations new';
        outcome = observed;
        position = st.position;
        ids = st.ids;
        keys = st.keys;
        identities = st.identities;
      }) in
    let (zs, done) =
      replay-Within o c d xs s' t (o.observation_id ∷ s'.observation_ids) lack
        (λ y k ne. ground arith) rest in
    (zs, rw first done)

abbrev pub Replaced :
    Observation → WriteOutcome → ℕ → ℕ → List Operation → Progress → Progress → Operation → Type 0
Replaced o w c d xs s t x =
    (zs : List ℕ) × (replay_operations c d s (map (replace_operation (changed o x w)) xs)
      ≡ ok (record t { observation_ids = zs }))

replay-Replaced_here :
    (o : Observation) (w : WriteOutcome) (c d : ℕ) (y : Operation) (ys : List Operation)
    (x : Operation) (s s' t : Progress)
    → y ≡ x
    → All (λ z. (z.command.operation_id == y.command.operation_id) ≡ false) ys
    → IsStep c d s y s'
    → Lacks o y.observation_history
    → AllLack o ys
    → observed_outcome (observe o x) ≡ ok w
    → contains o.observation_id s.observation_ids ≡ false
    → replay_operations c d s' ys ≡ ok t
    → Replaced o w c d (y ∷ ys) s t x
replay-Replaced_here o w c d y ys x s s' t same others st lacks lack observed new rest =
    subst (Replaced o w c d (y ∷ ys) s t) same (
      rw (map-replace_operation (changed o y w) ys others) (
        rw (==_refl y.command.operation_id) (
          replay-target o w c d y ys s s' t st lacks lack
            (subst (λ z. observed_outcome (observe o z) ≡ ok w) (sym same) observed) new rest)))

replay-Replaced_there :
    (o : Observation) (w : WriteOutcome) (c d : ℕ) (y : Operation) (ys : List Operation)
    (x : Operation) (s s' t : Progress)
    → (y.command.operation_id == x.command.operation_id) ≡ false
    → replay_operation c d s y ≡ ok s'
    → Replaced o w c d ys s' t x
    → Replaced o w c d (y ∷ ys) s t x
unfolding replay_operations
replay-Replaced_there o w c d y ys x s s' t ne first (zs, done) = (zs, rw (ne, first) done)

-- Where the loop meets an operation that is meant, that is the one which it finds.
find_target-here :
    (o : Observation) (c d : ℕ) (y : Operation) (ys : List Operation) (x : Operation)
    (s s' t : Progress)
    → IsStep c d s y s'
    → replay_operations c d s' ys ≡ ok t
    → (y.command.operation_id == o.operation_id) ≡ true
    → find_target o (some y) ys ≡ ok (target (some x))
    → (y ≡ x) × All (λ z. (z.command.operation_id == y.command.operation_id) ≡ false) ys
find_target-here o c d y ys x s s' t st rest here next =
    let (others, _) =
      replay-fresh y.command.operation_id c d ys s' t rest (rw st.ids (ground arith)) in
    let others' =
      subst (λ i. All (λ (z : Operation). (z.command.operation_id == i) ≡ false) ys)
        ((==_iff _ _).0 here) others in
    (ground (arith, find_target-keeps o ys (some y) (some x) others' next), others)

pub replay-Replaced :
    (o : Observation) (w : WriteOutcome) (c d : ℕ) (xs : List Operation) (x : Operation)
    (s t : Progress)
    → find_target o none xs ≡ ok (target (some x))
    → observed_outcome (observe o x) ≡ ok w
    → contains o.observation_id s.observation_ids ≡ false
    → replay_operations c d s xs ≡ ok t
    → Replaced o w c d xs s t x
unfolding replay_operations find_target
replay-Replaced o w c d [] x s t f observed new h = absurd (ground arith)
replay-Replaced o w c d (y ∷ ys) x s t f observed new h =
    let fits = find_target-id o (y ∷ ys) x f in
    let (lacks, next) = find_target-next o y ys none (some x) f in
    let (s', first, rest) = >>=-eq-ok (replay_operation c d s y) _ h in
    let st = replay_operation-IsStep c d s y s' first in
    elim (Bool-cases (y.command.operation_id == o.operation_id)) [
      | inl here ↦
          let next' : find_target o (some y) ys ≡ ok (target (some x)) = rw here at next in
          let (same, others) = find_target-here o c d y ys x s s' t st rest here next' in
          replay-Replaced_here o w c d y ys x s s' t same others st lacks
            (find_target-AllLack o ys (some y) (some x) next') observed new rest
      | inr there ↦
          let next' : find_target o none ys ≡ ok (target (some x)) = rw there at next in
          replay-Replaced_there o w c d y ys x s s' t (ground arith) first (
            replay-Replaced o w c d ys x s' t next' observed
              (add_observations-contains o y.observation_history s.observation_ids
                s'.observation_ids lacks new st.observations)
              rest)
    ]

pub map-command-replace :
    (o : Observation) (w : WriteOutcome) (c d : ℕ) (xs : List Operation) (x : Operation)
    (s t : Progress)
    → find_target o none xs ≡ ok (target (some x))
    → replay_operations c d s xs ≡ ok t
    → map Operation.command (map (replace_operation (changed o x w)) xs) ≡ map Operation.command xs
unfolding replay_operations find_target
map-command-replace o w c d [] x s t f h = refl
map-command-replace o w c d (y ∷ ys) x s t f h =
    let fits = find_target-id o (y ∷ ys) x f in
    let (_, next) = find_target-next o y ys none (some x) f in
    let (s', first, rest) = >>=-eq-ok (replay_operation c d s y) _ h in
    let st = replay_operation-IsStep c d s y s' first in
    elim (Bool-cases (y.command.operation_id == o.operation_id)) [
      | inl here ↦
          let next' : find_target o (some y) ys ≡ ok (target (some x)) = rw here at next in
          let (same, others) = find_target-here o c d y ys x s s' t st rest here next' in
          subst
            (λ z.
              map Operation.command (map (replace_operation (changed o z w)) (y ∷ ys))
              ≡ map Operation.command (y ∷ ys))
            same
            (rw (map-replace_operation (changed o y w) ys others, ==_refl y.command.operation_id))
      | inr there ↦
          let next' : find_target o none ys ≡ ok (target (some x)) = rw there at next in
          ground (arith, map-command-replace o w c d ys x s' t next' rest)
    ]
