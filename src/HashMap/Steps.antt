-- ===== src/HashMap/Steps.antt =====
-- A map of lib/hash_map.c seen from outside: a function from keys to values, and a number of keys.
use ece_lib.Base.{
  ℕ, ◌+◌, ◌-◌, ◌<◌, ◌≡◌, refl, ap, ◌∙◌, subst, true, Option, none, some, List, [], ◌∷◌, arith,
  if◌then◌else◌, Bool-cases, Option-cases, inl, inr,
}
use ece_lib.HashMap.Keys.{HashKey}
use ece_lib.HashMap.{
  HashMap, hash_map_init, hash_map_get, hash_map_put, hash_map_remove, hash_map_size,
}
use ece_lib.HashMap.Chain.{to_nat, is_some}
use ece_lib.HashMap.Invariant.{IsValid, init-IsValid}
use ece_lib.HashMap.Put.{put-Written}
use ece_lib.HashMap.Remove.{remove-Erased}
use ece_lib.HashMap.Walk.{init_empty}

-- An operation with its arguments.
pub data MapStep (K V : Type 0) : Type 0 where
  puts : K → V → MapStep K V
  removes : K → MapStep K V

-- What a client may know of a map.
pub record Content (K V : Type 0) : Type 0 where
  pub at : K → Option V
  pub count : ℕ

module _ {K V : Type 0} ⦃key : HashKey K⦄ where
  -- The operations one after the other; `none` where one reads through `NULL`.
  unfoldable pub run_steps : List (MapStep K V) → HashMap K V → Option (HashMap K V)
  run_steps [] m = some m
  run_steps (puts k x ∷ rest) m = run_steps rest (hash_map_put m k x)
  run_steps (removes k ∷ rest) m = elim (hash_map_remove m k) [
    | none ↦ none
    | some m' ↦ run_steps rest m'
  ]

  -- What they promise.
  unfoldable pub after_step : MapStep K V → Content K V → Content K V
  after_step (puts k x) c = record {
    at = λ j. if key.same k j then some x else c.at j;
    count = if is_some (c.at k) then c.count else c.count + 1;
  }
  after_step (removes k) c = record {
    at = λ j. if key.same k j then none else c.at j;
    count = c.count - 1;
  }

  unfoldable pub after_steps : List (MapStep K V) → Content K V → Content K V
  after_steps [] c = c
  after_steps (s ∷ rest) c = after_steps rest (after_step s c)

  -- The keys are keys, and only a key that is there is removed.
  unfoldable pub IsOrderly : List (MapStep K V) → Content K V → Type 0
  unfolding after_step
  IsOrderly [] c = Unit
  IsOrderly (puts k x ∷ rest) c = key.IsKey k × IsOrderly rest (after_step (puts k x) c)
  IsOrderly (removes k ∷ rest) c =
      key.IsKey k × is_some (c.at k) ≡ true × IsOrderly rest (after_step (removes k) c)

  -- The map is well formed and has the content.
  pub record Shows (m : HashMap K V) (c : Content K V) : Type 0 where
    pub valid : IsValid m
    pub reads : (j : K) → key.IsKey j → hash_map_get m j ≡ c.at j
    pub sized : hash_map_size m ≡ c.count

  put-Shows :
      (m : HashMap K V) (c : Content K V) (k : K) (x : V)
      → key.IsKey k
      → Shows m c
      → Shows (hash_map_put m k x) (after_step (puts k x) c)
  unfolding after_step hash_map_size
  put-Shows m c k x ik v =
      let w = put-Written m v.valid k ik x in
      let grown : (hash_map_put m k x).size + to_nat (is_some (c.at k)) ≡ m.size + 1 =
        subst (λ o. (hash_map_put m k x).size + to_nat (is_some o) ≡ m.size + 1) (v.reads k ik)
          w.sized in
      record {
        valid = w.valid;
        reads = λ j ij. w.reads j ij ∙ ap (λ r. if key.same k j then some x else r) (v.reads j ij);
        sized = elim (Bool-cases (is_some (c.at k))) [
          | inl there ↦ rw there (omega (arith, rw there at grown, v.sized))
          | inr absent ↦ rw absent (omega (arith, rw absent at grown, v.sized))
        ];
      }

  remove-Shows :
      (m : HashMap K V) (c : Content K V) (k : K)
      → key.IsKey k
      → is_some (c.at k) ≡ true
      → Shows m c
      → (m' : HashMap K V) × (hash_map_remove m k ≡ some m') × Shows m' (after_step (removes k) c)
  unfolding after_step hash_map_size
  remove-Shows m c k ik there v = elim (Option-cases (c.at k)) [
    | inl absent ↦ absurd (ground (arith, rw absent at there))
    | inr (x, found) ↦
        let (m', run, e) = remove-Erased m v.valid k ik x (v.reads k ik ∙ found) in
        (
          m',
          run,
          record {
            valid = e.valid;
            reads =
                λ j ij. e.reads j ij ∙ ap (λ r. if key.same k j then none else r) (v.reads j ij);
            sized = omega (arith, e.sized, v.sized);
          },
        )
  ]

  -- Any sequence of puts and of removals of keys that are there succeeds on a map, and shows what the
  -- operations promise of the content that the map showed: each key has the value that was put last,
  -- or none where it was removed since, and the size is the number of keys.
  pub run_steps-Shows :
      (steps : List (MapStep K V)) (m : HashMap K V) (c : Content K V)
      → IsOrderly steps c
      → Shows m c
      → (m' : HashMap K V) × (run_steps steps m ≡ some m') × Shows m' (after_steps steps c)
  unfolding run_steps after_steps IsOrderly after_step
  run_steps-Shows [] m c o v = (m, refl, v)
  run_steps-Shows (puts k x ∷ rest) m c (ik, o) v =
      run_steps-Shows rest (hash_map_put m k x) (after_step (puts k x) c) o (put-Shows m c k x ik v)
  run_steps-Shows (removes k ∷ rest) m c (ik, there, o) v =
      let (m₁, run, v₁) = remove-Shows m c k ik there v in
      let (m', run', v') = run_steps-Shows rest m₁ (after_step (removes k) c) o v₁ in
      (m', rw (run_steps, run) run', v')

  -- The map that `hash_map_init` makes shows that there is no key.
  pub init-Shows : (n : ℕ) → 0 < n → Shows (hash_map_init n) record { at = λ j. none; count = 0 }
  unfolding hash_map_size hash_map_init
  init-Shows n h = record {
    valid = init-IsValid n h;
    reads = λ j ij. (init_empty n j h).1;
    sized = refl;
  }
