-- ===== src/HashMap/Chain.antt =====
-- What the loops of lib/hash_map.c over the nodes of one bucket do to the pairs.
use ece_lib.Base.{
  ℕ, ◌+◌, ◌≤◌, ◌≡◌, refl, Bool, true, false, Option, none, some, [], ◌∷◌, ◌++◌, arith, length,
  if◌then◌else◌, All, Bool-cases, Option-cases, inl, inr,
}
use ece_lib.HashMap.Keys.{HashKey}
use ece_lib.HashMap.{Chain, find, has_key, assign, unlink}

abbrev pub to_nat : Bool → ℕ
to_nat true = 1
to_nat false = 0

abbrev pub is_some {ℓ} : {A : Type ℓ} → Option A → Bool
is_some none = false
is_some (some _) = true

-- `some b` if there is one, and else `o`.
abbrev pub or_else {ℓ} : {A : Type ℓ} → Option A → Option A → Option A
or_else none o = o
or_else (some a) o = some a

module _ {K V : Type 0} ⦃key : HashKey K⦄ where
  abbrev pub AreKeys : Chain K V → Type 0
  AreKeys = All (λ e. key.IsKey e.0)

  -- How many pairs have the key.
  unfoldable pub count : K → Chain K V → ℕ
  count q [] = 0
  count q (e ∷ c) = to_nat (key.same e.0 q) + count q c

  pub has_key-find : (q : K) (c : Chain K V) → has_key q c ≡ is_some (find q c)
  unfolding has_key find
  has_key-find q [] = refl
  has_key-find q (e ∷ c) = ground (arith, has_key-find q c)

  -- A key that has no pair is not found, and the other way round.
  pub count-eq-zero : (q : K) (ps : Chain K V) → find q ps ≡ none → count q ps ≡ 0
  unfolding find count
  count-eq-zero q [] lost = refl
  count-eq-zero q (p ∷ ps) lost = ground (arith, count-eq-zero q ps)

  pub find-eq-none : (q : K) (ps : Chain K V) → count q ps ≡ 0 → find q ps ≡ none
  unfolding find count
  find-eq-none q [] nowhere = refl
  find-eq-none q (p ∷ ps) nowhere = ground (arith, find-eq-none q ps)

  -- Two chains one behind the other.
  pub find-append : (q : K) (c d : Chain K V) → find q (c ++ d) ≡ or_else (find q c) (find q d)
  unfolding find
  find-append q [] d = refl
  find-append q (p ∷ c) d = ground (arith, find-append q c d)

  pub count-append : (q : K) (c d : Chain K V) → count q (c ++ d) ≡ count q c + count q d
  unfolding count
  count-append q [] d = omega arith
  count-append q (p ∷ c) d = omega (arith, count-append q c d)

  -- `assign` finds no pair exactly where the key has none.
  pub assign-none : (k : K) (v : V) (c : Chain K V) → assign k v c ≡ none → count k c ≡ 0
  unfolding assign count
  assign-none k v [] h = refl
  assign-none k v (e ∷ c) h = ground (arith, assign-none k v c)

  pub assign_found :
      (k : K) (v : V) (c c' : Chain K V) → assign k v c ≡ some c' → is_some (find k c) ≡ true
  unfolding assign find
  assign_found k v [] c' h = cc
  assign_found k v (e ∷ c) c' h = elim (Option-cases (assign k v c)) [
    | inl lost ↦ ground arith
    | inr (rest, found) ↦ ground (arith, assign_found k v c rest found)
  ]

  pub unlink-none : (k : K) (c : Chain K V) → unlink k c ≡ none → find k c ≡ none
  unfolding unlink find
  unlink-none k [] h = refl
  unlink-none k (e ∷ c) h = ground (arith, unlink-none k c)

  pub unlink_absent : (k : K) (c : Chain K V) → find k c ≡ none → unlink k c ≡ none
  unfolding unlink find
  unlink_absent k [] h = refl
  unlink_absent k (e ∷ c) h = ground (arith, unlink_absent k c)

  -- What the loop of `hash_map_put` does where it finds the key.
  pub record Assigned (k : K) (v : V) (c c' : Chain K V) : Type 0 where
    pub reads : (j : K) → key.IsKey j → find j c' ≡ (if key.same k j then some v else find j c)
    pub counts : (j : K) → count j c' ≡ count j c
    pub long : length c' ≡ length c
    pub keys : AreKeys c'

  assign-head :
      (k : K) (v : V) (e : K × V) (c : Chain K V)
      → key.IsKey k
      → AreKeys (e ∷ c)
      → key.same e.0 k ≡ true
      → Assigned k v (e ∷ c) ((e.0, v) ∷ c)
  unfolding find count
  assign-head k v e c ik keys hit = record {
    reads = λ j ij. ground (arith, key.same_iff e.0 k keys.0 ik);
    counts = λ j. refl;
    long = refl;
    keys = keys;
  }

  assign-tail :
      (k : K) (v : V) (e : K × V) (c c' : Chain K V)
      → key.IsKey k
      → AreKeys (e ∷ c)
      → key.same e.0 k ≡ false
      → Assigned k v c c'
      → Assigned k v (e ∷ c) (e ∷ c')
  unfolding find count
  assign-tail k v e c c' ik keys miss rest = record {
    reads = λ j ij. ground (
      arith,
      rest.reads j ij,
      key.same_iff e.0 k keys.0 ik,
      key.same_iff e.0 j keys.0 ij,
      key.same_iff k j ik ij,
    );
    counts = λ j. omega (arith, rest.counts j);
    long = omega (arith, rest.long);
    keys = (keys.0, rest.keys);
  }

  pub assign-Assigned :
      (k : K) (v : V) (c c' : Chain K V)
      → key.IsKey k
      → AreKeys c
      → assign k v c ≡ some c'
      → Assigned k v c c'
  unfolding assign
  assign-Assigned k v [] c' ik keys h = cc
  assign-Assigned k v (e ∷ c) c' ik keys h = elim (Bool-cases (key.same e.0 k)) [
    | inl hit ↦
        let same_list : (e.0, v) ∷ c ≡ c' = ground arith in
        rw (← same_list) (assign-head k v e c ik keys hit)
    | inr miss ↦ elim (Option-cases (assign k v c)) [
      | inl lost ↦ absurd (ground arith)
      | inr (rest, found) ↦
          let same_list : e ∷ rest ≡ c' = ground arith in
          rw (← same_list)
            (assign-tail k v e c rest ik keys miss (assign-Assigned k v c rest ik keys.1 found))
    ]
  ]

  -- What the loop of `hash_map_remove` does where it finds the key, which one pair has at most.
  pub record Unlinked (k : K) (c c' : Chain K V) : Type 0 where
    pub reads :
        (j : K)
        → key.IsKey j
        → count j c ≤ 1
        → find j c' ≡ (if key.same k j then none else find j c)
    pub counts : (j : K) → key.IsKey j → count j c' + to_nat (key.same k j) ≡ count j c
    pub long : length c' + 1 ≡ length c
    pub keys : AreKeys c'

  unlink-head :
      (k : K) (e : K × V) (c : Chain K V)
      → key.IsKey k
      → AreKeys (e ∷ c)
      → key.same e.0 k ≡ true
      → Unlinked k (e ∷ c) c
  unfolding find count
  unlink-head k e c ik keys hit = record {
    reads = λ j ij once. ground (
      arith,
      key.same_iff e.0 k keys.0 ik,
      key.same_iff e.0 j keys.0 ij,
      key.same_iff k j ik ij,
      find-eq-none j c,
    );
    counts = λ j ij.
        ground (
          arith,
          key.same_iff e.0 k keys.0 ik,
          key.same_iff e.0 j keys.0 ij,
          key.same_iff k j ik ij,
        );
    long = omega arith;
    keys = keys.1;
  }

  unlink-tail :
      (k : K) (e : K × V) (c c' : Chain K V)
      → key.IsKey k
      → AreKeys (e ∷ c)
      → key.same e.0 k ≡ false
      → Unlinked k c c'
      → Unlinked k (e ∷ c) (e ∷ c')
  unfolding find count
  unlink-tail k e c c' ik keys miss rest = record {
    reads = λ j ij once. ground (
      arith,
      rest.reads j ij,
      key.same_iff e.0 k keys.0 ik,
      key.same_iff e.0 j keys.0 ij,
      key.same_iff k j ik ij,
    );
    counts = λ j ij. omega (arith, rest.counts j ij);
    long = omega (arith, rest.long);
    keys = (keys.0, rest.keys);
  }

  pub unlink-Unlinked :
      (k : K) (c c' : Chain K V) → key.IsKey k → AreKeys c → unlink k c ≡ some c' → Unlinked k c c'
  unfolding unlink
  unlink-Unlinked k [] c' ik keys h = cc
  unlink-Unlinked k (e ∷ c) c' ik keys h = elim (Bool-cases (key.same e.0 k)) [
    | inl hit ↦
        let same_list : c ≡ c' = ground arith in rw (← same_list) (unlink-head k e c ik keys hit)
    | inr miss ↦ elim (Option-cases (unlink k c)) [
      | inl lost ↦ absurd (ground arith)
      | inr (rest, found) ↦
          let same_list : e ∷ rest ≡ c' = ground arith in
          rw (← same_list)
            (unlink-tail k e c rest ik keys miss (unlink-Unlinked k c rest ik keys.1 found))
    ]
  ]
