-- ===== src/G1Fmt/DelProduct.antt =====
-- `del_pdt` of src/pdt.c and the references that a product holds.
use ece_lib.Base.{
  ℕ, ◌+◌, ◌≤◌, ◌<◌, ◌≡◌, refl, inl, inr, ◌∙◌, sym, true, Option, none, some, arith, [], ◌∷◌, ◌^◌,
  Option-cases, Bool-cases, foldl,
}
use ece_lib.Machine.{ok, Returns}
use ece_lib.HashMap.Keys.{int_key, int_cmp_iff}
use ece_lib.HashMap.{Chain, all_pairs, find, hash_map_get, hash_map_work, hash_map_free}
use ece_lib.HashMap.Chain.{is_some, count, AreKeys, find-eq-none}
use ece_lib.HashMap.Remove.{remove-Erased}
use ece_lib.HashMap.Walk.{free_once, AreKeys-all_pairs, to_nat-le}
use ece_lib.HashMap.Sum.{total, sum_pairs, total-remove}
use ece_lib.Attr.{Attrs}
use ece_lib.Attr.Refs.{refs, IsAttrs}
use ece_lib.Token.{G1Fmt}
use ece_lib.Token.Layout.{uses}
use ece_lib.Pdt.{Pdt, Catalog, get_pdt}
use ece_lib.Pdt.Refs.{held}
use ece_lib.G1Fmt.{del_g1_fmt_internal, hash_del_fmt, del_pdt}
use ece_lib.G1Fmt.Invariant.{IsPdt, IsCatalog, tokens_of, held-le-refs}
use ece_lib.G1Fmt.DelFormat.{del_internal-Unloaded}

-- The formats that the walk has still to delete are those that the product has.
record Left (cs : Chain ℕ G1Fmt) (topic : ℕ) (p : Pdt) (attrs : Attrs) : Type 0 where
  is : IsPdt topic p
  attrs_are : IsAttrs attrs
  keys : AreKeys cs
  reads : (j : ℕ) → j < 2 ^ 32 → find j cs ≡ hash_map_get p.fmt_map j
  once : (j : ℕ) → j < 2 ^ 32 → count j cs ≤ 1
  sums : (t : ℕ) → t < 2 ^ 32 → held p t ≡ sum_pairs (λ (f : G1Fmt). uses t f.token) cs
  covered : (t : ℕ) → t < 2 ^ 32 → held p t ≤ refs attrs t

-- One round of the walk.
step-Left :
    (k : ℕ) (f : G1Fmt) (cs : Chain ℕ G1Fmt) (topic : ℕ) (p : Pdt) (attrs : Attrs)
    → Left ((k, f) ∷ cs) topic p attrs
    → Returns (del_g1_fmt_internal f p attrs) λ (p', attrs').
      Left cs topic p' attrs'
      × ((t : ℕ) → t < 2 ^ 32 → refs attrs' t + held p t ≡ refs attrs t + held p' t)
unfolding find count
step-Left k f cs topic p attrs l =
    let same : int_key.same k k ≡ true = (int_cmp_iff k k l.keys.0 l.keys.0).1 refl in
    let there : hash_map_get p.fmt_map k ≡ some f =
      sym (l.reads k l.keys.0) ∙ rw (find, same) refl in
    let ((q, attrs'), run, u) =
      del_internal-Unloaded topic k f p attrs l.is l.attrs_are l.keys.0 there l.covered in
    (
      (q, attrs'),
      run,
      (
        record {
          is = u.is;
          attrs_are = u.kept;
          keys = l.keys.1;
          reads = λ j h. rw (u.reads j h) (elim (Bool-cases (int_key.same k j)) [
            | inl here ↦ rw here (find-eq-none j cs (ground (arith, l.once j h)))
            | inr other ↦ rw other (ground (arith, l.reads j h))
          ]);
          once = λ j h. omega (arith, l.once j h);
          sums = λ t h. omega (arith, l.sums t h, u.moves t h, u.gone t h);
          covered = λ t h. omega (arith, l.covered t h, u.moves t h, u.gone t h);
        },
        u.moves,
      ),
    )

-- The whole walk.
walk-Left :
    (cs : Chain ℕ G1Fmt) (topic : ℕ) (p : Pdt) (attrs : Attrs)
    → Left cs topic p attrs
    → Returns (foldl hash_del_fmt (ok (p, attrs)) cs) λ (_, attrs').
      IsAttrs attrs' × ((t : ℕ) → t < 2 ^ 32 → refs attrs' t + held p t ≡ refs attrs t)
unfolding hash_del_fmt
walk-Left [] topic p attrs l = ((p, attrs), refl, (l.attrs_are, λ t h. omega (arith, l.sums t h)))
walk-Left ((k, f) ∷ cs) topic p attrs l =
    let ((q, attrs₁), run, (left, moves)) = step-Left k f cs topic p attrs l in
    let (last, run', (w, gone)) = walk-Left cs topic q attrs₁ left in
    (last, rw run run', (w, λ t h. omega (arith, moves t h, gone t h)))

-- How many references to a topic the product that was found holds.
abbrev pub held_by : ℕ → Option Pdt → ℕ
held_by t none = 0
held_by t (some p) = held p t

-- From a well-formed catalogue `del_pdt` never faults. The product is gone, every reference that it
-- held is given back to the attributes, and the catalogue is well formed again.
pub del_pdt-IsCatalog :
    (topic t : ℕ) (c : Catalog)
    → IsCatalog c
    → topic < 2 ^ 32
    → t < 2 ^ 32
    → Returns (del_pdt topic c) λ c'.
      IsCatalog c'
      × (get_pdt topic c' ≡ none)
      × (refs c'.attrs t + held_by t (get_pdt topic c) ≡ refs c.attrs t)
unfolding del_pdt get_pdt hash_map_work hash_map_free total tokens_of
del_pdt-IsCatalog topic t c v h t_range = elim (Option-cases (get_pdt topic c)) [
  | inl absent ↦ (c, rw (del_pdt, absent) refl, (v, absent, rw absent (omega arith)))
  | inr (p, there) ↦
      let is : IsPdt topic p = rw there at (v.each topic h) in
      let start : Left (all_pairs p.fmt_map.table) topic p c.attrs = record {
        is = is;
        attrs_are = v.attrs;
        keys = AreKeys-all_pairs p.fmt_map.table is.fmts.keys;
        reads = λ j k. (free_once p.fmt_map is.fmts j k).0;
        once = λ j k. omega (
          arith,
          (free_once p.fmt_map is.fmts j k).1,
          to_nat-le (is_some (hash_map_get p.fmt_map j)),
        );
        sums = λ u k. is.balanced u k;
        covered = λ u k. held-le-refs u topic c p v h k there;
      } in
      let ((_, attrs'), run, (w, gone)) =
        walk-Left (all_pairs p.fmt_map.table) topic p c.attrs start in
      let (m, cut, e) = remove-Erased c.pdts v.pdts topic h p there in
      (
        record c { attrs = attrs'; pdts = m },
        rw (del_pdt, there, run, cut) refl,
        (
          record {
            attrs = w;
            pdts = e.valid;
            each = λ k r. rw (e.reads k r) (elim (Bool-cases (int_key.same topic k)) [
              | inl here ↦ rw here tt
              | inr other ↦ rw other (v.each k r)
            ]);
            balanced = λ u k. omega (
              arith,
              gone u k,
              v.balanced u k,
              total-remove (λ q. held q u) c.pdts v.pdts topic h m p there cut,
            );
          },
          e.reads topic h ∙ rw ((int_cmp_iff topic topic h h).1 refl) refl,
          rw there (gone t t_range),
        ),
      )
]
