-- ===== src/G1Fmt/DelFormat.antt =====
-- `del_g1_fmt` of src/g1_fmt.c and the references that the tokens of a format hold.
use ece_lib.Base.{
  subst, sym, ◌⊎◌, true, ℕ, ◌+◌, ◌≤◌, ◌<◌, ◌≡◌, refl, inl, inr, ◌∙◌, ap, ap₂, Option, none, some,
  arith, List, [], ◌∷◌, ◌^◌, if◌then◌else◌, Option-cases, Bool-cases, All,
}
use ece_lib.Machine.{Returns}
use ece_lib.HashMap.Keys.{int_key, int_cmp_iff}
use ece_lib.HashMap.{hash_map_put, hash_map_get, hash_map_remove}
use ece_lib.HashMap.Remove.{remove-Erased}
use ece_lib.HashMap.Chain.{is_some}
use ece_lib.HashMap.Put.{put-Written}
use ece_lib.HashMap.Sum.{total-remove}
use ece_lib.Attr.{Attrs}
use ece_lib.Attr.Refs.{refs, IsAttrs, Counts-all}
use ece_lib.Token.{G1Token, G1Fmt}
use ece_lib.Token.Layout.{uses}
use ece_lib.Pdt.{Pdt, Catalog, get_pdt}
use ece_lib.Pdt.Refs.{held, AreHeld, Holds-all}
use ece_lib.Pdt.AddDel.{del_pdt_attr-Holds}
use ece_lib.G1Fmt.{store_pdt, get_g1_fmt, release_tokens, del_g1_fmt_internal, del_g1_fmt}
use ece_lib.G1Fmt.Invariant.{
  IsTopic, IsFmt, IsPdt, IsCatalog, store_pdt-IsCatalog, tokens_of, uses-le-tokens_of, held-le-refs,
}
use ece_lib.G1Fmt.AddToken.{get_g1_fmt-found, pdt}

-- What giving back the attributes of some tokens has done.
pub record Released (ts : List G1Token) (p : Pdt) (attrs : Attrs) (p' : Pdt) (attrs' : Attrs)
    : Type 0 where
  pub holds : AreHeld p'.attr_map
  pub kept : IsAttrs attrs'
  pub rest : p' ≡ record p { attr_map = p'.attr_map }
  pub in_pdt : (t : ℕ) → t < 2 ^ 32 → held p' t + uses t ts ≡ held p t
  pub in_attrs : (t : ℕ) → t < 2 ^ 32 → refs attrs' t + uses t ts ≡ refs attrs t

release_tokens-Released :
    (ts : List G1Token) (p : Pdt) (attrs : Attrs)
    → AreHeld p.attr_map
    → IsAttrs attrs
    → All IsTopic ts
    → ((t : ℕ) → t < 2 ^ 32 → uses t ts ≤ held p t)
    → ((t : ℕ) → t < 2 ^ 32 → held p t ≤ refs attrs t)
    → Returns (release_tokens ts p attrs) λ (p', attrs'). Released ts p attrs p' attrs'
unfolding release_tokens uses
release_tokens-Released [] p attrs v w topics enough covered = (
  (p, attrs),
  refl,
  record {
    holds = v;
    kept = w;
    rest = refl;
    in_pdt = λ t h. omega arith;
    in_attrs = λ t h. omega arith;
  },
)
release_tokens-Released (token ∷ ts) p attrs v w topics enough covered =
    let (ne, in_range) = topics.0 in
    let ((q, attrs₁), run, (side, counts)) =
      del_pdt_attr-Holds p v token.topic in_range attrs w ne in
    let one : 0 < held p token.topic = ground (arith, enough token.topic in_range) in
    let ((p', attrs'), run', r) =
      release_tokens-Released ts q attrs₁ side.kept counts.kept topics.1
        (λ t h. ground (arith, Holds-all side t h, enough t h))
        (λ t h. ground (arith, Holds-all side t h, Counts-all counts t h, covered t h)) in
    (
      (p', attrs'),
      rw (release_tokens, run) run',
      record {
        holds = r.holds;
        kept = r.kept;
        rest = cc (r.rest, side.rest);
        in_pdt = λ t h. ground (arith, Holds-all side t h, r.in_pdt t h);
        in_attrs = λ t h.
            ground (arith, Counts-all counts t h, r.in_attrs t h, covered token.topic in_range);
      },
    )

-- What `del_g1_fmt_internal` of a format of the product has done: nothing is left of it, and the
-- attributes have lost what the product has lost.
pub record Unloaded (topic key : ℕ) (fmt : G1Fmt) (p : Pdt) (attrs : Attrs) (p' : Pdt)
    (attrs' : Attrs) : Type 0 where
  pub is : IsPdt topic p'
  pub kept : IsAttrs attrs'
  pub moves : (t : ℕ) → t < 2 ^ 32 → refs attrs' t + held p t ≡ refs attrs t + held p' t
  pub gone : (t : ℕ) → t < 2 ^ 32 → refs attrs' t + uses t fmt.token ≡ refs attrs t
  pub reads :
      (k : ℕ)
      → k < 2 ^ 32
      → hash_map_get p'.fmt_map k ≡ (if int_key.same key k then none else hash_map_get p.fmt_map k)

pub del_internal-Unloaded :
    (topic key : ℕ) (fmt : G1Fmt) (p : Pdt) (attrs : Attrs)
    → IsPdt topic p
    → IsAttrs attrs
    → key < 2 ^ 32
    → hash_map_get p.fmt_map key ≡ some fmt
    → ((t : ℕ) → t < 2 ^ 32 → held p t ≤ refs attrs t)
    → Returns
        (del_g1_fmt_internal fmt p attrs)
        λ (p', attrs'). Unloaded topic key fmt p attrs p' attrs'
unfolding del_g1_fmt_internal held tokens_of
del_internal-Unloaded topic key fmt p attrs v w in_range there covered =
    let is : IsFmt key fmt = rw there at (v.each key in_range) in
    let enough : (t : ℕ) → t < 2 ^ 32 → uses t fmt.token ≤ held p t =
      λ t h. omega (arith, v.balanced t h, uses-le-tokens_of t key topic p fmt v in_range there) in
    let ((q, attrs'), run, r) =
      release_tokens-Released fmt.token p attrs v.holds w is.topics enough covered in
    let (m, cut, e) = remove-Erased p.fmt_map v.fmts key in_range fmt there in
    let erased : hash_map_remove q.fmt_map fmt.key ≡ some m =
      ap₂ (λ k j. hash_map_remove k j) (ap (λ (x : Pdt). x.fmt_map) r.rest) is.own ∙ cut in
    let weight_of = λ (t : ℕ) (f : G1Fmt). uses t f.token in
    (
      (record q { fmt_map = m }, attrs'),
      rw (run, erased) refl,
      record {
        is = record {
          own = ap (λ (x : Pdt). x.topic) r.rest ∙ v.own;
          holds = r.holds;
          fmts = e.valid;
          each = λ k h. rw (e.reads k h) (elim (Bool-cases (int_key.same key k)) [
            | inl here ↦ rw here tt
            | inr other ↦ rw other (v.each k h)
          ]);
          balanced = λ t h. omega (
            arith,
            r.in_pdt t h,
            total-remove (weight_of t) p.fmt_map v.fmts key in_range m fmt there cut,
            v.balanced t h,
          );
        };
        kept = r.kept;
        moves = λ t h. omega (arith, r.in_pdt t h, r.in_attrs t h);
        gone = r.in_attrs;
        reads = e.reads;
      },
    )

-- How many tokens of a topic the format that was found has.
abbrev pub used_by : ℕ → Option (Pdt × G1Fmt) → ℕ
used_by t none = 0
used_by t (some (_, fmt)) = uses t fmt.token

fmt_gone :
    (topic key : ℕ) (fmt : G1Fmt) (c : Catalog) (p p' : Pdt) (attrs' : Attrs)
    → IsCatalog c
    → topic < 2 ^ 32
    → key < 2 ^ 32
    → Unloaded topic key fmt p c.attrs p' attrs'
    → get_g1_fmt topic key (store_pdt c p' attrs' c.mem) ≡ none
unfolding get_g1_fmt
fmt_gone topic key fmt c p p' attrs' v h k u =
    let put = put-Written c.pdts v.pdts topic h p' in
    let pdt_there : hash_map_get (hash_map_put c.pdts p'.topic p') topic ≡ some p' =
      subst (λ t. hash_map_get (hash_map_put c.pdts t p') topic ≡ some p') (sym u.is.own)
        (put.reads topic h ∙ rw ((int_cmp_iff topic topic h h).1 refl) refl) in
    let no_fmt : hash_map_get p'.fmt_map key ≡ none =
      u.reads key k ∙ rw ((int_cmp_iff key key k k).1 refl) refl in
    rw (get_g1_fmt, get_pdt, pdt_there, no_fmt) refl

-- From a well-formed catalogue `del_g1_fmt` never faults, gives back every reference that the
-- tokens of the format hold, and leaves the catalogue well formed, without the format; where there is
-- no such format it changes nothing.
pub del_g1_fmt-IsCatalog :
    (topic key t : ℕ) (c : Catalog)
    → IsCatalog c
    → topic < 2 ^ 32
    → key < 2 ^ 32
    → t < 2 ^ 32
    → Returns (del_g1_fmt topic key c) λ c'.
      IsCatalog c'
      × (refs c'.attrs t + used_by t (get_g1_fmt topic key c) ≡ refs c.attrs t)
      × (get_g1_fmt topic key c' ≡ none)
      × ((is_some (get_g1_fmt topic key c) ≡ true) ⊎ (c' ≡ c))
unfolding del_g1_fmt
del_g1_fmt-IsCatalog topic key t c v h k t_range = elim (Option-cases (get_g1_fmt topic key c)) [
  | inl absent ↦ (c, rw (del_g1_fmt, absent) refl, (v, rw absent (omega arith), absent, inr refl))
  | inr ((p, fmt), found) ↦
      let (there, at) = get_g1_fmt-found topic key c p fmt found in
      let is_pdt = pdt c v topic key h k p fmt there at in
      let ((p', attrs'), run, u) =
        del_internal-Unloaded topic key fmt p c.attrs is_pdt v.attrs k at
          (λ u u_range. held-le-refs u topic c p v h u_range there) in
      (
        store_pdt c p' attrs' c.mem,
        rw (del_g1_fmt, found, run) refl,
        (
          store_pdt-IsCatalog c topic p p' attrs' c.mem v h there u.is u.kept u.moves,
          rw found (omega (arith, u.gone t t_range)),
          fmt_gone topic key fmt c p p' attrs' v h k u,
          inl (ap is_some found),
        ),
      )
]
