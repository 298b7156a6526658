-- ===== src/Pdt/AddDel.antt =====
-- What `add_pdt_attr` and `del_pdt_attr` of src/pdt.c do to the counts of a product and of the
-- attributes.
use ece_lib.Base.{
  ℕ, ◌+◌, ◌-◌, ◌<◌, ◌≡◌, refl, ◌≢◌, inl, inr, ◌∙◌, min, false, Option, none, some, arith, ◌==◌, ◌^◌,
  Option-cases, Bool-cases,
}
use ece_lib.Machine.{Memory, Returns}
use ece_lib.HashMap.Keys.{int_key}
use ece_lib.HashMap.{hash_map_get}
use ece_lib.Attr.{EdgeAttr, Attrs, rejects, add_attr, del_attr}
use ece_lib.Attr.Refs.{refs, IsAttrs, Counts, same-Counts, add_attr-Added, del_attr_ref-Counts}
use ece_lib.Pdt.{PdtAttr, Pdt, hold_attr, add_held_attr, add_pdt_attr, del_pdt_attr}
use ece_lib.Pdt.Refs.{held, IsHeld, AreHeld, Holds, same-Holds, hold_attr-Holds, release_attr-Holds}

module _ (p : Pdt) (v : AreHeld p.attr_map) (topic : ℕ) (in_range : topic < 2 ^ 32) (attrs : Attrs)
    (w : IsAttrs attrs) where
  -- How a call of `add_pdt_attr` has ended. With `NULL` no count has changed; otherwise the product
  -- and the attribute each count one reference more.
  abbrev pub AddedBoth : Option EdgeAttr × Pdt × Attrs × Memory → Type 0
  AddedBoth (none, p', attrs', _) = Holds p topic (held p topic) p' × (attrs' ≡ attrs)
  AddedBoth (some a, p', attrs', _) =
      Holds p topic (held p topic + 1) p' × Counts attrs topic (refs attrs topic + 1) attrs'

  -- Holding and then releasing a topic leaves all counts as they were.
  back-Holds :
      (p' q : Pdt)
      → Holds p topic (held p topic + 1) p'
      → Holds p' topic (held p' topic - 1) q
      → Holds p topic (held p topic) q
  back-Holds p' q up down = record {
    kept = down.kept;
    counted = omega (arith, up.counted, down.counted);
    others = λ t h ne. down.others t h ne ∙ up.others t h ne;
    rest = cc up.rest;
  }

  add_held_attr-AddedBoth :
      (a : PdtAttr) (p' : Pdt) (type len : ℕ) (mem : Memory)
      → hash_map_get p'.attr_map topic ≡ some a
      → Holds p topic (held p topic + 1) p'
      → refs attrs topic + 1 < 2 ^ 64
      → Returns (add_held_attr p' a topic type len attrs mem) AddedBoth
  unfolding add_held_attr
  add_held_attr-AddedBoth a p' type len mem there side room =
      let added = add_attr-Added attrs w topic in_range type len mem room in
      elim (Option-cases (add_attr topic type len attrs mem).0) [
        | inl refused ↦
            let same : (add_attr topic type len attrs mem).1 ≡ attrs = rw refused at added in
            let (q, run, down) = release_attr-Holds p' side.kept topic in_range a there in
            (
              (
                none,
                q,
                (add_attr topic type len attrs mem).1,
                (add_attr topic type len attrs mem).2,
              ),
              rw (add_held_attr, refused, run) refl,
              (back-Holds p' q side down, same),
            )
        | inr (e, got) ↦
            let (is, counts) = rw got at added in
            (
              (
                some e,
                p',
                (add_attr topic type len attrs mem).1,
                (add_attr topic type len attrs mem).2,
              ),
              rw (add_held_attr, got) refl,
              (side, counts),
            )
      ]

  -- With counters that are not at their end, `add_pdt_attr` never faults. Where it returns an
  -- attribute, the product and the attributes count one reference to the topic more, and all other
  -- counts are as they were; where it returns `NULL`, also because memory has run out half-way, no
  -- count has changed.
  pub add_pdt_attr-AddedBoth :
      (type len : ℕ) (mem : Memory)
      → held p topic + 1 < 2 ^ 64
      → refs attrs topic + 1 < 2 ^ 64
      → Returns (add_pdt_attr p topic type len attrs mem) AddedBoth
  unfolding add_pdt_attr
  add_pdt_attr-AddedBoth type len mem room_p room_a = elim (Bool-cases (rejects topic type len)) [
    | inl refused ↦ (
      (none, p, attrs, mem),
      rw (refused, add_pdt_attr) refl,
      (same-Holds p v topic in_range, refl),
    )
    | inr fine ↦ elim (Option-cases (hold_attr p topic mem).0) [
      | inl lost ↦ (
        (none, p, attrs, (hold_attr p topic mem).1),
        rw (add_pdt_attr, fine, lost) refl,
        (same-Holds p v topic in_range, refl),
      )
      | inr ((a, p'), got) ↦
          let (there, side) = rw got at (hold_attr-Holds p v topic in_range mem room_p) in
          rw (add_pdt_attr, fine, got)
            (add_held_attr-AddedBoth a p' type len (hold_attr p topic mem).1 there side room_a)
    ]
  ]

  -- `del_pdt_attr` of a topic that is not 0 never faults. A topic that the product refers to loses
  -- one reference in the product and one in the attributes; no other count changes.
  pub del_pdt_attr-Holds :
      topic ≢ 0
      → Returns (del_pdt_attr p topic attrs) λ (p', attrs').
        Holds p topic (held p topic - 1) p'
        × Counts attrs topic (refs attrs topic - min 1 (held p topic)) attrs'
  unfolding del_pdt_attr del_attr held
  del_pdt_attr-Holds ne =
      let ok_topic : (topic == 0) ≡ false = ground arith in
      elim (Option-cases (hash_map_get p.attr_map topic)) [
        | inl absent ↦
            let none_less : held p topic - 1 ≡ held p topic = rw absent refl in
            let none_off : refs attrs topic - min 1 (held p topic) ≡ refs attrs topic =
              rw absent (omega arith) in
            (
              (p, attrs),
              rw (del_pdt_attr, ok_topic, absent) refl,
              (
                rw none_less (same-Holds p v topic in_range),
                rw none_off (same-Counts attrs w topic in_range),
              ),
            )
        | inr (a, there) ↦
            let (p', run, side) = release_attr-Holds p v topic in_range a there in
            let (attrs', run', counts) = del_attr_ref-Counts attrs w topic in_range 1 in
            let is : IsHeld (some a) = rw there at (v.each topic in_range) in
            let one_off : refs attrs topic - min 1 (held p topic) ≡ refs attrs topic - 1 =
              rw there (omega arith) in
            (
              (p', attrs'),
              rw (del_pdt_attr, ok_topic, there, run, run') refl,
              (side, rw one_off counts),
            )
      ]
