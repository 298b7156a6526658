-- ===== src/Pdt/Refs.antt =====
-- The references that a product of src/pdt.c holds, and the halves of `add_pdt_attr` and
-- `del_pdt_attr` that change them.
use ece_lib.Base.{
  ℕ, ◌+◌, ◌-◌, ◌<◌, ◌≡◌, refl, ◌≢◌, inl, inr, ◌∙◌, Option, none, some, arith, ◌==◌, ◌^◌,
  if◌then◌else◌, Option-cases, Bool-cases, ==_iff,
}
use ece_lib.Machine.{Memory, malloc, u64, Returns}
use ece_lib.HashMap.Keys.{int_key, int_cmp_iff}
use ece_lib.HashMap.{HashMap, hash_map_get, hash_map_put}
use ece_lib.HashMap.Invariant.{IsValid}
use ece_lib.HashMap.Put.{put-Written}
use ece_lib.HashMap.Remove.{Erased, remove-Erased}
use ece_lib.Token.Layout.{IfSome}
use ece_lib.Pdt.{PdtAttr, Pdt, hold_attr, release_attr}

abbrev pub held_of : Option PdtAttr → ℕ
held_of none = 0
held_of (some a) = a.ref

-- How often the product refers to the topic.
unfoldable pub held : Pdt → ℕ → ℕ
held p topic = held_of (hash_map_get p.attr_map topic)

-- An attribute of a product is there only while it is referred to.
abbrev pub IsHeld : Option PdtAttr → Type 0
IsHeld none = Unit
IsHeld (some a) = (0 < a.ref) × (a.ref < 2 ^ 64)

pub record AreHeld (m : HashMap ℕ PdtAttr) : Type 0 where
  pub valid : IsValid m
  pub each : (topic : ℕ) → topic < 2 ^ 32 → IsHeld (hash_map_get m topic)

-- What an operation on one attribute of a product has done: the topic is counted `n` times, the other
-- counts and the rest of the product are as before.
pub record Holds (p : Pdt) (topic n : ℕ) (p' : Pdt) : Type 0 where
  pub kept : AreHeld p'.attr_map
  pub counted : held p' topic ≡ n
  pub others : (t : ℕ) → t < 2 ^ 32 → t ≢ topic → held p' t ≡ held p t
  pub rest : p' ≡ record p { attr_map = p'.attr_map }

-- All counts after such an operation, in one statement.
pub Holds-all :
    {p p' : Pdt} {topic n : ℕ}
    → Holds p topic n p'
    → (t : ℕ) → t < 2 ^ 32
    → held p' t ≡ (if t == topic then n else held p t)
Holds-all {p} {p'} {topic} {n} h t in_range = elim (Bool-cases (t == topic)) [
  | inl here ↦ rw here (rw ((==_iff t topic).0 here) h.counted)
  | inr there ↦ rw there (h.others t in_range (ground arith))
]

module _ (p : Pdt) (v : AreHeld p.attr_map) (topic : ℕ) (in_range : topic < 2 ^ 32) where
  put-Holds :
      (a : PdtAttr) (n : ℕ)
      → a.ref ≡ n
      → (0 < a.ref) × (a.ref < 2 ^ 64)
      → Holds p topic n (record p { attr_map = hash_map_put p.attr_map topic a })
  unfolding held
  put-Holds a n e is =
      let w = put-Written p.attr_map v.valid topic in_range a in
      record {
        kept = record {
          valid = w.valid;
          each = λ t h. rw (w.reads t h) (ground (arith, v.each t h));
        };
        counted =
            rw (w.reads topic in_range) (ground (arith, int_cmp_iff topic topic in_range in_range));
        others = λ t h ne. rw (w.reads t h) (ground (arith, int_cmp_iff topic t in_range h));
        rest = refl;
      }

  pub same-Holds : Holds p topic (held p topic) p
  same-Holds = record { kept = v; counted = refl; others = λ t h ne. refl; rest = refl }

  erase-Holds :
      (m : HashMap ℕ PdtAttr)
      → Erased p.attr_map topic m
      → Holds p topic 0 (record p { attr_map = m })
  unfolding held
  erase-Holds m e = record {
    kept = record { valid = e.valid; each = λ t h. rw (e.reads t h) (ground (arith, v.each t h)) };
    counted =
        rw (e.reads topic in_range) (ground (arith, int_cmp_iff topic topic in_range in_range));
    others = λ t h ne. rw (e.reads t h) (ground (arith, int_cmp_iff topic t in_range h));
    rest = refl;
  }

  -- The attribute that `hold_attr` hands out is the one that is stored.
  stored : (a : PdtAttr) → hash_map_get (hash_map_put p.attr_map topic a) topic ≡ some a
  stored a =
      (put-Written p.attr_map v.valid topic in_range a).reads topic in_range
      ∙ ground (arith, int_cmp_iff topic topic in_range in_range)

  pub hold_attr-Holds :
      (mem : Memory)
      → held p topic + 1 < 2 ^ 64
      → IfSome
          (λ (a, p').
            (hash_map_get p'.attr_map topic ≡ some a) × Holds p topic (held p topic + 1) p')
          (hold_attr p topic mem).0
  unfolding hold_attr held
  hold_attr-Holds mem room = elim (Option-cases (hash_map_get p.attr_map topic)) [
    | inl absent ↦ elim (Bool-cases (malloc mem).0) [
      | inl got ↦
          rw (absent, hold_attr, got)
            (
              stored (record { ref = 1; topic = topic }),
              put-Holds (record { ref = 1; topic = topic }) 1 refl (omega arith),
            )
      | inr out ↦ rw (absent, hold_attr, out) tt
    ]
    | inr (old, there) ↦
        let small = rw there at room in
        let more : u64 (old.ref + 1) ≡ old.ref + 1 = omega arith in
        let a : PdtAttr = record old { ref = u64 (old.ref + 1) } in
        rw (there, hold_attr) (stored a, put-Holds a (old.ref + 1) more (omega arith))
  ]

  pub release_attr-Holds :
      (a : PdtAttr)
      → hash_map_get p.attr_map topic ≡ some a
      → Returns (release_attr p topic a) (Holds p topic (held p topic - 1))
  unfolding release_attr held
  release_attr-Holds a there =
      let is : IsHeld (some a) = rw there at (v.each topic in_range) in
      let left : ℕ = u64 (a.ref + 2 ^ 64 - 1) in
      let less : left ≡ held_of (hash_map_get p.attr_map topic) - 1 = rw there (omega arith) in
      elim (Bool-cases (left == 0)) [
        | inl gone ↦
            let (m, run, e) = remove-Erased p.attr_map v.valid topic in_range a there in
            let none_left : held_of (hash_map_get p.attr_map topic) - 1 ≡ 0 = ground arith in
            (
              record p { attr_map = m },
              rw (release_attr, gone, run) refl,
              rw none_left (erase-Holds m e),
            )
        | inr stays ↦ (
          record p { attr_map = hash_map_put p.attr_map topic (record a { ref = left }) },
          rw (release_attr, stays) refl,
          put-Holds (record a { ref = left }) (held_of (hash_map_get p.attr_map topic) - 1) less
              (ground arith),
        )
      ]
