-- ===== src/Attr/Refs.antt =====
-- What `add_attr` and `del_attr_ref` of src/attr.c do to the attributes and their reference counts.
use ece_lib.Base.{
  ℕ, ◌+◌, ◌-◌, ◌<◌, ◌≡◌, refl, ◌≢◌, inl, inr, ◌∙◌, ap, true, not, ◌&&◌, ◌||◌, Option, none, some,
  arith, ◌==◌, ◌^◌, leb, if◌then◌else◌, Option-cases, Bool-cases, ==_iff,
}
use ece_lib.Machine.{Memory, malloc, u64, Returns}
use ece_lib.HashMap.Keys.{int_key, int_cmp_iff}
use ece_lib.HashMap.Chain.{is_some}
use ece_lib.HashMap.{hash_map_put}
use ece_lib.HashMap.Invariant.{IsValid}
use ece_lib.HashMap.Put.{put-Written}
use ece_lib.HashMap.Remove.{Erased, remove-Erased}
use ece_lib.Attr.{EdgeAttr, Attrs, edge_attr_butt, add_attr, get_attr, del_attr_ref, rejects}

-- The reference count of a topic, 0 where there is no attribute.
abbrev pub ref_of : Option EdgeAttr → ℕ
ref_of none = 0
ref_of (some a) = a.ref

unfoldable pub refs : Attrs → ℕ → ℕ
refs attrs topic = ref_of (get_attr topic attrs)

-- What `add_attr` and `del_attr_ref` keep: an attribute stands under its own topic, with a type that
-- the program knows and a length, and is there only while it is referred to.
pub record IsAttr (topic : ℕ) (a : EdgeAttr) : Type 0 where
  pub own : a.topic ≡ topic
  pub typed : a.type < edge_attr_butt
  pub long : a.len ≢ 0
  pub held : 0 < a.ref

abbrev pub AreAttrs : Option EdgeAttr → ℕ → Type 0
AreAttrs none topic = Unit
AreAttrs (some a) topic = IsAttr topic a

pub record IsAttrs (attrs : Attrs) : Type 0 where
  pub valid : IsValid attrs
  pub each : (topic : ℕ) → topic < 2 ^ 32 → AreAttrs (get_attr topic attrs) topic

-- What an operation on one topic has done: the invariant holds, that topic has the count `n`, and
-- what is stored of any other topic is as before.
pub record Counts (attrs : Attrs) (topic n : ℕ) (attrs' : Attrs) : Type 0 where
  pub kept : IsAttrs attrs'
  pub counted : refs attrs' topic ≡ n
  pub others : (t : ℕ) → t < 2 ^ 32 → t ≢ topic → get_attr t attrs' ≡ get_attr t attrs

-- All counts after such an operation, in one statement.
pub Counts-all :
    {attrs attrs' : Attrs} {topic n : ℕ}
    → Counts attrs topic n attrs'
    → (t : ℕ) → t < 2 ^ 32
    → refs attrs' t ≡ (if t == topic then n else refs attrs t)
unfolding refs
Counts-all {attrs} {attrs'} {topic} {n} c t in_range = elim (Bool-cases (t == topic)) [
  | inl here ↦ rw here (rw ((==_iff t topic).0 here) c.counted)
  | inr there ↦ rw there (ap ref_of (c.others t in_range (ground arith)))
]

module _ (attrs : Attrs) (v : IsAttrs attrs) (topic : ℕ) (in_range : topic < 2 ^ 32) where
  reads-put :
      (a : EdgeAttr) (t : ℕ)
      → t < 2 ^ 32
      → get_attr t (hash_map_put attrs topic a) ≡ (if topic == t then some a else get_attr t attrs)
  unfolding get_attr
  reads-put a t h =
      (put-Written attrs v.valid topic in_range a).reads t h
      ∙ ground (arith, int_cmp_iff topic t in_range h)

  put-Counts :
      (a : EdgeAttr) → IsAttr topic a → Counts attrs topic a.ref (hash_map_put attrs topic a)
  unfolding refs
  put-Counts a is = record {
    kept = record {
      valid = (put-Written attrs v.valid topic in_range a).valid;
      each = λ t h. rw (reads-put a t h) (elim (Bool-cases (topic == t)) [
        | inl here ↦ rw here (rw ((==_iff topic t).0 here) at is)
        | inr other ↦ rw other (v.each t h)
      ]);
    };
    counted = rw (reads-put a topic in_range) (ground arith);
    others = λ t h ne. rw (reads-put a t h) (ground arith);
  }

  -- Where nothing is done the count is what it was.
  pub same-Counts : Counts attrs topic (refs attrs topic) attrs
  same-Counts = record { kept = v; counted = refl; others = λ t h ne. refl }

  erase-Counts : (attrs' : Attrs) → Erased attrs topic attrs' → Counts attrs topic 0 attrs'
  unfolding refs get_attr
  erase-Counts attrs' e = record {
    kept = record {
      valid = e.valid;
      each = λ t h. rw (e.reads t h) (elim (Bool-cases (int_key.same topic t)) [
        | inl here ↦ rw here tt
        | inr other ↦ rw other (v.each t h)
      ]);
    };
    counted =
        rw (e.reads topic in_range) (ground (arith, int_cmp_iff topic topic in_range in_range));
    others = λ t h ne. rw (e.reads t h) (ground (arith, int_cmp_iff topic t in_range h));
  }

  -- How a call of `add_attr` has ended: with `NULL` nothing has changed; otherwise the attribute
  -- that it returns is stored, and has one reference more than before.
  abbrev pub Added : Option EdgeAttr × Attrs × Memory → Type 0
  Added (none, attrs', _) = attrs' ≡ attrs
  Added (some a, attrs', _) =
      (get_attr topic attrs' ≡ some a) × Counts attrs topic (refs attrs topic + 1) attrs'

  stored-Added :
      (a : EdgeAttr) (mem : Memory)
      → IsAttr topic a
      → a.ref ≡ refs attrs topic + 1
      → Added (some a, hash_map_put attrs topic a, mem)
  stored-Added a mem is more =
      (reads-put a topic in_range ∙ ground arith, rw (← more) (put-Counts a is))

  -- `add_attr` that returns `NULL` has changed nothing. Otherwise, if the counter is not at its
  -- end, the attribute that it returns is stored under its topic and counts one reference more
  -- than before, the others are as they were, and the attributes stay well formed.
  pub add_attr-Added :
      (type len : ℕ) (mem : Memory)
      → refs attrs topic + 1 < 2 ^ 64
      → Added (add_attr topic type len attrs mem)
  unfolding add_attr get_attr refs
  add_attr-Added type len mem room = elim (Bool-cases (rejects topic type len)) [
    | inl refused ↦ rw refused refl
    | inr fine ↦ elim (Option-cases (get_attr topic attrs)) [
      | inl absent ↦ elim (Bool-cases (malloc mem).0) [
        | inl got ↦
            rw (fine, absent, got)
              (stored-Added (record { topic = topic; type = type; len = len; ref = 1 })
                (malloc mem).1 (ground arith) (ground arith))
        | inr out ↦ rw (fine, absent, out) refl
      ]
      | inr (old, there) ↦
          let is : IsAttr topic old = rw there at (v.each topic in_range) in
          let more : u64 (old.ref + 1) ≡ ref_of (get_attr topic attrs) + 1 = ground arith in
          rw (fine, there)
            (stored-Added (record old { ref = u64 (old.ref + 1) }) mem (ground arith) more)
    ]
  ]

  -- `add_attr` returns an attribute exactly if the topic, the type and the length are accepted and
  -- the attribute was there or memory for it is got.
  pub add_attr-is_some :
      (type len : ℕ) (mem : Memory)
      → is_some (add_attr topic type len attrs mem).0
        ≡ (not (rejects topic type len) && (is_some (get_attr topic attrs) || (malloc mem).0))
  unfolding add_attr get_attr
  add_attr-is_some type len mem = ground arith

  -- From well-formed attributes `del_attr_ref` never faults; it takes `ref` off the count, down to
  -- 0 at the least, drops the attribute at 0, and leaves the others as they were.
  pub del_attr_ref-Counts :
      (ref : ℕ)
      → Returns (del_attr_ref topic ref attrs) (Counts attrs topic (refs attrs topic - ref))
  unfolding del_attr_ref refs get_attr
  del_attr_ref-Counts ref = elim (Option-cases (get_attr topic attrs)) [
    | inl absent ↦ (
      attrs,
      rw (absent, del_attr_ref) refl,
      record { kept = v; counted = ground arith; others = λ t h ne. refl },
    )
    | inr (old, there) ↦
        let left : ℕ = if leb ref old.ref then old.ref - ref else 0 in
        let is : IsAttr topic old = rw there at (v.each topic in_range) in
        let same : left ≡ ref_of (get_attr topic attrs) - ref = ground arith in
        let none_left = λ (h : (left == 0) ≡ true).
          let z : ref_of (get_attr topic attrs) - ref ≡ 0 = ground arith in z in
        elim (Bool-cases (left == 0)) [
          | inl gone ↦
              let (attrs', run, e) = remove-Erased attrs v.valid topic in_range old there in
              (
                attrs',
                rw (there, del_attr_ref, gone, run) refl,
                rw (none_left gone) (erase-Counts attrs' e),
              )
          | inr stays ↦ (
            hash_map_put attrs topic (record old { ref = left }),
            rw (there, del_attr_ref, stays) refl,
            rw (← same) (put-Counts (record old { ref = left }) (ground arith)),
          )
        ]
  ]
