-- ===== src/G1Fmt/Start.antt =====
-- The state that `attr_init` of src/attr.c and `pdt_init` of src/pdt.c leave.
use ece_lib.Base.{ℕ, ◌≡◌, refl, none, arith, sym}
use ece_lib.Machine.{Memory}
use ece_lib.HashMap.Keys.{int_key}
use ece_lib.HashMap.{hash_map_get, hash_map_init}
use ece_lib.HashMap.Invariant.{init-IsValid}
use ece_lib.HashMap.Walk.{init_empty}
use ece_lib.HashMap.Sum.{total-init}
use ece_lib.Attr.{EdgeAttr, attr_init, get_attr}
use ece_lib.Attr.Refs.{refs}
use ece_lib.Pdt.{Pdt, Catalog, pdt_init, get_pdt}
use ece_lib.Pdt.Refs.{held}
use ece_lib.G1Fmt.Invariant.{IsCatalog}

-- The catalogue at the start.
unfoldable pub start : Memory → Catalog
start mem = record { attrs = attr_init; pdts = pdt_init; mem = mem; next = 1 }

-- The program starts from a well-formed catalogue, in which no attribute is referred to.
pub init-IsCatalog : (mem : Memory) (t : ℕ) → IsCatalog (start mem) × (refs (start mem).attrs t ≡ 0)
unfolding start attr_init pdt_init get_attr get_pdt refs
init-IsCatalog mem t =
    let no_attr : (k : ℕ) → hash_map_get {K = ℕ} {V = EdgeAttr} (hash_map_init 64) k ≡ none =
      λ k. (init_empty {V = EdgeAttr} 64 k (omega arith)).1 in
    let no_pdt : (k : ℕ) → hash_map_get {K = ℕ} {V = Pdt} (hash_map_init 16) k ≡ none =
      λ k. (init_empty {V = Pdt} 16 k (omega arith)).1 in
    (
      record {
        attrs = record {
          valid = init-IsValid 64 (omega arith);
          each = λ topic h. rw (no_attr topic) tt;
        };
        pdts = init-IsValid 16 (omega arith);
        each = λ topic h. rw (no_pdt topic) tt;
        balanced = λ topic h. rw (no_attr topic) (sym (total-init ℕ Pdt (λ p. held p topic) 16));
      },
      rw (no_attr t) refl,
    )
