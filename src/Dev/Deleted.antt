-- ===== src/Dev/Deleted.antt =====
-- The devices of src/dev.c behind `add_dev`, `del_dev` and the ageing, wherever these end normally.
use ece_lib.Base.{
  ℕ, ◌-◌, ◌^◌, ◌%◌, ◌≡◌, ◌||◌, some, List, [], ◌∷◌, ltb, ◌==◌, Option-cases, inl, inr,
}
use ece_lib.Machine.{
  Memory, malloc, WhenOk, faults, returns, bind-WhenOk, then-WhenOk, if-WhenOk, weaken_ok,
}
use ece_lib.HashMap.Keys.{str_key, IsOid}
use ece_lib.HashMap.{hash_map_get}
use ece_lib.Pdt.{get_pdt}
use ece_lib.Md5.Padding.{digest-shape, md5_string_lem}
use ece_lib.Dev.{with_memory, Dev, Edge, hex_type, oid_loop, get_dev_oid, get_dev, add_dev, del_dev}
use ece_lib.Dev.Ageing.{age_loop, do_device_ageing}
use ece_lib.Dev.Alive.{IsEdge, IsLined, IsLined-Erased, del_dev_internal-WhenGone}
use ece_lib.Dev.Kept.{add_new_dev-IsEdge}

-- The device is one of the map.
pub record IsKnown (e : Edge) (d : Dev) : Type 0 where
  pub oid : List ℕ
  pub is : IsOid oid
  pub there : hash_map_get e.devs oid ≡ some d

get_dev_oid-WhenOid :
    (type : ℕ) (addr : List ℕ) (n : ℕ) (mem : Memory)
    → WhenOk (λ (oid, _). IsOid oid) (get_dev_oid type addr n mem)
unfolding get_dev_oid
get_dev_oid-WhenOid type addr n mem = bind-WhenOk (oid_loop n (hex_type type) addr) λ text.
    rw (md5_string_lem text mem) (if-WhenOk (malloc mem).0 (returns ((digest-shape text).0)) faults)

-- What does not depend on the memory holds after the search too.
pub get_dev-IsKnown :
    (Q : Edge → Type 0) (type : ℕ) (addr : List ℕ) (n : ℕ) (e : Edge)
    → ((mem : Memory) → Q (with_memory e mem))
    → WhenOk
        (λ (found, e'). ((d : Dev) → found ≡ some d → IsKnown e' d) × Q e')
        (get_dev type addr n e)
unfolding get_dev
get_dev-IsKnown Q type addr n e q =
    then-WhenOk (get_dev_oid-WhenOid type addr n e.catalog.mem)
      λ (oid, mem) is. returns ((λ d found. record { oid = oid; is = is; there = found }), q mem)

pub add_dev-IsEdge :
    (port : ℕ) (addr : List ℕ) (n type topic now : ℕ) (e : Edge)
    → IsEdge e
    → WhenOk (λ (_, e'). IsEdge e') (add_dev port addr n type topic now e)
unfolding add_dev
add_dev-IsEdge port addr n type topic now e v =
    if-WhenOk (n == 0 || topic == 0) (returns v) (elim (Option-cases (get_pdt topic e.catalog)) [
      | inl absent ↦ rw absent (returns v)
      | inr (p, there) ↦ rw there (
          then-WhenOk (get_dev_oid-WhenOid type addr n e.catalog.mem) λ (oid, mem) is.
            returns (add_new_dev-IsEdge p oid (port % 2 ^ 16) now (with_memory e mem) v is))
    ])

pub del_dev-IsEdge :
    (type : ℕ) (addr : List ℕ) (n : ℕ) (e : Edge) → IsEdge e → WhenOk IsEdge (del_dev type addr n e)
unfolding del_dev
del_dev-IsEdge type addr n e v = if-WhenOk (n == 0) (returns v) (
    then-WhenOk (get_dev-IsKnown IsEdge type addr n e λ mem. v) λ (found, e₁) (known, v₁).
      elim (Option-cases found) [
        | inl absent ↦ rw absent (returns v₁)
        | inr (d, there) ↦ rw there (
            let k = known d there in
            weaken_ok (del_dev_internal-WhenGone k.oid d e₁ v₁ k.is k.there) λ e' gone. gone.is)
      ])

age_loop-IsEdge :
    (interval now : ℕ) (oids : List (List ℕ)) (e : Edge)
    → IsEdge e
    → IsLined e.devs oids
    → WhenOk IsEdge (age_loop interval now oids e)
unfolding age_loop
age_loop-IsEdge interval now [] e v l = returns v
age_loop-IsEdge interval now (oid ∷ rest) e v (is, _, once, l) =
    elim (Option-cases (hash_map_get e.devs oid)) [
      | inl absent ↦ rw (age_loop, absent) faults
      | inr (d, there) ↦
          rw (age_loop, there)
            (if-WhenOk (ltb interval (now - d.ts))
              (then-WhenOk (del_dev_internal-WhenGone oid d e v is there) λ e' gone.
                age_loop-IsEdge interval now rest e' gone.is
                  (IsLined-Erased e.devs e'.devs oid rest is gone.erased once l))
              (returns v))
    ]

pub do_device_ageing-IsEdge :
    (interval now : ℕ) (e : Edge) → IsEdge e → WhenOk IsEdge (do_device_ageing interval now e)
unfolding do_device_ageing
do_device_ageing-IsEdge interval now e v = if-WhenOk (e.last_ageing == 0) (returns v) (
    if-WhenOk (ltb 60 (now - e.last_ageing))
      (then-WhenOk (age_loop-IsEdge interval now e.ages e v v.lined) λ e' v'. returns v')
      (returns v))
