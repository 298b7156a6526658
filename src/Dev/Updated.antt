-- ===== src/Dev/Updated.antt =====
-- The devices of src/dev.c behind the values that packets bring, and behind the periodic reports.
use ece_lib.Base.{
  ℕ, ◌-◌, ◌<◌, ◌^◌, ap, ◌||◌, Bool, true, false, List, [], ◌∷◌, ◌++◌, ltb, ◌==◌, Option-cases,
  Bool-cases, inl, inr, arith, foldl,
}
use ece_lib.Machine.{Memory, malloc, WhenOk, returns, bind-WhenOk, if-WhenOk}
use ece_lib.HashMap.Keys.{int_key, str_key, IsOid}
use ece_lib.HashMap.{Chain, HashMap, all_pairs, hash_map_get, hash_map_put, hash_map_work}
use ece_lib.HashMap.Chain.{is_some}
use ece_lib.HashMap.Invariant.{IsValid}
use ece_lib.HashMap.Each.{Each, Each-all_pairs}
use ece_lib.HashMap.Put.{put-Written}
use ece_lib.Attr.{Attrs}
use ece_lib.Dev.{Dev, Edge, AttrVal}
use ece_lib.Dev.Values.{stamp, refresh, add_dev_attr, upt_dev_attr}
use ece_lib.Dev.Ageing.{Report, hash_update_dev, update_all, do_device_update}
use ece_lib.Dev.Alive.{occurs, Devs, AreDevs, IsDev, IsEdge}
use ece_lib.Dev.Kept.{put-AreDevs}
use ece_lib.Dev.Order.{put-IsLined}

-- A device that is in the order.
abbrev pub IsListed : List (List ℕ) → List ℕ → Dev → Type 0
IsListed ages oid d = IsDev oid d × (0 < occurs oid ages)

pub put_again :
    (m : Devs) (oid : List ℕ) (d : Dev) (ages : List (List ℕ))
    → AreDevs m ages
    → IsOid oid
    → IsListed ages oid d
    → AreDevs (hash_map_put m oid d) ages
put_again m oid d ages v ik (is, listed) =
    put-AreDevs m oid d ages ages v ik is
      (put-IsLined m oid d (hash_map_put m oid d) ages (put-Written m v.devs oid ik d) v.lined)
      listed (λ q iq other. omega arith)

hash_update_dev-IsDev :
    (id : ℕ) (oid : List ℕ) (d : Dev) → IsDev oid d → IsDev oid (hash_update_dev id d).0
unfolding hash_update_dev
hash_update_dev-IsDev id oid d is = elim (Bool-cases (ltb d.report_ts d.update_ts)) [
  | inl changed ↦ rw changed record { own = is.own; attrs = is.attrs }
  | inr same ↦ rw same is
]

abbrev update_met : ℕ → Devs × List Report → List ℕ × Dev → Devs × List Report
update_met id (m, out) (k, d) =
    let (d', sent) = hash_update_dev id d in (hash_map_put m k d', out ++ sent)

update_rest :
    (id : ℕ) (ages : List (List ℕ)) (cs : Chain (List ℕ) Dev) (m : Devs) (out : List Report)
    → AreDevs m ages
    → Each (IsListed ages) cs
    → AreDevs (foldl (update_met id) (m, out) cs).0 ages
update_rest id ages [] m out v a = v
update_rest id ages ((k, x) ∷ cs) m out v ((ik, (is, listed)), a) =
    let (d', sent) = hash_update_dev id x in
    update_rest id ages cs (hash_map_put m k d') (out ++ sent)
      (put_again m k d' ages v ik (hash_update_dev-IsDev id k x is, listed)) a

update_all-AreDevs :
    (id : ℕ) (ages : List (List ℕ)) (m : Devs) → AreDevs m ages → AreDevs (update_all id m).0 ages
unfolding update_all hash_map_work
update_all-AreDevs id ages m v = update_rest id ages (all_pairs m.table) m [] v (
    Each-all_pairs (IsListed ages) m v.devs
      λ j x h found. (v.each j x h found, v.every j h (ap is_some found)))

pub do_device_update-IsEdge :
    (id interval now : ℕ) (e : Edge) → IsEdge e → IsEdge (do_device_update id interval now e).0
unfolding do_device_update
do_device_update-IsEdge id interval now e v = elim (Bool-cases (e.last_update == 0)) [
  | inl first ↦ rw first v
  | inr later ↦ elim (Bool-cases (ltb interval (now - e.last_update))) [
    | inl due ↦ rw (later, due) (update_all-AreDevs id e.ages e.devs v)
    | inr early ↦ rw (later, early) v
  ]
]

stamp-IsDev :
    (b : Bool) (now : ℕ) (oid : List ℕ) (d : Dev) → IsDev oid d → IsDev oid (stamp b now d)
stamp-IsDev true now oid d is = record { own = is.own; attrs = is.attrs }
stamp-IsDev false now oid d is = is

-- A value is stored in the map of the device.
with_value :
    (oid : List ℕ) (d : Dev) (topic : ℕ) (attr : AttrVal) (m : HashMap ℕ AttrVal)
    → topic < 2 ^ 32
    → IsValid m
    → IsDev oid d
    → IsDev oid (record d { attr_map = hash_map_put m topic attr })
with_value oid d topic attr m h v is = record {
  own = is.own;
  attrs = (put-Written m v topic h attr).valid;
}

add_dev_attr-IsDev :
    (oid : List ℕ) (d : Dev) (topic : ℕ) (val : List ℕ) (len now : ℕ) (attrs : Attrs) (mem : Memory)
    → topic < 2 ^ 32
    → IsDev oid d
    → WhenOk (λ (_, d', _). IsDev oid d') (add_dev_attr d topic val len now attrs mem)
unfolding add_dev_attr
add_dev_attr-IsDev oid d topic val len now attrs mem h is =
    if-WhenOk (topic == 0 || len == 0) (returns is) (
      if-WhenOk (malloc mem).0
        (bind-WhenOk (refresh _ val len attrs) λ (changed, attr). returns (
          with_value oid (stamp changed now d) topic attr d.attr_map h is.attrs
            (stamp-IsDev changed now oid d is)))
        (returns is))

pub upt_dev_attr-IsDev :
    (oid : List ℕ) (d : Dev) (topic : ℕ) (val : List ℕ) (len now : ℕ) (attrs : Attrs) (mem : Memory)
    → topic < 2 ^ 32
    → IsDev oid d
    → WhenOk (λ (_, d', _). IsDev oid d') (upt_dev_attr d topic val len now attrs mem)
unfolding upt_dev_attr
upt_dev_attr-IsDev oid d topic val len now attrs mem h is =
    let seen : Dev = record d { ts = now } in
    let is' : IsDev oid seen = record { own = is.own; attrs = is.attrs } in
    if-WhenOk (topic == 0 || len == 0) (returns is)
      (elim (Option-cases (hash_map_get d.attr_map topic)) [
        | inl fresh ↦ rw fresh (add_dev_attr-IsDev oid seen topic val len now attrs mem h is')
        | inr (old, there) ↦ rw there (
            bind-WhenOk (refresh (record old { len = len }) val len attrs) λ (changed, attr).
              returns (
                with_value oid (stamp changed now seen) topic attr d.attr_map h is.attrs
                  (stamp-IsDev changed now oid seen is')))
      ])
