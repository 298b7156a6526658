-- ===== src/Dev/Live.antt =====
-- The products of the devices through the periodic work of src/dev.c.
use ece_lib.Base.{
  ℕ, ◌-◌, ◌≡◌, refl, sym, ◌∙◌, true, some, List, [], ◌∷◌, ◌++◌, ltb, ◌==◌, foldl, inl, inr, arith,
  Bool-cases,
}
use ece_lib.HashMap.Keys.{str_key, IsOid}
use ece_lib.HashMap.{Chain, HashMap, all_pairs, hash_map_get, hash_map_put, hash_map_work}
use ece_lib.HashMap.Each.{Each, Each-all_pairs}
use ece_lib.HashMap.Invariant.{IsValid}
use ece_lib.HashMap.Put.{put-Written}
use ece_lib.Pdt.{Pdt}
use ece_lib.Dev.{Dev, Edge, is_live}
use ece_lib.Dev.Ageing.{Report, hash_update_dev, update_all, do_device_update}
use ece_lib.Dev.Alive.{Devs, IsEdge, AllLive}
use ece_lib.Dev.Aged.{IsAged}
use ece_lib.Dev.Kept.{put_live}

abbrev HasLive : HashMap ℕ Pdt → List ℕ → Dev → Type 0
HasLive pdts oid d = is_live d.pdt pdts ≡ true

abbrev LiveIn : HashMap ℕ Pdt → Devs → Type 0
LiveIn pdts m =
    (oid : List ℕ) (d : Dev) → IsOid oid → hash_map_get m oid ≡ some d → is_live d.pdt pdts ≡ true

update-HasLive :
    (pdts : HashMap ℕ Pdt) (id : ℕ) (oid : List ℕ) (d : Dev)
    → HasLive pdts oid d
    → HasLive pdts oid (hash_update_dev id d).0
unfolding hash_update_dev
update-HasLive pdts id oid d live = elim (Bool-cases (ltb d.report_ts d.update_ts)) [
  | inl changed ↦ rw changed live
  | inr same ↦ rw same live
]

abbrev live_met : ℕ → Devs × List Report → List ℕ × Dev → Devs × List Report
live_met id (m, out) (k, d) =
    let (d', sent) = hash_update_dev id d in (hash_map_put m k d', out ++ sent)

update_rest-LiveIn :
    (pdts : HashMap ℕ Pdt) (id : ℕ) (cs : Chain (List ℕ) Dev) (m : Devs) (out : List Report)
    → IsValid m
    → LiveIn pdts m
    → Each (HasLive pdts) cs
    → LiveIn pdts (foldl (live_met id) (m, out) cs).0
update_rest-LiveIn pdts id [] m out v live all = live
update_rest-LiveIn pdts id ((k, x) ∷ cs) m out v live ((ik, has), all) =
    let (d', sent) = hash_update_dev id x in
    update_rest-LiveIn pdts id cs (hash_map_put m k d') (out ++ sent)
      (put-Written m v k ik d').valid
      (put_live m pdts k d' v ik (update-HasLive pdts id k x has) live) all

update_all-LiveIn :
    (pdts : HashMap ℕ Pdt) (id : ℕ) (m : Devs)
    → IsValid m
    → LiveIn pdts m
    → LiveIn pdts (update_all id m).0
unfolding update_all hash_map_work
update_all-LiveIn pdts id m v live =
    update_rest-LiveIn pdts id (all_pairs m.table) m [] v live
      (Each-all_pairs (HasLive pdts) m v live)

-- The reports leave the catalogue alone, and the products of the devices.
pub do_device_update-AllLive :
    (id interval now : ℕ) (e : Edge)
    → IsEdge e
    → AllLive e
    → let e' = (do_device_update id interval now e).0 in AllLive e' × (e'.catalog ≡ e.catalog)
unfolding do_device_update
do_device_update-AllLive id interval now e v live = elim (Bool-cases (e.last_update == 0)) [
  | inl first ↦ rw first (live, refl)
  | inr later ↦ elim (Bool-cases (ltb interval (now - e.last_update))) [
    | inl due ↦ rw (later, due) (update_all-LiveIn e.catalog.pdts id e.devs v.devs live, refl)
    | inr early ↦ rw (later, early) (live, refl)
  ]
]

-- The devices that the ageing leaves are there as before.
pub IsAged-AllLive :
    (interval now : ℕ) (e e' : Edge)
    → IsAged interval now e.devs e'.devs
    → e'.catalog ≡ e.catalog
    → AllLive e
    → AllLive e'
IsAged-AllLive interval now e e' aged kept live q x iq found = elim (aged.at q iq) [
  | inl same ↦ rw kept (live q x iq (sym same ∙ found))
  | inr (d, was, old, gone) ↦ absurd (ground (arith, gone, found))
]
