-- ===== src/Dev/Ageing.antt =====
-- The periodic work of src/dev.c: `do_device_ageing`, `do_device_update` and the reports that are
-- sent. A report is the object that `report_dev_attr` builds; cJSON prints it and MQTT sends it.
use ece_lib.Base.{ℕ, ◌-◌, none, some, List, [], ◌∷◌, ◌++◌, ◌==◌, ltb, if◌then◌else◌}
use ece_lib.Machine.{Run, ok, fault, use_after_free, ◌>>=◌}
use ece_lib.HashMap.Keys.{int_key, str_key}
use ece_lib.HashMap.{HashMap, hash_map_get, hash_map_put, hash_map_work}
use ece_lib.Dev.{AttrVal, Dev, Edge, del_dev_internal}

-- `topic` is printed by "%x"; the fields `userID` and `Flag` are constant.
pub record Report : Type 0 where
  pub oid_index : List ℕ
  pub property_topic : ℕ
  pub value : List ℕ
  pub scenerio_id : ℕ

unfoldable pub report_dev_attr : (scenerio_id : ℕ) → Dev → AttrVal → Report
report_dev_attr scenerio_id d attr = record {
  oid_index = d.oid;
  property_topic = attr.topic;
  value = attr.str;
  scenerio_id = scenerio_id;
}

-- `hash_map_work(&dev->attr_map, hash_update_attr)`, with the reports in the order they are sent in.
unfoldable pub report_all : (scenerio_id : ℕ) → Dev → List Report
unfolding report_dev_attr
report_all scenerio_id d =
    hash_map_work d.attr_map (λ out (_, attr). out ++ (report_dev_attr scenerio_id d attr ∷ [])) []

unfoldable pub hash_update_dev : (scenerio_id : ℕ) → Dev → Dev × List Report
unfolding report_all
hash_update_dev scenerio_id d =
    if ltb d.report_ts d.update_ts
    then (record d { report_ts = d.update_ts }, report_all scenerio_id d)
    else (d, [])

-- `hash_map_work(&g_dev_map, hash_update_dev)`
unfoldable pub update_all :
    (scenerio_id : ℕ) → HashMap (List ℕ) Dev → HashMap (List ℕ) Dev × List Report
unfolding hash_update_dev
update_all scenerio_id devs =
    hash_map_work devs
      (λ (m, out) (k, d).
        let (d', sent) = hash_update_dev scenerio_id d in (hash_map_put m k d', out ++ sent))
      (devs, [])

-- The first call only notes the time.
unfoldable pub do_device_update : (scenerio_id interval now : ℕ) → Edge → Edge × List Report
unfolding update_all
do_device_update scenerio_id interval now e =
    if e.last_update == 0
    then (record e { last_update = now }, [])
    else if ltb interval (now - e.last_update)
    then (let (devs, out) = update_all scenerio_id e.devs in
        (record e { devs = devs; last_update = now }, out))
    else (e, [])

-- The loop over the age list: it stops at the first device that is young enough.
unfoldable pub age_loop : (interval now : ℕ) → List (List ℕ) → Edge → Run Edge
age_loop interval now [] e = ok e
age_loop interval now (oid ∷ rest) e = elim (hash_map_get e.devs oid) [
  | none ↦ fault use_after_free
  | some d ↦
      if ltb interval (now - d.ts)
      then (do e' ← del_dev_internal d e; age_loop interval now rest e')
      else ok e
]

unfoldable pub do_device_ageing : (interval now : ℕ) → Edge → Run Edge
unfolding age_loop
do_device_ageing interval now e =
    if e.last_ageing == 0
    then ok (record e { last_ageing = now })
    else if ltb 60 (now - e.last_ageing)
    then (do e' ← age_loop interval now e.ages e; ok (record e' { last_ageing = now }))
    else ok e
