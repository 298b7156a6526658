-- ===== src/Dev/Clear.antt =====
-- `hash_map_work(&dev->attr_map, del_dev_attr_hash)` of src/dev.c: every value of a device is removed.
use ece_lib.Base.{
  ℕ, ◌≤◌, ◌≡◌, refl, sym, ◌∙◌, true, some, [], ◌∷◌, foldl, arith, Bool-cases, inl, inr,
}
use ece_lib.Machine.{Run, ok, ◌>>=◌, Returns}
use ece_lib.HashMap.Keys.{HashKey, int_key}
use ece_lib.HashMap.{
  Chain, HashMap, find, hash_map_get, hash_map_remove, hash_map_free, hash_map_work, all_pairs,
}
use ece_lib.HashMap.Chain.{AreKeys, count, is_some, find-eq-none}
use ece_lib.HashMap.Invariant.{IsValid}
use ece_lib.HashMap.Remove.{remove-Erased}
use ece_lib.HashMap.Walk.{free_once, AreKeys-all_pairs, to_nat-le}
use ece_lib.Attr.{removed}
use ece_lib.Dev.{AttrVal, del_dev_attrs}

module _ {K V : Type 0} ⦃key : HashKey K⦄ where
  -- The pairs that are still to be met are those of the map, once each.
  record Remains (cs : Chain K V) (m : HashMap K V) : Type 0 where
    valid : IsValid m
    keys : AreKeys cs
    reads : (j : K) → key.IsKey j → find j cs ≡ hash_map_get m j
    once : (j : K) → key.IsKey j → count j cs ≤ 1

  abbrev remove_met : Run (HashMap K V) → K × V → Run (HashMap K V)
  remove_met r (k, _) = do m ← r; removed (hash_map_remove m k)

  clear_rest :
      (cs : Chain K V) (m : HashMap K V)
      → Remains cs m
      → Returns (foldl remove_met (ok m) cs) λ m'. Unit {0}
  unfolding find count
  clear_rest [] m r = (m, refl, tt)
  clear_rest ((k, x) ∷ cs) m r =
      let here : key.same k k ≡ true = (key.same_iff k k r.keys.0 r.keys.0).1 refl in
      let there : hash_map_get m k ≡ some x = sym (r.reads k r.keys.0) ∙ rw (find, here) refl in
      let (m₁, run, e) = remove-Erased m r.valid k r.keys.0 x there in
      let left : Remains cs m₁ = record {
        valid = e.valid;
        keys = r.keys.1;
        reads = λ j h. rw (e.reads j h) (elim (Bool-cases (key.same k j)) [
          | inl same ↦ rw same (find-eq-none j cs (ground (arith, r.once j h)))
          | inr other ↦ rw other (ground (arith, r.reads j h))
        ]);
        once = λ j h. omega (arith, r.once j h);
      } in
      let (m', run', done) = clear_rest cs m₁ left in (m', rw run run', done)

-- The values of a well-formed map are all removed, without a fault.
pub del_dev_attrs-returns :
    (m : HashMap ℕ AttrVal) → IsValid m → Returns (del_dev_attrs m) λ m'. Unit {0}
unfolding del_dev_attrs hash_map_work hash_map_free
del_dev_attrs-returns m v = clear_rest (all_pairs m.table) m record {
  valid = v;
  keys = AreKeys-all_pairs m.table v.keys;
  reads = λ j h. (free_once m v j h).0;
  once = λ j h. omega (arith, (free_once m v j h).1, to_nat-le (is_some (hash_map_get m j)));
}
