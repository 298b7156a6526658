-- ===== src/Tests/Values.antt =====
-- A device that gets its first value.
use ece_lib.Base.{◌≡◌, refl, [], ◌∷◌, none, some, arith, replicate, length, true}
use ece_lib.Machine.{fault, out_of_bounds, Returns, malloc}
use ece_lib.HashMap.Keys.{int_key, int_mix, int_hash_func}
use ece_lib.HashMap.{hash_map_init, hash_map_get, find, bucket_of}
use ece_lib.HashMap.Invariant.{init-IsValid}
use ece_lib.Attr.{attr_init, get_attr}
use ece_lib.Dev.{AttrVal, Dev}
use ece_lib.Dev.Values.{upt_dev_attr}
use ece_lib.Dev.Bounds.{upt_dev_attr_overflow}
use ece_lib.Dev.Stores.{Stored, IsPrintable, upt_dev_attr-Stored}

abbrev device : Dev
device = record {
  oid = replicate 32 48;
  port = 3;
  attr_map = hash_map_init 16;
  ts = 0;
  update_ts = 0;
  report_ts = 0;
  pdt = 1;
}

no_value :
    (old : AttrVal)
    → hash_map_get device.attr_map 1 ≡ some old
    → hash_map_get device.attr_map 1 ≡ none
unfolding hash_map_get hash_map_init find bucket_of int_hash_func int_mix
no_value old h = refl

no_array :
    (old : AttrVal)
    → hash_map_get device.attr_map 1 ≡ some old
    → (length old.val ≡ 32) × (old.topic ≡ 1)
no_array old h = absurd (cc (h, no_value old h))

printable : IsPrintable (get_attr 1 attr_init)
unfolding get_attr attr_init hash_map_get hash_map_init find bucket_of int_hash_func int_mix
printable = tt

memory_there : (malloc []).0 ≡ true
unfolding malloc
memory_there = refl

upt_dev_attr-Stored_example :
    Returns
      (upt_dev_attr device 1 (0x12 ∷ 0x34 ∷ []) 2 9 attr_init [])
      λ (r, d', _). Stored 1 (0x12 ∷ 0x34 ∷ []) 2 9 r d'
unfolding hash_map_init
upt_dev_attr-Stored_example =
    upt_dev_attr-Stored device 1 (0x12 ∷ 0x34 ∷ []) 2 9 attr_init [] (init-IsValid 16 (omega arith))
      (omega arith) (omega arith) (omega arith) (omega arith) (omega arith) (λ absent. memory_there)
      printable no_array

upt_dev_attr_overflow_example :
    upt_dev_attr device 1 (replicate 40 7) 33 9 attr_init [] ≡ fault out_of_bounds
upt_dev_attr_overflow_example =
    upt_dev_attr_overflow device 1 (replicate 40 7) 33 9 attr_init [] (omega arith) (omega arith)
      (λ absent. memory_there) (λ old h. (no_array old h).0)
