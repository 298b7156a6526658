-- ===== src/Tests/Ages.antt =====
-- The ageing of devices.
use ece_lib.Base.{ℕ, ◌≡◌, refl, true, some, List, [], ◌∷◌, replicate, arith}
use ece_lib.Machine.{Returns}
use ece_lib.HashMap.Keys.{
  int_key, str_key, IsOid, str_cmp, str_hash_func, int_cmp, int_mix, int_hash_func,
}
use ece_lib.HashMap.{
  HashMap, hash_map_init, hash_map_put, hash_map_get, hash_map_work, find, assign, bucket_of,
  list_of,
}
use ece_lib.HashMap.Invariant.{init-IsValid}
use ece_lib.HashMap.Put.{put-Written}
use ece_lib.LinkedList.{linked_list_init, linked_list_prepend}
use ece_lib.Pdt.{Pdt}
use ece_lib.G1Fmt.Start.{start}
use ece_lib.Dev.{Dev, Edge, is_live, dev_init}
use ece_lib.Dev.Ageing.{do_device_ageing}
use ece_lib.Dev.Alive.{Devs, IsDev, AreDevs, IsEdge, AllLive}
use ece_lib.Dev.Kept.{no_dev, no_devs-AreDevs, appended_last, put-AreDevs, put_there, put_live}
use ece_lib.Dev.Order.{occurs-append, append-IsLined, put-IsLined}
use ece_lib.Dev.Exact.{Ascending, if_young, do_device_ageing-if_young}
use ece_lib.Dev.Aged.{IsAged, do_device_ageing-IsAged}

abbrev products : HashMap ℕ Pdt
products = hash_map_put (hash_map_init 2) 7 record {
  addr = 1;
  topic = 7;
  endian = 1;
  attr_map = hash_map_init 2;
  fmt_map = hash_map_init 2;
}

abbrev heard_at : (ts : ℕ) → List ℕ → Dev
heard_at ts oid = record {
  oid = oid;
  port = 3;
  attr_map = hash_map_init 16;
  ts = ts;
  update_ts = 0;
  report_ts = 0;
  pdt = 1;
}

abbrev old : List ℕ
old = replicate 32 97

abbrev young : List ℕ
young = replicate 32 98

abbrev one_dev : Devs
one_dev = hash_map_put (hash_map_init 16) old (heard_at 10 old)

abbrev two_devs : Devs
two_devs = hash_map_put one_dev young (heard_at 190 young)

abbrev two : Edge
two = record (dev_init (record (start []) { pdts = products })) {
  devs = two_devs;
  ages = old ∷ young ∷ [];
  members = (1, old) ∷ (1, young) ∷ [];
  last_ageing = 100;
}

live : is_live 1 products ≡ true
unfolding is_live hash_map_work hash_map_put hash_map_init find assign bucket_of list_of
    linked_list_init linked_list_prepend int_cmp int_hash_func int_mix
live = refl

old-IsOid : IsOid old
old-IsOid = refl

young-IsOid : IsOid young
young-IsOid = refl

heard-IsDev : (ts : ℕ) (oid : List ℕ) → IsDev oid (heard_at ts oid)
heard-IsDev ts oid = record { own = refl; attrs = init-IsValid 16 (omega arith) }

one_dev-AreDevs : AreDevs one_dev (old ∷ [])
one_dev-AreDevs =
    put-AreDevs (hash_map_init 16) old (heard_at 10 old) [] (old ∷ []) no_devs-AreDevs old-IsOid
      (heard-IsDev 10 old)
      (
        old-IsOid,
        put_there (hash_map_init 16) old (heard_at 10 old) no_devs-AreDevs.devs old-IsOid,
        refl,
        tt,
      )
      (appended_last old [] old-IsOid) (λ q iq other. omega arith)

two-IsEdge : IsEdge two
unfolding str_cmp
two-IsEdge =
    let w = put-Written one_dev one_dev-AreDevs.devs young young-IsOid (heard_at 190 young) in
    put-AreDevs one_dev young (heard_at 190 young) (old ∷ []) (old ∷ young ∷ []) one_dev-AreDevs
      young-IsOid (heard-IsDev 190 young)
      (append-IsLined two_devs young (old ∷ []) young-IsOid
        (put_there one_dev young (heard_at 190 young) one_dev-AreDevs.devs young-IsOid) refl
        (put-IsLined one_dev young (heard_at 190 young) two_devs (old ∷ []) w
          one_dev-AreDevs.lined))
      (appended_last young (old ∷ []) young-IsOid)
      (λ q iq other. omega (arith, occurs-append q young (old ∷ [])))

two-AllLive : AllLive two
unfolding dev_init
two-AllLive =
    put_live one_dev products young (heard_at 190 young) one_dev-AreDevs.devs young-IsOid live (
      put_live (hash_map_init 16) products old (heard_at 10 old) no_devs-AreDevs.devs old-IsOid live
        λ q x iq found. absurd (ground (arith, no_dev q, found)))

do_device_ageing-IsAged_example :
    Returns
      (do_device_ageing 60 200 two)
      λ e'. IsEdge e' × IsAged 60 200 two_devs e'.devs × (e'.catalog ≡ two.catalog)
do_device_ageing-IsAged_example = do_device_ageing-IsAged 60 200 two two-IsEdge two-AllLive

old_read : hash_map_get two_devs old ≡ some (heard_at 10 old)
unfolding hash_map_get hash_map_put hash_map_init find assign bucket_of list_of linked_list_init
    linked_list_prepend str_cmp str_hash_func
old_read = refl

young_read : hash_map_get two_devs young ≡ some (heard_at 190 young)
unfolding hash_map_get hash_map_put hash_map_init find assign bucket_of list_of linked_list_init
    linked_list_prepend str_cmp str_hash_func
young_read = refl

two-Ascending : Ascending two_devs 0 two.ages
two-Ascending = rw (old_read, young_read) (omega arith, (omega arith, tt))

do_device_ageing-if_young_example : Returns (do_device_ageing 60 200 two) λ e'.
    (q : List ℕ) → IsOid q → hash_map_get e'.devs q ≡ if_young 60 200 (hash_map_get two_devs q)
do_device_ageing-if_young_example =
    do_device_ageing-if_young 60 200 two two-IsEdge two-AllLive two-Ascending (omega arith)
      (omega arith)
