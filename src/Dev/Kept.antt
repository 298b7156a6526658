-- ===== src/Dev/Kept.antt =====
-- What the operations of src/dev.c that add, hear of and delete devices keep.
use ece_lib.Base.{
  ℕ, ◌<◌, ◌≤◌, ◌≡◌, refl, sym, ap, ◌∙◌, subst, inl, inr, true, false, none, some, List, [], ◌∷◌,
  ◌++◌, arith, Bool-cases, Option-cases,
}
use mathlib.Core.Option.{some-injective}
use ece_lib.Machine.{malloc}
use ece_lib.HashMap.Keys.{int_key, str_key, IsOid}
use ece_lib.HashMap.{HashMap, hash_map_get, hash_map_put, hash_map_init, hash_map_contains_key}
use ece_lib.HashMap.Chain.{is_some, to_nat}
use ece_lib.HashMap.Invariant.{IsValid, init-IsValid}
use ece_lib.HashMap.Put.{put-Written}
use ece_lib.HashMap.Walk.{init_empty, contains_key-get}
use ece_lib.Pdt.{Pdt}
use ece_lib.Dev.{Dev, Edge, add_new_dev, drop_age, is_live}
use ece_lib.Dev.Values.{store_dev, fresh_dev}
use ece_lib.Dev.Alive.{Devs, IsDev, AreDevs, IsEdge, IsLined, occurs, occurs_drop_other}
use ece_lib.Dev.Order.{
  occurs-append, put-IsLined, append-IsLined, occurs_absent, drop_age-gone, rest-IsLined,
}

pub no_dev : (q : List ℕ) → hash_map_get {K = List ℕ} {V = Dev} (hash_map_init 16) q ≡ none
no_dev q = (init_empty {V = Dev} 16 q (omega arith)).1

pub no_devs-AreDevs : AreDevs (hash_map_init 16) []
no_devs-AreDevs = record {
  devs = init-IsValid 16 (omega arith);
  each = λ q x iq found. absurd (ground (arith, no_dev q, found));
  lined = tt;
  every = λ q iq found. absurd (ground (arith, no_dev q, found));
}

same_itself : (oid : List ℕ) → IsOid oid → str_key.same oid oid ≡ true
same_itself oid ik = (str_key.same_iff oid oid ik ik).1 refl

pub appended_last :
    (oid : List ℕ) (ages : List (List ℕ)) → IsOid oid → 0 < occurs oid (ages ++ (oid ∷ []))
appended_last oid ages ik =
    omega (arith, occurs-append oid oid ages, ap to_nat (same_itself oid ik))

-- A device is stored, and the order gets one that is lined.
pub put-AreDevs :
    (m : Devs) (oid : List ℕ) (d : Dev) (ages ages' : List (List ℕ))
    → AreDevs m ages
    → IsOid oid
    → IsDev oid d
    → IsLined (hash_map_put m oid d) ages'
    → 0 < occurs oid ages'
    → ((q : List ℕ) → IsOid q → str_key.same oid q ≡ false → occurs q ages ≤ occurs q ages')
    → AreDevs (hash_map_put m oid d) ages'
put-AreDevs m oid d ages ages' v ik is l its others =
    let w = put-Written m v.devs oid ik d in
    record {
      devs = w.valid;
      each = λ q x iq found. elim (Bool-cases (str_key.same oid q)) [
        | inl here ↦
            let same_dev : some d ≡ some x = sym (w.reads q iq ∙ rw here refl) ∙ found in
            subst (λ k. IsDev k x) ((str_key.same_iff oid q ik iq).0 here)
              (subst (IsDev oid) (some-injective d x same_dev) is)
        | inr other ↦ v.each q x iq (sym (w.reads q iq ∙ rw other refl) ∙ found)
      ];
      lined = l;
      every = λ q iq found. elim (Bool-cases (str_key.same oid q)) [
        | inl here ↦ subst (λ k. 0 < occurs k ages') ((str_key.same_iff oid q ik iq).0 here) its
        | inr other ↦
            let was : is_some (hash_map_get m q) ≡ true =
              sym (ap is_some (w.reads q iq ∙ rw other refl)) ∙ found in
            omega (arith, v.every q iq was, others q iq other)
      ];
    }

pub put_there :
    (m : Devs) (oid : List ℕ) (d : Dev)
    → IsValid m
    → IsOid oid
    → is_some (hash_map_get (hash_map_put m oid d) oid) ≡ true
put_there m oid d v ik =
    let here : str_key.same oid oid ≡ true = (str_key.same_iff oid oid ik ik).1 refl in
    ap is_some ((put-Written m v oid ik d).reads oid ik) ∙ rw here refl

pub add_new_dev-IsEdge :
    (p : Pdt) (oid : List ℕ) (port now : ℕ) (e : Edge)
    → IsEdge e
    → IsOid oid
    → IsEdge ((add_new_dev p oid port now e).1)
unfolding add_new_dev
add_new_dev-IsEdge p oid port now e v ik = elim (Bool-cases (hash_map_contains_key e.devs oid)) [
  | inl there ↦ rw there v
  | inr absent ↦ elim (Bool-cases (malloc e.catalog.mem).0) [
    | inr out ↦ rw (absent, out) v
    | inl got ↦
        let d : Dev = record {
          oid = oid;
          port = port;
          attr_map = hash_map_init 16;
          ts = now;
          update_ts = 0;
          report_ts = 0;
          pdt = p.addr;
        } in
        let none_there : hash_map_get e.devs oid ≡ none =
          elim (Option-cases (hash_map_get e.devs oid)) [
            | inl nothing ↦ nothing
            | inr (x, found) ↦
                absurd (ground (arith, contains_key-get e.devs oid, absent, ap is_some found))
          ] in
        let w = put-Written e.devs v.devs oid ik d in
        rw (absent, got)
          (put-AreDevs e.devs oid d e.ages (e.ages ++ (oid ∷ [])) v ik
            record { own = refl; attrs = init-IsValid 16 (omega arith) }
            (append-IsLined (hash_map_put e.devs oid d) oid e.ages ik
              (put_there e.devs oid d v.devs ik)
              (occurs_absent e.devs oid e.ages ik none_there v.lined)
              (put-IsLined e.devs oid d (hash_map_put e.devs oid d) e.ages w v.lined))
            (appended_last oid e.ages ik) (λ q iq other. omega (arith, occurs-append q oid e.ages)))
  ]
]

-- A device that is heard of comes last.
pub fresh_dev-IsEdge :
    (oid : List ℕ) (d : Dev) (now : ℕ) (e : Edge)
    → IsEdge e
    → IsOid oid
    → hash_map_get e.devs oid ≡ some d
    → let (d', e') = fresh_dev d now e in
      IsEdge e' × IsDev oid d' × (0 < occurs oid e'.ages) × (e'.catalog ≡ e.catalog)
unfolding fresh_dev store_dev
fresh_dev-IsEdge oid d now e v ik there =
    let is = v.each oid d ik there in
    let d' : Dev = record d { ts = now } in
    let is' : IsDev oid d' = record { own = is.own; attrs = is.attrs } in
    let rest = drop_age oid e.ages in
    let w = put-Written e.devs v.devs oid ik d' in
    let lined =
      append-IsLined (hash_map_put e.devs oid d') oid rest ik (put_there e.devs oid d' v.devs ik)
        (drop_age-gone e.devs oid e.ages ik v.lined)
        (put-IsLined e.devs oid d' (hash_map_put e.devs oid d') rest w
          (rest-IsLined e.devs oid e.ages v.lined)) in
    let fresh =
      put-AreDevs e.devs oid d' e.ages (rest ++ (oid ∷ [])) v ik is' lined
        (appended_last oid rest ik)
        (λ q iq other. omega (
          arith,
          occurs-append q oid rest,
          occurs_drop_other e.devs q oid e.ages iq ik other v.lined,
        )) in
    (
      subst (λ k. AreDevs (hash_map_put e.devs k d') (drop_age k e.ages ++ (k ∷ []))) (sym is.own)
          fresh,
      is',
      subst (λ k. 0 < occurs oid (drop_age k e.ages ++ (k ∷ []))) (sym is.own)
          (appended_last oid rest ik),
      refl,
    )

-- With a device of a product that has not been freed, all are.
pub put_live :
    (m : Devs) (pdts : HashMap ℕ Pdt) (oid : List ℕ) (d : Dev)
    → IsValid m
    → IsOid oid
    → is_live d.pdt pdts ≡ true
    → ((q : List ℕ) (x : Dev) → IsOid q → hash_map_get m q ≡ some x → is_live x.pdt pdts ≡ true)
    → (q : List ℕ) (x : Dev) → IsOid q
    → hash_map_get (hash_map_put m oid d) q ≡ some x
    → is_live x.pdt pdts ≡ true
put_live m pdts oid d v ik live all q x iq found =
    let w = put-Written m v oid ik d in
    elim (Bool-cases (str_key.same oid q)) [
      | inl here ↦
          let same_dev : some d ≡ some x = sym (w.reads q iq ∙ rw here refl) ∙ found in
          subst (λ y. is_live y.pdt pdts ≡ true) (some-injective d x same_dev) live
      | inr other ↦ all q x iq (sym (w.reads q iq ∙ rw other refl) ∙ found)
    ]
