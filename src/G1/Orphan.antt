-- ===== src/G1/Orphan.antt =====
-- The devices of a product that `del_pdt` of src/pdt.c has freed, in src/g1.c.
use ece_lib.Base.{
  ◌||◌, ◌+◌, ℕ, ◌-◌, ◌*◌, ◌^◌, ◌<◌, ◌≤◌, ◌≡◌, refl, sym, ◌∙◌, Bool, false, Option, none, some, List,
  [], ◌∷◌, ltb, min, ◌==◌, Bool-cases, inl, inr, length, arith, foldl, if◌then◌else◌, ==_iff,
}
use ece_lib.Machine.{ok, fault, use_after_free, WhenOk, returns, bind-WhenOk, at_ok, Returns}
use ece_lib.HashMap.Keys.{int_key, int_cmp_iff}
use ece_lib.HashMap.{Chain, all_pairs, hash_map_work, hash_map_get}
use ece_lib.HashMap.Each.{Each, Each-all_pairs}
use ece_lib.HashMap.Remove.{Erased, remove-Erased}
use ece_lib.Pdt.{Pdt, Catalog, get_pdt}
use ece_lib.G1Fmt.{del_pdt, hash_del_fmt}
use ece_lib.G1Fmt.Invariant.{IsCatalog}
use ece_lib.G1Fmt.DelProduct.{del_pdt-IsCatalog}
use ece_lib.Dev.{Dev, Edge}
use ece_lib.Wire.{ntohl_at, read_be}
use ece_lib.Rules.{pdt_at, pdt_topic}
use ece_lib.Mgt.{Control}
use ece_lib.G1.{parse_msg}

del_pdt-Erased :
    (topic : ℕ) (c : Catalog) (p : Pdt)
    → IsCatalog c
    → topic < 2 ^ 32
    → get_pdt topic c ≡ some p
    → WhenOk (λ c'. Erased c.pdts topic c'.pdts) (del_pdt topic c)
unfolding del_pdt get_pdt
del_pdt-Erased topic c p v h there =
    let (m, cut, e) = remove-Erased c.pdts v.pdts topic h p there in
    rw (del_pdt, there)
      (bind-WhenOk (hash_map_work p.fmt_map hash_del_fmt (ok (p, c.attrs)))
        λ (_, attrs'). rw cut (returns e))

-- No product is at the address.
abbrev Elsewhere : ℕ → ℕ → Pdt → Type 0
Elsewhere addr j p = (p.addr == addr) ≡ false

abbrev met : ℕ → Option Pdt → ℕ × Pdt → Option Pdt
met addr found (_, p) = if p.addr == addr then some p else found

met_nowhere :
    (addr : ℕ) (cs : Chain ℕ Pdt) → Each (Elsewhere addr) cs → foldl (met addr) none cs ≡ none
met_nowhere addr [] all = refl
met_nowhere addr ((j, p) ∷ cs) ((_, away), all) = rw away (met_nowhere addr cs all)

pdt_topic_nowhere :
    (d : Dev) (c : Catalog)
    → Each (Elsewhere d.pdt) (all_pairs c.pdts.table)
    → pdt_topic d c ≡ fault use_after_free
unfolding pdt_topic pdt_at hash_map_work
pdt_topic_nowhere d c away = rw (pdt_topic, met_nowhere d.pdt (all_pairs c.pdts.table) away) refl

-- Where `del_pdt` deletes a product, and no other product had its address, each device of the product
-- is left with a pointer to freed memory: a message of it of at least six bytes that are there to be
-- read, with at most 85 of data, makes `parse_msg` read through that.
pub parse_msg_orphan :
    (topic : ℕ) (c : Catalog) (p : Pdt)
    → IsCatalog c
    → topic < 2 ^ 32
    → get_pdt topic c ≡ some p
    → ((j : ℕ) (q : Pdt) → j < 2 ^ 32 → get_pdt j c ≡ some q → q.addr ≡ p.addr → j ≡ topic)
    → (expr : List ℕ → Option Bool) (d : Dev) (a b g h' did len : ℕ) (bytes : List ℕ) (size now : ℕ)
      (ctl : Control) (e : Edge)
    → d.pdt ≡ p.addr
    → 6 ≤ size
    → size ≤ 6 + length bytes
    → size ≤ 91
    → Returns (del_pdt topic c) λ c'.
      parse_msg expr d (a ∷ b ∷ g ∷ h' ∷ did ∷ len ∷ bytes) size now ctl (record e { catalog = c' })
      ≡ fault use_after_free
unfolding parse_msg ntohl_at read_be get_pdt
parse_msg_orphan topic c p v h there apart expr d a b g h' did len bytes size now ctl e at low
      there_all short =
    let (c', run, (v', gone, _)) = del_pdt-IsCatalog topic 0 c v h (omega arith) in
    let erased = at_ok (del_pdt-Erased topic c p v h there) run in
    let away : Each (Elsewhere d.pdt) (all_pairs c'.pdts.table) =
      Each-all_pairs (Elsewhere d.pdt) c'.pdts v'.pdts λ j q ij found.
        elim (Bool-cases (int_key.same topic j)) [
          | inl here ↦ absurd (ground (arith, erased.reads j ij, here, found))
          | inr other ↦ elim (Bool-cases (q.addr == d.pdt)) [
            | inr differ ↦ differ
            | inl same ↦
                let was : hash_map_get c.pdts j ≡ some q =
                  sym (erased.reads j ij ∙ rw other refl) ∙ found in
                let is_topic : j ≡ topic = apart j q ij was ((==_iff q.addr d.pdt).0 same ∙ at) in
                let again = (int_cmp_iff topic j h ij).1 (sym is_topic) in
                absurd (ground (arith, other, again))
          ]
        ] in
    let pkt = a ∷ b ∷ g ∷ h' ∷ did ∷ len ∷ bytes in
    let enough : ltb size 6 ≡ false = ground arith in
    let fits : (ltb (length pkt) (6 + min len (size - 6)) || ltb 255 (3 * min len (size - 6)))
        ≡ false =
      ground arith in
    (c', run, rw (parse_msg, enough, fits, pdt_topic_nowhere d c' away) refl)
