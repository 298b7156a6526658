-- ===== src/G1/Address.antt =====
-- What `parse_address_filed` of src/g1.c accepts, and what the control byte makes of the pointers.
use ece_lib.Base.{
  ℕ, ◌+◌, ◌/◌, ◌%◌, ◌≤◌, ◌<◌, ◌≡◌, refl, ◌≢◌, Bool, false, not, ◌&&◌, ◌||◌, Option, none, some,
  List, ◌∷◌, arith, ◌==◌, ltb, ltb→lt, Bool-cases, inl, inr,
}
use ece_lib.Machine.{fault, null_pointer}
use ece_lib.Mgt.{Control}
use ece_lib.Dev.{Edge}
use ece_lib.G1.{
  behind_header, AddressField, address_len, address_field, parse_address_filed, log_address,
  parse_g1_pkt,
}

-- The pointers of an address lie behind each other: `h2` behind `h1`, and `h3` behind both.
pub record IsLaidOut (a : AddressField) : Type 0 where
  pub second : (a.h2_len ≡ 0) → a.h2 ≡ none
  pub second_at : (a.h2_len ≢ 0) → a.h2 ≡ some a.h1_len
  pub third_at : (a.h3_len ≢ 0) → (a.h2_len ≢ 0) → a.h3 ≡ some (a.h1_len + a.h2_len)
  pub third_null : (a.h3_len ≢ 0) → (a.h2_len ≡ 0) → a.h3 ≡ none

address_field-IsLaidOut : (addr_ctrl : ℕ) → IsLaidOut (address_field addr_ctrl)
unfolding address_field
address_field-IsLaidOut addr_ctrl = record {
  second = λ e. ground arith;
  second_at = λ ne. ground arith;
  third_at = λ ne ne'. ground arith;
  third_null = λ ne e. ground arith;
}

-- What a length that is returned says of the address.
pub record Accepted (addr_ctrl size l : ℕ) (field : Option AddressField) : Type 0 where
  pub is : field ≡ some (address_field addr_ctrl)
  pub whole : l ≡ address_len (address_field addr_ctrl)
  pub inside : l < size
  pub short : l ≤ 36

address_len-short : (addr_ctrl : ℕ) → address_len (address_field addr_ctrl) ≤ 36
unfolding address_field
address_len-short addr_ctrl = ground arith

-- Where `parse_address_filed` returns a length it has set the parts, the length is their sum, and it
-- ends before the packet does; an address has at most 36 bytes, and the pointers to its parts lie
-- behind each other but for one case: where the second part is empty and the third is not, the
-- pointer to the third is `NULL`.
pub parse_address_filed-Accepted :
    (addr_ctrl size : ℕ)
    → (parse_address_filed addr_ctrl size).1 ≢ 0
    → Accepted addr_ctrl size
        (parse_address_filed addr_ctrl size).1
        (parse_address_filed addr_ctrl size).0
      × IsLaidOut (address_field addr_ctrl)
unfolding parse_address_filed
parse_address_filed-Accepted addr_ctrl size ne =
    let type = addr_ctrl / 64 % 4 in
    let n = address_len (address_field addr_ctrl) in
    elim (Bool-cases (ltb 1 type || (type == 1 && not (addr_ctrl % 4 == 1)))) [
      | inl refused ↦ absurd (ne (rw (parse_address_filed, refused) refl))
      | inr taken ↦ elim (Bool-cases (ltb n size)) [
        | inr long ↦ absurd (ne (rw (parse_address_filed, taken, long) refl))
        | inl fits ↦ (
          record {
            is = rw (parse_address_filed, taken) refl;
            whole = rw (parse_address_filed, taken, fits) refl;
            inside = rw (parse_address_filed, taken, fits) (ltb→lt n size fits);
            short = rw (parse_address_filed, taken, fits) (address_len-short addr_ctrl);
          },
          address_field-IsLaidOut addr_ctrl,
        )
      ]
    ]

log_null : (a : AddressField) → a.h3_len ≢ 0 → a.h3 ≡ none → log_address a ≡ fault null_pointer
unfolding log_address
log_null a some3 null =
    let there : (a.h3_len == 0) ≡ false = ground (arith, some3) in
    rw (log_address, there, null) refl

-- A packet whose address is accepted, with an empty second part and a third part, faults: the loop
-- that logs the third part reads through `NULL`.
pub parse_g1_pkt_null :
    (expr : List ℕ → Option Bool) (type msg_type addr_ctrl : ℕ) (addr : List ℕ) (size now : ℕ)
    (ctl : Control) (e : Edge)
    → (parse_address_filed addr_ctrl (behind_header size)).1 ≢ 0
    → (address_field addr_ctrl).h2_len ≡ 0
    → (address_field addr_ctrl).h3_len ≢ 0
    → parse_g1_pkt expr type (msg_type ∷ addr_ctrl ∷ addr) size now ctl e ≡ fault null_pointer
unfolding parse_g1_pkt
parse_g1_pkt_null expr type msg_type addr_ctrl addr size now ctl e ne none2 some3 =
    let (r, laid) = parse_address_filed-Accepted addr_ctrl (behind_header size) ne in
    let some_len : ((parse_address_filed addr_ctrl (behind_header size)).1 == 0) ≡ false =
      ground (arith, ne) in
    rw
      (
        parse_g1_pkt,
        r.is,
        some_len,
        log_null (address_field addr_ctrl) some3 (laid.third_null some3 none2),
      )
      refl
