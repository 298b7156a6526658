-- ===== src/Srv/Arrays.antt =====
-- Messages that carry an array of 64 bytes: the array as srv/srv_main.c fills it, and how
-- `mgt_rcv_msg` of src/mgt.c reads the words behind it.
use ece_lib.Base.{
  take-take_append, ℕ, zero, suc, ◌+◌, ◌<◌, ◌≤◌, ◌≡◌, refl, ◌∙◌, ap, false, List, [], ◌∷◌, ◌++◌,
  arith, length, length-append, take, drop, leb, ltb, le→leb, replicate, length-take, length-drop,
}
use ece_lib.Machine.{ok, ◌>>=◌, Returns, memcpy}
use ece_lib.Wire.{ntohl_at, store32, load32-store32}
use ece_lib.Mgt.{Gateway, Command, command_of, execute, mgt_rcv_msg}
use ece_lib.Srv.{tlv}
use ece_lib.Srv.RoundTrip.{heard, Asks}

-- The array `field` holds the first `n` bytes of `from`.
pub record Field (from : List ℕ) (n : ℕ) (field : List ℕ) : Type 0 where
  pub long : length field ≡ 64
  pub front : (rest : List ℕ) → take n (field ++ rest) ≡ take n from

append_assoc : (a b c : List ℕ) → (a ++ b) ++ c ≡ a ++ (b ++ c)
append_assoc [] b c = refl
append_assoc (x ∷ a) b c = ap (λ r. x ∷ r) (append_assoc a b c)

pub memcpy-Field :
    (from : List ℕ) (n : ℕ)
    → n ≤ length from
    → n ≤ 64
    → Returns (memcpy (replicate 64 0) 0 from n) (Field from n)
unfolding memcpy
memcpy-Field from n h fits =
    let end : 0 + n ≡ n = omega arith in
    (
      take n from ++ drop n (replicate 64 0),
      rw (end, le→leb n (length from) h, le→leb n 64 fits) refl,
      record {
        long =
            length-append (take n from) (drop n (replicate 64 0))
            ∙ omega (arith, length-take n from, length-drop {A = ℕ} n (replicate 64 0));
        front = λ rest.
            ap (take n) (append_assoc (take n from) (drop n (replicate 64 0)) rest)
            ∙ take-take_append n from (drop n (replicate 64 0) ++ rest) h;
      },
    )

drop_append :
    (n : ℕ) (field rest : List ℕ) (i : ℕ)
    → length field ≡ n
    → drop (n + i) (field ++ rest) ≡ drop i rest
drop_append zero [] rest i h = ap (λ k. drop k rest) (omega arith)
drop_append zero (x ∷ field) rest i h = absurd (omega arith)
drop_append (suc n) [] rest i h = absurd (omega arith)
drop_append (suc n) (x ∷ field) rest i h =
    let e : suc n + i ≡ suc (n + i) = omega arith in rw e (drop_append n field rest i (omega arith))

-- A word behind the array.
pub ntohl_behind :
    (field rest : List ℕ) (i v : ℕ)
    → length field ≡ 64
    → ntohl_at i rest ≡ ok v
    → ntohl_at (64 + i) (field ++ rest) ≡ ok v
unfolding ntohl_at
ntohl_behind field rest i v long e = rw (drop_append 64 field rest i long) e

-- A message with a known type is handled by its case.
pub rcv_tlv :
    (type len : ℕ) (body : List ℕ) (command : Command)
    → type < 11
    → command_of type body ≡ ok command
    → Asks (tlv type len body) command
unfolding Asks mgt_rcv_msg store32
rcv_tlv type len body command known e now g =
    let enough : ltb (length (tlv type len body)) 8 ≡ false = ground arith in
    let fits : leb 11 type ≡ false = ground arith in
    rw (enough, load32-store32 type (store32 len ++ body) (omega arith), fits, e) refl

pub Asks-same :
    (msg : List ℕ) (command command' : Command)
    → Asks msg command
    → ((now : ℕ) (g : Gateway) → execute command now g ≡ execute command' now g)
    → Asks msg command'
unfolding Asks
Asks-same msg command command' asks same now g =
    asks now g ∙ ap (λ r. r >>= λ g'. ok (0, g')) (same now (heard g))
