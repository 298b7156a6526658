-- ===== src/Token/Layout.antt =====
-- Where the tokens of a format lie: `insert_token` and `remove_token`, for src/g1_fmt.c.
use ece_lib.Base.{
  ℕ, ◌+◌, ◌≤◌, ◌<◌, ◌≡◌, refl, ◌⊎◌, inl, inr, true, Option, none, some, List, [], ◌∷◌, arith, ◌^◌,
  ◌&&◌, ◌==◌, ltb, All, Option-cases,
}
use ece_lib.Machine.{u64}
use ece_lib.HashMap.Chain.{is_some, to_nat}
use ece_lib.Token.{G1Token, insert_token, remove_token}

-- The tokens stand in order of their offsets, none begins before the one in front of it ends, the
-- first begins at `end` or later, and the last ends within `size`.
abbrev pub IsLaidOut : (end size : ℕ) → List G1Token → Type 0
IsLaidOut end size [] = end ≤ size
IsLaidOut end size (t ∷ rest) = (end ≤ t.offset) × IsLaidOut (t.offset + t.len) size rest

-- The bytes of two tokens do not overlap.
abbrev pub Apart : G1Token → G1Token → Type 0
Apart t cur = (t.offset + t.len ≤ cur.offset) ⊎ (cur.offset + cur.len ≤ t.offset)

-- How many tokens have the topic.
unfoldable pub uses : ℕ → List G1Token → ℕ
uses topic [] = 0
uses topic (t ∷ rest) = to_nat (topic == t.topic) + uses topic rest

end-le-size : (end size : ℕ) (ts : List G1Token) → IsLaidOut end size ts → end ≤ size
end-le-size end size [] h = h
end-le-size end size (t ∷ rest) h = omega (arith, end-le-size (t.offset + t.len) size rest h.1)

IsLaidOut-from_earlier :
    (end later size : ℕ) (ts : List G1Token)
    → end ≤ later
    → IsLaidOut later size ts
    → IsLaidOut end size ts
IsLaidOut-from_earlier end later size [] p h = omega arith
IsLaidOut-from_earlier end later size (t ∷ rest) p h = (omega arith, h.1)

Apart-after :
    (t : G1Token) (end size : ℕ) (ts : List G1Token)
    → IsLaidOut end size ts
    → t.offset + t.len ≤ end
    → All (Apart t) ts
Apart-after t end size [] h p = tt
Apart-after t end size (cur ∷ rest) h p =
    (inl (omega arith), Apart-after t (cur.offset + cur.len) size rest h.1 (omega arith))

-- A statement about the list that an insertion returns, if it returns one.
abbrev pub IfSome {ℓ κ} : {A : Type ℓ} → (A → Type κ) → Option A → Type κ
IfSome P none = Unit
IfSome P (some x) = P x

module _ (size : ℕ) (t : G1Token) (room : size < 2 ^ 64) (no_wrap : t.offset + t.len < 2 ^ 64) where
  -- A token that is linked in leaves the tokens laid out.
  pub insert-IsLaidOut :
      (end : ℕ) (ts : List G1Token)
      → IsLaidOut end size ts
      → IfSome (IsLaidOut end size) (insert_token size t end ts)
  unfolding insert_token
  insert-IsLaidOut end [] h = ground arith
  insert-IsLaidOut end (cur ∷ rest) h =
      let fits : cur.offset + cur.len ≤ size = end-le-size (cur.offset + cur.len) size rest h.1 in
      let whole : u64 (cur.offset + cur.len) ≡ cur.offset + cur.len = omega arith in
      rw whole (ground (arith, insert-IsLaidOut (cur.offset + cur.len) rest h.1))

  -- A token whose end does not wrap is linked into tokens that are laid out only where it starts
  -- at the given end or later, ends within the format and lies apart from all the others.
  pub insert-Apart :
      (end : ℕ) (ts : List G1Token)
      → IsLaidOut end size ts
      → IfSome
          (λ _. (end ≤ t.offset) × (t.offset + t.len ≤ size) × All (Apart t) ts)
          (insert_token size t end ts)
  unfolding insert_token
  insert-Apart end [] h = ground arith
  insert-Apart end (cur ∷ rest) h =
      let fits : cur.offset + cur.len ≤ size = end-le-size (cur.offset + cur.len) size rest h.1 in
      let whole : u64 (cur.offset + cur.len) ≡ cur.offset + cur.len = omega arith in
      rw whole (
        ground (
          arith,
          insert-Apart (cur.offset + cur.len) rest h.1,
          Apart-after t (cur.offset + cur.len) size rest h.1,
        ))

  -- Into tokens that are laid out, none of them of its topic, a token whose end does not wrap is
  -- linked in wherever it lies within the format and apart from all the others.
  insert_fits :
      (end : ℕ) (ts : List G1Token)
      → IsLaidOut end size ts
      → end ≤ t.offset
      → t.offset + t.len ≤ size
      → All (Apart t) ts
      → uses t.topic ts ≡ 0
      → is_some (insert_token size t end ts) ≡ true
  unfolding insert_token uses
  insert_fits end [] h from to apart fresh = ground arith
  insert_fits end (cur ∷ rest) h from to apart fresh =
      let fits : cur.offset + cur.len ≤ size = end-le-size (cur.offset + cur.len) size rest h.1 in
      let whole : u64 (cur.offset + cur.len) ≡ cur.offset + cur.len = omega arith in
      rw whole (ground (arith, insert_fits (cur.offset + cur.len) rest h.1))

pub uses-insert :
    (size : ℕ) (t : G1Token) (end : ℕ) (ts ts' : List G1Token) (topic : ℕ)
    → insert_token size t end ts ≡ some ts'
    → uses topic ts' ≡ to_nat (topic == t.topic) + uses topic ts
unfolding insert_token uses
uses-insert size t end [] ts' topic run = ground arith
uses-insert size t end (cur ∷ rest) ts' topic run =
    elim (Option-cases (insert_token size t (u64 (cur.offset + cur.len)) rest)) [
      | inl lost ↦ ground arith
      | inr (rest', found) ↦
          ground (arith, uses-insert size t (u64 (cur.offset + cur.len)) rest rest' topic found)
    ]

pub uses-remove :
    (topic t : ℕ) (ts : List G1Token)
    → uses t (remove_token topic ts) + to_nat ((t == topic) && ltb 0 (uses topic ts)) ≡ uses t ts
unfolding remove_token uses
uses-remove topic t [] = ground arith
uses-remove topic t (cur ∷ rest) = ground (arith, uses-remove topic t rest)

pub remove-IsLaidOut :
    (topic end size : ℕ) (ts : List G1Token)
    → IsLaidOut end size ts
    → IsLaidOut end size (remove_token topic ts)
unfolding remove_token
remove-IsLaidOut topic end size [] h = h
remove-IsLaidOut topic end size (cur ∷ rest) h = ground (
  arith,
  remove-IsLaidOut topic (cur.offset + cur.len) size rest h.1,
  IsLaidOut-from_earlier end (cur.offset + cur.len) size rest,
)

-- Taking out a topic that was new gives back the tokens as they were.
pub remove-insert :
    (size : ℕ) (t : G1Token) (end : ℕ) (ts : List G1Token)
    → uses t.topic ts ≡ 0
    → IfSome (λ ts'. remove_token t.topic ts' ≡ ts) (insert_token size t end ts)
unfolding insert_token remove_token uses
remove-insert size t end [] fresh = ground arith
remove-insert size t end (cur ∷ rest) fresh =
    ground (arith, remove-insert size t (u64 (cur.offset + cur.len)) rest)

pub remove_unused : (topic : ℕ) (ts : List G1Token) → uses topic ts ≡ 0 → remove_token topic ts ≡ ts
unfolding remove_token uses
remove_unused topic [] h = refl
remove_unused topic (cur ∷ rest) h = ground (arith, remove_unused topic rest)
