-- ===== src/LinkedList.antt =====
-- lib/linked_list.c and inc/linked_list.h: a singly linked list behind a sentinel node. A list is
-- the sequence of the `data` pointers that hang behind the sentinel, with the counter `size`; the
-- sentinel itself holds no data. `free_data` is fixed by each caller and stands there.
use ece_lib.Base.{ℕ, ◌+◌, ◌≡◌, refl, List, [], ◌∷◌, ◌++◌, Option, none, some, arith, length}
use ece_lib.Base.{length-append, ap}

pub record LinkedList (A : Type 0) : Type 0 where
  pub items : List A
  pub size : ℕ

module _ {A : Type 0} where
  unfoldable pub linked_list_init : LinkedList A
  linked_list_init = record { items = []; size = 0 }

  -- The first node after the sentinel, which a loop over the list starts from; `none` is `NULL`.
  unfoldable pub linked_list_head : LinkedList A → Option (A × List A)
  linked_list_head l = elim l.items [ [] ↦ none | x ∷ xs ↦ some (x, xs) ]

  -- The walk to the last node, and the write behind it.
  append_loop : List A → A → List A
  append_loop [] d = d ∷ []
  append_loop (x ∷ xs) d = x ∷ append_loop xs d

  unfoldable pub linked_list_append : LinkedList A → A → LinkedList A
  unfolding append_loop
  linked_list_append l d = record { items = append_loop l.items d; size = l.size + 1 }

  unfoldable pub linked_list_prepend : LinkedList A → A → LinkedList A
  linked_list_prepend l d = record { items = d ∷ l.items; size = l.size + 1 }

  -- The data pointers that `free_data` is called on, in order.
  unfoldable pub linked_list_free : LinkedList A → List A
  linked_list_free l = l.items

  unfoldable pub linked_list_size : LinkedList A → ℕ
  linked_list_size l = l.size

  -- The counter is the number of nodes.
  abbrev pub IsCounted : LinkedList A → Type 0
  IsCounted l = l.size ≡ length l.items

  append_loop-append : (xs : List A) (d : A) → append_loop xs d ≡ xs ++ d ∷ []
  unfolding append_loop
  append_loop-append [] d = refl
  append_loop-append (x ∷ xs) d = ap (λ r. x ∷ r) (append_loop-append xs d)

  -- Starting from the empty list, appending and prepending keep the counter equal to the number of
  -- nodes; an append puts the data last, a prepend puts it first, and the other nodes keep their
  -- order.
  pub list_operations :
      (l : LinkedList A) (d : A)
      → IsCounted l
      → IsCounted linked_list_init
        × IsCounted (linked_list_append l d)
        × IsCounted (linked_list_prepend l d)
        × (linked_list_free (linked_list_append l d) ≡ linked_list_free l ++ d ∷ [])
        × (linked_list_head (linked_list_prepend l d) ≡ some (d, linked_list_free l))
        × (linked_list_size (linked_list_append l d) ≡ linked_list_size l + 1)
  unfolding linked_list_init linked_list_append linked_list_prepend linked_list_free
      linked_list_head linked_list_size
  list_operations l d c = (
    refl,
    rw append_loop-append (omega (arith, length-append l.items (d ∷ []))),
    omega arith,
    append_loop-append l.items d,
    refl,
    refl,
  )
