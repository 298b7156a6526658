-- ===== src/Machine.antt =====
-- What a run of the C code can meet beside its results: the faults that the source does not guard
-- against, the outcomes of `malloc`, and raw copies between buffers.
use ece_lib.Base.{
  ℕ, ◌+◌, ◌≡◌, Bool, true, false, refl, subst, sym, ◌∙◌, List, [], ◌∷◌, ◌++◌, leb, take, drop,
  if◌then◌else◌, length, ◌≤◌, arith, length-append, length-take, length-drop, ◌%◌, ◌^◌, ◌&&◌,
}

-- A read or call through `NULL`, a use of memory after `free`, an access beyond a buffer, and the use
-- of a pointer that was never set. A remainder by zero ends the process.
pub data Fault : Type 0 where
  null_pointer use_after_free out_of_bounds uninitialised division_by_zero : Fault

pub data Run {ℓ} (A : Type ℓ) : Type ℓ where
  fault : Fault → Run A
  ok : A → Run A

infixl 5 ◌>>=◌ ◌>>◌
abbrev pub ◌>>=◌ {ℓ κ} : {A : Type ℓ} {B : Type κ} → Run A → (A → Run B) → Run B
fault why >>= next = fault why
ok x >>= next = next x

abbrev pub ◌>>◌ {ℓ} : {B : Type ℓ} → Run (Unit {0}) → Run B → Run B
m >> k = m >>= λ _. k

-- The run ends normally, in a value that satisfies `P`.
abbrev pub Returns {ℓ κ} : {A : Type ℓ} → Run A → (A → Type κ) → Type (ℓ ⊔ κ)
Returns {A} run P = (x : A) × (run ≡ ok x) × P x

-- The outcomes of the coming calls of `malloc`, which the environment chooses: `false` is a `NULL`.
-- Beyond the end of the list every call succeeds.
abbrev pub Memory : Type 0
Memory = List Bool

unfoldable pub malloc : Memory → Bool × Memory
malloc [] = (true, [])
malloc (b ∷ mem) = (b, mem)

-- `unsigned long` and `unsigned int` arithmetic.
abbrev pub u64 : ℕ → ℕ
u64 n = n % 2 ^ 64

abbrev pub u32 : ℕ → ℕ
u32 n = n % 2 ^ 32

-- `memcpy(to + at, from, n)`: a fault where the source or the target is shorter.
unfoldable pub memcpy : (to : List ℕ) (at : ℕ) (from : List ℕ) (n : ℕ) → Run (List ℕ)
memcpy to at from n =
    if leb n (length from) && leb (at + n) (length to)
    then ok (take at to ++ (take n from ++ drop (at + n) to))
    else fault out_of_bounds

-- A copy that stays within both buffers changes no length.
pub length-memcpy :
    (to : List ℕ) (at : ℕ) (from : List ℕ) (n : ℕ)
    → n ≤ length from
    → at + n ≤ length to
    → Returns (memcpy to at from n) λ r. length r ≡ length to
unfolding memcpy
length-memcpy to at from n p q = (
  take at to ++ (take n from ++ drop (at + n) to),
  ground arith,
  simp (length-append, length-take, length-drop) (omega arith),
)

-- A run that ends normally ends in a value that satisfies `P`.
pub data WhenOk {ℓ κ} {A : Type ℓ} (P : A → Type κ) : Run A → Type (ℓ ⊔ κ) where
  faults : {why : Fault} → WhenOk P (fault why)
  returns : {x : A} → P x → WhenOk P (ok x)

module _ {ℓ κ} {A : Type ℓ} {B : Type ℓ} {P : B → Type κ} where
  pub bind-WhenOk :
      (m : Run A) {next : A → Run B} → ((x : A) → WhenOk P (next x)) → WhenOk P (m >>= next)
  bind-WhenOk (fault why) h = faults
  bind-WhenOk (ok x) h = h x

  -- The rest may read the run that the first result comes from.
  pub run-WhenOk :
      (m : Run A) {next : A → Run B}
      → ((x : A) → m ≡ ok x → WhenOk P (next x))
      → WhenOk P (m >>= next)
  run-WhenOk (fault why) h = faults
  run-WhenOk (ok x) h = h x refl

  -- What holds of the first result serves the rest.
  pub then-WhenOk :
      {Q : A → Type κ} {m : Run A} {next : A → Run B}
      → WhenOk Q m
      → ((x : A) → Q x → WhenOk P (next x))
      → WhenOk P (m >>= next)
  then-WhenOk faults h = faults
  then-WhenOk (returns {x} q) h = h x q

module _ {ℓ κ} {A : Type ℓ} {P : A → Type κ} where
  pub weaken_ok : {Q : A → Type κ} {m : Run A} → WhenOk Q m → ((x : A) → Q x → P x) → WhenOk P m
  weaken_ok faults h = faults
  weaken_ok (returns {x} q) h = returns (h x q)

  pub if-WhenOk : (b : Bool) {x y : Run A} → WhenOk P x → WhenOk P y → WhenOk P (if b then x else y)
  if-WhenOk true p q = p
  if-WhenOk false p q = q

abbrev AtOk {ℓ κ} : {A : Type ℓ} → (P : A → Type κ) → Run A → Type κ
AtOk P (fault why) = Unit
AtOk P (ok x) = P x

WhenOk-AtOk {ℓ κ} : {A : Type ℓ} {P : A → Type κ} {m : Run A} → WhenOk P m → AtOk P m
WhenOk-AtOk faults = tt
WhenOk-AtOk (returns p) = p

pub at_ok {ℓ κ} : {A : Type ℓ} {P : A → Type κ} {m : Run A} {x : A} → WhenOk P m → m ≡ ok x → P x
at_ok {P} w e = subst (AtOk P) e (WhenOk-AtOk w)

pub returned {ℓ κ} :
    {A : Type ℓ} {P : A → Type κ} {m : Run A} {x : A} → Returns m P → m ≡ ok x → P x
returned {P} (y, run, p) e = subst (AtOk P) (sym run ∙ e) p

pub Returns-WhenOk {ℓ κ} : {A : Type ℓ} {P : A → Type κ} {m : Run A} → Returns m P → WhenOk P m
Returns-WhenOk {P} (y, run, p) = subst (WhenOk P) (sym run) (returns p)
