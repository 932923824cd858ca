-- ===== src/Base/Outcome.antt =====
-- The outcome of Go code that may panic (`log.Panic`, an index out of range, a write to a nil map, an
-- unlock of an unlocked mutex) or wait for a lock that nobody will release.
use mathlib.Core.Path.{◌≡◌, refl, sym, ap, subst}
use mathlib.Core.Bool.{Bool, true, false}
use mathlib.Core.Option.{Option, none, some}
use utxo_block_emulator.Base.Tests.{if◌then◌else◌}

pub data Outcome {ℓ} (A : Type ℓ) : Type ℓ where
  ok : A → Outcome A
  panic : Outcome A
  blocked : Outcome A

infixl 5 ◌>>=◌
abbrev pub ◌>>=◌ {ℓ ν} : {A : Type ℓ} {C : Type ν} → Outcome A → (A → Outcome C) → Outcome C
panic >>= next = panic
blocked >>= next = blocked
ok a >>= next = next a

-- A dereference of a value that may be absent.
abbrev pub or_panic {ℓ} : {A : Type ℓ} → Option A → Outcome A
or_panic none = panic
or_panic (some a) = ok a

-- A sequence that ends ends in each of its two parts.
pub >>=-eq-ok {ℓ ν} :
    {A : Type ℓ} {C : Type ν} (first : Outcome A) (next : A → Outcome C) {c : C}
    → (first >>= next) ≡ ok c
    → (a : A) × (first ≡ ok a) × (next a ≡ ok c)
>>=-eq-ok panic next ended = cc
>>=-eq-ok blocked next ended = cc
>>=-eq-ok (ok a) next ended = (a, refl, ended)

from_ok {ℓ} : {A : Type ℓ} → A → Outcome A → A
from_ok d (ok a) = a
from_ok d _ = d

pub ok-injective {ℓ} : {A : Type ℓ} {a b : A} → ok a ≡ ok b → a ≡ b
unfolding from_ok
ok-injective {a = a} h = ap (from_ok a) h

-- Every result satisfies `P`: partial correctness, with the panics and the waiting told apart.
pub data Ensures {ℓ κ} {A : Type ℓ} (P : A → Type κ) : Outcome A → Type (ℓ ⊔ κ) where
  done : {a : A} → P a → Ensures P (ok a)
  panics : Ensures P panic
  blocks : Ensures P blocked

module _ {ℓ κ} {A : Type ℓ} {P : A → Type κ} where
  pub Ensures-ok : {a : A} → Ensures P (ok a) → P a
  Ensures-ok (done h) = h

  pub Ensures-of : (m : Outcome A) → ((a : A) → m ≡ ok a → P a) → Ensures P m
  Ensures-of (ok a) h = done (h a refl)
  Ensures-of panic h = panics
  Ensures-of blocked h = blocks

  pub Ensures-eq : {m : Outcome A} {a : A} → Ensures P m → m ≡ ok a → P a
  Ensures-eq h e = Ensures-ok (subst (Ensures P) e h)

-- To split on an outcome and keep the equation.
pub data Cases {ℓ} {A : Type ℓ} (m : Outcome A) : Type ℓ where
  is_ok : (a : A) → m ≡ ok a → Cases m
  is_panic : m ≡ panic → Cases m
  is_blocked : m ≡ blocked → Cases m

pub Outcome-Cases {ℓ} : {A : Type ℓ} (m : Outcome A) → Cases m
Outcome-Cases (ok a) = is_ok a refl
Outcome-Cases panic = is_panic refl
Outcome-Cases blocked = is_blocked refl

-- `m >>= f` ensures `P` if `m` ensures `Q` and `f` takes `Q` to `P`.
pub Ensures-bind {ℓ κ μ ν} :
    {A : Type ℓ} {B : Type κ} {Q : A → Type μ} {P : B → Type ν} (m : Outcome A) (f : A → Outcome B)
    → Ensures Q m
    → ((a : A) → Q a → Ensures P (f a))
    → Ensures P (m >>= f)
Ensures-bind (ok a) f (done h) k = k a h
Ensures-bind panic f h k = panics
Ensures-bind blocked f h k = blocks

-- `P` of what comes after a step of which nothing is known.
pub Ensures-after {ℓ κ ν} :
    {A : Type ℓ} {B : Type κ} {P : B → Type ν} (m : Outcome A) (f : A → Outcome B)
    → ((a : A) → Ensures P (f a))
    → Ensures P (m >>= f)
Ensures-after (ok a) f h = h a
Ensures-after panic f h = panics
Ensures-after blocked f h = blocks

-- `P` of both branches.
pub Ensures-if {ℓ ν} :
    {B : Type ℓ} {P : B → Type ν} (b : Bool) (m m' : Outcome B)
    → Ensures P m
    → Ensures P m'
    → Ensures P (if b then m else m')
Ensures-if true m m' h h' = h
Ensures-if false m m' h h' = h'

-- `P` from what is ensured already.
pub Ensures-weaken {ℓ μ ν} :
    {A : Type ℓ} {Q : A → Type μ} {P : A → Type ν} (m : Outcome A)
    → ((a : A) → Q a → P a)
    → Ensures Q m
    → Ensures P m
Ensures-weaken (ok a) k (done h) = done (k a h)
Ensures-weaken panic k h = panics
Ensures-weaken blocked k h = blocks

-- Total correctness: there is a result, and it satisfies `P`.
abbrev pub Yields {ℓ κ} : {A : Type ℓ} → (A → Type κ) → Outcome A → Type (ℓ ⊔ κ)
Yields {A = A} P m = (a : A) × (m ≡ ok a) × P a

pub Yields-bind {ℓ κ μ ν} :
    {A : Type ℓ} {B : Type κ} {Q : A → Type μ} {P : B → Type ν} (m : Outcome A) (f : A → Outcome B)
    → Yields Q m
    → ((a : A) → Q a → Yields P (f a))
    → Yields P (m >>= f)
Yields-bind {P = P} m f (a, e, q) k = subst (λ x. Yields P (x >>= f)) (sym e) (k a q)

pub Yields-if {ℓ κ} :
    {A : Type ℓ} {P : A → Type κ} (b : Bool) (m m' : Outcome A)
    → (b ≡ true → Yields P m)
    → (b ≡ false → Yields P m')
    → Yields P (if b then m else m')
Yields-if true m m' h h' = h refl
Yields-if false m m' h h' = h' refl

-- After a step with a known result.
pub Yields-after {ℓ κ ν} :
    {A : Type ℓ} {B : Type κ} {P : B → Type ν} (m : Outcome A) (f : A → Outcome B) {a : A}
    → m ≡ ok a
    → Yields P (f a)
    → Yields P (m >>= f)
Yields-after {P = P} m f e h = subst (λ x. Yields P (x >>= f)) (sym e) h
