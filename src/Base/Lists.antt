-- ===== src/Base/Lists.antt =====
-- Lists measured and indexed by native numbers, under the library's names.
use Prim.Native.Nat.{ℕ, zero, suc, ◌+◌, ◌-◌, ◌<◌, min}
use mathlib.Core.Path.{◌≡◌, refl, ap, ◌∙◌}
use utxo_block_emulator.Base.Tests.{nat_beq, if◌then◌else◌}
use mathlib.Core.Bool.{Bool, true, false}
use mathlib.Core.List.{List, [], ◌∷◌, ◌++◌}
use mathlib.Core.Option.{Option, none, some}
use native.Mathlib.Omega.{arith}

module _ {ℓ} {A : Type ℓ} where
  abbrev pub length : List A → ℕ
  length [] = 0
  length (x ∷ xs) = suc (length xs)

  abbrev pub get_elem? : List A → ℕ → Option A
  get_elem? [] i = none
  get_elem? (x ∷ xs) zero = some x
  get_elem? (x ∷ xs) (suc i) = get_elem? xs i

  -- A write out of bounds changes nothing.
  abbrev pub set : List A → ℕ → A → List A
  set [] i v = []
  set (x ∷ xs) zero v = v ∷ xs
  set (x ∷ xs) (suc i) v = x ∷ set xs i v

  abbrev pub get_or : List A → ℕ → A → A
  get_or [] i d = d
  get_or (x ∷ xs) zero d = x
  get_or (x ∷ xs) (suc i) d = get_or xs i d

  abbrev pub take : ℕ → List A → List A
  take zero xs = []
  take (suc n) [] = []
  take (suc n) (x ∷ xs) = x ∷ take n xs

  abbrev pub drop : ℕ → List A → List A
  drop zero xs = xs
  drop (suc n) [] = []
  drop (suc n) (x ∷ xs) = drop n xs

  abbrev pub replicate : ℕ → A → List A
  replicate zero a = []
  replicate (suc n) a = a ∷ replicate n a

  -- The elements that pass a Boolean test, in order.
  abbrev pub keep : (A → Bool) → List A → List A
  keep p [] = []
  keep p (x ∷ xs) = elim (p x) [ true ↦ x ∷ keep p xs | false ↦ keep p xs ]

  abbrev pub All {κ} : (A → Type κ) → List A → Type κ
  All P [] = Unit
  All P (x ∷ xs) = P x × All P xs

  pub keep-hit : (p : A → Bool) (x : A) (xs : List A) → p x ≡ true → keep p (x ∷ xs) ≡ x ∷ keep p xs
  keep-hit p x xs h = rw (keep, h) refl

  pub keep-miss : (p : A → Bool) (x : A) (xs : List A) → p x ≡ false → keep p (x ∷ xs) ≡ keep p xs
  keep-miss p x xs h = rw (keep, h) refl

  pub length-append : (xs ys : List A) → length (xs ++ ys) ≡ length xs + length ys
  length-append [] ys = omega arith
  length-append (x ∷ xs) ys = omega (arith, length-append xs ys)

  pub take-append-drop : (n : ℕ) (xs : List A) → take n xs ++ drop n xs ≡ xs
  take-append-drop zero xs = refl
  take-append-drop (suc n) [] = refl
  take-append-drop (suc n) (x ∷ xs) = ap (◌∷◌ x) (take-append-drop n xs)

  pub length-take : (n : ℕ) (xs : List A) → length (take n xs) ≡ min n (length xs)
  length-take zero xs = omega arith
  length-take (suc n) [] = omega arith
  length-take (suc n) (x ∷ xs) = omega (arith, length-take n xs)

  pub length-drop : (n : ℕ) (xs : List A) → length (drop n xs) ≡ length xs - n
  length-drop zero xs = omega arith
  length-drop (suc n) [] = omega arith
  length-drop (suc n) (x ∷ xs) = omega (arith, length-drop n xs)

  pub length-replicate : (n : ℕ) (a : A) → length (replicate n a) ≡ n
  length-replicate zero a = refl
  length-replicate (suc n) a = ap suc (length-replicate n a)

  pub length-set : (xs : List A) (i : ℕ) (v : A) → length (set xs i v) ≡ length xs
  length-set [] i v = refl
  length-set (x ∷ xs) zero v = refl
  length-set (x ∷ xs) (suc i) v = ap suc (length-set xs i v)

module _ {ℓ κ} {A : Type ℓ} (P : A → Type κ) where
  pub All-append : (xs ys : List A) → All P xs → All P ys → All P (xs ++ ys)
  All-append [] ys hx hy = hy
  All-append (x ∷ xs) ys hx hy = (hx.0, All-append xs ys hx.1 hy)

module _ {ℓ} {A : Type ℓ} where
  -- Splitting an append where its first part ends.
  pub take-length-append : (xs ys : List A) → take (length xs) (xs ++ ys) ≡ xs
  take-length-append [] ys = refl
  take-length-append (x ∷ xs) ys = ap (◌∷◌ x) (take-length-append xs ys)

  pub drop-length-append : (xs ys : List A) → drop (length xs) (xs ++ ys) ≡ ys
  drop-length-append [] ys = refl
  drop-length-append (x ∷ xs) ys = drop-length-append xs ys

module _ {ℓ} {A : Type ℓ} where
  pub get_or-set :
      (xs : List A) (k j : ℕ) (v d : A)
      → k < length xs
      → get_or (set xs k v) j d ≡ (if nat_beq k j then v else get_or xs j d)
  get_or-set [] k j v d h = absurd (omega arith)
  get_or-set (x ∷ xs) zero zero v d h = ground arith
  get_or-set (x ∷ xs) zero (suc j) v d h = ground arith
  get_or-set (x ∷ xs) (suc k) zero v d h = ground arith
  get_or-set (x ∷ xs) (suc k) (suc j) v d h = get_or-set xs k j v d (omega arith) ∙ ground arith

  pub get_elem?-get_or :
      (xs : List A) (k : ℕ) (d : A) → k < length xs → get_elem? xs k ≡ some (get_or xs k d)
  get_elem?-get_or [] k d h = absurd (omega arith)
  get_elem?-get_or (x ∷ xs) zero d h = refl
  get_elem?-get_or (x ∷ xs) (suc k) d h = get_elem?-get_or xs k d (omega arith)

  -- Lists of one length that agree at every place.
  pub eq_of_get_or :
      (xs ys : List A) (d : A)
      → length xs ≡ length ys
      → ((k : ℕ) → get_or xs k d ≡ get_or ys k d)
      → xs ≡ ys
  eq_of_get_or [] [] d l h = refl
  eq_of_get_or [] (y ∷ ys) d l h = absurd (omega arith)
  eq_of_get_or (x ∷ xs) [] d l h = absurd (omega arith)
  eq_of_get_or (x ∷ xs) (y ∷ ys) d l h =
      let e = h 0 in let r = eq_of_get_or xs ys d (omega arith) (λ k. h (suc k)) in cc

  -- The rest of a list that is not empty, and the place where it starts.
  pub get_elem?-drop :
      (q : List A) (k : ℕ) (x : A) (xs : List A) → drop k q ≡ x ∷ xs → get_elem? q k ≡ some x
  get_elem?-drop [] zero x xs h = cc
  get_elem?-drop [] (suc k) x xs h = cc
  get_elem?-drop (y ∷ q) zero x xs h = cc
  get_elem?-drop (y ∷ q) (suc k) x xs h = get_elem?-drop q k x xs h

  pub drop-suc :
      (q : List A) (k : ℕ) (x : A) (xs : List A) → drop k q ≡ x ∷ xs → drop (suc k) q ≡ xs
  drop-suc [] zero x xs h = cc
  drop-suc [] (suc k) x xs h = cc
  drop-suc (y ∷ q) zero x xs h = cc
  drop-suc (y ∷ q) (suc k) x xs h = drop-suc q k x xs h

  pub drop-set : (q : List A) (i k : ℕ) (x : A) → i < k → drop k (set q i x) ≡ drop k q
  drop-set [] i k x h = refl
  drop-set (y ∷ q) i zero x h = absurd (omega arith)
  drop-set (y ∷ q) zero (suc k) x h = refl
  drop-set (y ∷ q) (suc i) (suc k) x h = drop-set q i k x (omega arith)

  pub take-suc-set :
      (q : List A) (i : ℕ) (x : A) → i < length q → take (suc i) (set q i x) ≡ take i q ++ (x ∷ [])
  take-suc-set [] i x h = absurd (omega arith)
  take-suc-set (y ∷ q) zero x h = refl
  take-suc-set (y ∷ q) (suc i) x h = ap (◌∷◌ y) (take-suc-set q i x (omega arith))
