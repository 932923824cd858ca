-- ===== src/Message/Prefix.antt =====
-- message/message.go: `MergeMessage` and `SplitMessage`.
use utxo_block_emulator.Base.{
  ℕ, zero, suc, ◌-◌, ◌≤◌, ◌<◌, ◌≡◌, ◌≢◌, ◌↔◌, refl, ap, ◌∙◌, [], ◌∷◌, ◌++◌, Bool, true, false, not,
  Bytes, length, take, drop, set, replicate, keep, All, ltb, ◌==◌, nat_eq, if◌then◌else◌, arith,
  length-append, length-replicate, take-length-append, drop-length-append, append_assoc, append-nil,
  Bool-cases, inl, inr,
}
use utxo_block_emulator.Base.Outcome.{Outcome, ok, panic, ◌>>=◌}

abbrev pub prefix_msg_type_len : ℕ
prefix_msg_type_len = 30

-- `for i, v := range msgType { b[i] = v }`: a write past the end panics.
unfoldable pub fill : Bytes → ℕ → Bytes → Outcome Bytes
fill b i [] = ok b
fill b i (v ∷ vs) =
    let rest = fill (set b i v) (suc i) vs in if ltb i (length b) then rest else panic

unfoldable pub merge_message : Bytes → Bytes → Outcome Bytes
unfolding fill
merge_message msg_type content = do
  b ← fill (replicate prefix_msg_type_len 0) 0 msg_type
  ok (b ++ content)

abbrev pub non_zero : ℕ → Bool
non_zero v = not (v == 0)

-- `message[:30]` and `message[30:]` panic on a shorter message.
unfoldable pub split_message : Bytes → Outcome (Bytes × Bytes)
split_message message =
    if ltb (length message) prefix_msg_type_len
    then panic
    else ok (keep non_zero (take prefix_msg_type_len message), drop prefix_msg_type_len message)

set-at :
    (xs : Bytes) (n v : ℕ)
    → set (xs ++ replicate (suc n) 0) (length xs) v ≡ (xs ++ (v ∷ [])) ++ replicate n 0
set-at [] n v = refl
set-at (x ∷ xs) n v = ap (◌∷◌ x) (set-at xs n v)

-- `done` is written, `n` zero bytes are left.
fill-eq :
    (vs done : Bytes) (n : ℕ)
    → length vs ≤ n
    → fill (done ++ replicate n 0) (length done) vs
      ≡ ok ((done ++ vs) ++ replicate (n - length vs) 0)
unfolding fill
fill-eq [] done n h = rw append-nil (let e : n - 0 ≡ n = omega arith in rw e)
fill-eq (v ∷ vs) done zero h = absurd (omega arith)
fill-eq (v ∷ vs) done (suc n) h =
    rw (inside, set-at done n v, one_more)
      (fill-eq vs (done ++ (v ∷ [])) n (omega arith) ∙ rw (append_assoc done (v ∷ []) vs, less))
  where
    inside : ltb (length done) (length (done ++ replicate (suc n) 0)) ≡ true
    inside = ground (arith, length-append done (replicate (suc n) 0), length-replicate {A = ℕ} n 0)

    one_more : suc (length done) ≡ length (done ++ (v ∷ []))
    one_more = omega (arith, length-append done (v ∷ []))

    less : n - length vs ≡ suc n - suc (length vs)
    less = omega arith

fill-full :
    (vs done : Bytes) (n : ℕ)
    → n < length vs
    → fill (done ++ replicate n 0) (length done) vs ≡ panic
unfolding fill
fill-full [] done n h = absurd (omega arith)
fill-full (v ∷ vs) done zero h = rw outside
  where
    outside : ltb (length done) (length (done ++ [])) ≡ false
    outside = ground (arith, length-append done [])
fill-full (v ∷ vs) done (suc n) h =
    rw (set-at done n v, one_more) (rw (fill-full vs (done ++ (v ∷ [])) n (omega arith)) (either _))
  where
    one_more : suc (length done) ≡ length (done ++ (v ∷ []))
    one_more = omega (arith, length-append done (v ∷ []))

    p : Outcome Bytes
    p = panic

    either : (b : Bool) → (if b then p else p) ≡ p
    either true = refl
    either false = refl

-- A message is the type, zero bytes up to the 30th, and the content; a longer type panics.
merge_message-layout :
    (msg_type content : Bytes)
    → (length msg_type ≤ 30
        → merge_message msg_type content
          ≡ ok ((msg_type ++ replicate (30 - length msg_type) 0) ++ content))
      × (30 < length msg_type → merge_message msg_type content ≡ panic)
unfolding merge_message
merge_message-layout msg_type content =
    (λ h. rw (fill-eq msg_type [] 30 h) refl, λ h. rw (fill-full msg_type [] 30 h) refl)

keep-append : (p : ℕ → Bool) (xs ys : Bytes) → keep p (xs ++ ys) ≡ keep p xs ++ keep p ys
keep-append p [] ys = refl
keep-append p (x ∷ xs) ys = ground (arith, keep-append p xs ys)

keep-zeros : (n : ℕ) → keep non_zero (replicate n 0) ≡ []
keep-zeros zero = refl
keep-zeros (suc n) = keep-zeros n

-- Splitting a merged message gives the content, and the type without its zero bytes.
split-merge :
    (msg_type content : Bytes)
    → length msg_type ≤ 30
    → (merge_message msg_type content >>= split_message) ≡ ok (keep non_zero msg_type, content)
unfolding split_message
split-merge msg_type content h = rw ((merge_message-layout msg_type content).0 h) (
    rw (long, first, last)
      (rw
        (
          keep-append non_zero msg_type zeros,
          keep-zeros (30 - length msg_type),
          append-nil (keep non_zero msg_type),
        )
        refl))
  where
    zeros : Bytes
    zeros = replicate (30 - length msg_type) 0

    size : length (msg_type ++ zeros) ≡ 30
    size =
        omega
          (arith, length-append msg_type zeros, length-replicate {A = ℕ} (30 - length msg_type) 0)

    long : ltb (length ((msg_type ++ zeros) ++ content)) 30 ≡ false
    long = ground (arith, length-append (msg_type ++ zeros) content, size)

    first : take 30 ((msg_type ++ zeros) ++ content) ≡ msg_type ++ zeros
    first = rw size at (take-length-append (msg_type ++ zeros) content)

    last : drop 30 ((msg_type ++ zeros) ++ content) ≡ content
    last = rw size at (drop-length-append (msg_type ++ zeros) content)

length-keep : (p : ℕ → Bool) (xs : Bytes) → length (keep p xs) ≤ length xs
length-keep p [] = omega arith
length-keep p (x ∷ xs) = ground (arith, length-keep p xs)

keep-All : (xs : Bytes) → All (λ x. x ≢ 0) xs → keep non_zero xs ≡ xs
keep-All [] h = refl
keep-All (x ∷ xs) h = ground (arith, h.0, keep-All xs h.1)

keep-head :
    (x : ℕ) (xs : Bytes) → keep non_zero (x ∷ xs) ≡ x ∷ xs → (x ≢ 0) × (keep non_zero xs ≡ xs)
keep-head x xs h = ground (arith, length-keep non_zero xs, ap length h)

All-keep : (xs : Bytes) → keep non_zero xs ≡ xs → All (λ x. x ≢ 0) xs
All-keep [] h = tt
All-keep (x ∷ xs) h = let (a, b) = keep-head x xs h in (a, All-keep xs b)

-- A merged message splits into what was merged exactly when the type has at most 30 bytes and none of
-- them is zero.
pub split-merge_iff :
    (msg_type content : Bytes)
    → ((merge_message msg_type content >>= split_message) ≡ ok (msg_type, content))
      ↔ ((length msg_type ≤ 30) × All (λ x. x ≢ 0) msg_type)
split-merge_iff msg_type content = (
  back,
  λ h. split-merge msg_type content h.0 ∙ ap (λ t. ok (t, content)) (keep-All msg_type h.1),
)
  where
    back :
        (merge_message msg_type content >>= split_message) ≡ ok (msg_type, content)
        → (length msg_type ≤ 30) × All (λ x. x ≢ 0) msg_type
    back h = elim (Bool-cases (ltb 30 (length msg_type))) [
      | inl e ↦ absurd (long e)
      | inr e ↦ (short e, All-keep msg_type (same (short e)))
    ]
      where
        short : ltb 30 (length msg_type) ≡ false → length msg_type ≤ 30
        short e = ground arith

        long : ltb 30 (length msg_type) ≡ true → ⊥
        long e = cc (rw ((merge_message-layout msg_type content).1 (ground arith)) at h)

        same : length msg_type ≤ 30 → keep non_zero msg_type ≡ msg_type
        same le = cc (split-merge msg_type content le)
