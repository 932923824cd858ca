-- ===== src/Pbft/Once/Commits.antt =====
-- The commits among what a node of consensus_shard/pbft_all sends, against its marks
-- `isCommitBordcast`.
use utxo_block_emulator.Base.{
  ℕ, ◌+◌, ◌≤◌, List, [], ◌∷◌, ◌++◌, false, ◌≡◌, refl, sym, ap, Bytes, bytes_eq, nat_eq, ◌==◌,
  if◌then◌else◌, arith,
}
use utxo_block_emulator.Base.GoMap
use utxo_block_emulator.Base.GoMap.{GoMap, lookup-insert}
use utxo_block_emulator.Pbft.{
  Node, Sent, broadcast_pre_prepare, broadcast_prepare, broadcast_commit, request_old, send_old,
  extra,
}
use utxo_block_emulator.Pbft.Handlers.{extras}

-- How often a commit for a digest was broadcast.
abbrev pub commits : {X : Type 0} → Bytes → List (Sent X) → ℕ
commits d [] = 0
commits d (broadcast_commit c ∷ out) = (if c.digest == d then 1 else 0) + commits d out
commits d (broadcast_pre_prepare _ ∷ out) = commits d out
commits d (broadcast_prepare _ ∷ out) = commits d out
commits d (request_old _ _ ∷ out) = commits d out
commits d (send_old _ _ ∷ out) = commits d out
commits d (extra _ ∷ out) = commits d out

-- One if a commit for the digest is marked as broadcast.
abbrev pub flag : {C : Type 0} → Bytes → Node C → ℕ
flag d n = if GoMap.get_or d false n.is_commit_bordcast then 1 else 0

-- A commit for the digest is sent only where the mark goes from unset to set.
abbrev pub Bounded : {C X : Type 0} → Bytes → Node C → Node C × List (Sent X) → Type 0
Bounded d n r = commits d r.1 + flag d n ≤ flag d r.0

pub flag-of :
    {C : Type 0} (d : Bytes) (n n' : Node C)
    → n'.is_commit_bordcast ≡ n.is_commit_bordcast
    → flag d n ≡ flag d n'
flag-of d n n' e = ap (λ m. if GoMap.get_or d false m then 1 else 0) (sym e)

pub commits-extras : {X : Type 0} (d : Bytes) (xs : List X) → commits d (extras xs) ≡ 0
commits-extras d [] = refl
commits-extras d (x ∷ xs) = commits-extras d xs

pub commits-append :
    {X : Type 0} (d : Bytes) (as' bs : List (Sent X))
    → commits d (as' ++ bs) ≡ commits d as' + commits d bs
commits-append d [] bs = omega arith
commits-append d (broadcast_commit c ∷ as') bs = omega (arith, commits-append d as' bs)
commits-append d (broadcast_pre_prepare _ ∷ as') bs = commits-append d as' bs
commits-append d (broadcast_prepare _ ∷ as') bs = commits-append d as' bs
commits-append d (request_old _ _ ∷ as') bs = commits-append d as' bs
commits-append d (send_old _ _ ∷ as') bs = commits-append d as' bs
commits-append d (extra _ ∷ as') bs = commits-append d as' bs

pub quiet :
    {C X : Type 0} (d : Bytes) (n n' : Node C) (out : List (Sent X))
    → commits d out ≡ 0
    → n'.is_commit_bordcast ≡ n.is_commit_bordcast
    → Bounded d n (n', out)
quiet d n n' out z e = omega (arith, z, flag-of d n n' e)
