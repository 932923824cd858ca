-- ===== src/Hotstuff/Once/Counts.antt =====
-- What a node of consensus_shard/synchotstuff_all has executed, and what it may still execute: its
-- timers, and one execution for a digest that its pool does not hold.
use utxo_block_emulator.Base.{
  ℕ, zero, suc, ◌+◌, ◌≤◌, List, [], ◌∷◌, ◌++◌, none, some, ◌≡◌, refl, Bytes, bytes_eq, nat_eq, ◌==◌,
  if◌then◌else◌, arith, get_elem?,
}
use utxo_block_emulator.Base.GoMap
use utxo_block_emulator.Base.GoMap.{GoMap, lookup-insert}
use utxo_block_emulator.Message.{Request, Propose}
use utxo_block_emulator.Hotstuff.{
  HotstuffNode, Action, broadcast_propose, broadcast_vote, request_old, send_old, executes, extra,
}
use utxo_block_emulator.Hotstuff.Handlers.{extras, remove}

-- How often a proposal with the digest was executed.
abbrev pub executions : {X : Type 0} → Bytes → List (Action X) → ℕ
executions d [] = 0
executions d (executes p ∷ out) = (if p.digest == d then 1 else 0) + executions d out
executions d (broadcast_propose _ ∷ out) = executions d out
executions d (broadcast_vote _ ∷ out) = executions d out
executions d (request_old _ _ ∷ out) = executions d out
executions d (send_old _ _ ∷ out) = executions d out
executions d (extra _ ∷ out) = executions d out

-- How many timers wait with the digest.
abbrev pub pending : Bytes → List Propose → ℕ
pending d [] = 0
pending d (p ∷ ps) = (if p.digest == d then 1 else 0) + pending d ps

-- One if the pool does not hold the digest.
abbrev pub absent : Bytes → GoMap Bytes Request → ℕ
absent d m = elim (GoMap.lookup d m) [ none ↦ 1 | some _ ↦ 0 ]

-- The executions that may still come.
abbrev pub budget : {C : Type 0} → Bytes → HotstuffNode C → ℕ
budget d n = pending d n.timers + absent d n.request_pool

abbrev pub Bounded :
    {C X : Type 0} → Bytes → HotstuffNode C → HotstuffNode C × List (Action X) → Type 0
Bounded d n r =
    (executions d r.1 + budget d r.0 ≤ budget d n) × (r.0.node_id ≡ n.node_id) × (r.0.view ≡ n.view)

pub executions-extras : {X : Type 0} (d : Bytes) (xs : List X) → executions d (extras xs) ≡ 0
executions-extras d [] = refl
executions-extras d (x ∷ xs) = executions-extras d xs

pub executions-append :
    {X : Type 0} (d : Bytes) (as' bs : List (Action X))
    → executions d (as' ++ bs) ≡ executions d as' + executions d bs
executions-append d [] bs = omega arith
executions-append d (executes p ∷ as') bs = omega (arith, executions-append d as' bs)
executions-append d (broadcast_propose _ ∷ as') bs = executions-append d as' bs
executions-append d (broadcast_vote _ ∷ as') bs = executions-append d as' bs
executions-append d (request_old _ _ ∷ as') bs = executions-append d as' bs
executions-append d (send_old _ _ ∷ as') bs = executions-append d as' bs
executions-append d (extra _ ∷ as') bs = executions-append d as' bs

pub pending-append :
    (d : Bytes) (ps qs : List Propose) → pending d (ps ++ qs) ≡ pending d ps + pending d qs
pending-append d [] qs = omega arith
pending-append d (p ∷ ps) qs = omega (arith, pending-append d ps qs)

pub pending-remove :
    (d : Bytes) (i : ℕ) (ps : List Propose) (p : Propose)
    → get_elem? ps i ≡ some p
    → pending d ps ≡ (if p.digest == d then 1 else 0) + pending d (remove i ps)
pending-remove d i [] p e = cc
pending-remove d zero (q ∷ ps) p e = ground arith
pending-remove d (suc i) (q ∷ ps) p e = omega (arith, pending-remove d i ps p e)

pub absent-insert :
    (d k : Bytes) (r : Request) (m : GoMap Bytes Request)
    → absent d (GoMap.insert k r m) ≡ (if k == d then 0 else absent d m)
absent-insert d k r m = ground (arith, lookup-insert k d r m)
