-- ===== src/Pbft/Answers.antt =====
-- consensus_shard/pbft_all/messageHandle.go: what the main node answers to a request for old blocks
-- (`handleRequestOldSeq`) against what the node that asked stores (`handleSendOldSeq`).
use utxo_block_emulator.Base.{
  ℕ, suc, ◌+◌, ◌^◌, ◌<◌, List, [], ◌∷◌, map, length, true, some, ◌≡◌, refl, sym, ap, subst, ◌∙◌,
  Bytes, bytes_eq, nat_eq, ◌==◌, arith, eq_iff, Bool-cases, inl, inr, add_u64,
}
use utxo_block_emulator.Base.GoMap
use utxo_block_emulator.Base.GoMap.{lookup-insert, lookup-insert_self}
use utxo_block_emulator.Message.{Request}
use utxo_block_emulator.Pbft.{Node, InsideMod}
use utxo_block_emulator.Pbft.Handlers.{collect_old, store_old}

module _ {C X : Type 0} (get_digest : Request → Bytes) (ihm : InsideMod C X) where
  -- The height has the digest, and the pool has a request with that digest.
  record Holds (height : ℕ) (d : Bytes) (n : Node C) : Type 0 where
    request : Request
    at_height : GoMap.lookup height n.height_to_digest ≡ some d
    pooled : GoMap.lookup d n.request_pool ≡ some request
    digest : get_digest request ≡ d

  -- One turn of the loop of `handleSendOldSeq`.
  abbrev stored : ℕ → Request → Node C → Node C
  stored height r n = record n {
    request_pool = GoMap.insert (get_digest r) r n.request_pool;
    height_to_digest = GoMap.insert height (get_digest r) n.height_to_digest;
    is_reply = GoMap.insert (get_digest r) true n.is_reply;
  }

  stored-Holds :
      (height : ℕ) (r : Request) (n : Node C) → Holds height (get_digest r) (stored height r n)
  stored-Holds height r n = record {
    request = r;
    at_height = lookup-insert_self height (get_digest r) n.height_to_digest;
    pooled = lookup-insert_self (get_digest r) r n.request_pool;
    digest = refl;
  }

  stored-keeps :
      (height k : ℕ) (d : Bytes) (r : Request) (n : Node C)
      → k < height
      → Holds k d n
      → Holds k d (stored height r n)
  stored-keeps height k d r n lt h = elim (Bool-cases (get_digest r == d)) [
    | inl same ↦ record {
      request = r;
      at_height = kept;
      pooled = grind (arith, lookup-insert (get_digest r) d r n.request_pool);
      digest = (eq_iff (get_digest r) d).0 same;
    }
    | inr other ↦ record {
      request = h.request;
      at_height = kept;
      pooled = grind (arith, lookup-insert (get_digest r) d r n.request_pool, h.pooled);
      digest = h.digest;
    }
  ]
    where
      kept : GoMap.lookup k (stored height r n).height_to_digest ≡ some d
      kept = grind (
        arith,
        lookup-insert height k (get_digest r) n.height_to_digest,
        eq_iff height k,
        h.at_height,
      )

  add_u64-suc : (h : ℕ) → suc h < 2 ^ 64 → add_u64 h 1 ≡ suc h
  add_u64-suc h lt = omega arith

  store_old-keeps :
      (height k : ℕ) (d : Bytes) (rs : List Request) (n : Node C)
      → k < height
      → height + length rs < 2 ^ 64
      → Holds k d n
      → Holds k d (store_old get_digest ihm height rs n)
  unfolding store_old
  store_old-keeps height k d [] n lt fits h = h
  store_old-keeps height k d (r ∷ rs) n lt fits h =
      subst (λ j. Holds k d (store_old get_digest ihm j rs (stored height r n)))
        (sym (add_u64-suc height (omega arith)))
        (store_old-keeps (suc height) k d rs (stored height r n) (omega arith) (omega arith)
          (stored-keeps height k d r n lt h))

  collect_old-Holds :
      (k height : ℕ) (d : Bytes) (n : Node C)
      → Holds height d n
      → map get_digest (collect_old get_digest ihm (suc k) height n)
        ≡ d ∷ map get_digest (collect_old get_digest ihm k (suc height) n)
  unfolding collect_old
  collect_old-Holds k height d n h =
      rw (h.at_height, h.pooled, collect_old)
        (ap (λ x. x ∷ map get_digest (collect_old get_digest ihm k (suc height) n)) h.digest)

  -- A node that stores an answer from a height on, below the end of the 64-bit heights, would answer a
  -- request for the same heights with as many requests, of the same digests, in the same order.
  pub collect_old-store_old :
      (height : ℕ) (rs : List Request) (n : Node C)
      → height + length rs < 2 ^ 64
      → map get_digest
          (collect_old get_digest ihm (length rs) height (store_old get_digest ihm height rs n))
        ≡ map get_digest rs
  unfolding store_old collect_old
  collect_old-store_old height [] n fits = refl
  collect_old-store_old height (r ∷ rs) n fits =
      subst
        (λ j.
          map get_digest (
            collect_old get_digest ihm (suc (length rs)) height
              (store_old get_digest ihm j rs (stored height r n)))
          ≡ get_digest r ∷ map get_digest rs)
        (sym (add_u64-suc height (omega arith)))
        (collect_old-Holds (length rs) height (get_digest r) _ (
            store_old-keeps (suc height) height (get_digest r) rs (stored height r n) (omega arith)
              (omega arith) (stored-Holds height r n))
          ∙ ap (λ xs. get_digest r ∷ xs)
              (collect_old-store_old (suc height) rs (stored height r n) (omega arith)))
