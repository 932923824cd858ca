-- ===== src/Pbft/Quorum.antt =====
-- consensus_shard/pbft_all: the prepares that a node counts. The counter is a set of addresses of
-- decoded senders, and each decode allocates a new one.
use utxo_block_emulator.Base.{
  ℕ, zero, suc, ◌≤◌, List, [], ◌∷◌, Bool, true, false, none, some, ◌≡◌, Bytes, bytes_eq, nat_eq,
  ltb,
}
use utxo_block_emulator.Base.GoMap.{GoMap, lookup, get_or}
use utxo_block_emulator.Base.Outcome.{ok}
use utxo_block_emulator.Message.{Request, Prepare}
use utxo_block_emulator.Pbft.{Node, InsideMod, Event, receives, prepare, set_2d_map, count, decoded}
use utxo_block_emulator.Pbft.Handlers.{specified_cnt, try_commit}

-- The addresses that voted for a digest.
abbrev pub voters : Bytes → GoMap Bytes (GoMap ℕ Bool) → GoMap ℕ Bool
voters key m = get_or key [] m

-- No address that is still free has voted.
abbrev pub IsFresh : {C : Type 0} → Node C → Type 0
IsFresh n =
    (key : Bytes) (p : ℕ) → n.next_ptr ≤ p → lookup p (voters key n.cnt_prepare_confirm) ≡ none

-- The number of votes for a digest, and whether the node has broadcast its commit.
abbrev pub votes : {C : Type 0} → Bytes → Node C → ℕ
votes d n = count d n.cnt_prepare_confirm

abbrev pub has_committed : {C : Type 0} → Bytes → Node C → Bool
has_committed d n = get_or d false n.is_commit_bordcast

module _ {C X : Type 0} (get_digest : Request → Bytes) (ihm : InsideMod C X) where
  -- The node accepts the prepare: it holds the request, and it is not behind.
  pub record Accepts (msg : Prepare) (n : Node C) : Type 0 where
    pub request : Request
    pub pooled : lookup msg.digest n.request_pool ≡ some request
    pub reached : ltb n.sequence_id msg.seq_id ≡ false
    pub fresh : IsFresh n

  abbrev threshold : Node C → ℕ
  threshold n = specified_cnt get_digest ihm n

  abbrev voted : Prepare → Node C → Node C
  voted msg n = set_2d_map true msg.digest n.next_ptr (decoded n)

  abbrev after : Prepare → Node C → Node C
  after msg n = (try_commit get_digest ihm msg (voted msg n)).0

  module _ (idle : (msg : Prepare) (n : Node C) → ihm.handle_in_prepare msg n ≡ ok n) where
    abbrev pub copies : ℕ → Prepare → List Event
    copies zero msg = []
    copies (suc k) msg = receives (prepare msg) ∷ copies k msg
