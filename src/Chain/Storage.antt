-- ===== src/Chain/Storage.antt =====
-- storage/storage.go: the blocks, their headers and the newest block's hash in bolt buckets. Opening the
-- file and making the buckets are the operating system's and bolt's; the gob encodings decode to what
-- was encoded.
use utxo_block_emulator.Base.{
  [], ◌≡◌, ◌≢◌, refl, ◌∙◌, Option, some, Bytes, bytes_eq, ◌==◌, eq_refl, if◌then◌else◌,
}
use utxo_block_emulator.Base.Text.{codes}
use utxo_block_emulator.Base.Outcome.{Outcome, ok, ◌>>=◌}
use utxo_block_emulator.Core.Block.{Block, BlockHeader}
use utxo_block_emulator.Chain.Bucket.{Bucket, put_or_panic, put_or_panic_lem, memory_bucket}

pub record Buckets : Type 1 where
  pub blocks : Bucket Block
  pub headers : Bucket BlockHeader
  pub newest : Bucket Bytes

abbrev pub memory_buckets : Buckets
memory_buckets = record { blocks = memory_bucket; headers = memory_bucket; newest = memory_bucket }

pub record Storage (K : Buckets) : Type 0 where
  pub blocks : K.blocks.Store
  pub headers : K.headers.Store
  pub newest : K.newest.Store

-- The only key of the bucket.
abbrev pub only_newest_block : Bytes
only_newest_block = codes "OnlyNewestBlock"

module _ (K : Buckets) where
  unfoldable pub update_newest_block : Bytes → Storage K → Outcome (Storage K)
  unfolding put_or_panic
  update_newest_block hash s = do
    newest ← put_or_panic K.newest s.newest only_newest_block hash
    ok (record s { newest = newest })

  unfoldable pub add_block_header : Bytes → BlockHeader → Storage K → Outcome (Storage K)
  unfolding put_or_panic
  add_block_header hash bh s = do
    headers ← put_or_panic K.headers s.headers hash bh
    ok (record s { headers = headers })

  unfoldable pub store_block : Block → Storage K → Outcome (Storage K)
  unfolding put_or_panic update_newest_block add_block_header
  store_block b s = do
    blocks ← put_or_panic K.blocks s.blocks b.hash b
    s' ← add_block_header b.hash b.header (record s { blocks = blocks })
    update_newest_block b.hash s'

  -- An error is `none`.
  unfoldable pub get_block_header : Bytes → Storage K → Option BlockHeader
  get_block_header hash s = K.headers.get s.headers hash

  unfoldable pub get_block : Bytes → Storage K → Option Block
  get_block hash s = K.blocks.get s.blocks hash

  unfoldable pub get_newest_block_hash : Storage K → Option Bytes
  get_newest_block_hash s = K.newest.get s.newest only_newest_block

  update_newest_block_lem :
      (hash : Bytes) (s : Storage K)
      → update_newest_block hash s
        ≡ ok (record s { newest = K.newest.put s.newest only_newest_block hash })
  unfolding update_newest_block put_or_panic
  update_newest_block_lem hash s = refl

  get_newest-update :
      (hash : Bytes) (newest : K.newest.Store)
      → K.newest.get (K.newest.put newest only_newest_block hash) only_newest_block ≡ some hash
  get_newest-update hash newest =
      K.newest.get-put newest only_newest_block only_newest_block hash
      ∙ rw (eq_refl only_newest_block) refl

  -- What a storage holds after `AddBlock` of a block with a hash: it is the newest, its block and its
  -- header are found under its hash, and every other hash finds what it found before. Without a hash
  -- bolt refuses the key, and the code panics.
  pub store_block_lem :
      (b : Block) (s : Storage K)
      → b.hash ≢ []
      → (s' : Storage K) × (store_block b s ≡ ok s')
        × (get_newest_block_hash s' ≡ some b.hash)
        × ((h : Bytes) → get_block h s' ≡ (if b.hash == h then some b else get_block h s))
        × ((h : Bytes)
            → get_block_header h s' ≡ (if b.hash == h then some b.header else get_block_header h s))
  unfolding store_block add_block_header get_newest_block_hash get_block get_block_header
  store_block_lem b s h = (
    record {
      blocks = K.blocks.put s.blocks b.hash b;
      headers = K.headers.put s.headers b.hash b.header;
      newest = K.newest.put s.newest only_newest_block b.hash;
    },
    rw
        (
          put_or_panic_lem K.blocks s.blocks b.hash b h,
          put_or_panic_lem K.headers s.headers b.hash b.header h,
          update_newest_block_lem b.hash,
        )
        refl,
    get_newest-update b.hash s.newest,
    λ k. K.blocks.get-put s.blocks b.hash k b,
    λ k. K.headers.get-put s.headers b.hash k b.header,
  )
