-- ===== src/Chain/Bucket.antt =====
-- What chain/ and storage/ use of a bolt bucket, as an interface. A read of a missing key gives nil, a
-- delete of one is no error, and a write under the empty key is an error (`ErrKeyRequired`).
use utxo_block_emulator.Base.{
  List, [], ◌∷◌, ◌≡◌, ◌≢◌, refl, Option, none, some, Bytes, bytes_eq, ◌==◌, if◌then◌else◌,
}
use utxo_block_emulator.Base.GoMap.{
  GoMap, lookup, insert, delete as map_delete, lookup-insert, lookup-delete,
}
use utxo_block_emulator.Base.Outcome.{Outcome, ok, panic}

pub record Bucket (V : Type 0) : Type 1 where
  pub Store : Type 0
  pub get : Store → Bytes → Option V
  pub put : Store → Bytes → V → Store
  pub delete : Store → Bytes → Store
  -- `cursor.First()`, `cursor.Next()`: each key that is there, once
  pub cursor : Store → List (Bytes × V)
  pub get-put :
      (s : Store) (k j : Bytes) (v : V) → get (put s k v) j ≡ (if k == j then some v else get s j)
  pub get-delete :
      (s : Store) (k j : Bytes) → get (delete s k) j ≡ (if k == j then none else get s j)

module _ {V : Type 0} (B : Bucket V) where
  -- `err := b.Put(k, v)`, with `log.Panic(err)` on an error.
  unfoldable pub put_or_panic : B.Store → Bytes → V → Outcome B.Store
  put_or_panic s [] v = panic
  put_or_panic s (b ∷ k) v = ok (B.put s (b ∷ k) v)

  pub put_or_panic_lem :
      (s : B.Store) (k : Bytes) (v : V) → k ≢ [] → put_or_panic s k v ≡ ok (B.put s k v)
  unfolding put_or_panic
  put_or_panic_lem s [] v h = absurd (h refl)
  put_or_panic_lem s (b ∷ k) v h = refl

module _ {V : Type 0} where
  abbrev pub memory_bucket : Bucket V
  memory_bucket = record {
    Store = GoMap Bytes V;
    get = λ s k. lookup k s;
    put = λ s k v. insert k v s;
    delete = λ s k. map_delete k s;
    cursor = λ s. s;
    get-put = λ s k j v. lookup-insert k j v s;
    get-delete = λ s k j. lookup-delete k j s;
  }
