-- ===== src/Chain/TrieDb.antt =====
-- What chain/ uses of go-ethereum's trie package, as an interface: a database of nodes, tries that
-- are opened at a root, read, written and committed. The values are accounts; the source stores their
-- gob encoding, which decodes to the account.
use utxo_block_emulator.Base.{
  ◌≡◌, refl, sym, ap, ◌∙◌, List, [], ◌∷◌, ◌++◌, Option, none, some, Bytes, bytes_eq, ◌==◌, length,
  get_elem?, if◌then◌else◌, Bool, true, false, not, ◌||◌, Bool-cases, inl, inr, some-inj,
  Option-cases, arith, eq_iff, Option-cases,
}
use utxo_block_emulator.Base.GoMap.{GoMap, lookup, insert, lookup-insert}
use utxo_block_emulator.Base.Outcome.{Outcome, ok, panic, or_panic, ◌>>=◌}

pub record TrieDb (V : Type 0) : Type 1 where
  pub Db : Type 0
  pub Trie : Type 0
  -- `trie.New(trie.TrieID(root), db)`, which fails where the root's nodes are missing
  pub open_at : Db → Bytes → Option Trie
  pub get : Trie → Bytes → Option V
  pub update : Trie → Bytes → V → Trie
  -- Whether an update has changed the trie since it was opened. One that writes the bytes that are there
  -- already does not.
  pub is_dirty : Trie → Bool
  -- `Commit` of a trie that has changed, and `Update` and `Commit` of the database: the new root, and
  -- the database with its nodes
  pub commit : Db → Trie → Bytes × Db
  pub get-update :
      (t : Trie) (k j : Bytes) (v : V) → get (update t k v) j ≡ (if k == j then some v else get t j)
  -- A committed trie can be opened at its root and holds what was written.
  pub open-commit :
      (d : Db) (t : Trie)
      → (t' : Trie) × (open_at (commit d t).1 (commit d t).0 ≡ some t')
        × ((k : Bytes) → get t' k ≡ get t k)
  pub open-is_dirty :
      (d : Db) (root : Bytes) (t : Trie) → open_at d root ≡ some t → is_dirty t ≡ false
  -- What is clean after an update was clean before, and held that value.
  pub update-is_dirty :
      (t : Trie) (k : Bytes) (v : V)
      → is_dirty (update t k v) ≡ false
      → (is_dirty t ≡ false) × (get t k ≡ some v)

module _ {V : Type 0} (D : TrieDb V) where
  open D use {Db, Trie, open_at, get}

  -- What the trie at a root holds; nothing where it cannot be opened.
  abbrev pub get_at : Db → Bytes → Bytes → Option V
  get_at d root k = elim (open_at d root) [ none ↦ none | some t ↦ get t k ]

  -- `st.Commit(false)` and `triedb.Update(trie.NewWithNodeSet(ns))`: the node set of a clean trie is nil,
  -- which NewWithNodeSet reads.
  unfoldable pub commit_nodes : Db → Trie → Outcome (Bytes × Db)
  commit_nodes d t = if D.is_dirty t then ok (D.commit d t) else panic

  pub commit_nodes-ok :
      (d : Db) (t : Trie) → D.is_dirty t ≡ true → commit_nodes d t ≡ ok (D.commit d t)
  unfolding commit_nodes
  commit_nodes-ok d t e = rw e refl

  -- The root and the database after the trie at `root` has been opened, changed by `f` and committed.
  unfoldable pub change : (Trie → Trie) → Db → Bytes → Outcome (Bytes × Db)
  unfolding commit_nodes
  change f d root = do t ← or_panic (open_at d root); commit_nodes d (f t)

  pub change_lem :
      (f : Trie → Trie) (d : Db) (root : Bytes) (t : Trie)
      → open_at d root ≡ some t
      → D.is_dirty (f t) ≡ true
      → (root' : Bytes) × (d' : Db) × (change f d root ≡ ok (root', d'))
        × ((k : Bytes) → get_at d' root' k ≡ get (f t) k)
  unfolding change
  change_lem f d root t e changed =
      let (t', opened, same) = D.open-commit d (f t) in
      (
        (D.commit d (f t)).0,
        (D.commit d (f t)).1,
        rw (e, commit_nodes-ok d (f t) changed) refl,
        λ k. rw (opened, get_at) (same k),
      )

  -- Where a change succeeds, the trie had changed.
  pub change-is_dirty :
      (f : Trie → Trie) (d d' : Db) (root root' : Bytes) (t : Trie)
      → open_at d root ≡ some t
      → change f d root ≡ ok (root', d')
      → D.is_dirty (f t) ≡ true
  unfolding change commit_nodes
  change-is_dirty f d d' root root' t e h = elim (Bool-cases (D.is_dirty (f t))) [
    | inl b ↦ b
    | inr b ↦ absurd (ground (arith, (rw (e, b) at h)))
  ]

  -- An update with the value that is there changes nothing.
  pub update-held :
      (st : Trie) (a : Bytes) (v : V)
      → get st a ≡ some v
      → (k : Bytes) → get (D.update st a v) k ≡ get st k
  update-held st a v found k = D.get-update st a k v ∙ elim (Bool-cases (a == k)) [
    | inl hit ↦ rw hit (sym (ap (get st) (sym ((eq_iff a k).0 hit)) ∙ found))
    | inr miss ↦ rw miss refl
  ]

  -- An update with a value that was not there makes the trie dirty.
  pub update-changes :
      (t : Trie) (k : Bytes) (v : V) → (get t k ≡ some v → ⊥) → D.is_dirty (D.update t k v) ≡ true
  update-changes t k v other = elim (Bool-cases (D.is_dirty (D.update t k v))) [
    | inl b ↦ b
    | inr b ↦ absurd (other (D.update-is_dirty t k v b).1)
  ]

-- A database in memory: the i-th committed trie has the root i. A trie has a mark whether it has
-- changed; `same` says that two values have the same bytes.
module _ {V : Type 0} where
  abbrev memory_open : List (GoMap Bytes V) → Bytes → Option (GoMap Bytes V × Bool)
  memory_open d [] = none
  memory_open d (i ∷ r) = elim (get_elem? d i) [ none ↦ none | some t ↦ some (t, false) ]

  abbrev memory_commit : List (GoMap Bytes V) → GoMap Bytes V × Bool → Bytes × List (GoMap Bytes V)
  memory_commit d (t, b) = (length d ∷ [], d ++ (t ∷ []))

  pub last-append :
      (d : List (GoMap Bytes V)) (t : GoMap Bytes V) → get_elem? (d ++ (t ∷ [])) (length d) ≡ some t
  last-append [] t = refl
  last-append (x ∷ d) t = last-append d t

  pub memory_open-is_dirty :
      (d : List (GoMap Bytes V)) (root : Bytes) (t : GoMap Bytes V × Bool)
      → memory_open d root ≡ some t
      → t.1 ≡ false
  memory_open-is_dirty d [] t h = cc
  memory_open-is_dirty d (i ∷ r) t h = elim (Option-cases (get_elem? d i)) [
    | inl e ↦ absurd (ground (arith, (rw (e, memory_open) at h)))
    | inr (m, e) ↦ sym (ap (λ p. p.1) (some-inj (rw (e, memory_open) at h)))
  ]

  module _ (same : V → V → Bool) where
    abbrev pub holds : GoMap Bytes V → Bytes → V → Bool
    holds t k v = elim (lookup k t) [ none ↦ false | some s ↦ same s v ]

    abbrev pub memory_update : GoMap Bytes V × Bool → Bytes → V → GoMap Bytes V × Bool
    memory_update (t, b) k v = (insert k v t, b || not (holds t k v))

    module _ (sound : (a b : V) → same a b ≡ true → a ≡ b) where
      holds-lookup :
          (t : GoMap Bytes V) (k : Bytes) (v : V) → holds t k v ≡ true → lookup k t ≡ some v
      holds-lookup t k v h = elim (Option-cases (lookup k t)) [
        | inl e ↦ absurd (ground (arith, (rw (e, holds) at h)))
        | inr (s, e) ↦ e ∙ ap some (sound s v (rw (e, holds) at h))
      ]

      pub memory_update-is_dirty :
          (t : GoMap Bytes V × Bool) (k : Bytes) (v : V)
          → (memory_update t k v).1 ≡ false
          → (t.1 ≡ false) × (lookup k t.0 ≡ some v)
      memory_update-is_dirty (t, b) k v h = elim (Bool-cases b) [
        | inl e ↦ absurd (ground (arith, (rw e at h)))
        | inr e ↦ (
          e,
          elim (Bool-cases (holds t k v)) [
            | inl held ↦ holds-lookup t k v held
            | inr held ↦ absurd (ground (arith, (rw (e, held) at h)))
          ],
        )
      ]

      abbrev pub memory_db : TrieDb V
      memory_db = record {
        Db = List (GoMap Bytes V);
        Trie = GoMap Bytes V × Bool;
        open_at = memory_open;
        get = λ t k. lookup k t.0;
        update = memory_update;
        is_dirty = λ t. t.1;
        commit = memory_commit;
        get-update = λ t k j v. lookup-insert k j v t.0;
        open-commit = λ d t. ((t.0, false), rw (memory_open, last-append d t.0) refl, λ k. refl);
        open-is_dirty = memory_open-is_dirty;
        update-is_dirty = memory_update-is_dirty;
      }
