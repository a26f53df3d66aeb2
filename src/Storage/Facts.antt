-- ===== src/Storage/Facts.antt =====
-- Where the files of a transaction lie: the snapshot and the rolled-back files are no notes, and no
-- note is a record of the ledger.
use autonomic_obsidian_kb.Prelude.{
  ℕ, String, ◌≡◌, refl, ap, inl, inr, true, false, ◌&&◌, none, some, [], ◌∷◌, arith, Option-cases,
  &&_iff, is_some, ◌==◌, eq_iff, eq_of_test, nat_eq, string_eq, list_eq, filter, is_in, Distinct,
  is_in-append, is_in-filter, Distinct-filter, Distinct-append, lookup, keys, is_in-keys,
  starts_with,
}
use autonomic_obsidian_kb.Storage.Disk.{FilePath, Disk, find, read}
use autonomic_obsidian_kb.Storage.Walk.{is_note, is_ledger, is_semantic, semantic_paths}
use autonomic_obsidian_kb.Storage.Transaction.{snapshot_path, rolled_back_path}

semantic-ne : (x q : FilePath) → is_semantic x ≡ false → is_semantic q ≡ true → (x == q) ≡ false
semantic-ne x q hidden h = ground (arith, eq_iff x q)

module _ (identity : String) (p : FilePath) where
  snapshot-hidden : is_semantic (snapshot_path identity p) ≡ false
  unfolding is_semantic snapshot_path starts_with
  snapshot-hidden = refl

  pub rolled_back-hidden : is_semantic (rolled_back_path identity p) ≡ false
  unfolding is_semantic rolled_back_path starts_with
  rolled_back-hidden = refl

  pub snapshot-ne : (q : FilePath) → is_semantic q ≡ true → (snapshot_path identity p == q) ≡ false
  snapshot-ne q h = semantic-ne (snapshot_path identity p) q snapshot-hidden h

  pub rolled_back-ne :
      (q : FilePath) → is_semantic q ≡ true → (rolled_back_path identity p == q) ≡ false
  rolled_back-ne q h = semantic-ne (rolled_back_path identity p) q rolled_back-hidden h

  pub ne-snapshot : (q : FilePath) → is_semantic q ≡ true → (q == snapshot_path identity p) ≡ false
  ne-snapshot q h = ground (arith, eq_iff q (snapshot_path identity p), snapshot-hidden)

  pub rolled_back-ne-snapshot :
      (other : String) (q : FilePath)
      → (rolled_back_path identity p == snapshot_path other q) ≡ false
  unfolding rolled_back_path snapshot_path
  rolled_back-ne-snapshot other q = refl

pub snapshot_path-injective :
    (identity : String) (p q : FilePath)
    → snapshot_path identity p ≡ snapshot_path identity q
    → p ≡ q
unfolding snapshot_path
snapshot_path-injective identity p q e = cc

pub rolled_back_path-injective :
    (identity : String) (p q : FilePath)
    → rolled_back_path identity p ≡ rolled_back_path identity q
    → p ≡ q
unfolding rolled_back_path
rolled_back_path-injective identity p q e = cc

-- A ledger record is hidden, so it is no note.
ledger-not-note : (p : FilePath) → is_ledger p ≡ true → is_note p ≡ false
unfolding is_ledger is_note starts_with
ledger-not-note [] h = cc
ledger-not-note (directory ∷ []) h = ground arith
ledger-not-note (directory ∷ name ∷ rest) h =
    let e : directory ≡ ".kb-memory-events" = eq_of_test _ _ ((&&_iff _ _ h).0) in rw e refl

pub Distinct-semantic_paths : (d : Disk) → Distinct (keys d.names) → Distinct (semantic_paths d)
unfolding semantic_paths
Distinct-semantic_paths d h =
    Distinct-append (filter is_note (keys d.names)) (filter is_ledger (keys d.names))
      (Distinct-filter is_note _ h) (Distinct-filter is_ledger _ h)
      (λ p m. ground (
        arith,
        is_in-filter is_note p (keys d.names),
        is_in-filter is_ledger p (keys d.names),
        ledger-not-note p,
      ))

-- The walk yields exactly the protected names that exist.
pub is_in-semantic_paths :
    (d : Disk) (p : FilePath)
    → is_in p (semantic_paths d) ≡ (is_semantic p && is_some (lookup p d.names))
unfolding semantic_paths is_semantic
is_in-semantic_paths d p = ground (
  arith,
  is_in-append p (filter is_note (keys d.names)) (filter is_ledger (keys d.names)),
  is_in-filter is_note p (keys d.names),
  is_in-filter is_ledger p (keys d.names),
  is_in-keys p d.names,
)

pub read_of_find :
    (d : Disk) (p : FilePath) (i : ℕ) → find d p ≡ some i → read d p ≡ some (d.content i)
unfolding find read
read_of_find d p i h = ground arith

pub read_of_find-none : (d : Disk) (p : FilePath) → find d p ≡ none → read d p ≡ none
unfolding find read
read_of_find-none d p h = ground arith

-- The same names and the same contents give the same texts.
pub read_of_find-eq :
    (d d' : Disk) (p : FilePath)
    → find d' p ≡ find d p
    → ((i : ℕ) → find d p ≡ some i → d'.content i ≡ d.content i)
    → read d' p ≡ read d p
unfolding find read
read_of_find-eq d d' p h same = elim (Option-cases (lookup p d.names)) [
  | inl e ↦ ground arith
  | inr (i, e) ↦ ground (arith, same i e)
]

-- A file that has moved, contents untouched, has its text.
pub read_of_find-moved :
    (d d' : Disk) (p q : FilePath)
    → find d' q ≡ find d p
    → d'.content ≡ d.content
    → read d' q ≡ read d p
unfolding find read
read_of_find-moved d d' p q e c = elim (Option-cases (lookup p d.names)) [
  | inl f ↦ ground arith
  | inr (i, f) ↦ ground (arith, ap (λ (g : ℕ → String). g i) c)
]
