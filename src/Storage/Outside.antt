-- ===== src/Storage/Outside.antt =====
-- Dropping names: `shutil.rmtree` and the pruning of old backups.
use autonomic_obsidian_kb.Prelude.{
  ℕ, String, ◌≡◌, refl, sym, ◌∙◌, subst, inl, inr, Bool, true, false, none, List, [], ◌∷◌, arith,
  if◌then◌else◌, Bool-cases, ◌==◌, eq_iff, eq_of_test, nat_eq, string_eq, list_eq, Distinct, lookup,
  keys, is_in-keys, starts_with,
}
use mathlib.Core.Bool.{false≢true}
use autonomic_obsidian_kb.Storage.Disk.{FilePath, Disk, find}
use autonomic_obsidian_kb.Storage.Walk.{is_semantic, journal_directory}
use autonomic_obsidian_kb.Storage.Transaction.{rolled_back_path}
use autonomic_obsidian_kb.Storage.Session.{
  is_below, names_outside, remove_tree, in_expired_set, prune_local_copies,
}
use autonomic_obsidian_kb.Storage.Snapshot.{IsSound}

module _ (inside : FilePath → Bool) where
  lookup-names_outside :
      (q : FilePath) (l : List (FilePath × ℕ))
      → lookup q (names_outside inside l) ≡ (if inside q then none else lookup q l)
  unfolding names_outside lookup
  lookup-names_outside q [] = ground arith
  lookup-names_outside q ((p, i) ∷ rest) = ground (arith, eq_iff p q, lookup-names_outside q rest)

  Distinct-names_outside :
      (l : List (FilePath × ℕ)) → Distinct (keys l) → Distinct (keys (names_outside inside l))
  unfolding names_outside keys
  Distinct-names_outside [] h = tt
  Distinct-names_outside ((p, i) ∷ rest) h = elim (Bool-cases (inside p)) [
    | inl e ↦ rw e (Distinct-names_outside rest h.1)
    | inr e ↦ rw e (
        (
          ground (
            arith,
            is_in-keys p (names_outside inside rest),
            lookup-names_outside p rest,
            is_in-keys p rest,
          ),
          Distinct-names_outside rest h.1,
        ))
  ]

  outside : Disk → Disk
  outside d = record d { names = names_outside inside d.names }

  outside-IsSound : (d : Disk) → IsSound d → IsSound (outside d)
  unfolding outside find
  outside-IsSound d s = record {
    distinct = Distinct-names_outside d.names s.distinct;
    bounded = λ p i e. ground (arith, lookup-names_outside p d.names, s.bounded p i);
  }

  find-outside :
      (d : Disk) (q : FilePath) → find (outside d) q ≡ (if inside q then none else find d q)
  unfolding outside find
  find-outside d q = lookup-names_outside q d.names

-- A path below the journals or among the backups is no note.
journal-hidden :
    (p q : FilePath) → is_semantic q ≡ true → is_below (journal_directory ∷ p) q ≡ false
unfolding is_below is_semantic starts_with
journal-hidden p [] h = refl
journal-hidden p (x ∷ q) h = elim (Bool-cases (journal_directory == x)) [
  | inl e ↦ absurd (
      false≢true (
        sym (hidden q)
        ∙ subst (λ z. is_semantic (z ∷ q) ≡ true) (sym (eq_of_test journal_directory x e)) h))
  | inr e ↦ rw e refl
]
  where
    hidden : (q : FilePath) → is_semantic (journal_directory ∷ q) ≡ false
    hidden [] = refl
    hidden (y ∷ q) = refl

backup-hidden :
    (expired : String → Bool) (q : FilePath)
    → is_semantic q ≡ true
    → in_expired_set expired q ≡ false
unfolding in_expired_set is_semantic starts_with
backup-hidden expired [] h = refl
backup-hidden expired (x ∷ []) h = refl
backup-hidden expired (x ∷ y ∷ []) h = refl
backup-hidden expired (x ∷ y ∷ z ∷ []) h = refl
backup-hidden expired (x ∷ y ∷ z' ∷ w ∷ q) h = elim (Bool-cases (x == ".kb")) [
  | inl e ↦ absurd (
      false≢true (
        sym hidden ∙ subst (λ z. is_semantic (z ∷ y ∷ z' ∷ w ∷ q) ≡ true) (eq_of_test x ".kb" e) h))
  | inr e ↦ rw e refl
]
  where
    hidden : is_semantic (".kb" ∷ y ∷ z' ∷ w ∷ q) ≡ false
    hidden = refl

module _ (d : Disk) where
  pub find-remove_tree :
      (identity : String) (q : FilePath)
      → is_semantic q ≡ true
      → find (remove_tree (journal_directory ∷ identity ∷ []) d) q ≡ find d q
  unfolding remove_tree outside
  find-remove_tree identity q h =
      find-outside (is_below (journal_directory ∷ identity ∷ [])) d q
      ∙ rw (journal-hidden (identity ∷ []) q h) refl

  pub find-remove_tree_rolled_back :
      (identity : String) (q : FilePath)
      → find (remove_tree (journal_directory ∷ identity ∷ []) d) (rolled_back_path identity q)
        ≡ find d (rolled_back_path identity q)
  unfolding remove_tree outside rolled_back_path is_below
  find-remove_tree_rolled_back identity q =
      find-outside (is_below (journal_directory ∷ identity ∷ [])) d (rolled_back_path identity q)

  pub find-prune :
      (expired : String → Bool) (q : FilePath)
      → is_semantic q ≡ true
      → find (prune_local_copies expired d) q ≡ find d q
  unfolding prune_local_copies outside
  find-prune expired q h =
      find-outside (in_expired_set expired) d q ∙ rw (backup-hidden expired q h) refl

  pub fresh-prune :
      (expired : String → Bool) (q : FilePath)
      → find d q ≡ none
      → find (prune_local_copies expired d) q ≡ none
  unfolding prune_local_copies outside
  fresh-prune expired q h = find-outside (in_expired_set expired) d q ∙ ground arith

  pub prune-IsSound : (expired : String → Bool) → IsSound d → IsSound (prune_local_copies expired d)
  unfolding prune_local_copies outside
  prune-IsSound expired s = outside-IsSound (in_expired_set expired) d s
