-- ===== src/Storage/Restoring.antt =====
-- `_restore` after a body that kept the snapshot: both loops together.
use autonomic_obsidian_kb.Prelude.{
  ℕ, String, ◌≡◌, refl, ◌∙◌, inl, inr, true, ◌&&◌, none, some, List, [], arith, if◌then◌else◌,
  Bool-cases, is_some, ◌==◌, nat_eq, string_eq, list_eq, All, All-map, All-of_is_in, lookup, keys,
  any-keys, ok,
}
use autonomic_obsidian_kb.Prelude.Sort.{sort, All-sort, any-sort}
use autonomic_obsidian_kb.Storage.Disk.{FilePath, Disk, find, read}
use autonomic_obsidian_kb.Storage.Walk.{is_semantic, semantic_paths}
use autonomic_obsidian_kb.Storage.Transaction.{rolled_back_path, entry_le, restore}
use autonomic_obsidian_kb.Storage.Facts.{
  Distinct-semantic_paths, is_in-semantic_paths, read_of_find-none, read_of_find-moved,
  rolled_back-hidden,
}
use autonomic_obsidian_kb.Storage.Snapshot.{IsSound, IsSaved}
use autonomic_obsidian_kb.Storage.Snapped.{Snapped}
use autonomic_obsidian_kb.Storage.Actions.{Keeps}
use autonomic_obsidian_kb.Storage.SetAside.{Cleared, IsThere, set_aside_new-Cleared}
use autonomic_obsidian_kb.Storage.PutBack.{IsReady, among, Restored, restore_all-Restored}

module _ (identity : String) (base : Disk) (base_sound : IsSound base)
    (s : Snapped identity base base_sound (semantic_paths base) [] base) (d : Disk)
    (k : Keeps identity s.disk d) (wanted : FilePath → String) where
  -- The inode of each protected file, and its saved copy, have the wanted text after the body.
  pub record HasTexts (entry : FilePath × List ℕ) (saved : IsSaved identity base s.disk entry)
      : Type 0 where
    pub inode_text : d.content saved.inode ≡ wanted entry.0
    pub copy_text : d.content saved.copy ≡ wanted entry.0

  module _
      (texts : (entry : FilePath × List ℕ) (x : IsSaved identity base s.disk entry)
        → HasTexts entry x) where
    ready :
        (entry : FilePath × List ℕ)
        → IsSaved identity base s.disk entry
        → IsReady identity wanted d entry
    ready entry x = record {
      inode = x.inode;
      copy = x.copy;
      protected = x.protected;
      recorded = x.recorded;
      saved = k.saved entry.0 ∙ x.saved;
      inode_exists = omega (arith, x.inode_exists, s.extends.next, k.next);
      copy_exists = omega (arith, x.copy_exists, k.next);
      inode_text = (texts entry x).inode_text;
      copy_text = (texts entry x).copy_text;
    }

    All-IsThere : All (IsThere identity d) (semantic_paths d)
    unfolding find
    All-IsThere =
        All-of_is_in (IsThere identity d) (semantic_paths d)
          (λ p m. let facts = is_in-semantic_paths d p in (ground arith, ground arith))

    pub cleared : Cleared identity s.table (semantic_paths d) d
    cleared =
        set_aside_new-Cleared identity s.table (semantic_paths d) d k.sound
          (Distinct-semantic_paths d k.sound.distinct) All-IsThere

    IsReady-cleared :
        (entry : FilePath × List ℕ)
        → IsReady identity wanted d entry
        → IsReady identity wanted cleared.disk entry
    IsReady-cleared entry r = record {
      inode = r.inode;
      copy = r.copy;
      protected = r.protected;
      recorded = r.recorded;
      saved = cleared.saved entry.0 ∙ r.saved;
      inode_exists = rw cleared.next r.inode_exists;
      copy_exists = rw cleared.next r.copy_exists;
      inode_text = rw cleared.content r.inode_text;
      copy_text = rw cleared.content r.copy_text;
    }

    pub All-IsReady : All (IsReady identity wanted cleared.disk) (sort entry_le s.table)
    All-IsReady = All-sort entry_le (IsReady identity wanted cleared.disk) s.table (
        All-map (IsSaved identity base s.disk) (IsReady identity wanted cleared.disk) s.table
          (λ entry x. IsReady-cleared entry (ready entry x)) s.saved)

    pub restored : Restored identity wanted (sort entry_le s.table) [] cleared.disk
    restored =
        restore_all-Restored identity wanted (sort entry_le s.table) [] cleared.disk cleared.sound
          All-IsReady

    among-table :
        (q : FilePath)
        → among q (sort entry_le s.table) ≡ (is_semantic q && is_some (lookup q base.names))
    unfolding keys
    among-table q =
        any-sort entry_le (λ (e : FilePath × List ℕ). e.0 == q) s.table
        ∙ any-keys {K = FilePath} q s.table
        ∙ s.domain q
        ∙ ground (arith, is_in-semantic_paths base q)

    pub restore_runs : restore identity s.table d ≡ ok ([], restored.disk)
    unfolding restore
    restore_runs = rw cleared.runs restored.runs

    pub restored_notes :
        (q : FilePath)
        → is_semantic q ≡ true
        → read restored.disk q ≡ (if is_some (find base q) then some (wanted q) else none)
    unfolding find keys
    restored_notes q h = elim (Bool-cases (is_some (lookup q base.names))) [
      | inl e ↦ restored.texts q ∙ rw (among-table q, h, e) refl
      | inr e ↦
          restored.texts q
          ∙ rw (among-table q, h, e)
              (read_of_find-none cleared.disk q (
                cleared.notes q h
                ∙ ground
                    (arith, is_in-semantic_paths d q, s.domain q, is_in-semantic_paths base q)))
    ]

    -- A note that the transaction created lies among the rolled-back files.
    pub restored_new :
        (q : FilePath)
        → is_semantic q ≡ true
        → find base q ≡ none
        → is_some (find d q) ≡ true
        → read restored.disk (rolled_back_path identity q) ≡ read d q
    restored_new q h absent present =
        restored.texts (rolled_back_path identity q)
        ∙ rw (among-table (rolled_back_path identity q), rolled_back-hidden identity q)
            (read_of_find-moved d cleared.disk q (rolled_back_path identity q)
              (cleared.moved q h (unfold find in ground (arith, is_in-semantic_paths d q))
                (unfold find keys in ground (arith, s.domain q, is_in-semantic_paths base q)))
              cleared.content)
