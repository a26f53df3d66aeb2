-- ===== src/Storage/Snapped.antt =====
-- The whole snapshot: it raises nothing, saves every protected file, and leaves the notes alone.
use autonomic_obsidian_kb.Prelude.{
  ℕ, ◌<◌, String, ◌≡◌, refl, ◌∙◌, inl, inr, true, false, ◌||◌, none, some, List, [], ◌∷◌, arith,
  Option-cases, ◌==◌, eq_iff, nat_eq, string_eq, list_eq, All, is_in, Distinct, All-map,
  All-of_is_in, lookup, insert, keys, lookup-insert, is_in-keys, All-insert, ok,
}
use autonomic_obsidian_kb.Storage.Disk.{FilePath, Disk, find}
use autonomic_obsidian_kb.Storage.Walk.{is_semantic, semantic_paths}
use autonomic_obsidian_kb.Storage.Journal.{Recorded}
use autonomic_obsidian_kb.Storage.Transaction.{snapshot_path, stat, snapshot_files}
use autonomic_obsidian_kb.Storage.Facts.{
  snapshot_path-injective, Distinct-semantic_paths, is_in-semantic_paths,
}
use autonomic_obsidian_kb.Storage.Snapshot.{
  IsSound, Extends, IsSaved, save, snapshot_file-save, find-save, save-Extends, save-IsSaved,
  save-IsSaved_self,
}

-- No name of the disk lies in the snapshot directory of the transaction.
abbrev pub IsFresh : String → Disk → Type 0
IsFresh identity d = (q : FilePath) → find d (snapshot_path identity q) ≡ none

module _ (identity : String) (base : Disk) (base_sound : IsSound base) where
  -- A path that the loop has still to save.
  record IsPending (d : Disk) (p : FilePath) : Type 0 where
    inode : ℕ
    is_there : find base p ≡ some inode
    protected : is_semantic p ≡ true
    unsaved : find d (snapshot_path identity p) ≡ none

  save-IsPending :
      (p : FilePath) (i : ℕ) (d : Disk) (q : FilePath)
      → (q == p) ≡ false
      → IsPending d q
      → IsPending (save identity p i d) q
  save-IsPending p i d q apart h = record {
    inode = h.inode;
    is_there = h.is_there;
    protected = h.protected;
    unsaved =
        find-save identity p (snapshot_path identity q) i d
        ∙ ground (
          arith,
          h.unsaved,
          eq_iff (snapshot_path identity p) (snapshot_path identity q),
          snapshot_path-injective identity p q,
          eq_iff q p,
        );
  }

  pub record Snapped (ps : List FilePath) (files : Recorded) (d : Disk) : Type 0 where
    pub table : Recorded
    pub disk : Disk
    pub runs : snapshot_files identity ps (files, d) ≡ ok (table, disk)
    pub extends : Extends identity base disk
    pub saved : All (IsSaved identity base disk) table
    pub domain : (q : FilePath) → is_in q (keys table) ≡ (is_in q ps || is_in q (keys files))

  IsPending-rest :
      (p : FilePath) (i : ℕ) (d : Disk) (ps : List FilePath)
      → is_in p ps ≡ false
      → All (IsPending d) ps
      → All (IsPending (save identity p i d)) ps
  IsPending-rest p i d [] apart h = tt
  IsPending-rest p i d (q ∷ qs) apart h = (
    save-IsPending p i d q (ground (arith, eq_iff q p, eq_iff p q)) h.0,
    IsPending-rest p i d qs (ground arith) h.1,
  )

  snapshot_files-Snapped :
      (ps : List FilePath) (files : Recorded) (d : Disk)
      → Distinct ps
      → All (IsPending d) ps
      → Extends identity base d
      → All (IsSaved identity base d) files
      → Snapped ps files d
  unfolding snapshot_files
  snapshot_files-Snapped [] files d h pending e s = record {
    table = files;
    disk = d;
    runs = refl;
    extends = e;
    saved = s;
    domain = λ q. refl;
  }
  snapshot_files-Snapped (p ∷ ps) files d h (pending, rest) e s =
      let i = pending.inode in
      let l : i < base.next = base_sound.bounded p i pending.is_there in
      let there : find d p ≡ some i = e.notes p pending.protected ∙ pending.is_there in
      let d' = save identity p i d in
      let files' : Recorded = insert p (stat d i) files in
      let ih =
        snapshot_files-Snapped ps files' d' h.1 (IsPending-rest p i d ps h.0 rest)
          (save-Extends identity base p i d (omega (arith, e.next)) e)
          (All-insert (IsSaved identity base d') p (stat d i) files
            (save-IsSaved_self identity base p i d e pending.protected pending.is_there l)
            (All-map (IsSaved identity base d) (IsSaved identity base d') files
              (save-IsSaved identity base p i d pending.unsaved) s)) in
      record {
        table = ih.table;
        disk = ih.disk;
        runs = rw (snapshot_file-save identity p i files d there pending.unsaved) ih.runs;
        extends = ih.extends;
        saved = ih.saved;
        domain = λ q.
            ih.domain q
            ∙ ground (
              arith,
              is_in-keys q files',
              lookup-insert p q (stat d i) files,
              is_in-keys q files,
              eq_iff p q,
              eq_iff q p,
            );
      }

  All-IsPending : IsFresh identity base → All (IsPending base) (semantic_paths base)
  unfolding find
  All-IsPending fresh = All-of_is_in (IsPending base) (semantic_paths base) (λ p m.
      let facts = is_in-semantic_paths base p in
      elim (Option-cases (lookup p base.names)) [
        | inl e ↦ absurd (ground arith)
        | inr (i, e) ↦ record {
          inode = i;
          is_there = e;
          protected = ground arith;
          unsaved = fresh p;
        }
      ])

  pub snapshot-Snapped : IsFresh identity base → Snapped (semantic_paths base) [] base
  snapshot-Snapped fresh =
      snapshot_files-Snapped (semantic_paths base) [] base
        (Distinct-semantic_paths base base_sound.distinct) (All-IsPending fresh)
        (record {
          notes = λ q s. refl;
          content = λ i l. refl;
          next = omega arith;
          hard_links = refl;
          sound = base_sound;
        })
        tt
