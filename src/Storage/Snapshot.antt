-- ===== src/Storage/Snapshot.antt =====
-- `_snapshot`: what it records and what it leaves as it was.
use autonomic_obsidian_kb.Prelude.{
  ℕ, ◌≤◌, ◌<◌, String, ◌≡◌, refl, sym, ◌∙◌, inl, inr, true, none, some, List, arith, if◌then◌else◌,
  Bool-cases, ◌==◌, eq_iff, eq_refl, nat_eq, string_eq, list_eq, Distinct, insert, keys,
  lookup-insert, Distinct-insert, ok,
}
use autonomic_obsidian_kb.Storage.Disk.{FilePath, Disk, find, bind, create}
use autonomic_obsidian_kb.Storage.Walk.{is_semantic}
use autonomic_obsidian_kb.Storage.Journal.{Recorded}
use autonomic_obsidian_kb.Storage.Transaction.{snapshot_path, stat, recorded_inode, snapshot_file}
use autonomic_obsidian_kb.Storage.Facts.{snapshot-ne}

-- A disk whose names stand for inodes that exist, each name once.
pub record IsSound (d : Disk) : Type 0 where
  pub distinct : Distinct (keys d.names)
  pub bounded : (p : FilePath) (i : ℕ) → find d p ≡ some i → i < d.next

module _ (identity : String) where
  -- The saved file of a path: another name of its inode, or a copy.
  pub save : FilePath → ℕ → Disk → Disk
  save p i d =
      if d.hard_links
      then bind (snapshot_path identity p) i d
      else create (snapshot_path identity p) (d.content i) (d.mtime i) d

  pub snapshot_file-save :
      (p : FilePath) (i : ℕ) (files : Recorded) (d : Disk)
      → find d p ≡ some i
      → find d (snapshot_path identity p) ≡ none
      → snapshot_file identity p (files, d) ≡ ok (insert p (stat d i) files, save p i d)
  unfolding snapshot_file save
  snapshot_file-save p i files d h fresh = ground arith

  -- Where a saved path is found afterwards.
  pub saved_inode : ℕ → Disk → ℕ
  saved_inode i d = if d.hard_links then i else d.next

  pub find-save :
      (p q : FilePath) (i : ℕ) (d : Disk)
      → find (save p i d) q
        ≡ (if snapshot_path identity p == q then some (saved_inode i d) else find d q)
  unfolding find save bind create saved_inode
  find-save p q i d = elim (Bool-cases d.hard_links) [
    | inl e ↦ rw e (lookup-insert (snapshot_path identity p) q i d.names)
    | inr e ↦ rw e (lookup-insert (snapshot_path identity p) q d.next d.names)
  ]

  next-save : (p : FilePath) (i : ℕ) (d : Disk) → d.next ≤ (save p i d).next
  unfolding save bind create
  next-save p i d = ground arith

  saved_inode-lt :
      (p : FilePath) (i : ℕ) (d : Disk) → i < d.next → saved_inode i d < (save p i d).next
  unfolding save bind create saved_inode
  saved_inode-lt p i d h = ground arith

  content-save :
      (p : FilePath) (i j : ℕ) (d : Disk) → j < d.next → (save p i d).content j ≡ d.content j
  unfolding save bind create
  content-save p i j d h = ground arith

  content-saved_inode :
      (p : FilePath) (i : ℕ) (d : Disk) → (save p i d).content (saved_inode i d) ≡ d.content i
  unfolding save bind create saved_inode
  content-saved_inode p i d = ground arith

  hard_links-save : (p : FilePath) (i : ℕ) (d : Disk) → (save p i d).hard_links ≡ d.hard_links
  unfolding save bind create
  hard_links-save p i d = ground arith

  Distinct-save :
      (p : FilePath) (i : ℕ) (d : Disk)
      → Distinct (keys d.names)
      → Distinct (keys (save p i d).names)
  unfolding save bind create
  Distinct-save p i d h = elim (Bool-cases d.hard_links) [
    | inl e ↦ rw e (Distinct-insert (snapshot_path identity p) i d.names h)
    | inr e ↦ rw e (Distinct-insert (snapshot_path identity p) d.next d.names h)
  ]

  save-IsSound : (p : FilePath) (i : ℕ) (d : Disk) → i < d.next → IsSound d → IsSound (save p i d)
  save-IsSound p i d h s = record {
    distinct = Distinct-save p i d s.distinct;
    bounded = λ q j e.
        ground (arith, find-save p q i d, saved_inode-lt p i d, next-save p i d, s.bounded q j);
  }

  -- What holds of the disk while the snapshot is taken, against the disk at its start.
  pub record Extends (base d : Disk) : Type 0 where
    pub notes : (q : FilePath) → is_semantic q ≡ true → find d q ≡ find base q
    pub content : (i : ℕ) → i < base.next → d.content i ≡ base.content i
    pub next : base.next ≤ d.next
    pub hard_links : d.hard_links ≡ base.hard_links
    pub sound : IsSound d

  -- An entry of the table: its file's inode, and the inode of the saved name.
  pub record IsSaved (base d : Disk) (entry : FilePath × List ℕ) : Type 0 where
    pub inode : ℕ
    pub copy : ℕ
    pub original : find base entry.0 ≡ some inode
    pub protected : is_semantic entry.0 ≡ true
    pub recorded : recorded_inode entry.1 ≡ some inode
    pub saved : find d (snapshot_path identity entry.0) ≡ some copy
    pub inode_exists : inode < base.next
    pub copy_exists : copy < d.next
    pub same_text : d.content copy ≡ base.content inode
    pub linked : d.hard_links ≡ true → copy ≡ inode

  module _ (base : Disk) where
    pub save-Extends :
        (p : FilePath) (i : ℕ) (d : Disk) → i < d.next → Extends base d → Extends base (save p i d)
    save-Extends p i d h e = record {
      notes = λ q s. find-save p q i d ∙ ground (arith, snapshot-ne identity p q s, e.notes q s);
      content = λ j l. content-save p i j d (omega (arith, e.next)) ∙ e.content j l;
      next = omega (arith, e.next, next-save p i d);
      hard_links = hard_links-save p i d ∙ e.hard_links;
      sound = save-IsSound p i d h e.sound;
    }

    -- A saved file stays saved when another is.
    pub save-IsSaved :
        (p : FilePath) (i : ℕ) (d : Disk)
        → find d (snapshot_path identity p) ≡ none
        → (entry : FilePath × List ℕ) → IsSaved base d entry
        → IsSaved base (save p i d) entry
    save-IsSaved p i d fresh entry s = record {
      inode = s.inode;
      copy = s.copy;
      original = s.original;
      protected = s.protected;
      recorded = s.recorded;
      saved =
          find-save p (snapshot_path identity entry.0) i d
          ∙ ground
              (arith, eq_iff (snapshot_path identity p) (snapshot_path identity entry.0), s.saved);
      inode_exists = s.inode_exists;
      copy_exists = omega (arith, s.copy_exists, next-save p i d);
      same_text = content-save p i s.copy d s.copy_exists ∙ s.same_text;
      linked = λ l. s.linked (sym (hard_links-save p i d) ∙ l);
    }

    pub save-IsSaved_self :
        (p : FilePath) (i : ℕ) (d : Disk)
        → Extends base d
        → is_semantic p ≡ true
        → find base p ≡ some i
        → i < base.next
        → IsSaved base (save p i d) (p, stat d i)
    unfolding stat recorded_inode
    save-IsSaved_self p i d e s h l = record {
      inode = i;
      copy = saved_inode i d;
      original = h;
      protected = s;
      recorded = refl;
      saved = find-save p (snapshot_path identity p) i d ∙ rw eq_refl refl;
      inode_exists = l;
      copy_exists = saved_inode-lt p i d (omega (arith, e.next));
      same_text = content-saved_inode p i d ∙ e.content i l;
      linked = λ k. unfold saved_inode in rw (sym (hard_links-save p i d) ∙ k) refl;
    }
