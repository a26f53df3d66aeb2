-- ===== src/Storage/PutBack.antt =====
-- The second loop of `_restore`: every file of the table gets back its before-state, unless it still
-- has its recorded inode.
use autonomic_obsidian_kb.Prelude.{
  lookup-insert_self, ℕ, ◌≤◌, ◌<◌, String, ◌≡◌, refl, ◌∙◌, subst, inl, inr, Bool, true, false, some,
  List, [], ◌∷◌, arith, if◌then◌else◌, Bool-cases, ◌==◌, eq_iff, eq_of_test, nat_eq, string_eq,
  list_eq, any, All, All-map, lookup-insert, Distinct-insert, ok,
}
use autonomic_obsidian_kb.Storage.Disk.{FilePath, Disk, find, read, bind, create}
use autonomic_obsidian_kb.Storage.Walk.{is_semantic}
use autonomic_obsidian_kb.Storage.Transaction.{
  snapshot_path, recorded_inode, same, restore_file, restore_one, restore_all,
}
use autonomic_obsidian_kb.Storage.Facts.{ne-snapshot, read_of_find, read_of_find-eq}
use autonomic_obsidian_kb.Storage.Snapshot.{IsSound}

-- The disk `d'` differs from `d` at the file `q` only, which has the text.
pub record Put (text : String) (q : FilePath) (d d' : Disk) : Type 0 where
  pub at_file : read d' q ≡ some text
  pub elsewhere : (p : FilePath) → (q == p) ≡ false → find d' p ≡ find d p
  pub content : (i : ℕ) → i < d.next → d'.content i ≡ d.content i
  pub next : d.next ≤ d'.next
  pub sound : IsSound d'

Put-link :
    (q : FilePath) (i : ℕ) (d : Disk) → i < d.next → IsSound d → Put (d.content i) q d (bind q i d)
unfolding bind find
Put-link q i d l s = record {
  at_file = read_of_find (bind q i d) q i (lookup-insert_self q i d.names);
  elsewhere = λ p apart. ground (arith, lookup-insert q p i d.names);
  content = λ j h. refl;
  next = omega arith;
  sound = record {
    distinct = Distinct-insert q i d.names s.distinct;
    bounded = λ p j e. ground (arith, lookup-insert q p i d.names, s.bounded p j);
  };
}

Put-copy :
    (q : FilePath) (text : String) (time : ℕ) (d : Disk)
    → IsSound d
    → Put text q d (create q text time d)
unfolding create find
Put-copy q text time d s = record {
  at_file =
      read_of_find (create q text time d) q d.next (lookup-insert_self q d.next d.names)
      ∙ ground arith;
  elsewhere = λ p apart. ground (arith, lookup-insert q p d.next d.names);
  content = λ j h. ground arith;
  next = omega arith;
  sound = record {
    distinct = Distinct-insert q d.next d.names s.distinct;
    bounded = λ p j e. ground (arith, lookup-insert q p d.next d.names, s.bounded p j);
  };
}

Put-none :
    (q : FilePath) (text : String) (d : Disk) → IsSound d → read d q ≡ some text → Put text q d d
Put-none q text d s h = record {
  at_file = h;
  elsewhere = λ p apart. refl;
  content = λ j l. refl;
  next = omega arith;
  sound = s;
}

-- Whether a path is one of the entries.
abbrev pub among : FilePath → List (FilePath × List ℕ) → Bool
among q entries = any (λ e. e.0 == q) entries

module _ (identity : String) (wanted : FilePath → String) where
  -- An entry whose saved file, and whose original inode, have the wanted text.
  pub record IsReady (d : Disk) (entry : FilePath × List ℕ) : Type 0 where
    pub inode : ℕ
    pub copy : ℕ
    pub protected : is_semantic entry.0 ≡ true
    pub recorded : recorded_inode entry.1 ≡ some inode
    pub saved : find d (snapshot_path identity entry.0) ≡ some copy
    pub inode_exists : inode < d.next
    pub copy_exists : copy < d.next
    pub inode_text : d.content inode ≡ wanted entry.0
    pub copy_text : d.content copy ≡ wanted entry.0

  restore_file-Put :
      (q : FilePath) (copy : ℕ) (d : Disk)
      → find d (snapshot_path identity q) ≡ some copy
      → copy < d.next
      → IsSound d
      → (d' : Disk) × (restore_file (snapshot_path identity q) q d ≡ ok d')
        × Put (d.content copy) q d d'
  unfolding restore_file
  restore_file-Put q copy d h l s = elim (Bool-cases d.hard_links) [
    | inl e ↦ (bind q copy d, ground arith, Put-link q copy d l s)
    | inr e ↦ (
      create q (d.content copy) (d.mtime copy) d,
      ground arith,
      Put-copy q (d.content copy) (d.mtime copy) d s,
    )
  ]

  restore_one-Put :
      (entry : FilePath × List ℕ) (lost : List FilePath) (d : Disk)
      → IsSound d
      → IsReady d entry
      → (d' : Disk) × (restore_one identity entry (lost, d) ≡ ok (lost, d'))
        × Put (wanted entry.0) entry.0 d d'
  unfolding restore_one read
  restore_one-Put (q, recorded) lost d s r =
      let (d', runs, put) = restore_file-Put q r.copy d r.saved r.copy_exists s in
      elim (Bool-cases (same (find d q) (recorded_inode recorded))) [
        | inl e ↦
            (d, rw e refl, Put-none q (wanted q) d s (ground (arith, r.inode_text, r.recorded)))
        | inr e ↦ elim (Bool-cases (same (find d q) (find d (snapshot_path identity q)))) [
          | inl e' ↦
              (d, rw (e, e') refl, Put-none q (wanted q) d s (ground (arith, r.copy_text, r.saved)))
          | inr e' ↦ (d', rw (e, e', r.saved, runs) refl, subst (λ t. Put t q d d') r.copy_text put)
        ]
      ]

  -- The entries that are left stay ready.
  Put-IsReady :
      (q : FilePath) (text : String) (d d' : Disk)
      → is_semantic q ≡ true
      → Put text q d d'
      → (entry : FilePath × List ℕ) → IsReady d entry
      → IsReady d' entry
  Put-IsReady q text d d' s p entry r = record {
    inode = r.inode;
    copy = r.copy;
    protected = r.protected;
    recorded = r.recorded;
    saved =
        p.elsewhere (snapshot_path identity entry.0) (ne-snapshot identity entry.0 q s) ∙ r.saved;
    inode_exists = omega (arith, r.inode_exists, p.next);
    copy_exists = omega (arith, r.copy_exists, p.next);
    inode_text = p.content r.inode r.inode_exists ∙ r.inode_text;
    copy_text = p.content r.copy r.copy_exists ∙ r.copy_text;
  }

  read-Put :
      (q p : FilePath) (text : String) (d d' : Disk)
      → IsSound d
      → Put text q d d'
      → read d' p ≡ (if q == p then some text else read d p)
  read-Put q p text d d' s put = elim (Bool-cases (q == p)) [
    | inl e ↦ rw e (subst (λ z. read d' z ≡ some text) (eq_of_test q p e) put.at_file)
    | inr e ↦
        rw e (read_of_find-eq d d' p (put.elsewhere p e) (λ i h. put.content i (s.bounded p i h)))
  ]

  pub among-is_semantic :
      (q : FilePath) (d : Disk) (entries : List (FilePath × List ℕ))
      → All (IsReady d) entries
      → among q entries ≡ true
      → is_semantic q ≡ true
  among-is_semantic q d [] ready h = cc
  among-is_semantic q d ((p, recorded) ∷ rest) (r, ready) h = elim (Bool-cases (p == q)) [
    | inl e ↦ subst (λ z. is_semantic z ≡ true) (eq_of_test p q e) r.protected
    | inr e ↦ among-is_semantic q d rest ready (ground arith)
  ]

  pub record Restored (entries : List (FilePath × List ℕ)) (lost : List FilePath) (d : Disk)
      : Type 0 where
    pub disk : Disk
    pub runs : restore_all identity entries (lost, d) ≡ ok (lost, disk)
    pub texts :
        (q : FilePath) → read disk q ≡ (if among q entries then some (wanted q) else read d q)
    pub sound : IsSound disk

  pub restore_all-Restored :
      (entries : List (FilePath × List ℕ)) (lost : List FilePath) (d : Disk)
      → IsSound d
      → All (IsReady d) entries
      → Restored entries lost d
  unfolding restore_all
  restore_all-Restored [] lost d s ready = record {
    disk = d;
    runs = refl;
    texts = λ q. refl;
    sound = s;
  }
  restore_all-Restored ((p, recorded) ∷ rest) lost d s (r, ready) =
      let (d', runs, put) = restore_one-Put (p, recorded) lost d s r in
      let ih = restore_all-Restored rest lost d' put.sound (
        All-map (IsReady d) (IsReady d') rest (Put-IsReady p (wanted p) d d' r.protected put)
          ready) in
      record {
        disk = ih.disk;
        runs = rw runs ih.runs;
        texts = λ q. ih.texts q ∙ ground (arith, read-Put p q (wanted p) d d' s put, eq_iff p q);
        sound = ih.sound;
      }
