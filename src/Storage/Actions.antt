-- ===== src/Storage/Actions.antt =====
-- What happens to the vault's files while a transaction's body runs: what the KB does itself, and an
-- editor that saves a note in place.
use autonomic_obsidian_kb.Prelude.{
  ℕ, ◌≤◌, ◌<◌, String, ◌≡◌, refl, ◌∙◌, inl, inr, Bool, true, false, not, ◌&&◌, none, some, List, [],
  ◌∷◌, arith, if◌then◌else◌, Bool-cases, Option-cases, &&_iff, &&_intro, ◌==◌, nat_eq, string_eq,
  list_eq, all, insert, lookup-insert, lookup-remove, Distinct-insert, Distinct-remove,
}
use native.Mathlib.Nat.{le_trans}
use autonomic_obsidian_kb.Storage.Disk.{
  FilePath, Disk, find, exists, bind, unlink, write_inode, atomic_write,
}
use autonomic_obsidian_kb.Storage.Walk.{journal_directory}
use autonomic_obsidian_kb.Storage.Transaction.{snapshot_path}
use autonomic_obsidian_kb.Storage.Snapshot.{IsSound}

pub data Action : Type 0 where
  -- atomic_write(path, text)
  write : FilePath → String → Action
  -- path.unlink(missing_ok=True)
  delete : FilePath → Action
  -- os.link and unlink, as `move_into` does: a taken name stays with its file
  move : FilePath → FilePath → Action
  -- another program writes into the file
  edit : FilePath → String → Action

unfoldable pub run_action : Action → Disk → Disk
unfolding atomic_write unlink bind write_inode
run_action (write p text) d = atomic_write p text d
run_action (delete p) d = unlink p d
run_action (move p q) d = elim (find d p) [
  | none ↦ d
  | some i ↦ if exists d q then d else unlink p (bind q i d)
]
run_action (edit p text) d = elim (find d p) [ none ↦ d | some i ↦ write_inode i text d ]

unfoldable pub run_actions : List Action → Disk → Disk
run_actions [] d = d
run_actions (a ∷ rest) d = run_actions rest (run_action a d)

-- The path lies outside the journal directory.
abbrev pub is_outside : FilePath → Bool
is_outside [] = true
is_outside (directory ∷ rest) = not (directory == journal_directory)

-- An action of the KB itself, on files outside the journal directory.
abbrev pub is_own : Action → Bool
is_own (write p text) = is_outside p
is_own (delete p) = is_outside p
is_own (move p q) = is_outside p && is_outside q
is_own (edit p text) = false

-- An action of the KB or of an editor, on files outside the journal directory.
abbrev pub is_allowed : Action → Bool
is_allowed (edit p text) = is_outside p
is_allowed a = is_own a

module _ (identity : String) where
  -- The snapshot, the inodes that there were, and the soundness of the names are kept.
  pub record Keeps (d d' : Disk) : Type 0 where
    pub saved :
        (q : FilePath) → find d' (snapshot_path identity q) ≡ find d (snapshot_path identity q)
    pub next : d.next ≤ d'.next
    pub hard_links : d'.hard_links ≡ d.hard_links
    pub sound : IsSound d'

  outside-ne : (p q : FilePath) → is_outside p ≡ true → (p == snapshot_path identity q) ≡ false
  unfolding snapshot_path
  outside-ne [] q h = refl
  outside-ne (x ∷ p) q h = ground arith

  write-Keeps :
      (p : FilePath) (text : String) (d : Disk)
      → is_outside p ≡ true
      → IsSound d
      → Keeps d (run_action (write p text) d)
  unfolding run_action find
  write-Keeps p text d h s = record {
    saved =
        λ q. lookup-insert p (snapshot_path identity q) d.next d.names ∙ rw (outside-ne p q h) refl;
    next = omega arith;
    hard_links = refl;
    sound = record {
      distinct = Distinct-insert p d.next d.names s.distinct;
      bounded = λ q j e. ground (arith, lookup-insert p q d.next d.names, s.bounded q j);
    };
  }

  unlink-IsSound : (p : FilePath) (d : Disk) → IsSound d → IsSound (unlink p d)
  unfolding unlink find
  unlink-IsSound p d s = record {
    distinct = Distinct-remove p d.names s.distinct;
    bounded = λ q j e. ground (arith, lookup-remove p q d.names, s.bounded q j);
  }

  delete-Keeps :
      (p : FilePath) (d : Disk)
      → is_outside p ≡ true
      → IsSound d
      → Keeps d (run_action (delete p) d)
  unfolding run_action find
  delete-Keeps p d h s = record {
    saved = λ q. lookup-remove p (snapshot_path identity q) d.names ∙ rw (outside-ne p q h) refl;
    next = omega arith;
    hard_links = refl;
    sound = unlink-IsSound p d s;
  }

  same-Keeps : (d : Disk) → IsSound d → Keeps d d
  same-Keeps d s = record { saved = λ q. refl; next = omega arith; hard_links = refl; sound = s }

  moved-Keeps :
      (p q : FilePath) (i : ℕ) (d : Disk)
      → is_outside p ≡ true
      → is_outside q ≡ true
      → find d p ≡ some i
      → IsSound d
      → Keeps d (unlink p (bind q i d))
  unfolding unlink bind find
  moved-Keeps p q i d hp hq e s = record {
    saved = λ r.
        lookup-remove p (snapshot_path identity r) (insert q i d.names)
        ∙ rw (outside-ne p r hp)
            (lookup-insert q (snapshot_path identity r) i d.names ∙ rw (outside-ne q r hq) refl);
    next = omega arith;
    hard_links = refl;
    sound = record {
      distinct = Distinct-remove p (insert q i d.names) (Distinct-insert q i d.names s.distinct);
      bounded = λ r j h. ground (
        arith,
        lookup-remove p r (insert q i d.names),
        lookup-insert q r i d.names,
        s.bounded p i,
        s.bounded r j,
      );
    };
  }

  edited-Keeps : (i : ℕ) (text : String) (d : Disk) → IsSound d → Keeps d (write_inode i text d)
  unfolding write_inode find
  edited-Keeps i text d s = record {
    saved = λ q. refl;
    next = omega arith;
    hard_links = refl;
    sound = record { distinct = s.distinct; bounded = s.bounded };
  }

  pub run_action-Keeps :
      (a : Action) (d : Disk) → is_allowed a ≡ true → IsSound d → Keeps d (run_action a d)
  unfolding run_action
  run_action-Keeps (write p text) d h s = write-Keeps p text d h s
  run_action-Keeps (delete p) d h s = delete-Keeps p d h s
  run_action-Keeps (move p q) d h s = elim (Option-cases (find d p)) [
    | inl e ↦ rw (e, run_action) (same-Keeps d s)
    | inr (i, e) ↦ elim (Bool-cases (exists d q)) [
      | inl taken ↦ rw (e, run_action, taken) (same-Keeps d s)
      | inr open_name ↦
          rw (e, run_action, open_name) (moved-Keeps p q i d (&&_iff _ _ h).0 (&&_iff _ _ h).1 e s)
    ]
  ]
  run_action-Keeps (edit p text) d h s = elim (Option-cases (find d p)) [
    | inl e ↦ rw (e, run_action) (same-Keeps d s)
    | inr (i, e) ↦ rw (e, run_action) (edited-Keeps i text d s)
  ]

  pub run_actions-Keeps :
      (script : List Action) (d : Disk)
      → all is_allowed script ≡ true
      → IsSound d
      → Keeps d (run_actions script d)
  unfolding run_actions
  run_actions-Keeps [] d h s = same-Keeps d s
  run_actions-Keeps (a ∷ rest) d h s =
      let k = run_action-Keeps a d (&&_iff _ _ h).0 s in
      let ih : Keeps (run_action a d) (run_actions rest (run_action a d)) =
        run_actions-Keeps rest (run_action a d) (&&_iff _ _ h).1 k.sound in
      record {
        saved = λ q. ih.saved q ∙ k.saved q;
        next = le_trans k.next ih.next;
        hard_links = ih.hard_links ∙ k.hard_links;
        sound = ih.sound;
      }

own-allowed : (a : Action) → is_own a ≡ true → is_allowed a ≡ true
own-allowed (write p text) h = h
own-allowed (delete p) h = h
own-allowed (move p q) h = h
own-allowed (edit p text) h = cc

pub all_own-allowed :
    (script : List Action) → all is_own script ≡ true → all is_allowed script ≡ true
all_own-allowed [] h = refl
all_own-allowed (a ∷ rest) h =
    &&_intro _ _ (own-allowed a (&&_iff _ _ h).0) (all_own-allowed rest (&&_iff _ _ h).1)

-- The KB never writes into an inode that is there.
run_action-content :
    (a : Action) (d : Disk) (i : ℕ)
    → is_own a ≡ true
    → i < d.next
    → (run_action a d).content i ≡ d.content i
unfolding run_action
run_action-content (edit p text) d i h l = cc
run_action-content _ d i h l = ground arith

pub run_actions-content :
    (script : List Action) (d : Disk) (i : ℕ)
    → all is_own script ≡ true
    → IsSound d
    → i < d.next
    → (run_actions script d).content i ≡ d.content i
unfolding run_actions
run_actions-content [] d i h s l = refl
run_actions-content (a ∷ rest) d i h s l =
    let own = (&&_iff _ _ h).0 in
    let k = run_action-Keeps "" a d (own-allowed a own) s in
    run_actions-content rest (run_action a d) i (&&_iff _ _ h).1 k.sound (omega (arith, k.next))
    ∙ run_action-content a d i own l
