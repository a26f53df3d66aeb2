-- ===== src/Storage/Rollback.antt =====
-- `semantic_transaction` whose body fails: what the vault holds afterwards.
use autonomic_obsidian_kb.Prelude.{
  ℕ, String, ◌≡◌, refl, sym, ap, ◌∙◌, Bool, true, Option, none, some, List, [], ◌∷◌, arith,
  if◌then◌else◌, is_some, eq_refl, nat_eq, string_eq, list_eq, all, lookup, insert, remove,
  lookup-remove, Exception, Result, ok, raise,
}
use autonomic_obsidian_kb.Storage.Disk.{FilePath, Disk, find, read}
use autonomic_obsidian_kb.Storage.Walk.{is_semantic, semantic_paths, journal_directory}
use autonomic_obsidian_kb.Storage.Journal.{Recorded, Row, Vault}
use autonomic_obsidian_kb.Storage.Transaction.{rolled_back_path, snapshot}
use autonomic_obsidian_kb.Storage.Session.{
  prune_local_copies, discard_finished_journals, recover_transactions, roll_back, run_body, begin,
  semantic_transaction, recovered_then, discard, remove_tree, write_journal, prepared,
  drop_finished,
}
use autonomic_obsidian_kb.Storage.Actions.{
  Action, run_actions, is_own, is_allowed, Keeps, run_actions-Keeps, run_actions-content,
}
use autonomic_obsidian_kb.Storage.Facts.{read_of_find-eq}
use autonomic_obsidian_kb.Storage.Snapshot.{IsSound, IsSaved}
use autonomic_obsidian_kb.Storage.Snapped.{IsFresh, Snapped, snapshot-Snapped}
use autonomic_obsidian_kb.Storage.Outside.{
  find-remove_tree, find-remove_tree_rolled_back, find-prune, fresh-prune, prune-IsSound,
}
use autonomic_obsidian_kb.Storage.Restoring.{
  HasTexts, restored, restore_runs, restored_notes, restored_new,
}

-- A body that changes files and then raises.
abbrev pub failing : {A : Type 0} → List Action → Exception → Vault → Result A × Vault
failing script e v = (raise e, record v { disk = run_actions script v.disk })

abbrev pub text_of_inode : (ℕ → String) → Option ℕ → String
text_of_inode content none = ""
text_of_inode content (some i) = content i

module _ (A : Type 0) (expired : String → Bool) (identity : String)
    (body : Vault → Result A × Vault) (v : Vault) where
  pub recovered-begin :
      recover_transactions v ≡ (ok tt, v)
      → semantic_transaction expired identity body v ≡ begin expired identity body v
  unfolding semantic_transaction
  recovered-begin h = ap (recovered_then expired identity body) h

  -- The vault when the body starts.
  abbrev pub entered : Recorded → Disk → Vault
  entered files d = record {
    disk = d;
    journals =
        insert identity (some (prepared (some files) []))
          (insert identity (some (prepared none [])) (drop_finished v.journals));
    active = true;
  }

  pub begin-run_body :
      {files : Recorded} {d : Disk}
      → snapshot identity (prune_local_copies expired v.disk) ≡ ok (files, d)
      → begin expired identity body v ≡ (
        (run_body identity files body (entered files d)).0,
        record ((run_body identity files body (entered files d)).1) { active = v.active },
      )
  unfolding begin discard_finished_journals write_journal
  begin-run_body h = rw (h, begin) refl

module _ (A : Type 0) (expired : String → Bool) (identity : String) (v : Vault)
    (script : List Action) (e : Exception) (recovered : recover_transactions v ≡ (ok tt, v))
    (sound : IsSound v.disk) (fresh : IsFresh identity v.disk)
    (allowed : all is_allowed script ≡ true) where
  abbrev pub start : Disk
  start = prune_local_copies expired v.disk

  pub start_sound : IsSound start
  start_sound = prune-IsSound v.disk expired sound

  pub taken : Snapped identity start start_sound (semantic_paths start) [] start
  taken = snapshot-Snapped identity start start_sound (λ q. fresh-prune v.disk expired _ (fresh q))

  abbrev pub reached : Disk
  reached = run_actions script taken.disk

  pub kept : Keeps identity taken.disk reached
  kept = run_actions-Keeps identity script taken.disk allowed taken.extends.sound

  pub taken_runs : snapshot identity start ≡ ok (taken.table, taken.disk)
  unfolding snapshot
  taken_runs = taken.runs

  abbrev pub out : Result A × Vault
  out = semantic_transaction {A = A} expired identity (failing script e) v

  -- The text that the inode of a note has, by the contents given.
  abbrev pub text_of : (ℕ → String) → FilePath → String
  text_of content q = text_of_inode content (find v.disk q)

  text_of_saved :
      (content : ℕ → String) (entry : FilePath × List ℕ)
      (x : IsSaved identity start taken.disk entry)
      → text_of content entry.0 ≡ content x.inode
  text_of_saved content entry x =
      ground (arith, find-prune v.disk expired entry.0 x.protected, x.original)

  -- Without edits the inodes keep their texts.
  pub own_texts :
      all is_own script ≡ true
      → (entry : FilePath × List ℕ) (x : IsSaved identity start taken.disk entry)
      → HasTexts identity start start_sound taken reached kept (text_of v.disk.content) entry x
  unfolding prune_local_copies
  own_texts own entry x = record {
    inode_text =
        run_actions-content script taken.disk x.inode own taken.extends.sound
          (omega (arith, taken.extends.next, x.inode_exists))
        ∙ taken.extends.content x.inode x.inode_exists
        ∙ sym (text_of_saved v.disk.content entry x);
    copy_text =
        run_actions-content script taken.disk x.copy own taken.extends.sound x.copy_exists
        ∙ x.same_text
        ∙ sym (text_of_saved v.disk.content entry x);
  }

  -- A hard link has whatever text its inode has in the end.
  pub linked_texts :
      v.disk.hard_links ≡ true
      → (entry : FilePath × List ℕ) (x : IsSaved identity start taken.disk entry)
      → HasTexts identity start start_sound taken reached kept (text_of reached.content) entry x
  unfolding prune_local_copies
  linked_texts links entry x = record {
    inode_text = sym (text_of_saved reached.content entry x);
    copy_text =
        ap reached.content (x.linked (taken.extends.hard_links ∙ links))
        ∙ sym (text_of_saved reached.content entry x);
  }

  module _ (wanted : FilePath → String)
      (texts : (entry : FilePath × List ℕ) (x : IsSaved identity start taken.disk entry)
        → HasTexts identity start start_sound taken reached kept wanted entry x) where
    pub back : Disk
    back = (restored identity start start_sound taken reached kept wanted texts).disk

    abbrev pub journals : List (String × Option Row)
    journals =
        insert identity (some (prepared (some taken.table) []))
          (insert identity (some (prepared none [])) (drop_finished v.journals))

    abbrev pub after : Vault
    after = record {
      disk = remove_tree (journal_directory ∷ identity ∷ []) back;
      journals = remove identity journals;
      active = v.active;
    }

    rolled :
        roll_back {A = A} identity taken.table e
          (record { disk = reached; journals = journals; active = true })
        ≡ (raise e, record after { active = true })
    unfolding roll_back discard back
    rolled =
        rw (restore_runs identity start start_sound taken reached kept wanted texts, roll_back) refl

    pub out-after : out ≡ (raise e, after)
    unfolding run_body
    out-after =
        recovered-begin A expired identity (failing script e) v recovered
        ∙ begin-run_body A expired identity (failing script e) v taken_runs
        ∙ ap
            (λ (r : Result A × Vault).
              let (result, w) = r in (result, record w { active = v.active }))
            rolled

    -- What a note, or a rolled-back file, reads afterwards.
    read-after :
        (q : FilePath)
        → find (remove_tree (journal_directory ∷ identity ∷ []) back) q ≡ find back q
        → read out.1.disk q ≡ read back q
    unfolding remove_tree
    read-after q h =
        ap (λ (r : Result A × Vault). read r.1.disk q) out-after
        ∙ read_of_find-eq back (remove_tree (journal_directory ∷ identity ∷ []) back) q h
            (λ i k. refl)

    pub notes-after :
        (q : FilePath)
        → is_semantic q ≡ true
        → read out.1.disk q ≡ (if is_some (find v.disk q) then some (wanted q) else none)
    unfolding back
    notes-after q h =
        read-after q (find-remove_tree back identity q h)
        ∙ restored_notes identity start start_sound taken reached kept wanted texts q h
        ∙ rw (find-prune v.disk expired q h) refl

    pub new-after :
        (q : FilePath)
        → is_semantic q ≡ true
        → find v.disk q ≡ none
        → is_some (find reached q) ≡ true
        → read out.1.disk (rolled_back_path identity q) ≡ read reached q
    unfolding back
    new-after q h absent present =
        read-after (rolled_back_path identity q) (find-remove_tree_rolled_back back identity q)
        ∙ restored_new identity start start_sound taken reached kept wanted texts q h
            (find-prune v.disk expired q h ∙ absent) present

    pub journal-after : lookup identity out.1.journals ≡ none
    journal-after =
        ap (λ (r : Result A × Vault). lookup identity r.1.journals) out-after
        ∙ lookup-remove identity identity journals
        ∙ rw (eq_refl identity) refl
