-- ===== src/Tests/Storage.antt =====
-- Transactions on a vault with two notes.
use autonomic_obsidian_kb.Prelude.{
  value_error, String, ◌≡◌, refl, Bool, true, false, none, some, List, [], ◌∷◌, arith, eqb,
  if◌then◌else◌, nat_eq, string_eq, list_eq, lookup, insert, remove, keys, type_error, Result, ok,
  raise,
}
use autonomic_obsidian_kb.Storage.Disk.{FilePath, Disk, find, read}
use autonomic_obsidian_kb.Storage.Walk.{is_semantic, is_note, is_ledger}
use autonomic_obsidian_kb.Storage.Journal.{Recorded, Vault}
use autonomic_obsidian_kb.Storage.Transaction.{
  rolled_back_path, snapshot_path, snapshot, restore, snapshot_file, set_aside, restore_one,
}
use autonomic_obsidian_kb.Storage.Session.{
  prune_local_copies, recover_transactions, semantic_transaction, begin, run_body, roll_back,
  discard, discard_finished_journals, write_journal,
}
use autonomic_obsidian_kb.Storage.Actions.{Action, write, delete, edit, run_actions, run_action}
use autonomic_obsidian_kb.Storage.Snapshot.{IsSound}
use autonomic_obsidian_kb.Storage.Snapped.{IsFresh}
use autonomic_obsidian_kb.Storage.Rollback.{failing}
use autonomic_obsidian_kb.Storage.Commit.{transaction-commits, transaction_blocked}
use autonomic_obsidian_kb.Storage.Journal.{Row}
use autonomic_obsidian_kb.Storage.Rollback.{entered}
use autonomic_obsidian_kb.Storage.Session.{readable_rows, interrupted_early, prepared}
use autonomic_obsidian_kb.Storage.Guarantees.{
  rollback-restores, rollback_keeps_edits, rollback_sets_aside,
}

abbrev a : FilePath
a = "10-notes" ∷ "a.md" ∷ []

abbrev b : FilePath
b = "b.md" ∷ []

abbrev c : FilePath
c = "c.md" ∷ []

abbrev disk : Disk
disk = record {
  names = (a, 0) ∷ (b, 1) ∷ [];
  content = λ i. if eqb i 0 then "first" else "second";
  mtime = λ i. 5;
  next = 2;
  clock = 9;
  hard_links = true;
}

abbrev vault : Vault
vault = record { disk = disk; journals = []; active = false }

-- The definitions that a run computes with.
program : Unit {0}
unfolding semantic_transaction recover_transactions begin run_body roll_back restore discard
    discard_finished_journals write_journal snapshot prune_local_copies insert remove run_actions
    run_action find read rolled_back_path lookup keys is_note snapshot_file is_ledger set_aside
    restore_one
program = tt

sound : IsSound disk
unfolding find lookup keys
sound = record { distinct = (refl, (refl, tt)); bounded = λ p i h. ground arith }

fresh : IsFresh "t1" disk
unfolding find lookup snapshot_path
fresh q = refl

nothing_pending : recover_transactions vault ≡ (ok tt, vault)
unfolding recover_transactions
nothing_pending = refl

-- The KB rewrites one note, removes the other and adds a third.
abbrev script : List Action
script = write a "rewritten" ∷ delete b ∷ write c "created" ∷ []

abbrev never : String → Bool
never name = false

abbrev out : Result (Unit {0}) × Vault
out = semantic_transaction never "t1" (failing script type_error) vault

b_semantic : is_semantic b ≡ true
unfolding is_semantic is_note is_ledger
b_semantic = refl

c_semantic : is_semantic c ≡ true
unfolding is_semantic is_note is_ledger
c_semantic = refl

a_semantic : is_semantic a ≡ true
unfolding is_semantic is_note is_ledger
a_semantic = refl

rollback-restores_example :
    (out.0 ≡ raise type_error)
    × (read out.1.disk b ≡ read disk b)
    × (lookup "t1" out.1.journals ≡ none)
rollback-restores_example =
    rollback-restores (Unit {0}) never "t1" vault script type_error nothing_pending sound fresh refl
      refl b b_semantic

-- An editor saves the first note, which the KB then rewrites.
abbrev edited : List Action
edited = edit a "saved by hand" ∷ script

abbrev snapped : Result (Recorded × Disk)
snapped = snapshot "t1" (prune_local_copies never disk)

table_of : Result (Recorded × Disk) → Recorded
table_of (ok (files, d)) = files
table_of (raise e) = []

disk_of : Result (Recorded × Disk) → Disk
disk_of (ok (files, d)) = d
disk_of (raise e) = disk

abbrev out_edited : Result (Unit {0}) × Vault
out_edited = semantic_transaction never "t1" (failing edited type_error) vault

rollback_keeps_edits_example :
    read out_edited.1.disk a ≡ some ((run_actions edited (disk_of snapped)).content 0)
unfolding program table_of disk_of
rollback_keeps_edits_example =
    rollback_keeps_edits (Unit {0}) never "t1" vault edited type_error (table_of snapped)
      (disk_of snapped) nothing_pending sound fresh refl refl refl a 0 a_semantic refl

rollback_sets_aside_example :
    (read out_edited.1.disk c ≡ none)
    × (read out_edited.1.disk (rolled_back_path "t1" c)
        ≡ read (run_actions edited (disk_of snapped)) c)
unfolding program table_of disk_of
rollback_sets_aside_example =
    rollback_sets_aside (Unit {0}) never "t1" vault edited type_error (table_of snapped)
      (disk_of snapped) nothing_pending sound fresh refl refl refl c c_semantic refl refl

-- The note has what the editor saved, and the new note is set aside.
rollback_run :
    (read out_edited.1.disk a ≡ some "saved by hand")
    × (read out_edited.1.disk b ≡ some "second")
    × (read out_edited.1.disk (rolled_back_path "t1" c) ≡ some "created")
unfolding program
rollback_run = (refl, refl, refl)

abbrev committing : Vault → Result (Unit {0}) × Vault
committing v = (ok tt, record v { disk = run_actions script v.disk })

abbrev committed : Result (Unit {0}) × Vault
committed = semantic_transaction never "t1" committing vault

transaction-commits_example :
    (committed.0 ≡ ok tt)
    × (read committed.1.disk a
        ≡ read
            (committing (
              entered
                (Unit {0})
                never
                "t1"
                committing
                vault
                (table_of snapped)
                (disk_of snapped))).1.disk
            a)
    × (lookup "t1" committed.1.journals ≡ none)
unfolding program table_of disk_of
transaction-commits_example =
    transaction-commits (Unit {0}) never "t1" vault
      (committing
        (entered (Unit {0}) never "t1" committing vault (table_of snapped) (disk_of snapped))).1
      committing tt (table_of snapped) (disk_of snapped) nothing_pending refl refl a a_semantic

commit_run : read committed.1.disk a ≡ some "rewritten"
unfolding program
commit_run = refl

abbrev interrupted : Row
interrupted = prepared (some []) []

-- A vault in which a transaction was interrupted.
abbrev stopped : Vault
stopped = record { disk = disk; journals = ("t0", some interrupted) ∷ []; active = false }

transaction_blocked_example :
    (message : String) × ((semantic_transaction never "t1" committing stopped).0
      ≡ raise (value_error message))
    × (read (semantic_transaction never "t1" committing stopped).1.disk a ≡ read disk a)
unfolding readable_rows interrupted_early
transaction_blocked_example =
    transaction_blocked (Unit {0}) never "t1" stopped committing (("t0", interrupted) ∷ []) refl
      refl refl a a_semantic
