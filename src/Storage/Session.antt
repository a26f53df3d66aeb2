-- ===== src/Storage/Session.antt =====
-- `recover_transactions`, `_discard`, `_discard_finished_journals`, `prune_local_copies` and
-- `semantic_transaction` of storage.py. The vault lock makes a transaction one step: nothing but the
-- body, and editors that write during it, runs between its ends.
use autonomic_obsidian_kb.Prelude.{
  String, Bool, true, false, not, ◌&&◌, List, [], ◌∷◌, ◌++◌, Option, none, some, Result, ok, raise,
  Exception, value_error, insert, remove, if◌then◌else◌, list_eq, string_eq, is_some, ◌==◌, append,
  join, is_in,
}
use autonomic_obsidian_kb.Storage.Disk.{FilePath, Disk}
use autonomic_obsidian_kb.Storage.Walk.{journal_directory}
use autonomic_obsidian_kb.Storage.Journal.{Recorded, Row, Vault}
use autonomic_obsidian_kb.Storage.Transaction.{snapshot, restore}

-- Whether a path lies below a directory.
unfoldable pub is_below : FilePath → FilePath → Bool
is_below [] p = true
is_below (x ∷ xs) [] = false
is_below (x ∷ xs) (y ∷ ys) = x == y && is_below xs ys

-- The names outside a set of directories.
unfoldable pub names_outside :
    {V : Type 0} → (FilePath → Bool) → List (FilePath × V) → List (FilePath × V)
names_outside inside [] = []
names_outside inside ((p, v) ∷ rest) =
    let kept = names_outside inside rest in if inside p then kept else (p, v) ∷ kept

-- shutil.rmtree
unfoldable pub remove_tree : FilePath → Disk → Disk
unfolding is_below names_outside
remove_tree directory d = record d { names = names_outside (is_below directory) d.names }

-- `_discard`: the journal and its snapshot directory.
unfoldable pub discard : String → Vault → Vault
unfolding remove_tree
discard identity v = record v {
  disk = remove_tree (journal_directory ∷ identity ∷ []) v.disk;
  journals = remove identity v.journals;
}

-- `_journals` raises on the first journal that cannot be read.
unfoldable pub readable_rows : List (String × Option Row) → Result (List (String × Row))
readable_rows [] = ok []
readable_rows ((identity, none) ∷ rest) = raise (
    value_error
      (append "unreadable transaction journal requires reconciliation: " (append identity ".json")))
readable_rows ((identity, some row) ∷ rest) = elim (readable_rows rest) [
  | ok rows ↦ ok ((identity, row) ∷ rows)
  | raise e ↦ raise e
]

-- "files" in row and row["files"] is None and "before" not in row: nothing had been modified yet
unfoldable pub interrupted_early : Row → Bool
interrupted_early row = elim row.files [
  | none ↦ false
  | some files ↦ not (is_some files) && not (is_some row.before)
]

-- The blocking journals, and the vault without the journals that are safe to drop.
unfoldable pub recover_rows : List (String × Row) → List String → Vault → List String × Vault
unfolding interrupted_early
recover_rows [] blocking v = (blocking, v)
recover_rows ((identity, row) ∷ rest) blocking v =
    let is_prepared = row.state == "prepared" in
    let early = interrupted_early row in
    recover_rows rest
      (if is_prepared && not early then blocking ++ append identity ".json" ∷ [] else blocking)
      (if is_prepared && early then discard identity v else v)

-- The answer for the names of the blocking journals.
unfoldable pub answer_blocking : List String × Vault → Result (Unit {0}) × Vault
answer_blocking ([], v) = (ok tt, v)
answer_blocking (name ∷ names, v) = (
  raise (
      value_error (
        append "interrupted semantic transaction requires reconciliation: "
          (append (join ", " (name ∷ names)) "; run `kb reconcile`"))),
  v,
)

unfoldable pub recover_journals : Vault → Result (List (String × Row)) → Result (Unit {0}) × Vault
unfolding answer_blocking recover_rows
recover_journals v (raise e) = (raise e, v)
recover_journals v (ok rows) = answer_blocking (recover_rows rows [] v)

unfoldable pub recover_transactions : Vault → Result (Unit {0}) × Vault
unfolding readable_rows recover_journals
recover_transactions v =
    if v.active then (ok tt, v) else recover_journals v (readable_rows v.journals)

unfoldable pub finished : Option Row → Bool
finished none = false
finished (some row) = is_in row.state ("committed" ∷ "rolled_back" ∷ [])

unfoldable pub drop_finished : List (String × Option Row) → List (String × Option Row)
unfolding finished
drop_finished [] = []
drop_finished ((identity, row) ∷ rest) =
    let kept = drop_finished rest in if finished row then kept else (identity, row) ∷ kept

unfoldable pub discard_finished_journals : Vault → Vault
unfolding drop_finished
discard_finished_journals v = record v { journals = drop_finished v.journals }

-- Whether a path lies in a backup set that is older than the retention, by the set's name.
unfoldable pub in_expired_set : (String → Bool) → FilePath → Bool
in_expired_set expired (kb ∷ backups ∷ entry ∷ name ∷ rest) =
    kb == ".kb" && backups == "backups" && expired entry
in_expired_set expired _ = false

unfoldable pub prune_local_copies : (String → Bool) → Disk → Disk
unfolding names_outside in_expired_set
prune_local_copies expired d = record d { names = names_outside (in_expired_set expired) d.names }

-- The journal of a transaction that has this table.
abbrev pub prepared : Option Recorded → List FilePath → Row
prepared files unavailable = record {
  state = "prepared";
  files = some files;
  before = none;
  unavailable = unavailable;
}

unfoldable pub write_journal : String → Row → Vault → Vault
write_journal identity row v = record v { journals = insert identity (some row) v.journals }

module _ {A : Type 0} where
  -- `except BaseException` around the body: restore, and keep the journal where files are missing.
  unfoldable pub roll_back : String → Recorded → Exception → Vault → Result A × Vault
  roll_back identity files e v = elim (restore identity files v.disk) [
    | raise e' ↦ (raise e', v)
    | ok (unavailable, d) ↦
        let v' : Vault = record v { disk = d } in
        elim unavailable [
          | [] ↦ (raise e, discard identity v')
          | p ∷ ps ↦ (raise e, write_journal identity (prepared (some files) (p ∷ ps)) v')
        ]
  ]

  -- The `with` block after the snapshot: the body, then commit or roll back.
  unfoldable pub run_body :
      String → Recorded → (Vault → Result A × Vault) → Vault → Result A × Vault
  run_body identity files body v =
      let (result, v') = body v in
      elim result [ ok a ↦ (ok a, discard identity v') | raise e ↦ roll_back identity files e v' ]

  -- After recovery: journal, snapshot, journal again, body. `_LOCAL.transactions` is reset at the end.
  unfoldable pub begin :
      (String → Bool) → String → (Vault → Result A × Vault) → Vault → Result A × Vault
  begin expired identity body v =
      let v₁ = discard_finished_journals v in
      let v₂ : Vault = record v₁ { disk = prune_local_copies expired v₁.disk } in
      let v₃ = write_journal identity (prepared none []) v₂ in
      elim (snapshot identity v₃.disk) [
        | raise e ↦ (raise e, discard identity v₃)
        | ok (files, d) ↦
            let v₄ : Vault = record v₃ { disk = d } in
            let v₅ = write_journal identity (prepared (some files) []) v₄ in
            let (result, v₆) = run_body identity files body (record v₅ { active = true }) in
            (result, record v₆ { active = v.active })
      ]

  -- What follows the recovery of interrupted transactions.
  unfoldable pub recovered_then :
      (String → Bool)
      → String
      → (Vault → Result A × Vault)
      → Result (Unit {0}) × Vault
      → Result A × Vault
  recovered_then expired identity body (raise e, v) = (raise e, v)
  recovered_then expired identity body (ok _, v) = begin expired identity body v

  unfoldable pub semantic_transaction :
      (String → Bool) → String → (Vault → Result A × Vault) → Vault → Result A × Vault
  unfolding recovered_then
  semantic_transaction expired identity body v =
      recovered_then expired identity body (recover_transactions v)
