-- ===== src/Storage/Transaction.antt =====
-- `_snapshot`, `_restore` and `semantic_transaction` of storage.py.
use autonomic_obsidian_kb.Prelude.{
  ℕ, String, Bool, false, not, List, [], ◌∷◌, ◌++◌, Option, none, some, Result, ok, raise,
  file_not_found_error, ◌>>=◌, insert, keys, if◌then◌else◌, list_eq, string_eq, is_some, is_in, eqb,
  join, text_le,
}
use Prim.Native.String.{len}
use autonomic_obsidian_kb.Prelude.Sort.{sort}
use autonomic_obsidian_kb.Storage.Disk.{FilePath, Disk, find, bind, create, link, copy2, replace}
use autonomic_obsidian_kb.Storage.Walk.{journal_directory, semantic_paths}
use autonomic_obsidian_kb.Storage.Journal.{Recorded}

-- vault / JOURNAL_DIRECTORY / identity / relative
unfoldable pub snapshot_path : String → FilePath → FilePath
snapshot_path identity relative = journal_directory ∷ identity ∷ relative

-- vault / ".kb" / "rolled-back" / identity / relative
unfoldable pub rolled_back_path : String → FilePath → FilePath
rolled_back_path identity relative = ".kb" ∷ "rolled-back" ∷ identity ∷ relative

unfoldable pub link_or_copy : FilePath → FilePath → Disk → Result Disk
unfolding link copy2
link_or_copy source destination d = elim (link source destination d) [
  | ok d' ↦ ok d'
  | raise _ ↦ copy2 source destination d
]

unfoldable pub stat : Disk → ℕ → List ℕ
stat d i = len (d.content i) ∷ d.mtime i ∷ i ∷ []

-- One turn of the loop of `_snapshot`; a file that is gone is left out.
unfoldable pub snapshot_file : String → FilePath → Recorded × Disk → Result (Recorded × Disk)
unfolding find link_or_copy stat snapshot_path
snapshot_file identity p (files, d) = elim (find d p) [
  | none ↦ ok (files, d)
  | some i ↦ elim (link_or_copy p (snapshot_path identity p) d) [
    | ok d' ↦ ok (insert p (stat d i) files, d')
    | raise file_not_found_error ↦ ok (files, d)
    | raise e ↦ raise e
  ]
]

unfoldable pub snapshot_files : String → List FilePath → Recorded × Disk → Result (Recorded × Disk)
snapshot_files identity [] state = ok state
snapshot_files identity (p ∷ rest) state =
    snapshot_file identity p state >>= snapshot_files identity rest

-- Link every protected file into the snapshot, and record its size, time and inode.
unfoldable pub snapshot : String → Disk → Result (Recorded × Disk)
unfolding snapshot_files semantic_paths
snapshot identity d = snapshot_files identity (semantic_paths d) ([], d)

-- A file created during a failed transaction is moved out of the notes, and not deleted.
unfoldable pub set_aside : String → FilePath → Disk → Result Disk
unfolding rolled_back_path replace
set_aside identity relative d = replace relative (rolled_back_path identity relative) d

unfoldable pub set_aside_new : String → Recorded → List FilePath → Disk → Result Disk
set_aside_new identity files [] d = ok d
set_aside_new identity files (p ∷ rest) d =
    (if is_in p (keys files) then ok d else set_aside identity p d)
    >>= set_aside_new identity files rest

-- The saved file is linked, or copied, to a fresh temporary name, which is renamed to the target.
unfoldable pub restore_file : FilePath → FilePath → Disk → Result Disk
unfolding find bind create
restore_file saved target d = elim (find d saved) [
  | none ↦ raise file_not_found_error
  | some i ↦
      ok (if d.hard_links then bind target i d else create target (d.content i) (d.mtime i) d)
]

-- recorded[2] if len(recorded) > 2 else None
unfoldable pub recorded_inode : List ℕ → Option ℕ
recorded_inode (size ∷ time ∷ inode ∷ rest) = some inode
recorded_inode _ = none

-- a is not None and b is not None and a == b
unfoldable pub same : Option ℕ → Option ℕ → Bool
same (some a) (some b) = eqb a b
same _ _ = false

-- One turn of the second loop of `_restore`: the missing before-states, and the disk.
unfoldable pub restore_one :
    String → FilePath × List ℕ → List FilePath × Disk → Result (List FilePath × Disk)
unfolding find snapshot_path restore_file recorded_inode same
restore_one identity (relative, recorded) (unavailable, d) =
    let saved = snapshot_path identity relative in
    let current = find d relative in
    if same current (recorded_inode recorded)
    then ok (unavailable, d)
    else if same current (find d saved)
    then ok (unavailable, d)
    else if not (is_some (find d saved))
    then ok (unavailable ++ relative ∷ [], d)
    else (restore_file saved relative d >>= λ d'. ok (unavailable, d'))

unfoldable pub restore_all :
    String → List (FilePath × List ℕ) → List FilePath × Disk → Result (List FilePath × Disk)
restore_all identity [] state = ok state
restore_all identity (entry ∷ rest) state =
    restore_one identity entry state >>= restore_all identity rest

-- sorted(files.items())
unfoldable pub entry_le : FilePath × List ℕ → FilePath × List ℕ → Bool
entry_le (p, _) (q, _) = text_le (join "/" p) (join "/" q)

-- `_restore`: the files whose before-state is missing, and the disk.
unfoldable pub restore : String → Recorded → Disk → Result (List FilePath × Disk)
unfolding semantic_paths set_aside_new restore_all entry_le join sort
restore identity files d = do
  d' ← set_aside_new identity files (semantic_paths d) d
  restore_all identity (sort entry_le files) ([], d')
