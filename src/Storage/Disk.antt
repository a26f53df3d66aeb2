-- ===== src/Storage/Disk.antt =====
-- The file system under a vault, as storage.py and `atomic_write` of util.py use it.
-- A path is its components below the vault. A name stands for an inode, and an inode has one
-- content, so two names of one inode are hard links. Directories are implied by their files.
-- Symbolic links and failing devices are left out. A number, once given to a file, is not given again,
-- as on a real file system while a link to the file is left: a snapshot that links keeps the numbers it
-- recorded in use. Where the snapshot copies instead, a real file system may give a recorded number to
-- another file, which no theorem on a roll back speaks of.
use autonomic_obsidian_kb.Prelude.{
  ℕ, suc, String, Bool, List, Option, none, some, Result, ok, raise, file_not_found_error,
  file_exists_error, os_error, lookup, insert, remove, eqb, if◌then◌else◌, list_eq, list_beq,
  string_eq, is_some,
}

abbrev pub FilePath : Type 0
FilePath = List String

pub record Disk : Type 0 where
  pub names : List (FilePath × ℕ)
  pub content : ℕ → String
  pub mtime : ℕ → ℕ
  pub next : ℕ
  pub clock : ℕ
  pub hard_links : Bool

-- the inode of a name
unfoldable pub find : Disk → FilePath → Option ℕ
find d p = lookup p d.names

-- path.exists()
unfoldable pub exists : Disk → FilePath → Bool
unfolding find
exists d p = is_some (find d p)

-- the text of a file
unfoldable pub read : Disk → FilePath → Option String
unfolding find
read d p = elim (find d p) [ none ↦ none | some i ↦ some (d.content i) ]

unfoldable pub bind : FilePath → ℕ → Disk → Disk
bind p i d = record d { names = insert p i d.names }

-- os.unlink
unfoldable pub unlink : FilePath → Disk → Disk
unlink p d = record d { names = remove p d.names }

abbrev pub update {ℓ} : {A : Type ℓ} → ℕ → A → (ℕ → A) → ℕ → A
update i a f j = if eqb i j then a else f j

-- An in-place write: every name of the inode sees it.
unfoldable pub write_inode : ℕ → String → Disk → Disk
write_inode i text d = record d {
  content = update i text d.content;
  mtime = update i d.clock d.mtime;
}

-- A new file with the text, at a name that it takes from whatever has it.
unfoldable pub create : FilePath → String → ℕ → Disk → Disk
create p text time d = record d {
  names = insert p d.next d.names;
  content = update d.next text d.content;
  mtime = update d.next time d.mtime;
  next = suc d.next;
}

-- `atomic_write`: the text goes to a fresh temporary file, which is then renamed to the path.
unfoldable pub atomic_write : FilePath → String → Disk → Disk
unfolding create
atomic_write p text d = create p text d.clock d

-- os.link
unfoldable pub link : FilePath → FilePath → Disk → Result Disk
unfolding find exists bind
link source destination d = elim (find d source) [
  | none ↦ raise file_not_found_error
  | some i ↦
      if exists d destination
      then raise file_exists_error
      else if d.hard_links
      then ok (bind destination i d)
      else raise os_error
]

-- shutil.copy2: into the destination's inode, if it has one
unfoldable pub copy2 : FilePath → FilePath → Disk → Result Disk
unfolding find create
copy2 source destination d = elim (find d source) [
  | none ↦ raise file_not_found_error
  | some i ↦ elim (find d destination) [
    | none ↦ ok (create destination (d.content i) (d.mtime i) d)
    | some j ↦ ok (record d {
      content = update j (d.content i) d.content;
      mtime = update j (d.mtime i) d.mtime;
    })
  ]
]

-- os.replace: a rename that takes the destination's name
unfoldable pub replace : FilePath → FilePath → Disk → Result Disk
unfolding find bind unlink
replace source destination d = elim (find d source) [
  | none ↦ raise file_not_found_error
  | some i ↦ ok (if list_beq source destination then d else bind destination i (unlink source d))
]
