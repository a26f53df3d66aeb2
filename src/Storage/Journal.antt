-- ===== src/Storage/Journal.antt =====
-- The transaction journals of storage.py, and the state that a transaction works on.
use autonomic_obsidian_kb.Prelude.{ℕ, String, Bool, List, Option}
use autonomic_obsidian_kb.Storage.Disk.{FilePath, Disk}

-- path → [size, mtime, inode] of each protected file
abbrev pub Recorded : Type 0
Recorded = List (FilePath × List ℕ)

-- The fields of a journal's JSON object that the code reads. `files` is absent, null or a table. A
-- journal whose JSON is no object is left out: the code writes objects only, and such a file makes
-- `_discard_finished_journals` raise an AttributeError.
pub record Row : Type 0 where
  pub state : String
  pub files : Option (Option Recorded)
  pub before : Option (List (FilePath × String))
  pub unavailable : List FilePath

-- `journals` maps the identity of a journal to its row, `none` where the file is unreadable.
-- `active` is `_LOCAL.transactions`: this thread is inside a transaction on the vault.
pub record Vault : Type 0 where
  pub disk : Disk
  pub journals : List (String × Option Row)
  pub active : Bool
