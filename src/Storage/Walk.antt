-- ===== src/Storage/Walk.antt =====
-- `_walk`, `vault_markdown_paths` and `semantic_paths` of storage.py: which files of the vault a
-- transaction protects. The order of the walk is that of the names in the model.
use autonomic_obsidian_kb.Prelude.{
  String, Bool, true, false, not, ◌&&◌, ◌||◌, List, [], ◌∷◌, ◌++◌, filter, is_in, keys, starts_with,
  ends_with, ◌==◌, string_eq, list_eq,
}
use autonomic_obsidian_kb.Storage.Disk.{FilePath, Disk}

abbrev pub excluded_directories : List String
excluded_directories = "__pycache__" ∷ "node_modules" ∷ []

abbrev pub ledger_directory : String
ledger_directory = ".kb-memory-events"

abbrev pub journal_directory : String
journal_directory = ".kb-transactions"

unfoldable pub skipped : Bool → String → Bool
unfolding starts_with
skipped skip_hidden name = skip_hidden && starts_with name "."

-- Whether a walk from a directory yields the file at this path below it.
unfoldable pub walk_yields : String → Bool → FilePath → Bool
unfolding skipped ends_with
walk_yields suffix skip_hidden [] = false
walk_yields suffix skip_hidden (name ∷ []) = not (skipped skip_hidden name) && ends_with name suffix
walk_yields suffix skip_hidden (directory ∷ name ∷ rest) =
    not (skipped skip_hidden directory)
    && not (is_in directory excluded_directories)
    && walk_yields suffix skip_hidden (name ∷ rest)

-- A note that Obsidian would show.
unfoldable pub is_note : FilePath → Bool
unfolding walk_yields
is_note p = walk_yields ".md" true p

-- A record of the operation ledger.
unfoldable pub is_ledger : FilePath → Bool
unfolding walk_yields
is_ledger [] = false
is_ledger (directory ∷ below) = directory == ledger_directory && walk_yields ".json" false below

unfoldable pub is_semantic : FilePath → Bool
unfolding is_note is_ledger
is_semantic p = is_note p || is_ledger p

unfoldable pub vault_markdown_paths : Disk → List FilePath
vault_markdown_paths d = filter is_note (keys d.names)

unfoldable pub semantic_paths : Disk → List FilePath
unfolding vault_markdown_paths
semantic_paths d = vault_markdown_paths d ++ filter is_ledger (keys d.names)
