-- ===== src/Gate/Scope.antt =====
-- `scope_gate` of scoring.py and what it calls.
use autonomic_obsidian_kb.Prelude.{
  String, Bool, true, false, not, ◌&&◌, ◌||◌, none, some, List, [], ◌∷◌, ◌++◌, eqb, if◌then◌else◌,
  ◌==◌, nat_eq, string_eq, list_eq, any, is_in, is_set, starts_with, contains, append,
}
use autonomic_obsidian_kb.Models.Json.{Value, Fields, get, get_set, show, to_list, text_at}
use autonomic_obsidian_kb.Models.Json.Value.{text, arr}
use autonomic_obsidian_kb.Models.Floats.{Floats}
use autonomic_obsidian_kb.Models.Note.{Note}
use autonomic_obsidian_kb.Models.Task.{TaskContext}
use autonomic_obsidian_kb.Gate.Externals.{Externals}
use Prim.Native.Char.{code}

-- value.replace("\\", "/")
unfoldable to_slashes : String → String
to_slashes String.[] = ""
to_slashes (String.◌∷◌ c s) =
    append (if eqb (code c) 92 then "/" else String.◌∷◌ c "") (to_slashes s)

-- while value.startswith("./"): value = value[2:]
unfoldable drop_dots : String → String
drop_dots String.[] = ""
drop_dots (String.◌∷◌ c String.[]) = String.◌∷◌ c ""
drop_dots (String.◌∷◌ c (String.◌∷◌ d s)) =
    let rest = drop_dots s in
    if eqb (code c) 46 && eqb (code d) 47 then rest else String.◌∷◌ c (String.◌∷◌ d s)

-- value.lstrip("/")
unfoldable drop_slashes : String → String
drop_slashes String.[] = ""
drop_slashes (String.◌∷◌ c s) =
    let rest = drop_slashes s in if eqb (code c) 47 then rest else String.◌∷◌ c s

unfoldable pub normalize_path : String → String
unfolding to_slashes drop_dots drop_slashes
normalize_path value = drop_slashes (drop_dots (to_slashes value))

-- value.rstrip("*/")
unfoldable drop_stars : String → String
drop_stars String.[] = ""
drop_stars (String.◌∷◌ c s) =
    let rest = drop_stars s in
    if (eqb (code c) 42 || eqb (code c) 47) && not (is_set rest) then "" else String.◌∷◌ c rest

-- value.rstrip("/")
unfoldable drop_end : String → String
drop_end String.[] = ""
drop_end (String.◌∷◌ c s) =
    let rest = drop_end s in if eqb (code c) 47 && not (is_set rest) then "" else String.◌∷◌ c rest

-- value.rsplit("/", 1)[-1]
unfoldable last_part : String → String
last_part String.[] = ""
last_part (String.◌∷◌ c s) =
    let rest = last_part s in
    if contains s "/" then rest else if eqb (code c) 47 then s else String.◌∷◌ c s

abbrev pub repository_bound_scopes : List String
repository_bound_scopes = "repository" ∷ "project" ∷ "module" ∷ "branch" ∷ []

-- What a gate answers: whether it lets the memory through, why, and the score of the scope.
pub record Verdict (F : Type 0) : Type 0 where
  pub accepted : Bool
  pub reason : String
  pub score : F

module _ (fl : Floats) (ex : Externals) where
  open fl use {F, decimal}
  open ex use {render, path_name, fnmatch}

  unfoldable pub matches_path : String → List String → Bool
  unfolding normalize_path drop_stars starts_with
  matches_path pattern paths =
      let normalized = normalize_path pattern in
      let prefix = drop_stars normalized in
      any
        (λ path.
          fnmatch (normalize_path path) normalized
          || (is_set prefix && starts_with (normalize_path path) (append prefix "/")))
        paths

  -- str(note.get(key) or metadata.get(key) or "")
  unfoldable pub note_field : String → String → Fields → String
  unfolding get_set show
  note_field key column metadata =
      if is_set column
      then column
      else elim (get_set key metadata) [ none ↦ "" | some v ↦ show render v ]

  -- A set of names, as a list.
  unfoldable pub legacy_repository_names : TaskContext → List String
  unfolding starts_with last_part drop_end
  legacy_repository_names context =
      let names = context.repo ∷ path_name context.repo ∷ [] in
      if starts_with context.repository_id "git:"
      then last_part (drop_end context.repository_id) ∷ names
      else names

  -- metadata.get("applies_to", []), in which a text stands for itself alone
  unfoldable pub applies_to : Fields → List Value
  unfolding get to_list
  applies_to metadata = elim (get "applies_to" metadata) [
    | none ↦ []
    | some v ↦ elim v [ text s ↦ text s ∷ [] | arr items ↦ to_list items | _ ↦ [] ]
  ]

  unfoldable pub refuse : String → Verdict F
  refuse reason = record { accepted = false; reason = reason; score = decimal 0 1 }

  unfoldable pub accept : String → F → Verdict F
  accept reason score = record { accepted = true; reason = reason; score = score }

  -- text or "unset"
  unfoldable or_unset : String → String
  or_unset s = if is_set s then s else "unset"

  -- The part of `scope_gate` after the repository's identity is settled.
  unfoldable pub scope_within : Note F → TaskContext → Verdict F
  unfolding refuse accept note_field matches_path applies_to or_unset text_at show
  scope_within note context =
      let scope = note.scope in
      let metadata = note.metadata in
      let note_project = note_field "project" note.project metadata in
      let note_module = note_field "module" note.module_name metadata in
      let note_branch = note_field "branch" note.branch metadata in
      let active_paths = context.requested_paths ++ context.changed_paths in
      if is_in scope ("repository" ∷ "project" ∷ [])
      then if scope == "project"
          && is_set note_project
          && is_set context.project
          && not (note_project == context.project)
        then refuse "project scope mismatch"
        else accept (append scope " scope matched")
            (if scope == "repository" then decimal 83 2 else decimal 77 2)
      else if scope == "module"
      then if is_set note_module && is_set context.module_name && note_module == context.module_name
        then accept "module matched" (decimal 10 1)
        else if any (λ path. true) active_paths
            && any (λ pattern. matches_path (show render pattern) active_paths)
                (applies_to metadata)
        then accept "applicable path matched" (decimal 98 2)
        else refuse "module memory has no active-path match"
      else if scope == "branch"
      then if is_set note_branch && note_branch == context.branch
        then accept "branch matched" (decimal 98 2)
        else refuse (
            append "branch mismatch (" (
              append (or_unset note_branch) (append " != " (append (or_unset context.branch) ")"))))
      else if is_in scope ("task" ∷ "session" ∷ [])
      then (let target = text_at render scope metadata in
          let current = if scope == "task" then context.task_hash else context.session in
          if is_set target && is_set current && target == current
          then accept (append scope " matched") (decimal 10 1)
          else refuse (append scope " memory is not active"))
      else refuse (append "unknown scope " scope)

  unfoldable pub scope_gate : Note F → TaskContext → Bool → Verdict F
  unfolding refuse accept note_field legacy_repository_names scope_within
  scope_gate note context allow_cross_repo =
      let scope = note.scope in
      let note_repo_id = note_field "repository_id" note.repository_id note.metadata in
      let note_repo = note_field "repo" note.repo note.metadata in
      if scope == "global"
      then accept "global scope" (decimal 52 2)
      else if scope == "user"
      then accept "user scope" (decimal 6 1)
      else if is_in scope repository_bound_scopes
          && not (is_set note_repo_id)
          && not (is_set note_repo)
          && is_set context.repository_id
          && not allow_cross_repo
      then refuse "repository-scoped memory has no repository identity"
      else if is_set note_repo_id
          && not (note_repo_id == context.repository_id)
          && not allow_cross_repo
      then refuse "repository identity mismatch"
      else if not (is_set note_repo_id)
          && is_set note_repo
          && is_set context.repo
          && not (is_in note_repo (legacy_repository_names context))
          && not allow_cross_repo
      then refuse (
          append "legacy repo scope mismatch ("
            (append note_repo (append " != " (append context.repo ")"))))
      else scope_within note context
