-- ===== src/Gate/Isolation.antt =====
-- What the scope gate of scoring.py keeps apart: repositories, branches, tasks and sessions.
use autonomic_obsidian_kb.Prelude.{
  String, ◌≡◌, refl, ◌⊎◌, true, false, List, arith, ◌==◌, eq_iff, test_of_ne, nat_eq, string_eq,
  list_eq, is_in, is_set,
}
use autonomic_obsidian_kb.Models.Floats.{Floats}
use autonomic_obsidian_kb.Models.Note.{Note}
use autonomic_obsidian_kb.Models.Task.{TaskContext}
use autonomic_obsidian_kb.Gate.Externals.{Externals}
use autonomic_obsidian_kb.Gate.Scope.{
  scope_gate, note_field, legacy_repository_names, repository_bound_scopes, refuse,
}

apart :
    (s t : String) (xs : List String) → is_in t xs ≡ false → is_in s xs ≡ true → (s == t) ≡ false
apart s t xs h k = test_of_ne s t (λ e. cc)

module _ (fl : Floats) (ex : Externals) (note : Note fl.F) (context : TaskContext) where
  open ex use {render}

  id : String
  id = note_field fl ex "repository_id" note.repository_id note.metadata

  name : String
  name = note_field fl ex "repo" note.repo note.metadata

  -- The identity of a note, as the gate takes it for the context's.
  pub SameRepository : Type 0
  SameRepository =
      (note_field fl ex "repository_id" note.repository_id note.metadata ≡ context.repository_id)
      ⊎ ((is_set (note_field fl ex "repository_id" note.repository_id note.metadata) ≡ false)
          × (is_set (note_field fl ex "repo" note.repo note.metadata) ≡ true)
          × ((is_set context.repo ≡ false)
              ⊎ (is_in (note_field fl ex "repo" note.repo note.metadata)
                    (legacy_repository_names fl ex context)
                  ≡ true)))

  isolated :
      is_in note.scope repository_bound_scopes ≡ true
      → (note.scope == "global") ≡ false
      → (note.scope == "user") ≡ false
      → is_set context.repository_id ≡ true
      → (scope_gate fl ex note context false).accepted ≡ true
      → SameRepository
  unfolding scope_gate SameRepository refuse
  isolated bound g u set h = ground (
    arith,
    eq_iff (note_field fl ex "repository_id" note.repository_id note.metadata)
        context.repository_id,
  )

-- A memory of scope repository, project, module or branch passes the scope gate of a task whose
-- repository is identified, cross-repository reads not allowed, only if it names that repository's
-- identity; or names no identity but a repository name, and the task has no repository name or that
-- name is among its legacy names.
pub scope_gate_isolates :
    (fl : Floats) (ex : Externals) (note : Note fl.F) (context : TaskContext)
    → is_in note.scope repository_bound_scopes ≡ true
    → is_set context.repository_id ≡ true
    → (scope_gate fl ex note context false).accepted ≡ true
    → SameRepository fl ex note context
scope_gate_isolates fl ex note context bound set h =
    isolated fl ex note context bound (apart note.scope "global" repository_bound_scopes refl bound)
      (apart note.scope "user" repository_bound_scopes refl bound) set h
