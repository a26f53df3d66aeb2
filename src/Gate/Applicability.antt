-- ===== src/Gate/Applicability.antt =====
-- applicability.py: the gate that binds a memory to times, versions, commits and source files, and
-- the times of util.py and `is_ancestor` of git_context.py that it calls.
use autonomic_obsidian_kb.Prelude.{
  ℕ, String, Bool, true, false, not, ◌&&◌, ◌||◌, Option, none, some, List, [], ◌∷◌, ◌++◌, ltb, leb,
  eqb, if◌then◌else◌, is_some, ◌==◌, nat_eq, string_eq, list_eq, any, lookup, is_set, append,
}
use autonomic_obsidian_kb.Models.Json.{Value, Fields, get, get_set, show, to_list, text_at}
use autonomic_obsidian_kb.Models.Json.Value.{arr, obj}
use autonomic_obsidian_kb.Models.Note.{Note}
use autonomic_obsidian_kb.Models.Task.{TaskContext}
use autonomic_obsidian_kb.Gate.Externals.{Externals}
use Prim.Native.Char.{code}

-- value.replace("Z", "+00:00")
unfoldable pub zone_of_z : String → String
zone_of_z String.[] = ""
zone_of_z (String.◌∷◌ c s) =
    append (if eqb (code c) 90 then "+00:00" else String.◌∷◌ c "") (zone_of_z s)

module _ (ex : Externals) where
  open ex use {render, from_iso, now, in_versions, merge_base, inside, sha256_file}

  unfoldable pub parse_time : String → Option ℕ
  unfolding zone_of_z
  parse_time value = if is_set value then from_iso (zone_of_z value) else none

  -- not start or start <= at
  unfoldable pub started : Option ℕ → ℕ → Bool
  started none at = true
  started (some start) at = leb start at

  -- not end or at < end
  unfoldable pub not_ended : Option ℕ → ℕ → Bool
  not_ended none at = true
  not_ended (some end) at = ltb at end

  unfoldable pub is_time_active : String → String → Option ℕ → Bool
  unfolding parse_time started not_ended
  is_time_active valid_from valid_to at =
      let time : ℕ = elim at [ none ↦ now | some t ↦ t ] in
      started (parse_time valid_from) time && not_ended (parse_time valid_to) time

  -- One value of a list of dependencies: its path and its digest, where it is a dict with both.
  unfoldable pub dependency_of : Value → List (String × String)
  unfolding get_set show
  dependency_of (obj value) =
      let digest : Option Value = elim (get_set "sha256" value) [
        | none ↦ get_set "source_hash" value
        | some d ↦ some d
      ] in
      elim (get_set "path" value) [
        | none ↦ []
        | some path ↦ elim digest [ none ↦ [] | some d ↦ (show render path, show render d) ∷ [] ]
      ]
  dependency_of _ = []

  unfoldable pub dependencies_of : List Value → List (String × String)
  unfolding dependency_of
  dependencies_of [] = []
  dependencies_of (value ∷ values) = dependency_of value ++ dependencies_of values

  unfoldable pub dependencies_at : Option Value → List (String × String)
  unfolding dependencies_of to_list
  dependencies_at none = []
  dependencies_at (some v) = elim v [ arr items ↦ dependencies_of (to_list items) | _ ↦ [] ]

  -- `source_dependencies`, with its default keys
  unfoldable pub source_dependencies : Fields → List (String × String)
  unfolding dependencies_at get
  source_dependencies metadata =
      dependencies_at (get "dependencies" metadata)
      ++ dependencies_at (get "provenance" metadata)
      ++ dependencies_at (get "validators" metadata)

  -- The loop of `dependencies_match`.
  unfoldable pub all_match : String → List (String × String) → Bool × String
  all_match root [] = (true, "source dependencies applicable")
  all_match root ((path, sha256) ∷ rest) =
      if not (inside root path)
      then (false, "source dependency escaped repository")
      else elim (sha256_file root path) [
        | none ↦ (false, "source dependency unavailable")
        | some found ↦
            if not (found == sha256)
            then (false, "source dependency changed")
            else all_match root rest
      ]

  unfoldable pub match_in : Option String → List (String × String) → Bool × String
  unfolding all_match
  match_in none [] = (true, "source dependencies applicable")
  match_in none (d ∷ rest) = (false, "source repository unavailable")
  match_in (some root) dependencies = all_match root dependencies

  unfoldable pub dependencies_match : Fields → Option String → Bool × String
  unfolding match_in source_dependencies
  dependencies_match metadata root = match_in root (source_dependencies metadata)

  unfoldable pub is_ancestor : String → String → String → Bool
  is_ancestor start ancestor descendant =
      if not (is_set ancestor) || not (is_set descendant)
      then false
      else merge_base start ancestor descendant

  -- value and parse_time(value) is None
  unfoldable pub bad_time : String → Bool
  unfolding parse_time
  bad_time value = is_set value && not (is_some (parse_time value))

  -- The tests of the version range; none where they pass.
  unfoldable pub version_check : String → Fields → TaskContext → Option String
  unfolding text_at lookup
  version_check version_range metadata context =
      let package_name = text_at render "version_package" metadata in
      if not (is_set version_range)
      then none
      else if not (is_set package_name)
      then some "version applicability unknown"
      else elim (lookup package_name context.versions) [
        | none ↦ some "version applicability unknown"
        | some version ↦ elim (in_versions version version_range) [
          | none ↦ some "invalid version applicability"
          | some fits ↦ if not fits then some "outside version range" else none
        ]
      ]

  -- root and is_ancestor(root, commit, head)
  unfoldable pub in_lineage : Option String → String → String → Bool
  unfolding is_ancestor
  in_lineage none commit head = false
  in_lineage (some root) commit head = is_ancestor root commit head

  -- The tests of the commit; none where they pass.
  unfoldable pub commit_check : String → Fields → String → Option String → Option String
  unfolding in_lineage source_dependencies
  commit_check commit metadata head root =
      if not (is_set commit)
      then none
      else if not (is_set head)
      then some "commit context unavailable"
      else if commit == head
      then none
      else if not (in_lineage root commit head)
      then some "memory commit is not in active lineage"
      else if not (any (λ d. true) (source_dependencies metadata))
      then some "ancestor memory requires unchanged source dependencies"
      else none

module _ (F : Type 0) (ex : Externals) where
  -- The time of a task: none stands for the present.
  unfoldable pub time_of : TaskContext → Option ℕ
  unfolding parse_time
  time_of context = if is_set context.at then parse_time ex context.at else none

  unfoldable pub applicability_gate : Note F → TaskContext → Option String → Bool × String
  unfolding bad_time is_time_active version_check commit_check dependencies_match time_of
  applicability_gate note context root =
      if bad_time ex context.at || bad_time ex note.valid_from || bad_time ex note.valid_to
      then (false, "invalid temporal boundary")
      else if not (is_time_active ex note.valid_from note.valid_to (time_of context))
      then (false, "outside valid-time interval")
      else elim (version_check ex note.version_range note.metadata context) [
        | some reason ↦ (false, reason)
        | none ↦ elim (commit_check ex note.as_of_commit note.metadata context.head root) [
          | some reason ↦ (false, reason)
          | none ↦ dependencies_match ex note.metadata root
        ]
      ]
