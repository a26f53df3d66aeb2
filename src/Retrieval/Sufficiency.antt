-- ===== src/Retrieval/Sufficiency.antt =====
-- sufficiency.py: whether the representations that are delivered cover the roles that a task needs.
use autonomic_obsidian_kb.Prelude.{
  ℕ, String, not, ◌&&◌, none, some, List, [], ◌∷◌, ◌++◌, map, if◌then◌else◌, ◌==◌, nat_eq,
  string_eq, list_eq, all, filter, is_in, lookup, is_set, strip, contains, join, text_le,
}
use autonomic_obsidian_kb.Prelude.Sort.{sort}
use autonomic_obsidian_kb.Prelude.Sets.{non_empty}
use autonomic_obsidian_kb.Models.Json.{Value, get, show}
use autonomic_obsidian_kb.Models.Json.Value.{text}
use autonomic_obsidian_kb.Models.Note.{Note}
use autonomic_obsidian_kb.Retrieval.View.{preconditions, stripped_field}

abbrev pub required_roles : List (String × List String)
required_roles =
    ("debug", "failure" ∷ "fix" ∷ "verification" ∷ [])
    ∷ ("procedure", "preconditions" ∷ "steps" ∷ "verification" ∷ [])
    ∷ ("explain", "claim" ∷ "rationale" ∷ [])
    ∷ ("locate", "location" ∷ [])
    ∷ ("retrieve", "claim" ∷ [])
    ∷ []

abbrev pub type_roles : List (String × List String)
type_roles =
    ("known-failure", "failure" ∷ [])
    ∷ ("solution", [])
    ∷ ("procedure", [])
    ∷ ("command", [])
    ∷ ("workflow", [])
    ∷ ("decision", "claim" ∷ [])
    ∷ ("architecture", "claim" ∷ [])
    ∷ ("repository-map", "location" ∷ [])
    ∷ ("file-map", "location" ∷ [])
    ∷ ("fact", "claim" ∷ [])
    ∷ ("invariant", "claim" ∷ [])
    ∷ []

-- mapping.get(key, set())
unfoldable pub roles_at : String → List (String × List String) → List String
unfolding lookup
roles_at key table = elim (lookup key table) [ none ↦ [] | some roles ↦ roles ]

module _ (F : Type 0) (render : Value → String) (count : String → ℕ) where
  unfoldable pub detail_roles : Note F → String → List String
  unfolding strip contains
  detail_roles note s =
      let detail = strip (note.layer 2) in
      if is_set detail && contains s detail
      then (if is_in note.memory_type ("procedure" ∷ "command" ∷ "workflow" ∷ [])
          then "steps" ∷ []
          else if note.memory_type == "solution"
          then "fix" ∷ []
          else [])
      else []

  -- One pass of the loop over `verification` and `rationale`.
  unfoldable pub field_roles : String → Note F → String → List String
  unfolding stripped_field contains
  field_roles role note s =
      let value = stripped_field F render count role note.metadata in
      if is_set value && contains s value then role ∷ [] else []

  unfoldable pub condition_roles : Note F → String → List String
  unfolding preconditions contains show
  condition_roles note s =
      let conditions = preconditions F render count note.metadata in
      if non_empty conditions && all (λ v. contains s (show render v)) conditions
      then "preconditions" ∷ []
      else []

  -- The roles of a note of which a text is delivered.
  unfoldable pub evidence_roles : Note F → String → List String
  unfolding roles_at detail_roles field_roles condition_roles
  evidence_roles note s =
      (if is_set s then roles_at note.memory_type type_roles else [])
      ++ detail_roles note s
      ++ field_roles "verification" note s
      ++ field_roles "rationale" note s
      ++ condition_roles note s

  -- The union of the roles of the notes with their delivered texts.
  unfoldable pub covered_roles : List (Note F × String) → List String
  unfolding evidence_roles
  covered_roles [] = []
  covered_roles ((note, s) ∷ rest) = evidence_roles note s ++ covered_roles rest

  unfoldable pub assess_sufficiency : String → List (Note F × String) → String × List String
  unfolding roles_at covered_roles sort
  assess_sufficiency intent selected =
      let required = roles_at intent required_roles in
      let missing =
        sort text_le (filter (λ role. not (is_in role (covered_roles selected))) required) in
      if not (non_empty selected)
      then ("insufficient_evidence", sort text_le required)
      else if non_empty missing
      then ("partial_context", missing)
      else ("sufficient_context", [])

  -- A field of the metadata, where it is a text.
  unfoldable pub text_field : String → Note F → List String
  unfolding get
  text_field key note = elim (get key note.metadata) [
    | none ↦ []
    | some v ↦ elim v [ text s ↦ s ∷ [] | _ ↦ [] ]
  ]

  unfoldable pub recorded_roles : Note F → List String
  unfolding evidence_roles text_field preconditions show join
  recorded_roles note = evidence_roles note (
      join "\n" (
        map note.layer (0 ∷ 1 ∷ 2 ∷ 3 ∷ 4 ∷ [])
        ++ note.summary ∷ []
        ++ text_field "verification" note
        ++ text_field "rationale" note
        ++ map (show render) (preconditions F render count note.metadata)))

  unfoldable pub available_roles : List (Note F × String) → List String
  unfolding recorded_roles
  available_roles [] = []
  available_roles ((note, s) ∷ rest) = recorded_roles note ++ available_roles rest

  unfoldable pub unrecorded_roles : List String → List (Note F × String) → List String
  unfolding available_roles
  unrecorded_roles missing selected =
      if not (non_empty selected)
      then []
      else filter (λ role. not (is_in role (available_roles selected))) missing
