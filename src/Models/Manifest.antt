-- ===== src/Models/Manifest.antt =====
-- `RetrievalItem` and `RetrievalManifest` of models.py.
use autonomic_obsidian_kb.Prelude.{
  ℕ, ◌-◌, String, Bool, false, not, ◌||◌, Option, none, some, List, [], ◌∷◌, ◌++◌, if◌then◌else◌,
  nat_eq, string_eq, list_eq, filter, is_in, strip, join, append, strip_right,
}
use autonomic_obsidian_kb.Prelude.Sets.{non_empty}
use autonomic_obsidian_kb.Models.Json.{Value, Fields}
use autonomic_obsidian_kb.Models.Json.Value.{flag, text}
use autonomic_obsidian_kb.Models.Json.Fields.{no_fields, field}
use autonomic_obsidian_kb.Models.Task.{TaskContext}

pub record RetrievalItem (F : Type 0) : Type 0 where
  pub id : String
  pub path : String
  pub title : String
  pub layer : ℕ
  -- the field `text`
  pub body : String
  pub score : F
  pub tokens : ℕ
  pub reasons : List String
  pub provenance : Value
  pub validation : String
  pub evidence : List String
  pub uncertainty : F
  pub route_sources : List String
  pub revision : String

pub record RetrievalManifest (F : Type 0) : Type 0 where
  pub task : String
  pub budget : ℕ
  pub used_tokens : ℕ
  pub items : List (RetrievalItem F)
  pub excluded : List Fields
  pub context : TaskContext
  pub retrieval_id : String
  pub route : String
  pub state : String
  pub trace_id : String
  pub missing_evidence : List String
  pub token_count_exact : Bool
  pub delivery : Option String
  pub unrecorded_evidence : List String
  pub label_missing : Bool

module _ (F : Type 0) where
  -- The property `remaining_tokens`: max(0, budget - used_tokens)
  unfoldable pub remaining_tokens : RetrievalManifest F → ℕ
  remaining_tokens m = m.budget - m.used_tokens

  -- A group of roles with its label, where it has any.
  unfoldable pub labelled : List String → String → List String
  unfolding join
  labelled roles label =
      if non_empty roles then append (join ", " roles) (append " (" (append label ")")) ∷ [] else []

  unfoldable pub missing_text : RetrievalManifest F → String
  unfolding join labelled
  missing_text m =
      if not (non_empty m.items) || not m.label_missing
      then join ", " m.missing_evidence
      else join "; " (
          labelled (filter (λ role. not (is_in role m.unrecorded_evidence)) m.missing_evidence)
            "not delivered"
          ++ labelled (filter (λ role. is_in role m.unrecorded_evidence) m.missing_evidence)
              "not recorded")

  unfoldable pub item_lines : List (RetrievalItem F) → List String
  unfolding strip
  item_lines [] = []
  item_lines (entry ∷ entries) =
      ""
      ∷ append "## " (append entry.title (append " [" (append entry.id "]")))
      ∷ strip entry.body
      ∷ item_lines entries

  unfoldable pub markdown_lines : RetrievalManifest F → List String
  unfolding missing_text item_lines
  markdown_lines m =
      append "State: " m.state
        ∷ append "Route: " m.route
        ∷ (if non_empty m.missing_evidence then append "Missing: " (missing_text m) ∷ [] else [])
      ++ item_lines m.items

  unfoldable pub to_markdown : RetrievalManifest F → String
  unfolding markdown_lines join strip_right
  to_markdown m = elim m.delivery [
    | some delivery ↦ delivery
    | none ↦ append (strip_right (join "\n" (markdown_lines m))) "\n"
  ]

  unfoldable pub to_agent_dict : RetrievalManifest F → Value
  unfolding to_markdown
  to_agent_dict m = Value.obj (
      field "text" (text (to_markdown m)) (
        field "authorizes_action" (flag false) (
          field "retrieval_id" (text m.retrieval_id) (
            field "state" (text m.state)
              (field "token_count_exact" (flag m.token_count_exact) no_fields)))))
