-- ===== src/Gate/Read.antt =====
-- `memory_read_gate` of read_policy.py, and `temporal_gate` of scoring.py.
use autonomic_obsidian_kb.Prelude.{
  String, Bool, true, false, not, ◌||◌, Option, none, some, List, [], ◌∷◌, if◌then◌else◌, ◌==◌,
  nat_eq, string_eq, list_eq, is_in, append,
}
use autonomic_obsidian_kb.Models.Json.{obj, show}
use autonomic_obsidian_kb.Models.Floats.{Floats}
use autonomic_obsidian_kb.Models.Note.{Note}
use autonomic_obsidian_kb.Models.Task.{TaskContext}
use autonomic_obsidian_kb.Gate.Externals.{Externals}
use autonomic_obsidian_kb.Gate.Trust.{trust_gate}
use autonomic_obsidian_kb.Gate.Scope.{scope_gate, Verdict}
use autonomic_obsidian_kb.Gate.Applicability.{applicability_gate}

abbrev pub valid_types : List String
valid_types =
    "agent-instruction" ∷ "api" ∷ "architecture" ∷ "command" ∷ "convention" ∷ "decision"
    ∷ "dependency" ∷ "domain" ∷ "environment" ∷ "fact" ∷ "file-map" ∷ "hypothesis" ∷ "interface"
    ∷ "invariant" ∷ "known-failure" ∷ "negative-result" ∷ "procedure" ∷ "repository-map"
    ∷ "solution" ∷ "terminology" ∷ "workflow" ∷ []

abbrev pub valid_statuses : List String
valid_statuses =
    "active" ∷ "inbox" ∷ "stale" ∷ "conflicted" ∷ "superseded" ∷ "archived" ∷ "quarantined"
    ∷ "retracted" ∷ []

module _ (fl : Floats) (ex : Externals) where
  open fl use {F, decimal}

  unfoldable pub temporal_gate : Note F → TaskContext → Option String → Verdict F
  temporal_gate note context repo_path = record {
    accepted = (applicability_gate F ex note context repo_path).0;
    reason = (applicability_gate F ex note context repo_path).1;
    score =
        if (applicability_gate F ex note context repo_path).0 then decimal 10 1 else decimal 0 1;
  }

  -- unsafe, or the scan of the body and the metadata where the row has no verdict
  unfoldable pub is_unsafe : Note F → Bool
  unfolding show
  is_unsafe note = elim note.unsafe [
    | some verdict ↦ verdict
    | none ↦ ex.scan_content (append note.body (show ex.render (obj note.metadata)))
  ]

  -- The trust gate on the columns of a row.
  unfoldable pub trust_of : Note F → Bool → Bool × String
  trust_of note allow_untrusted =
      trust_gate fl note.status note.authority note.confidence note.memory_type
        note.authorized_instruction note.taint allow_untrusted

  unfoldable pub memory_read_gate :
      Note F → TaskContext → Bool → Bool → Option String → Bool × String
  unfolding is_unsafe temporal_gate trust_of
  memory_read_gate note context allow_untrusted allow_cross_repo repo_path =
      if not note.schema_valid
        || not (is_in note.status valid_statuses)
        || not (is_in note.memory_type valid_types)
      then (false, "invalid memory schema")
      else if note.status == "inbox"
      then (false, "inbox memory is not promoted")
      else if is_unsafe note
      then (false, "unsafe memory content")
      else if not (trust_of note allow_untrusted).0
      then trust_of note allow_untrusted
      else if not (scope_gate fl ex note context allow_cross_repo).accepted
      then (false, (scope_gate fl ex note context allow_cross_repo).reason)
      else if not (temporal_gate note context repo_path).accepted
      then (false, (temporal_gate note context repo_path).reason)
      else (
        true,
        append "passed hard read gate: " (
            append (scope_gate fl ex note context allow_cross_repo).reason (
              append "; " (
                append (temporal_gate note context repo_path).reason
                  (append "; " (trust_of note allow_untrusted).1)))),
      )
