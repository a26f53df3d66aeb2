-- ===== src/Learning/Remember.antt =====
-- `Learner._remember_locked` of learning.py, after the index is brought up to date.
use autonomic_obsidian_kb.Prelude.{
  String, Bool, true, false, Option, none, some, List, nat_eq, string_eq, list_eq, insert, Result,
  ok, ◌>>=◌,
}
use autonomic_obsidian_kb.Models.Json.Value.{text}
use autonomic_obsidian_kb.Models.Json.Fields.{no_fields, field}
use autonomic_obsidian_kb.Models.Floats.{Floats}
use autonomic_obsidian_kb.Models.Note.{Note}
use autonomic_obsidian_kb.Models.Rows.{find_id}
use autonomic_obsidian_kb.Gate.Trust.{instruction_authorized}
use autonomic_obsidian_kb.Evidence.Records.{EvidenceCodec, OperationCodec}
use autonomic_obsidian_kb.Evidence.Ledger.{Entry}
use autonomic_obsidian_kb.Learning.Candidate.{LearningCandidate, score}
use autonomic_obsidian_kb.Learning.Duplicate.{GitContext, Match, Kind, near_duplicate}
use autonomic_obsidian_kb.Learning.Duplicate.Kind.{conflict, same_claim, exact}
use autonomic_obsidian_kb.Learning.Status.{Policy, decide_status}
use autonomic_obsidian_kb.Learning.Sources.{
  LearnCalls, Store, Outcome, Created, bind_dependencies, check_evidence, scanned_text,
  log_operation, attach_evidence,
}
use autonomic_obsidian_kb.Learning.Sources.Outcome.{existing_note, created_note}
use autonomic_obsidian_kb.Learning.Metadata.{
  memory_id_of, metadata_of, observe, layers_of, note_path,
}

module _ (fl : Floats) (calls : LearnCalls fl.F) (ec : EvidenceCodec)
    (oc : OperationCodec fl.F) where
  open fl use {F}
  open calls use {
    render, same, jaccard, has_findings, slugify, sha256, stable_json, rounded, token_estimate,
    parse_markdown, dump_frontmatter, render_note, inside, source_file,
  }

  -- What a submission answers for a new note.
  unfoldable pub created_of :
      Policy F
      → GitContext
      → (repo_name utc_now : String) → (decision : String × String) → Option (Note F)
      → LearningCandidate F
      → List String
      → Created
  unfolding note_path memory_id_of metadata_of
  created_of policy git repo_name utc_now decision contradicted c evidence_ids = record {
    memory_id = memory_id_of fl calls ec oc git c;
    path = note_path fl calls ec oc policy git decision.0 c;
    status = decision.0;
    reason = decision.1;
    metadata =
        metadata_of fl calls ec oc git repo_name utc_now (memory_id_of fl calls ec oc git c)
          decision.0 evidence_ids contradicted c;
  }

  unfoldable pub rendered_note :
      (List String → LearningCandidate F → String)
      → Created
      → LearningCandidate F
      → List String
      → String
  unfolding layers_of
  rendered_note sources n c evidence_ids =
      render_note n.metadata (layers_of fl calls ec oc sources evidence_ids c)

  unfoldable pub created_entry : Created → String → LearningCandidate F → List String → Entry F
  created_entry n rendered c evidence_ids = record {
    actor = c.authority;
    basis = evidence_ids;
    previous_digest = "";
    new_digest = sha256 rendered;
    reason = "candidate promotion";
    policy_version = "v2";
    confidence_before = none;
    confidence_after = some c.confidence;
    metadata = field "status" (text n.status) (
        field "authorization"
          (text
            (instruction_authorized c.memory_type c.authority c.authorized_instruction c.taint).1)
          no_fields);
    require_previous = none;
  }

  -- The note is written, and the ledger says so.
  unfoldable pub write_created :
      (utc_now uuid : String)
      → Created
      → String
      → LearningCandidate F
      → List String × Store F ec oc
      → Result (Outcome F × Store F ec oc)
  unfolding created_entry log_operation insert
  write_created utc_now uuid n rendered c (evidence_ids, s) =
      log_operation fl calls ec oc utc_now uuid "ADD" n.memory_id
        (created_entry n rendered c evidence_ids)
        (record s { notes = insert n.path rendered s.notes })
      >>= λ after. ok (created_note n, after)

  unfoldable pub note_after :
      Policy F
      → GitContext
      → (repo_name utc_now uuid : String) → (List String → LearningCandidate F → String)
      → (decision : String × String) → Option (Note F)
      → LearningCandidate F
      → List String × Store F ec oc
      → Result (Outcome F × Store F ec oc)
  unfolding write_created created_of rendered_note
  note_after policy git repo_name utc_now uuid sources decision contradicted c observed =
      let n = created_of policy git repo_name utc_now decision contradicted c observed.0 in
      write_created utc_now uuid n (rendered_note sources n c observed.0) c observed

  unfoldable pub create_note :
      Policy F
      → GitContext
      → (repo_name utc_now uuid : String) → (List String → LearningCandidate F → String)
      → (decision : String × String) → Option (Note F)
      → LearningCandidate F
      → Store F ec oc
      → Result (Outcome F × Store F ec oc)
  unfolding observe note_after memory_id_of
  create_note policy git repo_name utc_now uuid sources decision contradicted c s =
      observe fl calls ec oc git utc_now (memory_id_of fl calls ec oc git c) c s
      >>= note_after policy git repo_name utc_now uuid sources decision contradicted c

  unfoldable pub is_conflict : Option (Match fl) → Bool
  is_conflict none = false
  is_conflict (some m) = elim m.kind [ conflict ↦ true | _ ↦ false ]

  -- The memory that a conflict contradicts.
  unfoldable pub contradicted_by : Option (Match fl) → Option (Note F)
  contradicted_by none = none
  contradicted_by (some m) = some m.note

  unfoldable pub decision_of :
      Policy F → (force : Bool) → Option (Match fl) → LearningCandidate F → String × String
  unfolding decide_status is_conflict scanned_text score
  decision_of policy force duplicate c =
      decide_status fl policy (has_findings (scanned_text fl calls ec oc c)) c.memory_type
        (instruction_authorized c.memory_type c.authority c.authorized_instruction c.taint)
        (is_conflict duplicate) force (score fl c)

  -- A candidate that is no duplicate: the note that has its identity, or a new note.
  unfoldable pub submit_found :
      Policy F
      → GitContext
      → (repo_name utc_now uuid : String) → (List String → LearningCandidate F → String)
      → (force : Bool) → Option (Match fl)
      → LearningCandidate F
      → Store F ec oc
      → Option (Note F)
      → Result (Outcome F × Store F ec oc)
  unfolding decision_of create_note contradicted_by
  submit_found policy git repo_name utc_now uuid sources force duplicate c s (some existing) =
      ok (existing_note existing, s)
  submit_found policy git repo_name utc_now uuid sources force duplicate c s none =
      create_note policy git repo_name utc_now uuid sources (decision_of policy force duplicate c)
        (contradicted_by duplicate) c s

  unfoldable pub submit_new :
      Policy F
      → GitContext
      → (repo_name utc_now uuid : String) → (List String → LearningCandidate F → String)
      → (force : Bool) → List (Note F)
      → Option (Match fl)
      → LearningCandidate F
      → Store F ec oc
      → Result (Outcome F × Store F ec oc)
  unfolding find_id submit_found memory_id_of
  submit_new policy git repo_name utc_now uuid sources force rows duplicate c s =
      submit_found policy git repo_name utc_now uuid sources force duplicate c s
        (find_id F (memory_id_of fl calls ec oc git c) rows)

  unfoldable pub submit_kind :
      Policy F
      → GitContext
      → (repo_name utc_now uuid : String) → (List String → LearningCandidate F → String)
      → (force : Bool) → List (Note F)
      → Match fl
      → LearningCandidate F
      → Store F ec oc
      → Kind
      → Result (Outcome F × Store F ec oc)
  unfolding submit_new attach_evidence
  submit_kind policy git repo_name utc_now uuid sources force rows m c s conflict =
      submit_new policy git repo_name utc_now uuid sources force rows (some m) c s
  submit_kind policy git repo_name utc_now uuid sources force rows m c s same_claim =
      attach_evidence fl calls ec oc utc_now uuid c m.note s
  submit_kind policy git repo_name utc_now uuid sources force rows m c s exact =
      attach_evidence fl calls ec oc utc_now uuid c m.note s

  -- A candidate by its near duplicate.
  unfoldable pub submit :
      Policy F
      → GitContext
      → (repo_name utc_now uuid : String) → (List String → LearningCandidate F → String)
      → (force : Bool) → List (Note F)
      → Option (Match fl)
      → LearningCandidate F
      → Store F ec oc
      → Result (Outcome F × Store F ec oc)
  unfolding submit_new submit_kind
  submit policy git repo_name utc_now uuid sources force rows none c s =
      submit_new policy git repo_name utc_now uuid sources force rows none c s
  submit policy git repo_name utc_now uuid sources force rows (some m) c s =
      submit_kind policy git repo_name utc_now uuid sources force rows m c s m.kind

  -- The submission once the sources are bound.
  unfoldable pub remember_bound :
      Policy F
      → GitContext
      → (repo_name utc_now uuid : String) → (List String → LearningCandidate F → String)
      → (force : Bool) → List (Note F)
      → Store F ec oc
      → LearningCandidate F
      → Result (Outcome F × Store F ec oc)
  unfolding check_evidence near_duplicate submit
  remember_bound policy git repo_name utc_now uuid sources force rows s c =
      check_evidence fl calls ec oc git.repository_id c.evidence s.evidence >>= λ z.
      submit policy git repo_name utc_now uuid sources force rows
        (near_duplicate fl same jaccard git c rows) c s

  -- `_remember_locked` without a `review`; `rows` is the index in the order of the paths
  unfoldable pub remember_locked :
      Policy F
      → Option String
      → GitContext
      → (repo_name utc_now uuid : String) → (List String → LearningCandidate F → String)
      → (force : Bool) → List (Note F)
      → LearningCandidate F
      → Store F ec oc
      → Result (Outcome F × Store F ec oc)
  unfolding bind_dependencies remember_bound
  remember_locked policy repo git repo_name utc_now uuid sources force rows candidate s =
      bind_dependencies fl calls ec oc repo candidate
      >>= remember_bound policy git repo_name utc_now uuid sources force rows s
