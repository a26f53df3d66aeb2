-- ===== src/Learning/Metadata.antt =====
-- The identity, the evidence and the metadata of a new note, of `_remember_locked` of learning.py.
use autonomic_obsidian_kb.Prelude.{
  String, true, false, Option, none, some, List, [], ◌∷◌, ◌++◌, if◌then◌else◌, ◌==◌, nat_eq,
  string_eq, list_eq, any, is_in, Result, ok, ◌>>=◌, is_set, append,
}
use autonomic_obsidian_kb.Models.Json.{Value, Fields, get, set, to_list}
use autonomic_obsidian_kb.Models.Json.Value.{flag, num, text, arr, obj}
use autonomic_obsidian_kb.Models.Json.Items.{no_items, item}
use autonomic_obsidian_kb.Models.Json.Fields.{no_fields, field}
use autonomic_obsidian_kb.Models.Floats.{Floats}
use autonomic_obsidian_kb.Models.Note.{Note}
use autonomic_obsidian_kb.Evidence.Records.{EvidenceCodec, OperationCodec, first_chars}
use autonomic_obsidian_kb.Evidence.Store as EvidenceStore
use autonomic_obsidian_kb.Learning.Candidate.{LearningCandidate, score}
use autonomic_obsidian_kb.Learning.Duplicate.{
  GitContext, texts, values, dependency_items, applicability,
}
use autonomic_obsidian_kb.Learning.Status.{Policy, directory_of}
use autonomic_obsidian_kb.Learning.Sources.{LearnCalls, Store, scanned_text, canonical_id}

module _ (fl : Floats) (calls : LearnCalls fl.F) (ec : EvidenceCodec)
    (oc : OperationCodec fl.F) where
  open fl use {F}
  open calls use {
    render, same, jaccard, has_findings, slugify, sha256, stable_json, rounded, token_estimate,
    parse_markdown, dump_frontmatter, render_note, inside, source_file,
  }

  unfoldable pub fingerprint : GitContext → LearningCandidate F → String
  unfolding first_chars applicability
  fingerprint git c = first_chars 12 (
      sha256 (
        stable_json (
          arr (
            item (text c.scope) (
              item (text c.memory_type) (
                item (text c.summary) (
                  item (text c.detail)
                    (item (text c.verification) (item (applicability fl git c) no_items)))))))))

  unfoldable pub memory_id_of : GitContext → LearningCandidate F → String
  unfolding fingerprint
  memory_id_of git c = append "kb:" (
      append c.scope (
        append ":" (
          append c.memory_type
            (append ":" (append (slugify c.title 48) (append "-" (fingerprint git c)))))))

  -- The relations, with the contradicted memory where there is one.
  unfoldable pub relations_of : LearningCandidate F → Option (Note F) → Fields
  unfolding get set to_list canonical_id
  relations_of c none = c.relations
  relations_of c (some note) =
      let known : List Value = elim (get "contradicts" c.relations) [
        | none ↦ []
        | some v ↦ elim v [ arr items ↦ to_list items | _ ↦ [] ]
      ] in
      set "contradicts" (arr (values (known ++ text (canonical_id fl calls ec oc note) ∷ [])))
        c.relations

  unfoldable pub claim_fields : LearningCandidate F → Fields
  claim_fields c =
      if is_set c.claim_key
      then field "claim_key" (text c.claim_key) (field "claim_value" c.claim_value no_fields)
      else no_fields

  unfoldable pub metadata_of :
      GitContext
      → (repo_name utc_now memory_id status : String) → List String
      → Option (Note F)
      → LearningCandidate F
      → Fields
  unfolding relations_of claim_fields applicability score
  metadata_of git repo_name utc_now memory_id status evidence_ids contradicted c =
      field "schema_version" (num false "2") (
        field "id" (text memory_id) (
          field "title" (text c.title) (
            field "type" (text c.memory_type) (
              field "scope" (text c.scope) (
                field "repo" (text (if is_set git.root then repo_name else "")) (
                  field "repository_id" (text git.repository_id) (
                    field "branch" (text (if c.scope == "branch" then git.branch else "")) (
                      field "status" (text status) (
                        field "summary" (text c.summary) (
                          field "confidence" (rounded c.confidence) (
                            field "authority" (text c.authority) (
                              field "taint" (text c.taint) (
                                field "authorized_instruction" (flag c.authorized_instruction) (
                                  field "created" (text utc_now) (
                                    field "updated" (text utc_now) (
                                      field "validated" (text "") (
                                        field "freshness" (text "unvalidated") (
                                          field "validity"
                                            (obj (
                                              field "valid_from" (text c.valid_from) (
                                                field "valid_to" (text c.valid_to) (
                                                  field "as_of_commit"
                                                    (text (
                                                      if is_in c.scope ("branch" ∷ "module" ∷ [])
                                                      then git.head
                                                      else ""))
                                                    (field "version_range" (text c.version_range)
                                                      no_fields)))))
                                            (field "token_cost"
                                              (token_estimate
                                                (append c.summary (append "\n" c.detail)))
                                              (field "utility" (rounded (score fl c)) (
                                                field "applies_to" (arr (texts c.applies_to)) (
                                                  field "agents" (arr no_items) (
                                                    field "provenance" (arr (values c.provenance)) (
                                                      field "evidence" (arr (texts evidence_ids)) (
                                                        field "validators"
                                                          (arr (values c.validators))
                                                          (field "dependencies"
                                                            (arr (dependency_items c.dependencies))
                                                            (field "preconditions"
                                                            (arr (texts c.preconditions))
                                                            (field "verification"
                                                            (text c.verification)
                                                            (field "version_package"
                                                            (text c.version_package)
                                                            (field "applicability"
                                                            (applicability fl git c)
                                                            (field "relations"
                                                            (obj (relations_of c contradicted))
                                                            (field "invalidation"
                                                            (obj (
                                                            field "paths" (arr (texts c.applies_to))
                                                            (field "branch"
                                                            (flag (c.scope == "branch"))
                                                            no_fields)))
                                                            (claim_fields
                                                            c)))))))))))))))))))))))))))))))))

  -- The evidence of a candidate, or the observation that stands for it.
  unfoldable pub observe :
      GitContext
      → (utc_now memory_id : String) → LearningCandidate F
      → Store F ec oc
      → Result (List String × Store F ec oc)
  unfolding EvidenceStore.put scanned_text
  observe git utc_now memory_id c s =
      if any (λ e. true) c.evidence
      then ok (c.evidence, s)
      else (EvidenceStore.put ec
            (record {
              evidence_id = "";
              kind = "candidate-observation";
              subject = memory_id;
              repository_id = git.repository_id;
              commit = git.head;
              path = "";
              content = scanned_text fl calls ec oc c;
              content_digest = "";
              observed_at = utc_now;
              producer = c.authority;
              metadata = field "provenance" (arr (values c.provenance)) no_fields;
            })
            s.evidence
          >>= λ p. ok (p.0.evidence_id ∷ [], record s { evidence = p.1 }))

  -- The texts of the layers 0 to 3; `sources` is the text of layer 4, with the JSON of each source.
  unfoldable pub layers_of :
      (List String → LearningCandidate F → String) → List String → LearningCandidate F → List String
  layers_of sources evidence_ids c =
      c.summary
      ∷ c.summary
      ∷ (if is_set c.detail then c.detail else c.summary)
      ∷ c.detail
      ∷ sources evidence_ids c
      ∷ []

  unfoldable pub filename_of : GitContext → LearningCandidate F → String
  unfolding fingerprint
  filename_of git c = append (slugify c.title 72) (append "-" (append (fingerprint git c) ".md"))

  unfoldable pub note_path : Policy F → GitContext → String → LearningCandidate F → String
  unfolding directory_of filename_of
  note_path policy git status c =
      append (directory_of fl policy status c.memory_type) (append "/" (filename_of git c))
