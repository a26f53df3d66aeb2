-- ===== src/Learning/Sources.antt =====
-- The sources and the evidence of a submission, and the evidence that is attached to the note a
-- candidate repeats, of `_remember_locked` of learning.py.
use autonomic_obsidian_kb.Prelude.{
  ℕ, String, Bool, true, false, not, ◌&&◌, ◌||◌, Option, none, some, List, [], ◌∷◌, ◌++◌, map,
  if◌then◌else◌, ◌==◌, nat_eq, string_eq, list_eq, any, filter, is_in, lookup, insert, value_error,
  file_not_found_error, Result, ok, raise, ◌>>=◌, raise_if, is_set, append,
}
use autonomic_obsidian_kb.Prelude.Sets.{sorted_set}
use autonomic_obsidian_kb.Models.Json.{Value, Fields, get, get_set, set, show, to_list}
use autonomic_obsidian_kb.Models.Json.Value.{arr, obj}
use autonomic_obsidian_kb.Models.Json.Fields.{no_fields}
use autonomic_obsidian_kb.Models.Floats.{Floats}
use autonomic_obsidian_kb.Models.Note.{Note}
use autonomic_obsidian_kb.Evidence.Records.{EvidenceCodec, OperationCodec}
use autonomic_obsidian_kb.Evidence.Store as EvidenceStore
use autonomic_obsidian_kb.Evidence.Ledger.{Entry, append_operation}
use autonomic_obsidian_kb.Learning.Candidate.{LearningCandidate}
use autonomic_obsidian_kb.Learning.Duplicate.{texts}

-- What `_remember_locked` calls of the standard library and of the file system, with the regular
-- expressions of util.py and the YAML of markdown.py.
pub record LearnCalls (F : Type 0) : Type 0 where
  pub render : Value → String
  pub same : Value → Value → Bool
  pub jaccard : String → String → F
  -- whether scan_content finds something
  pub has_findings : String → Bool
  pub slugify : String → ℕ → String
  pub sha256 : String → String
  pub stable_json : Value → String
  -- round(max(0, min(1, a)), 3), and round(a, 3), as JSON
  pub rounded : F → Value
  pub token_estimate : String → Value
  pub parse_markdown : String → Fields × String
  pub dump_frontmatter : Fields → String
  pub render_note : Fields → List String → String
  -- whether a source resolves to a path inside the repository
  pub inside : String → String → Bool
  -- the relative path and the digest of a source that is a file
  pub source_file : String → String → Option (String × String)

-- The files that a submission writes.
pub record Store (F : Type 0) (ec : EvidenceCodec) (oc : OperationCodec F) : Type 0 where
  pub notes : List (String × String)
  pub evidence : List (String × ec.Content)
  pub operations : List (String × oc.Content)

pub record Created : Type 0 where
  pub memory_id : String
  pub path : String
  pub status : String
  pub reason : String
  pub metadata : Fields

pub data Outcome (F : Type 0) : Type 0 where
  duplicate_note existing_note : Note F → Outcome F
  created_note : Created → Outcome F

module _ (fl : Floats) (calls : LearnCalls fl.F) (ec : EvidenceCodec)
    (oc : OperationCodec fl.F) where
  open fl use {F}
  open calls use {
    render, same, jaccard, has_findings, slugify, sha256, stable_json, rounded, token_estimate,
    parse_markdown, dump_frontmatter, render_note, inside, source_file,
  }

  -- source.get("path") or source.get("value") if isinstance(source, dict) else None
  unfoldable pub source_value : Value → Option Value
  unfolding get_set get
  source_value (obj source) = elim (get_set "path" source) [
    | none ↦ get_set "value" source
    | some v ↦ some v
  ]
  source_value _ = none

  unfoldable pub has_dependency : String × String → List (String × String) → Bool
  has_dependency d [] = false
  has_dependency d (e ∷ rest) = (d.0 == e.0 && d.1 == e.1) || has_dependency d rest

  unfoldable pub add_dependency :
      Option (String × String) → List (String × String) → List (String × String)
  unfolding has_dependency
  add_dependency none ds = ds
  add_dependency (some d) ds = if has_dependency d ds then ds else ds ++ d ∷ []

  -- The loop over the provenance.
  unfoldable pub bind_sources :
      String → List Value → List (String × String) → Result (List (String × String))
  unfolding add_dependency show
  bind_sources repo [] ds = ok ds
  bind_sources repo (source ∷ sources) ds = elim (source_value source) [
    | none ↦ bind_sources repo sources ds
    | some v ↦
        raise_if (not (inside repo (show render v))) (value_error "source path escaped repository")
          (bind_sources repo sources (add_dependency (source_file repo (show render v)) ds))
  ]

  unfoldable pub bind_dependencies :
      Option String → LearningCandidate F → Result (LearningCandidate F)
  unfolding bind_sources
  bind_dependencies none c = ok c
  bind_dependencies (some repo) c =
      bind_sources repo c.provenance c.dependencies >>= λ ds. ok (record c { dependencies = ds })

  -- The loop over the evidence of the candidate.
  unfoldable pub check_evidence :
      String → List String → List (String × ec.Content) → Result (Unit {0})
  check_evidence repository_id [] files = ok tt
  check_evidence repository_id (identity ∷ rest) files =
      elim (EvidenceStore.get ec identity files) [
        | none ↦ raise (value_error "candidate references missing or tampered evidence")
        | some r ↦
            raise_if (is_set r.repository_id && not (r.repository_id == repository_id))
              (value_error "candidate evidence belongs to another repository")
              (check_evidence repository_id rest files)
      ]

  unfoldable pub scanned_text : LearningCandidate F → String
  scanned_text c = append c.title (append "\n" (append c.summary (append "\n" c.detail)))

  -- metadata.get("evidence", []), as texts
  unfoldable pub evidence_of : Fields → List String
  unfolding get to_list show
  evidence_of metadata = elim (get "evidence" metadata) [
    | none ↦ []
    | some v ↦ elim v [ arr items ↦ map (show render) (to_list items) | _ ↦ [] ]
  ]

  -- An operation of the ledger, for the rest of the store.
  unfoldable pub log_operation :
      String → String → String → String → Entry F → Store F ec oc → Result (Store F ec oc)
  log_operation utc_now uuid operation memory_id entry s =
      append_operation F oc utc_now uuid operation memory_id entry s.operations >>= λ p.
      ok (record s { operations = p.1 })

  unfoldable pub entry_for : String → List String → String → String → Entry F
  entry_for actor basis new_digest reason = record {
    actor = actor;
    basis = basis;
    previous_digest = "";
    new_digest = new_digest;
    reason = reason;
    policy_version = "v2";
    confidence_before = none;
    confidence_after = none;
    metadata = no_fields;
    require_previous = none;
  }

  unfoldable pub canonical_id : Note F → String
  canonical_id note = if is_set note.declared_id then note.declared_id else note.id

  -- The text of a note with more evidence.
  unfoldable pub with_evidence : List String → String → String
  unfolding evidence_of sorted_set set
  with_evidence novel before =
      let parsed = parse_markdown before in
      append
        (dump_frontmatter
          (set "evidence" (arr (texts (sorted_set (evidence_of parsed.0 ++ novel)))) parsed.0))
        parsed.1

  unfoldable pub attach_file :
      (utc_now uuid : String)
      → List String
      → Note F
      → Store F ec oc
      → Option String
      → Result (Outcome F × Store F ec oc)
  unfolding with_evidence log_operation entry_for insert
  attach_file utc_now uuid novel note s none = raise file_not_found_error
  attach_file utc_now uuid novel note s (some before) =
      log_operation utc_now uuid "AMEND" note.id
        (entry_for "system" novel (sha256 (with_evidence novel before))
          "attach corroborating evidence")
        (record s { notes = insert note.path (with_evidence novel before) s.notes })
      >>= λ after. ok (duplicate_note note, after)

  -- Corroborating evidence is attached to the note that the candidate repeats.
  unfoldable pub attach_evidence :
      (utc_now uuid : String)
      → LearningCandidate F
      → Note F
      → Store F ec oc
      → Result (Outcome F × Store F ec oc)
  unfolding evidence_of sorted_set attach_file lookup
  attach_evidence utc_now uuid c note s =
      let novel = sorted_set (filter (λ e. not (is_in e (evidence_of note.metadata))) c.evidence) in
      if not (any (λ e. true) novel)
      then ok (duplicate_note note, s)
      else attach_file utc_now uuid novel note s (lookup note.path s.notes)
