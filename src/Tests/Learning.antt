-- ===== src/Tests/Learning.antt =====
-- A candidate that is submitted to an empty vault, and an imported one.
use autonomic_obsidian_kb.Prelude.{
  ◌∷◌, ℕ, String, ◌≡◌, refl, ◌↔◌, true, false, none, some, List, [], nat_eq, string_eq, list_eq,
  All, keys, Result, ok, strip, join,
}
use autonomic_obsidian_kb.Models.Json.{Fields, get}
use autonomic_obsidian_kb.Models.Json.Value.{null, flag, num, text}
use autonomic_obsidian_kb.Models.Json.Fields.{no_fields, field}
use autonomic_obsidian_kb.Evidence.Ledger.{append_operation}
use autonomic_obsidian_kb.Learning.Candidate.{
  LearningCandidate, validate, check_values, check_names, named_fields, value_fields, in_unit,
}
use autonomic_obsidian_kb.Learning.Import.{from_dict, aliased}
use autonomic_obsidian_kb.Learning.Duplicate.{GitContext}
use autonomic_obsidian_kb.Learning.Status.{Policy}
use autonomic_obsidian_kb.Learning.Sources.{LearnCalls, Store, Created, Outcome}
use autonomic_obsidian_kb.Learning.Remember.{remember_locked}
use autonomic_obsidian_kb.Learning.Sources.Outcome.{created_note}
use autonomic_obsidian_kb.Learning.Validity.{IsValid, validate_iff}
use autonomic_obsidian_kb.Learning.Imported.{from_dict_modest}
use autonomic_obsidian_kb.Tests.Samples.{floats, evidence, operations}

abbrev candidate : LearningCandidate ℕ
candidate = record {
  title = "Build";
  summary = "Run make.";
  detail = "Run make twice.";
  memory_type = "command";
  scope = "repository";
  confidence = 90;
  reuse_likelihood = 100;
  rediscovery_cost = 100;
  stability = 100;
  uniqueness = 100;
  token_savings = 100;
  maintenance_cost = 0;
  authority = "agent";
  provenance = [];
  applies_to = [];
  relations = no_fields;
  claim_key = "";
  claim_value = null;
  taint = "agent";
  authorized_instruction = false;
  evidence = [];
  validators = [];
  credit_validators = false;
  valid_from = "";
  valid_to = "";
  version_range = "";
  version_package = "";
  preconditions = [];
  verification = "";
  dependencies = [];
}

candidate_valid : validate floats candidate ≡ ok tt
unfolding validate check_values check_names named_fields value_fields in_unit strip keys
candidate_valid = refl

validate_iff_example : (validate floats candidate ≡ ok tt) ↔ IsValid floats candidate
validate_iff_example = validate_iff floats candidate

abbrev imported : Fields
imported = field "type" (text "command") (
    field "authority" (text "authoritative")
      (field "authorized_instruction" (flag true) (field "stability" (num true "0.9") no_fields)))

from_dict_modest_example :
    (get "authority" (from_dict imported) ≡ some (text "agent"))
    × (get "taint" (from_dict imported) ≡ some (text "agent"))
    × (get "authorized_instruction" (from_dict imported) ≡ some (flag false))
    × (get "credit_validators" (from_dict imported) ≡ some (flag false))
    × All
        (λ name. get name (from_dict imported) ≡ none)
        ("reuse_likelihood" ∷ "rediscovery_cost" ∷ "stability" ∷ "uniqueness" ∷ "token_savings"
          ∷ "maintenance_cost" ∷ [])
    × (get "confidence" (from_dict imported) ≡ get "confidence" (aliased no_fields imported))
from_dict_modest_example = from_dict_modest imported

imported_type : get "memory_type" (from_dict imported) ≡ some (text "command")
unfolding from_dict get
imported_type = refl

abbrev calls : LearnCalls ℕ
calls = record {
  render = λ v. "";
  same = λ v w. false;
  jaccard = λ a b. 0;
  has_findings = λ s. false;
  slugify = λ s n. s;
  sha256 = λ s. "00ff";
  stable_json = λ v. "";
  rounded = λ a. num true "0.9";
  token_estimate = λ s. num false "10";
  parse_markdown = λ s. (no_fields, s);
  dump_frontmatter = λ d. "";
  render_note = λ d ls. join "\n" ls;
  inside = λ root p. true;
  source_file = λ root p. none;
}

abbrev policy : Policy ℕ
policy = record {
  allow_privileged_remember = true;
  promotion_threshold = 60;
  quarantine_dir = "90-quarantine";
  inbox_dir = "00-inbox";
}

abbrev git : GitContext
git = record { root = "/work/one"; repository_id = "git:example/one"; branch = "main"; head = "c1" }

abbrev no_store : Store ℕ evidence operations
no_store = record { notes = []; evidence = []; operations = [] }

abbrev no_created : Created
no_created = record { memory_id = ""; path = ""; status = ""; reason = ""; metadata = no_fields }

abbrev sources : List String → LearningCandidate ℕ → String
sources evidence_ids c = join "\n" evidence_ids

abbrev run : Result (Outcome ℕ × Store ℕ evidence operations)
run =
    remember_locked floats calls evidence operations policy (some "/work/one") git "one"
      "2026-01-01T00:00:00Z" "u1" sources false [] candidate no_store

abbrev created_in :
    Result (Outcome ℕ × Store ℕ evidence operations) → Created × Store ℕ evidence operations
created_in (ok (created_note n, s)) = (n, s)
created_in _ = (no_created, no_store)

run_path : (created_in run).0.path ≡ "20-commands/Build-00ff.md"
unfolding remember_locked append_operation
run_path = refl
