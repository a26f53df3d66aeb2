-- ===== src/Tests/Evidence.antt =====
-- The evidence store and the ledger on small directories. Files hold the records themselves.
use autonomic_obsidian_kb.Prelude.{
  ℕ, ◌<◌, String, ◌≡◌, refl, false, Option, none, some, List, [], ◌∷◌, ne_of_test, nat_eq,
  string_eq, list_eq, All, lookup, insert, value_error, ok, raise,
}
use autonomic_obsidian_kb.Prelude.Sort.{sort, last}
use autonomic_obsidian_kb.Models.Json.Fields.{no_fields}
use autonomic_obsidian_kb.Evidence.Records.{
  EvidenceRecord, MemoryOperation, first_chars, drop_chars, without_colons,
}
use autonomic_obsidian_kb.Evidence.Store.{
  Directory, path_of, put, get, get_at, checked, read_checked, decoded_checked,
}
use autonomic_obsidian_kb.Evidence.Verified.{put-get, get_authentic}
use autonomic_obsidian_kb.Evidence.Ledger.{
  Entry, read_operation, read_operations, iter_operations, last_for, digest_of, next_sequence,
  conflicts, operation_path, operation_record, append_operation,
}
use autonomic_obsidian_kb.Tests.Samples.{digest, evidence, operations}
use autonomic_obsidian_kb.Evidence.Latest.{append_operation-last_for, append_operation_conflict}

abbrev given : EvidenceRecord
given = record {
  evidence_id = "";
  kind = "test-run";
  subject = "m1";
  repository_id = "git:example/one";
  commit = "c1";
  path = "";
  content = "12 passed";
  content_digest = "";
  observed_at = "2026-01-01T00:00:00Z";
  producer = "ci";
  metadata = no_fields;
}

put-get_example :
    (r : EvidenceRecord) × (after : Directory evidence) × (put evidence given [] ≡ ok (r, after))
    × (get evidence r.evidence_id after ≡ some r)
    × (r.content ≡ "12 passed")
    × (r.content_digest ≡ digest)
unfolding lookup
put-get_example = put-get evidence (λ s. refl) (λ r. refl) given [] refl refl

abbrev first : EvidenceRecord
first = record given { evidence_id = "evidence:sha256:00ff"; content_digest = digest }

abbrev second : EvidenceRecord
second = record first { observed_at = "2026-02-02T00:00:00Z" }

first_read : get evidence "evidence:sha256:00ff" (("00/00ff.json", first) ∷ []) ≡ some first
unfolding get get_at read_checked decoded_checked checked path_of first_chars lookup
first_read = refl

second_read : get evidence "evidence:sha256:00ff" (("00/00ff.json", second) ∷ []) ≡ some second
unfolding get get_at read_checked decoded_checked checked path_of first_chars lookup
second_read = refl

get_authentic_example : first ≡ record second { observed_at = first.observed_at }
get_authentic_example =
    get_authentic evidence "evidence:sha256:00ff" (("00/00ff.json", first) ∷ [])
      (("00/00ff.json", second) ∷ []) first second (λ e. refl) (λ e. refl) first_read second_read

abbrev entry : Option String → String → Entry ℕ
entry require_previous new_digest = record {
  actor = "codex";
  basis = [];
  previous_digest = "";
  new_digest = new_digest;
  reason = "";
  policy_version = "v2";
  confidence_before = none;
  confidence_after = none;
  metadata = no_fields;
  require_previous = require_previous;
}

abbrev earlier : MemoryOperation ℕ
earlier = record {
  operation_id = "op:1";
  operation = "ADD";
  memory_id = "m1";
  actor = "codex";
  observed_at = "2026-01-01T00:00:00Z";
  basis = [];
  previous_digest = "";
  new_digest = "d1";
  reason = "";
  policy_version = "v2";
  sequence = 1;
  confidence_before = none;
  confidence_after = none;
  metadata = no_fields;
}

abbrev files : List (String × MemoryOperation ℕ)
files = ("2026-01-01/2026-01-01T000000Z-1.json", earlier) ∷ []

abbrev now : String
now = "2026-01-02T00:00:00Z"

free :
    conflicts ℕ operations (some "d1") (digest_of ℕ operations (last_for ℕ operations "m1" files))
    ≡ false
unfolding conflicts digest_of last_for iter_operations read_operations read_operation sort last
free = refl

append_operation-last_for_example :
    (r : MemoryOperation ℕ) × (after : List (String × MemoryOperation ℕ)) × (append_operation ℕ
        operations now "2" "AMEND" "m1"
        (entry (some "d1") "d2")
        files
      ≡ ok (r, after))
    × (last_for ℕ operations "m1" after ≡ some r)
    × (r.sequence ≡ next_sequence ℕ operations (last_for ℕ operations "m1" files))
    × All (λ o. o.sequence < r.sequence) (iter_operations ℕ operations "m1" files)
    × (r.previous_digest ≡ digest_of ℕ operations (last_for ℕ operations "m1" files))
append_operation-last_for_example =
    append_operation-last_for ℕ operations (λ o. refl) now "2" "AMEND" "m1" (entry (some "d1") "d2")
      files refl free refl

abbrev amended : MemoryOperation ℕ
amended = record {
  operation_id = "op:2";
  operation = "AMEND";
  memory_id = "m1";
  actor = "codex";
  observed_at = now;
  basis = [];
  previous_digest = "d1";
  new_digest = "d2";
  reason = "";
  policy_version = "v2";
  sequence = 2;
  confidence_before = none;
  confidence_after = none;
  metadata = no_fields;
}

abbrev after : List (String × MemoryOperation ℕ)
after =
    ("2026-01-01/2026-01-01T000000Z-1.json", earlier)
    ∷ ("2026-01-02/2026-01-02T000000Z-2.json", amended)
    ∷ []

appended :
    append_operation ℕ operations now "2" "AMEND" "m1" (entry (some "d1") "d2") files
    ≡ ok (amended, after)
unfolding append_operation operation_record operation_path next_sequence conflicts digest_of
    last_for iter_operations read_operations read_operation sort last insert first_chars drop_chars
    without_colons
appended = refl

append_operation_conflict_example :
    (message : String) × (append_operation ℕ operations now "3" "AMEND" "m1"
        (entry (some "d1") "d3")
        after
      ≡ raise (value_error message))
append_operation_conflict_example =
    append_operation_conflict ℕ operations (λ o. refl) now "2" "AMEND" "m1" (entry (some "d1") "d2")
      files amended after appended now "3" "AMEND" (entry (some "d1") "d3") "d1" refl
      (ne_of_test "d1" "d2" refl)
