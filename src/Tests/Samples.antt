-- ===== src/Tests/Samples.antt =====
-- Sample values.
use autonomic_obsidian_kb.Prelude.{
  ℕ, String, zero, suc, ◌+◌, ◌-◌, ◌*◌, ◌/◌, true, false, ◌&&◌, none, some, [], ◌∷◌, ltb, leb, eqb,
  if◌then◌else◌, ◌==◌, nat_eq, string_eq, list_eq, contains,
}
use autonomic_obsidian_kb.Models.Json.{Fields}
use autonomic_obsidian_kb.Models.Json.Value.{text, arr, obj}
use autonomic_obsidian_kb.Models.Json.Items.{no_items, item}
use autonomic_obsidian_kb.Models.Json.Fields.{no_fields, field}
use autonomic_obsidian_kb.Models.Floats.{Floats}
use autonomic_obsidian_kb.Models.Note.{Note}
use autonomic_obsidian_kb.Models.Task.{TaskContext}
use autonomic_obsidian_kb.Gate.Externals.{Externals}
use autonomic_obsidian_kb.Evidence.Records.{
  EvidenceRecord, MemoryOperation, EvidenceCodec, OperationCodec,
}

abbrev pub hundredths : ℕ → ℕ → ℕ
hundredths n zero = n * 100
hundredths n (suc zero) = n * 10
hundredths n (suc (suc k)) = n

-- Numbers of hundredths.
abbrev pub floats : Floats
floats = record {
  F = ℕ;
  lt = ltb;
  le = leb;
  add = λ a b. a + b;
  sub = λ a b. a - b;
  mul = λ a b. a * b / 100;
  div = λ a b. a * 100 / b;
  decimal = hundredths;
  show_2 = λ a. "";
}

abbrev pub externals : Externals
externals = record {
  render = λ v. "";
  path_name = λ p. p;
  fnmatch = λ name pattern. name == pattern;
  from_iso =
      λ s. if s == "2026-01-01" then some 100 else if s == "2027-01-01" then some 200 else none;
  now = 150;
  in_versions = λ v s. some (v == s);
  merge_base = λ root a b. a == "c1" && b == "c2";
  inside = λ root path. true;
  sha256_file = λ root path. if path == "src/a.py" then some "d1" else none;
  scan_content = λ s. contains s "secret";
}

abbrev pub metadata : Fields
metadata =
    field "dependencies"
      (arr (
        item (obj (field "path" (text "src/a.py") (field "sha256" (text "d1") no_fields)))
          no_items))
      (field "version_package" (text "lib") (field "preconditions" (text "a clean tree") no_fields))

abbrev pub note : Note ℕ
note = record {
  id = "m1";
  declared_id = "m1";
  path = "10-notes/m1.md";
  title = "One";
  memory_type = "procedure";
  scope = "repository";
  status = "active";
  summary = "Run it.";
  confidence = 80;
  authority = "verified";
  repo = "";
  repository_id = "git:example/one";
  project = "";
  module_name = "";
  branch = "";
  freshness = "";
  valid_from = "2026-01-01";
  valid_to = "2027-01-01";
  as_of_commit = "c1";
  version_range = "1.2";
  taint = "trusted";
  authorized_instruction = false;
  token_cost = 10;
  layer = λ n. if eqb n 1 then "Run the build, then the tests." else "";
  body = "Run it.";
  metadata = metadata;
  source_hash = "h";
  schema_valid = true;
  unsafe = none;
}

abbrev pub context : TaskContext
context = record {
  task = "fix the build";
  task_hash = "t1";
  repo = "/work/one";
  repository_id = "git:example/one";
  project = "";
  module_name = "";
  branch = "main";
  head = "c2";
  changed_paths = "src/a.py" ∷ [];
  requested_paths = [];
  agent = "codex";
  session = "s1";
  task_types = [];
  risk = "normal";
  at = "";
  versions = ("lib", "1.2") ∷ [];
}

abbrev pub digest : String
digest = "00ff"

abbrev pub evidence : EvidenceCodec
evidence = record {
  Content = EvidenceRecord;
  sha256 = λ s. digest;
  stable_json = λ e. e.kind;
  encode = λ r. r;
  decode = λ r. some r;
  digest_of_id = λ s. some digest;
  has_secret = λ r. false;
}

abbrev pub operations : OperationCodec ℕ
operations = record {
  Content = MemoryOperation ℕ;
  encode = λ o. o;
  decode = λ o. some o;
  has_secret = λ o. false;
  upper = λ s. s;
}

-- The number of characters.
abbrev pub count : String → ℕ
count String.[] = 0
count (String.◌∷◌ c s) = suc (count s)
