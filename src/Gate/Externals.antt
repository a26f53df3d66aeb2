-- ===== src/Gate/Externals.antt =====
-- What the gates call of the standard library, of git and of the file system.
use autonomic_obsidian_kb.Prelude.{ℕ, String, Bool, Option, nat_eq, string_eq, list_eq}
use autonomic_obsidian_kb.Models.Json.{Value}

pub record Externals : Type 0 where
  -- str(v) of a list or a dict
  pub render : Value → String
  -- pathlib's Path(p).name
  pub path_name : String → String
  -- fnmatch.fnmatch(name, pattern)
  pub fnmatch : String → String → Bool
  -- datetime.fromisoformat, in microseconds and in UTC where no zone is given
  pub from_iso : String → Option ℕ
  -- datetime.now(UTC)
  pub now : ℕ
  -- Version(v) in SpecifierSet(s) of packaging; none where one of the two is invalid
  pub in_versions : String → String → Option Bool
  -- whether git merge-base --is-ancestor exits with 0 in a directory
  pub merge_base : String → String → String → Bool
  -- whether a path under a root resolves to a path inside the root
  pub inside : String → String → Bool
  -- sha256_file of a path under a root; none on an OSError
  pub sha256_file : String → String → Option String
  -- whether scan_content finds something
  pub scan_content : String → Bool
