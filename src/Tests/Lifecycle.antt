-- ===== src/Tests/Lifecycle.antt =====
-- A memory of the inbox that a reviewer promotes, and one that retires another.
use autonomic_obsidian_kb.Prelude.{
  ℕ, String, ◌≡◌, refl, ◌⊎◌, true, false, none, some, List, [], ◌∷◌, ◌==◌, nat_eq, string_eq,
  list_eq, lookup, Result, ok, raise, is_set, strip,
}
use autonomic_obsidian_kb.Models.Json.{get, set}
use autonomic_obsidian_kb.Models.Json.Value.{text}
use autonomic_obsidian_kb.Models.Json.Fields.{no_fields}
use autonomic_obsidian_kb.Models.Note.{Note}
use autonomic_obsidian_kb.Evidence.Ledger.{append_operation}
use autonomic_obsidian_kb.Storage.Move.{PathCalls, move_into, move_into_keeps}
use autonomic_obsidian_kb.Lifecycle.Review.{
  LifeCalls, Vault, find_single, rewritten_text, activated, promote,
}
use autonomic_obsidian_kb.Lifecycle.Replace.{find_all, replace}
use autonomic_obsidian_kb.Lifecycle.Replace.Replacement.{supersede}
use autonomic_obsidian_kb.Lifecycle.Cleared.{Found}
use autonomic_obsidian_kb.Lifecycle.Reviewed.{
  Promotable, Replaceable, promote_reviewed, replace_reviewed,
}
use autonomic_obsidian_kb.Lifecycle.Promoted.{promote_activates}
use autonomic_obsidian_kb.Tests.Samples.{note, evidence, operations}

abbrev paths : PathCalls
paths = record {
  name = λ p. "m1.md";
  stem = λ p. "m1";
  suffix = λ p. ".md";
  parent = λ p. "00-inbox";
  sha256 = λ s. "00ff00ff00ff00ff00ff";
  show_nat = λ n. "n";
}

abbrev files : List (String × String)
files = ("00-inbox/m1.md", "one") ∷ ("20-commands/m1.md", "other") ∷ []

abbrev files_after : List (String × String)
files_after = ("20-commands/m1.md", "other") ∷ ("20-commands/m1-00ff00ff.md", "one") ∷ []

move_run :
    move_into paths "00-inbox/m1.md" "20-commands" "m1" files
    ≡ ok ("20-commands/m1-00ff00ff.md", files_after)
unfolding move_into
move_run = refl

move_into_keeps_example :
    (lookup "20-commands/m1-00ff00ff.md" files_after ≡ some "one")
    × (lookup "20-commands/m1.md" files_after ≡ some "other")
unfolding lookup
move_into_keeps_example =
    move_into_keeps paths "00-inbox/m1.md" "20-commands" "m1" "one" "20-commands/m1.md" "other"
      files files_after "20-commands/m1-00ff00ff.md" refl move_run refl refl

abbrev calls : LifeCalls
calls = record {
  parse_markdown = λ s. (no_fields, s);
  dump_frontmatter = λ d. "front ";
  lstrip = λ s. s;
  is_unsafe = λ s. false;
  in_inbox = λ p. p == "00-inbox/m1.md";
  render = λ v. "";
  paths = paths;
}

abbrev waiting : Note ℕ
waiting = record note { status = "inbox"; path = "00-inbox/m1.md"; memory_type = "command" }

abbrev older : Note ℕ
older = record note { id = "m2"; declared_id = "m2"; path = "20-commands/m1.md" }

abbrev rows : List (Note ℕ)
rows = waiting ∷ older ∷ []

abbrev vault : Vault ℕ operations
vault = record { notes = files; operations = [] }

abbrev identity : String → String
identity s = s

abbrev promotion : Result (String × Vault ℕ operations)
promotion =
    promote ℕ calls evidence operations "2026-01-01T00:00:00Z" "ann" identity "m1" "checked" rows []
      vault

abbrev outcome : Result (String × Vault ℕ operations) → String × Vault ℕ operations
outcome (ok p) = p
outcome (raise e) = ("", vault)

promoted : promotion ≡ ok ((outcome promotion).0, (outcome promotion).1)
unfolding promote append_operation
promoted = refl

promoted_path : (outcome promotion).0 ≡ "20-commands/m1-00ff00ff.md"
unfolding promote append_operation
promoted_path = refl

promote_reviewed_example :
    (is_set (strip "checked") ≡ true)
    × ((n : Note ℕ) × (Found ℕ calls evidence operations "2026-01-01T00:00:00Z" "ann" identity "m1"
            rows n
          × Promotable ℕ calls evidence operations "2026-01-01T00:00:00Z" "ann" identity [] n))
promote_reviewed_example =
    promote_reviewed ℕ calls evidence operations "2026-01-01T00:00:00Z" "ann" identity "m1"
      "checked" rows [] vault ((outcome promotion).0, (outcome promotion).1) promoted

promote_activates_example :
    (n : Note ℕ) × ((find_single ℕ calls evidence operations "2026-01-01T00:00:00Z" "ann" identity
          "m1" rows
        ≡ ok n)
      × ((before : String) × ((lookup n.path files ≡ some before)
            × ((lookup (outcome promotion).0 (outcome promotion).1.notes
                  ≡ some (
                      rewritten_text ℕ calls evidence operations "2026-01-01T00:00:00Z" "ann"
                        identity
                        (activated ℕ calls evidence operations "2026-01-01T00:00:00Z" "ann" identity
                          none)
                        before))
                × (get "status" (
                      set "updated" (text "2026-01-01T00:00:00Z") (
                        activated ℕ calls evidence operations "2026-01-01T00:00:00Z" "ann" identity
                          none no_fields))
                    ≡ some (text "active"))
                × ((n.path ≡ "20-commands/m1.md")
                    ⊎ (lookup "20-commands/m1.md" (outcome promotion).1.notes ≡ some "other"))))))
unfolding lookup
promote_activates_example =
    promote_activates ℕ calls evidence operations "2026-01-01T00:00:00Z" "ann" identity "m1"
      "checked" rows [] vault (outcome promotion).1 (outcome promotion).0 "20-commands/m1.md"
      "other" promoted refl

abbrev replacement : Result (Vault ℕ operations)
replacement =
    replace ℕ calls evidence operations "2026-01-01T00:00:00Z" "ann" identity supersede ("m2" ∷ [])
      ("m1" ∷ []) "newer" rows [] vault

abbrev vault_in : Result (Vault ℕ operations) → Vault ℕ operations
vault_in (ok s) = s
vault_in (raise e) = vault

replaced : replacement ≡ ok (vault_in replacement)
unfolding replace append_operation
replaced = refl

replace_reviewed_example :
    (is_set (strip "newer") ≡ true)
    × ((old : List (Note ℕ)) × ((new : List (Note ℕ)) × ((find_all ℕ calls evidence operations
                "2026-01-01T00:00:00Z" "ann" identity rows
                ("m2" ∷ [])
              ≡ ok old)
            × ((find_all ℕ calls evidence operations "2026-01-01T00:00:00Z" "ann" identity rows
                    ("m1" ∷ [])
                  ≡ ok new)
                × Replaceable ℕ calls evidence operations "2026-01-01T00:00:00Z" "ann" identity []
                    old new))))
replace_reviewed_example =
    replace_reviewed ℕ calls evidence operations "2026-01-01T00:00:00Z" "ann" identity supersede
      ("m2" ∷ []) ("m1" ∷ []) "newer" rows [] vault (vault_in replacement) replaced
