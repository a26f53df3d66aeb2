-- ===== src/Tests/Gate.antt =====
-- The gates on a note that they accept and on variants of it.
use autonomic_obsidian_kb.Prelude.{
  ℕ, String, ◌≡◌, refl, ◌↔◌, true, false, some, List, [], ◌∷◌, nat_eq, string_eq, list_eq, All,
  is_in, lookup, starts_with, contains,
}
use autonomic_obsidian_kb.Tests.Samples.{floats, externals, note, context}
use autonomic_obsidian_kb.Models.Json.{get, get_set, show, to_list, text_at, truthy}
use autonomic_obsidian_kb.Gate.Taints.{combine_taint_iff}
use autonomic_obsidian_kb.Gate.Trust.{
  taint_rank, worst, combine_taint, instruction_authorized, trust_gate, Trusted, trust_gate_iff,
}
use autonomic_obsidian_kb.Gate.Scope.{
  note_field, legacy_repository_names, refuse, accept, scope_within, scope_gate,
}
use autonomic_obsidian_kb.Gate.Applicability.{
  parse_time, started, not_ended, is_time_active, source_dependencies, all_match, match_in,
  dependencies_match, is_ancestor, bad_time, version_check, in_lineage, commit_check, time_of,
  applicability_gate,
}
use autonomic_obsidian_kb.Gate.Read.{temporal_gate, is_unsafe, trust_of, memory_read_gate}
use autonomic_obsidian_kb.Gate.Isolation.{SameRepository, scope_gate_isolates}
use autonomic_obsidian_kb.Gate.Applicable.{Applicable, applicability_gate_iff}
use autonomic_obsidian_kb.Gate.Readable.{Readable, memory_read_gate_iff}

trust_gate_iff_example :
    ((trust_gate floats "active" "verified" 80 "agent-instruction" true "trusted" false).0 ≡ true)
    ↔ Trusted floats "active" "verified" 80 "agent-instruction" true "trusted" false
trust_gate_iff_example =
    trust_gate_iff floats "active" "verified" 80 "agent-instruction" true "trusted" false

abbrev taints : List String
taints = "hostile" ∷ "agent" ∷ []

combine_taint_iff_example :
    ((combine_taint ("derived" ∷ taints) ≡ "hostile")
      ↔ (is_in "hostile" ("derived" ∷ taints) ≡ true))
    × ((combine_taint ("derived" ∷ taints) ≡ "untrusted") ↔ (
        (is_in "hostile" ("derived" ∷ taints) ≡ false)
        × (is_in "untrusted" ("derived" ∷ taints) ≡ true)))
    × ((combine_taint ("derived" ∷ taints) ≡ "trusted")
        ↔ All (λ v. v ≡ "trusted") ("derived" ∷ taints))
    × (is_in (combine_taint ("derived" ∷ taints)) ("derived" ∷ taints) ≡ true)
combine_taint_iff_example = combine_taint_iff "derived" taints

combine_taint_run : combine_taint ("derived" ∷ "hostile" ∷ "agent" ∷ []) ≡ "hostile"
unfolding combine_taint worst taint_rank lookup
combine_taint_run = refl

read_run : (memory_read_gate floats externals note context false false (some "/work/one")).0 ≡ true
unfolding memory_read_gate temporal_gate is_unsafe trust_of trust_gate instruction_authorized
    taint_rank lookup scope_gate scope_within note_field refuse accept legacy_repository_names
    applicability_gate bad_time is_time_active started not_ended parse_time version_check
    commit_check in_lineage is_ancestor dependencies_match match_in all_match source_dependencies
    time_of text_at get get_set show to_list truthy contains starts_with
read_run = refl

scope_run : (scope_gate floats externals note context false).accepted ≡ true
unfolding scope_gate scope_within note_field refuse accept
scope_run = refl

scope_gate_isolates_example : SameRepository floats externals note context
scope_gate_isolates_example = scope_gate_isolates floats externals note context refl refl scope_run

applicability_gate_iff_example :
    ((applicability_gate ℕ externals note context (some "/work/one")).0 ≡ true)
    ↔ Applicable externals note context (some "/work/one")
applicability_gate_iff_example = applicability_gate_iff ℕ externals note context (some "/work/one")

memory_read_gate_iff_example :
    ((memory_read_gate floats externals note context false false (some "/work/one")).0 ≡ true)
    ↔ Readable floats externals note context false false (some "/work/one")
memory_read_gate_iff_example =
    memory_read_gate_iff floats externals note context false false (some "/work/one")
