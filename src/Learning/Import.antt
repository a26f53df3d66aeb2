-- ===== src/Learning/Import.antt =====
-- `LearningCandidate.from_dict` of learning.py: the keyword arguments that it makes of an imported
-- dict.
use autonomic_obsidian_kb.Prelude.{
  String, false, none, some, List, [], ◌∷◌, if◌then◌else◌, nat_eq, string_eq, list_eq, is_in,
  lookup,
}
use autonomic_obsidian_kb.Models.Json.{Fields, set, drop}
use autonomic_obsidian_kb.Models.Json.Value.{flag, text}
use autonomic_obsidian_kb.Models.Json.Fields.{no_fields, field}

abbrev pub self_assessed_fields : List String
self_assessed_fields =
    "reuse_likelihood" ∷ "rediscovery_cost" ∷ "stability" ∷ "uniqueness" ∷ "token_savings"
    ∷ "maintenance_cost" ∷ []

abbrev pub candidate_fields : List String
candidate_fields =
    "title" ∷ "summary" ∷ "detail" ∷ "memory_type" ∷ "scope" ∷ "confidence" ∷ "reuse_likelihood"
    ∷ "rediscovery_cost" ∷ "stability" ∷ "uniqueness" ∷ "token_savings" ∷ "maintenance_cost"
    ∷ "authority" ∷ "provenance" ∷ "applies_to" ∷ "relations" ∷ "claim_key" ∷ "claim_value"
    ∷ "taint" ∷ "authorized_instruction" ∷ "evidence" ∷ "validators" ∷ "credit_validators"
    ∷ "valid_from" ∷ "valid_to" ∷ "version_range" ∷ "version_package" ∷ "preconditions"
    ∷ "verification" ∷ "dependencies" ∷ []

-- aliases.get(key, key)
unfoldable pub alias : String → String
unfolding lookup
alias key =
    elim (lookup key
      (("type", "memory_type") ∷ ("body", "detail") ∷ ("source", "provenance") ∷ [])) [
        | none ↦ key
        | some other ↦ other
      ]

-- {aliases.get(key, key): item for key, item in value.items()}: of two items with one name the last
-- stays. `done` holds the items before.
unfoldable pub aliased : Fields → Fields → Fields
unfolding alias set
aliased done no_fields = done
aliased done (field key v rest) = aliased (set (alias key) v done) rest

-- The loop that pops the fields that a caller may not assess.
unfoldable pub without_fields : List String → Fields → Fields
unfolding drop
without_fields [] d = d
without_fields (name ∷ names) d = without_fields names (drop name d)

unfoldable pub only_fields : List String → Fields → Fields
only_fields allowed no_fields = no_fields
only_fields allowed (field key v rest) =
    let kept = only_fields allowed rest in if is_in key allowed then field key v kept else kept

unfoldable pub from_dict : Fields → Fields
unfolding aliased without_fields only_fields set
from_dict value =
    let normalized = without_fields self_assessed_fields (aliased no_fields value) in
    only_fields candidate_fields (
      set "credit_validators" (flag false) (
        set "authorized_instruction" (flag false)
          (set "taint" (text "agent") (set "authority" (text "agent") normalized))))
