-- ===== src/Tests/Eligible.antt =====
-- Notes that claim one thing: two that agree, and one that does not.
use autonomic_obsidian_kb.Prelude.{
  ℕ, String, ◌≡◌, refl, true, false, some, List, [], ◌∷◌, nat_eq, string_eq, list_eq, here, there,
  is_in, contains,
}
use autonomic_obsidian_kb.Models.Json.{Value, show}
use autonomic_obsidian_kb.Models.Json.Value.{text}
use autonomic_obsidian_kb.Models.Json.Fields.{field}
use autonomic_obsidian_kb.Models.Note.{Note}
use autonomic_obsidian_kb.Gate.Trust.{instruction_authorized, trust_gate}
use autonomic_obsidian_kb.Gate.Scope.{scope_gate}
use autonomic_obsidian_kb.Gate.Applicability.{applicability_gate}
use autonomic_obsidian_kb.Gate.Conflicts.{claim_space, claim_value_of}
use autonomic_obsidian_kb.Retrieval.Eligible.{eligible_ids}
use autonomic_obsidian_kb.Retrieval.Admitted.{Admitted, eligible_ids-Admitted, eligible_ids-agree}
use autonomic_obsidian_kb.Tests.Samples.{floats, externals, note, context}

abbrev stable_json : Value → String
stable_json v = show (λ w. "") v

abbrev claiming : String → String → Note ℕ
claiming identity value = record note {
  id = identity;
  declared_id = identity;
  metadata = field "claim_key" (text "port") (field "claim_value" (text value) note.metadata);
}

abbrev eligible : List (Note ℕ) → List String
eligible notes =
    eligible_ids floats externals stable_json [] false false (some "/work/one") context notes

abbrev agreeing : List (Note ℕ)
agreeing = claiming "m1" "80" ∷ claiming "m2" "80" ∷ []

both : eligible agreeing ≡ "m1" ∷ "m2" ∷ []
unfolding eligible_ids contains trust_gate instruction_authorized scope_gate applicability_gate
both = refl

neither : eligible (claiming "m3" "81" ∷ agreeing) ≡ []
unfolding eligible_ids contains trust_gate instruction_authorized scope_gate applicability_gate
neither = refl

first : is_in "m1" (eligible agreeing) ≡ true
first = rw both refl

second : is_in "m2" (eligible agreeing) ≡ true
second = rw both refl

eligible_ids-Admitted_example :
    (n : Note ℕ) × Admitted floats externals stable_json [] false false
      (some "/work/one")
      context
      agreeing
      "m2"
      n
eligible_ids-Admitted_example =
    eligible_ids-Admitted floats externals stable_json [] false false (some "/work/one") context
      agreeing "m2" second

space :
    (value : String) (identity : String)
    → claim_space ℕ stable_json (claiming identity value) ≡ some ""
unfolding claim_space show
space value identity = refl

eligible_ids-agree_example :
    claim_value_of ℕ stable_json (claiming "m1" "80")
    ≡ claim_value_of ℕ stable_json (claiming "m2" "80")
eligible_ids-agree_example =
    eligible_ids-agree floats externals stable_json [] false false (some "/work/one") context
      agreeing (claiming "m1" "80") (claiming "m2" "80") "" here (there here) first second
      (space "80" "m1") (space "80" "m2")
