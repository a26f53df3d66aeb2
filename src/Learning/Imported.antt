-- ===== src/Learning/Imported.antt =====
-- What `LearningCandidate.from_dict` of learning.py keeps of an imported dict.
use autonomic_obsidian_kb.Prelude.{
  String, ◌≡◌, refl, sym, ◌∙◌, subst, inl, inr, true, false, none, some, List, [], ◌∷◌, arith,
  if◌then◌else◌, Bool-cases, ◌==◌, eq_iff, eq_of_test, ne_of_test, test_of_ne, nat_eq, string_eq,
  list_eq, All, is_in,
}
use autonomic_obsidian_kb.Models.Json.{Fields, get, set, drop, get-set, get-set_other, get-drop}
use autonomic_obsidian_kb.Models.Json.Value.{flag, text}
use autonomic_obsidian_kb.Models.Json.Fields.{no_fields, field}
use autonomic_obsidian_kb.Learning.Import.{
  self_assessed_fields, candidate_fields, aliased, without_fields, only_fields, from_dict,
}

get-only_fields :
    (allowed : List String) (key : String) (d : Fields)
    → get key (only_fields allowed d) ≡ (if is_in key allowed then get key d else none)
unfolding get only_fields
get-only_fields allowed key no_fields = ground arith
get-only_fields allowed key (field k v d) = elim (Bool-cases (k == key)) [
  | inl e ↦ elim (Bool-cases (is_in k allowed)) [
    | inl m ↦
        let m' : is_in key allowed ≡ true =
          subst (λ z. is_in z allowed ≡ true) (eq_of_test k key e) m in
        rw (m, m', e) refl
    | inr m ↦
        let m' : is_in key allowed ≡ false =
          subst (λ z. is_in z allowed ≡ false) (eq_of_test k key e) m in
        rw (m, m') (get-only_fields allowed key d ∙ rw m' refl)
  ]
  | inr e ↦ elim (Bool-cases (is_in k allowed)) [
    | inl m ↦ rw (m, e) (get-only_fields allowed key d)
    | inr m ↦ rw (m, e) (get-only_fields allowed key d)
  ]
]

get-without_fields :
    (names : List String) (key : String) (d : Fields)
    → get key (without_fields names d) ≡ (if is_in key names then none else get key d)
unfolding without_fields
get-without_fields [] key d = refl
get-without_fields (name ∷ names) key d = ground (
  arith,
  get-without_fields names key (drop name d),
  get-drop name key d,
  eq_iff name key,
  eq_iff key name,
)

-- The dict before the fields that a candidate has are picked.
abbrev normalized : Fields → Fields
normalized value = without_fields self_assessed_fields (aliased no_fields value)

get-from_dict :
    (key : String) (value : Fields)
    → get key (from_dict value) ≡ (
        if is_in key candidate_fields
        then get key (
            set "credit_validators" (flag false) (
              set "authorized_instruction"
                (flag false)
                (set "taint" (text "agent") (set "authority" (text "agent") (normalized value)))))
        else none)
unfolding from_dict
get-from_dict key value = get-only_fields candidate_fields key _

dropped :
    (value : Fields) (key : String)
    → is_in key candidate_fields ≡ true
    → is_in key ("credit_validators" ∷ "authorized_instruction" ∷ "taint" ∷ "authority" ∷ [])
      ≡ false
    → is_in key self_assessed_fields ≡ true
    → get key (from_dict value) ≡ none
dropped value key known free assessed =
    start
    ∙ get-set_other "credit_validators" key _ _ (other "credit_validators" key (ground arith))
    ∙ get-set_other "authorized_instruction" key _ _
        (other "authorized_instruction" key (ground arith))
    ∙ get-set_other "taint" key _ _ (other "taint" key (ground arith))
    ∙ get-set_other "authority" key _ _ (other "authority" key (ground arith))
    ∙ plain
  where
    start :
        get key (from_dict value)
        ≡ get key (
            set "credit_validators" (flag false) (
              set "authorized_instruction"
                (flag false)
                (set "taint" (text "agent") (set "authority" (text "agent") (normalized value)))))
    start = get-from_dict key value ∙ rw known refl

    plain : get key (normalized value) ≡ none
    plain = get-without_fields self_assessed_fields key (aliased no_fields value) ∙ rw assessed refl

    other : (a b : String) → (b == a) ≡ false → (a == b) ≡ false
    other a b h = test_of_ne a b (λ p. ne_of_test b a h (sym p))

-- The confidence is none of the fields that are dropped or set.
confidence_kept :
    (value : Fields)
    → get "confidence" (from_dict value) ≡ get "confidence" (aliased no_fields value)
confidence_kept value =
    get-from_dict "confidence" value
    ∙ get-set_other "credit_validators" "confidence" _ _ refl
    ∙ get-set_other "authorized_instruction" "confidence" _ _ refl
    ∙ get-set_other "taint" "confidence" _ _ refl
    ∙ get-set_other "authority" "confidence" _ _ refl
    ∙ get-without_fields self_assessed_fields "confidence" (aliased no_fields value)

-- The arguments that `from_dict` makes of any imported dict have authority and taint agent, no
-- authorization, no credit for validators, and no reuse likelihood, rediscovery cost, stability,
-- uniqueness, token savings or maintenance cost. The imported confidence is kept.
pub from_dict_modest :
    (value : Fields)
    → (get "authority" (from_dict value) ≡ some (text "agent"))
      × (get "taint" (from_dict value) ≡ some (text "agent"))
      × (get "authorized_instruction" (from_dict value) ≡ some (flag false))
      × (get "credit_validators" (from_dict value) ≡ some (flag false))
      × All
          (λ name. get name (from_dict value) ≡ none)
          ("reuse_likelihood" ∷ "rediscovery_cost" ∷ "stability" ∷ "uniqueness" ∷ "token_savings"
            ∷ "maintenance_cost" ∷ [])
      × (get "confidence" (from_dict value) ≡ get "confidence" (aliased no_fields value))
from_dict_modest value = (
  get-from_dict "authority" value
      ∙ get-set _ _ _ _
      ∙ get-set _ _ _ _
      ∙ get-set _ _ _ _
      ∙ get-set _ _ _ _,
  get-from_dict "taint" value ∙ get-set _ _ _ _ ∙ get-set _ _ _ _ ∙ get-set _ _ _ _,
  get-from_dict "authorized_instruction" value ∙ get-set _ _ _ _ ∙ get-set _ _ _ _,
  get-from_dict "credit_validators" value ∙ get-set _ _ _ _,
  (
    dropped value "reuse_likelihood" refl refl refl,
    (
      dropped value "rediscovery_cost" refl refl refl,
      (
        dropped value "stability" refl refl refl,
        (
          dropped value "uniqueness" refl refl refl,
          (
            dropped value "token_savings" refl refl refl,
            (dropped value "maintenance_cost" refl refl refl, tt),
          ),
        ),
      ),
    ),
  ),
  confidence_kept value,
)
