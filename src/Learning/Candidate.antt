-- ===== src/Learning/Candidate.antt =====
-- `LearningCandidate` of learning.py, its `validate` and its `score`, and `AUTHORITY` of scoring.py.
use autonomic_obsidian_kb.Prelude.{
  String, Bool, not, ◌&&◌, List, [], ◌∷◌, if◌then◌else◌, nat_eq, string_eq, list_eq, length, is_in,
  keys, value_error, Result, ok, raise, ◌>>=◌, raise_if, is_set, strip, append,
}
use autonomic_obsidian_kb.Models.Json.{Value, Fields}
use autonomic_obsidian_kb.Models.Floats.{Floats}
use autonomic_obsidian_kb.Gate.Read.{valid_types}
use autonomic_obsidian_kb.Gate.Trust.{taint_order}

pub record LearningCandidate (F : Type 0) : Type 0 where
  pub title : String
  pub summary : String
  pub detail : String
  pub memory_type : String
  pub scope : String
  pub confidence : F
  pub reuse_likelihood : F
  pub rediscovery_cost : F
  pub stability : F
  pub uniqueness : F
  pub token_savings : F
  pub maintenance_cost : F
  pub authority : String
  pub provenance : List Value
  pub applies_to : List String
  pub relations : Fields
  pub claim_key : String
  pub claim_value : Value
  pub taint : String
  pub authorized_instruction : Bool
  pub evidence : List String
  pub validators : List Value
  pub credit_validators : Bool
  pub valid_from : String
  pub valid_to : String
  pub version_range : String
  pub version_package : String
  pub preconditions : List String
  pub verification : String
  pub dependencies : List (String × String)

abbrev pub valid_scopes : List String
valid_scopes =
    "global" ∷ "user" ∷ "repository" ∷ "project" ∷ "module" ∷ "branch" ∷ "task" ∷ "session" ∷ []

-- The keys of AUTHORITY.
abbrev pub authorities : List String
authorities =
    "source-of-truth" ∷ "authoritative" ∷ "verified" ∷ "user-corrected" ∷ "derived" ∷ "agent"
    ∷ "external" ∷ "untrusted" ∷ []

module _ (fl : Floats) where
  open fl use {F, lt, le, add, sub, mul, decimal}

  -- 0.0 <= value <= 1.0; a value of the model is always a number
  unfoldable pub in_unit : F → Bool
  in_unit value = le (decimal 0 1) value && le value (decimal 10 1)

  -- The loop over VALUE_FIELDS.
  unfoldable pub check_values : List (String × F) → Result (Unit {0})
  unfolding in_unit
  check_values [] = ok tt
  check_values ((name, value) ∷ rest) =
      if not (in_unit value)
      then raise
          (value_error (append "candidate " (append name " must be a number between 0 and 1")))
      else check_values rest

  -- The loop over type, scope, authority and taint.
  unfoldable pub check_names : List (String × String × List String) → Result (Unit {0})
  check_names [] = ok tt
  check_names ((name, value, allowed) ∷ rest) =
      if not (is_in value allowed)
      then raise (value_error (append "unsupported candidate " (append name (append " " value))))
      else check_names rest

  unfoldable pub named_fields : LearningCandidate F → List (String × String × List String)
  unfolding keys
  named_fields c =
      ("type", c.memory_type, valid_types)
      ∷ ("scope", c.scope, valid_scopes)
      ∷ ("authority", c.authority, authorities)
      ∷ ("taint", c.taint, keys taint_order)
      ∷ []

  unfoldable pub value_fields : LearningCandidate F → List (String × F)
  value_fields c =
      ("confidence", c.confidence)
      ∷ ("reuse_likelihood", c.reuse_likelihood)
      ∷ ("rediscovery_cost", c.rediscovery_cost)
      ∷ ("stability", c.stability)
      ∷ ("uniqueness", c.uniqueness)
      ∷ ("token_savings", c.token_savings)
      ∷ ("maintenance_cost", c.maintenance_cost)
      ∷ []

  unfoldable pub validate : LearningCandidate F → Result (Unit {0})
  unfolding check_names check_values named_fields value_fields strip
  validate c = raise_if (not (is_set (strip c.title))) (value_error "candidate title is required") (
      raise_if (not (is_set (strip c.summary))) (value_error "candidate summary is required")
        (check_names (named_fields c) >>= λ z. check_values (value_fields c)))

  unfoldable pub minimum : F → F → F
  minimum a b = if lt b a then b else a

  unfoldable pub maximum : F → F → F
  maximum a b = if lt a b then b else a

  -- float(len(xs))
  unfoldable pub count {ℓ} : {A : Type ℓ} → List A → F
  count xs = decimal (length xs) 0

  unfoldable pub benefit : LearningCandidate F → F
  benefit c =
      add
        (add
          (add
            (add
              (add (mul (decimal 17 2) c.reuse_likelihood) (mul (decimal 18 2) c.rediscovery_cost))
              (mul (decimal 16 2) c.confidence))
            (mul (decimal 12 2) c.stability))
          (mul (decimal 10 2) c.uniqueness))
        (mul (decimal 19 2) c.token_savings)

  unfoldable pub evidence_bonus : LearningCandidate F → F
  unfolding minimum count
  evidence_bonus c =
      let validators = if c.credit_validators then c.validators else [] in
      minimum (decimal 8 2)
        (add (mul (decimal 2 2) (count c.evidence)) (mul (decimal 2 2) (count validators)))

  unfoldable pub score : LearningCandidate F → F
  unfolding benefit evidence_bonus minimum maximum
  score c = maximum (decimal 0 1) (
      minimum (decimal 10 1)
        (sub (add (benefit c) (evidence_bonus c)) (mul (decimal 8 2) c.maintenance_cost)))
