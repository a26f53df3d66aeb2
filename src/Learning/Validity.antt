-- ===== src/Learning/Validity.antt =====
-- Which candidates `validate` of learning.py accepts.
use autonomic_obsidian_kb.Prelude.{
  String, ◌≡◌, refl, ◌↔◌, inl, inr, true, List, [], ◌∷◌, Bool-cases, nat_eq, string_eq, list_eq,
  All, is_in, Result, ok, raise, ◌>>=◌, bind_ok, &&_iff, keys, is_set, strip,
}
use autonomic_obsidian_kb.Models.Floats.{Floats}
use autonomic_obsidian_kb.Gate.Read.{valid_types}
use autonomic_obsidian_kb.Gate.Trust.{taint_order}
use autonomic_obsidian_kb.Learning.Candidate.{
  LearningCandidate, valid_scopes, authorities, in_unit, check_values, check_names, named_fields,
  value_fields, validate,
}

-- A number of the closed interval from 0 to 1.
pub Between : (fl : Floats) → fl.F → Type 0
Between fl value = (fl.le (fl.decimal 0 1) value ≡ true) × (fl.le value (fl.decimal 10 1) ≡ true)

pub record IsValid (fl : Floats) (c : LearningCandidate fl.F) : Type 0 where
  pub titled : is_set (strip c.title) ≡ true
  pub summarized : is_set (strip c.summary) ≡ true
  pub memory_type : is_in c.memory_type valid_types ≡ true
  pub scope : is_in c.scope valid_scopes ≡ true
  pub authority : is_in c.authority authorities ≡ true
  pub taint : is_in c.taint (keys taint_order) ≡ true
  pub confidence : Between fl c.confidence
  pub reuse_likelihood : Between fl c.reuse_likelihood
  pub rediscovery_cost : Between fl c.rediscovery_cost
  pub stability : Between fl c.stability
  pub uniqueness : Between fl c.uniqueness
  pub token_savings : Between fl c.token_savings
  pub maintenance_cost : Between fl c.maintenance_cost

module _ (fl : Floats) where
  names_sound :
      (fields : List (String × String × List String))
      → check_names fl fields ≡ ok tt
      → All (λ n. is_in n.1 n.2 ≡ true) fields
  unfolding check_names
  names_sound [] h = tt
  names_sound ((name, value, allowed) ∷ rest) h = elim (Bool-cases (is_in value allowed)) [
    | inl e ↦ (e, names_sound rest (rw e at h))
    | inr e ↦ let h' = rw e at h in cc
  ]

  names_complete :
      (fields : List (String × String × List String))
      → All (λ n. is_in n.1 n.2 ≡ true) fields
      → check_names fl fields ≡ ok tt
  unfolding check_names
  names_complete [] h = refl
  names_complete ((name, value, allowed) ∷ rest) h = rw h.0 (names_complete rest h.1)

  numbers_sound :
      (fields : List (String × fl.F))
      → check_values fl fields ≡ ok tt
      → All (λ v. Between fl v.1) fields
  unfolding check_values in_unit Between
  numbers_sound [] h = tt
  numbers_sound ((name, value) ∷ rest) h = elim (Bool-cases (in_unit fl value)) [
    | inl e ↦ (
      &&_iff (fl.le (fl.decimal 0 1) value) (fl.le value (fl.decimal 10 1)) e,
      numbers_sound rest (rw e at h),
    )
    | inr e ↦ let h' = rw e at h in cc
  ]

  numbers_complete :
      (fields : List (String × fl.F))
      → All (λ v. Between fl v.1) fields
      → check_values fl fields ≡ ok tt
  unfolding check_values in_unit Between
  numbers_complete [] h = refl
  numbers_complete ((name, value) ∷ rest) h = rw (h.0.0, h.0.1) (numbers_complete rest h.1)

  bind_unit :
      {m : Result (Unit {0})} {n : Result (Unit {0})}
      → m ≡ ok tt
      → n ≡ ok tt
      → (m >>= λ z. n) ≡ ok tt
  bind_unit {m = ok z} p q = q
  bind_unit {m = raise e} p q = cc

  validate_sound : (c : LearningCandidate fl.F) → validate fl c ≡ ok tt → IsValid fl c
  unfolding validate named_fields value_fields
  validate_sound c h = elim (Bool-cases (is_set (strip c.title))) [
    | inr e ↦ let h' = rw e at h in cc
    | inl e ↦ elim (Bool-cases (is_set (strip c.summary))) [
      | inr f ↦ let h' = rw (e, f) at h in cc
      | inl f ↦
          let (z, (names, numbers)) =
            bind_ok (check_names fl (named_fields fl c)) (λ z. check_values fl (value_fields fl c))
              tt (rw (e, f) at h) in
          let known = names_sound (named_fields fl c) names in
          let within = numbers_sound (value_fields fl c) numbers in
          record {
            titled = e;
            summarized = f;
            memory_type = known.0;
            scope = known.1.0;
            authority = known.1.1.0;
            taint = known.1.1.1.0;
            confidence = within.0;
            reuse_likelihood = within.1.0;
            rediscovery_cost = within.1.1.0;
            stability = within.1.1.1.0;
            uniqueness = within.1.1.1.1.0;
            token_savings = within.1.1.1.1.1.0;
            maintenance_cost = within.1.1.1.1.1.1.0;
          }
    ]
  ]

  validate_complete : (c : LearningCandidate fl.F) → IsValid fl c → validate fl c ≡ ok tt
  unfolding validate named_fields value_fields
  validate_complete c v =
      rw (v.titled, v.summarized)
        (bind_unit {m = check_names fl (named_fields fl c)}
          (names_complete (named_fields fl c)
            (v.memory_type, (v.scope, (v.authority, (v.taint, tt)))))
          (numbers_complete (value_fields fl c) (
            v.confidence,
            (
              v.reuse_likelihood,
              (
                v.rediscovery_cost,
                (v.stability, (v.uniqueness, (v.token_savings, (v.maintenance_cost, tt)))),
              ),
            ),
          )))

-- `validate` accepts a candidate exactly when its title and summary are not blank, its type, scope,
-- authority and taint are among those known, and each of its seven estimates lies between 0 and 1.
pub validate_iff :
    (fl : Floats) (c : LearningCandidate fl.F) → (validate fl c ≡ ok tt) ↔ IsValid fl c
validate_iff fl c = (validate_sound fl c, validate_complete fl c)
