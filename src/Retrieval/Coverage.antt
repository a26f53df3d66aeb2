-- ===== src/Retrieval/Coverage.antt =====
-- The sufficiency of the representations against the roles that a task needs.
use autonomic_obsidian_kb.Prelude.{
  ℕ, String, ◌≡◌, refl, sym, ◌∙◌, ◌↔◌, inl, inr, Bool, true, false, not, List, [], ◌∷◌,
  if◌then◌else◌, Bool-cases, ne_of_test, nat_eq, string_eq, list_eq, any, filter, All, is_in,
  text_le,
}
use autonomic_obsidian_kb.Prelude.Sort.{sort, any-sort}
use autonomic_obsidian_kb.Prelude.Sets.{non_empty}
use autonomic_obsidian_kb.Models.Json.{Value}
use autonomic_obsidian_kb.Models.Note.{Note}
use autonomic_obsidian_kb.Retrieval.Shown.{Covered, covered_roles_iff}
use autonomic_obsidian_kb.Retrieval.Sufficiency.{
  required_roles, roles_at, covered_roles, assess_sufficiency,
}

no_filter-All :
    {A : Type 0} (p : A → Bool) (xs : List A)
    → non_empty (filter (λ x. not (p x)) xs) ≡ false
    → All (λ x. p x ≡ true) xs
no_filter-All p [] h = tt
no_filter-All p (x ∷ xs) h = elim (Bool-cases (p x)) [
  | inl e ↦ (e, no_filter-All p xs (rw e at h))
  | inr e ↦ let h' = rw e at h in cc
]

All-no_filter :
    {A : Type 0} (p : A → Bool) (xs : List A)
    → All (λ x. p x ≡ true) xs
    → non_empty (filter (λ x. not (p x)) xs) ≡ false
All-no_filter p [] h = refl
All-no_filter p (x ∷ xs) h = rw h.0 (All-no_filter p xs h.1)

non_empty-any : (xs : List String) → non_empty xs ≡ any (λ x. true) xs
non_empty-any [] = refl
non_empty-any (x ∷ xs) = refl

non_empty-sort : (xs : List String) → non_empty (sort text_le xs) ≡ non_empty xs
non_empty-sort xs =
    non_empty-any (sort text_le xs) ∙ any-sort text_le (λ x. true) xs ∙ sym (non_empty-any xs)

-- The state by its two tests.
abbrev state_of : (selected missing : Bool) (required names : List String) → String × List String
state_of selected missing required names =
    if not selected
    then ("insufficient_evidence", required)
    else if missing
    then ("partial_context", names)
    else ("sufficient_context", [])

state_of-sufficient :
    (selected missing : Bool) (required names : List String)
    → (state_of selected missing required names).0 ≡ "sufficient_context"
    → (selected ≡ true) × (missing ≡ false)
state_of-sufficient false missing required names h =
    elim (ne_of_test "insufficient_evidence" "sufficient_context" refl h) [ ]
state_of-sufficient true true required names h =
    elim (ne_of_test "partial_context" "sufficient_context" refl h) [ ]
state_of-sufficient true false required names h = (refl, refl)

All_mono :
    {A : Type 0} {P Q : A → Type 0} (xs : List A) → ((x : A) → P x → Q x) → All P xs → All Q xs
All_mono [] f h = tt
All_mono (x ∷ xs) f h = (f x h.0, All_mono xs f h.1)

-- The context is sufficient exactly when something is delivered, and each role that the intent requires
-- is shown by a note of those delivered, with its text: it is a role of the note's type, where the text
-- is not empty; or steps or a fix, where the text contains the note's detail; or the verification or the
-- rationale, where the text contains it; or the preconditions, where the text contains each of them.
pub assess_sufficiency_iff :
    (F : Type 0) (render : Value → String) (count : String → ℕ) (intent : String)
    (selected : List (Note F × String))
    → ((assess_sufficiency F render count intent selected).0 ≡ "sufficient_context") ↔ (
        (non_empty selected ≡ true)
        × All (Covered F render count selected) (roles_at intent required_roles))
unfolding assess_sufficiency
assess_sufficiency_iff F render count intent selected =
    let required = roles_at intent required_roles in
    let covered = λ (role : String). is_in role (covered_roles F render count selected) in
    let missing = filter (λ role. not (covered role)) required in
    (
      λ h.
          let (chosen, none_missing) =
            state_of-sufficient (non_empty selected) (non_empty (sort text_le missing)) _ _ h in
          (
            chosen,
            All_mono required (λ role. (covered_roles_iff F render count selected role).0)
                (no_filter-All covered required (sym (non_empty-sort missing) ∙ none_missing)),
          ),
      λ h.
          rw
            (
              h.0,
              non_empty-sort missing
                  ∙ All-no_filter covered required (
                      All_mono required (λ role. (covered_roles_iff F render count selected role).1)
                        h.1),
            )
            refl,
    )
