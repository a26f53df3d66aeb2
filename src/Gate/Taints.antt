-- ===== src/Gate/Taints.antt =====
-- Which taint `combine_taint` of security.py answers.
use autonomic_obsidian_kb.Prelude.{
  ◌≤◌, String, ◌≡◌, refl, sym, ap, ◌∙◌, subst, ◌↔◌, ◌⊎◌, inl, inr, true, false, List, ◌∷◌, arith,
  Bool-cases, In-All, eq_iff, ne_of_test, nat_eq, string_eq, list_eq, All, is_in, In-of_is_in,
  All-of_is_in, lookup,
}
use autonomic_obsidian_kb.Gate.Trust.{taint_rank, combine_taint, combine_taint_max}

-- The ranks of the taints that stand above and below all others.
rank_of_hostile : (v : String) → 4 ≤ taint_rank v → v ≡ "hostile"
unfolding taint_rank lookup
rank_of_hostile v h = ground (arith, eq_iff "hostile" v)

rank_of_untrusted : (v : String) → 3 ≤ taint_rank v → (v ≡ "hostile") ⊎ (v ≡ "untrusted")
unfolding taint_rank lookup
rank_of_untrusted v h = ground (arith, eq_iff "hostile" v, eq_iff "untrusted" v)

rank_of_trusted : (v : String) → taint_rank v ≤ 0 → v ≡ "trusted"
unfolding taint_rank lookup
rank_of_trusted v h = ground (arith, eq_iff "trusted" v)

trusted_rank : taint_rank "trusted" ≡ 0
unfolding taint_rank lookup
trusted_rank = refl

-- The taint answered stands in the list, which decides what it is.
module _ (v : String) (vs : List String) where
  answered : (w : String) → combine_taint (v ∷ vs) ≡ w → is_in w (v ∷ vs) ≡ true
  answered w e = subst (λ z. is_in z (v ∷ vs) ≡ true) e (combine_taint_max v vs).0

  highest :
      (w : String) → is_in w (v ∷ vs) ≡ true → taint_rank w ≤ taint_rank (combine_taint (v ∷ vs))
  highest w i =
      In-All (λ z. taint_rank z ≤ taint_rank (combine_taint (v ∷ vs))) w (v ∷ vs)
        (In-of_is_in w (v ∷ vs) i) (combine_taint_max v vs).1

  hostile_found : is_in "hostile" (v ∷ vs) ≡ true → combine_taint (v ∷ vs) ≡ "hostile"
  unfolding taint_rank lookup
  hostile_found i = rank_of_hostile (combine_taint (v ∷ vs)) (highest "hostile" i)

  untrusted_found :
      is_in "hostile" (v ∷ vs) ≡ false
      → is_in "untrusted" (v ∷ vs) ≡ true
      → combine_taint (v ∷ vs) ≡ "untrusted"
  unfolding taint_rank lookup
  untrusted_found n i = elim (rank_of_untrusted (combine_taint (v ∷ vs)) (highest "untrusted" i)) [
    | inl e ↦ let j = answered "hostile" e in cc
    | inr e ↦ e
  ]

  trusted_found : All (λ w. w ≡ "trusted") (v ∷ vs) → combine_taint (v ∷ vs) ≡ "trusted"
  trusted_found h =
      In-All (λ w. w ≡ "trusted") (combine_taint (v ∷ vs)) (v ∷ vs)
        (In-of_is_in (combine_taint (v ∷ vs)) (v ∷ vs) (combine_taint_max v vs).0) h

  trusted_answered : combine_taint (v ∷ vs) ≡ "trusted" → All (λ w. w ≡ "trusted") (v ∷ vs)
  trusted_answered e =
      All-of_is_in (λ w. w ≡ "trusted") (v ∷ vs) (λ w i. rank_of_trusted w (lowest w (highest w i)))
    where
      rank_zero : taint_rank "trusted" ≡ 0
      rank_zero = trusted_rank

      lowest : (w : String) → taint_rank w ≤ taint_rank (combine_taint (v ∷ vs)) → taint_rank w ≤ 0
      lowest w h = subst (λ n. taint_rank w ≤ n) (ap taint_rank e ∙ rank_zero) h

-- The combined taint of a non-empty list is hostile exactly when the list has hostile; it is untrusted
-- exactly when the list has untrusted and not hostile; it is trusted exactly when every taint of the
-- list is trusted; and it is always one of the list's.
pub combine_taint_iff :
    (value : String) (values : List String)
    → ((combine_taint (value ∷ values) ≡ "hostile") ↔ (is_in "hostile" (value ∷ values) ≡ true))
      × ((combine_taint (value ∷ values) ≡ "untrusted") ↔ (
          (is_in "hostile" (value ∷ values) ≡ false) × (is_in "untrusted" (value ∷ values) ≡ true)))
      × ((combine_taint (value ∷ values) ≡ "trusted") ↔ All (λ v. v ≡ "trusted") (value ∷ values))
      × (is_in (combine_taint (value ∷ values)) (value ∷ values) ≡ true)
combine_taint_iff v vs = (
  (answered v vs "hostile", hostile_found v vs),
  (λ e. (no_hostile e, answered v vs "untrusted" e), λ h. untrusted_found v vs h.0 h.1),
  (trusted_answered v vs, trusted_found v vs),
  (combine_taint_max v vs).0,
)
  where
    no_hostile : combine_taint (v ∷ vs) ≡ "untrusted" → is_in "hostile" (v ∷ vs) ≡ false
    no_hostile e = elim (Bool-cases (is_in "hostile" (v ∷ vs))) [
      | inr n ↦ n
      | inl i ↦ elim (ne_of_test "hostile" "untrusted" refl (sym (hostile_found v vs i) ∙ e)) [ ]
    ]
