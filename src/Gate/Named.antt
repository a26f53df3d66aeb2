-- ===== src/Gate/Named.antt =====
-- When the metadata of a memory names a source dependency.
use autonomic_obsidian_kb.Prelude.{
  String, ◌≡◌, refl, sym, ◌∙◌, ◌↔◌, ◌⊎◌, inl, inr, Bool, true, ◌||◌, Option, none, some, List, [],
  ◌∷◌, ◌++◌, arith, ||_cases, is_some, nat_eq, string_eq, list_eq, any, In, here, there,
}
use autonomic_obsidian_kb.Models.Json.{Value, Fields, get, get_set, show, to_list}
use autonomic_obsidian_kb.Models.Json.Value.{arr, obj}
use autonomic_obsidian_kb.Gate.Externals.{Externals}
use autonomic_obsidian_kb.Gate.Applicability.{
  dependency_of, dependencies_of, dependencies_at, source_dependencies,
}

module _ (ex : Externals) where
  -- A value is a dict with a path, and with a digest at `sha256` or `source_hash`.
  pub Naming : Value → Type 0
  Naming (obj d) =
      (is_some (get_set "path" d) ≡ true)
      × ((is_some (get_set "sha256" d) ≡ true) ⊎ (is_some (get_set "source_hash" d) ≡ true))
  Naming _ = ⊥

  -- What stands at a key is a list with such a value.
  pub Names : Option Value → Type 0
  Names (some (arr items)) = (v : Value) × (In v (to_list items) × Naming v)
  Names _ = ⊥

  -- A source dependency stands at one of the three keys.
  pub Dependent : Fields → Type 0
  Dependent metadata =
      Names (get "dependencies" metadata)
      ⊎ (Names (get "provenance" metadata) ⊎ Names (get "validators" metadata))

  some_in : List (String × String) → Bool
  some_in ds = any (λ d. true) ds

  some_in-append :
      (xs ys : List (String × String)) → some_in (xs ++ ys) ≡ (some_in xs || some_in ys)
  unfolding some_in
  some_in-append [] ys = refl
  some_in-append (x ∷ xs) ys = refl

  abbrev pairs : (path sha source : Option Value) → List (String × String)
  pairs path sha source =
      let digest : Option Value = elim sha [ none ↦ source | some h ↦ some h ] in
      elim path [
        | none ↦ []
        | some p ↦ elim digest [ none ↦ [] | some h ↦ (show ex.render p, show ex.render h) ∷ [] ]
      ]

  pairs_iff :
      (path sha source : Option Value)
      → (some_in (pairs path sha source) ≡ true)
        ↔ ((is_some path ≡ true) × ((is_some sha ≡ true) ⊎ (is_some source ≡ true)))
  unfolding some_in
  pairs_iff none sha source = (λ h. cc, λ h. h.0)
  pairs_iff (some p) none none = (λ h. cc, λ h. elim h.1 [ inl e ↦ e | inr e ↦ e ])
  pairs_iff (some p) none (some h) = (λ h. (refl, inr refl), λ h. refl)
  pairs_iff (some p) (some h) source = (λ h. (refl, inl refl), λ h. refl)

  dependency_of_iff : (v : Value) → (some_in (dependency_of ex v) ≡ true) ↔ Naming v
  unfolding dependency_of Naming some_in
  dependency_of_iff (obj d) =
      pairs_iff (get_set "path" d) (get_set "sha256" d) (get_set "source_hash" d)
  dependency_of_iff Value.null = (λ h. cc, λ h. elim h [ ])
  dependency_of_iff (Value.flag b) = (λ h. cc, λ h. elim h [ ])
  dependency_of_iff (Value.num b s) = (λ h. cc, λ h. elim h [ ])
  dependency_of_iff (Value.text s) = (λ h. cc, λ h. elim h [ ])
  dependency_of_iff (arr items) = (λ h. cc, λ h. elim h [ ])

  either_some :
      (xs ys : List (String × String))
      → some_in (xs ++ ys) ≡ true
      → (some_in xs ≡ true) ⊎ (some_in ys ≡ true)
  either_some xs ys h = ||_cases (some_in xs) (some_in ys) (sym (some_in-append xs ys) ∙ h)

  left_some : (xs ys : List (String × String)) → some_in xs ≡ true → some_in (xs ++ ys) ≡ true
  left_some xs ys h = some_in-append xs ys ∙ ground arith

  right_some : (xs ys : List (String × String)) → some_in ys ≡ true → some_in (xs ++ ys) ≡ true
  right_some xs ys h = some_in-append xs ys ∙ ground arith

  dependencies_of_forth :
      (vs : List Value)
      → some_in (dependencies_of ex vs) ≡ true
      → (v : Value) × (In v vs × Naming v)
  unfolding dependencies_of some_in
  dependencies_of_forth [] h = cc
  dependencies_of_forth (v ∷ vs) h =
      elim (either_some (dependency_of ex v) (dependencies_of ex vs) h) [
        | inl a ↦ (v, (here, (dependency_of_iff v).0 a))
        | inr b ↦ let (w, (i, n)) = dependencies_of_forth vs b in (w, (there i, n))
      ]

  dependencies_of_back :
      (vs : List Value) (v : Value) → In v vs → Naming v → some_in (dependencies_of ex vs) ≡ true
  unfolding dependencies_of
  dependencies_of_back [] v i n = elim i [ ]
  dependencies_of_back (w ∷ vs) v here n =
      left_some (dependency_of ex w) (dependencies_of ex vs) ((dependency_of_iff w).1 n)
  dependencies_of_back (w ∷ vs) v (there i) n =
      right_some (dependency_of ex w) (dependencies_of ex vs) (dependencies_of_back vs v i n)

  dependencies_at_iff : (o : Option Value) → (some_in (dependencies_at ex o) ≡ true) ↔ Names o
  unfolding dependencies_at Names some_in
  dependencies_at_iff (some (arr items)) = (
    dependencies_of_forth (to_list items),
    λ h. dependencies_of_back (to_list items) h.0 h.1.0 h.1.1,
  )
  dependencies_at_iff none = (λ h. cc, λ h. elim h [ ])
  dependencies_at_iff (some Value.null) = (λ h. cc, λ h. elim h [ ])
  dependencies_at_iff (some (Value.flag b)) = (λ h. cc, λ h. elim h [ ])
  dependencies_at_iff (some (Value.num b s)) = (λ h. cc, λ h. elim h [ ])
  dependencies_at_iff (some (Value.text s)) = (λ h. cc, λ h. elim h [ ])
  dependencies_at_iff (some (obj d)) = (λ h. cc, λ h. elim h [ ])

  pub source_dependencies_some :
      (metadata : Fields)
      → (any (λ d. true) (source_dependencies ex metadata) ≡ true) ↔ Dependent metadata
  unfolding source_dependencies Dependent some_in
  source_dependencies_some metadata =
      let a = dependencies_at ex (get "dependencies" metadata) in
      let b = dependencies_at ex (get "provenance" metadata) in
      let c = dependencies_at ex (get "validators" metadata) in
      let first = dependencies_at_iff (get "dependencies" metadata) in
      let second = dependencies_at_iff (get "provenance" metadata) in
      let third = dependencies_at_iff (get "validators" metadata) in
      (
        λ h. elim (either_some (a ++ b) c h) [
          | inr z ↦ inr (inr (third.0 z))
          | inl xy ↦ elim (either_some a b xy) [
            | inl x ↦ inl (first.0 x)
            | inr y ↦ inr (inl (second.0 y))
          ]
        ],
        λ h. elim h [
          | inl x ↦ left_some (a ++ b) c (left_some a b (first.1 x))
          | inr yz ↦ elim yz [
            | inl y ↦ left_some (a ++ b) c (right_some a b (second.1 y))
            | inr z ↦ right_some (a ++ b) c (third.1 z)
          ]
        ],
      )
