-- ===== src/Gate/Sources.antt =====
-- The source dependencies that the metadata of a memory records, key by key.
use autonomic_obsidian_kb.Prelude.{
  String, ◌≡◌, refl, ◌↔◌, ◌⊎◌, inl, inr, true, Option, none, some, List, [], ◌∷◌, ◌++◌,
  All-append_left, All-append_right, nat_eq, string_eq, list_eq, All, All-append, some_inj,
}
use autonomic_obsidian_kb.Models.Json.{Value, Fields, get, get_set, show, to_list}
use autonomic_obsidian_kb.Models.Json.Value.{arr, obj}
use autonomic_obsidian_kb.Gate.Externals.{Externals}
use autonomic_obsidian_kb.Gate.Applicability.{
  dependency_of, dependencies_of, dependencies_at, source_dependencies,
}

module _ (ex : Externals) (root : Option String) where
  -- The repository is there, and has a file with a digest at a path inside.
  unfoldable pub Unchanged : String × String → Type 0
  Unchanged d =
      (r : String) × ((root ≡ some r)
        × (ex.inside r d.0 ≡ true)
        × (ex.sha256_file r d.0 ≡ some d.1))

  -- A digest is that at `sha256`, or else that at `source_hash`.
  pub IsDigest : Option Value → Option Value → Value → Type 0
  IsDigest sha source hash = (sha ≡ some hash) ⊎ ((sha ≡ none) × (source ≡ some hash))

  HeldAt : (path sha source : Option Value) → Type 0
  HeldAt path sha source =
      (path ≡ none)
      ⊎ (((sha ≡ none) × (source ≡ none))
          ⊎ ((p : Value) × ((h : Value) × ((path ≡ some p)
                  × (IsDigest sha source h × Unchanged (show ex.render p, show ex.render h))))))

  -- A value is no dict, or has no path or no digest, or names an unchanged file.
  pub Held : Value → Type 0
  Held (obj d) = HeldAt (get_set "path" d) (get_set "sha256" d) (get_set "source_hash" d)
  Held _ = Unit {0}

  -- What stands at a key is no list, or a list of such values.
  pub HeldList : Option Value → Type 0
  HeldList (some (arr items)) = All Held (to_list items)
  HeldList _ = Unit {0}

  -- The three keys of the metadata.
  pub record Sources (metadata : Fields) : Type 0 where
    pub dependencies : HeldList (get "dependencies" metadata)
    pub provenance : HeldList (get "provenance" metadata)
    pub validators : HeldList (get "validators" metadata)

  abbrev pairs : (path sha source : Option Value) → List (String × String)
  pairs path sha source =
      let digest : Option Value = elim sha [ none ↦ source | some h ↦ some h ] in
      elim path [
        | none ↦ []
        | some p ↦ elim digest [ none ↦ [] | some h ↦ (show ex.render p, show ex.render h) ∷ [] ]
      ]

  held_forth :
      (path sha source : Option Value)
      → All Unchanged (pairs path sha source)
      → HeldAt path sha source
  unfolding HeldAt IsDigest
  held_forth none sha source a = inl refl
  held_forth (some p) none none a = inr (inl (refl, refl))
  held_forth (some p) none (some h) a = inr (inr (p, (h, (refl, (inr (refl, refl), a.0)))))
  held_forth (some p) (some h) source a = inr (inr (p, (h, (refl, (inl refl, a.0)))))

  same_file :
      (p q h k : Value)
      → some p ≡ some q
      → some h ≡ some k
      → Unchanged (show ex.render q, show ex.render k)
      → Unchanged (show ex.render p, show ex.render h)
  same_file p q h k e f u = rw (some_inj e, some_inj f) u

  held_back :
      (path sha source : Option Value)
      → HeldAt path sha source
      → All Unchanged (pairs path sha source)
  unfolding HeldAt IsDigest
  held_back none sha source a = tt
  held_back (some p) none none a = tt
  held_back (some p) none (some h) (inl e) = cc
  held_back (some p) none (some h) (inr (inl (e, f))) = cc
  held_back (some p) none (some h) (inr (inr (q, (k, (e, (inl f, u)))))) = cc
  held_back (some p) none (some h) (inr (inr (q, (k, (e, (inr (f, g), u)))))) =
      (same_file p q h k e g u, tt)
  held_back (some p) (some h) source (inl e) = cc
  held_back (some p) (some h) source (inr (inl (e, f))) = cc
  held_back (some p) (some h) source (inr (inr (q, (k, (e, (inl f, u)))))) =
      (same_file p q h k e f u, tt)
  held_back (some p) (some h) source (inr (inr (q, (k, (e, (inr (f, g), u)))))) = cc

  dependency_of_iff : (v : Value) → All Unchanged (dependency_of ex v) ↔ Held v
  unfolding dependency_of Held
  dependency_of_iff (obj d) = (
    held_forth (get_set "path" d) (get_set "sha256" d) (get_set "source_hash" d),
    held_back (get_set "path" d) (get_set "sha256" d) (get_set "source_hash" d),
  )
  dependency_of_iff Value.null = (λ a. tt, λ a. tt)
  dependency_of_iff (Value.flag b) = (λ a. tt, λ a. tt)
  dependency_of_iff (Value.num b s) = (λ a. tt, λ a. tt)
  dependency_of_iff (Value.text s) = (λ a. tt, λ a. tt)
  dependency_of_iff (arr items) = (λ a. tt, λ a. tt)

  dependencies_of_iff : (vs : List Value) → All Unchanged (dependencies_of ex vs) ↔ All Held vs
  unfolding dependencies_of
  dependencies_of_iff [] = (λ a. tt, λ a. tt)
  dependencies_of_iff (v ∷ vs) =
      let later = dependencies_of_iff vs in
      (
        λ a. (
          (dependency_of_iff v).0
              (All-append_left Unchanged (dependency_of ex v) (dependencies_of ex vs) a),
          later.0 (All-append_right Unchanged (dependency_of ex v) (dependencies_of ex vs) a),
        ),
        λ a.
            All-append Unchanged (dependency_of ex v) (dependencies_of ex vs)
              ((dependency_of_iff v).1 a.0) (later.1 a.1),
      )

  dependencies_at_iff : (o : Option Value) → All Unchanged (dependencies_at ex o) ↔ HeldList o
  unfolding dependencies_at HeldList
  dependencies_at_iff (some (arr items)) = dependencies_of_iff (to_list items)
  dependencies_at_iff none = (λ a. tt, λ a. tt)
  dependencies_at_iff (some Value.null) = (λ a. tt, λ a. tt)
  dependencies_at_iff (some (Value.flag b)) = (λ a. tt, λ a. tt)
  dependencies_at_iff (some (Value.num b s)) = (λ a. tt, λ a. tt)
  dependencies_at_iff (some (Value.text s)) = (λ a. tt, λ a. tt)
  dependencies_at_iff (some (obj d)) = (λ a. tt, λ a. tt)

  pub source_dependencies_iff :
      (metadata : Fields) → All Unchanged (source_dependencies ex metadata) ↔ Sources metadata
  unfolding source_dependencies
  source_dependencies_iff metadata =
      let a = dependencies_at ex (get "dependencies" metadata) in
      let b = dependencies_at ex (get "provenance" metadata) in
      let c = dependencies_at ex (get "validators" metadata) in
      let first = dependencies_at_iff (get "dependencies" metadata) in
      let second = dependencies_at_iff (get "provenance" metadata) in
      let third = dependencies_at_iff (get "validators" metadata) in
      (
        λ h.
            let ab = All-append_left Unchanged (a ++ b) c h in
            record {
              dependencies = first.0 (All-append_left Unchanged a b ab);
              provenance = second.0 (All-append_right Unchanged a b ab);
              validators = third.0 (All-append_right Unchanged (a ++ b) c h);
            },
        λ h.
            All-append Unchanged (a ++ b) c
              (All-append Unchanged a b (first.1 h.dependencies) (second.1 h.provenance))
              (third.1 h.validators),
      )
