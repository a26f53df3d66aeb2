-- ===== src/Gate/Matching.antt =====
-- When `dependencies_match` of applicability.py accepts a list of source dependencies.
use autonomic_obsidian_kb.Prelude.{
  String, ◌≡◌, refl, ap, ◌∙◌, inl, inr, true, Option, none, some, List, [], ◌∷◌, arith, Bool-cases,
  Option-cases, ◌==◌, eq_refl, eq_of_test, nat_eq, string_eq, list_eq, All, some_inj,
}
use autonomic_obsidian_kb.Gate.Externals.{Externals}
use autonomic_obsidian_kb.Gate.Sources.{Unchanged}
use autonomic_obsidian_kb.Gate.Applicability.{all_match, match_in}

module _ (ex : Externals) where
  all_match_sound :
      (root : String) (ds : List (String × String))
      → (all_match ex root ds).0 ≡ true
      → All (Unchanged ex (some root)) ds
  unfolding all_match Unchanged
  all_match_sound root [] h = tt
  all_match_sound root ((path, sha) ∷ ds) h = elim (Bool-cases (ex.inside root path)) [
    | inr e ↦ cc
    | inl e ↦ elim (Option-cases (ex.sha256_file root path)) [
      | inl n ↦ cc
      | inr (found, s) ↦ elim (Bool-cases (found == sha)) [
        | inl t ↦ (
          (root, (refl, e, s ∙ ap some (eq_of_test found sha t))),
          all_match_sound root ds (ground arith),
        )
        | inr f ↦ ground arith
      ]
    ]
  ]

  pub match_in_sound :
      (root : Option String) (ds : List (String × String))
      → (match_in ex root ds).0 ≡ true
      → All (Unchanged ex root) ds
  unfolding match_in
  match_in_sound none [] h = tt
  match_in_sound none (d ∷ ds) h = cc
  match_in_sound (some root) ds h = all_match_sound root ds h

  same_root :
      (root r : String) (path sha : String)
      → some root ≡ some r
      → (ex.inside r path ≡ true) × (ex.sha256_file r path ≡ some sha)
      → (ex.inside root path ≡ true) × (ex.sha256_file root path ≡ some sha)
  same_root root r path sha e u = rw (some_inj e) u

  all_match_complete :
      (root : String) (ds : List (String × String))
      → All (Unchanged ex (some root)) ds
      → (all_match ex root ds).0 ≡ true
  unfolding all_match Unchanged
  all_match_complete root [] h = refl
  all_match_complete root ((path, sha) ∷ ds) h =
      let rest = all_match_complete root ds h.1 in
      let (r, (e, u, w)) = h.0 in
      let (a, b) = same_root root r path sha e (u, w) in rw (a, b, eq_refl sha) rest

  pub match_in_complete :
      (root : Option String) (ds : List (String × String))
      → All (Unchanged ex root) ds
      → (match_in ex root ds).0 ≡ true
  unfolding match_in Unchanged
  match_in_complete none [] h = refl
  match_in_complete none (d ∷ ds) h = let (r, (e, u, w)) = h.0 in cc
  match_in_complete (some root) ds h = all_match_complete root ds h
