-- ===== src/Storage/Move.antt =====
-- `move_into` of storage.py, on the texts of a vault by their paths.
use autonomic_obsidian_kb.Prelude.{
  ℕ, zero, suc, String, ◌≡◌, sym, ap, ◌∙◌, subst, inl, inr, false, Option, none, some, List, [],
  ◌∷◌, ◌++◌, map, if◌then◌else◌, Bool-cases, Option-cases, is_some, ◌==◌, test_of_ne, nat_eq,
  string_eq, list_eq, lookup, insert, remove, lookup-insert, lookup-insert_self, lookup-remove,
  file_exists_error, file_not_found_error, Result, ok, raise, ok_inj, append,
}
use autonomic_obsidian_kb.Evidence.Records.{first_chars}

-- Path.name, Path.stem, Path.suffix and the resolved parent of a path; sha256_text; str of a number.
pub record PathCalls : Type 0 where
  pub name : String → String
  pub stem : String → String
  pub suffix : String → String
  pub parent : String → String
  pub sha256 : String → String
  pub show_nat : ℕ → String

some-none : {A : Type 0} {a : A} → some a ≡ none → ⊥
some-none h = cc

module _ (calls : PathCalls) where
  open calls use {name, stem, suffix, parent, sha256, show_nat}

  unfoldable pub numbered_names : String → String → ℕ → ℕ → List String
  unfolding first_chars
  numbered_names source digest number zero = []
  numbered_names source digest number (suc n) =
      append (stem source) (
        append "-"
          (append (first_chars 16 digest) (append "-" (append (show_nat number) (suffix source)))))
      ∷ numbered_names source digest (suc number) n

  -- The names that a move tries, for the digest of the note's identity.
  unfoldable pub move_names : String → String → List String
  unfolding numbered_names first_chars
  move_names source digest =
      name source
        ∷ map
            (λ n. append (stem source) (append "-" (append (first_chars n digest) (suffix source))))
            (8 ∷ 16 ∷ 64 ∷ [])
      ++ numbered_names source digest 2 998

  -- The loop over the names: a link to the first free one, then the source is removed.
  unfoldable pub link_first :
      String
      → String
      → String
      → List String
      → List (String × String)
      → Result (String × List (String × String))
  unfolding lookup insert remove
  link_first source directory s [] files = raise file_exists_error
  link_first source directory s (n ∷ names) files =
      let rest = link_first source directory s names files in
      let destination = append directory (append "/" n) in
      if is_some (lookup destination files)
      then rest
      else ok (destination, remove source (insert destination s files))

  unfoldable pub move_text :
      String
      → String
      → String
      → List (String × String)
      → Option String
      → Result (String × List (String × String))
  unfolding link_first move_names
  move_text source directory identity files none = raise file_not_found_error
  move_text source directory identity files (some s) =
      link_first source directory s (move_names source (sha256 identity)) files

  unfoldable pub move_into :
      String → String → String → List (String × String) → Result (String × List (String × String))
  unfolding move_text lookup
  move_into source directory identity files =
      if parent source == directory
      then ok (source, files)
      else move_text source directory identity files (lookup source files)

  -- What a move leaves.
  pub record Moved (source s : String) (files : List (String × String)) (destination : String)
      (after : List (String × String)) : Type 0 where
    pub arrived : lookup destination after ≡ some s
    pub kept :
        (p u : String) → (source == p) ≡ false → lookup p files ≡ some u → lookup p after ≡ some u

  link_first-Moved :
      (source directory s : String) (names : List String) (files after : List (String × String))
      (destination : String)
      → lookup source files ≡ some s
      → link_first source directory s names files ≡ ok (destination, after)
      → Moved source s files destination after
  unfolding link_first
  link_first-Moved source directory s [] files after destination at h = cc
  link_first-Moved source directory s (n ∷ names) files after destination at h =
      let place = append directory (append "/" n) in
      elim (Option-cases (lookup place files)) [
        | inr (u, e) ↦
            link_first-Moved source directory s names files after destination at (rw e at h)
        | inl e ↦
            subst (λ (r : String × List (String × String)). Moved source s files r.0 r.1)
              (ok_inj (rw e at h))
              (record {
                arrived =
                    lookup-remove source place (insert place s files)
                    ∙ rw (apart place e) (lookup-insert_self place s files);
                kept = λ p u f g.
                    lookup-remove source p (insert place s files)
                    ∙ rw f (lookup-insert place p s files ∙ rw (free p u place e g) g);
              })
      ]
    where
      apart : (place : String) → lookup place files ≡ none → (source == place) ≡ false
      apart place e =
          test_of_ne source place (λ q. some-none (sym at ∙ ap (λ x. lookup x files) q ∙ e))

      free :
          (p u place : String)
          → lookup place files ≡ none
          → lookup p files ≡ some u
          → (place == p) ≡ false
      free p u place e g =
          test_of_ne place p (λ q. some-none (sym g ∙ ap (λ x. lookup x files) (sym q) ∙ e))

  pub move_into-Moved :
      (source directory identity s : String) (files after : List (String × String))
      (destination : String)
      → lookup source files ≡ some s
      → move_into source directory identity files ≡ ok (destination, after)
      → Moved source s files destination after
  unfolding move_into move_text
  move_into-Moved source directory identity s files after destination at h =
      elim (Bool-cases (parent source == directory)) [
        | inl e ↦
            subst (λ (r : String × List (String × String)). Moved source s files r.0 r.1)
              (ok_inj (rw e at h)) (record { arrived = at; kept = λ p u f g. g })
        | inr e ↦
            link_first-Moved source directory s (move_names source (sha256 identity)) files after
              destination at (rw (e, at) at h)
      ]

-- A move that returns a path leaves the text of its source there, and every other file that was there
-- before with the text it had: it never replaces one.
pub move_into_keeps :
    (calls : PathCalls) (source directory identity s p u : String)
    (files after : List (String × String)) (destination : String)
    → lookup source files ≡ some s
    → move_into calls source directory identity files ≡ ok (destination, after)
    → (source == p) ≡ false
    → lookup p files ≡ some u
    → (lookup destination after ≡ some s) × (lookup p after ≡ some u)
move_into_keeps calls source directory identity s p u files after destination at h other
      there_before =
    let m = move_into-Moved calls source directory identity s files after destination at h in
    (m.arrived, m.kept p u other there_before)
