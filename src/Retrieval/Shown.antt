-- ===== src/Retrieval/Shown.antt =====
-- Which roles a note with a delivered text has, and those of all that is delivered.
use autonomic_obsidian_kb.Prelude.{
  ℕ, String, ◌≡◌, refl, sym, ◌∙◌, ◌↔◌, ◌⊎◌, inl, inr, Bool, true, List, [], ◌∷◌, ◌++◌, arith,
  if◌then◌else◌, &&_iff, ||_cases, eq_iff, nat_eq, string_eq, list_eq, all, All, In, here, there,
  is_in, is_in-append, is_set, strip, contains,
}
use autonomic_obsidian_kb.Prelude.Sets.{non_empty}
use autonomic_obsidian_kb.Models.Json.{Value, show}
use autonomic_obsidian_kb.Models.Note.{Note}
use autonomic_obsidian_kb.Retrieval.View.{preconditions, stripped_field}
use autonomic_obsidian_kb.Retrieval.Sufficiency.{
  type_roles, roles_at, detail_roles, field_roles, condition_roles, evidence_roles, covered_roles,
}

module _ (F : Type 0) (render : Value → String) (count : String → ℕ) where
  -- The role is one of the memory type, and a text is delivered.
  pub OfType : Note F → String → String → Type 0
  OfType note s role =
      (is_set s ≡ true) × (is_in role (roles_at note.memory_type type_roles) ≡ true)

  -- The text contains the detail of the note, which are steps or a fix.
  pub Detailed : Note F → String → String → Type 0
  Detailed note s role =
      (is_set (strip (note.layer 2)) ≡ true)
      × (contains s (strip (note.layer 2)) ≡ true)
      × (((role ≡ "steps")
            × (is_in note.memory_type ("procedure" ∷ "command" ∷ "workflow" ∷ []) ≡ true))
          ⊎ ((role ≡ "fix") × (note.memory_type ≡ "solution")))

  -- The text contains the metadata of a name, which is the role.
  pub Quoted : String → Note F → String → String → Type 0
  Quoted name note s role =
      (role ≡ name)
      × ((is_set (stripped_field F render count name note.metadata) ≡ true)
          × (contains s (stripped_field F render count name note.metadata) ≡ true))

  -- The text contains each of the preconditions, of which there are some.
  pub Conditioned : Note F → String → String → Type 0
  Conditioned note s role =
      (role ≡ "preconditions")
      × ((non_empty (preconditions F render count note.metadata) ≡ true)
          × All (λ v. contains s (show render v) ≡ true)
              (preconditions F render count note.metadata))

  -- What a note with a delivered text shows.
  pub data Shows (note : Note F) (s role : String) : Type 0 where
    of_type : OfType note s role → Shows note s role
    detailed : Detailed note s role → Shows note s role
    verified : Quoted "verification" note s role → Shows note s role
    explained : Quoted "rationale" note s role → Shows note s role
    conditioned : Conditioned note s role → Shows note s role

  OfType-iff :
      (note : Note F) (s role : String)
      → (is_in role (if is_set s then roles_at note.memory_type type_roles else []) ≡ true)
        ↔ OfType note s role
  unfolding OfType
  OfType-iff note s role = (λ h. ground arith, λ h. rw h.0 h.1)

  Detailed-iff :
      (note : Note F) (s role : String)
      → (is_in role (detail_roles F render count note s) ≡ true) ↔ Detailed note s role
  unfolding Detailed detail_roles
  Detailed-iff note s role = (
    λ h. ground (arith, eq_iff role "steps", eq_iff role "fix", eq_iff note.memory_type "solution"),
    λ h.
        let (p, q, r) = h in
        elim r [ inl (a, b) ↦ rw (a, p, q, b) refl | inr (a, b) ↦ rw (a, p, q, b) refl ],
  )

  Quoted-iff :
      (name : String) (note : Note F) (s role : String)
      → (is_in role (field_roles F render count name note s) ≡ true) ↔ Quoted name note s role
  unfolding Quoted field_roles
  Quoted-iff name note s role =
      (λ h. ground (arith, eq_iff role name), λ h. ground (arith, eq_iff role name))

  each : {A : Type 0} (p : A → Bool) (xs : List A) → all p xs ≡ true → All (λ x. p x ≡ true) xs
  each p [] h = tt
  each p (x ∷ xs) h = let (a, b) = &&_iff (p x) (all p xs) h in (a, each p xs b)

  all_each : {A : Type 0} (p : A → Bool) (xs : List A) → All (λ x. p x ≡ true) xs → all p xs ≡ true
  all_each p [] h = refl
  all_each p (x ∷ xs) h = rw h.0 (all_each p xs h.1)

  Conditioned-iff :
      (note : Note F) (s role : String)
      → (is_in role (condition_roles F render count note s) ≡ true) ↔ Conditioned note s role
  unfolding Conditioned condition_roles
  Conditioned-iff note s role =
      let conditions = preconditions F render count note.metadata in
      let within = λ (v : Value). contains s (show render v) in
      (
        λ h.
            let (a, (b, c)) : (role ≡ "preconditions")
                × ((non_empty conditions ≡ true) × (all within conditions ≡ true)) =
              ground (arith, eq_iff role "preconditions") in
            (a, (b, each within conditions c)),
        λ h.
            let c = all_each within conditions h.1.1 in ground (arith, eq_iff role "preconditions"),
      )

  either_in :
      (role : String) (xs ys : List String)
      → is_in role (xs ++ ys) ≡ true
      → (is_in role xs ≡ true) ⊎ (is_in role ys ≡ true)
  either_in role xs ys h =
      ||_cases (is_in role xs) (is_in role ys) (sym (is_in-append role xs ys) ∙ h)

  in_left :
      (role : String) (xs ys : List String) → is_in role xs ≡ true → is_in role (xs ++ ys) ≡ true
  in_left role xs ys h = is_in-append role xs ys ∙ ground arith

  in_right :
      (role : String) (xs ys : List String) → is_in role ys ≡ true → is_in role (xs ++ ys) ≡ true
  in_right role xs ys h = is_in-append role xs ys ∙ ground arith

  evidence_roles-Shows :
      (note : Note F) (s role : String)
      → is_in role (evidence_roles F render count note s) ≡ true
      → Shows note s role
  unfolding evidence_roles
  evidence_roles-Shows note s role h = elim (either_in role _ _ h) [
    | inr e ↦ conditioned ((Conditioned-iff note s role).0 e)
    | inl p ↦ elim (either_in role _ _ p) [
      | inr d ↦ explained ((Quoted-iff "rationale" note s role).0 d)
      | inl q ↦ elim (either_in role _ _ q) [
        | inr c ↦ verified ((Quoted-iff "verification" note s role).0 c)
        | inl r ↦ elim (either_in role _ _ r) [
          | inl a ↦ of_type ((OfType-iff note s role).0 a)
          | inr b ↦ detailed ((Detailed-iff note s role).0 b)
        ]
      ]
    ]
  ]

  Shows-evidence_roles :
      (note : Note F) (s role : String)
      → Shows note s role
      → is_in role (evidence_roles F render count note s) ≡ true
  unfolding evidence_roles
  Shows-evidence_roles note s role h =
      let first = if is_set s then roles_at note.memory_type type_roles else [] in
      let second = detail_roles F render count note s in
      let third = field_roles F render count "verification" note s in
      let fourth = field_roles F render count "rationale" note s in
      let fifth = condition_roles F render count note s in
      let two = first ++ second in
      let three = two ++ third in
      let four = three ++ fourth in
      elim h [
        | of_type a ↦ in_left role four fifth (
            in_left role three fourth
              (in_left role two third (in_left role first second ((OfType-iff note s role).1 a))))
        | detailed b ↦ in_left role four fifth (
            in_left role three fourth (
              in_left role two third (in_right role first second ((Detailed-iff note s role).1 b))))
        | verified c ↦ in_left role four fifth (
            in_left role three fourth
              (in_right role two third ((Quoted-iff "verification" note s role).1 c)))
        | explained d ↦
            in_left role four fifth
              (in_right role three fourth ((Quoted-iff "rationale" note s role).1 d))
        | conditioned e ↦ in_right role four fifth ((Conditioned-iff note s role).1 e)
      ]

  -- A role is shown by a note of those delivered, with its text.
  pub Covered : List (Note F × String) → String → Type 0
  Covered selected role =
      (note : Note F) × ((s : String) × (In (note, s) selected × Shows note s role))

  pub covered_roles_iff :
      (selected : List (Note F × String)) (role : String)
      → (is_in role (covered_roles F render count selected) ≡ true) ↔ Covered selected role
  unfolding Covered covered_roles
  covered_roles_iff selected role =
      (λ h. forth selected h, λ h. back selected h.0 h.1.0 h.1.1.0 h.1.1.1)
    where
      forth :
          (selected : List (Note F × String))
          → is_in role (covered_roles F render count selected) ≡ true
          → (note : Note F) × ((s : String) × (In (note, s) selected × Shows note s role))
      forth [] h = cc
      forth ((note, s) ∷ rest) h =
          elim (either_in role (evidence_roles F render count note s)
            (covered_roles F render count rest) h) [
              | inl a ↦ (note, (s, (here, evidence_roles-Shows note s role a)))
              | inr b ↦ let (n, (t, (i, k))) = forth rest b in (n, (t, (there i, k)))
            ]

      back :
          (selected : List (Note F × String)) (note : Note F) (s : String)
          → In (note, s) selected
          → Shows note s role
          → is_in role (covered_roles F render count selected) ≡ true
      back [] note s i k = elim i [ ]
      back ((n, t) ∷ rest) note s here k =
          in_left role (evidence_roles F render count n t) (covered_roles F render count rest)
            (Shows-evidence_roles n t role k)
      back ((n, t) ∷ rest) note s (there i) k =
          in_right role (evidence_roles F render count n t) (covered_roles F render count rest)
            (back rest note s i k)
