-- ===== src/Gate/Disputed.antt =====
-- Memories whose claims differ are found to conflict.
use autonomic_obsidian_kb.Prelude.{
  ◌<◌, String, ◌≡◌, refl, sym, ◌∙◌, subst, inl, inr, true, false, Option, none, some, List, [], ◌∷◌,
  ◌++◌, map, arith, Bool-cases, lt→ltb, ◌==◌, eq_iff, eq_refl, nat_eq, string_eq, list_eq, length,
  In, here, there, is_in, is_in_of_In, is_in-append, lookup, some_inj,
}
use autonomic_obsidian_kb.Prelude.Sets.{set_of}
use autonomic_obsidian_kb.Models.Json.{Value}
use autonomic_obsidian_kb.Models.Note.{Note}
use autonomic_obsidian_kb.Gate.Conflicts.{
  claim_space, claim_value_of, add_note, place, group_notes, differs, blocked_ids,
  conflicting_claim_ids,
}

is_in-set_of : (x : String) (xs : List String) → is_in x xs ≡ true → is_in x (set_of xs) ≡ true
is_in-set_of x [] h = h
is_in-set_of x (y ∷ ys) h = ground (arith, eq_iff x y, eq_refl x, is_in-set_of x ys)

two_of_them :
    (a b : String) (xs : List String)
    → is_in a xs ≡ true
    → is_in b xs ≡ true
    → (a == b) ≡ false
    → 1 < length xs
two_of_them a b [] h k d = cc
two_of_them a b (x ∷ []) h k d = ground (arith, eq_iff a b, eq_iff a x, eq_iff b x)
two_of_them a b (x ∷ y ∷ xs) h k d = omega arith

In-append_left : {A : Type 0} (x : A) (xs ys : List A) → In x xs → In x (xs ++ ys)
In-append_left x [] ys i = elim i [ ]
In-append_left x (y ∷ xs) ys here = here
In-append_left x (y ∷ xs) ys (there i) = there (In-append_left x xs ys i)

In-append_last : {A : Type 0} (x : A) (xs : List A) → In x (xs ++ x ∷ [])
In-append_last x [] = here
In-append_last x (y ∷ ys) = there (In-append_last x ys)

In-map : {A B : Type 0} (f : A → B) (x : A) (xs : List A) → In x xs → In (f x) (map f xs)
In-map f x [] i = elim i [ ]
In-map f x (y ∷ xs) here = here
In-map f x (y ∷ xs) (there i) = there (In-map f x xs i)

module _ (F : Type 0) (stable_json : Value → String) where
  -- A note stands in the group of a key.
  Grouped : String → Note F → List (String × List (Note F)) → Type 0
  Grouped key note groups =
      (group : List (Note F)) × ((lookup key groups ≡ some group) × In note group)

  add_note-Grouped :
      (key : String) (note : Note F) (groups : List (String × List (Note F)))
      → Grouped key note (add_note F stable_json key note groups)
  unfolding add_note Grouped lookup
  add_note-Grouped key note [] = (note ∷ [], (rw (eq_refl key) refl, here))
  add_note-Grouped key note ((k, group) ∷ rest) = elim (Bool-cases (k == key)) [
    | inl e ↦ rw (e, e) (group ++ note ∷ [], (refl, In-append_last note group))
    | inr e ↦ rw (e, e) (add_note-Grouped key note rest)
  ]

  Grouped-kept :
      (key j : String) (note new : Note F) (groups : List (String × List (Note F)))
      → Grouped key note groups
      → Grouped key note (add_note F stable_json j new groups)
  unfolding add_note Grouped lookup
  Grouped-kept key j note new [] (group, (h, i)) = cc
  Grouped-kept key j note new ((k, g) ∷ rest) (group, (h, i)) = elim (Bool-cases (k == j)) [
    | inl e ↦ elim (Bool-cases (k == key)) [
      | inl f ↦
          let h' = rw f at h in
          rw (e, f)
            (
              g ++ new ∷ [],
              (
                refl,
                In-append_left note g (new ∷ []) (subst (λ q. In note q) (sym (some_inj h')) i),
              ),
            )
      | inr f ↦ let h' = rw f at h in rw (e, f) (group, (h', i))
    ]
    | inr e ↦ elim (Bool-cases (k == key)) [
      | inl f ↦ let h' = rw f at h in rw (e, f) (group, (h', i))
      | inr f ↦ let h' = rw f at h in rw (e, f) (Grouped-kept key j note new rest (group, (h', i)))
    ]
  ]

  place-kept :
      (key : String) (note new : Note F) (o : Option String)
      (groups : List (String × List (Note F)))
      → Grouped key note groups
      → Grouped key note (place F stable_json new o groups)
  unfolding place
  place-kept key note new none groups g = g
  place-kept key note new (some j) groups g = Grouped-kept key j note new groups g

  group_notes-kept :
      (key : String) (note : Note F) (notes : List (Note F))
      (groups : List (String × List (Note F)))
      → Grouped key note groups
      → Grouped key note (group_notes F stable_json notes groups)
  unfolding group_notes
  group_notes-kept key note [] groups g = g
  group_notes-kept key note (new ∷ notes) groups g =
      group_notes-kept key note notes
        (place F stable_json new (claim_space F stable_json new) groups)
        (place-kept key note new (claim_space F stable_json new) groups g)

  group_notes-Grouped :
      (key : String) (note : Note F) (notes : List (Note F))
      (groups : List (String × List (Note F)))
      → In note notes
      → claim_space F stable_json note ≡ some key
      → Grouped key note (group_notes F stable_json notes groups)
  unfolding group_notes place
  group_notes-Grouped key note [] groups i h = elim i [ ]
  group_notes-Grouped key note (new ∷ notes) groups here h =
      group_notes-kept key note notes
        (place F stable_json note (claim_space F stable_json note) groups)
        (rw h (add_note-Grouped key note groups))
  group_notes-Grouped key note (new ∷ notes) groups (there i) h =
      group_notes-Grouped key note notes
        (place F stable_json new (claim_space F stable_json new) groups) i h

  differs-of_two :
      (a b : Note F) (group : List (Note F))
      → In a group
      → In b group
      → (claim_value_of F stable_json a == claim_value_of F stable_json b) ≡ false
      → differs F stable_json group ≡ true
  unfolding differs
  differs-of_two a b group i j d =
      let value = claim_value_of F stable_json in
      let values = set_of (map value group) in
      lt→ltb 1 (length values) (
        two_of_them (value a) (value b) values
          (is_in-set_of (value a) (map value group)
            (is_in_of_In (value a) (map value group) (In-map value a group i)))
          (is_in-set_of (value b) (map value group)
            (is_in_of_In (value b) (map value group) (In-map value b group j)))
          d)

  blocked_ids-In :
      (key : String) (note : Note F) (group : List (Note F))
      (groups : List (String × List (Note F)))
      → lookup key groups ≡ some group
      → In note group
      → differs F stable_json group ≡ true
      → is_in note.id (blocked_ids F stable_json groups) ≡ true
  unfolding blocked_ids lookup
  blocked_ids-In key note group [] h i d = cc
  blocked_ids-In key note group ((k, g) ∷ rest) h i d = elim (Bool-cases (k == key)) [
    | inl f ↦
        let h' = rw f at h in
        let same : differs F stable_json g ≡ true =
          subst (λ q. differs F stable_json q ≡ true) (sym (some_inj h')) d in
        let among =
          is_in_of_In note.id (map (λ n. n.id) g)
            (In-map (λ n. n.id) note g (subst (λ q. In note q) (sym (some_inj h')) i)) in
        rw same (
          ground (
            arith,
            is_in-append note.id (map (λ n. n.id) g) (blocked_ids F stable_json rest),
            among,
          ))
    | inr f ↦
        let h' = rw f at h in
        let later = blocked_ids-In key note group rest h' i d in
        elim (Bool-cases (differs F stable_json g)) [
          | inl e ↦ rw e (
              ground (
                arith,
                is_in-append note.id (map (λ n. n.id) g) (blocked_ids F stable_json rest),
                later,
              ))
          | inr e ↦ rw e later
        ]
  ]

  -- Two of the notes that claim one thing with different values: the first is blocked.
  pub blocked_of_two :
      (notes : List (Note F)) (a b : Note F) (key : String)
      → In a notes
      → In b notes
      → claim_space F stable_json a ≡ some key
      → claim_space F stable_json b ≡ some key
      → (claim_value_of F stable_json a == claim_value_of F stable_json b) ≡ false
      → is_in a.id (conflicting_claim_ids F stable_json notes) ≡ true
  unfolding conflicting_claim_ids Grouped
  blocked_of_two notes a b key i j p q d =
      let (g, (at, in_g)) = group_notes-Grouped key a notes [] i p in
      let (h, (bt, in_h)) = group_notes-Grouped key b notes [] j q in
      let one : h ≡ g = some_inj (sym bt ∙ at) in
      blocked_ids-In key a g (group_notes F stable_json notes []) at in_g
        (differs-of_two a b g in_g (subst (λ x. In b x) one in_h) d)
