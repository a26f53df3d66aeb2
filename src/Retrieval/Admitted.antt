-- ===== src/Retrieval/Admitted.antt =====
-- What the search may find has passed the gates, and does not contradict itself.
use autonomic_obsidian_kb.Prelude.{
  ◌≤◌, String, ◌≡◌, refl, sym, ap, ◌∙◌, subst, ◌⊎◌, inl, inr, Bool, true, false, not, ◌&&◌, ◌||◌,
  Option, none, some, List, [], ◌∷◌, arith, ltb, if◌then◌else◌, Bool-cases, ltb→ge, &&_iff,
  ||_cases, ◌==◌, eq_iff, nat_eq, string_eq, list_eq, length, all, filter, All, In, here, there,
  is_in, is_in-filter, lookup, is_set,
}
use autonomic_obsidian_kb.Models.Json.{Value, Items, get, show, truthy, to_list}
use autonomic_obsidian_kb.Models.Json.Value.{arr}
use autonomic_obsidian_kb.Models.Floats.{Floats}
use autonomic_obsidian_kb.Models.Note.{Note}
use autonomic_obsidian_kb.Models.Task.{TaskContext}
use autonomic_obsidian_kb.Gate.Externals.{Externals}
use autonomic_obsidian_kb.Gate.Read.{memory_read_gate}
use autonomic_obsidian_kb.Gate.Conflicts.{claim_space, claim_value_of}
use autonomic_obsidian_kb.Gate.Disputed.{blocked_of_two}
use autonomic_obsidian_kb.Retrieval.Eligible.{
  is_verified, count_declared, evidence_holds, gate_of, admission, admitted_ids, conflicts_of,
  eligible_ids,
}

true-false : {b : Bool} → b ≡ true → b ≡ false → ⊥
true-false h k = cc

In-filter :
    {A : Type 0} (p : A → Bool) (x : A) (xs : List A) → In x xs → p x ≡ true → In x (filter p xs)
In-filter p x [] i h = elim i [ ]
In-filter p x (y ∷ xs) here h = rw h here
In-filter p x (y ∷ xs) (there i) h = elim (Bool-cases (p y)) [
  | inl e ↦ rw e (there (In-filter p x xs i h))
  | inr e ↦ rw e (In-filter p x xs i h)
]

module _ (fl : Floats) (ex : Externals) (stable_json : Value → String)
    (evidence_ok : List (String × Bool)) (allow_untrusted allow_cross_repo : Bool)
    (repo_path : Option String) (context : TaskContext) where
  -- The evidence of a note is missing or empty, or a list of identities that verified.
  pub Supported : Option Value → Type 0
  Supported none = Unit {0}
  Supported (some v) =
      (truthy v ≡ false)
      ⊎ ((items : Items) × ((v ≡ arr items)
            × All (λ e. lookup (show ex.render e) evidence_ok ≡ some true) (to_list items)))

  -- A note of the vault that passed every check of its own.
  pub record Admitted (notes : List (Note fl.F)) (identity : String) (note : Note fl.F)
      : Type 0 where
    pub member : In note notes
    pub same_id : note.id ≡ identity
    pub passed :
        (memory_read_gate fl ex note context allow_untrusted allow_cross_repo repo_path).0 ≡ true
    pub single :
        length (
          filter
            (λ (row : Note fl.F). is_set row.declared_id && row.declared_id == note.declared_id)
            notes)
        ≤ 1
    pub verified : Supported (get "evidence" note.metadata)

  count_declared-length :
      (identity : String) (notes : List (Note fl.F))
      → count_declared fl ex stable_json evidence_ok allow_untrusted allow_cross_repo repo_path
          context identity notes
        ≡ length (
            filter
              (λ (row : Note fl.F). is_set row.declared_id && row.declared_id == identity)
              notes)
  unfolding count_declared
  count_declared-length identity [] = refl
  count_declared-length identity (note ∷ notes) =
      elim (Bool-cases (is_set note.declared_id && note.declared_id == identity)) [
        | inl e ↦ rw (e, count_declared-length identity notes) refl
        | inr e ↦ rw (e, count_declared-length identity notes) refl
      ]

  all_verified :
      (values : List Value)
      → all
          (is_verified fl ex stable_json evidence_ok allow_untrusted allow_cross_repo repo_path
            context)
          values
        ≡ true
      → All (λ e. lookup (show ex.render e) evidence_ok ≡ some true) values
  unfolding is_verified
  all_verified [] h = tt
  all_verified (e ∷ values) h =
      let (one, rest) =
        &&_iff
          (is_verified fl ex stable_json evidence_ok allow_untrusted allow_cross_repo repo_path
            context e)
          (all
            (is_verified fl ex stable_json evidence_ok allow_untrusted allow_cross_repo repo_path
              context)
            values)
          h in
      (found (lookup (show ex.render e) evidence_ok) one, all_verified values rest)
    where
      found : (o : Option Bool) → elim o [ none ↦ false | some b ↦ b ] ≡ true → o ≡ some true
      found none h = cc
      found (some b) h = ap some h

  evidence_holds-Supported :
      (note : Note fl.F)
      → evidence_holds fl ex stable_json evidence_ok allow_untrusted allow_cross_repo repo_path
          context note
        ≡ true
      → Supported (get "evidence" note.metadata)
  unfolding evidence_holds Supported
  evidence_holds-Supported note h = by_value (get "evidence" note.metadata) h
    where
      list_of :
          (v : Value)
          → elim v [
            | arr items ↦
                all
                  (is_verified fl ex stable_json evidence_ok allow_untrusted allow_cross_repo
                    repo_path context)
                  (to_list items)
            | _ ↦ false
          ]
            ≡ true
          → Supported (some v)
      list_of (arr items) h = inr (items, (refl, all_verified (to_list items) h))
      list_of Value.null h = cc
      list_of (Value.flag b) h = cc
      list_of (Value.num b s) h = cc
      list_of (Value.text s) h = cc
      list_of (Value.obj d) h = cc

      either :
          (b : Bool) (v : Value)
          → truthy v ≡ b
          → (not b || elim v [
            | arr items ↦
                all
                  (is_verified fl ex stable_json evidence_ok allow_untrusted allow_cross_repo
                    repo_path context)
                  (to_list items)
            | _ ↦ false
          ])
            ≡ true
          → Supported (some v)
      either false v e h = inl e
      either true v e h = list_of v h

      by_value :
          (o : Option Value)
          → elim o [
            | none ↦ true
            | some v ↦ not (truthy v) || elim v [
              | arr items ↦
                  all
                    (is_verified fl ex stable_json evidence_ok allow_untrusted allow_cross_repo
                      repo_path context)
                    (to_list items)
              | _ ↦ false
            ]
          ]
            ≡ true
          → Supported o
      by_value none h = tt
      by_value (some v) h = either (truthy v) v refl h

  -- The three tests of an admission.
  tests_of :
      (many verified : Bool) (gate : Bool × String)
      → (if many
          then (false, "duplicate canonical identity")
          else if gate.0 && not verified
          then (false, "evidence missing or invalid")
          else gate).0
        ≡ true
      → (many ≡ false) × ((gate.0 ≡ true) × (verified ≡ true))
  tests_of true verified gate h = cc
  tests_of false verified (true, reason) h = (refl, (refl, ground arith))
  tests_of false verified (false, reason) h = cc

  admission_sound :
      (notes : List (Note fl.F)) (note : Note fl.F)
      → In note notes
      → (admission fl ex stable_json evidence_ok allow_untrusted allow_cross_repo repo_path context
          notes note).0
        ≡ true
      → Admitted notes note.id note
  unfolding admission
  admission_sound notes note i h =
      let (few, (passed, verified)) =
        tests_of
          (ltb 1 (
            count_declared fl ex stable_json evidence_ok allow_untrusted allow_cross_repo repo_path
              context note.declared_id notes))
          (evidence_holds fl ex stable_json evidence_ok allow_untrusted allow_cross_repo repo_path
            context note)
          (gate_of fl ex stable_json evidence_ok allow_untrusted allow_cross_repo repo_path context
            note)
          h in
      record {
        member = i;
        same_id = refl;
        passed = passed;
        single = omega (
          arith,
          count_declared-length note.declared_id notes,
          ltb→ge 1
              (count_declared fl ex stable_json evidence_ok allow_untrusted allow_cross_repo
                repo_path context note.declared_id notes)
              few,
        );
        verified = evidence_holds-Supported note verified;
      }

  Admitted-sound :
      (notes rest : List (Note fl.F)) (identity : String)
      → ((note : Note fl.F) → In note rest → In note notes)
      → is_in identity (
          admitted_ids fl ex stable_json evidence_ok allow_untrusted allow_cross_repo repo_path
            context notes rest)
        ≡ true
      → (note : Note fl.F) × Admitted notes identity note
  unfolding admitted_ids
  Admitted-sound notes [] identity among h = cc
  Admitted-sound notes (note ∷ rest) identity among h =
      elim (Bool-cases
        (admission fl ex stable_json evidence_ok allow_untrusted allow_cross_repo repo_path context
          notes note).0) [
            | inr e ↦ Admitted-sound notes rest identity (λ n i. among n (there i)) (rw e at h)
            | inl e ↦
                elim (||_cases (identity == note.id)
                  (is_in identity (
                    admitted_ids fl ex stable_json evidence_ok allow_untrusted allow_cross_repo
                      repo_path context notes rest))
                  (rw e at h)) [
                    | inl q ↦ (
                      note,
                      subst (λ x. Admitted notes x note) (sym ((eq_iff identity note.id).0 q))
                          (admission_sound notes note (among note here) e),
                    )
                    | inr q ↦ Admitted-sound notes rest identity (λ n i. among n (there i)) q
                  ]
          ]

  eligible_cases :
      (notes : List (Note fl.F)) (identity : String)
      → is_in identity (
          eligible_ids fl ex stable_json evidence_ok allow_untrusted allow_cross_repo repo_path
            context notes)
        ≡ true
      → (is_in identity (
            admitted_ids fl ex stable_json evidence_ok allow_untrusted allow_cross_repo repo_path
              context notes notes)
          ≡ true)
        × (is_in identity (
              conflicts_of fl ex stable_json evidence_ok allow_untrusted allow_cross_repo repo_path
                context notes)
            ≡ false)
  unfolding eligible_ids
  eligible_cases notes identity h =
      kept
        (is_in identity (
          admitted_ids fl ex stable_json evidence_ok allow_untrusted allow_cross_repo repo_path
            context notes notes))
        (is_in identity (
          conflicts_of fl ex stable_json evidence_ok allow_untrusted allow_cross_repo repo_path
            context notes))
        (sym (
            is_in-filter
              (λ x. not (
                is_in x (
                  conflicts_of fl ex stable_json evidence_ok allow_untrusted allow_cross_repo
                    repo_path context notes)))
              identity
              (admitted_ids fl ex stable_json evidence_ok allow_untrusted allow_cross_repo repo_path
                context notes notes))
          ∙ h)
    where
      kept : (a b : Bool) → (not b && a) ≡ true → (a ≡ true) × (b ≡ false)
      kept a b p = ground arith

-- Each identity that the search may find is that of a note of the vault that passed the read gate,
-- whose declared identity no other note declares, and whose evidence, where it has any, is a list of
-- identities that verified.
pub eligible_ids-Admitted :
    (fl : Floats) (ex : Externals) (stable_json : Value → String)
    (evidence_ok : List (String × Bool)) (allow_untrusted allow_cross_repo : Bool)
    (repo_path : Option String) (context : TaskContext) (notes : List (Note fl.F))
    (identity : String)
    → is_in identity (
        eligible_ids fl ex stable_json evidence_ok allow_untrusted allow_cross_repo repo_path
          context notes)
      ≡ true
    → (note : Note fl.F) × Admitted fl ex stable_json evidence_ok allow_untrusted allow_cross_repo
        repo_path context notes identity note
eligible_ids-Admitted fl ex stable_json evidence_ok allow_untrusted allow_cross_repo repo_path
      context notes identity h =
    Admitted-sound fl ex stable_json evidence_ok allow_untrusted allow_cross_repo repo_path context
      notes notes identity (λ n i. i)
      (eligible_cases fl ex stable_json evidence_ok allow_untrusted allow_cross_repo repo_path
        context notes identity h).0

-- Of two notes of the vault that the search may find, and that claim one thing in one namespace, the
-- claimed values are the same JSON.
pub eligible_ids-agree :
    (fl : Floats) (ex : Externals) (stable_json : Value → String)
    (evidence_ok : List (String × Bool)) (allow_untrusted allow_cross_repo : Bool)
    (repo_path : Option String) (context : TaskContext) (notes : List (Note fl.F)) (a b : Note fl.F)
    (key : String)
    → In a notes
    → In b notes
    → is_in a.id (
        eligible_ids fl ex stable_json evidence_ok allow_untrusted allow_cross_repo repo_path
          context notes)
      ≡ true
    → is_in b.id (
        eligible_ids fl ex stable_json evidence_ok allow_untrusted allow_cross_repo repo_path
          context notes)
      ≡ true
    → claim_space fl.F stable_json a ≡ some key
    → claim_space fl.F stable_json b ≡ some key
    → claim_value_of fl.F stable_json a ≡ claim_value_of fl.F stable_json b
unfolding conflicts_of
eligible_ids-agree fl ex stable_json evidence_ok allow_untrusted allow_cross_repo repo_path context
      notes a b key i j p q c d =
    elim (Bool-cases (claim_value_of fl.F stable_json a == claim_value_of fl.F stable_json b)) [
      | inl e ↦ (eq_iff (claim_value_of fl.F stable_json a) (claim_value_of fl.F stable_json b)).0 e
      | inr e ↦
          let one =
            eligible_cases fl ex stable_json evidence_ok allow_untrusted allow_cross_repo repo_path
              context notes a.id p in
          let two =
            eligible_cases fl ex stable_json evidence_ok allow_untrusted allow_cross_repo repo_path
              context notes b.id q in
          let admitted = λ (n : Note fl.F). is_in n.id (
            admitted_ids fl ex stable_json evidence_ok allow_untrusted allow_cross_repo repo_path
              context notes notes) in
          let blocked =
            blocked_of_two fl.F stable_json (filter admitted notes) a b key
              (In-filter admitted a notes i one.0) (In-filter admitted b notes j two.0) c d e in
          elim (true-false blocked one.1) [ ]
    ]
