-- ===== src/Gate/Applicable.antt =====
-- When the applicability gate of applicability.py accepts.
use autonomic_obsidian_kb.Prelude.{
  String, ◌≡◌, refl, ap, ◌∙◌, ◌↔◌, ◌⊎◌, inl, inr, true, false, Option, none, some, arith,
  Bool-cases, Option-cases, ◌==◌, eq_iff, eq_of_test, some_inj, nat_eq, string_eq, list_eq, lookup,
  is_set,
}
use autonomic_obsidian_kb.Gate.Chain.{time_chain}
use autonomic_obsidian_kb.Models.Json.{Fields, text_at}
use autonomic_obsidian_kb.Models.Note.{Note}
use autonomic_obsidian_kb.Models.Task.{TaskContext}
use autonomic_obsidian_kb.Gate.Externals.{Externals}
use autonomic_obsidian_kb.Gate.Times.{Active, tests-Active, Active-tests}
use autonomic_obsidian_kb.Gate.Sources.{Sources, source_dependencies_iff}
use autonomic_obsidian_kb.Gate.Matching.{match_in_sound, match_in_complete}
use autonomic_obsidian_kb.Gate.Named.{Dependent, source_dependencies_some}
use autonomic_obsidian_kb.Gate.Applicability.{
  is_ancestor, is_time_active, source_dependencies, dependencies_match, bad_time, version_check,
  in_lineage, commit_check, time_of, applicability_gate,
}

-- What the gate takes for applicable.
pub record Applicable {F : Type 0} (ex : Externals) (note : Note F) (context : TaskContext)
    (root : Option String) : Type 0 where
  pub active : Active ex context.at note.valid_from note.valid_to
  pub version :
      (is_set note.version_range ≡ false)
      ⊎ ((v : String) × (is_set (text_at ex.render "version_package" note.metadata) ≡ true)
          × (lookup (text_at ex.render "version_package" note.metadata) context.versions ≡ some v)
          × (ex.in_versions v note.version_range ≡ some true))
  pub commit :
      (is_set note.as_of_commit ≡ false)
      ⊎ ((is_set context.head ≡ true)
          × ((note.as_of_commit ≡ context.head)
              ⊎ (((r : String) × ((root ≡ some r)
                      × (ex.merge_base r note.as_of_commit context.head ≡ true)))
                  × Dependent ex note.metadata)))
  pub sources : Sources ex root note.metadata

module _ (ex : Externals) where
  Fits : String → Fields → TaskContext → Type 0
  Fits version_range metadata context =
      (is_set version_range ≡ false)
      ⊎ ((v : String) × (is_set (text_at ex.render "version_package" metadata) ≡ true)
          × (lookup (text_at ex.render "version_package" metadata) context.versions ≡ some v)
          × (ex.in_versions v version_range ≡ some true))

  version_sound :
      (s : String) (metadata : Fields) (context : TaskContext)
      → version_check ex s metadata context ≡ none
      → Fits s metadata context
  unfolding version_check Fits
  version_sound s metadata context h = elim (Bool-cases (is_set s)) [
    | inr e ↦ inl e
    | inl e ↦ elim (Bool-cases (is_set (text_at ex.render "version_package" metadata))) [
      | inr f ↦ ground arith
      | inl f ↦
          elim (Option-cases
            (lookup (text_at ex.render "version_package" metadata) context.versions)) [
              | inl n ↦ ground arith
              | inr (v, l) ↦ elim (Option-cases (ex.in_versions v s)) [
                | inl n ↦ ground arith
                | inr (b, m) ↦ elim (Bool-cases b) [
                  | inl t ↦ inr (v, f, l, m ∙ ap some t)
                  | inr t ↦ ground arith
                ]
              ]
            ]
    ]
  ]

  version_complete :
      (s : String) (metadata : Fields) (context : TaskContext)
      → Fits s metadata context
      → version_check ex s metadata context ≡ none
  unfolding version_check Fits
  version_complete s metadata context (inl e) = rw e refl
  version_complete s metadata context (inr (v, f, l, m)) = ground arith

  Commits : String → Fields → String → Option String → Type 0
  Commits commit metadata head root =
      (is_set commit ≡ false)
      ⊎ ((is_set head ≡ true)
          × ((commit ≡ head)
              ⊎ (((r : String) × ((root ≡ some r) × (ex.merge_base r commit head ≡ true)))
                  × Dependent ex metadata)))

  lineage_sound :
      (root : Option String) (commit head : String)
      → in_lineage ex root commit head ≡ true
      → (r : String) × ((root ≡ some r) × (ex.merge_base r commit head ≡ true))
  unfolding in_lineage is_ancestor
  lineage_sound none commit head h = cc
  lineage_sound (some r) commit head h = (r, (refl, ground arith))

  lineage_complete :
      (root : Option String) (commit head : String)
      → is_set commit ≡ true
      → is_set head ≡ true
      → (r : String) × ((root ≡ some r) × (ex.merge_base r commit head ≡ true))
      → in_lineage ex root commit head ≡ true
  unfolding in_lineage is_ancestor
  lineage_complete none commit head c d (r, (e, m)) = cc
  lineage_complete (some root) commit head c d (r, (e, m)) =
      let p = ap (λ z. ex.merge_base z commit head) (some_inj e) ∙ m in ground arith

  commit_sound :
      (commit : String) (metadata : Fields) (head : String) (root : Option String)
      → commit_check ex commit metadata head root ≡ none
      → Commits commit metadata head root
  unfolding commit_check Commits
  commit_sound commit metadata head root h = elim (Bool-cases (is_set commit)) [
    | inr e ↦ inl e
    | inl e ↦ elim (Bool-cases (is_set head)) [
      | inr f ↦ ground arith
      | inl f ↦ elim (Bool-cases (commit == head)) [
        | inl same ↦ inr (f, inl (eq_of_test commit head same))
        | inr other ↦ inr (
          f,
          inr (
            lineage_sound root commit head (ground arith),
            (source_dependencies_some ex metadata).0 (ground arith),
          ),
        )
      ]
    ]
  ]

  commit_complete :
      (commit : String) (metadata : Fields) (head : String) (root : Option String)
      → Commits commit metadata head root
      → commit_check ex commit metadata head root ≡ none
  unfolding commit_check Commits
  commit_complete commit metadata head root (inl e) = rw e refl
  commit_complete commit metadata head root (inr (f, inl e)) = ground (arith, eq_iff commit head)
  commit_complete commit metadata head root (inr (f, inr (lineage, dependent))) =
      elim (Bool-cases (is_set commit)) [
        | inr e ↦ rw e refl
        | inl e ↦ ground (
          arith,
          lineage_complete root commit head e f lineage,
          (source_dependencies_some ex metadata).1 dependent,
        )
      ]

  module _ {F : Type 0} (note : Note F) (context : TaskContext) (root : Option String) where
    chain : ((applicability_gate F ex note context root).0 ≡ true) ↔ (
        (bad_time ex context.at ≡ false)
        × (bad_time ex note.valid_from ≡ false)
        × (bad_time ex note.valid_to ≡ false)
        × (is_time_active ex note.valid_from note.valid_to (time_of F ex context) ≡ true)
        × (version_check ex note.version_range note.metadata context ≡ none)
        × (commit_check ex note.as_of_commit note.metadata context.head root ≡ none)
        × ((dependencies_match ex note.metadata root).0 ≡ true))
    unfolding applicability_gate
    chain =
        time_chain (bad_time ex context.at) (bad_time ex note.valid_from)
          (bad_time ex note.valid_to)
          (is_time_active ex note.valid_from note.valid_to (time_of F ex context))
          (version_check ex note.version_range note.metadata context)
          (commit_check ex note.as_of_commit note.metadata context.head root)
          (dependencies_match ex note.metadata root) "invalid temporal boundary"
          "outside valid-time interval"

    gate_sound :
        (applicability_gate F ex note context root).0 ≡ true → Applicable ex note context root
    unfolding dependencies_match Fits Commits
    gate_sound h =
        let (at, from, to, active, v, c, m) = chain.0 h in
        record {
          active = tests-Active ex F context note.valid_from note.valid_to at from to active;
          version = version_sound note.version_range note.metadata context v;
          commit = commit_sound note.as_of_commit note.metadata context.head root c;
          sources =
              (source_dependencies_iff ex root note.metadata).0
                (match_in_sound ex root (source_dependencies ex note.metadata) m);
        }

    gate_complete :
        Applicable ex note context root → (applicability_gate F ex note context root).0 ≡ true
    unfolding dependencies_match Fits Commits
    gate_complete a =
        let (at, from, to, active) =
          Active-tests ex F context note.valid_from note.valid_to a.active in
        chain.1 (
          at,
          from,
          to,
          active,
          version_complete note.version_range note.metadata context a.version,
          commit_complete note.as_of_commit note.metadata context.head root a.commit,
          match_in_complete ex root (source_dependencies ex note.metadata)
              ((source_dependencies_iff ex root note.metadata).1 a.sources),
        )

-- The applicability gate accepts a memory exactly when the task's time, which is the present where none is
-- given, is read and lies in the half-open interval of validity: a start that is given is read and not
-- later, an end that is given is read and later. The range of versions, if given, admits the version of
-- its package in the context. The commit, if given, is the head or, where the metadata has a source
-- dependency at `dependencies`, `provenance` or `validators`, an ancestor of it. Each value in the list
-- at one of these keys that has a path and a digest names a file inside the repository with that digest.
pub applicability_gate_iff :
    (F : Type 0) (ex : Externals) (note : Note F) (context : TaskContext) (root : Option String)
    → ((applicability_gate F ex note context root).0 ≡ true) ↔ Applicable ex note context root
applicability_gate_iff F ex note context root =
    (gate_sound ex note context root, gate_complete ex note context root)
