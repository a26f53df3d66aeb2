-- ===== src/Learning/Checked.antt =====
-- What the checks of a submission of learning.py establish of its sources, its evidence and the
-- memories that are there.
use autonomic_obsidian_kb.Prelude.{
  String, ◌≡◌, refl, sym, ◌≢◌, ◌⊎◌, inl, inr, Bool, true, false, not, ◌&&◌, ◌||◌, Option, none,
  some, List, [], ◌∷◌, arith, if◌then◌else◌, Bool-cases, Option-cases, ◌==◌, eq_iff, ne_of_test,
  nat_eq, string_eq, list_eq, All, is_in, ok, raise_if_ok, bind_ok, ok_inj, is_set,
}
use autonomic_obsidian_kb.Models.Json.{Value, show}
use autonomic_obsidian_kb.Models.Json.Value.{text}
use autonomic_obsidian_kb.Models.Floats.{Floats}
use autonomic_obsidian_kb.Models.Note.{Note}
use autonomic_obsidian_kb.Evidence.Records.{EvidenceRecord, EvidenceCodec, OperationCodec}
use autonomic_obsidian_kb.Evidence.Store as EvidenceStore
use autonomic_obsidian_kb.Learning.Candidate.{LearningCandidate}
use autonomic_obsidian_kb.Learning.Duplicate.{
  GitContext, applicability, value_is, match_of, compare_note, near_duplicate,
}
use autonomic_obsidian_kb.Learning.Sources.{
  LearnCalls, source_value, bind_sources, bind_dependencies, check_evidence,
}

module _ (fl : Floats) (calls : LearnCalls fl.F) (ec : EvidenceCodec)
    (oc : OperationCodec fl.F) where
  -- A source names no path, or one inside the repository.
  pub SourceInside : String → Option Value → Type 0
  SourceInside root none = Unit {0}
  SourceInside root (some v) = calls.inside root (show calls.render v) ≡ true

  -- With a repository, each source of the provenance.
  pub SourcesInside : Option String → List Value → Type 0
  SourcesInside none provenance = Unit {0}
  SourcesInside (some root) provenance =
      All (λ source. SourceInside root (source_value fl calls ec oc source)) provenance

  bind_sources-All :
      (root : String) (provenance : List Value) (ds out : List (String × String))
      → bind_sources fl calls ec oc root provenance ds ≡ ok out
      → All (λ source. SourceInside root (source_value fl calls ec oc source)) provenance
  unfolding bind_sources SourceInside
  bind_sources-All root [] ds out h = tt
  bind_sources-All root (source ∷ provenance) ds out h =
      elim (Option-cases (source_value fl calls ec oc source)) [
        | inl e ↦ (rw e tt, bind_sources-All root provenance ds out (rw (e, bind_sources) at h))
        | inr (v, e) ↦
            let (a, p) =
              raise_if_ok (not (calls.inside root (show calls.render v))) _ _
                (rw (e, bind_sources) at h) in
            (rw e (ground arith), bind_sources-All root provenance _ out p)
      ]

  pub bind_dependencies-cases :
      (repo : Option String) (candidate c : LearningCandidate fl.F)
      → bind_dependencies fl calls ec oc repo candidate ≡ ok c
      → (ds : List (String × String)) × ((c ≡ record candidate { dependencies = ds })
          × SourcesInside repo candidate.provenance)
  unfolding bind_dependencies SourcesInside
  bind_dependencies-cases none candidate c h = (candidate.dependencies, (sym (ok_inj h), tt))
  bind_dependencies-cases (some root) candidate c h =
      let (ds, (bound, rest)) =
        bind_ok (bind_sources fl calls ec oc root candidate.provenance candidate.dependencies)
          (λ ds. ok (record candidate { dependencies = ds })) c h in
      (
        ds,
        (
          sym (ok_inj rest),
          bind_sources-All root candidate.provenance candidate.dependencies ds bound,
        ),
      )

  -- A piece of evidence is there, and of the repository or of none.
  pub Corroborated : String → List (String × ec.Content) → String → Type 0
  Corroborated repository_id files identity =
      (r : EvidenceRecord) × ((EvidenceStore.get ec identity files ≡ some r)
        × ((is_set r.repository_id ≡ false) ⊎ (r.repository_id ≡ repository_id)))

  of_repository : (a : Bool) (s t : String) → (a && not (s == t)) ≡ false → (a ≡ false) ⊎ (s ≡ t)
  of_repository a s t h = ground (arith, eq_iff s t)

  pub check_evidence-All :
      (repository_id : String) (identities : List String) (files : List (String × ec.Content))
      (z : Unit {0})
      → check_evidence fl calls ec oc repository_id identities files ≡ ok z
      → All (Corroborated repository_id files) identities
  unfolding check_evidence Corroborated
  check_evidence-All repository_id [] files z h = tt
  check_evidence-All repository_id (identity ∷ identities) files z h =
      elim (Option-cases (EvidenceStore.get ec identity files)) [
        | inl e ↦ let h' = rw (e, check_evidence) at h in cc
        | inr (r, e) ↦
            let (a, p) =
              raise_if_ok (is_set r.repository_id && not (r.repository_id == repository_id)) _ _
                (rw (e, check_evidence) at h) in
            (
              (r, (e, of_repository (is_set r.repository_id) r.repository_id repository_id a)),
              check_evidence-All repository_id identities files z p,
            )
      ]

  -- A memory does not claim another value for what a candidate claims: it is not current, of another
  -- scope or type, applicable elsewhere, or one of the two has no claim, or the claims differ in key or
  -- agree in value.
  pub Undisputed : GitContext → LearningCandidate fl.F → Note fl.F → Type 0
  Undisputed git c note =
      (is_in note.status ("active" ∷ "inbox" ∷ "stale" ∷ "conflicted" ∷ []) ≡ false)
      ⊎ ((note.scope ≢ c.scope)
          ⊎ ((note.memory_type ≢ c.memory_type)
              ⊎ ((value_is fl calls.same calls.jaccard "applicability" (applicability fl git c)
                      note.metadata
                    ≡ false)
                  ⊎ ((is_set c.claim_key ≡ false)
                      ⊎ ((value_is fl calls.same calls.jaccard "claim_key" (text c.claim_key)
                              note.metadata
                            ≡ false)
                          ⊎ (value_is fl calls.same calls.jaccard "claim_value" c.claim_value
                                note.metadata
                              ≡ true))))))

  dispute_cases :
      {A : Type 0} (a b p k q g : Bool) (found : A) (rest : Option A)
      → (if not a || not b
          then none
          else if not p
          then none
          else if (k && q) && not g
          then some found
          else rest)
        ≡ none
      → (a ≡ false) ⊎ ((b ≡ false) ⊎ ((p ≡ false) ⊎ ((k ≡ false) ⊎ ((q ≡ false) ⊎ (g ≡ true)))))
  dispute_cases false b p k q g found rest h = inl refl
  dispute_cases true false p k q g found rest h = inr (inl refl)
  dispute_cases true true false k q g found rest h = inr (inr (inl refl))
  dispute_cases true true true false q g found rest h = inr (inr (inr (inl refl)))
  dispute_cases true true true true false g found rest h = inr (inr (inr (inr (inl refl))))
  dispute_cases true true true true true true found rest h = inr (inr (inr (inr (inr refl))))
  dispute_cases true true true true true false found rest h = cc

  compare_note-Undisputed :
      (git : GitContext) (c : LearningCandidate fl.F) (note : Note fl.F)
      → compare_note fl calls.same calls.jaccard git c note ≡ none
      → Undisputed git c note
  unfolding compare_note match_of Undisputed
  compare_note-Undisputed git c note h =
      elim (dispute_cases (note.scope == c.scope) (note.memory_type == c.memory_type)
        (value_is fl calls.same calls.jaccard "applicability" (applicability fl git c)
          note.metadata)
        (is_set c.claim_key)
        (value_is fl calls.same calls.jaccard "claim_key" (text c.claim_key) note.metadata)
        (value_is fl calls.same calls.jaccard "claim_value" c.claim_value note.metadata) _ _ h) [
          | inl e ↦ inr (inl (ne_of_test note.scope c.scope e))
          | inr (inl e) ↦ inr (inr (inl (ne_of_test note.memory_type c.memory_type e)))
          | inr (inr rest) ↦ inr (inr (inr rest))
        ]

  pub near_duplicate-All :
      (git : GitContext) (c : LearningCandidate fl.F) (rows : List (Note fl.F))
      → near_duplicate fl calls.same calls.jaccard git c rows ≡ none
      → All (Undisputed git c) rows
  unfolding near_duplicate Undisputed
  near_duplicate-All git c [] h = tt
  near_duplicate-All git c (note ∷ rows) h =
      elim (Bool-cases (is_in note.status ("active" ∷ "inbox" ∷ "stale" ∷ "conflicted" ∷ []))) [
        | inr e ↦ (inl e, near_duplicate-All git c rows (rw e at h))
        | inl e ↦ elim (Option-cases (compare_note fl calls.same calls.jaccard git c note)) [
          | inl f ↦
              (compare_note-Undisputed git c note f, near_duplicate-All git c rows (rw (e, f) at h))
          | inr (m, f) ↦ let h' = rw (e, f) at h in cc
        ]
      ]
