-- ===== src/Lifecycle/Cleared.antt =====
-- What `_promotion_blockers` and `_note` of lifecycle.py have checked when nothing is raised.
use autonomic_obsidian_kb.Prelude.{
  ◌≤◌, ◌<◌, String, ◌≡◌, refl, sym, ◌∙◌, subst, ◌≢◌, ◌⊎◌, inl, inr, Bool, true, false, not, Option,
  none, some, List, [], ◌∷◌, ◌++◌, arith, ltb, if◌then◌else◌, Bool-cases, &&_iff, is_some, ◌==◌,
  eq_iff, ne_of_test, nat_eq, string_eq, list_eq, length, all, filter, All, In, here, there, is_in,
  Exception, Result, ok, raise_if, raise_if_ok, ok_inj, some_inj, append,
}
use autonomic_obsidian_kb.Models.Json.{Value, Items, get as value_at, show, to_list}
use autonomic_obsidian_kb.Models.Json.Value.{arr, obj}
use autonomic_obsidian_kb.Models.Rows.{find_note, find_id}
use autonomic_obsidian_kb.Gate.Trust.{
  trusted_authorities, taint_rank, instruction_authorized, instruction_cases,
}
use autonomic_obsidian_kb.Evidence.Store.{get, verify}
use autonomic_obsidian_kb.Prelude.Sets.{non_empty}
use autonomic_obsidian_kb.Models.Note.{Note}
use autonomic_obsidian_kb.Evidence.Records.{EvidenceCodec, OperationCodec}
use autonomic_obsidian_kb.Lifecycle.Review.{
  LifeCalls, find_single, promotion_blockers, raise_blockers, evidence_fails, single, declarers,
}

module _ (F : Type 0) (calls : LifeCalls) (ec : EvidenceCodec) (oc : OperationCodec F)
    (utc_now actor : String) (uuid : String → String) where
  -- The evidence of a note is not there, or a list of identities that are each read back.
  pub Supported : List (String × ec.Content) → Option Value → Type 0
  Supported files none = Unit {0}
  Supported files (some v) =
      (items : Items) × ((v ≡ arr items)
        × All (λ e. is_some (get ec (show calls.render e) files) ≡ true) (to_list items))

  -- No blocker stands against a note.
  pub record Cleared (files : List (String × ec.Content)) (note : Note F) : Type 0 where
    pub schema : note.schema_valid ≡ true
    pub safe : calls.is_unsafe (append note.body (show calls.render (obj note.metadata))) ≡ false
    pub instruction :
        (note.memory_type ≢ "agent-instruction")
        ⊎ ((note.authorized_instruction ≡ true)
            × (is_in note.authority trusted_authorities ≡ true)
            × (taint_rank note.taint < taint_rank "external"))
    pub not_hostile : note.taint ≢ "hostile"
    pub supported : Supported files (value_at "evidence" note.metadata)

  all_read :
      (files : List (String × ec.Content)) (values : List Value)
      → all (λ e. verify ec (show calls.render e) files) values ≡ true
      → All (λ e. is_some (get ec (show calls.render e) files) ≡ true) values
  unfolding verify
  all_read files [] h = tt
  all_read files (e ∷ values) h =
      let (one, rest) =
        &&_iff (verify ec (show calls.render e) files)
          (all (λ e. verify ec (show calls.render e) files) values) h in
      (one, all_read files values rest)

  evidence-Supported :
      (files : List (String × ec.Content)) (o : Option Value)
      → elim o [
        | none ↦ false
        | some v ↦ elim v [
          | arr items ↦ not (all (λ e. verify ec (show calls.render e) files) (to_list items))
          | _ ↦ true
        ]
      ]
        ≡ false
      → Supported files o
  unfolding Supported
  evidence-Supported files none h = tt
  evidence-Supported files (some (arr items)) h =
      (items, (refl, all_read files (to_list items) (ground arith)))
  evidence-Supported files (some Value.null) h = cc
  evidence-Supported files (some (Value.flag b)) h = cc
  evidence-Supported files (some (Value.num b s)) h = cc
  evidence-Supported files (some (Value.text s)) h = cc
  evidence-Supported files (some (obj d)) h = cc

  nothing :
      (xs : List String) (e : Exception)
      → ◌≡◌ {A = Result (Unit {0})} (raise_if (non_empty xs) e (ok tt)) (ok tt)
      → xs ≡ []
  nothing [] e h = refl
  nothing (x ∷ xs) e h = cc

  none_left :
      (p q r t u : Bool) (a b c d e : String)
      → ((if p then a ∷ [] else [])
          ++ (if q then b ∷ [] else [])
          ++ (if r then c ∷ [] else [])
          ++ (if t then d ∷ [] else [])
          ++ (if u then e ∷ [] else []))
        ≡ []
      → (p ≡ false) × ((q ≡ false) × ((r ≡ false) × ((t ≡ false) × (u ≡ false))))
  none_left true q r t u a b c d e h = cc
  none_left false true r t u a b c d e h = cc
  none_left false false true t u a b c d e h = cc
  none_left false false false true u a b c d e h = cc
  none_left false false false false true a b c d e h = cc
  none_left false false false false false a b c d e h = (refl, (refl, (refl, (refl, refl))))

  no_blockers-Cleared :
      (files : List (String × ec.Content)) (note : Note F)
      → promotion_blockers F calls ec oc utc_now actor uuid files note ≡ []
      → Cleared files note
  unfolding promotion_blockers evidence_fails
  no_blockers-Cleared files note h =
      let authorized =
        instruction_authorized note.memory_type note.authority note.authorized_instruction
          note.taint in
      let (a, (b, (c, (d, e)))) =
        none_left (not note.schema_valid)
          (calls.is_unsafe (append note.body (show calls.render (obj note.metadata))))
          (not authorized.0) (note.taint == "hostile")
          (evidence_fails F calls ec oc utc_now actor uuid files note)
          "memory fails schema validation" "memory contains unsafe content" authorized.1
          "hostile provenance taint" "evidence missing or tampered" h in
      record {
        schema = ground arith;
        safe = b;
        instruction =
            instruction_cases note.memory_type note.authority note.authorized_instruction note.taint
              (ground arith);
        not_hostile = ne_of_test note.taint "hostile" d;
        supported = evidence-Supported files (value_at "evidence" note.metadata) e;
      }

  pub raise_blockers-Cleared :
      (files : List (String × ec.Content)) (note : Note F) (z : Unit {0})
      → raise_blockers F calls ec oc utc_now actor uuid files note ≡ ok z
      → Cleared files note
  unfolding raise_blockers
  raise_blockers-Cleared files note z h =
      no_blockers-Cleared files note
        (nothing (promotion_blockers F calls ec oc utc_now actor uuid files note) _ h)

  -- The one row that an identity names.
  pub record Found (memory_id : String) (rows : List (Note F)) (note : Note F) : Type 0 where
    pub member : In note rows
    pub named : (note.id ≡ memory_id) ⊎ (note.declared_id ≡ memory_id)
    pub alone : length (filter (λ (row : Note F). row.declared_id == note.declared_id) rows) ≤ 1

  declarers-length :
      (identity : String) (rows : List (Note F))
      → declarers F calls ec oc utc_now actor uuid identity rows
        ≡ length (filter (λ (row : Note F). row.declared_id == identity) rows)
  unfolding declarers
  declarers-length identity [] = refl
  declarers-length identity (row ∷ rows) = elim (Bool-cases (row.declared_id == identity)) [
    | inl e ↦ rw (e, declarers-length identity rows) refl
    | inr e ↦ rw (e, declarers-length identity rows) refl
  ]

  find_note-In :
      (p : Note F → Bool) (rows : List (Note F)) (note : Note F)
      → find_note F p rows ≡ some note
      → In note rows × (p note ≡ true)
  unfolding find_note
  find_note-In p [] note h = cc
  find_note-In p (row ∷ rows) note h = elim (Bool-cases (p row)) [
    | inl e ↦ subst (λ n. In n (row ∷ rows) × (p n ≡ true)) (some_inj (rw e at h)) (here, e)
    | inr e ↦ let (i, t) = find_note-In p rows note (rw e at h) in (there i, t)
  ]

  find_id-In :
      (memory_id : String) (rows : List (Note F)) (note : Note F)
      → find_id F memory_id rows ≡ some note
      → In note rows × ((note.id ≡ memory_id) ⊎ (note.declared_id ≡ memory_id))
  unfolding find_id
  find_id-In memory_id rows note h = by_id (find_note F (λ row. row.id == memory_id) rows) refl h
    where
      by_id :
          (o : Option (Note F))
          → find_note F (λ row. row.id == memory_id) rows ≡ o
          → elim o [
            | some found ↦ some found
            | none ↦ find_note F (λ row. row.declared_id == memory_id) rows
          ]
            ≡ some note
          → In note rows × ((note.id ≡ memory_id) ⊎ (note.declared_id ≡ memory_id))
      by_id (some found) e h =
          let (i, t) = find_note-In (λ row. row.id == memory_id) rows note (e ∙ h) in
          (i, inl ((eq_iff note.id memory_id).0 t))
      by_id none e h =
          let (i, t) = find_note-In (λ row. row.declared_id == memory_id) rows note h in
          (i, inr ((eq_iff note.declared_id memory_id).0 t))

  pub find_single-Found :
      (memory_id : String) (rows : List (Note F)) (note : Note F)
      → find_single F calls ec oc utc_now actor uuid memory_id rows ≡ ok note
      → Found memory_id rows note
  unfolding find_single single
  find_single-Found memory_id rows note h = by_row (find_id F memory_id rows) refl h
    where
      by_row :
          (o : Option (Note F))
          → find_id F memory_id rows ≡ o
          → single F calls ec oc utc_now actor uuid rows o ≡ ok note
          → Found memory_id rows note
      by_row none e h = cc
      by_row (some found) e h =
          let (a, p) =
            raise_if_ok (ltb 1 (declarers F calls ec oc utc_now actor uuid found.declared_id rows))
              _ _ h in
          let at_most = declarers-length found.declared_id rows in
          let (i, named) = find_id-In memory_id rows found e in
          subst (Found memory_id rows) (ok_inj p)
            (record { member = i; named = named; alone = rw (sym at_most) (ground arith) })
