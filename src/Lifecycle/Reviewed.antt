-- ===== src/Lifecycle/Reviewed.antt =====
-- What a promotion and a replacement have checked when they end well.
use autonomic_obsidian_kb.Prelude.{
  String, ◌≡◌, ◌≢◌, ◌⊎◌, inl, inr, Bool, true, false, not, ◌&&◌, ◌||◌, none, List, [], ◌∷◌, ◌++◌,
  map, arith, Bool-cases, ◌==◌, eq_iff, ne_of_test, nat_eq, string_eq, list_eq, All, is_in,
  Distinct, value_error, ok, ◌>>=◌, raise_if, raise_if_ok, bind_ok, is_set, strip, append,
}
use autonomic_obsidian_kb.Prelude.Sets.{non_empty}
use autonomic_obsidian_kb.Models.Note.{Note}
use autonomic_obsidian_kb.Evidence.Records.{EvidenceCodec, OperationCodec}
use autonomic_obsidian_kb.Lifecycle.Review.{
  LifeCalls, Vault, reviewable, retired, require_reason, find_single, raise_blockers, activate,
  promote_note, promote,
}
use autonomic_obsidian_kb.Lifecycle.Replace.{
  Replacement, find_all, repeats, check_retired, check_review, check_successors, replace_notes,
  replace_checked, replace_found, replace,
}
use autonomic_obsidian_kb.Lifecycle.Cleared.{
  Cleared, Found, raise_blockers-Cleared, find_single-Found,
}

module _ (F : Type 0) (calls : LifeCalls) (ec : EvidenceCodec) (oc : OperationCodec F)
    (utc_now actor : String) (uuid : String → String) where
  -- A memory in the inbox against which no blocker stands.
  pub record Promotable (files : List (String × ec.Content)) (note : Note F) : Type 0 where
    pub waiting : note.status ≡ "inbox"
    pub cleared : Cleared F calls ec oc utc_now actor uuid files note

  promote_note-Promotable :
      (files : List (String × ec.Content)) (s : Vault F oc) (reason : String) (note : Note F)
      (out : String × Vault F oc)
      → promote_note F calls ec oc utc_now actor uuid files s reason note ≡ ok out
      → Promotable files note
  unfolding promote_note
  promote_note-Promotable files s reason note out h =
      let (a, p) = raise_if_ok (note.status == "conflicted") _ _ h in
      let (b, q) = raise_if_ok (not (note.status == "inbox")) _ _ p in
      let (z, (r, t)) =
        bind_ok (raise_blockers F calls ec oc utc_now actor uuid files note)
          (λ z. activate F calls ec oc utc_now actor uuid note (append "promote: " reason) none s)
          out q in
      record {
        waiting = (eq_iff note.status "inbox").0 (ground arith);
        cleared = raise_blockers-Cleared F calls ec oc utc_now actor uuid files note z r;
      }

  -- What stands for memories that others retire in favor of.
  pub record Successor (files : List (String × ec.Content)) (note : Note F) : Type 0 where
    pub standing : is_in note.status retired ≡ false
    pub fresh : note.status ≢ "stale"
    pub reviewed :
        (is_in note.status reviewable ≡ false) ⊎ Cleared F calls ec oc utc_now actor uuid files note

  check_retired-All :
      (notes : List (Note F)) (z : Unit {0})
      → check_retired F calls ec oc utc_now actor uuid notes ≡ ok z
      → All (λ note. is_in note.status retired ≡ false) notes
  unfolding check_retired
  check_retired-All [] z h = tt
  check_retired-All (note ∷ notes) z h =
      let (a, p) = raise_if_ok (is_in note.status retired) _ _ h in (a, check_retired-All notes z p)

  check_review-cases :
      (files : List (String × ec.Content)) (note : Note F) (z : Unit {0})
      → check_review F calls ec oc utc_now actor uuid files note ≡ ok z
      → (is_in note.status reviewable ≡ false) ⊎ Cleared F calls ec oc utc_now actor uuid files note
  unfolding check_review
  check_review-cases files note z h = elim (Bool-cases (is_in note.status reviewable)) [
    | inl e ↦ inr (raise_blockers-Cleared F calls ec oc utc_now actor uuid files note z (rw e at h))
    | inr e ↦ inl e
  ]

  neither : (a b : Bool) → (a || b) ≡ false → (a ≡ false) × (b ≡ false)
  neither a b h = ground arith

  check_successors-All :
      (files : List (String × ec.Content)) (notes : List (Note F)) (z : Unit {0})
      → check_successors F calls ec oc utc_now actor uuid files notes ≡ ok z
      → All (Successor files) notes
  unfolding check_successors
  check_successors-All files [] z h = tt
  check_successors-All files (note ∷ notes) z h =
      let (a, p) = raise_if_ok (is_in note.status retired || note.status == "stale") _ _ h in
      let (standing, fresh) = neither (is_in note.status retired) (note.status == "stale") a in
      let (y, (r, rest)) =
        bind_ok (check_review F calls ec oc utc_now actor uuid files note)
          (λ y. check_successors F calls ec oc utc_now actor uuid files notes) z p in
      (
        record {
          standing = standing;
          fresh = ne_of_test note.status "stale" fresh;
          reviewed = check_review-cases files note y r;
        },
        check_successors-All files notes z rest,
      )

  -- What a replacement has checked of the memories it retires and of those that stand for them.
  pub record Replaceable (files : List (String × ec.Content)) (old new : List (Note F))
      : Type 0 where
    pub once : Distinct (map (λ note. note.id) (old ++ new))
    pub current : All (λ note. is_in note.status retired ≡ false) old
    pub successors : All (Successor files) new

  repeats-Distinct :
      (xs : List String) → repeats F calls ec oc utc_now actor uuid xs ≡ false → Distinct xs
  unfolding repeats
  repeats-Distinct [] h = tt
  repeats-Distinct (x ∷ xs) h =
      let (a, b) = neither (is_in x xs) (repeats F calls ec oc utc_now actor uuid xs) h in
      (a, repeats-Distinct xs b)

  replace_checked-Replaceable :
      (kind : Replacement) (reason : String) (files : List (String × ec.Content))
      (old new : List (Note F)) (s after : Vault F oc)
      → replace_checked F calls ec oc utc_now actor uuid kind reason files old new s ≡ ok after
      → Replaceable files old new
  unfolding replace_checked
  replace_checked-Replaceable kind reason files old new s after h =
      let (once, p) =
        raise_if_ok (repeats F calls ec oc utc_now actor uuid (map (λ note. note.id) (old ++ new)))
          _ _ h in
      let (z, (a, q)) =
        bind_ok (check_retired F calls ec oc utc_now actor uuid old)
          (λ z. check_successors F calls ec oc utc_now actor uuid files new >>= λ y.
            replace_notes F calls ec oc utc_now actor uuid kind reason old new s)
          after p in
      let (y, (b, r)) =
        bind_ok (check_successors F calls ec oc utc_now actor uuid files new)
          (λ y. replace_notes F calls ec oc utc_now actor uuid kind reason old new s) after q in
      record {
        once = repeats-Distinct (map (λ note. note.id) (old ++ new)) once;
        current = check_retired-All old z a;
        successors = check_successors-All files new y b;
      }

reason_given : (reason r : String) → require_reason reason ≡ ok r → is_set (strip reason) ≡ true
unfolding require_reason
reason_given reason r h =
    let (a, p) = raise_if_ok (not (is_set (strip reason))) _ _ h in ground arith

-- A promotion that ends well had a reason that is not blank, and was of a row with that identity or
-- declaring it, whose declared identity no other row declares. The memory was in the inbox, its schema
-- valid, its content safe, its taint not hostile and, for an instruction, authorized, of a trusted
-- authority and of a taint below external. Its evidence was missing, or a list of identities that each
-- read back from the evidence store.
pub promote_reviewed :
    (F : Type 0) (calls : LifeCalls) (ec : EvidenceCodec) (oc : OperationCodec F)
    (utc_now actor : String) (uuid : String → String) (memory_id reason : String)
    (rows : List (Note F)) (files : List (String × ec.Content)) (s : Vault F oc)
    (out : String × Vault F oc)
    → promote F calls ec oc utc_now actor uuid memory_id reason rows files s ≡ ok out
    → (is_set (strip reason) ≡ true)
      × ((note : Note F) × (Found F calls ec oc utc_now actor uuid memory_id rows note
            × Promotable F calls ec oc utc_now actor uuid files note))
unfolding promote
promote_reviewed F calls ec oc utc_now actor uuid memory_id reason rows files s out h =
    let (r, (given, p)) =
      bind_ok (require_reason reason)
        (λ r.
          find_single F calls ec oc utc_now actor uuid memory_id rows
          >>= promote_note F calls ec oc utc_now actor uuid files s r)
        out h in
    let (note, (found, q)) =
      bind_ok (find_single F calls ec oc utc_now actor uuid memory_id rows)
        (promote_note F calls ec oc utc_now actor uuid files s r) out p in
    (
      reason_given reason r given,
      (
        note,
        (
          find_single-Found F calls ec oc utc_now actor uuid memory_id rows note found,
          promote_note-Promotable F calls ec oc utc_now actor uuid files s r note out q,
        ),
      ),
    )

-- A replacement that ends well had a reason that is not blank; the identities of the memories it retires
-- and of their successors are all distinct; none of those retired was archived, superseded, retracted or
-- quarantined before; and no successor was one of these or stale. A successor that was in the inbox or
-- conflicted met the conditions of a promotion: schema, content, instruction, taint and evidence.
pub replace_reviewed :
    (F : Type 0) (calls : LifeCalls) (ec : EvidenceCodec) (oc : OperationCodec F)
    (utc_now actor : String) (uuid : String → String) (kind : Replacement)
    (retired_ids successor_ids : List String) (reason : String) (rows : List (Note F))
    (files : List (String × ec.Content)) (s after : Vault F oc)
    → replace F calls ec oc utc_now actor uuid kind retired_ids successor_ids reason rows files s
      ≡ ok after
    → (is_set (strip reason) ≡ true)
      × ((old : List (Note F)) × ((new : List (Note F)) × ((find_all F calls ec oc utc_now actor
                  uuid rows retired_ids
                ≡ ok old)
              × ((find_all F calls ec oc utc_now actor uuid rows successor_ids ≡ ok new)
                  × Replaceable F calls ec oc utc_now actor uuid files old new))))
unfolding replace replace_found
replace_reviewed F calls ec oc utc_now actor uuid kind retired_ids successor_ids reason rows files s
      after h =
    let (r, (given, p)) =
      bind_ok (require_reason reason)
        (λ r.
          raise_if (not (non_empty retired_ids && non_empty successor_ids))
            (value_error "both retired and replacement memories are required")
            (find_all F calls ec oc utc_now actor uuid rows retired_ids
              >>= replace_found F calls ec oc utc_now actor uuid kind r successor_ids rows files s))
        after h in
    let (some_given, q) =
      raise_if_ok (not (non_empty retired_ids && non_empty successor_ids)) _ _ p in
    let (old, (a, t)) =
      bind_ok (find_all F calls ec oc utc_now actor uuid rows retired_ids)
        (replace_found F calls ec oc utc_now actor uuid kind r successor_ids rows files s) after
        q in
    let (new, (b, u)) =
      bind_ok (find_all F calls ec oc utc_now actor uuid rows successor_ids)
        (λ new. replace_checked F calls ec oc utc_now actor uuid kind r files old new s) after t in
    (
      reason_given reason r given,
      (
        old,
        (
          new,
          (
            a,
            (
              b,
              replace_checked-Replaceable F calls ec oc utc_now actor uuid kind r files old new s
                  after u,
            ),
          ),
        ),
      ),
    )
