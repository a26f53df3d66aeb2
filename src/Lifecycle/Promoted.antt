-- ===== src/Lifecycle/Promoted.antt =====
-- What a promotion leaves in the vault.
use autonomic_obsidian_kb.Prelude.{
  String, ◌≡◌, refl, ◌∙◌, subst, ◌⊎◌, inl, inr, false, not, Option, none, some, List, if◌then◌else◌,
  Bool-cases, ◌==◌, eq_iff, nat_eq, string_eq, list_eq, is_in, lookup, insert, lookup-insert,
  lookup-insert_self, ok, ◌>>=◌, raise_if_ok, bind_ok, ok_inj, append,
}
use autonomic_obsidian_kb.Models.Json.{Fields, get, set, get-set_self, get-set_other}
use autonomic_obsidian_kb.Models.Json.Value.{text}
use autonomic_obsidian_kb.Models.Note.{Note}
use autonomic_obsidian_kb.Models.Rows.{identity_of}
use autonomic_obsidian_kb.Evidence.Records.{EvidenceCodec, OperationCodec}
use autonomic_obsidian_kb.Storage.Move.{move_into-Moved}
use autonomic_obsidian_kb.Learning.Status.{directory_for_type}
use autonomic_obsidian_kb.Lifecycle.Review.{
  LifeCalls, Vault, Rewritten, reviewable, require_reason, find_single, raise_blockers,
  rewritten_text, moved, rewrite_text, rewrite, log_change, log_activation, activated, activate,
  promote_note, promote,
}

module _ (F : Type 0) (calls : LifeCalls) (ec : EvidenceCodec) (oc : OperationCodec F)
    (utc_now actor : String) (uuid : String → String) where
  -- The text of a note stands at a path, and the other notes as they were.
  pub record Stands (path s : String) (notes : List (String × String)) (destination : String)
      (after : List (String × String)) : Type 0 where
    pub arrived : lookup destination after ≡ some s
    pub kept :
        (p u : String) → (path == p) ≡ false → lookup p notes ≡ some u → lookup p after ≡ some u

  written :
      (path s : String) (notes : List (String × String)) (destination : String)
      (after : List (String × String))
      → Stands path s (insert path s notes) destination after
      → Stands path s notes destination after
  written path s notes destination after m = record {
    arrived = m.arrived;
    kept = λ p u f g. m.kept p u f (lookup-insert path p s notes ∙ rw f g);
  }

  moved-Stands :
      (note : Note F) (move_to : Option String) (s : String) (notes after : List (String × String))
      (destination : String)
      → lookup note.path notes ≡ some s
      → moved F calls ec oc utc_now actor uuid note move_to notes ≡ ok (destination, after)
      → Stands note.path s notes destination after
  unfolding moved
  moved-Stands note none s notes after destination at h =
      subst (λ (r : String × List (String × String)). Stands note.path s notes r.0 r.1) (ok_inj h)
        (record { arrived = at; kept = λ p u f g. g })
  moved-Stands note (some directory) s notes after destination at h =
      elim (Bool-cases (calls.in_inbox note.path)) [
        | inl e ↦
            let m =
              move_into-Moved calls.paths note.path directory (identity_of F note) s notes after
                destination at (rw e at h) in
            record { arrived = m.arrived; kept = m.kept }
        | inr e ↦
            subst (λ (r : String × List (String × String)). Stands note.path s notes r.0 r.1)
              (ok_inj (rw e at h)) (record { arrived = at; kept = λ p u f g. g })
      ]

  -- A note that was read and is rewritten.
  pub record Changed (note : Note F) (change : Fields → Fields) (notes : List (String × String))
      (destination : String) (after : List (String × String)) : Type 0 where
    pub before : String
    pub read : lookup note.path notes ≡ some before
    pub stands :
        Stands note.path
          (rewritten_text F calls ec oc utc_now actor uuid change before)
          notes
          destination
          after

  rewrite_text-Changed :
      (note : Note F) (change : Fields → Fields) (move_to : Option String)
      (notes : List (String × String)) (o : Option String) (r : Rewritten)
      → lookup note.path notes ≡ o
      → rewrite_text F calls ec oc utc_now actor uuid note change move_to notes o ≡ ok r
      → Changed note change notes r.destination r.notes
  unfolding rewrite_text
  rewrite_text-Changed note change move_to notes none r at h = cc
  rewrite_text-Changed note change move_to notes (some before) r at h =
      let s = rewritten_text F calls ec oc utc_now actor uuid change before in
      let ((destination, after), (m, q)) =
        bind_ok (moved F calls ec oc utc_now actor uuid note move_to (insert note.path s notes))
          (λ p. ok (record { destination = p.0; before = before; after = s; notes = p.1 })) r h in
      subst (λ (x : Rewritten). Changed note change notes x.destination x.notes) (ok_inj q)
        (record {
          before = before;
          read = at;
          stands = written note.path s notes destination after (
              moved-Stands note move_to s (insert note.path s notes) after destination
                (lookup-insert_self note.path s notes) m);
        })

  activate-Changed :
      (note : Note F) (reason : String) (provenance : Option (String × List String))
      (s : Vault F oc) (out : String × Vault F oc)
      → activate F calls ec oc utc_now actor uuid note reason provenance s ≡ ok out
      → Changed note
          (activated F calls ec oc utc_now actor uuid provenance)
          s.notes
          out.0
          out.1.notes
  unfolding activate rewrite log_activation log_change
  activate-Changed note reason provenance s out h =
      let move_to : Option String =
        if is_in note.status reviewable then some (directory_for_type note.memory_type) else none in
      let (r, (a, p)) =
        bind_ok
          (rewrite F calls ec oc utc_now actor uuid note
            (activated F calls ec oc utc_now actor uuid provenance) move_to s.notes)
          (log_activation F calls ec oc utc_now actor uuid note reason s) out h in
      let c =
        rewrite_text-Changed note (activated F calls ec oc utc_now actor uuid provenance) move_to
          s.notes (lookup note.path s.notes) r refl a in
      let (l, (b, q)) =
        bind_ok _ (λ l. ok (r.destination, record { notes = r.notes; operations = l.1 })) out p in
      subst
        (λ (x : String × Vault F oc).
          Changed note (activated F calls ec oc utc_now actor uuid provenance) s.notes x.0
            x.1.notes)
        (ok_inj q) c

  promote_note-Changed :
      (files : List (String × ec.Content)) (s : Vault F oc) (reason : String) (note : Note F)
      (out : String × Vault F oc)
      → promote_note F calls ec oc utc_now actor uuid files s reason note ≡ ok out
      → Changed note (activated F calls ec oc utc_now actor uuid none) s.notes out.0 out.1.notes
  unfolding promote_note
  promote_note-Changed files s reason note out h =
      let (a, p) = raise_if_ok (note.status == "conflicted") _ _ h in
      let (b, q) = raise_if_ok (not (note.status == "inbox")) _ _ p in
      let (z, (r, t)) =
        bind_ok (raise_blockers F calls ec oc utc_now actor uuid files note)
          (λ z. activate F calls ec oc utc_now actor uuid note (append "promote: " reason) none s)
          out q in
      activate-Changed note (append "promote: " reason) none s out t

  active_now :
      (d : Fields)
      → get "status"
          (set "updated" (text utc_now) (activated F calls ec oc utc_now actor uuid none d))
        ≡ some (text "active")
  unfolding activated
  active_now d =
      get-set_other "updated" "status" (text utc_now) (set "status" (text "active") d) refl
      ∙ get-set_self "status" (text "active") d

-- A promotion that ends well leaves, at the path that it answers, the text of the one memory of that
-- identity with its metadata rewritten so that its status is active, and every other note that was
-- there with the text it had.
pub promote_activates :
    (F : Type 0) (calls : LifeCalls) (ec : EvidenceCodec) (oc : OperationCodec F)
    (utc_now actor : String) (uuid : String → String) (memory_id reason : String)
    (rows : List (Note F)) (files : List (String × ec.Content)) (s after : Vault F oc)
    (destination p u : String)
    → promote F calls ec oc utc_now actor uuid memory_id reason rows files s
      ≡ ok (destination, after)
    → lookup p s.notes ≡ some u
    → (note : Note F) × ((find_single F calls ec oc utc_now actor uuid memory_id rows ≡ ok note)
        × ((before : String) × ((lookup note.path s.notes ≡ some before)
              × ((lookup destination after.notes
                    ≡ some (
                        rewritten_text F calls ec oc utc_now actor uuid
                          (activated F calls ec oc utc_now actor uuid none)
                          before))
                  × (get "status" (
                        set "updated" (text utc_now) (
                          activated F calls ec oc utc_now actor uuid none
                            (calls.parse_markdown before).0))
                      ≡ some (text "active"))
                  × ((note.path ≡ p) ⊎ (lookup p after.notes ≡ some u))))))
unfolding promote
promote_activates F calls ec oc utc_now actor uuid memory_id reason rows files s after destination p
      u h there_before =
    let (r, (given, q)) =
      bind_ok (require_reason reason)
        (λ r.
          find_single F calls ec oc utc_now actor uuid memory_id rows
          >>= promote_note F calls ec oc utc_now actor uuid files s r)
        (destination, after) h in
    let (note, (found, t)) =
      bind_ok (find_single F calls ec oc utc_now actor uuid memory_id rows)
        (promote_note F calls ec oc utc_now actor uuid files s r) (destination, after) q in
    let c =
      promote_note-Changed F calls ec oc utc_now actor uuid files s r note (destination, after) t in
    (
      note,
      (
        found,
        (
          c.before,
          (
            c.read,
            (
              c.stands.arrived,
              active_now F calls ec oc utc_now actor uuid (calls.parse_markdown c.before).0,
              other_note note c,
            ),
          ),
        ),
      ),
    )
  where
    other_note :
        (note : Note F)
        → Changed F calls ec oc utc_now actor uuid note
            (activated F calls ec oc utc_now actor uuid none)
            s.notes
            destination
            after.notes
        → (note.path ≡ p) ⊎ (lookup p after.notes ≡ some u)
    other_note note c = elim (Bool-cases (note.path == p)) [
      | inl e ↦ inl ((eq_iff note.path p).0 e)
      | inr e ↦ inr (c.stands.kept p u e there_before)
    ]
