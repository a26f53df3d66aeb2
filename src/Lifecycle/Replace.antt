-- ===== src/Lifecycle/Replace.antt =====
-- `_replace` of lifecycle.py, which `supersede`, `merge` and `split` call.
use autonomic_obsidian_kb.Prelude.{
  String, Bool, false, not, ◌&&◌, ◌||◌, none, some, List, [], ◌∷◌, ◌++◌, map, if◌then◌else◌, ◌==◌,
  nat_eq, string_eq, list_eq, is_in, value_error, Result, ok, ◌>>=◌, raise_if, join, append,
}
use autonomic_obsidian_kb.Prelude.Sets.{non_empty}
use autonomic_obsidian_kb.Models.Json.{Fields, get, set}
use autonomic_obsidian_kb.Models.Json.Value.{text}
use autonomic_obsidian_kb.Models.Json.Fields.{no_fields}
use autonomic_obsidian_kb.Models.Note.{Note}
use autonomic_obsidian_kb.Models.Rows.{identity_of}
use autonomic_obsidian_kb.Evidence.Records.{EvidenceCodec, OperationCodec}
use autonomic_obsidian_kb.Lifecycle.Review.{
  LifeCalls, Vault, reviewable, retired, require_reason, merge_list, find_single, raise_blockers,
  rewrite, change_entry, log_change, activate,
}

pub data Replacement : Type 0 where
  supersede merge split : Replacement

unfoldable pub operation_of : Replacement → String
operation_of supersede = "SUPERSEDE"
operation_of merge = "MERGE"
operation_of split = "SPLIT"

-- operation.lower()
unfoldable pub verb_of : Replacement → String
verb_of supersede = "supersede"
verb_of merge = "merge"
verb_of split = "split"

unfoldable pub forward_of : Replacement → String
forward_of supersede = "superseded_by"
forward_of merge = "merged_into"
forward_of split = "split_into"

unfoldable pub backward_of : Replacement → String
backward_of supersede = "supersedes"
backward_of merge = "merged_from"
backward_of split = "split_from"

module _ (F : Type 0) (calls : LifeCalls) (ec : EvidenceCodec) (oc : OperationCodec F)
    (utc_now actor : String) (uuid : String → String) where
  unfoldable pub find_all : List (Note F) → List String → Result (List (Note F))
  unfolding find_single
  find_all rows [] = ok []
  find_all rows (identity ∷ identities) =
      find_single F calls ec oc utc_now actor uuid identity rows >>= λ note.
      (find_all rows identities >>= λ notes. ok (note ∷ notes))

  -- len(set(xs)) != len(xs)
  unfoldable pub repeats : List String → Bool
  repeats [] = false
  repeats (x ∷ xs) = is_in x xs || repeats xs

  -- The loop over the retired memories.
  unfoldable pub check_retired : List (Note F) → Result (Unit {0})
  unfolding identity_of
  check_retired [] = ok tt
  check_retired (note ∷ notes) =
      raise_if (is_in note.status retired)
        (value_error (append (identity_of F note) (append " is already " note.status)))
        (check_retired notes)

  unfoldable pub check_review : List (String × ec.Content) → Note F → Result (Unit {0})
  unfolding raise_blockers
  check_review files note =
      if is_in note.status reviewable
      then raise_blockers F calls ec oc utc_now actor uuid files note
      else ok tt

  -- The loop over the successors.
  unfoldable pub check_successors : List (String × ec.Content) → List (Note F) → Result (Unit {0})
  unfolding check_review
  check_successors files [] = ok tt
  check_successors files (note ∷ notes) =
      raise_if (is_in note.status retired || note.status == "stale")
        (value_error "revalidate or choose an active memory")
        (check_review files note >>= λ z. check_successors files notes)

  unfoldable pub with_successor : List String → Fields → Fields
  unfolding set
  with_successor (identity ∷ []) d = set "superseded_by" (text identity) d
  with_successor _ d = d

  -- `retire`
  unfoldable pub retire : Replacement → List String → Fields → Fields
  unfolding with_successor set merge_list get forward_of
  retire supersede successors d = with_successor successors (set "status" (text "superseded") d)
  retire kind successors d =
      let e = with_successor successors (set "status" (text "superseded") d) in
      set (forward_of kind)
        (merge_list F calls ec oc utc_now actor uuid (get (forward_of kind) e) successors) e

  unfoldable pub retire_one :
      Replacement → String → List String → Note F → Vault F oc → Result (String × Vault F oc)
  unfolding rewrite retire change_entry log_change operation_of
  retire_one kind reason successors note s =
      rewrite F calls ec oc utc_now actor uuid note (retire kind successors) none s.notes >>= λ r.
      log_change F calls ec oc utc_now actor uuid (operation_of kind) note
        (change_entry F calls ec oc utc_now actor uuid r successors reason no_fields) r s

  unfoldable pub retire_all :
      Replacement → String → List String → List (Note F) → Vault F oc → Result (Vault F oc)
  unfolding retire_one
  retire_all kind reason successors [] s = ok s
  retire_all kind reason successors (note ∷ notes) s =
      retire_one kind reason successors note s >>= λ p. retire_all kind reason successors notes p.1

  unfoldable pub activate_all :
      String → String × List String → List (Note F) → Vault F oc → Result (Vault F oc)
  unfolding activate
  activate_all reason provenance [] s = ok s
  activate_all reason provenance (note ∷ notes) s =
      activate F calls ec oc utc_now actor uuid note reason (some provenance) s >>= λ p.
      activate_all reason provenance notes p.1

  unfoldable pub activation_reason : Replacement → List String → String → String
  unfolding verb_of join
  activation_reason kind retired_identities reason =
      append (verb_of kind)
        (append " of " (append (join ", " retired_identities) (append ": " reason)))

  -- The transaction.
  unfoldable pub replace_notes :
      Replacement → String → List (Note F) → List (Note F) → Vault F oc → Result (Vault F oc)
  unfolding retire_all activate_all activation_reason backward_of identity_of
  replace_notes kind reason old new s =
      retire_all kind reason (map (identity_of F) new) old s >>= λ t.
      activate_all (activation_reason kind (map (identity_of F) old) reason)
        (backward_of kind, map (identity_of F) old) new t

  -- The checks before the transaction.
  unfoldable pub replace_checked :
      Replacement
      → String
      → List (String × ec.Content)
      → List (Note F)
      → List (Note F)
      → Vault F oc
      → Result (Vault F oc)
  unfolding repeats check_retired check_successors replace_notes
  replace_checked kind reason files old new s =
      raise_if (repeats (map (λ note. note.id) (old ++ new)))
        (value_error "a memory can appear only once and cannot replace itself")
        (check_retired old >>= λ z.
          (check_successors files new >>= λ y. replace_notes kind reason old new s))

  unfoldable pub replace_found :
      Replacement
      → String
      → List String
      → List (Note F)
      → List (String × ec.Content)
      → Vault F oc
      → List (Note F)
      → Result (Vault F oc)
  unfolding find_all replace_checked
  replace_found kind reason successor_ids rows files s old =
      find_all rows successor_ids >>= λ new. replace_checked kind reason files old new s

  -- `_replace`
  unfoldable pub replace :
      Replacement
      → List String
      → List String
      → String
      → List (Note F)
      → List (String × ec.Content)
      → Vault F oc
      → Result (Vault F oc)
  unfolding require_reason find_all replace_found
  replace kind retired_ids successor_ids reason rows files s = require_reason reason >>= λ r.
      raise_if (not (non_empty retired_ids && non_empty successor_ids))
        (value_error "both retired and replacement memories are required")
        (find_all rows retired_ids >>= replace_found kind r successor_ids rows files s)
