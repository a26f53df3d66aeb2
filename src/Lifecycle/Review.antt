-- ===== src/Lifecycle/Review.antt =====
-- `Lifecycle.promote` of lifecycle.py and what it calls. A raise stands for a transaction that is
-- rolled back, so that it leaves the vault as it was.
use autonomic_obsidian_kb.Prelude.{
  ℕ, suc, String, Bool, true, false, not, Option, none, some, List, [], ◌∷◌, ◌++◌, map, ltb,
  if◌then◌else◌, ◌==◌, nat_eq, string_eq, list_eq, all, is_in, lookup, insert, value_error,
  file_not_found_error, Result, ok, raise, ◌>>=◌, raise_if, is_set, strip, join, append,
}
use autonomic_obsidian_kb.Prelude.Sets.{sorted_set, non_empty}
use autonomic_obsidian_kb.Models.Json.{Value, Fields, get, set, show, to_list}
use autonomic_obsidian_kb.Models.Json.Value.{text, arr, obj}
use autonomic_obsidian_kb.Models.Json.Fields.{no_fields, field}
use autonomic_obsidian_kb.Models.Note.{Note}
use autonomic_obsidian_kb.Models.Rows.{find_id, identity_of}
use autonomic_obsidian_kb.Gate.Trust.{instruction_authorized}
use autonomic_obsidian_kb.Evidence.Records.{EvidenceCodec, OperationCodec}
use autonomic_obsidian_kb.Evidence.Store.{verify}
use autonomic_obsidian_kb.Evidence.Ledger.{Entry, append_operation}
use autonomic_obsidian_kb.Storage.Move.{PathCalls, move_into}
use autonomic_obsidian_kb.Learning.Duplicate.{texts}
use autonomic_obsidian_kb.Learning.Status.{directory_for_type}

-- The YAML of markdown.py, str.lstrip, scan_content, whether a path lies in the inbox, str of a list or
-- a dict, and the paths.
pub record LifeCalls : Type 0 where
  pub parse_markdown : String → Fields × String
  pub dump_frontmatter : Fields → String
  pub lstrip : String → String
  pub is_unsafe : String → Bool
  pub in_inbox : String → Bool
  pub render : Value → String
  pub paths : PathCalls

abbrev pub reviewable : List String
reviewable = "inbox" ∷ "conflicted" ∷ []

abbrev pub retired : List String
retired = "archived" ∷ "superseded" ∷ "retracted" ∷ "quarantined" ∷ []

pub record Vault (F : Type 0) (oc : OperationCodec F) : Type 0 where
  pub notes : List (String × String)
  pub operations : List (String × oc.Content)

-- The path of a note that was rewritten, its text before and after, and the notes of the vault.
pub record Rewritten : Type 0 where
  pub destination : String
  pub before : String
  pub after : String
  pub notes : List (String × String)

unfoldable pub require_reason : String → Result String
unfolding strip
require_reason reason =
    raise_if (not (is_set (strip reason)))
      (value_error "a non-empty --reason is required for lifecycle changes") (ok (strip reason))

module _ (F : Type 0) (calls : LifeCalls) (ec : EvidenceCodec) (oc : OperationCodec F)
    (utc_now actor : String) (uuid : String → String) where
  open calls use {parse_markdown, dump_frontmatter, lstrip, is_unsafe, in_inbox, render, paths}

  -- `_merge_list`
  unfoldable pub merge_list : Option Value → List String → Value
  unfolding sorted_set show to_list
  merge_list existing additions =
      let known : List String = elim existing [
        | none ↦ []
        | some v ↦ elim v [
          | text s ↦ if is_set s then s ∷ [] else []
          | arr items ↦ map (show render) (to_list items)
          | _ ↦ []
        ]
      ] in
      arr (texts (sorted_set (known ++ additions)))

  unfoldable pub declarers : String → List (Note F) → ℕ
  declarers identity [] = 0
  declarers identity (row ∷ rows) =
      let rest = declarers identity rows in if row.declared_id == identity then suc rest else rest

  unfoldable pub single : List (Note F) → Option (Note F) → Result (Note F)
  unfolding declarers
  single rows none = raise (value_error "memory not found")
  single rows (some note) =
      raise_if (ltb 1 (declarers note.declared_id rows))
        (value_error "resolve the duplicate identity") (ok note)

  -- `_note`, after the index is brought up to date
  unfoldable pub find_single : String → List (Note F) → Result (Note F)
  unfolding single find_id
  find_single memory_id rows = single rows (find_id F memory_id rows)

  unfoldable pub evidence_fails : List (String × ec.Content) → Note F → Bool
  unfolding get verify show to_list
  evidence_fails files note = elim (get "evidence" note.metadata) [
    | none ↦ false
    | some v ↦ elim v [
      | arr items ↦ not (all (λ e. verify ec (show render e) files) (to_list items))
      | _ ↦ true
    ]
  ]

  -- A blocker, where its test holds.
  abbrev pub blocker : Bool → String → List String
  blocker test reason = if test then reason ∷ [] else []

  -- `_promotion_blockers`, with the files of the evidence
  unfoldable pub promotion_blockers : List (String × ec.Content) → Note F → List String
  unfolding instruction_authorized evidence_fails show
  promotion_blockers files note =
      let authorized =
        instruction_authorized note.memory_type note.authority note.authorized_instruction
          note.taint in
      blocker (not note.schema_valid) "memory fails schema validation"
      ++ blocker (is_unsafe (append note.body (show render (obj note.metadata))))
          "memory contains unsafe content"
      ++ blocker (not authorized.0) authorized.1
      ++ blocker (note.taint == "hostile") "hostile provenance taint"
      ++ blocker (evidence_fails files note) "evidence missing or tampered"

  unfoldable pub raise_blockers : List (String × ec.Content) → Note F → Result (Unit {0})
  unfolding promotion_blockers identity_of join
  raise_blockers files note =
      raise_if (non_empty (promotion_blockers files note))
        (value_error (
          append "cannot activate " (
            append (identity_of F note) (append ": " (join "; " (promotion_blockers files note))))))
        (ok tt)

  -- The text of a note whose metadata is changed.
  unfoldable pub rewritten_text : (Fields → Fields) → String → String
  unfolding set
  rewritten_text change before =
      let parsed = parse_markdown before in
      append (dump_frontmatter (set "updated" (text utc_now) (change parsed.0))) (lstrip parsed.1)

  unfoldable pub moved :
      Note F → Option String → List (String × String) → Result (String × List (String × String))
  unfolding move_into identity_of
  moved note none notes = ok (note.path, notes)
  moved note (some directory) notes =
      if in_inbox note.path
      then move_into paths note.path directory (identity_of F note) notes
      else ok (note.path, notes)

  unfoldable pub rewrite_text :
      Note F
      → (Fields → Fields)
      → Option String
      → List (String × String)
      → Option String
      → Result Rewritten
  unfolding rewritten_text moved insert
  rewrite_text note change move_to notes none = raise file_not_found_error
  rewrite_text note change move_to notes (some before) =
      moved note move_to (insert note.path (rewritten_text change before) notes) >>= λ p.
      ok (record {
        destination = p.0;
        before = before;
        after = rewritten_text change before;
        notes = p.1;
      })

  -- `_rewrite`
  unfoldable pub rewrite :
      Note F → (Fields → Fields) → Option String → List (String × String) → Result Rewritten
  unfolding rewrite_text lookup
  rewrite note change move_to notes =
      rewrite_text note change move_to notes (lookup note.path notes)

  unfoldable pub change_entry : Rewritten → List String → String → Fields → Entry F
  change_entry r basis reason metadata = record {
    actor = actor;
    basis = basis;
    previous_digest = paths.sha256 r.before;
    new_digest = paths.sha256 r.after;
    reason = reason;
    policy_version = "v2";
    confidence_before = none;
    confidence_after = none;
    metadata = metadata;
    require_previous = none;
  }

  -- The operation of a change, after which its notes are those of the vault.
  unfoldable pub log_change :
      String → Note F → Entry F → Rewritten → Vault F oc → Result (String × Vault F oc)
  unfolding identity_of
  log_change operation note entry r s =
      append_operation F oc utc_now (uuid (identity_of F note)) operation (identity_of F note) entry
        s.operations
      >>= λ p. ok (r.destination, record { notes = r.notes; operations = p.1 })

  unfoldable pub activated : Option (String × List String) → Fields → Fields
  unfolding set merge_list get
  activated none d = set "status" (text "active") d
  activated (some (key, identities)) d =
      let active = set "status" (text "active") d in
      set key (merge_list (get key active) identities) active

  unfoldable pub log_activation :
      Note F → String → Vault F oc → Rewritten → Result (String × Vault F oc)
  unfolding log_change change_entry
  log_activation note reason s r =
      log_change "AMEND" note
        (change_entry r [] reason
          (field "from_status" (text note.status) (field "to_status" (text "active") no_fields)))
        r s

  -- `_activate`: the path of the note, and the vault
  unfoldable pub activate :
      Note F → String → Option (String × List String) → Vault F oc → Result (String × Vault F oc)
  unfolding rewrite activated log_activation directory_for_type
  activate note reason provenance s =
      rewrite note (activated provenance)
        (if is_in note.status reviewable then some (directory_for_type note.memory_type) else none)
        s.notes
      >>= log_activation note reason s

  unfoldable pub promote_note :
      List (String × ec.Content) → Vault F oc → String → Note F → Result (String × Vault F oc)
  unfolding raise_blockers activate
  promote_note files s reason note =
      raise_if (note.status == "conflicted")
        (value_error "contradicts another memory; resolve it with `kb supersede`")
        (raise_if (not (note.status == "inbox")) (value_error "only inbox memories can be promoted")
          (raise_blockers files note >>= λ z. activate note (append "promote: " reason) none s))

  -- `promote`
  unfoldable pub promote :
      String
      → String
      → List (Note F)
      → List (String × ec.Content)
      → Vault F oc
      → Result (String × Vault F oc)
  unfolding require_reason find_single promote_note
  promote memory_id reason rows files s =
      require_reason reason >>= λ r. find_single memory_id rows >>= promote_note files s r
