-- ===== src/Gate/Readable.antt =====
-- When the read gate of read_policy.py lets a memory through.
use autonomic_obsidian_kb.Prelude.{
  String, ◌≡◌, ◌↔◌, Bool, true, false, Option, [], ◌∷◌, arith, ◌==◌, test_of_ne, nat_eq, string_eq,
  list_eq, is_in,
}
use autonomic_obsidian_kb.Gate.Chain.{read_chain}
use autonomic_obsidian_kb.Models.Floats.{Floats}
use autonomic_obsidian_kb.Models.Note.{Note}
use autonomic_obsidian_kb.Models.Task.{TaskContext}
use autonomic_obsidian_kb.Gate.Externals.{Externals}
use autonomic_obsidian_kb.Gate.Trust.{Trusted, trust_gate_iff}
use autonomic_obsidian_kb.Gate.Scope.{scope_gate}
use autonomic_obsidian_kb.Gate.Applicability.{applicability_gate}
use autonomic_obsidian_kb.Gate.Applicable.{Applicable, applicability_gate_iff}
use autonomic_obsidian_kb.Gate.Read.{
  valid_types, valid_statuses, temporal_gate, is_unsafe, trust_of, memory_read_gate,
}

-- What an agent may see.
pub record Readable (fl : Floats) (ex : Externals) (note : Note fl.F) (context : TaskContext)
    (allow_untrusted allow_cross_repo : Bool) (root : Option String) : Type 0 where
  pub schema : note.schema_valid ≡ true
  pub status : is_in note.status ("active" ∷ "stale" ∷ []) ≡ true
  pub type : is_in note.memory_type valid_types ≡ true
  pub safe : is_unsafe fl ex note ≡ false
  pub trusted :
      Trusted fl note.status note.authority note.confidence note.memory_type
        note.authorized_instruction note.taint allow_untrusted
  pub scoped : (scope_gate fl ex note context allow_cross_repo).accepted ≡ true
  pub applicable : Applicable ex note context root

current_status :
    (s : String)
    → is_in s valid_statuses ≡ true
    → (s == "inbox") ≡ false
    → is_in s ("quarantined" ∷ "archived" ∷ "superseded" ∷ "retracted" ∷ "conflicted" ∷ []) ≡ false
    → is_in s ("active" ∷ "stale" ∷ []) ≡ true
current_status s valid inbox retired = ground arith

known_status :
    (s : String) → is_in s ("active" ∷ "stale" ∷ []) ≡ true → is_in s valid_statuses ≡ true
known_status s h = ground arith

not_inbox : (s : String) → is_in s ("active" ∷ "stale" ∷ []) ≡ true → (s == "inbox") ≡ false
not_inbox s h = test_of_ne s "inbox" (λ e. cc)

module _ (fl : Floats) (ex : Externals) (note : Note fl.F) (context : TaskContext)
    (allow_untrusted allow_cross_repo : Bool) (root : Option String) where
  trusts :
      (trust_of fl ex note allow_untrusted).0 ≡ true
      → Trusted fl note.status note.authority note.confidence note.memory_type
          note.authorized_instruction note.taint allow_untrusted
  unfolding trust_of
  trusts h =
      (trust_gate_iff fl note.status note.authority note.confidence note.memory_type
          note.authorized_instruction note.taint allow_untrusted).0
        h

  Trusted-by :
      Trusted fl note.status note.authority note.confidence note.memory_type
        note.authorized_instruction note.taint allow_untrusted
      → (trust_of fl ex note allow_untrusted).0 ≡ true
  unfolding trust_of
  Trusted-by t =
      (trust_gate_iff fl note.status note.authority note.confidence note.memory_type
          note.authorized_instruction note.taint allow_untrusted).1
        t

  chain : ((memory_read_gate fl ex note context allow_untrusted allow_cross_repo root).0 ≡ true) ↔ (
      (note.schema_valid ≡ true)
      × (is_in note.status valid_statuses ≡ true)
      × (is_in note.memory_type valid_types ≡ true)
      × ((note.status == "inbox") ≡ false)
      × (is_unsafe fl ex note ≡ false)
      × ((trust_of fl ex note allow_untrusted).0 ≡ true)
      × ((scope_gate fl ex note context allow_cross_repo).accepted ≡ true)
      × ((applicability_gate fl.F ex note context root).0 ≡ true))
  unfolding memory_read_gate temporal_gate
  chain =
      read_chain note.schema_valid (is_in note.status valid_statuses)
        (is_in note.memory_type valid_types) (note.status == "inbox") (is_unsafe fl ex note)
        (trust_of fl ex note allow_untrusted)
        (scope_gate fl ex note context allow_cross_repo).accepted
        (applicability_gate fl.F ex note context root).0 _ _ _ _ _ _

  read_sound :
      (memory_read_gate fl ex note context allow_untrusted allow_cross_repo root).0 ≡ true
      → Readable fl ex note context allow_untrusted allow_cross_repo root
  read_sound h =
      let (schema, status, type, inbox, safe, trust, scope, time) = chain.0 h in
      record {
        schema = schema;
        status = current_status note.status status inbox (trusts trust).current;
        type = type;
        safe = safe;
        trusted = trusts trust;
        scoped = scope;
        applicable = (applicability_gate_iff fl.F ex note context root).0 time;
      }

  read_complete :
      Readable fl ex note context allow_untrusted allow_cross_repo root
      → (memory_read_gate fl ex note context allow_untrusted allow_cross_repo root).0 ≡ true
  read_complete r = chain.1 (
    r.schema,
    known_status note.status r.status,
    r.type,
    not_inbox note.status r.status,
    r.safe,
    Trusted-by r.trusted,
    r.scoped,
    (applicability_gate_iff fl.F ex note context root).1 r.applicable,
  )

-- The read gate lets a memory through exactly when its schema is valid, its status is active or
-- stale, its type is known, its content is not unsafe, and the trust gate, the scope gate and the
-- applicability gate accept it.
pub memory_read_gate_iff :
    (fl : Floats) (ex : Externals) (note : Note fl.F) (context : TaskContext)
    (allow_untrusted allow_cross_repo : Bool) (root : Option String)
    → ((memory_read_gate fl ex note context allow_untrusted allow_cross_repo root).0 ≡ true)
      ↔ Readable fl ex note context allow_untrusted allow_cross_repo root
memory_read_gate_iff fl ex note context allow_untrusted allow_cross_repo root = (
  read_sound fl ex note context allow_untrusted allow_cross_repo root,
  read_complete fl ex note context allow_untrusted allow_cross_repo root,
)
