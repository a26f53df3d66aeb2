-- ===== src/Evidence/Ledger.antt =====
-- `OperationLedger` of evidence.py: a directory of texts by path.
use autonomic_obsidian_kb.Prelude.{
  ℕ, ◌+◌, String, Bool, true, false, not, Option, none, some, List, [], ◌∷◌, ◌++◌, ltb,
  if◌then◌else◌, ◌==◌, nat_eq, string_eq, list_eq, is_in, insert, value_error, Result, ok, raise_if,
  is_set, text_le, append,
}
use autonomic_obsidian_kb.Prelude.Sort.{sort, last}
use autonomic_obsidian_kb.Models.Json.{Fields}
use autonomic_obsidian_kb.Evidence.Records.{
  MemoryOperation, OperationCodec, valid_operations, first_chars, drop_chars, without_colons,
}

-- What a call of `append` adds to the record, and what it asks for.
pub record Entry (F : Type 0) : Type 0 where
  pub actor : String
  pub basis : List String
  pub previous_digest : String
  pub new_digest : String
  pub reason : String
  pub policy_version : String
  pub confidence_before : Option F
  pub confidence_after : Option F
  pub metadata : Fields
  pub require_previous : Option String

module _ (F : Type 0) (codec : OperationCodec F) where
  open codec use {Content, encode, decode, has_secret, upper}

  -- One file of the ledger, decoded, where it is about the memory.
  unfoldable pub read_operation : String → Option (MemoryOperation F) → List (MemoryOperation F)
  read_operation memory_id none = []
  read_operation memory_id (some value) = if value.memory_id == memory_id then value ∷ [] else []

  unfoldable pub read_operations : String → List (String × codec.Content) → List (MemoryOperation F)
  unfolding read_operation
  read_operations memory_id [] = []
  read_operations memory_id ((path, content) ∷ files) =
      read_operation memory_id (decode content) ++ read_operations memory_id files

  -- The key (sequence, observed_at, operation_id): whether the first is not above the second.
  unfoldable pub not_after : MemoryOperation F → MemoryOperation F → Bool
  not_after a b =
      if ltb a.sequence b.sequence
      then true
      else if ltb b.sequence a.sequence
      then false
      else if a.observed_at == b.observed_at
      then text_le a.operation_id b.operation_id
      else text_le a.observed_at b.observed_at

  -- `iter_operations` of one memory
  unfoldable pub iter_operations : String → List (String × codec.Content) → List (MemoryOperation F)
  unfolding read_operations
  iter_operations memory_id files =
      sort not_after (read_operations memory_id (sort (λ a b. text_le a.0 b.0) files))

  unfoldable pub last_for : String → List (String × codec.Content) → Option (MemoryOperation F)
  unfolding iter_operations last
  last_for memory_id files = last (iter_operations memory_id files)

  unfoldable pub digest_of : Option (MemoryOperation F) → String
  digest_of none = ""
  digest_of (some o) = o.new_digest

  unfoldable pub next_sequence : Option (MemoryOperation F) → ℕ
  next_sequence none = 1
  next_sequence (some o) = o.sequence + 1

  -- require_previous is not None and actual_previous != require_previous
  unfoldable pub conflicts : Option String → String → Bool
  conflicts none actual = false
  conflicts (some required) actual = not (actual == required)

  -- day / observed_at without colons - the identity without "op:"
  unfoldable pub operation_path : MemoryOperation F → String
  unfolding first_chars drop_chars without_colons
  operation_path o = append (first_chars 10 o.observed_at) (
      append "/" (
        append (without_colons o.observed_at)
          (append "-" (append (drop_chars 3 o.operation_id) ".json"))))

  -- The record of `_append_locked`, at a time and with a fresh uuid.
  unfoldable pub operation_record :
      String → String → String → String → Entry F → Option (MemoryOperation F) → MemoryOperation F
  unfolding next_sequence digest_of
  operation_record utc_now uuid operation memory_id entry latest = record {
    operation_id = append "op:" uuid;
    operation = operation;
    memory_id = memory_id;
    actor = entry.actor;
    observed_at = utc_now;
    basis = entry.basis;
    previous_digest =
        if is_set entry.previous_digest then entry.previous_digest else digest_of latest;
    new_digest = entry.new_digest;
    reason = entry.reason;
    policy_version = entry.policy_version;
    sequence = next_sequence latest;
    confidence_before = entry.confidence_before;
    confidence_after = entry.confidence_after;
    metadata = entry.metadata;
  }

  -- `append`, at a time and with a fresh uuid
  unfoldable pub append_operation :
      String
      → String
      → String
      → String
      → Entry F
      → List (String × codec.Content)
      → Result (MemoryOperation F × List (String × codec.Content))
  unfolding operation_record operation_path conflicts digest_of last_for insert
  append_operation utc_now uuid operation memory_id entry files =
      let latest = last_for memory_id files in
      let r = operation_record utc_now uuid (upper operation) memory_id entry latest in
      raise_if (not (is_in (upper operation) valid_operations))
        (value_error (append "unsupported memory operation: " (upper operation)))
        (raise_if (conflicts entry.require_previous (digest_of latest))
          (value_error (append "memory " (append memory_id " changed concurrently")))
          (raise_if (has_secret r) (value_error "refusing to persist secret-bearing content")
            (ok (r, insert (operation_path r) (encode r) files))))
