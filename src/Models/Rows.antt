-- ===== src/Models/Rows.antt =====
-- `KnowledgeIndex.get` of index.py, over the rows of the index in the order of their paths.
use autonomic_obsidian_kb.Prelude.{
  String, Bool, Option, none, some, List, [], ◌∷◌, if◌then◌else◌, ◌==◌, nat_eq, string_eq, list_eq,
  is_set,
}
use autonomic_obsidian_kb.Models.Note.{Note}

module _ (F : Type 0) where
  unfoldable pub find_note : (Note F → Bool) → List (Note F) → Option (Note F)
  find_note p [] = none
  find_note p (note ∷ notes) = if p note then some note else find_note p notes

  -- The row of an identity, or else the first that declares it.
  unfoldable pub find_id : String → List (Note F) → Option (Note F)
  unfolding find_note
  find_id memory_id rows = elim (find_note (λ note. note.id == memory_id) rows) [
    | some note ↦ some note
    | none ↦ find_note (λ note. note.declared_id == memory_id) rows
  ]

  -- note["declared_id"] or note["id"]
  unfoldable pub identity_of : Note F → String
  identity_of note = if is_set note.declared_id then note.declared_id else note.id
