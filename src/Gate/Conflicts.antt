-- ===== src/Gate/Conflicts.antt =====
-- `conflicting_claim_ids` of read_policy.py. A set of identities is a list.
use autonomic_obsidian_kb.Prelude.{
  String, Bool, Option, none, some, List, [], ◌∷◌, ◌++◌, map, ltb, if◌then◌else◌, ◌==◌, nat_eq,
  string_eq, list_eq, length, is_set,
}
use autonomic_obsidian_kb.Prelude.Sets.{set_of}
use autonomic_obsidian_kb.Models.Json.{Value, Fields, get, get_set}
use autonomic_obsidian_kb.Models.Json.Value.{null, text, arr}
use autonomic_obsidian_kb.Models.Json.Items.{no_items, item}
use autonomic_obsidian_kb.Models.Note.{Note}

unfoldable pub get_or : Value → String → Fields → Value
unfolding get
get_or default key d = elim (get key d) [ none ↦ default | some v ↦ v ]

module _ (F : Type 0) (stable_json : Value → String) where
  unfoldable pub namespace_of : Value → Note F → String
  unfolding get_or
  namespace_of claim note = stable_json (
      arr (
        item claim (
          item (text note.scope) (
            item (text (if is_set note.repository_id then note.repository_id else note.repo)) (
              item (text note.project) (
                item (text note.module_name) (
                  item (text note.branch) (
                    item (get_or null "task" note.metadata) (
                      item (get_or null "session" note.metadata)
                        (item (get_or (arr no_items) "applies_to" note.metadata) no_items))))))))))

  -- The JSON of a note's claim_value.
  unfoldable pub claim_value_of : Note F → String
  unfolding get_or
  claim_value_of note = stable_json (get_or null "claim_value" note.metadata)

  -- groups.setdefault(key, []).append(note)
  unfoldable pub add_note :
      String → Note F → List (String × List (Note F)) → List (String × List (Note F))
  add_note key note [] = (key, note ∷ []) ∷ []
  add_note key note ((k, group) ∷ rest) =
      let later = add_note key note rest in
      if k == key then (k, group ++ note ∷ []) ∷ rest else (k, group) ∷ later

  -- The namespace of a note that has a claim.
  unfoldable pub claim_space : Note F → Option String
  unfolding get_set namespace_of
  claim_space note = elim (get_set "claim_key" note.metadata) [
    | none ↦ none
    | some claim ↦ some (namespace_of claim note)
  ]

  unfoldable pub place :
      Note F → Option String → List (String × List (Note F)) → List (String × List (Note F))
  unfolding add_note
  place note none groups = groups
  place note (some key) groups = add_note key note groups

  unfoldable pub group_notes :
      List (Note F) → List (String × List (Note F)) → List (String × List (Note F))
  unfolding place claim_space
  group_notes [] groups = groups
  group_notes (note ∷ notes) groups = group_notes notes (place note (claim_space note) groups)

  -- Whether the notes of a group have more than one value.
  unfoldable pub differs : List (Note F) → Bool
  unfolding claim_value_of
  differs group = ltb 1 (length (set_of (map claim_value_of group)))

  unfoldable pub blocked_ids : List (String × List (Note F)) → List String
  unfolding differs
  blocked_ids [] = []
  blocked_ids ((key, group) ∷ rest) =
      let later = blocked_ids rest in
      if differs group then map (λ note. note.id) group ++ later else later

  unfoldable pub conflicting_claim_ids : List (Note F) → List String
  unfolding group_notes blocked_ids
  conflicting_claim_ids notes = blocked_ids (group_notes notes [])
