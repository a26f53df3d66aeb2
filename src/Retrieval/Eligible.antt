-- ===== src/Retrieval/Eligible.antt =====
-- The notes that `retrieve` of retrieval.py lets the search find. `evidence_ok` is the answer of
-- `KnowledgeIndex.evidence_valid`, and a set of identities is a list.
use autonomic_obsidian_kb.Prelude.{
  ℕ, suc, String, Bool, true, false, not, ◌&&◌, ◌||◌, Option, none, some, List, [], ◌∷◌, ◌++◌, map,
  ltb, if◌then◌else◌, ◌==◌, nat_eq, string_eq, list_eq, all, filter, is_in, lookup, is_set,
}
use autonomic_obsidian_kb.Prelude.Sets.{sorted_set}
use autonomic_obsidian_kb.Models.Json.{Value, get, show, truthy, to_list}
use autonomic_obsidian_kb.Models.Json.Value.{arr}
use autonomic_obsidian_kb.Models.Floats.{Floats}
use autonomic_obsidian_kb.Models.Note.{Note}
use autonomic_obsidian_kb.Models.Task.{TaskContext}
use autonomic_obsidian_kb.Gate.Externals.{Externals}
use autonomic_obsidian_kb.Gate.Read.{memory_read_gate}
use autonomic_obsidian_kb.Gate.Conflicts.{conflicting_claim_ids}

module _ (fl : Floats) (ex : Externals) (stable_json : Value → String)
    (evidence_ok : List (String × Bool)) (allow_untrusted allow_cross_repo : Bool)
    (repo_path : Option String) (context : TaskContext) where
  open fl use {F}

  -- Counter(...).get(declared_id, 0) of the identities that are set
  unfoldable pub count_declared : String → List (Note F) → ℕ
  count_declared identity [] = 0
  count_declared identity (note ∷ notes) =
      let rest = count_declared identity notes in
      if is_set note.declared_id && note.declared_id == identity then suc rest else rest

  unfoldable pub is_verified : Value → Bool
  unfolding lookup show
  is_verified identity = elim (lookup (show ex.render identity) evidence_ok) [
    | none ↦ false
    | some b ↦ b
  ]

  -- Whether the evidence of a note, where it has any, is a list of verified identities.
  unfoldable pub evidence_holds : Note F → Bool
  unfolding get truthy to_list is_verified
  evidence_holds note = elim (get "evidence" note.metadata) [
    | none ↦ true
    | some v ↦ not (truthy v) || elim v [ arr items ↦ all is_verified (to_list items) | _ ↦ false ]
  ]

  unfoldable pub gate_of : Note F → Bool × String
  unfolding memory_read_gate
  gate_of note = memory_read_gate fl ex note context allow_untrusted allow_cross_repo repo_path

  -- One pass of the loop over the notes.
  unfoldable pub admission : List (Note F) → Note F → Bool × String
  unfolding gate_of count_declared evidence_holds
  admission notes note =
      if ltb 1 (count_declared note.declared_id notes)
      then (false, "duplicate canonical identity")
      else if (gate_of note).0 && not (evidence_holds note)
      then (false, "evidence missing or invalid")
      else gate_of note

  unfoldable pub admitted_ids : List (Note F) → List (Note F) → List String
  unfolding admission
  admitted_ids all_notes [] = []
  admitted_ids all_notes (note ∷ notes) =
      let rest = admitted_ids all_notes notes in
      if (admission all_notes note).0 then note.id ∷ rest else rest

  unfoldable pub refusals : List (Note F) → List (Note F) → List (String × String)
  unfolding admission
  refusals all_notes [] = []
  refusals all_notes (note ∷ notes) =
      let rest = refusals all_notes notes in
      if (admission all_notes note).0 then rest else (note.id, (admission all_notes note).1) ∷ rest

  unfoldable pub conflicts_of : List (Note F) → List String
  unfolding admitted_ids conflicting_claim_ids
  conflicts_of notes =
      conflicting_claim_ids F stable_json
        (filter (λ note. is_in note.id (admitted_ids notes notes)) notes)

  unfoldable pub eligible_ids : List (Note F) → List String
  unfolding admitted_ids conflicts_of
  eligible_ids notes =
      filter (λ identity. not (is_in identity (conflicts_of notes))) (admitted_ids notes notes)

  unfoldable pub gate_exclusions : List (Note F) → List (String × String)
  unfolding refusals conflicts_of sorted_set
  gate_exclusions notes =
      refusals notes notes
      ++ map (λ identity. (identity, "unresolved contradiction")) (sorted_set (conflicts_of notes))
