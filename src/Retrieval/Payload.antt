-- ===== src/Retrieval/Payload.antt =====
-- The end of `retrieve` of retrieval.py: the items are cut down until what is emitted fits the budget.
use autonomic_obsidian_kb.Prelude.{
  ℕ, zero, suc, ◌+◌, ◌-◌, max, String, Bool, true, false, not, ◌&&◌, Option, none, some, List, [],
  ◌∷◌, ◌++◌, ltb, leb, eqb, if◌then◌else◌, ◌==◌, nat_eq, string_eq, list_eq, filter, lookup,
  value_error, key_error, Result, ok, raise, ◌>>=◌, raise_if, is_set, strip, append,
}
use autonomic_obsidian_kb.Prelude.Sets.{take, non_empty}
use autonomic_obsidian_kb.Models.Json.{Value, Fields, get}
use autonomic_obsidian_kb.Models.Json.Value.{num, text, arr}
use autonomic_obsidian_kb.Models.Json.Items.{no_items, item}
use autonomic_obsidian_kb.Models.Json.Fields.{no_fields, field}
use autonomic_obsidian_kb.Models.Note.{Note}
use autonomic_obsidian_kb.Models.Manifest.{
  RetrievalItem, RetrievalManifest, to_markdown, to_agent_dict,
}
use autonomic_obsidian_kb.Context.{ContextInventory}
use autonomic_obsidian_kb.Retrieval.View.{compile_task_view}
use autonomic_obsidian_kb.Retrieval.Sufficiency.{assess_sufficiency, unrecorded_roles}

-- str of a list or a dict, the token count for the agent, `stable_json`, sha256_text, and str of a
-- number.
pub record PayloadCalls : Type 0 where
  pub render : Value → String
  pub count : String → ℕ
  pub stable_json : Value → String
  pub sha256 : String → String
  pub show_nat : ℕ → String

-- xs[:-1] and xs[-1]
unfoldable pub split_last {ℓ} : {A : Type ℓ} → List A → Option (List A × A)
split_last [] = none
split_last (x ∷ xs) = elim (split_last xs) [
  | none ↦ some ([], x)
  | some (front, end) ↦ some (x ∷ front, end)
]

module _ (F : Type 0) (calls : PayloadCalls) (agent intent : String)
    (sources : List (String × Note F)) where
  open calls use {render, count, stable_json, sha256, show_nat}

  unfoldable pub delivered_cost : RetrievalManifest F → ℕ
  unfolding to_markdown to_agent_dict
  delivered_cost m = max (count (to_markdown F m)) (count (stable_json (to_agent_dict F m)))

  -- `revise`, of an item with its note
  unfoldable pub revise : Note F → RetrievalItem F → RetrievalItem F
  revise note entry = record entry {
    revision = sha256 (
        stable_json (
          arr (
            item (text note.source_hash) (
              item (text agent) (
                item (num (eqb entry.layer 0) (show_nat entry.layer))
                  (item (text entry.body) no_items))))));
  }

  -- A view of at most `current` - 1 tokens; below 0, none fits.
  unfoldable pub smaller_view : Note F → ℕ → ℕ → ℕ × String
  unfolding compile_task_view
  smaller_view note layer current =
      if eqb current 0 then (0, "") else compile_task_view F render count note layer (current - 1)

  unfoldable pub reduced : Note F → RetrievalItem F → ℕ → String → RetrievalItem F
  unfolding revise strip
  reduced note entry found view = revise note (record entry {
    layer = found;
    body = strip view;
    tokens = count (strip view) + 14;
    reasons =
        entry.reasons
        ++ append "reduced to L" (append (show_nat found) " to fit the final payload") ∷ [];
  })

  -- The loop of `shrink_last` over the layers below a layer.
  unfoldable pub shrink_below : Note F → RetrievalItem F → ℕ → Option (RetrievalItem F)
  unfolding smaller_view reduced
  shrink_below note entry zero = none
  shrink_below note entry (suc layer) =
      let (found, view) = smaller_view note layer (count entry.body) in
      let rest = shrink_below note entry layer in
      if is_set view && leb found layer then some (reduced note entry found view) else rest

  unfoldable pub shrink_with : RetrievalItem F → Option (Note F) → Result (Option (RetrievalItem F))
  unfolding shrink_below
  shrink_with entry none = raise key_error
  shrink_with entry (some note) = ok (shrink_below note entry entry.layer)

  -- `shrink_last`, of the last item; an item of layer 0 has no layer below, and its note is not read
  unfoldable pub shrink : RetrievalItem F → Result (Option (RetrievalItem F))
  unfolding shrink_with lookup
  shrink entry = if eqb entry.layer 0 then ok none else shrink_with entry (lookup entry.id sources)

  unfoldable pub selected_with :
      RetrievalItem F → List (Note F × String) → Option (Note F) → Result (List (Note F × String))
  selected_with entry rest none = raise key_error
  selected_with entry rest (some note) = ok ((note, entry.body) ∷ rest)

  -- The notes of the items, with the texts delivered.
  unfoldable pub selected_notes : List (RetrievalItem F) → Result (List (Note F × String))
  unfolding selected_with lookup
  selected_notes [] = ok []
  selected_notes (entry ∷ entries) =
      selected_notes entries >>= λ rest. selected_with entry rest (lookup entry.id sources)

  unfoldable pub with_sufficiency :
      RetrievalManifest F → List (Note F × String) → RetrievalManifest F
  unfolding assess_sufficiency unrecorded_roles
  with_sufficiency m selected =
      let assessed = assess_sufficiency F render count intent selected in
      record m {
        state = assessed.0;
        missing_evidence = assessed.1;
        unrecorded_evidence = unrecorded_roles F render count assessed.1 selected;
      }

  -- The state, the missing and the unrecorded roles are those of the items.
  unfoldable pub assessed_again :
      List Fields → RetrievalManifest F → Result (RetrievalManifest F × List Fields)
  unfolding selected_notes with_sufficiency
  assessed_again excluded m =
      selected_notes m.items >>= λ selected. ok (with_sufficiency m selected, excluded)

  unfoldable pub budget_exclusion : RetrievalItem F → Fields
  budget_exclusion removed =
      field "id" (text removed.id)
        (field "path" (text removed.path) (field "reason" (text "final payload budget") no_fields))

  -- The last item, at a lower layer or removed.
  unfoldable pub cut_last :
      RetrievalManifest F
      → List Fields
      → List (RetrievalItem F)
      → RetrievalItem F
      → Option (RetrievalItem F)
      → Result (RetrievalManifest F × List Fields)
  unfolding assessed_again budget_exclusion
  cut_last m excluded front end (some smaller) =
      assessed_again excluded (record m { items = front ++ smaller ∷ [] })
  cut_last m excluded front end none =
      assessed_again (excluded ++ budget_exclusion end ∷ []) (record m { items = front })

  unfoldable pub cut_items :
      RetrievalManifest F
      → List Fields
      → Option (List (RetrievalItem F) × RetrievalItem F)
      → Result (RetrievalManifest F × List Fields)
  unfolding shrink cut_last
  cut_items m excluded none = ok (m, excluded)
  cut_items m excluded (some (front, end)) = shrink end >>= cut_last m excluded front end

  -- One pass of the loop.
  unfoldable pub cut :
      RetrievalManifest F × List Fields → Result (RetrievalManifest F × List Fields)
  unfolding cut_items split_last
  cut (m, excluded) =
      if m.label_missing && non_empty m.missing_evidence
      then ok (record m { label_missing = false }, excluded)
      else cut_items m excluded (split_last m.items)

  -- The condition of the loop.
  unfoldable pub is_over : RetrievalManifest F × List Fields → Bool
  unfolding delivered_cost
  is_over (m, excluded) = non_empty m.items && ltb m.budget (delivered_cost m)

  -- The loop, on fuel.
  unfoldable pub cut_down :
      ℕ → RetrievalManifest F × List Fields → Result (RetrievalManifest F × List Fields)
  cut_down zero s = ok s
  cut_down (suc fuel) s =
      let rest = cut s >>= λ next. cut_down fuel next in if is_over s then rest else ok s

  -- One for the labels, and for each item one more than its layer.
  unfoldable pub layers_left : List (RetrievalItem F) → ℕ
  layers_left [] = 0
  layers_left (entry ∷ entries) = suc entry.layer + layers_left entries

  unfoldable pub cuts_left : RetrievalManifest F → ℕ
  unfolding layers_left
  cuts_left m = (if m.label_missing then 1 else 0) + layers_left m.items

  -- The response that says so when nothing fits.
  unfoldable pub with_fallback : RetrievalManifest F → RetrievalManifest F
  unfolding delivered_cost
  with_fallback m =
      if ltb m.budget (delivered_cost m)
      then record m { delivery = some "Insufficient budget for context." }
      else m

  unfoldable pub measured : RetrievalManifest F → List Fields → RetrievalManifest F
  unfolding delivered_cost take
  measured m excluded = record m { used_tokens = delivered_cost m; excluded = take 80 excluded }

  unfoldable pub bounded : RetrievalManifest F → Result (RetrievalManifest F)
  bounded m =
      raise_if (ltb m.budget m.used_tokens)
        (value_error "budget cannot fit the minimum response with this tokenizer") (ok m)

  -- From the first manifest to the check of its cost.
  unfoldable pub fit_payload : RetrievalManifest F → List Fields → Result (RetrievalManifest F)
  unfolding cut_down cuts_left with_fallback measured bounded
  fit_payload m excluded =
      cut_down (cuts_left m) (m, excluded) >>= λ s. bounded (measured (with_fallback s.0) s.1)

  -- Whether an item is not in the session's context at this revision.
  unfoldable pub is_changed : ContextInventory → RetrievalItem F → Bool
  unfolding get
  is_changed previous entry = elim (get entry.id previous.revisions) [
    | none ↦ true
    | some v ↦ elim v [ text revision ↦ not (revision == entry.revision) | _ ↦ true ]
  ]

  unfoldable pub unchanged : List (RetrievalItem F) → RetrievalManifest F → RetrievalManifest F
  unchanged items m =
      if non_empty items && not (non_empty m.items)
      then record m { state = "unchanged_context"; missing_evidence = []; unrecorded_evidence = [] }
      else m

  -- The items that the session does not hold, where it acknowledged this epoch.
  unfoldable pub context_delta :
      String → Option ContextInventory → RetrievalManifest F → RetrievalManifest F
  unfolding is_changed unchanged delivered_cost
  context_delta epoch none m = m
  context_delta epoch (some previous) m =
      if previous.epoch == epoch
      then (let changed =
            unchanged m.items (record m { items = filter (is_changed previous) m.items }) in
          record changed { used_tokens = delivered_cost changed })
      else m
