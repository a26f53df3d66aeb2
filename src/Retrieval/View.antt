-- ===== src/Retrieval/View.antt =====
-- `compile_task_view` of compiler.py. `count` is the token count of a registered tokenizer or of the
-- estimate.
use autonomic_obsidian_kb.Prelude.{
  ℕ, zero, suc, String, Bool, not, ◌&&◌, none, some, List, [], ◌∷◌, map, leb, if◌then◌else◌, nat_eq,
  string_eq, list_eq, is_set, strip, contains, join, append,
}
use autonomic_obsidian_kb.Models.Json.{Value, Fields, get, show, to_list}
use autonomic_obsidian_kb.Models.Json.Value.{text, arr}
use autonomic_obsidian_kb.Models.Note.{Note}

module _ (F : Type 0) (render : Value → String) (count : String → ℕ) where
  -- metadata.get("preconditions", []), in which a text stands for itself alone
  unfoldable pub preconditions : Fields → List Value
  unfolding get to_list
  preconditions metadata = elim (get "preconditions" metadata) [
    | none ↦ []
    | some v ↦ elim v [ text s ↦ text s ∷ [] | arr items ↦ to_list items | _ ↦ [] ]
  ]

  unfoldable pub qualification : Fields → String
  unfolding preconditions join show
  qualification metadata =
      join "\n" (map (λ v. append "Precondition: " (show render v)) (preconditions metadata))

  -- The value of a field, stripped, where it is a text that is not blank.
  unfoldable pub stripped_field : String → Fields → String
  unfolding get strip
  stripped_field key metadata = elim (get key metadata) [
    | none ↦ ""
    | some v ↦ elim v [ text s ↦ strip s | _ ↦ "" ]
  ]

  -- One pass of the loop over `verification` and `rationale`.
  unfoldable pub with_field : String → String → String → String
  unfolding contains
  with_field title value s =
      if is_set value && not (contains s value)
      then append s (append "\n" (append title (append ": " value)))
      else s

  unfoldable pub layer_text : Note F → ℕ → String
  unfolding strip
  layer_text note zero = strip (if is_set note.summary then note.summary else strip (note.layer 0))
  layer_text note (suc n) = strip (note.layer (suc n))

  -- The whole representation of a layer.
  unfoldable pub representation : Note F → ℕ → String
  unfolding layer_text qualification stripped_field with_field
  representation note layer =
      let qualified = qualification note.metadata in
      let s =
        if is_set qualified
        then append qualified (append "\n" (layer_text note layer))
        else layer_text note layer in
      with_field "Rationale" (stripped_field "rationale" note.metadata)
        (with_field "Verification" (stripped_field "verification" note.metadata) s)

  -- Whether a layer has a text, and its representation fits.
  unfoldable pub fits : Note F → ℕ → ℕ → Bool
  unfolding layer_text representation
  fits note max_tokens layer =
      is_set (layer_text note layer) && leb (count (representation note layer)) max_tokens

  -- `compile_task_view`, whose argument `task` is not used
  unfoldable pub compile_task_view : Note F → ℕ → ℕ → ℕ × String
  unfolding fits representation
  compile_task_view note zero max_tokens =
      if fits note max_tokens 0 then (0, representation note 0) else (0, "")
  compile_task_view note (suc n) max_tokens =
      let lower = compile_task_view note n max_tokens in
      if fits note max_tokens (suc n) then (suc n, representation note (suc n)) else lower
