-- ===== src/Retrieval/Offer.antt =====
-- What the rows of the pool offer in `_allocate_set` of retrieval.py, and the best of them.
use autonomic_obsidian_kb.Prelude.{
  ℕ, zero, suc, ◌+◌, ◌-◌, max, min, String, Bool, not, ◌&&◌, ◌||◌, Option, none, some, List, [],
  ◌∷◌, ◌++◌, ltb, if◌then◌else◌, ◌==◌, nat_eq, string_eq, list_eq, length, filter, is_in, is_set,
  strip,
}
use autonomic_obsidian_kb.Prelude.Sets.{non_empty, set_of}
use autonomic_obsidian_kb.Models.Json.{Value, get, to_list, truthy}
use autonomic_obsidian_kb.Models.Json.Value.{arr}
use autonomic_obsidian_kb.Models.Json.Items.{no_items}
use autonomic_obsidian_kb.Models.Floats.{Floats}
use autonomic_obsidian_kb.Models.Note.{Note}
use autonomic_obsidian_kb.Models.Task.{TaskContext}
use autonomic_obsidian_kb.Models.Manifest.{RetrievalItem}
use autonomic_obsidian_kb.Retrieval.View.{compile_task_view}

-- str of a list or a dict, the token count, `terms` of util.py as a set, f"{a:.4f}", round(a, 3), and str
-- of a number.
pub record AllocateCalls (F : Type 0) : Type 0 where
  pub render : Value → String
  pub count : String → ℕ
  pub terms : String → List String
  pub show_4 : F → String
  pub round_3 : F → F
  pub show_nat : ℕ → String

-- A scored row: its score, its note and the reasons, with the routes that found it.
pub record Scored (F : Type 0) : Type 0 where
  pub score : F
  pub note : Note F
  pub reasons : List String
  pub route_sources : List String

-- best_payload with the gain
pub record Choice (F : Type 0) : Type 0 where
  pub gain : F
  pub layer : ℕ
  pub view : String
  pub token_cost : ℕ
  pub redundancy : F

pub record Decision (F : Type 0) : Type 0 where
  pub id : String
  pub selected : Bool
  pub score : F
  pub reasons : List String

-- The state of the loop.
pub record Allocation (F : Type 0) : Type 0 where
  pub pool : List (Scored F)
  pub items : List (RetrievalItem F)
  pub covered_types : List String
  pub remaining : ℕ
  pub decisions : List (Decision F)
  pub excluded : List (String × String × String × F)

module _ (fl : Floats) (calls : AllocateCalls fl.F) (context : TaskContext) (depth : Option ℕ)
    (expand : Bool) where
  open fl use {F, lt, le, add, sub, mul, div, decimal, show_2}
  open calls use {render, count, terms, show_4, round_3, show_nat}

  larger : F → F → F
  larger a b = if lt a b then b else a

  -- The highest layer up to one that has a text, or else 1
  unfoldable pub layer_below : Note F → ℕ → ℕ
  unfolding strip
  layer_below note zero = if is_set (strip (note.layer 0)) then 0 else 1
  layer_below note (suc n) =
      let lower = layer_below note n in if is_set (strip (note.layer (suc n))) then suc n else lower

  -- The layer of `_select_layer`; a depth of none is "auto"
  unfoldable pub select_layer : Note F → F → ℕ
  unfolding layer_below
  select_layer note score = elim depth [
    | none ↦
        layer_below note
          (if le (decimal 7 1) score then 2 else if le (decimal 4 1) score then 1 else 0)
    | some n ↦ layer_below note (min 3 n)
  ]

  unfoldable pub overlap : String → String → F
  overlap left right =
      let a = set_of (terms left) in
      let b = set_of (terms right) in
      let union = set_of (a ++ b) in
      if not (non_empty union)
      then decimal 1 0
      else div (decimal (length (filter (λ t. is_in t b) a)) 0) (decimal (max 1 (length union)) 0)

  -- max(..., default=0.0) over the items
  unfoldable pub redundancy_of : String → List (RetrievalItem F) → F
  unfolding overlap larger
  redundancy_of view [] = decimal 0 0
  redundancy_of view (entry ∷ []) = overlap view entry.body
  redundancy_of view (entry ∷ next ∷ entries) =
      larger (overlap view entry.body) (redundancy_of view (next ∷ entries))

  unfoldable pub evidence_value : Note F → Value
  unfolding get
  evidence_value note = elim (get "evidence" note.metadata) [ none ↦ arr no_items | some v ↦ v ]

  unfoldable pub evidence_bonus : Value → F
  unfolding to_list
  evidence_bonus v = elim v [
    | arr items ↦
        let bonus = mul (decimal 15 3) (decimal (length (to_list items)) 0) in
        if lt bonus (decimal 6 2) then bonus else decimal 6 2
    | _ ↦ decimal 0 0
  ]

  unfoldable pub gain_of : Allocation F → Scored F → F → ℕ → F
  unfolding evidence_value evidence_bonus truthy
  gain_of s row redundancy token_cost =
      let evidence = evidence_value row.note in
      let wanted =
        is_in row.note.memory_type context.task_types
        && not (is_in row.note.memory_type s.covered_types) in
      let type_bonus = if wanted then decimal 9 2 else decimal 0 0 in
      let risk_penalty =
        if context.risk == "high" && not (truthy evidence) then decimal 8 2 else decimal 0 0 in
      sub
        (sub
          (add (add (add row.score (mul (decimal 16 2) (sub (decimal 1 0) redundancy))) type_bonus)
            (evidence_bonus evidence))
          risk_penalty)
        (mul (div (decimal token_cost 0) (decimal (max s.remaining 1) 0)) (decimal 12 2))

  -- The view of a row within what remains.
  unfoldable pub viewed : Allocation F → Scored F → ℕ × String
  unfolding select_layer compile_task_view
  viewed s row =
      let layer = select_layer row.note row.score in
      compile_task_view F render count row.note (if expand then max layer 2 else layer)
        (s.remaining - 14)

  unfoldable pub choice_for : Allocation F → Scored F → Choice F
  unfolding viewed redundancy_of gain_of
  choice_for s row =
      let seen = viewed s row in
      let redundancy = redundancy_of seen.1 s.items in
      record {
        gain = gain_of s row redundancy (count seen.1 + 14);
        layer = seen.0;
        view = seen.1;
        token_cost = count seen.1 + 14;
        redundancy = redundancy;
      }

  -- One pass of the inner loop: what a row of the pool offers.
  unfoldable pub offer : Allocation F → Scored F → Option (Choice F)
  unfolding choice_for
  offer s row =
      if not (is_set (choice_for s row).view) || ltb s.remaining (choice_for s row).token_cost
      then none
      else some (choice_for s row)

  -- The best of the rows after one that stays in the pool.
  unfoldable pub keep_row :
      Scored F
      → Option (Scored F × Choice F × List (Scored F))
      → Option (Scored F × Choice F × List (Scored F))
  keep_row row none = none
  keep_row row (some (best, choice, rest)) = some (best, choice, row ∷ rest)

  -- The best of the rows after one that is the best so far.
  unfoldable pub or_row :
      Scored F
      → Choice F
      → List (Scored F)
      → Option (Scored F × Choice F × List (Scored F))
      → Option (Scored F × Choice F × List (Scored F))
  or_row row choice rows none = some (row, choice, rows)
  or_row row choice rows (some (best, later, rest)) = some (best, later, row ∷ rest)

  -- The inner loop, from the best gain so far: the best row, its choice, and the rest of the pool.
  unfoldable pub best_of :
      Allocation F → F → List (Scored F) → Option (Scored F × Choice F × List (Scored F))
  unfolding keep_row or_row
  best_of s best_gain [] = none
  best_of s best_gain (row ∷ rows) =
      let passed = keep_row row (best_of s best_gain rows) in
      elim (offer s row) [
        | none ↦ passed
        | some choice ↦
            let better = or_row row choice rows (best_of s choice.gain rows) in
            if lt best_gain choice.gain then better else passed
      ]
