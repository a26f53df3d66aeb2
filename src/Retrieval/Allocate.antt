-- ===== src/Retrieval/Allocate.antt =====
-- `Retriever._allocate_set` of retrieval.py: which of the scored notes are taken, within what remains.
use autonomic_obsidian_kb.Prelude.{
  ℕ, zero, suc, ◌-◌, max, String, Bool, true, false, ◌&&◌, Option, none, some, List, [], ◌∷◌, ◌++◌,
  map, leb, if◌then◌else◌, nat_eq, string_eq, list_eq, length, strip, append,
}
use autonomic_obsidian_kb.Prelude.Sets.{non_empty}
use autonomic_obsidian_kb.Models.Json.{Value, get, show, to_list}
use autonomic_obsidian_kb.Models.Json.Value.{text, arr}
use autonomic_obsidian_kb.Models.Json.Items.{no_items}
use autonomic_obsidian_kb.Models.Floats.{Floats}
use autonomic_obsidian_kb.Models.Note.{Note}
use autonomic_obsidian_kb.Models.Task.{TaskContext}
use autonomic_obsidian_kb.Models.Manifest.{RetrievalItem}
use autonomic_obsidian_kb.Models.Rows.{identity_of}
use autonomic_obsidian_kb.Retrieval.Offer.{
  AllocateCalls, Scored, Choice, Allocation, evidence_value, best_of,
}

module _ (fl : Floats) (calls : AllocateCalls fl.F) (context : TaskContext) (depth : Option ℕ)
    (expand : Bool) where
  open fl use {F, lt, add, sub, mul, div, decimal, show_2}
  open calls use {render, count, terms, show_4, round_3, show_nat}

  -- metadata.get(key, default), as texts
  unfoldable pub evidence_texts : Value → List String
  unfolding to_list show
  evidence_texts v = elim v [
    | text s ↦ s ∷ []
    | arr items ↦ map (show render) (to_list items)
    | _ ↦ []
  ]

  unfoldable pub validation_of : Note F → String
  unfolding get show
  validation_of note = elim (get "validation" note.metadata) [
    | none ↦ note.freshness
    | some v ↦ show render v
  ]

  unfoldable pub provenance_of : Note F → Value
  unfolding get
  provenance_of note = elim (get "provenance" note.metadata) [ none ↦ arr no_items | some v ↦ v ]

  -- The item of a choice.
  unfoldable pub item_of : Scored F → Choice F → RetrievalItem F
  unfolding strip identity_of evidence_texts evidence_value validation_of provenance_of
  item_of row choice =
      let doubt = sub (decimal 1 0) row.note.confidence in
      record {
        id = identity_of F row.note;
        path = row.note.path;
        title = row.note.title;
        layer = choice.layer;
        body = strip choice.view;
        score = row.score;
        tokens = choice.token_cost;
        reasons =
            row.reasons
            ++ append "set allocation novelty=" (show_2 (sub (decimal 1 0) choice.redundancy))
              ∷ append "selected L" (append (show_nat choice.layer) " within remaining budget")
              ∷ [];
        provenance = provenance_of row.note;
        validation = validation_of row.note;
        evidence = evidence_texts (evidence_value fl calls context depth expand row.note);
        uncertainty = round_3 (if lt (decimal 0 0) doubt then doubt else decimal 0 0);
        route_sources = row.route_sources;
        revision = "";
      }

  unfoldable pub marginal : Choice F → F
  marginal choice = div choice.gain (decimal (max choice.token_cost 1) 0)

  unfoldable pub skip_row : Allocation F → Scored F → Choice F → List (Scored F) → Allocation F
  unfolding marginal
  skip_row s row choice rest =
      let reason =
        append "set marginal utility "
          (append (show_4 (marginal choice)) " below stop threshold") in
      record s {
        pool = rest;
        excluded = s.excluded ++ (row.note.id, row.note.path, reason, row.score) ∷ [];
        decisions =
            s.decisions
            ++ record {
              id = row.note.id;
              selected = false;
              score = row.score;
              reasons = row.reasons ++ reason ∷ [];
            }
              ∷ [];
      }

  unfoldable pub take_row : Allocation F → Scored F → Choice F → List (Scored F) → Allocation F
  unfolding item_of
  take_row s row choice rest = record s {
    pool = rest;
    items = s.items ++ item_of row choice ∷ [];
    covered_types = s.covered_types ++ row.note.memory_type ∷ [];
    remaining = s.remaining - choice.token_cost;
    decisions =
        s.decisions
        ++ record {
          id = row.note.id;
          selected = true;
          score = row.score;
          reasons = (item_of row choice).reasons;
        }
          ∷ [];
  }

  unfoldable pub after_choice :
      Allocation F → Option (Scored F × Choice F × List (Scored F)) → Option (Allocation F)
  unfolding marginal skip_row take_row
  after_choice s none = none
  after_choice s (some (row, choice, rest)) =
      if non_empty s.items && lt (marginal choice) (decimal 35 4)
      then some (skip_row s row choice rest)
      else some (take_row s row choice rest)

  -- One pass of the loop: none where it breaks or does not start.
  unfoldable pub allocate_step : Allocation F → Option (Allocation F)
  unfolding after_choice best_of
  allocate_step s =
      if non_empty s.pool && leb 20 s.remaining
      then after_choice s
          (best_of fl calls context depth expand s (sub (decimal 0 0) (decimal 1 0)) s.pool)
      else none

  -- The loop, on fuel.
  unfoldable pub allocate : ℕ → Allocation F → Allocation F
  allocate zero s = s
  allocate (suc fuel) s = elim (allocate_step s) [ none ↦ s | some next ↦ allocate fuel next ]

  unfoldable pub allocate_set : List (Scored F) → ℕ → Allocation F
  unfolding allocate
  allocate_set scored remaining = allocate (length scored) (record {
    pool = scored;
    items = [];
    covered_types = [];
    remaining = remaining;
    decisions = [];
    excluded = [];
  })
