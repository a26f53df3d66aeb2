-- ===== src/Tests/Allocate.antt =====
-- The allocation of a few tokens to one scored note.
use autonomic_obsidian_kb.Prelude.{
  ℕ, ◌+◌, ◌≡◌, refl, true, none, List, [], ◌∷◌, nat_eq, string_eq, list_eq,
}
use autonomic_obsidian_kb.Retrieval.Offer.{AllocateCalls, Scored, offer}
use autonomic_obsidian_kb.Retrieval.Allocate.{allocate_step, allocate_set}
use autonomic_obsidian_kb.Retrieval.Ended.{Ended}
use autonomic_obsidian_kb.Retrieval.Allocated.{total_tokens, allocate_set_balance}
use autonomic_obsidian_kb.Tests.Samples.{count, floats, note, context}

abbrev calls : AllocateCalls ℕ
calls = record {
  render = λ v. "";
  count = count;
  terms = λ s. [];
  show_4 = λ a. "";
  round_3 = λ a. a;
  show_nat = λ n. "n";
}

abbrev scored : List (Scored ℕ)
scored = record { score = 80; note = note; reasons = []; route_sources = "lexical" ∷ [] } ∷ []

allocate_set_balance_example :
    (total_tokens (allocate_set floats calls context none true scored 200).items
        + (allocate_set floats calls context none true scored 200).remaining
      ≡ 200)
    × Ended floats calls context none true (allocate_set floats calls context none true scored 200)
allocate_set_balance_example = allocate_set_balance floats calls context none true scored 200

remains : (allocate_set floats calls context none true scored 200).remaining ≡ 129
unfolding allocate_set allocate_step offer
remains = refl
