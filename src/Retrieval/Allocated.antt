-- ===== src/Retrieval/Allocated.antt =====
-- The allocation stays within what remains, and ends.
use autonomic_obsidian_kb.Prelude.{
  ℕ, zero, suc, ◌+◌, ◌≤◌, ◌≡◌, refl, ◌∙◌, subst, inl, inr, Bool, true, false, not, ◌&&◌, ◌||◌,
  Option, none, some, List, [], ◌∷◌, ◌++◌, arith, ltb, leb, if◌then◌else◌, Option-cases, ltb→ge,
  nat_eq, string_eq, list_eq, length, is_set,
}
use autonomic_obsidian_kb.Prelude.Sets.{non_empty}
use autonomic_obsidian_kb.Models.Floats.{Floats}
use autonomic_obsidian_kb.Models.Task.{TaskContext}
use autonomic_obsidian_kb.Models.Manifest.{RetrievalItem}
use autonomic_obsidian_kb.Retrieval.Offer.{
  choice_for, keep_row, or_row, AllocateCalls, Scored, Choice, Allocation, offer, best_of,
}
use autonomic_obsidian_kb.Retrieval.Ended.{Ended, allocate_step-Ended}
use autonomic_obsidian_kb.Retrieval.Allocate.{
  item_of, marginal, skip_row, take_row, after_choice, allocate_step, allocate, allocate_set,
}

-- The tokens of the items.
unfoldable pub total_tokens : {F : Type 0} → List (RetrievalItem F) → ℕ
total_tokens [] = 0
total_tokens (entry ∷ entries) = entry.tokens + total_tokens entries

total_tokens-append :
    {F : Type 0} (xs ys : List (RetrievalItem F))
    → total_tokens (xs ++ ys) ≡ total_tokens xs + total_tokens ys
unfolding total_tokens
total_tokens-append [] ys = omega arith
total_tokens-append (x ∷ xs) ys = omega (arith, total_tokens-append xs ys)

module _ (fl : Floats) (calls : AllocateCalls fl.F) (context : TaskContext) (depth : Option ℕ)
    (expand : Bool) where
  -- What is chosen fits, and one row less is left.
  Fits :
      Allocation fl.F
      → List (Scored fl.F)
      → Option (Scored fl.F × Choice fl.F × List (Scored fl.F))
      → Type 0
  Fits s rows none = Unit {0}
  Fits s rows (some (row, choice, rest)) =
      (choice.token_cost ≤ s.remaining) × (length rows ≡ suc (length rest))

  FitsOffer : Allocation fl.F → Option (Choice fl.F) → Type 0
  FitsOffer s none = Unit {0}
  FitsOffer s (some choice) = choice.token_cost ≤ s.remaining

  offer-FitsOffer :
      (s : Allocation fl.F) (row : Scored fl.F)
      → FitsOffer s (offer fl calls context depth expand s row)
  unfolding offer FitsOffer
  offer-FitsOffer s row =
      tested (not (is_set (choice_for fl calls context depth expand s row).view))
        (ltb s.remaining (choice_for fl calls context depth expand s row).token_cost) refl
    where
      tested :
          (a b : Bool)
          → ltb s.remaining (choice_for fl calls context depth expand s row).token_cost ≡ b
          → FitsOffer s
              (if a || b then none else some (choice_for fl calls context depth expand s row))
      tested true b h = tt
      tested false true h = tt
      tested false false h =
          ltb→ge s.remaining (choice_for fl calls context depth expand s row).token_cost h

  keep_row-Fits :
      (s : Allocation fl.F) (row : Scored fl.F) (rows : List (Scored fl.F))
      (o : Option (Scored fl.F × Choice fl.F × List (Scored fl.F)))
      → Fits s rows o
      → Fits s (row ∷ rows) (keep_row fl calls context depth expand row o)
  unfolding keep_row Fits
  keep_row-Fits s row rows none f = tt
  keep_row-Fits s row rows (some (best, choice, rest)) f = (f.0, omega (arith, f.1))

  or_row-Fits :
      (s : Allocation fl.F) (row : Scored fl.F) (choice : Choice fl.F) (rows : List (Scored fl.F))
      (o : Option (Scored fl.F × Choice fl.F × List (Scored fl.F)))
      → choice.token_cost ≤ s.remaining
      → Fits s rows o
      → Fits s (row ∷ rows) (or_row fl calls context depth expand row choice rows o)
  unfolding or_row Fits
  or_row-Fits s row choice rows none fits f = (fits, omega arith)
  or_row-Fits s row choice rows (some (best, later, rest)) fits f = (f.0, omega (arith, f.1))

  either-Fits :
      (s : Allocation fl.F) (rows : List (Scored fl.F)) (b : Bool)
      (x y : Option (Scored fl.F × Choice fl.F × List (Scored fl.F)))
      → Fits s rows x
      → Fits s rows y
      → Fits s rows (if b then x else y)
  either-Fits s rows true x y f g = f
  either-Fits s rows false x y f g = g

  by_offer-Fits :
      (s : Allocation fl.F) (gain : fl.F) (row : Scored fl.F) (rows : List (Scored fl.F))
      (o : Option (Choice fl.F))
      → FitsOffer s o
      → ((g : fl.F) → Fits s rows (best_of fl calls context depth expand s g rows))
      → Fits s (row ∷ rows) (elim o [
        | none ↦
            keep_row fl calls context depth expand row
              (best_of fl calls context depth expand s gain rows)
        | some choice ↦
            if fl.lt gain choice.gain
            then or_row fl calls context depth expand row choice rows
                (best_of fl calls context depth expand s choice.gain rows)
            else keep_row fl calls context depth expand row
                (best_of fl calls context depth expand s gain rows)
      ])
  unfolding FitsOffer
  by_offer-Fits s gain row rows none f later =
      keep_row-Fits s row rows (best_of fl calls context depth expand s gain rows) (later gain)
  by_offer-Fits s gain row rows (some choice) f later =
      either-Fits s (row ∷ rows) (fl.lt gain choice.gain)
        (or_row fl calls context depth expand row choice rows
          (best_of fl calls context depth expand s choice.gain rows))
        (keep_row fl calls context depth expand row
          (best_of fl calls context depth expand s gain rows))
        (or_row-Fits s row choice rows (best_of fl calls context depth expand s choice.gain rows) f
          (later choice.gain))
        (keep_row-Fits s row rows (best_of fl calls context depth expand s gain rows) (later gain))

  best_of-Fits :
      (s : Allocation fl.F) (gain : fl.F) (rows : List (Scored fl.F))
      → Fits s rows (best_of fl calls context depth expand s gain rows)
  unfolding best_of Fits
  best_of-Fits s gain [] = tt
  best_of-Fits s gain (row ∷ rows) =
      by_offer-Fits s gain row rows (offer fl calls context depth expand s row)
        (offer-FitsOffer s row) (λ g. best_of-Fits s g rows)

  -- A pass spends what it takes, and leaves one row less.
  pub record Spent (s t : Allocation fl.F) : Type 0 where
    pub balance : total_tokens t.items + t.remaining ≡ total_tokens s.items + s.remaining
    pub shorter : length s.pool ≡ suc (length t.pool)

  SpentOption : Allocation fl.F → Option (Allocation fl.F) → Type 0
  SpentOption s none = Unit {0}
  SpentOption s (some t) = Spent s t

  after_choice-Spent :
      (s : Allocation fl.F) (o : Option (Scored fl.F × Choice fl.F × List (Scored fl.F)))
      → Fits s s.pool o
      → SpentOption s (after_choice fl calls context depth expand s o)
  unfolding after_choice Fits SpentOption skip_row take_row item_of total_tokens
  after_choice-Spent s none f = tt
  after_choice-Spent s (some (row, choice, rest)) f =
      by_test (
        non_empty s.items
        && fl.lt (marginal fl calls context depth expand choice) (fl.decimal 35 4))
    where
      by_test :
          (b : Bool)
          → SpentOption s (
              if b
              then some (skip_row fl calls context depth expand s row choice rest)
              else some (take_row fl calls context depth expand s row choice rest))
      by_test true = record { balance = refl; shorter = f.1 }
      by_test false = record {
        balance = omega (
          arith,
          f.0,
          total_tokens-append s.items (item_of fl calls context depth expand row choice ∷ []),
        );
        shorter = f.1;
      }

  allocate_step-Spent :
      (s : Allocation fl.F) → SpentOption s (allocate_step fl calls context depth expand s)
  unfolding allocate_step SpentOption
  allocate_step-Spent s = by_test (non_empty s.pool && leb 20 s.remaining)
    where
      low : fl.F
      low = fl.sub (fl.decimal 0 0) (fl.decimal 1 0)

      by_test :
          (b : Bool)
          → SpentOption s (
              if b
              then after_choice fl calls context depth expand s
                  (best_of fl calls context depth expand s low s.pool)
              else none)
      by_test true =
          after_choice-Spent s (best_of fl calls context depth expand s low s.pool)
            (best_of-Fits s low s.pool)
      by_test false = tt

  -- The end of the loop: nothing is lost, and no pass is left to do.
  pub record Done (s t : Allocation fl.F) : Type 0 where
    pub balance : total_tokens t.items + t.remaining ≡ total_tokens s.items + s.remaining
    pub ended : allocate_step fl calls context depth expand t ≡ none

  no_rows :
      (s : Allocation fl.F)
      → length s.pool ≤ 0
      → allocate_step fl calls context depth expand s ≡ none
  unfolding allocate_step
  no_rows s h = rw (empty s.pool h) refl
    where
      empty : (rows : List (Scored fl.F)) → length rows ≤ 0 → non_empty rows ≡ false
      empty [] h = refl
      empty (row ∷ rows) h = ground arith

  allocate-Done :
      (fuel : ℕ) (s : Allocation fl.F)
      → length s.pool ≤ fuel
      → Done s (allocate fl calls context depth expand fuel s)
  unfolding allocate SpentOption
  allocate-Done zero s h = record { balance = refl; ended = no_rows s h }
  allocate-Done (suc fuel) s h =
      elim (Option-cases (allocate_step fl calls context depth expand s)) [
        | inl e ↦ rw (e, allocate) (record { balance = refl; ended = e })
        | inr (next, e) ↦
            let spent : Spent s next = subst (SpentOption s) e (allocate_step-Spent s) in
            let d = allocate-Done fuel next (omega (arith, spent.shorter, h)) in
            rw (e, allocate) (record { balance = d.balance ∙ spent.balance; ended = d.ended })
      ]

-- The allocation of any scored notes within a number of tokens: the tokens of the items and what
-- remains add up to that number. The loop has ended: no row is left, or less than 20 tokens remain, or
-- each row that is left has an empty view, or a view that with its 14 tokens of frame exceeds what
-- remains, or a gain that is not above the starting value of -1.
pub allocate_set_balance :
    (fl : Floats) (calls : AllocateCalls fl.F) (context : TaskContext) (depth : Option ℕ)
    (expand : Bool) (scored : List (Scored fl.F)) (remaining : ℕ)
    → (total_tokens (allocate_set fl calls context depth expand scored remaining).items
          + (allocate_set fl calls context depth expand scored remaining).remaining
        ≡ remaining)
      × Ended fl calls context depth expand
          (allocate_set fl calls context depth expand scored remaining)
unfolding allocate_set total_tokens
allocate_set_balance fl calls context depth expand scored remaining =
    let start : Allocation fl.F = record {
      pool = scored;
      items = [];
      covered_types = [];
      remaining = remaining;
      decisions = [];
      excluded = [];
    } in
    let d = allocate-Done fl calls context depth expand (length scored) start (omega arith) in
    (d.balance ∙ zero_left, allocate_step-Ended fl calls context depth expand _ d.ended)
  where
    zero_left : 0 + remaining ≡ remaining
    zero_left = omega arith
