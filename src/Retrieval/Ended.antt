-- ===== src/Retrieval/Ended.antt =====
-- Why the loop of `_allocate_set` ends: what is said of each row that is left.
use autonomic_obsidian_kb.Prelude.{
  ℕ, ◌+◌, ◌<◌, String, ◌≡◌, refl, ap, ◌∙◌, ◌≢◌, ◌⊎◌, inl, inr, Bool, true, false, not, ◌||◌, Option,
  none, some, List, [], ◌∷◌, arith, ltb, leb, if◌then◌else◌, Bool-cases, ltb→lt, nat_eq, string_eq,
  list_eq, All, some_inj, is_set,
}
use autonomic_obsidian_kb.Prelude.Sets.{non_empty}
use autonomic_obsidian_kb.Models.Floats.{Floats}
use autonomic_obsidian_kb.Models.Task.{TaskContext}
use autonomic_obsidian_kb.Retrieval.Offer.{
  AllocateCalls, Scored, Choice, Allocation, viewed, redundancy_of, gain_of, choice_for, offer,
  keep_row, or_row, best_of,
}
use autonomic_obsidian_kb.Retrieval.Allocate.{after_choice, allocate_step}

module _ (fl : Floats) (calls : AllocateCalls fl.F) (context : TaskContext) (depth : Option ℕ)
    (expand : Bool) where
  -- A row is passed over: its view is empty, or does not fit what remains, or gains no more than -1.
  pub Passed : Allocation fl.F → Scored fl.F → Type 0
  Passed s row =
      let view : String = (viewed fl calls context depth expand s row).1 in
      (is_set view ≡ false)
      ⊎ ((s.remaining < calls.count view + 14)
          ⊎ (fl.lt (fl.sub (fl.decimal 0 0) (fl.decimal 1 0)) (
                gain_of fl calls context depth expand s row
                  (redundancy_of fl calls context depth expand view s.items)
                  (calls.count view + 14))
              ≡ false))

  -- The ends of the loop.
  pub Ended : Allocation fl.F → Type 0
  Ended s = (s.pool ≡ []) ⊎ ((s.remaining < 20) ⊎ All (Passed s) s.pool)

  abbrev low : fl.F
  low = fl.sub (fl.decimal 0 0) (fl.decimal 1 0)

  keep_none :
      (row : Scored fl.F) (o : Option (Scored fl.F × Choice fl.F × List (Scored fl.F)))
      → keep_row fl calls context depth expand row o ≡ none
      → o ≡ none
  unfolding keep_row
  keep_none row none h = refl
  keep_none row (some (best, choice, rest)) h = cc

  or_some :
      (row : Scored fl.F) (choice : Choice fl.F) (rows : List (Scored fl.F))
      (o : Option (Scored fl.F × Choice fl.F × List (Scored fl.F)))
      → or_row fl calls context depth expand row choice rows o ≢ none
  unfolding or_row
  or_some row choice rows none h = cc
  or_some row choice rows (some (best, later, rest)) h = cc

  -- The tests of an offer that is not made.
  no_offer :
      (s : Allocation fl.F) (row : Scored fl.F)
      → offer fl calls context depth expand s row ≡ none
      → Passed s row
  unfolding offer choice_for Passed
  no_offer s row h =
      tests (is_set (viewed fl calls context depth expand s row).1)
        (ltb s.remaining (calls.count (viewed fl calls context depth expand s row).1 + 14)) refl
        refl h
    where
      tests :
          (a b : Bool)
          → is_set (viewed fl calls context depth expand s row).1 ≡ a
          → ltb s.remaining (calls.count (viewed fl calls context depth expand s row).1 + 14) ≡ b
          → (if not a || b then none else some (choice_for fl calls context depth expand s row))
            ≡ none
          → (is_set (viewed fl calls context depth expand s row).1 ≡ false)
            ⊎ ((s.remaining < calls.count (viewed fl calls context depth expand s row).1 + 14)
                ⊎ (fl.lt low (
                      gain_of fl calls context depth expand s row
                        (redundancy_of fl calls context depth expand
                          (viewed fl calls context depth expand s row).1
                          s.items)
                        (calls.count (viewed fl calls context depth expand s row).1 + 14))
                    ≡ false))
      tests false b e f h = inl e
      tests true true e f h = inr (
          inl (
            ltb→lt s.remaining (calls.count (viewed fl calls context depth expand s row).1 + 14) f))
      tests true false e f h = cc

  -- An offer is the choice for its row.
  made_offer :
      (s : Allocation fl.F) (row : Scored fl.F) (choice : Choice fl.F)
      → offer fl calls context depth expand s row ≡ some choice
      → fl.lt low choice.gain ≡ false
      → Passed s row
  unfolding offer choice_for Passed
  made_offer s row choice h below =
      tests
        (not (is_set (viewed fl calls context depth expand s row).1)
          || ltb s.remaining (calls.count (viewed fl calls context depth expand s row).1 + 14))
        h
    where
      tests :
          (b : Bool)
          → (if b then none else some (choice_for fl calls context depth expand s row))
            ≡ some choice
          → (is_set (viewed fl calls context depth expand s row).1 ≡ false)
            ⊎ ((s.remaining < calls.count (viewed fl calls context depth expand s row).1 + 14)
                ⊎ (fl.lt low (
                      gain_of fl calls context depth expand s row
                        (redundancy_of fl calls context depth expand
                          (viewed fl calls context depth expand s row).1
                          s.items)
                        (calls.count (viewed fl calls context depth expand s row).1 + 14))
                    ≡ false))
      tests true h = cc
      tests false h = inr (inr (ap (λ (c : Choice fl.F). fl.lt low c.gain) (some_inj h) ∙ below))

  best_of-Passed :
      (s : Allocation fl.F) (rows : List (Scored fl.F))
      → best_of fl calls context depth expand s low rows ≡ none
      → All (Passed s) rows
  unfolding best_of
  best_of-Passed s [] h = tt
  best_of-Passed s (row ∷ rows) h =
      by_offer (best_of-Passed s rows) (offer fl calls context depth expand s row) refl h
    where
      by_offer :
          (best_of fl calls context depth expand s low rows ≡ none → All (Passed s) rows)
          → (o : Option (Choice fl.F)) → offer fl calls context depth expand s row ≡ o
          → elim o [
            | none ↦
                keep_row fl calls context depth expand row
                  (best_of fl calls context depth expand s low rows)
            | some choice ↦
                if fl.lt low choice.gain
                then or_row fl calls context depth expand row choice rows
                    (best_of fl calls context depth expand s choice.gain rows)
                else keep_row fl calls context depth expand row
                    (best_of fl calls context depth expand s low rows)
          ]
            ≡ none
          → All (Passed s) (row ∷ rows)
      by_offer later none e h = (
        no_offer s row e,
        later (keep_none row (best_of fl calls context depth expand s low rows) h),
      )
      by_offer later (some choice) e h = elim (Bool-cases (fl.lt low choice.gain)) [
        | inl t ↦
            elim (or_some row choice rows (best_of fl calls context depth expand s choice.gain rows)
              (rw t at h)) [ ]
        | inr f ↦ (
          made_offer s row choice e f,
          later (keep_none row (best_of fl calls context depth expand s low rows) (rw f at h)),
        )
      ]

  after_none :
      (s : Allocation fl.F) (o : Option (Scored fl.F × Choice fl.F × List (Scored fl.F)))
      → after_choice fl calls context depth expand s o ≡ none
      → o ≡ none
  unfolding after_choice
  after_none s none h = refl
  after_none s (some (row, choice, rest)) h = ground arith

  -- A pass that does nothing leaves one of the ends.
  pub allocate_step-Ended :
      (s : Allocation fl.F) → allocate_step fl calls context depth expand s ≡ none → Ended s
  unfolding allocate_step Ended
  allocate_step-Ended s h = elim (Bool-cases (non_empty s.pool)) [
    | inr e ↦ inl (no_row s.pool e)
    | inl e ↦ elim (Bool-cases (leb 20 s.remaining)) [
      | inr f ↦ inr (inl (ground arith))
      | inl f ↦ inr (
          inr (
            best_of-Passed s s.pool
              (after_none s (best_of fl calls context depth expand s low s.pool) (rw (e, f) at h))))
    ]
  ]
    where
      no_row : (rows : List (Scored fl.F)) → non_empty rows ≡ false → rows ≡ []
      no_row [] h = refl
      no_row (row ∷ rows) h = ground arith
