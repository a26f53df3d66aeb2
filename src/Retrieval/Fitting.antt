-- ===== src/Retrieval/Fitting.antt =====
-- What `compile_task_view` of compiler.py selects.
use autonomic_obsidian_kb.Prelude.{
  ℕ, zero, suc, ◌≤◌, ◌<◌, String, ◌≡◌, refl, sym, subst, ◌⊎◌, inl, inr, Bool, true, false, arith,
  leb, Bool-cases, leb→le, &&_iff, &&_intro, nat_eq, string_eq, list_eq, is_set,
}
use autonomic_obsidian_kb.Models.Json.{Value}
use autonomic_obsidian_kb.Models.Note.{Note}
use autonomic_obsidian_kb.Retrieval.View.{representation, layer_text, fits, compile_task_view}

module _ (F : Type 0) (render : Value → String) (count : String → ℕ) (note : Note F)
    (max_tokens : ℕ) where
  -- No layer above `low`, up to `high`, has a representation that fits.
  NoneAbove : ℕ → ℕ → Type 0
  NoneAbove low high = (k : ℕ) → low < k → k ≤ high → fits F render count note max_tokens k ≡ false

  -- The whole representation of the highest layer that fits, or that no layer fits.
  Selected : ℕ → ℕ × String → Type 0
  Selected preferred view =
      ((is_set (layer_text F render count note view.0) ≡ true)
        × (view.1 ≡ representation F render count note view.0)
        × (count view.1 ≤ max_tokens)
        × (view.0 ≤ preferred)
        × NoneAbove view.0 preferred)
      ⊎ ((view ≡ (0, "")) × (fits F render count note max_tokens 0 ≡ false) × NoneAbove 0 preferred)

  fits_sound :
      (layer : ℕ)
      → fits F render count note max_tokens layer ≡ true
      → (is_set (layer_text F render count note layer) ≡ true)
        × (count (representation F render count note layer) ≤ max_tokens)
  unfolding fits
  fits_sound layer h =
      let (a, b) =
        &&_iff (is_set (layer_text F render count note layer))
          (leb (count (representation F render count note layer)) max_tokens) h in
      (a, leb→le (count (representation F render count note layer)) max_tokens b)

  none_equal : (n : ℕ) → NoneAbove n n
  unfolding NoneAbove
  none_equal n k a b = elim (absurd a b) [ ]
    where
      absurd : n < k → k ≤ n → ⊥
      absurd a b = omega arith

  none_more :
      (low high : ℕ)
      → NoneAbove low high
      → fits F render count note max_tokens (suc high) ≡ false
      → NoneAbove low (suc high)
  unfolding NoneAbove
  none_more low high h e k a b = elim (top k high b) [
    | inl p ↦ subst (λ j. fits F render count note max_tokens j ≡ false) (sym p) e
    | inr p ↦ h k a p
  ]
    where
      top : (k high : ℕ) → k ≤ suc high → (k ≡ suc high) ⊎ (k ≤ high)
      top k high b = grind arith

  more :
      (n : ℕ) (view : ℕ × String)
      → Selected n view
      → fits F render count note max_tokens (suc n) ≡ false
      → Selected (suc n) view
  unfolding Selected
  more n view (inl (a, b, c, d, e)) f = inl (a, b, c, le_suc d, none_more view.0 n e f)
    where
      le_suc : view.0 ≤ n → view.0 ≤ suc n
      le_suc h = omega arith
  more n view (inr (a, b, c)) f = inr (a, b, none_more 0 n c f)

  view_taken :
      (layer : ℕ)
      → fits F render count note max_tokens layer ≡ true
      → compile_task_view F render count note layer max_tokens
        ≡ (layer, representation F render count note layer)
  unfolding compile_task_view
  view_taken zero e = rw e refl
  view_taken (suc n) e = rw e refl

  view_lower :
      (n : ℕ)
      → fits F render count note max_tokens (suc n) ≡ false
      → compile_task_view F render count note (suc n) max_tokens
        ≡ compile_task_view F render count note n max_tokens
  unfolding compile_task_view
  view_lower n e = rw e refl

  view_none :
      fits F render count note max_tokens 0 ≡ false
      → compile_task_view F render count note 0 max_tokens ≡ (0, "")
  unfolding compile_task_view
  view_none e = rw e refl

  Selected-taken :
      (layer : ℕ)
      → fits F render count note max_tokens layer ≡ true
      → Selected layer (layer, representation F render count note layer)
  unfolding Selected
  Selected-taken layer e =
      let (a, b) = fits_sound layer e in inl (a, refl, b, omega arith, none_equal layer)

  Selected-none : fits F render count note max_tokens 0 ≡ false → Selected 0 (0, "")
  unfolding Selected
  Selected-none e = inr (refl, e, none_equal 0)

  selected :
      (preferred : ℕ)
      → Selected preferred (compile_task_view F render count note preferred max_tokens)
  selected zero = elim (Bool-cases (fits F render count note max_tokens 0)) [
    | inl e ↦ subst (Selected 0) (sym (view_taken 0 e)) (Selected-taken 0 e)
    | inr e ↦ subst (Selected 0) (sym (view_none e)) (Selected-none e)
  ]
  selected (suc n) = elim (Bool-cases (fits F render count note max_tokens (suc n))) [
    | inl e ↦ subst (Selected (suc n)) (sym (view_taken (suc n) e)) (Selected-taken (suc n) e)
    | inr e ↦
        subst (Selected (suc n)) (sym (view_lower n e))
          (more n (compile_task_view F render count note n max_tokens) (selected n) e)
  ]

  fits_complete :
      (layer : ℕ)
      → is_set (layer_text F render count note layer) ≡ true
      → count (representation F render count note layer) ≤ max_tokens
      → fits F render count note max_tokens layer ≡ true
  unfolding fits
  fits_complete layer a b =
      &&_intro (is_set (layer_text F render count note layer))
        (leb (count (representation F render count note layer)) max_tokens) a
        (le_test (count (representation F render count note layer)) max_tokens b)
    where
      le_test : (a b : ℕ) → a ≤ b → leb a b ≡ true
      le_test a b h = ground arith

  Best : ℕ → ℕ → ℕ × String → Type 0
  Best preferred k view =
      (k ≤ view.0)
      × (view.0 ≤ preferred)
      × (is_set (layer_text F render count note view.0) ≡ true)
      × (view.1 ≡ representation F render count note view.0)
      × (count view.1 ≤ max_tokens)

  not_above :
      (low high k : ℕ)
      → NoneAbove low high
      → k ≤ high
      → fits F render count note max_tokens k ≡ true
      → k ≤ low
  unfolding NoneAbove
  not_above low high k h b e = elim (Bool-cases (leb k low)) [
    | inl t ↦ leb→le k low t
    | inr f ↦ elim (clash (h k (above k low f) b) e) [ ]
  ]
    where
      above : (k low : ℕ) → leb k low ≡ false → low < k
      above k low f = ground arith

      clash : {b : Bool} → b ≡ false → b ≡ true → ⊥
      clash p q = cc

  best :
      (preferred k : ℕ)
      → k ≤ preferred
      → fits F render count note max_tokens k ≡ true
      → (view : ℕ × String) → Selected preferred view
      → Best preferred k view
  unfolding Selected Best
  best preferred k low e view (inl (a, b, c, d, h)) =
      (not_above view.0 preferred k h low e, d, a, b, c)
  best preferred k low e view (inr (p, f, h)) =
      elim (clash
        (subst (λ j. fits F render count note max_tokens j ≡ false)
          (sym (zero_of k (not_above 0 preferred k h low e))) f)
        e) [ ]
    where
      zero_of : (k : ℕ) → k ≤ 0 → k ≡ 0
      zero_of k h = omega arith

      clash : {b : Bool} → b ≡ false → b ≡ true → ⊥
      clash p q = cc

  within :
      (preferred : ℕ)
      → count "" ≡ 0
      → (view : ℕ × String) → Selected preferred view
      → count view.1 ≤ max_tokens
  unfolding Selected
  within preferred empty view (inl (a, b, c, d, h)) = c
  within preferred empty view (inr (p, f, h)) =
      subst (λ (v : ℕ × String). count v.1 ≤ max_tokens) (sym p) (zero_le empty)
    where
      zero_le : {n : ℕ} → n ≡ 0 → n ≤ max_tokens
      zero_le e = omega arith

-- A layer up to the preferred one that has a text and whose whole representation fits the limit is
-- never above the layer that `compile_task_view` selects, and what that answers is then the whole
-- representation of a layer with a text, within the limit and not above the preferred layer.
pub compile_task_view_highest :
    (F : Type 0) (render : Value → String) (count : String → ℕ) (note : Note F)
    (max_tokens preferred k : ℕ)
    → k ≤ preferred
    → is_set (layer_text F render count note k) ≡ true
    → count (representation F render count note k) ≤ max_tokens
    → (k ≤ (compile_task_view F render count note preferred max_tokens).0)
      × ((compile_task_view F render count note preferred max_tokens).0 ≤ preferred)
      × (is_set (
            layer_text F render count note
              (compile_task_view F render count note preferred max_tokens).0)
          ≡ true)
      × ((compile_task_view F render count note preferred max_tokens).1
          ≡ representation F render count note
              (compile_task_view F render count note preferred max_tokens).0)
      × (count (compile_task_view F render count note preferred max_tokens).1 ≤ max_tokens)
unfolding Best
compile_task_view_highest F render count note max_tokens preferred k low there_is small =
    best F render count note max_tokens preferred k low
      (fits_complete F render count note max_tokens k there_is small)
      (compile_task_view F render count note preferred max_tokens)
      (selected F render count note max_tokens preferred)

-- Where the empty text counts no tokens, the text that `compile_task_view` answers is within the limit.
pub compile_task_view_bound :
    (F : Type 0) (render : Value → String) (count : String → ℕ) (note : Note F)
    (max_tokens preferred : ℕ)
    → count "" ≡ 0
    → count (compile_task_view F render count note preferred max_tokens).1 ≤ max_tokens
compile_task_view_bound F render count note max_tokens preferred empty =
    within F render count note max_tokens preferred empty
      (compile_task_view F render count note preferred max_tokens)
      (selected F render count note max_tokens preferred)
