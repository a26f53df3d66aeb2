-- ===== src/Retrieval/Delivered.antt =====
-- The payload that `retrieve` emits: the loop that cuts it down ends, and what is emitted fits.
use autonomic_obsidian_kb.Prelude.{
  ℕ, zero, suc, ◌+◌, max, ◌≤◌, String, ◌≡◌, refl, ◌∙◌, subst, inl, inr, false, List, [], ◌∷◌, arith,
  ltb, if◌then◌else◌, Bool-cases, ltb→ge, nat_eq, string_eq, list_eq, value_error, ok, raise_if_ok,
  bind_ok, ok_inj,
}
use autonomic_obsidian_kb.Prelude.Sets.{non_empty}
use autonomic_obsidian_kb.Models.Json.{Fields}
use autonomic_obsidian_kb.Models.Note.{Note}
use autonomic_obsidian_kb.Models.Manifest.{
  RetrievalItem, RetrievalManifest, to_markdown, to_agent_dict,
}
use autonomic_obsidian_kb.Retrieval.Payload.{
  PayloadCalls, cut, is_over, cut_down, layers_left, cuts_left, delivered_cost, with_fallback,
  measured, bounded, fit_payload,
}
use autonomic_obsidian_kb.Retrieval.Cuts.{IsPrefix, IsPrefix-refl, IsPrefix-trans, ids, cut-Smaller}
use autonomic_obsidian_kb.Retrieval.Known.{Known, cut-ok, Goes}

module _ (F : Type 0) (calls : PayloadCalls) (agent intent : String)
    (sources : List (String × Note F)) where
  -- The end of the loop, from a manifest.
  pub record Cut (m : RetrievalManifest F) (t : RetrievalManifest F × List Fields) : Type 0 where
    pub done : is_over F calls agent intent sources t ≡ false
    pub budget : t.0.budget ≡ m.budget
    pub first :
        IsPrefix
          (ids F calls agent intent sources t.0.items)
          (ids F calls agent intent sources m.items)

  no_items :
      (entries : List (RetrievalItem F))
      → layers_left F calls agent intent sources entries ≤ 0
      → non_empty entries ≡ false
  unfolding layers_left
  no_items [] h = refl
  no_items (entry ∷ entries) h = ground arith

  none_over :
      (m : RetrievalManifest F) (excluded : List Fields)
      → cuts_left F calls agent intent sources m ≤ 0
      → is_over F calls agent intent sources (m, excluded) ≡ false
  unfolding is_over cuts_left
  none_over m excluded h =
      let labels : (if m.label_missing then 1 else 0)
            + layers_left F calls agent intent sources m.items
          ≤ 0 =
        h in
      rw (no_items m.items (omega (arith, labels))) refl

  cut_down-Cut :
      (fuel : ℕ) (m : RetrievalManifest F) (excluded : List Fields)
      (t : RetrievalManifest F × List Fields)
      → cuts_left F calls agent intent sources m ≤ fuel
      → cut_down F calls agent intent sources fuel (m, excluded) ≡ ok t
      → Cut m t
  unfolding cut_down
  cut_down-Cut zero m excluded t enough h = subst (Cut m) (ok_inj h) (record {
    done = none_over m excluded enough;
    budget = refl;
    first = IsPrefix-refl (ids F calls agent intent sources m.items);
  })
  cut_down-Cut (suc fuel) m excluded t enough h =
      elim (Bool-cases (is_over F calls agent intent sources (m, excluded))) [
        | inr e ↦ subst (Cut m) (ok_inj (rw e at h)) (record {
          done = e;
          budget = refl;
          first = IsPrefix-refl (ids F calls agent intent sources m.items);
        })
        | inl e ↦
            let (next, (one, rest)) =
              bind_ok (cut F calls agent intent sources (m, excluded))
                (λ next. cut_down F calls agent intent sources fuel next) t (rw e at h) in
            let s = cut-Smaller F calls agent intent sources m excluded next e one in
            let c = cut_down-Cut fuel next.0 next.1 t (omega (arith, s.fewer, enough)) rest in
            record {
              done = c.done;
              budget = c.budget ∙ s.budget;
              first = IsPrefix-trans _ _ _ c.first s.first;
            }
      ]

  cut_down-ok :
      (fuel : ℕ) (m : RetrievalManifest F) (excluded : List Fields)
      → Known F calls agent intent sources m.items
      → Goes F calls agent intent sources (cut_down F calls agent intent sources fuel (m, excluded))
  unfolding cut_down Goes
  cut_down-ok zero m excluded known = ((m, excluded), (refl, known))
  cut_down-ok (suc fuel) m excluded known =
      elim (Bool-cases (is_over F calls agent intent sources (m, excluded))) [
        | inr e ↦ ((m, excluded), (rw e refl, known))
        | inl e ↦
            let (next, (one, left)) = cut-ok F calls agent intent sources m excluded known in
            rw (e, one) (cut_down-ok fuel next.0 next.1 left)
      ]

  with_fallback_budget :
      (m : RetrievalManifest F) → (with_fallback F calls agent intent sources m).budget ≡ m.budget
  unfolding with_fallback
  with_fallback_budget m =
      elim (Bool-cases (ltb m.budget (delivered_cost F calls agent intent sources m))) [
        | inl e ↦ rw e refl
        | inr e ↦ rw e refl
      ]

  -- What comes through the last check.
  measured_within :
      (m : RetrievalManifest F) (excluded : List Fields) (out : RetrievalManifest F)
      → bounded F calls agent intent sources (
          measured F calls agent intent sources
            (with_fallback F calls agent intent sources m)
            excluded)
        ≡ ok out
      → (out.used_tokens ≡ delivered_cost F calls agent intent sources out)
        × (out.used_tokens ≤ m.budget)
        × (max
              (calls.count (to_markdown F out))
              (calls.count (calls.stable_json (to_agent_dict F out)))
            ≡ out.used_tokens)
  unfolding bounded measured delivered_cost to_markdown to_agent_dict
  measured_within m excluded out h =
      let x = with_fallback F calls agent intent sources m in
      let y = measured F calls agent intent sources x excluded in
      let (within, p) =
        raise_if_ok (ltb y.budget y.used_tokens)
          (value_error "budget cannot fit the minimum response with this tokenizer") (ok y) h in
      subst
        (λ z.
          (z.used_tokens ≡ delivered_cost F calls agent intent sources z)
          × (z.used_tokens ≤ m.budget)
          × (max (calls.count (to_markdown F z))
                (calls.count (calls.stable_json (to_agent_dict F z)))
              ≡ z.used_tokens))
        (ok_inj p)
        (refl, omega (arith, ltb→ge y.budget y.used_tokens within, with_fallback_budget m), refl)

max_left : (a b : ℕ) {c : ℕ} → max a b ≡ c → a ≤ c
max_left a b h = omega (arith, h)

max_right : (a b : ℕ) {c : ℕ} → max a b ≡ c → b ≤ c
max_right a b h = omega (arith, h)

-- The loop that cuts a payload down ends after at most as many passes as there are layers, items and
-- labels to cut: with that fuel or more, where each item has its note, it returns a manifest whose cost
-- is within the budget or that has no items left, of the same budget, whose items are the first of
-- those given.
pub cut_down_ends :
    (F : Type 0) (calls : PayloadCalls) (agent intent : String) (sources : List (String × Note F))
    (fuel : ℕ) (m : RetrievalManifest F) (excluded : List Fields)
    → cuts_left F calls agent intent sources m ≤ fuel
    → Known F calls agent intent sources m.items
    → (t : RetrievalManifest F × List Fields) × ((cut_down F calls agent intent sources fuel
            (m, excluded)
          ≡ ok t)
        × Cut F calls agent intent sources m t)
unfolding Goes
cut_down_ends F calls agent intent sources fuel m excluded enough known =
    let (t, (e, left)) = cut_down-ok F calls agent intent sources fuel m excluded known in
    (t, (e, cut_down-Cut F calls agent intent sources fuel m excluded t enough e))

-- A payload that comes out reports its cost as its used tokens, and neither its markdown nor the JSON
-- that holds it has more tokens than the budget asked for.
pub fit_payload_within :
    (F : Type 0) (calls : PayloadCalls) (agent intent : String) (sources : List (String × Note F))
    (m : RetrievalManifest F) (excluded : List Fields) (out : RetrievalManifest F)
    → fit_payload F calls agent intent sources m excluded ≡ ok out
    → (out.used_tokens ≡ delivered_cost F calls agent intent sources out)
      × (calls.count (to_markdown F out) ≤ m.budget)
      × (calls.count (calls.stable_json (to_agent_dict F out)) ≤ m.budget)
unfolding fit_payload bounded
fit_payload_within F calls agent intent sources m excluded out h =
    let (t, (e, last)) =
      bind_ok
        (cut_down F calls agent intent sources (cuts_left F calls agent intent sources m)
          (m, excluded))
        (λ s. bounded F calls agent intent sources (
          measured F calls agent intent sources (with_fallback F calls agent intent sources s.0)
            s.1))
        out h in
    let c =
      cut_down-Cut F calls agent intent sources (cuts_left F calls agent intent sources m) m
        excluded t (omega arith) e in
    let b = measured_within F calls agent intent sources t.0 t.1 out last in
    (
      b.0,
      omega (
        arith,
        b.1,
        c.budget,
        max_left (calls.count (to_markdown F out))
            (calls.count (calls.stable_json (to_agent_dict F out))) b.2,
      ),
      omega (
        arith,
        b.1,
        c.budget,
        max_right (calls.count (to_markdown F out))
            (calls.count (calls.stable_json (to_agent_dict F out))) b.2,
      ),
    )
