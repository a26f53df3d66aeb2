-- ===== src/Retrieval/Outcome.antt =====
-- The outcome of a payload: what comes out, or why it is refused.
use autonomic_obsidian_kb.Prelude.{
  ◌<◌, String, ◌≡◌, refl, ◌⊎◌, inl, inr, Bool, true, false, ◌&&◌, some, List, [], ◌∷◌, arith, ltb,
  Bool-cases, ltb→lt, nat_eq, string_eq, list_eq, Exception, value_error, ok, raise,
}
use autonomic_obsidian_kb.Prelude.Sets.{non_empty}
use autonomic_obsidian_kb.Models.Json.{Fields}
use autonomic_obsidian_kb.Models.Note.{Note}
use autonomic_obsidian_kb.Models.Manifest.{RetrievalItem, RetrievalManifest}
use autonomic_obsidian_kb.Retrieval.Payload.{
  PayloadCalls, is_over, cut_down, cuts_left, delivered_cost, with_fallback, measured, bounded,
  fit_payload,
}
use autonomic_obsidian_kb.Retrieval.Cuts.{IsPrefix, ids}
use autonomic_obsidian_kb.Retrieval.Known.{Known}
use autonomic_obsidian_kb.Retrieval.Delivered.{Cut, cut_down_ends}

abbrev pub too_small : Exception
too_small = value_error "budget cannot fit the minimum response with this tokenizer"

module _ (F : Type 0) (calls : PayloadCalls) (agent intent : String)
    (sources : List (String × Note F)) where
  -- The manifest with the response for when nothing fits.
  abbrev pub insufficient : RetrievalManifest F → RetrievalManifest F
  insufficient m = record m { delivery = some "Insufficient budget for context." }

  -- A manifest whose end was refused has no items, and not even the fallback fits.
  pub record Refused (m : RetrievalManifest F) (t : RetrievalManifest F) : Type 0 where
    pub empty : t.items ≡ []
    pub large : m.budget < delivered_cost F calls agent intent sources (insufficient t)

  no_more :
      (entries : List (RetrievalItem F)) (b : Bool)
      → (non_empty entries && b) ≡ false
      → b ≡ true
      → entries ≡ []
  no_more [] b h e = refl
  no_more (entry ∷ entries) b h e = cc

  bounded_cases :
      (m : RetrievalManifest F) (t : RetrievalManifest F × List Fields)
      → Cut F calls agent intent sources m t
      → ((out : RetrievalManifest F) × ((bounded F calls agent intent sources (
                measured F calls agent intent sources
                  (with_fallback F calls agent intent sources t.0)
                  t.1)
              ≡ ok out)
            × (out.items ≡ t.0.items)))
        ⊎ ((bounded F calls agent intent sources (
                measured F calls agent intent sources
                  (with_fallback F calls agent intent sources t.0)
                  t.1)
              ≡ raise too_small)
            × Refused m t.0)
  unfolding bounded measured with_fallback is_over
  bounded_cases m t c =
      elim (Bool-cases (ltb t.0.budget (delivered_cost F calls agent intent sources t.0))) [
        | inr e ↦ inl (measured F calls agent intent sources t.0 t.1, (rw (e, e) refl, refl))
        | inl e ↦
            elim (Bool-cases
              (ltb t.0.budget (delivered_cost F calls agent intent sources (insufficient t.0)))) [
                | inr f ↦ inl (
                  measured F calls agent intent sources (insufficient t.0) t.1,
                  (rw (e, f) refl, refl),
                )
                | inl f ↦ inr (
                  rw (e, f) refl,
                  record {
                    empty =
                        no_more t.0.items
                          (ltb t.0.budget (delivered_cost F calls agent intent sources t.0)) c.done
                          e;
                    large = omega (
                      arith,
                      c.budget,
                      ltb→lt t.0.budget
                          (delivered_cost F calls agent intent sources (insufficient t.0)) f,
                    );
                  },
                )
              ]
      ]

-- A payload whose items have their notes either comes out, with the first of the items given, or is
-- refused with the ValueError for a budget that is too small; then cutting it down left no item, and
-- the response for when nothing fits costs more than the budget.
pub fit_payload_outcome :
    (F : Type 0) (calls : PayloadCalls) (agent intent : String) (sources : List (String × Note F))
    (m : RetrievalManifest F) (excluded : List Fields)
    → Known F calls agent intent sources m.items
    → ((out : RetrievalManifest F) × ((fit_payload F calls agent intent sources m excluded ≡ ok out)
          × IsPrefix
              (ids F calls agent intent sources out.items)
              (ids F calls agent intent sources m.items)))
      ⊎ ((fit_payload F calls agent intent sources m excluded ≡ raise too_small)
          × ((t : RetrievalManifest F × List Fields) × ((cut_down F calls agent intent sources
                    (cuts_left F calls agent intent sources m)
                    (m, excluded)
                  ≡ ok t)
                × Refused F calls agent intent sources m t.0)))
unfolding fit_payload
fit_payload_outcome F calls agent intent sources m excluded known =
    let (t, (e, c)) =
      cut_down_ends F calls agent intent sources (cuts_left F calls agent intent sources m) m
        excluded (omega arith) known in
    elim (bounded_cases F calls agent intent sources m t c) [
      | inl (out, (h, same)) ↦ inl (out, (rw (e, h) refl, rw same c.first))
      | inr (h, refused) ↦ inr (rw (e, h) refl, (t, (e, refused)))
    ]
