-- ===== src/Tests/Payload.antt =====
-- A payload that is too large at first, where a token is a character.
use autonomic_obsidian_kb.Prelude.{
  ℕ, ◌≤◌, String, ◌≡◌, refl, ◌↔◌, ◌⊎◌, true, none, List, [], ◌∷◌, map, arith, nat_eq, string_eq,
  list_eq, All, lookup, Result, ok, raise,
}
use autonomic_obsidian_kb.Models.Json.{Fields}
use autonomic_obsidian_kb.Models.Json.Value.{null}
use autonomic_obsidian_kb.Models.Note.{Note}
use autonomic_obsidian_kb.Models.Manifest.{RetrievalItem, RetrievalManifest, to_markdown}
use autonomic_obsidian_kb.Retrieval.Sufficiency.{assess_sufficiency, roles_at, required_roles}
use autonomic_obsidian_kb.Retrieval.Shown.{Covered}
use autonomic_obsidian_kb.Retrieval.Coverage.{assess_sufficiency_iff}
use autonomic_obsidian_kb.Retrieval.Payload.{
  PayloadCalls, cut_down, cut, is_over, cuts_left, delivered_cost, fit_payload,
}
use autonomic_obsidian_kb.Retrieval.Cuts.{IsPrefix, ids}
use autonomic_obsidian_kb.Retrieval.Known.{Known}
use autonomic_obsidian_kb.Retrieval.Delivered.{Cut, cut_down_ends, fit_payload_within}
use autonomic_obsidian_kb.Retrieval.Outcome.{Refused, too_small, fit_payload_outcome}
use autonomic_obsidian_kb.Tests.Samples.{count, note, context}

abbrev calls : PayloadCalls
calls = record {
  render = λ v. "";
  count = count;
  stable_json = λ v. "{}";
  sha256 = λ s. "00";
  show_nat = λ n. "n";
}

abbrev entry : RetrievalItem ℕ
entry = record {
  id = "m1";
  path = "10-notes/m1.md";
  title = "One";
  layer = 1;
  body = "Precondition: a clean tree\nRun the build, then the tests.";
  score = 80;
  tokens = 71;
  reasons = [];
  provenance = null;
  validation = "";
  evidence = [];
  uncertainty = 20;
  route_sources = [];
  revision = "";
}

abbrev manifest : ℕ → RetrievalManifest ℕ
manifest budget = record {
  task = "fix the build";
  budget = budget;
  used_tokens = 0;
  items = entry ∷ [];
  excluded = [];
  context = context;
  retrieval_id = "r1";
  route = "lexical";
  state = "partial_context";
  trace_id = "t1";
  missing_evidence = "steps" ∷ [];
  token_count_exact = true;
  delivery = none;
  unrecorded_evidence = [];
  label_missing = true;
}

abbrev sources : List (String × Note ℕ)
sources = ("m1", note) ∷ []

abbrev fitted : ℕ → Result (RetrievalManifest ℕ)
fitted budget = fit_payload ℕ calls "codex" "procedure" sources (manifest budget) []

abbrev manifest_in : Result (RetrievalManifest ℕ) → RetrievalManifest ℕ
manifest_in (ok m) = m
manifest_in (raise e) = manifest 0

known : Known ℕ calls "codex" "procedure" sources (entry ∷ [])
unfolding Known lookup
known = ((note, refl), tt)

enough : cuts_left ℕ calls "codex" "procedure" sources (manifest 120) ≤ 3
unfolding cuts_left
enough = omega arith

cut_down_ends_example :
    (t : RetrievalManifest ℕ × List Fields) × ((cut_down ℕ calls "codex" "procedure" sources 3
          (manifest 120, [])
        ≡ ok t)
      × Cut ℕ calls "codex" "procedure" sources (manifest 120) t)
cut_down_ends_example =
    cut_down_ends ℕ calls "codex" "procedure" sources 3 (manifest 120) [] enough known

fitted_run : fitted 120 ≡ ok (manifest_in (fitted 120))
unfolding fit_payload cut_down is_over cut
fitted_run = refl

fitted_layer : map (λ e. e.layer) (manifest_in (fitted 120)).items ≡ 0 ∷ []
unfolding fit_payload cut_down is_over cut
fitted_layer = refl

refused_run : fitted 20 ≡ raise too_small
unfolding fit_payload cut_down is_over cut
refused_run = refl

fit_payload_within_example :
    ((manifest_in (fitted 120)).used_tokens
      ≡ delivered_cost ℕ calls "codex" "procedure" sources (manifest_in (fitted 120)))
    × (count (to_markdown ℕ (manifest_in (fitted 120))) ≤ 120)
    × (2 ≤ 120)
fit_payload_within_example =
    fit_payload_within ℕ calls "codex" "procedure" sources (manifest 120) []
      (manifest_in (fitted 120)) fitted_run

fit_payload_outcome_example :
    ((out : RetrievalManifest ℕ) × ((fitted 120 ≡ ok out)
        × IsPrefix
            (ids ℕ calls "codex" "procedure" sources out.items)
            (ids ℕ calls "codex" "procedure" sources (entry ∷ []))))
    ⊎ ((fitted 120 ≡ raise too_small)
        × ((t : RetrievalManifest ℕ × List Fields) × ((cut_down ℕ calls "codex" "procedure" sources
                  (cuts_left ℕ calls "codex" "procedure" sources (manifest 120))
                  (manifest 120, [])
                ≡ ok t)
              × Refused ℕ calls "codex" "procedure" sources (manifest 120) t.0)))
fit_payload_outcome_example =
    fit_payload_outcome ℕ calls "codex" "procedure" sources (manifest 120) [] known

assess_sufficiency_iff_example :
    ((assess_sufficiency ℕ calls.render count "procedure" ((note, entry.body) ∷ [])).0
      ≡ "sufficient_context")
    ↔ ((true ≡ true)
        × All
            (Covered ℕ calls.render count ((note, entry.body) ∷ []))
            (roles_at "procedure" required_roles))
assess_sufficiency_iff_example =
    assess_sufficiency_iff ℕ calls.render count "procedure" ((note, entry.body) ∷ [])

assessed :
    assess_sufficiency ℕ calls.render count "procedure" ((note, entry.body) ∷ [])
    ≡ ("partial_context", "steps" ∷ "verification" ∷ [])
unfolding assess_sufficiency
assessed = refl
