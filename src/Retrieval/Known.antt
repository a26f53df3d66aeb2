-- ===== src/Retrieval/Known.antt =====
-- A pass of the loop that cuts the payload down raises nothing where each item has its note.
use autonomic_obsidian_kb.Prelude.{
  String, ◌≡◌, refl, subst, inl, inr, false, ◌&&◌, Option, none, some, List, [], ◌∷◌, ◌++◌, eqb,
  Bool-cases, All-append_left, All-append_right, nat_eq, string_eq, list_eq, All, All-append,
  lookup, Result, ok,
}
use autonomic_obsidian_kb.Prelude.Sets.{non_empty}
use autonomic_obsidian_kb.Models.Json.{Fields}
use autonomic_obsidian_kb.Models.Note.{Note}
use autonomic_obsidian_kb.Models.Manifest.{RetrievalItem, RetrievalManifest}
use autonomic_obsidian_kb.Retrieval.Payload.{
  PayloadCalls, split_last, shrink_below, shrink_with, shrink, selected_with, selected_notes,
  with_sufficiency, assessed_again, cut_last, cut_items, cut, budget_exclusion,
}
use autonomic_obsidian_kb.Retrieval.Cuts.{split_last-append, shrink-Lower}

module _ (F : Type 0) (calls : PayloadCalls) (agent intent : String)
    (sources : List (String × Note F)) where
  -- Each item has its note among the sources.
  unfoldable pub Known : List (RetrievalItem F) → Type 0
  Known entries = All (λ entry. (note : Note F) × (lookup entry.id sources ≡ some note)) entries

  shrink-ok :
      (entry : RetrievalItem F) (note : Note F)
      → lookup entry.id sources ≡ some note
      → (o : Option (RetrievalItem F)) × (shrink F calls agent intent sources entry ≡ ok o)
  unfolding shrink shrink_with
  shrink-ok entry note h = elim (Bool-cases (eqb entry.layer 0)) [
    | inl e ↦ (none, rw e refl)
    | inr e ↦ (shrink_below F calls agent intent sources note entry entry.layer, rw (e, h) refl)
  ]

  selected_notes-ok :
      (entries : List (RetrievalItem F))
      → Known entries
      → (selected : List (Note F × String)) × (selected_notes F calls agent intent sources entries
          ≡ ok selected)
  unfolding selected_notes selected_with Known
  selected_notes-ok [] h = ([], refl)
  selected_notes-ok (entry ∷ entries) ((note, at), h) =
      let (rest, e) = selected_notes-ok entries h in ((note, entry.body) ∷ rest, rw (e, at) refl)

  -- A pass that goes well, and leaves known items.
  unfoldable pub Goes : Result (RetrievalManifest F × List Fields) → Type 0
  Goes r = (t : RetrievalManifest F × List Fields) × ((r ≡ ok t) × Known t.0.items)

  assessed_again-ok :
      (excluded : List Fields) (m : RetrievalManifest F)
      → Known m.items
      → Goes (assessed_again F calls agent intent sources excluded m)
  unfolding assessed_again with_sufficiency Goes
  assessed_again-ok excluded m known =
      let (selected, e) = selected_notes-ok m.items known in
      ((with_sufficiency F calls agent intent sources m selected, excluded), (rw e refl, known))

  cut_last-ok :
      (m : RetrievalManifest F) (excluded : List Fields) (front : List (RetrievalItem F))
      (end : RetrievalItem F) (o : Option (RetrievalItem F))
      → Known (front ++ end ∷ [])
      → shrink F calls agent intent sources end ≡ ok o
      → Goes (cut_last F calls agent intent sources m excluded front end o)
  unfolding cut_last Known
  cut_last-ok m excluded front end none known h =
      assessed_again-ok (excluded ++ budget_exclusion F calls agent intent sources end ∷ [])
        (record m { items = front }) (All-append_left _ front (end ∷ []) known)
  cut_last-ok m excluded front end (some smaller) known h =
      let l = shrink-Lower F calls agent intent sources end smaller h in
      let (at, done) = All-append_right _ front (end ∷ []) known in
      assessed_again-ok excluded (record m { items = front ++ smaller ∷ [] })
        (All-append _ front (smaller ∷ []) (All-append_left _ front (end ∷ []) known)
          (rw l.same_id at, tt))

  pub cut-ok :
      (m : RetrievalManifest F) (excluded : List Fields)
      → Known m.items
      → Goes (cut F calls agent intent sources (m, excluded))
  unfolding cut cut_items Goes Known
  cut-ok m excluded known = elim (Bool-cases (m.label_missing && non_empty m.missing_evidence)) [
    | inl e ↦ ((record m { label_missing = false }, excluded), (rw e refl, known))
    | inr e ↦ rw e (by_end (split_last m.items) refl)
  ]
    where
      by_end :
          (o : Option (List (RetrievalItem F) × RetrievalItem F))
          → split_last m.items ≡ o
          → Goes (cut_items F calls agent intent sources m excluded o)
      by_end none q = ((m, excluded), (refl, known))
      by_end (some (front, end)) q =
          let whole : Known (front ++ end ∷ []) =
            subst Known (split_last-append m.items front end q) known in
          let ((note, at), done) = All-append_right _ front (end ∷ []) whole in
          let (o, e) = shrink-ok end note at in rw e (cut_last-ok m excluded front end o whole e)
