-- ===== src/Retrieval/Cuts.antt =====
-- What one pass of the loop that cuts the payload down does: it leaves less to cut.
use autonomic_obsidian_kb.Prelude.{
  ℕ, zero, suc, ◌+◌, ◌<◌, String, ◌≡◌, refl, ap, ◌∙◌, subst, inl, inr, true, false, ◌&&◌, Option,
  none, some, List, [], ◌∷◌, ◌++◌, arith, leb, eqb, Bool-cases, Option-cases, leb→le, if_cases,
  &&_iff, nat_eq, string_eq, list_eq, lookup, Result, ok, raise, ◌>>=◌, bind_ok, ok_inj, some_inj,
  is_set,
}
use autonomic_obsidian_kb.Prelude.Sets.{non_empty}
use autonomic_obsidian_kb.Models.Json.{Fields}
use autonomic_obsidian_kb.Models.Note.{Note}
use autonomic_obsidian_kb.Models.Manifest.{RetrievalItem, RetrievalManifest}
use autonomic_obsidian_kb.Retrieval.Payload.{
  PayloadCalls, split_last, smaller_view, reduced, revise, shrink_below, shrink_with, shrink,
  selected_notes, with_sufficiency, assessed_again, cut_last, cut_items, cut, is_over, layers_left,
  cuts_left, budget_exclusion,
}

module _ {ℓ} {A : Type ℓ} where
  split_last-none : (xs : List A) → split_last xs ≡ none → xs ≡ []
  unfolding split_last
  split_last-none [] h = refl
  split_last-none (x ∷ xs) h = elim (Option-cases (split_last xs)) [
    | inl e ↦ let h' = rw e at h in cc
    | inr (p, e) ↦ let h' = rw e at h in cc
  ]

  -- The last element, put back.
  pub split_last-append :
      (xs front : List A) (end : A) → split_last xs ≡ some (front, end) → xs ≡ front ++ end ∷ []
  unfolding split_last
  split_last-append [] front end h = cc
  split_last-append (x ∷ xs) front end h = elim (Option-cases (split_last xs)) [
    | inl e ↦ let h' = rw e at h in alone (split_last-none xs e) h'
    | inr ((f, z), e) ↦ let h' = rw e at h in grown f z (split_last-append xs f z e) h'
  ]
    where
      alone :
          xs ≡ []
          → ◌≡◌ {A = Option (List A × A)} (some ([], x)) (some (front, end))
          → x ∷ xs ≡ front ++ end ∷ []
      alone p h = ap (λ ys. x ∷ ys) p ∙ ap (λ (o : List A × A). o.0 ++ o.1 ∷ []) (some_inj h)

      grown :
          (f : List A) (z : A)
          → xs ≡ f ++ z ∷ []
          → ◌≡◌ {A = Option (List A × A)} (some (x ∷ f, z)) (some (front, end))
          → x ∷ xs ≡ front ++ end ∷ []
      grown f z p h = ap (λ ys. x ∷ ys) p ∙ ap (λ (o : List A × A). o.0 ++ o.1 ∷ []) (some_inj h)

-- The first elements of a list.
unfoldable pub IsPrefix : {A : Type 0} → List A → List A → Type 0
IsPrefix [] ys = Unit {0}
IsPrefix (x ∷ xs) [] = ⊥
IsPrefix (x ∷ xs) (y ∷ ys) = (x ≡ y) × IsPrefix xs ys

pub IsPrefix-refl : {A : Type 0} (xs : List A) → IsPrefix xs xs
unfolding IsPrefix
IsPrefix-refl [] = tt
IsPrefix-refl (x ∷ xs) = (refl, IsPrefix-refl xs)

pub IsPrefix-append : {A : Type 0} (xs ys : List A) → IsPrefix xs (xs ++ ys)
unfolding IsPrefix
IsPrefix-append [] ys = tt
IsPrefix-append (x ∷ xs) ys = (refl, IsPrefix-append xs ys)

pub IsPrefix-trans :
    {A : Type 0} (xs ys zs : List A) → IsPrefix xs ys → IsPrefix ys zs → IsPrefix xs zs
unfolding IsPrefix
IsPrefix-trans [] ys zs h k = tt
IsPrefix-trans (x ∷ xs) [] zs h k = elim h [ ]
IsPrefix-trans (x ∷ xs) (y ∷ ys) [] h k = elim k [ ]
IsPrefix-trans (x ∷ xs) (y ∷ ys) (z ∷ zs) h k = (h.0 ∙ k.0, IsPrefix-trans xs ys zs h.1 k.1)

module _ (F : Type 0) (calls : PayloadCalls) (agent intent : String)
    (sources : List (String × Note F)) where
  layers_left-append :
      (xs ys : List (RetrievalItem F))
      → layers_left F calls agent intent sources (xs ++ ys)
        ≡ layers_left F calls agent intent sources xs + layers_left F calls agent intent sources ys
  unfolding layers_left
  layers_left-append [] ys = omega arith
  layers_left-append (x ∷ xs) ys = omega (arith, layers_left-append xs ys)

  -- An item at a lower layer, of the same identity.
  pub record Lower (entry smaller : RetrievalItem F) (layer : ℕ) : Type 0 where
    pub below : smaller.layer < layer
    pub same_id : smaller.id ≡ entry.id

  shrink_below-Lower :
      (note : Note F) (entry smaller : RetrievalItem F) (layer : ℕ)
      → shrink_below F calls agent intent sources note entry layer ≡ some smaller
      → Lower entry smaller layer
  unfolding shrink_below reduced revise
  shrink_below-Lower note entry smaller zero h = cc
  shrink_below-Lower note entry smaller (suc layer) h =
      let seen = smaller_view F calls agent intent sources note layer (calls.count entry.body) in
      elim (if_cases (is_set seen.1 && leb seen.0 layer)
        (some (reduced F calls agent intent sources note entry seen.0 seen.1))
        (shrink_below F calls agent intent sources note entry layer) h) [
          | inl (e, p) ↦
              subst (λ o. found o) p
                (record {
                  below =
                      omega (
                        arith,
                        leb→le seen.0 layer (&&_iff (is_set seen.1) (leb seen.0 layer) e).1,
                      );
                  same_id = refl;
                })
          | inr (e, p) ↦
              let l = shrink_below-Lower note entry smaller layer p in
              record { below = omega (arith, l.below); same_id = l.same_id }
        ]
    where
      found : Option (RetrievalItem F) → Type 0
      found none = Unit {0}
      found (some s) = Lower entry s (suc layer)

  -- Two manifests with the same items, labels and budget.
  pub record Alike (m after : RetrievalManifest F) : Type 0 where
    pub items : after.items ≡ m.items
    pub label : after.label_missing ≡ m.label_missing
    pub budget : after.budget ≡ m.budget

  AlikeResult : RetrievalManifest F → Result (RetrievalManifest F × List Fields) → Type 0
  AlikeResult m (ok (after, excluded)) = Alike m after
  AlikeResult m (raise e) = Unit {0}

  assessed_again-Alike :
      (excluded : List Fields) (m : RetrievalManifest F) (t : RetrievalManifest F × List Fields)
      → assessed_again F calls agent intent sources excluded m ≡ ok t
      → Alike m t.0
  unfolding assessed_again with_sufficiency AlikeResult
  assessed_again-Alike excluded m t h =
      subst (AlikeResult m) h (by_notes (selected_notes F calls agent intent sources m.items))
    where
      by_notes :
          (r : Result (List (Note F × String)))
          → AlikeResult m (
              r >>= λ selected.
              ok (with_sufficiency F calls agent intent sources m selected, excluded))
      by_notes (ok selected) = record { items = refl; label = refl; budget = refl }
      by_notes (raise e) = tt

  pub shrink-Lower :
      (entry smaller : RetrievalItem F)
      → shrink F calls agent intent sources entry ≡ ok (some smaller)
      → Lower entry smaller entry.layer
  unfolding shrink
  shrink-Lower entry smaller h = elim (Bool-cases (eqb entry.layer 0)) [
    | inl e ↦ let h' = rw e at h in cc
    | inr e ↦ by_note (lookup entry.id sources) (rw e at h)
  ]
    where
      by_note :
          (o : Option (Note F))
          → shrink_with F calls agent intent sources entry o ≡ ok (some smaller)
          → Lower entry smaller entry.layer
      by_note none h = cc
      by_note (some note) h = shrink_below-Lower note entry smaller entry.layer (ok_inj h)

  unfoldable pub ids : List (RetrievalItem F) → List String
  ids [] = []
  ids (entry ∷ entries) = entry.id ∷ ids entries

  ids-append : (xs ys : List (RetrievalItem F)) → ids (xs ++ ys) ≡ ids xs ++ ids ys
  unfolding ids
  ids-append [] ys = refl
  ids-append (x ∷ xs) ys = ap (λ zs. x.id ∷ zs) (ids-append xs ys)

  -- Less to cut, the same budget, and the first of the items.
  pub record Smaller (m after : RetrievalManifest F) : Type 0 where
    pub fewer :
        cuts_left F calls agent intent sources after < cuts_left F calls agent intent sources m
    pub budget : after.budget ≡ m.budget
    pub first : IsPrefix (ids after.items) (ids m.items)

  cut_last-Smaller :
      (m : RetrievalManifest F) (excluded : List Fields) (front : List (RetrievalItem F))
      (end : RetrievalItem F) (o : Option (RetrievalItem F)) (t : RetrievalManifest F × List Fields)
      → m.items ≡ front ++ end ∷ []
      → shrink F calls agent intent sources end ≡ ok o
      → cut_last F calls agent intent sources m excluded front end o ≡ ok t
      → Smaller m t.0
  unfolding cut_last cuts_left layers_left ids
  cut_last-Smaller m excluded front end (some smaller) t p s h =
      let l = shrink-Lower end smaller s in
      let a = assessed_again-Alike excluded (record m { items = front ++ smaller ∷ [] }) t h in
      let before = layers_left-append front (end ∷ []) in
      let after = layers_left-append front (smaller ∷ []) in
      record {
        fewer = rw (a.items, a.label, p) (omega (arith, l.below, before, after));
        budget = a.budget;
        first =
            rw (a.items, p, ids-append front (smaller ∷ []), ids-append front (end ∷ []), l.same_id)
              (IsPrefix-refl (ids front ++ end.id ∷ []));
      }
  cut_last-Smaller m excluded front end none t p s h =
      let a =
        assessed_again-Alike (excluded ++ budget_exclusion F calls agent intent sources end ∷ [])
          (record m { items = front }) t h in
      let before = layers_left-append front (end ∷ []) in
      record {
        fewer = rw (a.items, a.label, p) (omega (arith, before));
        budget = a.budget;
        first =
            rw (a.items, p, ids-append front (end ∷ []))
              (IsPrefix-append (ids front) (end.id ∷ []));
      }

  pub cut-Smaller :
      (m : RetrievalManifest F) (excluded : List Fields) (t : RetrievalManifest F × List Fields)
      → is_over F calls agent intent sources (m, excluded) ≡ true
      → cut F calls agent intent sources (m, excluded) ≡ ok t
      → Smaller m t.0
  unfolding cut cut_items cuts_left is_over
  cut-Smaller m excluded t over h =
      elim (if_cases (m.label_missing && non_empty m.missing_evidence)
        (ok (record m { label_missing = false }, excluded))
        (cut_items F calls agent intent sources m excluded (split_last m.items)) h) [
          | inl (e, p) ↦
              subst (λ (r : RetrievalManifest F × List Fields). Smaller m r.0) (ok_inj p)
                (record {
                  fewer =
                      rw ((&&_iff m.label_missing (non_empty m.missing_evidence) e).0)
                        (omega arith);
                  budget = refl;
                  first = IsPrefix-refl (ids m.items);
                })
          | inr (e, p) ↦ by_end (split_last m.items) refl p
        ]
    where
      empty_over : m.items ≡ [] → ⊥
      empty_over q = let over' = rw q at over in cc

      by_end :
          (o : Option (List (RetrievalItem F) × RetrievalItem F))
          → split_last m.items ≡ o
          → cut_items F calls agent intent sources m excluded o ≡ ok t
          → Smaller m t.0
      by_end none q h = elim (empty_over (split_last-none m.items q)) [ ]
      by_end (some (front, end)) q h =
          let (o, (shrunk, last)) =
            bind_ok (shrink F calls agent intent sources end)
              (cut_last F calls agent intent sources m excluded front end) t h in
          cut_last-Smaller m excluded front end o t (split_last-append m.items front end q) shrunk
            last
