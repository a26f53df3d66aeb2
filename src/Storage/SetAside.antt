-- ===== src/Storage/SetAside.antt =====
-- The first loop of `_restore`: the files that the table does not name are moved out of the notes.
use autonomic_obsidian_kb.Prelude.{
  ℕ, String, ◌≡◌, refl, sym, ◌∙◌, inl, inr, true, false, not, ◌&&◌, none, some, List, [], ◌∷◌,
  arith, if◌then◌else◌, Bool-cases, Option-cases, is_some, ◌==◌, eq_iff, eq_refl, eq_of_test,
  nat_eq, string_eq, list_eq, All, is_in, Distinct, remove, keys, lookup-insert, lookup-remove,
  Distinct-insert, Distinct-remove, ok,
}
use autonomic_obsidian_kb.Storage.Disk.{FilePath, Disk, find, bind, unlink}
use autonomic_obsidian_kb.Storage.Walk.{is_semantic}
use autonomic_obsidian_kb.Storage.Journal.{Recorded}
use autonomic_obsidian_kb.Storage.Transaction.{
  snapshot_path, rolled_back_path, set_aside, set_aside_new,
}
use autonomic_obsidian_kb.Storage.Facts.{
  rolled_back-ne, ne-snapshot, rolled_back-ne-snapshot, rolled_back_path-injective,
}
use autonomic_obsidian_kb.Storage.Snapshot.{IsSound}

module _ (identity : String) where
  -- The disk after one file was moved.
  aside : FilePath → ℕ → Disk → Disk
  aside p i d = bind (rolled_back_path identity p) i (unlink p d)

  set_aside-aside :
      (p : FilePath) (i : ℕ) (d : Disk)
      → is_semantic p ≡ true
      → find d p ≡ some i
      → set_aside identity p d ≡ ok (aside p i d)
  unfolding set_aside aside
  set_aside-aside p i d s h = ground (
    arith,
    rolled_back-ne identity p p s,
    eq_iff p (rolled_back_path identity p),
    eq_iff (rolled_back_path identity p) p,
  )

  find-aside :
      (p q : FilePath) (i : ℕ) (d : Disk)
      → find (aside p i d) q
        ≡ (if rolled_back_path identity p == q then some i else if p == q then none else find d q)
  unfolding find aside bind unlink
  find-aside p q i d =
      lookup-insert (rolled_back_path identity p) q i (remove p d.names)
      ∙ rw (lookup-remove p q d.names) refl

  aside-IsSound :
      (p : FilePath) (i : ℕ) (d : Disk) → find d p ≡ some i → IsSound d → IsSound (aside p i d)
  aside-IsSound p i d h s = record {
    distinct =
        unfold aside bind unlink in
        Distinct-insert (rolled_back_path identity p) i (remove p d.names)
          (Distinct-remove p d.names s.distinct);
    bounded = λ q j e.
        unfold aside bind unlink in
        ground (arith, find-aside p q i d, s.bounded p i h, s.bounded q j);
  }

  -- What the loop leaves behind.
  pub record Cleared (files : Recorded) (ps : List FilePath) (d : Disk) : Type 0 where
    pub disk : Disk
    pub runs : set_aside_new identity files ps d ≡ ok disk
    pub sound : IsSound disk
    pub content : disk.content ≡ d.content
    pub next : disk.next ≡ d.next
    pub hard_links : disk.hard_links ≡ d.hard_links
    pub saved :
        (q : FilePath) → find disk (snapshot_path identity q) ≡ find d (snapshot_path identity q)
    pub notes :
        (q : FilePath)
        → is_semantic q ≡ true
        → find disk q ≡ (if is_in q ps && not (is_in q (keys files)) then none else find d q)
    pub moved :
        (q : FilePath)
        → is_semantic q ≡ true
        → is_in q ps ≡ true
        → is_in q (keys files) ≡ false
        → find disk (rolled_back_path identity q) ≡ find d q
    pub others :
        (q : FilePath)
        → is_in q ps ≡ false
        → find disk (rolled_back_path identity q) ≡ find d (rolled_back_path identity q)

  abbrev pub IsThere : Disk → FilePath → Type 0
  IsThere d p = (is_semantic p ≡ true) × (is_some (find d p) ≡ true)

  rest-IsThere :
      (p : FilePath) (i : ℕ) (d : Disk) (ps : List FilePath)
      → is_in p ps ≡ false
      → All (IsThere d) ps
      → All (IsThere (aside p i d)) ps
  rest-IsThere p i d [] apart h = tt
  rest-IsThere p i d (q ∷ qs) apart ((s, here_now), rest) = (
    (s, ground (arith, find-aside p q i d, rolled_back-ne identity p q s, eq_iff p q, here_now)),
    rest-IsThere p i d qs (ground arith) rest,
  )

  pub set_aside_new-Cleared :
      (files : Recorded) (ps : List FilePath) (d : Disk)
      → IsSound d
      → Distinct ps
      → All (IsThere d) ps
      → Cleared files ps d
  unfolding set_aside_new
  set_aside_new-Cleared files [] d s h _ = record {
    disk = d;
    runs = refl;
    sound = s;
    content = refl;
    next = refl;
    hard_links = refl;
    saved = λ q. refl;
    notes = λ q k. refl;
    moved = λ q k m. absurd (ground arith);
    others = λ q m. refl;
  }
  set_aside_new-Cleared files (p ∷ ps) d s h ((protected, here_now), rest) =
      elim (Bool-cases (is_in p (keys files))) [
        | inl known ↦
            let ih = set_aside_new-Cleared files ps d s h.1 rest in
            record {
              disk = ih.disk;
              runs = rw known ih.runs;
              sound = ih.sound;
              content = ih.content;
              next = ih.next;
              hard_links = ih.hard_links;
              saved = ih.saved;
              notes = λ q k. ih.notes q k ∙ ground (arith, eq_iff q p);
              moved = λ q k m u. ih.moved q k (ground (arith, eq_iff q p)) u;
              others = λ q m. ih.others q (ground arith);
            }
        | inr new ↦ elim (Option-cases (find d p)) [
          | inl e ↦ absurd (ground arith)
          | inr (i, e) ↦
              let ih =
                set_aside_new-Cleared files ps (aside p i d) (aside-IsSound p i d e s) h.1
                  (rest-IsThere p i d ps h.0 rest) in
              record {
                disk = ih.disk;
                runs = rw (new, set_aside-aside p i d protected e) ih.runs;
                sound = ih.sound;
                content = ih.content ∙ unfold aside bind unlink in refl;
                next = ih.next ∙ unfold aside bind unlink in refl;
                hard_links = ih.hard_links ∙ unfold aside bind unlink in refl;
                saved = λ q.
                    ih.saved q
                    ∙ find-aside p (snapshot_path identity q) i d
                    ∙ ground (
                      arith,
                      rolled_back-ne-snapshot identity p identity q,
                      ne-snapshot identity q p protected,
                    );
                notes = λ q k.
                    ih.notes q k
                    ∙ ground (
                      arith,
                      find-aside p q i d,
                      rolled_back-ne identity p q k,
                      eq_iff p q,
                      eq_iff q p,
                    );
                moved = λ q k m u. elim (Bool-cases (q == p)) [
                  | inl same ↦
                      let z = eq_of_test q p same in
                      rw z (
                        ih.others p h.0
                        ∙ find-aside p (rolled_back_path identity p) i d
                        ∙ rw eq_refl (sym e))
                  | inr other ↦
                      ih.moved q k (ground arith) u
                      ∙ find-aside p q i d
                      ∙ ground (arith, rolled_back-ne identity p q k, eq_iff p q, eq_iff q p)
                ];
                others = λ q m.
                    ih.others q (ground arith)
                    ∙ find-aside p (rolled_back_path identity q) i d
                    ∙ ground (
                      arith,
                      eq_iff (rolled_back_path identity p) (rolled_back_path identity q),
                      rolled_back_path-injective identity p q,
                      eq_iff q p,
                      rolled_back-ne identity q p protected,
                      eq_iff p (rolled_back_path identity q),
                      eq_iff (rolled_back_path identity q) p,
                    );
              }
        ]
      ]
