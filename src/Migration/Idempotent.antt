-- ===== src/Migration/Idempotent.antt =====
-- What `migrate_metadata` of migrations.py changes, and what it leaves.
use autonomic_obsidian_kb.Prelude.{
  ℕ, String, ◌≡◌, refl, sym, ap, ◌∙◌, subst, ◌≢◌, ◌⊎◌, inl, inr, true, false, Option, none, some,
  List, [], ltb, if◌then◌else◌, Bool-cases, Option-cases, if_cases, ◌==◌, ne_of_test, test_of_ne,
  nat_eq, string_eq, list_eq, Result, ◌>>=◌, ok, raise, ◌>>=◌, ok_inj,
}
use autonomic_obsidian_kb.Models.Json.{
  Value, Fields, get, has, set, truthy, get-set_self, get-set_other,
}
use autonomic_obsidian_kb.Models.Json.Value.{flag, num}
use autonomic_obsidian_kb.Migration.Metadata.{
  set_missing, version_of, upgrade, set_authorization, migrate_metadata,
}

-- A dict has a value at a key.
record Has (key : String) (w : Value) (d : Fields) : Type 0 where
  at : get key d ≡ some w

set_keeps :
    (key k : String) (v : Value) (d : Fields) {w : Value}
    → (k == key) ≡ false
    → Has key w d
    → Has key w (set k v d)
set_keeps key k v d e h = record { at = get-set_other k key v d e ∙ h.at }

-- A value that is there stays.
set_missing_keeps :
    (key k : String) (v : Value) (p : Fields × List String) {w : Value}
    → Has key w p.0
    → Has key w (set_missing k v p).0
unfolding set_missing has
set_missing_keeps key k v p h = record {
  at = elim (Option-cases (get k p.0)) [
    | inl e ↦ rw e (get-set_other k key v p.0 (test_of_ne k key (differ e)) ∙ h.at)
    | inr (x, e) ↦ rw e (h.at)
  ];
}
  where
    differ : get k p.0 ≡ none → k ≢ key
    differ e q = let e' : get key p.0 ≡ none = rw (← q) e in let h' = h.at in cc

authorization_keeps :
    (key memory_type : String) (p : Fields × List String) {w : Value}
    → Has key w p.0
    → Has key w (set_authorization memory_type p).0
unfolding set_authorization
authorization_keeps key memory_type p h = elim (Bool-cases (memory_type == "agent-instruction")) [
  | inl e ↦ rw e (set_missing_keeps key "authorized_instruction" (flag false) p h)
  | inr e ↦ rw e h
]

flip : (a b : String) → (a == b) ≡ false → (b == a) ≡ false
flip a b e = test_of_ne b a (λ p. ne_of_test a b e (sym p))

module _ (render : Value → String) (to_int : Value → Result ℕ) (utc_now : String) (d : Fields) where
  -- What a value of the dict with the version set meets in the rest of the upgrade.
  upgrade_rest :
      (key : String) {w : Value}
      → (key == "updated") ≡ false
      → Has key w (set "schema_version" (num false "2") d)
      → Has key w (upgrade render to_int utc_now d).0
  unfolding upgrade
  upgrade_rest key u h = set_keeps key "updated" _ _ (flip key "updated" u) (
      authorization_keeps key _ _ (
        set_missing_keeps key "taint" _ _
          (set_missing_keeps key "validity" _ _ (set_missing_keeps key "kind" _ _ h))))

  versioned : Has "schema_version" (num false "2") (upgrade render to_int utc_now d).0
  versioned =
      upgrade_rest "schema_version" refl
        (record { at = get-set_self "schema_version" (num false "2") d })

  -- The two ways through `migrate_metadata`.
  Ways : Fields × List String → Type 0
  Ways out =
      ((n : ℕ) × (version_of render to_int d ≡ ok n)
        × (((ltb n 2 ≡ true) × (upgrade render to_int utc_now d ≡ out))
            ⊎ ((ltb n 2 ≡ false) × ((d, []) ≡ out))))

  ways : (out : Fields × List String) → migrate_metadata render to_int utc_now d ≡ ok out → Ways out
  unfolding migrate_metadata Ways
  ways out h = by_version (version_of render to_int d) h
    where
      by_version :
          (r : Result ℕ)
          → (r >>= λ n. ok (if ltb n 2 then upgrade render to_int utc_now d else (d, []))) ≡ ok out
          → (n : ℕ) × (r ≡ ok n)
            × (((ltb n 2 ≡ true) × (upgrade render to_int utc_now d ≡ out))
                ⊎ ((ltb n 2 ≡ false) × ((d, []) ≡ out)))
      by_version (ok n) h =
          (n, refl, if_cases (ltb n 2) (upgrade render to_int utc_now d) (d, []) (ok_inj h))
      by_version (raise e) h = cc

module _ (render : Value → String) (to_int : Value → Result ℕ) where
  migrate_answer :
      (utc_now : String) (d : Fields) (n : ℕ)
      → version_of render to_int d ≡ ok n
      → migrate_metadata render to_int utc_now d
        ≡ ok (if ltb n 2 then upgrade render to_int utc_now d else (d, []))
  unfolding migrate_metadata
  migrate_answer utc_now d n h =
      ap
        (λ (r : Result ℕ).
          r >>= λ m. ok (if ltb m 2 then upgrade render to_int utc_now d else (d, [])))
        h

  current_version :
      (d : Fields) (m : ℕ)
      → to_int (num false "2") ≡ ok m
      → get "schema_version" d ≡ some (num false "2")
      → version_of render to_int d ≡ ok m
  unfolding version_of truthy
  current_version d m e h = ap version h ∙ e
    where
      version : Option Value → Result ℕ
      version none = ok 1
      version (some v) = if truthy v then to_int v else ok 1

  migrate_current :
      (utc_now : String) (d : Fields) (n : ℕ)
      → version_of render to_int d ≡ ok n
      → ltb n 2 ≡ false
      → migrate_metadata render to_int utc_now d ≡ ok (d, [])
  migrate_current utc_now d n h e = migrate_answer utc_now d n h ∙ rw e refl

-- Metadata whose version is a number migrates, and migrating the outcome again changes nothing, where
-- int(2) is 2.
pub migrate_metadata_idempotent :
    (render : Value → String) (to_int : Value → Result ℕ) (utc_now later : String) (d : Fields)
    (n : ℕ)
    → to_int (num false "2") ≡ ok 2
    → version_of render to_int d ≡ ok n
    → (out : Fields × List String) × (migrate_metadata render to_int utc_now d ≡ ok out)
      × (migrate_metadata render to_int later out.0 ≡ ok (out.0, []))
migrate_metadata_idempotent render to_int utc_now later d n two h = elim (Bool-cases (ltb n 2)) [
  | inl e ↦ (
    upgrade render to_int utc_now d,
    migrate_answer render to_int utc_now d n h ∙ rw e refl,
    migrate_current render to_int later (upgrade render to_int utc_now d).0 2
        (current_version render to_int (upgrade render to_int utc_now d).0 2 two
          (versioned render to_int utc_now d).at)
        refl,
  )
  | inr e ↦ (
    (d, []),
    migrate_current render to_int utc_now d n h e,
    migrate_current render to_int later d n h e,
  )
]

-- A value of the metadata at any key but schema_version and updated is the same after the migration.
pub migrate_metadata_keeps :
    (render : Value → String) (to_int : Value → Result ℕ) (utc_now key : String) (d : Fields)
    (w : Value) (out : Fields × List String)
    → (key == "schema_version") ≡ false
    → (key == "updated") ≡ false
    → get key d ≡ some w
    → migrate_metadata render to_int utc_now d ≡ ok out
    → get key out.0 ≡ some w
unfolding Ways
migrate_metadata_keeps render to_int utc_now key d w out s u h done =
    elim ((ways render to_int utc_now d out done).2) [
      | inl (e, p) ↦
          subst (λ (o : Fields × List String). get key o.0 ≡ some w) p
            (upgrade_rest render to_int utc_now d key u (
              set_keeps key "schema_version" (num false "2") d (flip key "schema_version" s)
                (record { at = h }))).at
      | inr (e, p) ↦ subst (λ (o : Fields × List String). get key o.0 ≡ some w) p h
    ]
