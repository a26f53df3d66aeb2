-- ===== src/Prelude/Dicts.antt =====
-- Python's `dict` in insertion order.
use mathlib.Core.Path.{◌≡◌, refl}
use mathlib.Core.Option.{Option, none, some}
use mathlib.Core.List.{List, [], ◌∷◌}
use native.Mathlib.Omega.{arith}
use autonomic_obsidian_kb.Prelude.Tests.{if◌then◌else◌, is_some, Bool-cases}
use autonomic_obsidian_kb.Prelude.Lists.{any, is_in, Distinct, All, In, here, there}
use mathlib.Core.Logic.{inl, inr}
use autonomic_obsidian_kb.Prelude.Equality.{Eq, ◌==◌, eq_iff, eq_refl}

module _ {ℓ} {K V : Type ℓ} ⦃e : Eq K⦄ where
  -- d.get(k)
  unfoldable pub lookup : K → List (K × V) → Option V
  lookup k [] = none
  lookup k ((j, v) ∷ d) = if j == k then some v else lookup k d

  -- d[k] = v: a key that is there keeps its place
  unfoldable pub insert : K → V → List (K × V) → List (K × V)
  insert k v [] = (k, v) ∷ []
  insert k v ((j, w) ∷ d) = if j == k then (k, v) ∷ d else (j, w) ∷ insert k v d

  -- d.pop(k, None)
  unfoldable pub remove : K → List (K × V) → List (K × V)
  remove k [] = []
  remove k ((j, v) ∷ d) = let rest = remove k d in if j == k then rest else (j, v) ∷ rest

  unfoldable pub keys : List (K × V) → List K
  keys [] = []
  keys ((j, v) ∷ d) = j ∷ keys d

  pub lookup-insert :
      (k j : K) (v : V) (d : List (K × V))
      → lookup j (insert k v d) ≡ (if k == j then some v else lookup j d)
  unfolding lookup insert
  lookup-insert k j v [] = refl
  lookup-insert k j v ((i, w) ∷ d) =
      ground (arith, eq_iff k j, eq_iff i k, eq_iff i j, lookup-insert k j v d)

  pub lookup-insert_self : (k : K) (v : V) (d : List (K × V)) → lookup k (insert k v d) ≡ some v
  lookup-insert_self k v d = ground (arith, lookup-insert k k v d, eq_refl k)

  pub lookup-remove :
      (k j : K) (d : List (K × V)) → lookup j (remove k d) ≡ (if k == j then none else lookup j d)
  unfolding lookup remove
  lookup-remove k j [] = ground arith
  lookup-remove k j ((i, w) ∷ d) =
      ground (arith, eq_iff k j, eq_iff i k, eq_iff i j, lookup-remove k j d)

  pub is_in-keys : (k : K) (d : List (K × V)) → is_in k (keys d) ≡ is_some (lookup k d)
  unfolding keys lookup
  is_in-keys k [] = refl
  is_in-keys k ((j, w) ∷ d) = ground (arith, eq_iff k j, eq_iff j k, is_in-keys k d)

  pub any-keys : (k : K) (d : List (K × V)) → any (λ e. e.0 == k) d ≡ is_in k (keys d)
  unfolding keys
  any-keys k [] = refl
  any-keys k ((j, w) ∷ d) = ground (arith, eq_iff k j, eq_iff j k, any-keys k d)

  pub In-insert : (k : K) (v : V) (d : List (K × V)) → In (k, v) (insert k v d)
  unfolding insert
  In-insert k v [] = here
  In-insert k v ((j, w) ∷ d) = elim (Bool-cases (j == k)) [
    | inl e ↦ rw e here
    | inr e ↦ rw e (there (In-insert k v d))
  ]

  pub Distinct-insert :
      (k : K) (v : V) (d : List (K × V)) → Distinct (keys d) → Distinct (keys (insert k v d))
  unfolding keys insert
  Distinct-insert k v [] h = (refl, tt)
  Distinct-insert k v ((j, w) ∷ d) h = elim (Bool-cases (j == k)) [
    | inl e ↦ rw e (rw (← (eq_iff j k).0 e) h)
    | inr e ↦ rw e (
        (
          ground (
            arith,
            is_in-keys j (insert k v d),
            lookup-insert k j v d,
            is_in-keys j d,
            eq_iff j k,
            eq_iff k j,
          ),
          Distinct-insert k v d h.1,
        ))
  ]

  pub Distinct-remove :
      (k : K) (d : List (K × V)) → Distinct (keys d) → Distinct (keys (remove k d))
  unfolding keys remove
  Distinct-remove k [] h = tt
  Distinct-remove k ((j, w) ∷ d) h = elim (Bool-cases (j == k)) [
    | inl e ↦ rw e (Distinct-remove k d h.1)
    | inr e ↦ rw e (
        (
          ground (arith, is_in-keys j (remove k d), lookup-remove k j d, is_in-keys j d),
          Distinct-remove k d h.1,
        ))
  ]

module _ {ℓ κ} {K V : Type ℓ} ⦃e : Eq K⦄ (P : K × V → Type κ) where
  pub All-insert : (k : K) (v : V) (d : List (K × V)) → P (k, v) → All P d → All P (insert k v d)
  unfolding insert
  All-insert k v [] h hs = (h, tt)
  All-insert k v ((j, w) ∷ d) h hs = elim (Bool-cases (j == k)) [
    | inl e ↦ rw e (h, hs.1)
    | inr e ↦ rw e (hs.0, All-insert k v d h hs.1)
  ]
