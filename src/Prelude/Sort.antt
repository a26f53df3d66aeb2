-- ===== src/Prelude/Sort.antt =====
-- `sorted`: a stable insertion sort by a Boolean order.
use mathlib.Core.Bool.{Bool}
use mathlib.Core.List.{List, [], ◌∷◌}
use autonomic_obsidian_kb.Prelude.Tests.{if◌then◌else◌, Bool-cases}
use autonomic_obsidian_kb.Prelude.Lists.{All, any, In, here, there, All-map, In-All}
use mathlib.Core.Path.{◌≡◌, refl, ◌∙◌, ap, subst}
use mathlib.Core.Bool.{◌||◌}
use native.Mathlib.Omega.{arith}
use native.Mathlib.Nat.{le_trans}
use Prim.Native.Nat.{ℕ, ◌≤◌, ◌<◌}
use mathlib.Core.Bool.{true, false}
use mathlib.Core.Option.{Option, none, some}
use mathlib.Core.Logic.{◌⊎◌}
use mathlib.Core.Logic.{inl, inr}

module _ {ℓ} {A : Type ℓ} (before : A → A → Bool) where
  -- puts `x` in front of the first element that `x` does not follow
  unfoldable pub insert : A → List A → List A
  insert x [] = x ∷ []
  insert x (y ∷ ys) = if before x y then x ∷ y ∷ ys else y ∷ insert x ys

  unfoldable pub sort : List A → List A
  unfolding insert
  sort [] = []
  sort (x ∷ xs) = insert x (sort xs)

  module _ {κ} (P : A → Type κ) where
    All-insert : (x : A) (xs : List A) → P x → All P xs → All P (insert x xs)
    unfolding insert
    All-insert x [] h hs = (h, tt)
    All-insert x (y ∷ ys) h hs = elim (Bool-cases (before x y)) [
      | inl e ↦ rw e (h, hs)
      | inr e ↦ rw e (hs.0, All-insert x ys h hs.1)
    ]

    pub All-sort : (xs : List A) → All P xs → All P (sort xs)
    unfolding sort
    All-sort [] h = tt
    All-sort (x ∷ xs) h = All-insert x (sort xs) h.0 (All-sort xs h.1)

  In-later :
      (z x y : A) (ys : List A)
      → (In z (x ∷ ys) → In z (insert x ys))
      → In z (x ∷ y ∷ ys)
      → In z (y ∷ insert x ys)
  In-later z x y ys f here = there (f here)
  In-later z x y ys f (there here) = here
  In-later z x y ys f (there (there i)) = there (f (there i))

  In-insert : (z x : A) (xs : List A) → In z (x ∷ xs) → In z (insert x xs)
  unfolding insert
  In-insert z x [] i = i
  In-insert z x (y ∷ ys) i = elim (Bool-cases (before x y)) [
    | inl e ↦ rw e i
    | inr e ↦ rw e (In-later z x y ys (In-insert z x ys) i)
  ]

  pub In-sort : (z : A) (xs : List A) → In z xs → In z (sort xs)
  unfolding sort
  In-sort z [] i = i
  In-sort z (x ∷ xs) here = In-insert z x (sort xs) here
  In-sort z (x ∷ xs) (there i) = In-insert z x (sort xs) (there (In-sort z xs i))

  module _ (p : A → Bool) where
    any-insert : (x : A) (xs : List A) → any p (insert x xs) ≡ (p x || any p xs)
    unfolding insert
    any-insert x [] = refl
    any-insert x (y ∷ ys) = ground (arith, any-insert x ys)

    -- Sorting changes no membership.
    pub any-sort : (xs : List A) → any p (sort xs) ≡ any p xs
    unfolding sort
    any-sort [] = refl
    any-sort (x ∷ xs) = any-insert x (sort xs) ∙ rw (any-sort xs) refl

-- xs[-1] if xs else None
unfoldable pub last {ℓ} : {A : Type ℓ} → List A → Option A
last [] = none
last (x ∷ []) = some x
last (x ∷ y ∷ ys) = last (y ∷ ys)

-- A sort whose test agrees with a rank ends with an element of the largest rank.
module _ {ℓ} {A : Type ℓ} (before : A → A → Bool) (rank : A → ℕ)
    (up : (x y : A) → before x y ≡ true → rank x ≤ rank y)
    (down : (x y : A) → before x y ≡ false → rank y ≤ rank x) where
  Under : A → A → Type 0
  Under w x = rank x ≤ rank w

  InsertLast : A → A → List A → Type ℓ
  InsertLast x w ys =
      ((last (insert before x ys) ≡ some w) × Under w x)
      ⊎ ((last (insert before x ys) ≡ some x) × Under x w)

  insert_more :
      (x y : A) (ys : List A) → (z : A) × (zs : List A) × (insert before x (y ∷ ys) ≡ z ∷ zs)
  unfolding insert
  insert_more x y ys = elim (Bool-cases (before x y)) [
    | inl e ↦ (x, y ∷ ys, rw e refl)
    | inr e ↦ (y, insert before x ys, rw e refl)
  ]

  insert_cons :
      (x y : A) (ys : List A)
      → before x y ≡ false
      → insert before x (y ∷ ys) ≡ y ∷ insert before x ys
  unfolding insert
  insert_cons x y ys t = rw t refl

  last_cons : (y z : A) (zs : List A) → last (y ∷ z ∷ zs) ≡ last (z ∷ zs)
  unfolding last
  last_cons y z zs = refl

  last_after :
      (y : A) (x : A) (v : A) (ys : List A)
      → last (y ∷ insert before x (v ∷ ys)) ≡ last (insert before x (v ∷ ys))
  last_after y x v ys = let (z, zs, e) = insert_more x v ys in rw (e, last_cons y z zs) refl

  last_step :
      (x y v : A) (ys : List A)
      → before x y ≡ false
      → last (insert before x (y ∷ v ∷ ys)) ≡ last (insert before x (v ∷ ys))
  last_step x y v ys t = ap last (insert_cons x y (v ∷ ys) t) ∙ last_after y x v ys

  insert_last : (x w : A) (ys : List A) → last ys ≡ some w → All (Under w) ys → InsertLast x w ys
  unfolding insert last InsertLast Under
  insert_last x w [] e h = cc
  insert_last x w (y ∷ []) e h = elim (Bool-cases (before x y)) [
    | inl t ↦ let p : y ≡ w = cc in rw t (inl (e, le_trans (up x y t) h.0))
    | inr t ↦ let p : y ≡ w = cc in rw t (inr (refl, rw (← p) (down x y t)))
  ]
  insert_last x w (y ∷ v ∷ ys) e h = elim (Bool-cases (before x y)) [
    | inl t ↦ rw t (inl (e, le_trans (up x y t) h.0))
    | inr t ↦ elim (insert_last x w (v ∷ ys) e h.1) [
      | inl (a, b) ↦ inl (last_step x y v ys t ∙ a, b)
      | inr (a, b) ↦ inr (last_step x y v ys t ∙ a, b)
    ]
  ]

  Bounded : List A → Type ℓ
  Bounded xs = (xs ≡ []) ⊎ ((w : A) × (last (sort before xs) ≡ some w) × All (Under w) xs)

  weaken : (v w : A) (xs : List A) → rank v ≤ rank w → All (Under v) xs → All (Under w) xs
  unfolding Under
  weaken v w xs h = All-map (Under v) (Under w) xs (λ x k. le_trans k h)

  last_single : (x : A) → last (insert before x []) ≡ some x
  unfolding last insert
  last_single x = refl

  self : (x : A) → Under x x
  unfolding Under
  self x = omega arith

  Bounded-step : (x : A) (xs : List A) → Bounded xs → Bounded (x ∷ xs)
  unfolding Bounded sort InsertLast Under
  Bounded-step x xs (inl e) = rw e (inr (x, last_single x, (self x, tt)))
  Bounded-step x xs (inr (w, e, h)) =
      elim (insert_last x w (sort before xs) e (All-sort before (Under w) xs h)) [
        | inl (a, b) ↦ inr (w, a, (b, h))
        | inr (a, b) ↦ inr (x, a, (self x, weaken w x xs b h))
      ]

  bounded : (xs : List A) → Bounded xs
  unfolding Bounded
  bounded [] = inl refl
  bounded (x ∷ xs) = Bounded-step x xs (bounded xs)

  absurd : (w m : A) → Under w m → rank w < rank m → ⊥
  unfolding Under
  absurd w m h p = omega arith

  last_All {κ} : (P : A → Type κ) (xs : List A) (w : A) → last xs ≡ some w → All P xs → P w
  unfolding last
  last_All P [] w e h = cc
  last_All P (x ∷ []) w e h = let p : x ≡ w = cc in subst P p h.0
  last_All P (x ∷ y ∷ ys) w e h = last_All P (y ∷ ys) w e h.1

  -- An element that outranks every other element of the list is the last of the sorted list.
  pub last_of_sort :
      (m : A) (xs : List A)
      → In m xs
      → All (λ x. (x ≡ m) ⊎ (rank x < rank m)) xs
      → last (sort before xs) ≡ some m
  unfolding Bounded
  last_of_sort m [] i h = elim i [ ]
  last_of_sort m (x ∷ xs) i h = elim (bounded (x ∷ xs)) [
    | inl e ↦ cc
    | inr (w, e, k) ↦
        elim (last_All (λ y. (y ≡ m) ⊎ (rank y < rank m)) (sort before (x ∷ xs)) w e
          (All-sort before (λ y. (y ≡ m) ⊎ (rank y < rank m)) (x ∷ xs) h)) [
            | inl p ↦ e ∙ ap some p
            | inr p ↦ elim (absurd w m (In-All (Under w) m (x ∷ xs) i k) p) [ ]
          ]
  ]

  -- The last of a sorted list bounds the list.
  pub sorted_bound :
      (xs : List A)
      → (xs ≡ []) ⊎ ((w : A) × (last (sort before xs) ≡ some w) × All (λ x. rank x ≤ rank w) xs)
  unfolding Bounded Under
  sorted_bound xs = bounded xs
