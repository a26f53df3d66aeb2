-- ===== src/Prelude/Lists.antt =====
-- Lists with Boolean tests, and texts among them.
use Prim.Native.Nat.{ℕ, suc, ◌+◌}
use mathlib.Core.Path.{refl, ◌≡◌}
use mathlib.Core.Bool.{Bool, true, false, ◌&&◌, ◌||◌}
use mathlib.Core.List.{List, [], ◌∷◌, ◌++◌}
use native.Mathlib.Omega.{arith}
use autonomic_obsidian_kb.Prelude.Tests.{if◌then◌else◌}
use mathlib.Core.Path.{subst}
use mathlib.Core.Logic.{inl, inr}
use mathlib.Core.Bool.{false}
use autonomic_obsidian_kb.Prelude.Equality.{Eq, ◌==◌, eq_iff, eq_refl}
use autonomic_obsidian_kb.Prelude.Tests.{||_cases, Bool-cases}

module _ {ℓ} {A : Type ℓ} where
  abbrev pub length : List A → ℕ
  length [] = 0
  length (x ∷ xs) = suc (length xs)

  pub length-append : (xs ys : List A) → length (xs ++ ys) ≡ length xs + length ys
  length-append [] ys = omega arith
  length-append (x ∷ xs) ys = omega (arith, length-append xs ys)

  -- any(p(x) for x in xs)
  abbrev pub any : (A → Bool) → List A → Bool
  any p [] = false
  any p (x ∷ xs) = p x || any p xs

  -- all(p(x) for x in xs)
  abbrev pub all : (A → Bool) → List A → Bool
  all p [] = true
  all p (x ∷ xs) = p x && all p xs

  -- [x for x in xs if p(x)]
  abbrev pub filter : (A → Bool) → List A → List A
  filter p [] = []
  filter p (x ∷ xs) = let rest = filter p xs in if p x then x ∷ rest else rest

  abbrev pub All {κ} : (A → Type κ) → List A → Type κ
  All P [] = Unit
  All P (x ∷ xs) = P x × All P xs

-- The position-free fact that a text stands in a list.
pub data In {ℓ} {A : Type ℓ} (x : A) : List A → Type ℓ where
  here : {xs : List A} → In x (x ∷ xs)
  there : {y : A} {xs : List A} → In x xs → In x (y ∷ xs)

module _ {ℓ} {A : Type ℓ} ⦃e : Eq A⦄ where
  -- x in xs
  abbrev pub is_in : A → List A → Bool
  is_in x [] = false
  is_in x (y ∷ ys) = x == y || is_in x ys

  pub In-of_is_in : (x : A) (xs : List A) → is_in x xs ≡ true → In x xs
  In-of_is_in x [] h = cc
  In-of_is_in x (y ∷ ys) h = elim (||_cases (x == y) (is_in x ys) h) [
    | inl p ↦ subst (λ z. In x (z ∷ ys)) ((eq_iff x y).0 p) here
    | inr q ↦ there (In-of_is_in x ys q)
  ]

  pub is_in_of_In : (x : A) (xs : List A) → In x xs → is_in x xs ≡ true
  is_in_of_In x [] m = elim m [ ]
  is_in_of_In x (y ∷ ys) here = ground (arith, eq_refl x)
  is_in_of_In x (y ∷ ys) (there m) = ground (arith, is_in_of_In x ys m)

  -- No element stands twice.
  abbrev pub Distinct : List A → Type 0
  Distinct [] = Unit
  Distinct (x ∷ xs) = (is_in x xs ≡ false) × Distinct xs

  pub is_in-append : (x : A) (xs ys : List A) → is_in x (xs ++ ys) ≡ (is_in x xs || is_in x ys)
  is_in-append x [] ys = refl
  is_in-append x (y ∷ xs) ys = ground (arith, is_in-append x xs ys)

  pub is_in-filter :
      (p : A → Bool) (x : A) (xs : List A) → is_in x (filter p xs) ≡ (p x && is_in x xs)
  is_in-filter p x [] = ground arith
  is_in-filter p x (y ∷ xs) = ground (arith, eq_iff x y, is_in-filter p x xs)

  pub Distinct-filter : (p : A → Bool) (xs : List A) → Distinct xs → Distinct (filter p xs)
  Distinct-filter p [] h = tt
  Distinct-filter p (x ∷ xs) h = elim (Bool-cases (p x)) [
    | inl e ↦ rw e (ground (arith, is_in-filter p x xs), Distinct-filter p xs h.1)
    | inr e ↦ rw e (Distinct-filter p xs h.1)
  ]

  pub Distinct-append :
      (xs ys : List A)
      → Distinct xs
      → Distinct ys
      → ((x : A) → is_in x xs ≡ true → is_in x ys ≡ false)
      → Distinct (xs ++ ys)
  Distinct-append [] ys hx hy apart = hy
  Distinct-append (x ∷ xs) ys hx hy apart = (
    ground (arith, is_in-append x xs ys, apart x, eq_refl x),
    Distinct-append xs ys hx.1 hy (λ z m. apart z (ground arith)),
  )

module _ {ℓ κ} {A : Type ℓ} (P : A → Type κ) where
  pub All-append : (xs ys : List A) → All P xs → All P ys → All P (xs ++ ys)
  All-append [] ys h k = k
  All-append (x ∷ xs) ys h k = (h.0, All-append xs ys h.1 k)

pub All-map {ℓ κ μ} :
    {A : Type ℓ} (P : A → Type κ) (Q : A → Type μ) (xs : List A)
    → ((x : A) → P x → Q x)
    → All P xs
    → All Q xs
All-map P Q [] f h = tt
All-map P Q (x ∷ xs) f h = (f x h.0, All-map P Q xs f h.1)

-- What holds of every member of a list.
pub All-of_is_in {ℓ κ} :
    {A : Type ℓ} ⦃e : Eq A⦄ (P : A → Type κ) (xs : List A)
    → ((x : A) → is_in x xs ≡ true → P x)
    → All P xs
All-of_is_in P [] f = tt
All-of_is_in P (x ∷ xs) f =
    (f x (ground (arith, eq_refl x)), All-of_is_in P xs (λ y m. f y (ground arith)))

pub All-of_In {ℓ κ} :
    {A : Type ℓ} (P : A → Type κ) (xs : List A) → ((x : A) → In x xs → P x) → All P xs
All-of_In P [] f = tt
All-of_In P (x ∷ xs) f = (f x here, All-of_In P xs (λ y i. f y (there i)))

pub In-All {ℓ κ} : {A : Type ℓ} (P : A → Type κ) (x : A) (xs : List A) → In x xs → All P xs → P x
In-All P x [] i h = elim i [ ]
In-All P x (y ∷ xs) here h = h.0
In-All P x (y ∷ xs) (there i) h = In-All P x xs i h.1

pub All-append_left {ℓ κ} :
    {A : Type ℓ} (P : A → Type κ) (xs ys : List A) → All P (xs ++ ys) → All P xs
All-append_left P [] ys h = tt
All-append_left P (x ∷ xs) ys h = (h.0, All-append_left P xs ys h.1)

pub All-append_right {ℓ κ} :
    {A : Type ℓ} (P : A → Type κ) (xs ys : List A) → All P (xs ++ ys) → All P ys
All-append_right P [] ys h = h
All-append_right P (x ∷ xs) ys h = All-append_right P xs ys h.1
