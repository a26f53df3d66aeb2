-- ===== src/Prelude/Sets.antt =====
-- Python's sets of texts as lists, and slices of lists.
use Prim.Native.Nat.{ℕ, zero, suc}
use Prim.Native.String.{String}
use mathlib.Core.Bool.{Bool, true, false}
use mathlib.Core.List.{List, [], ◌∷◌}
use autonomic_obsidian_kb.Prelude.Tests.{if◌then◌else◌}
use autonomic_obsidian_kb.Prelude.Equality.{string_eq}
use autonomic_obsidian_kb.Prelude.Lists.{is_in}
use autonomic_obsidian_kb.Prelude.Text.{text_le}
use autonomic_obsidian_kb.Prelude.Sort.{sort}

-- set(xs)
abbrev pub set_of : List String → List String
set_of [] = []
set_of (x ∷ xs) = let rest = set_of xs in if is_in x rest then rest else x ∷ rest

-- sorted(set(xs))
unfoldable pub sorted_set : List String → List String
unfolding sort
sorted_set xs = sort text_le (set_of xs)

-- xs[:n]
unfoldable pub take {ℓ} : {A : Type ℓ} → ℕ → List A → List A
take zero xs = []
take (suc n) [] = []
take (suc n) (x ∷ xs) = x ∷ take n xs

-- bool(xs)
abbrev pub non_empty {ℓ} : {A : Type ℓ} → List A → Bool
non_empty [] = false
non_empty (x ∷ xs) = true
