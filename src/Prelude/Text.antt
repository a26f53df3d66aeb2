-- ===== src/Prelude/Text.antt =====
-- Python's `str`: equality, emptiness, and the methods that the program calls.
use Prim.Native.Nat.{ℕ}
use Prim.Native.Char.{Char, code}
use Prim.Native.Nat.{Ordering}
use Prim.Native.String.{String, compare}
use mathlib.Core.Bool.{Bool, true, false, not, ◌&&◌, ◌||◌}
use mathlib.Core.List.{List, [], ◌∷◌}
use autonomic_obsidian_kb.Prelude.Equality.{◌==◌, string_eq}
use autonomic_obsidian_kb.Prelude.Tests.{leb, eqb, if◌then◌else◌}
pub use Prim.Native.String.{◌++◌ as append}

-- the truth value of a text: `bool(s)`
abbrev pub is_set : String → Bool
is_set String.[] = false
is_set (String.◌∷◌ c s) = true

-- The code points from `a` to `b`.
between : ℕ → ℕ → ℕ → Bool
between a b n = leb a n && leb n b

-- `str.isspace`, the characters that `str.strip` drops.
unfoldable pub is_space : Char → Bool
unfolding between
is_space c =
    let n = code c in
    between 9 13 n
    || between 28 32 n
    || eqb n 0x85
    || eqb n 0xa0
    || eqb n 0x1680
    || between 0x2000 0x200a n
    || between 0x2028 0x2029 n
    || eqb n 0x202f
    || eqb n 0x205f
    || eqb n 0x3000

unfoldable pub strip_left : String → String
unfolding is_space
strip_left String.[] = ""
strip_left (String.◌∷◌ c s) = let rest = strip_left s in if is_space c then rest else String.◌∷◌ c s

unfoldable pub strip_right : String → String
unfolding is_space
strip_right String.[] = ""
strip_right (String.◌∷◌ c s) =
    let rest = strip_right s in if is_space c && not (is_set rest) then "" else String.◌∷◌ c rest

-- s.strip()
unfoldable pub strip : String → String
unfolding strip_left strip_right
strip s = strip_left (strip_right s)

-- s.startswith(p)
unfoldable pub starts_with : String → String → Bool
starts_with s String.[] = true
starts_with String.[] (String.◌∷◌ d p) = false
starts_with (String.◌∷◌ c s) (String.◌∷◌ d p) = eqb (code c) (code d) && starts_with s p

-- s.endswith(p)
unfoldable pub ends_with : String → String → Bool
ends_with String.[] p = String.[] == p
ends_with (String.◌∷◌ c s) p = (String.◌∷◌ c s == p) || ends_with s p

-- p in s
unfoldable pub contains : String → String → Bool
unfolding starts_with
contains String.[] p = starts_with String.[] p
contains (String.◌∷◌ c s) p = starts_with (String.◌∷◌ c s) p || contains s p

-- sep.join(parts)
unfoldable pub join : String → List String → String
join sep [] = ""
join sep (s ∷ []) = s
join sep (s ∷ t ∷ r) = append s (append sep (join sep (t ∷ r)))

-- s <= t, by code points
abbrev pub text_le : String → String → Bool
text_le s t = elim (compare s t) [ Ordering.gt ↦ false | _ ↦ true ]
