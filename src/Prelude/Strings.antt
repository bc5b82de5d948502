-- ===== src/Prelude/Strings.antt =====
-- Python's `str` as the list of its code points, and the operations of `str` that the program uses.
-- `codes "…"` is a literal; it is shut, so that a literal stays one term until a proof opens it.
use Prim.Native.Nat.{ℕ}
use Prim.Native.Char.{code}
use Prim.Native.String.{String}
use mathlib.Core.Path.{◌≡◌, refl}
use mathlib.Core.Logic.{◌↔◌, ◌≢◌}
use mathlib.Core.Bool.{Bool, true, false, ◌||◌, ◌&&◌}
use mathlib.Core.List.{List, [], ◌∷◌, ◌++◌}
use native.Mathlib.Omega.{arith}
use temporal_agent_sandbox.Prelude.Tests.{nat_eq}

abbrev pub Text : Type 0
Text = List ℕ

unfoldable pub codes : String → Text
codes String.[] = []
codes (String.◌∷◌ c s) = code c ∷ codes s

infix 50 ◌==◌
unfoldable pub ◌==◌ : Text → Text → Bool
[] == [] = true
[] == (_ ∷ _) = false
(_ ∷ _) == [] = false
(a ∷ s) == (b ∷ t) = nat_eq a b && s == t

pub ==_iff : (s t : Text) → ((s == t) ≡ true) ↔ (s ≡ t)
unfolding ◌==◌
==_iff [] [] = ground arith
==_iff [] (b ∷ t) = ground arith
==_iff (a ∷ s) [] = ground arith
==_iff (a ∷ s) (b ∷ t) = ground (arith, ==_iff s t)

pub ==_refl : (s : Text) → (s == s) ≡ true
==_refl s = (==_iff s s).1 refl

-- `t.startswith(s)`
unfoldable pub starts_with : Text → Text → Bool
starts_with t [] = true
starts_with [] (_ ∷ _) = false
starts_with (b ∷ t) (a ∷ s) = nat_eq b a && starts_with t s

-- `s in t`
infix 50 ◌is_in◌
unfoldable pub ◌is_in◌ : Text → Text → Bool
unfolding starts_with
s is_in [] = starts_with [] s
s is_in (b ∷ t) = starts_with (b ∷ t) s || s is_in t

-- `x in (…)` for a collection of texts
unfoldable pub is_one_of : Text → List Text → Bool
unfolding ◌==◌
is_one_of s [] = false
is_one_of s (t ∷ ts) = s == t || is_one_of s ts

-- truth of a `str`
unfoldable pub non_empty : Text → Bool
non_empty [] = false
non_empty (_ ∷ _) = true

-- Two texts that the test tells apart, such as literals at which it computes.
pub ne_of_test : (s t : Text) → (s == t) ≡ false → s ≢ t
ne_of_test s t h e = cc ((==_iff s t).1 e)

pub starts_with-append : (s t : Text) → starts_with (s ++ t) s ≡ true
unfolding starts_with
starts_with-append [] t = cases t
  where
    cases : (t : Text) → starts_with t [] ≡ true
    cases [] = refl
    cases (_ ∷ _) = refl
starts_with-append (c ∷ s) t = ground (arith, starts_with-append s t)

is_in_of_prefix : (s t : Text) → starts_with t s ≡ true → s is_in t ≡ true
unfolding ◌is_in◌
is_in_of_prefix s [] h = h
is_in_of_prefix s (b ∷ t) h = rw h

-- A text occurs in what stands around it.
pub is_in-append : (s front back : Text) → s is_in (front ++ (s ++ back)) ≡ true
unfolding ◌is_in◌
is_in-append s [] back = is_in_of_prefix s (s ++ back) (starts_with-append s back)
is_in-append s (b ∷ front) back = ground (arith, is_in-append s front back)

-- A text that starts with another is that one with a rest behind it.
pub starts_with-split : (s t : Text) → starts_with t s ≡ true → (rest : Text) × (t ≡ s ++ rest)
unfolding starts_with
starts_with-split [] t h = (t, refl)
starts_with-split (a ∷ s) [] h = absurd (ground arith)
starts_with-split (a ∷ s) (b ∷ t) h =
    let (rest, e) = starts_with-split s t (ground arith) in (rest, ground (arith, e))
