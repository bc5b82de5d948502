-- ===== src/Prelude/Methods.antt =====
-- Methods of Python's `str`: lower, strip, replace of one character, and a slice from the start.
use mathlib.Core.List.{reverse, append-nil, append_assoc}
use temporal_agent_sandbox.Prelude.{
  ℕ, ◌+◌, Text, Bool, true, [], ◌∷◌, ◌++◌, ◌&&◌, ◌||◌, leb, nat_eq, if◌then◌else◌, map, ◌≡◌, ap,
  sym, ◌∙◌,
}

-- The table of lower-case forms beyond ASCII, which is the Python build's: what a character becomes,
-- given the text before it and behind it (the final sigma looks at both).
pub record Unicode : Type 0 where
  pub lower_other : Text → ℕ → Text → Text

abbrev pub is_ascii : ℕ → Bool
is_ascii c = leb c 127

abbrev pub lower_ascii : ℕ → ℕ
lower_ascii c = if leb b'A' c && leb c b'Z' then c + 32 else c

unfoldable pub lower_char : Unicode → Text → ℕ → Text → Text
lower_char u before c after =
    if is_ascii c then lower_ascii c ∷ [] else u.lower_other before c after

unfoldable pub lower_from : Unicode → Text → Text → Text
unfolding lower_char
lower_from u before [] = []
lower_from u before (c ∷ s) = lower_char u before c s ++ lower_from u (before ++ c ∷ []) s

-- `s.lower()`
unfoldable pub lower : Unicode → Text → Text
unfolding lower_from
lower u s = lower_from u [] s

-- the characters for which `str.isspace` holds
unfoldable pub is_space : ℕ → Bool
is_space c =
    leb 9 c && leb c 13
    || leb 28 c && leb c 32
    || nat_eq c 0x85
    || nat_eq c 0xa0
    || nat_eq c 0x1680
    || leb 0x2000 c && leb c 0x200a
    || nat_eq c 0x2028
    || nat_eq c 0x2029
    || nat_eq c 0x202f
    || nat_eq c 0x205f
    || nat_eq c 0x3000

unfoldable pub lstrip : Text → Text
unfolding is_space
lstrip [] = []
lstrip (c ∷ s) = if is_space c then lstrip s else c ∷ s

-- `s.strip()`
unfoldable pub strip : Text → Text
unfolding lstrip
strip s = reverse (lstrip (reverse (lstrip s)))

-- `s.replace(old, new)` for single characters
unfoldable pub replace_char : ℕ → ℕ → Text → Text
replace_char old new = map (λ c. if nat_eq c old then new else c)

-- A text of ASCII characters has its lower-case form wherever it stands.
abbrev pub IsAscii : Text → Type 0
IsAscii [] = Unit
IsAscii (c ∷ s) = (is_ascii c ≡ true) × IsAscii s

pub lower_from-append :
    (u : Unicode) (before s t : Text)
    → IsAscii s
    → lower_from u before (s ++ t) ≡ map lower_ascii s ++ lower_from u (before ++ s) t
unfolding lower_from
lower_from-append u before [] t _ = rw append-nil
lower_from-append u before (c ∷ s) t (a, h) =
    let here : lower_char u before c (s ++ t) ≡ lower_ascii c ∷ [] = unfold lower_char in rw a in
    rw (here, lower_from-append u (before ++ c ∷ []) s t h, append_assoc)

-- What stands in front of a text does not reach into its lower-case form, but for the context.
pub lower_from-split :
    (u : Unicode) (before s t : Text)
    → (front : Text) × (lower_from u before (s ++ t) ≡ front ++ lower_from u (before ++ s) t)
unfolding lower_from
lower_from-split u before [] t = ([], rw append-nil)
lower_from-split u before (c ∷ s) t =
    let (front, e) = lower_from-split u (before ++ c ∷ []) s t in
    (
      lower_char u before c (s ++ t) ++ front,
      ap (λ r. lower_char u before c (s ++ t) ++ r) e
          ∙ sym (append_assoc (lower_char u before c (s ++ t)) front _)
          ∙ ap (λ b. (lower_char u before c (s ++ t) ++ front) ++ lower_from u b t)
              (append_assoc before (c ∷ []) s),
    )
