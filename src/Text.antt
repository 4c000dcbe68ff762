-- ===== src/Text.antt =====
-- JavaScript text as its UTF-16 code units, and `String.prototype.replace` with a global pattern.
pub mod Split
use Prim.Native.Char.{code}
use Prim.Native.String.{String}
use magento2_chat_ai.Prelude.{
  ℕ, zero, suc, ◌+◌, ◌-◌, ◌≡◌, ◌↔◌, refl, arith, Bool, true, false, ◌&&◌, ◌||◌, List, [], ◌∷◌, ◌++◌,
  Option, none, some, drop, reverse, any, leb, ◌==◌, if◌then◌else◌,
}

abbrev pub Text : Type 0
Text = List ℕ

abbrev pub codes : String → Text
codes String.[] = []
codes (String.◌∷◌ c s) = code c ∷ codes s

-- Whether a text is true for JavaScript.
unfoldable pub filled : Text → Bool
filled [] = false
filled (c ∷ s) = true

-- `value || fallback`.
unfoldable pub filled_or : Text → Text → Text
filled_or [] fallback = fallback
filled_or (c ∷ s) fallback = c ∷ s

unfoldable pub text_eq : Text → Text → Bool
text_eq [] [] = true
text_eq [] (c ∷ t) = false
text_eq (c ∷ s) [] = false
text_eq (c ∷ s) (d ∷ t) = let rest = text_eq s t in c == d && rest

pub text_eq_iff : (s t : Text) → (text_eq s t ≡ true) ↔ (s ≡ t)
unfolding text_eq
text_eq_iff [] [] = ground arith
text_eq_iff [] (c ∷ t) = ground arith
text_eq_iff (c ∷ s) [] = ground arith
text_eq_iff (c ∷ s) (d ∷ t) = ground (arith, text_eq_iff s t)

unfoldable pub between : ℕ → ℕ → ℕ → Bool
between lo c hi = leb lo c && leb c hi

-- `\w` without flags of Unicode: what `\b` looks at.
unfoldable pub is_word : ℕ → Bool
unfolding between
is_word c = between b'0' c b'9' || between b'A' c b'Z' || between b'a' c b'z' || c == b'_'

-- `\s`.
unfoldable pub is_space : ℕ → Bool
unfolding between any
is_space c =
    between 9 c 13
    || between 0x2000 c 0x200a
    || any (λ d. d == c)
        (32 ∷ 0xa0 ∷ 0x1680 ∷ 0x2028 ∷ 0x2029 ∷ 0x202f ∷ 0x205f ∷ 0x3000 ∷ 0xfeff ∷ [])

-- The flag `i` on letters of ASCII.
unfoldable pub fold_case : ℕ → ℕ
unfolding between
fold_case c = if between b'A' c b'Z' then c + 32 else c

-- The text after a prefix, where units are compared after `norm`.
unfoldable pub after_prefix : (ℕ → ℕ) → Text → Text → Option Text
after_prefix norm [] s = some s
after_prefix norm (p ∷ ps) [] = none
after_prefix norm (p ∷ ps) (c ∷ s) = if norm p == norm c then after_prefix norm ps s else none

unfoldable pub starts_with : Text → Text → Bool
unfolding after_prefix
starts_with p s = elim (after_prefix (λ c. c) p s) [ some _ ↦ true | none ↦ false ]

-- How many units at the front satisfy a test: a greedy `+` or `*`.
unfoldable pub run_length : (ℕ → Bool) → Text → ℕ
run_length p [] = 0
run_length p (c ∷ s) = let rest = run_length p s in if p c then suc rest else 0

unfoldable pub first_is : (ℕ → Bool) → Text → Bool
first_is p [] = false
first_is p (c ∷ s) = p c

unfoldable pub trim_start : Text → Text
unfolding run_length is_space
trim_start s = drop (run_length is_space s) s

-- `text.trim()`.
unfoldable pub trim : Text → Text
unfolding trim_start
trim s = reverse (trim_start (reverse (trim_start s)))

-- The first piece of a text that goes on.
unfoldable pub cons_first : ℕ → List Text → List Text
cons_first c [] = (c ∷ []) ∷ []
cons_first c (p ∷ ps) = (c ∷ p) ∷ ps

-- `text.split(separator)` for a separator of one unit: the pieces, of which there is always one.
unfoldable pub split_unit : ℕ → Text → List Text
unfolding cons_first
split_unit d [] = [] ∷ []
split_unit d (c ∷ s) = let rest = split_unit d s in if c == d then [] ∷ rest else cons_first c rest

unfoldable pub all_units : (ℕ → Bool) → Text → Bool
all_units p [] = true
all_units p (c ∷ s) = p c && all_units p s

-- What a pattern finds at a position: how many units it matches, and what replaces them.
abbrev pub Match : Type 0
Match = Option (ℕ × Text)

-- A pattern sees whether a word character stands before the position, and the rest of the text.
abbrev pub Pattern : Type 0
Pattern = Bool → Text → Match

-- `text.replace(pattern, …)` for a global pattern whose matches are not empty. The number counts the
-- units of the match before that are still to be passed over.
unfoldable pub replace_from : Pattern → Bool → ℕ → Text → Text
unfolding is_word
replace_from p w skip [] = []
replace_from p w (suc skip) (c ∷ s) = replace_from p (is_word c) skip s
replace_from p w zero (c ∷ s) = elim (p w (c ∷ s)) [
  | some (n, replacement) ↦ replacement ++ replace_from p (is_word c) (n - 1) s
  | none ↦ c ∷ replace_from p (is_word c) zero s
]

unfoldable pub replace_all : Pattern → Text → Text
unfolding replace_from
replace_all p = replace_from p false 0
