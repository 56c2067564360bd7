-- ===== src/Prelude/Text.antt =====
-- Text that the program walks: a list of code points. `strip` and `lower` follow Python's methods on
-- ASCII text: blanks are the ASCII ones, and only the letters A to Z change.
use Prim.Native.Char.{code}
use mycellm.Prelude.{
  ◌≡◌, inl, inr, sym, ◌==◌, eq_iff, Bool-cases, ℕ, zero, suc, ◌+◌, ◌/◌, ◌%◌, String, Bool, true,
  false, ◌&&◌, ◌||◌, List, [], ◌∷◌, ◌++◌, map, eqb, leb, ltb, if◌then◌else◌,
}
use mathlib.Core.List.{reverse}

abbrev pub Text : Type 0
Text = List ℕ

abbrev pub codes : String → Text
codes String.[] = []
codes (String.◌∷◌ c s) = code c ∷ codes s

unfoldable pub text_eq : Text → Text → Bool
text_eq [] [] = true
text_eq (x ∷ xs) (y ∷ ys) = eqb x y && text_eq xs ys
text_eq _ _ = false

is_blank : ℕ → Bool
is_blank c = eqb c 32 || leb 9 c && leb c 13 || leb 28 c && leb c 31

strip_left : Text → Text
strip_left [] = []
strip_left (c ∷ s) = let rest = strip_left s in if is_blank c then rest else c ∷ s

unfoldable pub strip : Text → Text
unfolding strip_left is_blank
strip s = reverse (strip_left (reverse (strip_left s)))

strip_left_string : String → String
strip_left_string String.[] = ""
strip_left_string (String.◌∷◌ c s) =
    let rest = strip_left_string s in if is_blank (code c) then rest else String.◌∷◌ c s

reverse_onto : String → String → String
reverse_onto String.[] t = t
reverse_onto (String.◌∷◌ c s) t = reverse_onto s (String.◌∷◌ c t)

-- `strip` of a native string.
unfoldable pub strip_string : String → String
unfolding strip_left_string reverse_onto is_blank
strip_string s = reverse_onto (strip_left_string (reverse_onto (strip_left_string s) "")) ""

lower_char : ℕ → ℕ
lower_char c = if leb 65 c && leb c 90 then c + 32 else c

unfoldable pub lower : Text → Text
unfolding lower_char
lower s = map lower_char s

-- `t.startswith(s)` and `s in t`.
unfoldable pub starts_with : Text → Text → Bool
starts_with [] t = true
starts_with (x ∷ xs) [] = false
starts_with (x ∷ xs) (y ∷ ys) = eqb x y && starts_with xs ys

unfoldable pub has_infix : Text → Text → Bool
unfolding starts_with
has_infix s [] = starts_with s []
has_infix s (y ∷ ys) = starts_with s (y ∷ ys) || has_infix s ys

-- `sep.join(parts)`
unfoldable pub join : Text → List Text → Text
join sep [] = []
join sep (p ∷ []) = p
join sep (p ∷ (q ∷ ps)) = p ++ (sep ++ join sep (q ∷ ps))

abbrev pub is_empty : Text → Bool
is_empty [] = true
is_empty (c ∷ s) = false

digits : ℕ → ℕ → Text
digits zero n = []
digits (suc fuel) n =
    let rest = digits fuel (n / 10) in
    if ltb n 10 then (48 + n) ∷ [] else rest ++ (48 + n % 10) ∷ []

-- `str(n)`, a digit for each pass; a number has fewer digits than one more than itself.
unfoldable pub decimal : ℕ → Text
unfolding digits
decimal n = digits (suc n) n

pub eq_flip : (s t : String) → (s == t) ≡ false → (t == s) ≡ false
eq_flip s t h = elim (Bool-cases (t == s)) [
  | inl e ↦ let m : (s == t) ≡ true = (eq_iff s t).1 (sym ((eq_iff t s).0 e)) in absurd (cc)
  | inr e ↦ e
]
