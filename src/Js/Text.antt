-- ===== src/Js/Text.antt =====
-- `String.prototype.toLowerCase`, `Array.prototype.includes` on strings, and `indexOf`.
-- Besides A to Z, the Kelvin sign is the one code point whose lower case is an ASCII letter by
-- itself. Every other code point is kept, so a lowered text is the word that the sources compare
-- it with exactly when it is that word in JavaScript.
use Prim.Native.Char.{Char, code}
use Prim.Native.String.{[], ◌∷◌}
use mathlib.Core.Path.{ap₂}
use code_bridge.Base.{
  String, ◌≡◌, refl, ap, ◌⊎◌, inl, inr, Bool, true, false, ◌||◌, ◌&&◌, List, arith, ◌==◌, nat_eq,
  if◌then◌else◌, not,
}

-- A letter of the first alphabet becomes the letter of the second at the same place.
translate : String → String → Char → Char
translate [] to c = c
translate (a ∷ from) [] c = c
translate (a ∷ from) (b ∷ to) c = if nat_eq (code c) (code a) then b else translate from to c

abbrev upper_letters : String
upper_letters = "ABCDEFGHIJKLMNOPQRSTUVWXYZK"

abbrev lower_letters : String
lower_letters = "abcdefghijklmnopqrstuvwxyzk"

lower_char : Char → Char
lower_char c = translate upper_letters lower_letters c

unfoldable pub to_lower_case : String → String
unfolding lower_char translate
to_lower_case [] = []
to_lower_case (c ∷ s) = lower_char c ∷ to_lower_case s

is_letter_of : String → Char → Bool
is_letter_of [] c = false
is_letter_of (a ∷ s) c = nat_eq (code c) (code a) || is_letter_of s c

avoids : String → String → Bool
avoids [] from = true
avoids (b ∷ to) from = not (is_letter_of from b) && avoids to from

translate_outside :
    (from to : String) (c : Char) → is_letter_of from c ≡ false → translate from to c ≡ c
unfolding translate is_letter_of
translate_outside [] to c h = refl
translate_outside (a ∷ from) [] c h = refl
translate_outside (a ∷ from) (b ∷ to) c h = ground (arith, translate_outside from to c)

-- A translated character is outside the first alphabet, if the second one is.
translate_leaves :
    (all from to : String) (c : Char)
    → avoids to all ≡ true
    → (is_letter_of all (translate from to c) ≡ false) ⊎ (translate from to c ≡ c)
unfolding translate avoids
translate_leaves all [] to c h = inr refl
translate_leaves all (a ∷ from) [] c h = inr refl
translate_leaves all (a ∷ from) (b ∷ to) c h = ground (arith, translate_leaves all from to c)

lower_letters-avoid : avoids lower_letters upper_letters ≡ true
unfolding avoids is_letter_of
lower_letters-avoid = refl

lower_char_idem : (c : Char) → lower_char (lower_char c) ≡ lower_char c
unfolding lower_char
lower_char_idem c =
    elim (translate_leaves upper_letters upper_letters lower_letters c lower_letters-avoid) [
      | inl out ↦ translate_outside upper_letters lower_letters _ out
      | inr same ↦ ap (translate upper_letters lower_letters) same
    ]

-- Lowering twice is lowering once.
pub to_lower_case_idem : (s : String) → to_lower_case (to_lower_case s) ≡ to_lower_case s
unfolding to_lower_case
to_lower_case_idem [] = refl
to_lower_case_idem (c ∷ s) = ap₂ String.◌∷◌ (lower_char_idem c) (to_lower_case_idem s)

-- `words.includes(s)`
unfoldable pub includes : List String → String → Bool
includes List.[] s = false
includes (List.◌∷◌ w ws) s = w == s || includes ws s

lowers : to_lower_case "WaRn" ≡ "warn"
unfolding to_lower_case
lowers = refl

-- `String.prototype.toUpperCase`, exact for the letters of ASCII; other code points are kept.
abbrev ascii_lower : String
ascii_lower = "abcdefghijklmnopqrstuvwxyz"

abbrev ascii_upper : String
ascii_upper = "ABCDEFGHIJKLMNOPQRSTUVWXYZ"

unfoldable pub to_upper_case : String → String
unfolding translate
to_upper_case [] = []
to_upper_case (c ∷ s) = translate ascii_lower ascii_upper c ∷ to_upper_case s
