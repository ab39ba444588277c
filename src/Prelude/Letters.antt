-- ===== src/Prelude/Letters.antt =====
-- Texts that differ in their first letter.
use Prim.Native.Char.{Char}
use Prim.Native.String.{String, ◌++◌, [], ◌∷◌}
use text.Mathlib.TextLemmas.{cons-append, head-eq_of_cons-eq}
use text.Mathlib.TextEquality.{eq_iff}
use mathlib.Core.Path.{◌≡◌, sym, ◌∙◌, ap}
use mathlib.Core.Logic.{◌≢◌}

-- Texts with the same letter in front are equal as texts of that letter.
pub same_first : (c d : Char) (s t : String) → c ∷ s ≡ d ∷ t → c ∷ [] ≡ d ∷ []
same_first c d s t h = ap (λ (x : Char). x ∷ []) (head-eq_of_cons-eq h)

abbrev s_letter : Char
s_letter = "s"

abbrev equals_letter : Char
equals_letter = "="

pub space_equals_differ : (s t : String) → "space=" ++ s ≢ "=" ++ t
space_equals_differ s t h =
    let same =
      same_first s_letter equals_letter ("pace=" ++ s) ("" ++ t)
        (sym (cons-append s_letter "pace=" s) ∙ h ∙ cons-append equals_letter "" t) in
    let q = (eq_iff "s" "=").1 same in cc
