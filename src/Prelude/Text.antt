-- ===== src/Prelude/Text.antt =====
-- Texts: `format!` as the concatenation of its parts, and decimal printing.
use Prim.Native.Nat.{ℕ, zero, suc, ◌/◌, ◌%◌}
use Prim.Native.String.{String, ◌++◌}
use mathlib.Core.Bool.{Bool, true, false}
use scaleway_operator.Prelude.Tests.{ltb, ◌==◌, if◌then◌else◌}
use mathlib.Core.List.{List, [], ◌∷◌}
use mathlib.Core.Path.{◌≡◌}
use text.Mathlib.TextLemmas.{append_cancel_left}

-- `format!("a{}b", x)` is `format ("a" ∷ x ∷ "b" ∷ [])`.
abbrev pub format : List String → String
format [] = ""
format (s ∷ []) = s
format (s ∷ t ∷ r) = s ++ format (t ∷ r)

-- A text behind a fixed prefix is determined by the whole.
pub format_cancel : (p : String) {s t : String} → format (p ∷ s ∷ []) ≡ format (p ∷ t ∷ []) → s ≡ t
format_cancel p {s} {t} h = append_cancel_left p s t h

digit : ℕ → String
digit d =
    if d == 0
    then "0"
    else if d == 1
    then "1"
    else if d == 2
    then "2"
    else if d == 3
    then "3"
    else if d == 4
    then "4"
    else if d == 5
    then "5"
    else if d == 6
    then "6"
    else if d == 7
    then "7"
    else if d == 8
    then "8"
    else "9"

-- The decimal digits with fuel for their number: 20 are enough for 64 bits.
show_digits : ℕ → ℕ → String
unfolding digit
show_digits zero n = ""
show_digits (suc fuel) n =
    let more = show_digits fuel (n / 10) ++ digit (n % 10) in if ltb n 10 then digit n else more

-- `Display` of an unsigned machine integer
unfoldable pub show_ℕ : ℕ → String
unfolding show_digits
show_ℕ n = show_digits 20 n

abbrev pub show_Bool : Bool → String
show_Bool true = "true"
show_Bool false = "false"

-- `join` of a list of texts
abbrev pub join : String → List String → String
join sep [] = ""
join sep (s ∷ []) = s
join sep (s ∷ t ∷ r) = s ++ (sep ++ join sep (t ∷ r))
