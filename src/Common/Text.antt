-- ===== src/Common/Text.antt =====
-- Text as the source reads it: code points, white space, and decimal numerals padded with zeros.
use Prim.Native.Nat.{ℕ, zero, suc, ◌+◌, ◌/◌, ◌%◌, Ordering}
use Prim.Native.Char.{code}
use Prim.Native.String.{String, slice, count, compare}
use Prim.Native.String
use mathlib.Core.Path.{◌≡◌, refl}
use mathlib.Core.Bool.{Bool, true, false, ◌&&◌, ◌||◌}
use mathlib.Core.List.{List, [], ◌∷◌, reverse}
use run_forge.Common.Tests.{leb, ltb, ◌==◌, if◌then◌else◌}
use run_forge.Common.Lists.{every}
use text.Mathlib.Text.{◌==◌ as str_eq}
use text.Mathlib.TextEquality.{eq_iff as str_eq_iff}

abbrev pub codes : String → List ℕ
codes String.[] = []
codes (String.◌∷◌ c s) = code c ∷ codes s

-- The white space that `trim` removes.
unfoldable pub is_space : ℕ → Bool
is_space c =
    (leb 9 c && leb c 13)
    || c == 32
    || c == 160
    || c == 0x1680
    || (leb 0x2000 c && leb c 0x200a)
    || c == 0x2028
    || c == 0x2029
    || c == 0x202f
    || c == 0x205f
    || c == 0x3000
    || c == 0xfeff

-- `text.trim().length === 0`
unfoldable pub is_blank : String → Bool
unfolding is_space
is_blank s = every is_space (codes s)

abbrev pub drop_while : (ℕ → Bool) → List ℕ → List ℕ
drop_while p [] = []
drop_while p (c ∷ s) = let rest = drop_while p s in if p c then rest else c ∷ s

-- `text.trim()`
unfoldable pub trim : List ℕ → List ℕ
unfolding is_space
trim s = reverse (drop_while is_space (reverse (drop_while is_space s)))

-- The order of texts by their code points.
abbrev pub str_leb : String → String → Bool
str_leb s t = elim (compare s t) [ Ordering.gt ↦ false | _ ↦ true ]

infixr 66 ◌+++◌
abbrev pub ◌+++◌ : String → String → String
s +++ t = String.◌++◌ s t

-- `String(n)`: `fuel` bounds the digits, and `suc n` is enough.
show_from : ℕ → ℕ → String
show_from zero n = ""
show_from (suc fuel) n =
    let rest = show_from fuel (n / 10) in
    if ltb n 10
    then slice "0123456789" n (n + 1)
    else rest +++ slice "0123456789" (n % 10) (n % 10 + 1)

unfoldable pub show_nat : ℕ → String
unfolding show_from
show_nat n = show_from (suc n) n

-- `String(n).padStart(3, "0")`
unfoldable pub pad3 : ℕ → String
unfolding show_nat
pad3 n =
    let s = show_nat n in
    if ltb (count s) 2 then "00" +++ s else if ltb (count s) 3 then "0" +++ s else s

pad3_test : ◌≡◌ {A = List String} (pad3 7 ∷ pad3 42 ∷ pad3 1205 ∷ []) ("007" ∷ "042" ∷ "1205" ∷ [])
unfolding pad3
pad3_test = refl

pub str_eq_self : (s : String) → str_eq s s ≡ true
str_eq_self s = (str_eq_iff s s).1 refl
