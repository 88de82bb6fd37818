-- ===== src/Triage/Missing.antt =====
-- Whether a text says that a package is missing, `hasMissingExternalPackage` of
-- src/run/external-failure-triage-classifier.ts. A text is a list of code points.
use run_forge.Common.{
  ℕ, ◌≡◌, refl, zero, suc, ◌-◌, Bool, true, false, not, ◌||◌, Option, none, some, List, [], ◌∷◌,
  if◌then◌else◌, ◌==◌, length,
}
use run_forge.Common.Text.{codes}
use run_forge.Common.Regex.{alt, lower, test, lit_i}

abbrev pub is_quote : ℕ → Bool
is_quote c = c == b'\'' || c == b'"'

-- What `.` matches.
abbrev pub is_dot : ℕ → Bool
is_dot c = not (c == 10 || c == 13 || c == 0x2028 || c == 0x2029)

-- The text after a prefix, with the flag `i`.
abbrev strip : List ℕ → List ℕ → Option (List ℕ)
strip [] s = some s
strip (p ∷ ps) [] = none
strip (p ∷ ps) (c ∷ s) = let rest = strip ps s in if lower p == lower c then rest else none

-- A match of a pattern: the specifier that it captures and what follows it.
record Captured : Type 0 where
  specifier : List ℕ
  rest : List ℕ

abbrev put_before : ℕ → Option Captured → Option Captured
put_before c none = none
put_before c (some m) = some (record m { specifier = c ∷ m.specifier })

-- `[^'"]*['"]`
abbrev until_quote : List ℕ → Option Captured
until_quote [] = none
until_quote (c ∷ s) =
    let more = put_before c (until_quote s) in
    if is_quote c then some (record { specifier = []; rest = s }) else more

abbrev not_empty : Option Captured → Option Captured
not_empty none = none
not_empty (some m) = elim m.specifier [ [] ↦ none | c ∷ s ↦ some m ]

-- `['"]([^'"]+)['"]`
abbrev quoted : List ℕ → Option Captured
quoted [] = none
quoted (c ∷ s) = if is_quote c then not_empty (until_quote s) else none

abbrev first_captured : Option Captured → Option Captured → Option Captured
first_captured none other = other
first_captured (some m) other = some m

-- `.*?['"]([^'"]+)['"]`
abbrev lazily_quoted : List ℕ → Option Captured
lazily_quoted [] = none
lazily_quoted (c ∷ s) =
    let later = lazily_quoted s in
    first_captured (quoted (c ∷ s)) (if is_dot c then later else none)

abbrev after : Option (List ℕ) → (List ℕ → Option Captured) → Option Captured
after none then_match = none
after (some s) then_match = then_match s

-- A specifier that is neither relative nor absolute.
abbrev is_external : List ℕ → Bool
is_external [] = false
is_external (c ∷ s) = not (c == b'.' || c == b'/')

-- Whether a match of `matchAll` captures an external specifier. The first number counts the characters
-- that the last match has taken and that are still to be passed.
abbrev any_external : (List ℕ → Option Captured) → ℕ → List ℕ → Bool
any_external matched skip [] = false
any_external matched (suc skip) (c ∷ s) = any_external matched skip s
any_external matched zero (c ∷ s) = elim (matched (c ∷ s)) [
  | none ↦ any_external matched 0 s
  | some m ↦ is_external m.specifier || any_external matched (length s - length m.rest) s
]

unfoldable pub has_missing_external_package : List ℕ → Bool
has_missing_external_package text =
    test (alt (lit_i "ERR_MODULE_NOT_FOUND") (lit_i "MODULE_NOT_FOUND")) text
    || (any_external (λ s. after (strip (codes "Cannot find package ") s) quoted) 0 text
        || (any_external (λ s. after (strip (codes "Cannot find module ") s) quoted) 0 text
            || any_external (λ s. after (strip (codes "Module not found:") s) lazily_quoted) 0
                text))

missing_test :
    (has_missing_external_package (codes "Cannot find package 'zod' imported") ≡ true)
    × (has_missing_external_package (codes "Cannot find module './Cannot find module 'x'") ≡ false)
unfolding has_missing_external_package test
missing_test = (refl, refl)
