-- ===== src/Patch/Glob.antt =====
-- `globToRegExp` of src/run/provider-patch-validator.ts: a path pattern as a regular expression. The
-- character `?` is passed on as it is, so it makes what stands before it optional.
use run_forge.Common.{
  ℕ, ◌≡◌, refl, Bool, true, false, not, Option, none, some, List, [], ◌∷◌, if◌then◌else◌, ◌==◌,
}
use run_forge.Common.Regex.{Regex, empty, start, end, chr, many, seq, alt, test, all_of}
use run_forge.Common.Text.{codes}
use run_forge.Patch.Diff.{Units, is_terminator}

-- `[^/]*`, `.*` and a character that stands for itself.
abbrev in_segment : Regex
in_segment = many λ c. not (c == b'/')

abbrev anything : Regex
anything = many λ c. not (is_terminator c)

abbrev exactly : ℕ → Regex
exactly c = chr λ x. x == c

-- The pieces of a pattern: `**`, or a NUL character that stands for it, `*`, `?`, or a character.
pub data Piece : Type 0 where
  double star question : Piece
  plain : ℕ → Piece

abbrev piece_of : ℕ → Piece
piece_of c =
    if c == b'*' then star else if c == b'?' then question else if c == 0 then double else plain c

-- Two stars in a row are one piece, from the left.
pub pieces : Units → List Piece
pieces [] = []
pieces (c ∷ []) = piece_of c ∷ []
pieces (c ∷ d ∷ s) =
    let later = pieces s in
    let next = pieces (d ∷ s) in
    if c == b'*' then (if d == b'*' then double ∷ later else star ∷ next) else piece_of c ∷ next

abbrev atom_of : Piece → Regex
atom_of double = anything
atom_of star = in_segment
atom_of question = empty
atom_of (plain c) = exactly c

abbrev push : Regex → Option (List Regex) → Option (List Regex)
push r none = none
push r (some rs) = some (r ∷ rs)

-- `x?` is optional, and so is the lazy `x??`; after a star `?` only makes it lazy. One more `?`, or one
-- with nothing before it, is refused.
abbrev quantified : Piece → Regex
quantified (plain c) = alt (exactly c) empty
quantified p = atom_of p

abbrev is_plain : Piece → Bool
is_plain (plain c) = true
is_plain p = false

pub parts : List Piece → Option (List Regex)
parts [] = some []
parts (question ∷ ps) = none
parts (p ∷ []) = some (atom_of p ∷ [])
parts (p ∷ question ∷ []) = some (quantified p ∷ [])
parts (p ∷ question ∷ question ∷ ps) =
    let rest = parts ps in if is_plain p then push (quantified p) rest else none
parts (p ∷ question ∷ q ∷ ps) = push (quantified p) (parts (q ∷ ps))
parts (p ∷ q ∷ ps) = push (atom_of p) (parts (q ∷ ps))

abbrev whole : List Regex → Regex
whole rs = seq start (seq (all_of rs) end)

-- `globToRegExp(pattern)`, `none` where `new RegExp` throws.
unfoldable pub glob_to_regexp : Units → Option Regex
unfolding pieces parts
glob_to_regexp pattern = elim (parts (pieces pattern)) [ none ↦ none | some rs ↦ some (whole rs) ]

-- `globToRegExp(pattern).test(path)`
unfoldable pub glob_matches : Units → Units → Option Bool
unfolding glob_to_regexp test
glob_matches pattern path = elim (glob_to_regexp pattern) [
  | none ↦ none
  | some r ↦ some (test r path)
]

-- `matchesAny`: the first pattern that matches ends the search, and one that throws ends all.
unfoldable pub matches_any : Units → List Units → Option Bool
unfolding glob_matches
matches_any path [] = some false
matches_any path (p ∷ ps) = elim (glob_matches p path) [
  | none ↦ none
  | some true ↦ some true
  | some false ↦ matches_any path ps
]

nested_secret : glob_matches (codes "**/secrets/**") (codes "a/b/secrets/c") ≡ some true
unfolding glob_matches
nested_secret = refl

one_segment : glob_matches (codes "src/*.ts") (codes "src/a/b.ts") ≡ some false
unfolding glob_matches
one_segment = refl

optional_character : glob_matches (codes "colou?r") (codes "color") ≡ some true
unfolding glob_matches
optional_character = refl
