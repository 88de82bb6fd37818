-- ===== src/Common/Regex.antt =====
-- Regular expressions as the source writes them, read over code points: `test` answers what
-- `RegExp.test` answers. A repetition is always of one class of characters, so no fuel is needed.
pub mod Laws
use Prim.Native.Nat.{ℕ, ◌+◌}
use mathlib.Core.Bool.{Bool, true, false, not, xor, ◌&&◌, ◌||◌}
use mathlib.Core.Option.{Option, none, some}
use mathlib.Core.List.{List, [], ◌∷◌}
use Prim.Native.String.{String}
use run_forge.Common.Tests.{leb, ◌==◌, if◌then◌else◌}
use run_forge.Common.Text.{codes, is_space}

pub data Regex : Type 0 where
  empty start end boundary : Regex
  chr many : (ℕ → Bool) → Regex
  -- A test of what is still to be read, `(?=...)` or `(?!...)`.
  ahead : (List ℕ → Bool) → Regex
  seq alt : Regex → Regex → Regex

-- `[A-Za-z0-9_]`
abbrev pub is_word : ℕ → Bool
is_word c =
    (leb b'a' c && leb c b'z')
    || (leb b'A' c && leb c b'Z')
    || (leb b'0' c && leb c b'9')
    || c == b'_'

abbrev pub next_is_word : List ℕ → Bool
next_is_word [] = false
next_is_word (x ∷ s) = is_word x

abbrev pub last_is_word : Option ℕ → Bool
last_is_word none = false
last_is_word (some x) = is_word x

abbrev pub at_start : Option ℕ → Bool
at_start none = true
at_start (some x) = false

abbrev pub at_end : List ℕ → Bool
at_end [] = true
at_end (x ∷ s) = false

-- What has been read last, and what is still to be read, go on to the continuation.
pub match_many : (ℕ → Bool) → Option ℕ → List ℕ → (Option ℕ → List ℕ → Bool) → Bool
match_many c last [] k = k last []
match_many c last (x ∷ s) k = k last (x ∷ s) || (c x && match_many c (some x) s k)

pub match_at : Regex → Option ℕ → List ℕ → (Option ℕ → List ℕ → Bool) → Bool
unfolding match_many
match_at empty last s k = k last s
match_at start last s k = at_start last && k last s
match_at end last s k = at_end s && k last s
match_at boundary last s k = xor (last_is_word last) (next_is_word s) && k last s
match_at (ahead p) last s k = p s && k last s
match_at (chr c) last [] k = false
match_at (chr c) last (x ∷ s) k = c x && k (some x) s
match_at (many c) last s k = match_many c last s k
match_at (seq r t) last s k = match_at r last s (λ last' s'. match_at t last' s' k)
match_at (alt r t) last s k = match_at r last s k || match_at t last s k

pub test_from : Regex → Option ℕ → List ℕ → Bool
unfolding match_at
test_from r last [] = match_at r last [] (λ _ _. true)
test_from r last (x ∷ s) = match_at r last (x ∷ s) (λ _ _. true) || test_from r (some x) s

unfoldable pub test : Regex → List ℕ → Bool
unfolding test_from xor
test r s = test_from r none s

-- A word, letter by letter.
abbrev pub text_of : List ℕ → Regex
text_of [] = empty
text_of (c ∷ cs) = seq (chr (λ x. x == c)) (text_of cs)

abbrev pub lit : String → Regex
lit s = text_of (codes s)

-- The flag `i`, for ASCII text.
abbrev pub lower : ℕ → ℕ
lower c = if leb b'A' c && leb c b'Z' then c + 32 else c

abbrev pub text_ignoring_case : List ℕ → Regex
text_ignoring_case [] = empty
text_ignoring_case (c ∷ cs) = seq (chr (λ x. lower x == lower c)) (text_ignoring_case cs)

abbrev pub lit_i : String → Regex
lit_i s = text_ignoring_case (codes s)

abbrev pub one_of : List Regex → Regex
one_of [] = chr (λ _. false)
one_of (r ∷ rs) = alt r (one_of rs)

abbrev pub all_of : List Regex → Regex
all_of [] = empty
all_of (r ∷ rs) = seq r (all_of rs)

-- `\s` and `\s+`
abbrev pub space : Regex
space = chr is_space

abbrev pub spaces : Regex
spaces = seq (chr is_space) (many is_space)

-- `[A-Za-z]*`
abbrev pub is_letter : ℕ → Bool
is_letter c = (leb b'a' c && leb c b'z') || (leb b'A' c && leb c b'Z')

abbrev pub letters : Regex
letters = many is_letter
