-- ===== src/Validation/GitEvidence.antt =====
-- The Git commands that a validation may run as evidence, `parseGitEvidenceCommand` of
-- src/validation/git-evidence-lane.ts. A text is a list of code points.
pub mod Laws
use run_forge.Common.{
  ℕ, Bool, true, false, not, ◌&&◌, ◌||◌, Option, none, some, List, [], ◌∷◌, ◌++◌, String,
  if◌then◌else◌, ◌==◌, leb, any, every, length,
}
use run_forge.Common.Text.{codes, is_space, trim}
use run_forge.Common.Regex.{start, chr, many, alt, seq, test, lit, all_of, space}

abbrev pub Text : Type 0
Text = List ℕ

pub data GitEvidenceKind : Type 0 where
  status diff_check rev_parse merge_base changed_paths : GitEvidenceKind

pub data ParsedGitEvidence : Type 0 where
  supported : (argv : List Text) (kind : GitEvidenceKind) → ParsedGitEvidence
  unsupported : (reason : String) → ParsedGitEvidence

unfoldable pub same_text : Text → Text → Bool
same_text [] [] = true
same_text [] (y ∷ ys) = false
same_text (x ∷ xs) [] = false
same_text (x ∷ xs) (y ∷ ys) = x == y && same_text xs ys

-- `value === expectedSha`
abbrev pub is_expected : Text → Option Text → Bool
is_expected value none = false
is_expected value (some sha) = same_text value sha

unfoldable pub equal : List Text → List Text → Bool
equal [] [] = true
equal [] (y ∷ ys) = false
equal (x ∷ xs) [] = false
equal (x ∷ xs) (y ∷ ys) = same_text x y && equal xs ys

-- `[a-f0-9]` with the flag `i`
abbrev is_hex : ℕ → Bool
is_hex c = (leb b'a' c && leb c b'f') || (leb b'A' c && leb c b'F') || (leb b'0' c && leb c b'9')

unfoldable pub full_sha : Text → Bool
full_sha value = every is_hex value && (length value == 40 || length value == 64)

abbrev pub expects_sha : Option Text → Bool
expects_sha none = false
expects_sha (some sha) = full_sha sha

abbrev pub is_head : Text → Bool
is_head value = same_text value (codes "HEAD")

unfoldable pub safe_revision : Text → Option Text → Bool
safe_revision value expected =
    full_sha value || (is_expected value expected || (is_head value && expects_sha expected))

-- `HEAD` becomes the expected object; an empty expectation is none.
unfoldable pub canonical_revision : Text → Option Text → Text
canonical_revision value none = value
canonical_revision value (some []) = value
canonical_revision value (some (c ∷ cs)) = if is_head value then c ∷ cs else value

-- A range is cut at its first two dots; a third dot belongs to them.
pub record Range : Type 0 where
  pub from : Text
  pub dots : Text
  pub to : Text

abbrev pub after_dots : Text → Range
after_dots [] = record { from = []; dots = codes ".."; to = [] }
after_dots (c ∷ s) =
    if c == b'.'
    then record { from = []; dots = codes "..."; to = s }
    else record { from = []; dots = codes ".."; to = c ∷ s }

abbrev pub put_before : ℕ → Option Range → Option Range
put_before c none = none
put_before c (some r) = some (record r { from = c ∷ r.from })

pub cut : Text → Option Range
cut [] = none
cut (c ∷ []) = none
cut (c ∷ d ∷ s) =
    let rest = put_before c (cut (d ∷ s)) in
    if c == b'.' && d == b'.' then some (after_dots s) else rest

-- The characters that `.` does not match.
abbrev pub is_line_end : ℕ → Bool
is_line_end c = c == 10 || c == 13 || c == 0x2028 || c == 0x2029

unfoldable pub range_of : Text → Option Range
unfolding cut
range_of value = if any is_line_end value then none else cut value

unfoldable pub safe_range : Text → Option Text → Bool
unfolding range_of
safe_range value expected = elim (range_of value) [
  | none ↦ false
  | some r ↦ safe_revision r.from expected && safe_revision r.to expected
]

unfoldable pub canonical_range : Text → Option Text → List Text
unfolding range_of
canonical_range value expected = elim (range_of value) [
  | none ↦ []
  | some r ↦
      (canonical_revision r.from expected ++ (r.dots ++ canonical_revision r.to expected)) ∷ []
]

abbrev pub is : String → Text → Bool
is word value = same_text value (codes word)

unfoldable pub parse_status : List Text → Option ParsedGitEvidence
parse_status args =
    if equal args (codes "status" ∷ codes "--porcelain" ∷ [])
      || equal args (codes "status" ∷ codes "--porcelain=v1" ∷ [])
    then some (ParsedGitEvidence.supported (codes "git" ∷ args) GitEvidenceKind.status)
    else none

abbrev pub diff_kind : Text → GitEvidenceKind
diff_kind flag =
    if is "--check" flag then GitEvidenceKind.diff_check else GitEvidenceKind.changed_paths

abbrev pub is_diff : Text → Text → Bool
is_diff verb flag = is "diff" verb && (is "--check" flag || is "--name-only" flag)

abbrev pub diff_with : Text → List Text → ParsedGitEvidence
diff_with flag range =
    ParsedGitEvidence.supported
      (codes "git" ∷ codes "diff" ∷ codes "--no-ext-diff" ∷ codes "--no-textconv" ∷ flag ∷ range)
      (diff_kind flag)

unfoldable pub parse_diff : Option Text → List Text → Option ParsedGitEvidence
parse_diff expected (verb ∷ flag ∷ []) =
    if is_diff verb flag then some (diff_with flag []) else none
parse_diff expected (verb ∷ flag ∷ range ∷ []) =
    if not (is_diff verb flag)
    then none
    else if not (safe_range range expected)
    then some (
        ParsedGitEvidence.unsupported
          "Git diff accepts only a bounded range of HEAD, the expected SHA, or full object IDs.")
    else some (diff_with flag (canonical_range range expected))
parse_diff expected _ = none

unfoldable pub parse_revisions : Option Text → List Text → Option ParsedGitEvidence
parse_revisions expected (verb ∷ a ∷ []) =
    if is "rev-parse" verb && safe_revision a expected
    then some (
        ParsedGitEvidence.supported
          (codes "git" ∷ codes "rev-parse" ∷ canonical_revision a expected ∷ [])
          GitEvidenceKind.rev_parse)
    else none
parse_revisions expected (verb ∷ a ∷ b ∷ []) =
    if is "merge-base" verb && (safe_revision a expected && safe_revision b expected)
    then some (
        ParsedGitEvidence.supported
          (codes "git"
            ∷ codes "merge-base"
            ∷ canonical_revision a expected
            ∷ canonical_revision b expected
            ∷ [])
          GitEvidenceKind.merge_base)
    else none
parse_revisions expected _ = none

abbrev pub first_parse : Option ParsedGitEvidence → ParsedGitEvidence → ParsedGitEvidence
first_parse none other = other
first_parse (some parsed) other = parsed

unfoldable pub parse_args : Option Text → List Text → ParsedGitEvidence
parse_args expected args = first_parse (parse_status args) (
    first_parse (parse_diff expected args) (
      first_parse (parse_revisions expected args) (
        ParsedGitEvidence.unsupported
          "Only status porcelain, diff --check, diff --name-only, bounded rev-parse, and two-revision merge-base are supported.")))

-- `[;&|`$<>\\\n\r'"(){}\[\]*?!]`
unfoldable pub forbidden_syntax : ℕ → Bool
forbidden_syntax c = any (λ x. c == x) (codes ";&|`$<>\\\n\r'\"(){}[]*?!")

-- `text.split(" ")`
abbrev cons_word : ℕ → List Text → List Text
cons_word c [] = (c ∷ []) ∷ []
cons_word c (w ∷ ws) = (c ∷ w) ∷ ws

unfoldable pub split_spaces : Text → List Text
split_spaces [] = [] ∷ []
split_spaces (c ∷ s) =
    let rest = split_spaces s in if c == b' ' then [] ∷ rest else cons_word c rest

abbrev is_empty_text : Text → Bool
is_empty_text [] = true
is_empty_text (c ∷ s) = false

-- What `argv[0] !== "git" || argv.some((item) => !item)` refuses, and what is left of `argv`.
abbrev pub args_of : List Text → Option (List Text)
args_of [] = none
args_of (word ∷ args) = if is "git" word && not (any is_empty_text args) then some args else none

-- The answer for a command whose syntax is refused or whose arguments are these.
unfoldable pub judged : Option Text → (refused : Bool) → Option (List Text) → ParsedGitEvidence
judged expected refused args =
    if refused
    then ParsedGitEvidence.unsupported
        "Shell syntax, quoting, globbing, substitutions, redirects, or malformed spacing are unsupported."
    else elim args [
      | none ↦
          ParsedGitEvidence.unsupported
            "The command must be a structurally parseable Git argv form."
      | some args' ↦ parse_args expected args'
    ]

unfoldable pub parse_git_evidence_command : Text → Option Text → ParsedGitEvidence
unfolding judged is_space
parse_git_evidence_command command expected =
    let trimmed = trim command in
    judged expected
      (not (test (all_of (start ∷ lit "git " ∷ [])) trimmed)
        || (any forbidden_syntax trimmed
            || test (alt (seq space (seq space (many is_space))) (lit "\t")) trimmed))
      (args_of (split_spaces trimmed))
