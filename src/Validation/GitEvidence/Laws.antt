-- ===== src/Validation/GitEvidence/Laws.antt =====
-- The arguments that the parser lets through.
use run_forge.Common.{
  ◌==◌, ℕ, ◌≡◌, refl, sym, ap, subst, Bool, true, false, ◌&&◌, ◌||◌, Option, none, some, List, [],
  ◌∷◌, ◌++◌, inl, inr, arith, any, Bool-cases, Option-cases,
}
use run_forge.Common.Text.{codes, trim}
use run_forge.Validation.GitEvidence.{
  Range, cut, after_dots, put_before, is_line_end, Text, GitEvidenceKind, ParsedGitEvidence,
  same_text, equal, full_sha, safe_revision, canonical_revision, range_of, safe_range,
  canonical_range, is, parse_status, is_diff, parse_diff, parse_revisions, first_parse, parse_args,
  args_of, split_spaces, parse_git_evidence_command, judged, forbidden_syntax, is_head,
}

-- A revision that names one object: a full object id, or the text that is expected.
pub data IsPinned (expected : Option Text) : Text → Type 0 where
  full : {v : Text} → full_sha v ≡ true → IsPinned expected v
  same : {v : Text} → expected ≡ some v → IsPinned expected v

-- What stands between the two revisions of a range.
pub data IsDots : Text → Type 0 where
  two : IsDots (b'.' ∷ b'.' ∷ [])
  three : IsDots (b'.' ∷ b'.' ∷ b'.' ∷ [])

-- `git status --porcelain`, with its version or without.
abbrev is_status : List Text → Bool
is_status args =
    equal args (codes "status" ∷ codes "--porcelain" ∷ [])
    || equal args (codes "status" ∷ codes "--porcelain=v1" ∷ [])

-- The argument lists that only read, with every revision pinned.
pub data IsReadOnly (expected : Option Text) : List Text → Type 0 where
  status : {args : List Text} → is_status args ≡ true → IsReadOnly expected (codes "git" ∷ args)
  diff :
      {flag : Text}
      → (is "--check" flag || is "--name-only" flag) ≡ true
      → IsReadOnly expected
          (codes "git" ∷ codes "diff" ∷ codes "--no-ext-diff" ∷ codes "--no-textconv" ∷ flag ∷ [])
  diff_range :
      {flag a b dots : Text}
      → IsDots dots
      → (is "--check" flag || is "--name-only" flag) ≡ true
      → IsPinned expected a
      → IsPinned expected b
      → IsReadOnly expected (
          codes "git"
          ∷ codes "diff"
          ∷ codes "--no-ext-diff"
          ∷ codes "--no-textconv"
          ∷ flag
          ∷ (a ++ (dots ++ b))
          ∷ [])
  rev_parse :
      {a : Text}
      → IsPinned expected a
      → IsReadOnly expected (codes "git" ∷ codes "rev-parse" ∷ a ∷ [])
  merge_base :
      {a b : Text}
      → IsPinned expected a
      → IsPinned expected b
      → IsReadOnly expected (codes "git" ∷ codes "merge-base" ∷ a ∷ b ∷ [])

same_text-eq : (a b : Text) → same_text a b ≡ true → a ≡ b
unfolding same_text
same_text-eq [] [] h = refl
same_text-eq [] (y ∷ ys) h = absurd (cc)
same_text-eq (x ∷ xs) [] h = absurd (cc)
same_text-eq (x ∷ xs) (y ∷ ys) h = ground (arith, same_text-eq xs ys)

full_sha_empty : full_sha [] ≡ false
unfolding full_sha
full_sha_empty = refl

pinned_some :
    (v : Text) (c : ℕ) (cs : Text)
    → safe_revision v (some (c ∷ cs)) ≡ true
    → IsPinned (some (c ∷ cs)) (canonical_revision v (some (c ∷ cs)))
unfolding safe_revision canonical_revision
pinned_some v c cs h = elim (Bool-cases (is_head v)) [
  | inl e ↦ rw e (same refl)
  | inr e ↦ elim (Bool-cases (full_sha v)) [
    | inl f ↦ rw e (full f)
    | inr f ↦ rw e (same (ap some (sym (same_text-eq v (c ∷ cs) (ground arith)))))
  ]
]

nothing_expected :
    (v : Text)
    → full_sha v ≡ false
    → full_sha v || (same_text v [] || (is_head v && full_sha [])) ≡ true
    → same_text v [] ≡ true
nothing_expected v f h = ground (arith, full_sha_empty)

-- A revision that is safe is pinned once it is canonical.
canonical_revision-IsPinned :
    (v : Text) (expected : Option Text)
    → safe_revision v expected ≡ true
    → IsPinned expected (canonical_revision v expected)
unfolding safe_revision canonical_revision
canonical_revision-IsPinned v none h = full (ground arith)
canonical_revision-IsPinned v (some []) h = elim (Bool-cases (full_sha v)) [
  | inl f ↦ full f
  | inr f ↦ same (ap some (sym (same_text-eq v [] (nothing_expected v f h))))
]
canonical_revision-IsPinned v (some (c ∷ cs)) h = pinned_some v c cs h

abbrev ArgvIsReadOnly : Option Text → ParsedGitEvidence → Type 0
ArgvIsReadOnly expected (ParsedGitEvidence.supported argv kind) = IsReadOnly expected argv
ArgvIsReadOnly expected (ParsedGitEvidence.unsupported reason) = Unit

abbrev IfParsed : Option Text → Option ParsedGitEvidence → Type 0
IfParsed expected none = Unit
IfParsed expected (some parsed) = ArgvIsReadOnly expected parsed

first_parse-ArgvIsReadOnly :
    (expected : Option Text) (o : Option ParsedGitEvidence) (p : ParsedGitEvidence)
    → IfParsed expected o
    → ArgvIsReadOnly expected p
    → ArgvIsReadOnly expected (first_parse o p)
first_parse-ArgvIsReadOnly expected none p h k = k
first_parse-ArgvIsReadOnly expected (some q) p h k = h

parse_status-IfParsed :
    (expected : Option Text) (args : List Text) → IfParsed expected (parse_status args)
unfolding parse_status
parse_status-IfParsed expected args = elim (Bool-cases (is_status args)) [
  | inl e ↦ rw e (status e)
  | inr e ↦ rw e tt
]

abbrev DotsOf : Option Range → Type 0
DotsOf none = Unit
DotsOf (some r) = IsDots r.dots

after_dots-IsDots : (s : Text) → IsDots (after_dots s).dots
after_dots-IsDots [] = two
after_dots-IsDots (c ∷ s) = elim (Bool-cases (c == b'.')) [ inl e ↦ rw e three | inr e ↦ rw e two ]

put_before-DotsOf :
    (c : ℕ) (o : Option Range) (r : Range)
    → ((q : Range) → o ≡ some q → IsDots q.dots)
    → put_before c o ≡ some r
    → IsDots r.dots
put_before-DotsOf c none r known h = absurd (cc)
put_before-DotsOf c (some q) r known h = subst (λ (x : Option Range). DotsOf x) h (known q refl)

cut-IsDots : (value : Text) (r : Range) → cut value ≡ some r → IsDots r.dots
unfolding cut
cut-IsDots [] r h = absurd (cc)
cut-IsDots (c ∷ []) r h = absurd (cc)
cut-IsDots (c ∷ d ∷ s) r h = elim (Bool-cases (c == b'.' && d == b'.')) [
  | inl e ↦ subst (λ (q : Option Range). DotsOf q) (rw e at h) (after_dots-IsDots s)
  | inr e ↦ put_before-DotsOf c (cut (d ∷ s)) r (cut-IsDots (d ∷ s)) (rw e at h)
]

range_of-IsDots : (value : Text) (r : Range) → range_of value ≡ some r → IsDots r.dots
unfolding range_of
range_of-IsDots value r h = elim (Bool-cases (any is_line_end value)) [
  | inl e ↦ absurd (cc (rw e at h))
  | inr e ↦ cut-IsDots value r (rw e at h)
]

ranged :
    (expected : Option Text) (verb flag range : Text)
    → is_diff verb flag ≡ true
    → safe_range range expected ≡ true
    → IsReadOnly expected (
        codes "git"
        ∷ codes "diff"
        ∷ codes "--no-ext-diff"
        ∷ codes "--no-textconv"
        ∷ flag
        ∷ canonical_range range expected)
unfolding safe_range canonical_range
ranged expected verb flag range h k = elim (Option-cases (range_of range)) [
  | inl e ↦ absurd (cc (rw (e, safe_range) at k))
  | inr (r, e) ↦
      let both = rw (e, safe_range) at k in
      rw (e, canonical_range)
        (diff_range (range_of-IsDots range r e) (ground arith)
          (canonical_revision-IsPinned r.from expected (ground arith))
          (canonical_revision-IsPinned r.to expected (ground arith)))
]

parse_diff-IfParsed :
    (expected : Option Text) (args : List Text) → IfParsed expected (parse_diff expected args)
unfolding parse_diff
parse_diff-IfParsed expected [] = tt
parse_diff-IfParsed expected (verb ∷ []) = tt
parse_diff-IfParsed expected (verb ∷ flag ∷ []) = elim (Bool-cases (is_diff verb flag)) [
  | inl e ↦ rw e (diff (ground arith))
  | inr e ↦ rw e tt
]
parse_diff-IfParsed expected (verb ∷ flag ∷ range ∷ []) = elim (Bool-cases (is_diff verb flag)) [
  | inr e ↦ rw e tt
  | inl e ↦ elim (Bool-cases (safe_range range expected)) [
    | inr f ↦ rw (e, f) tt
    | inl f ↦ rw (e, f) (ranged expected verb flag range e f)
  ]
]
parse_diff-IfParsed expected (verb ∷ flag ∷ range ∷ more ∷ rest) = tt

parse_revisions-IfParsed :
    (expected : Option Text) (args : List Text) → IfParsed expected (parse_revisions expected args)
unfolding parse_revisions
parse_revisions-IfParsed expected [] = tt
parse_revisions-IfParsed expected (verb ∷ []) = tt
parse_revisions-IfParsed expected (verb ∷ a ∷ []) =
    elim (Bool-cases (is "rev-parse" verb && safe_revision a expected)) [
      | inr e ↦ rw e tt
      | inl e ↦ rw e (rev_parse (canonical_revision-IsPinned a expected (ground arith)))
    ]
parse_revisions-IfParsed expected (verb ∷ a ∷ b ∷ []) =
    elim (Bool-cases
      (is "merge-base" verb && (safe_revision a expected && safe_revision b expected))) [
        | inr e ↦ rw e tt
        | inl e ↦ rw e (
            merge_base (canonical_revision-IsPinned a expected (ground arith))
              (canonical_revision-IsPinned b expected (ground arith)))
      ]
parse_revisions-IfParsed expected (verb ∷ a ∷ b ∷ more ∷ rest) = tt

parse_args-ArgvIsReadOnly :
    (expected : Option Text) (args : List Text) → ArgvIsReadOnly expected (parse_args expected args)
unfolding parse_args
parse_args-ArgvIsReadOnly expected args =
    first_parse-ArgvIsReadOnly expected _ _ (parse_status-IfParsed expected args) (
      first_parse-ArgvIsReadOnly expected _ _ (parse_diff-IfParsed expected args)
        (first_parse-ArgvIsReadOnly expected _ _ (parse_revisions-IfParsed expected args) tt))

-- The parser's tests in their order, over what they answer.
checked :
    (expected : Option Text) (argv : List Text) (kind : GitEvidenceKind) (a b c : Bool)
    (args : Option (List Text))
    → judged expected (a || (b || c)) args ≡ ParsedGitEvidence.supported argv kind
    → (b ≡ false) × IsReadOnly expected argv
unfolding judged
checked expected argv kind true b c args h = absurd (cc)
checked expected argv kind false true c args h = absurd (cc)
checked expected argv kind false false true args h = absurd (cc)
checked expected argv kind false false false none h = absurd (cc)
checked expected argv kind false false false (some args) h =
    (refl, subst (ArgvIsReadOnly expected) h (parse_args-ArgvIsReadOnly expected args))

-- A command that the parser supports holds no character of shell syntax, and its arguments are those
-- of a status, a diff with external drivers off, a rev-parse or a merge-base, in which every revision
-- is a full object id or the expected one, and in which a range is two of these with two or three dots
-- between them and nothing else.
pub parse_git_evidence_command-IsReadOnly :
    (command : Text) (expected : Option Text) (argv : List Text) (kind : GitEvidenceKind)
    → parse_git_evidence_command command expected ≡ ParsedGitEvidence.supported argv kind
    → (any forbidden_syntax (trim command) ≡ false) × IsReadOnly expected argv
unfolding parse_git_evidence_command
parse_git_evidence_command-IsReadOnly command expected argv kind h =
    checked expected argv kind _ (any forbidden_syntax (trim command)) _
      (args_of (split_spaces (trim command))) h
