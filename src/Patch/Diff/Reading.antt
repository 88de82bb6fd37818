-- ===== src/Patch/Diff/Reading.antt =====
-- What parseUnifiedDiff of src/run/provider-patch-validator.ts makes of one line.
use run_forge.Common.{
  arith, String, any, ◌==◌, ◌||◌, ◌+◌, if◌then◌else◌, ◌≡◌, refl, Bool, true, false, Option, none,
  some, List, [], ◌∷◌, ◌++◌, inl, inr, Bool-cases, Option-cases, is_some,
}
use run_forge.Common.Text.{codes}
use run_forge.Patch.Diff.{
  is_empty, last_blank, Units, after, rest_of_line, diff_header, strip_diff_prefix, equals,
  push_path, Current, Parsed, open_diff, flag_line, body_line, within, read_line, read_lines,
}
use run_forge.Patch.Validate.{includes}
use run_forge.Patch.Validate.Lists.{includes-append_left}
use run_forge.Patch.Diff.Names.{IsDiffLine, IsHeader, IsStripped, of_a, of_b, plain}

-- What the parser's tests make of such lines.
or_false : (a b : Bool) → (a || b) ≡ false → (a ≡ false) × (b ≡ false)
or_false a b h = ground (arith, h)

after_append : (p s : Units) → after p (p ++ s) ≡ some s
unfolding after
after_append [] s = refl
after_append (c ∷ p) s = ground (arith, after_append p s)

pub rest_of_header :
    (mark : String) (line text : Units)
    → IsHeader mark line text
    → rest_of_line (after (codes mark) line) ≡ some text
rest_of_header mark line text h =
    rw (h.spelled, after_append (codes mark) text, h.given, h.one_line) refl

last_blank-none : (s : Units) → any (λ c. c == 32) s ≡ false → last_blank s ≡ none
unfolding last_blank
last_blank-none [] h = refl
last_blank-none (c ∷ cs) h =
    let (now, more) = or_false (c == 32) _ h in rw (last_blank-none cs more, now) refl

last_blank_append :
    (old new : Units)
    → is_empty new ≡ false
    → any (λ c. c == 32) new ≡ false
    → last_blank (old ++ 32 ∷ new) ≡ some (old, new)
unfolding last_blank
last_blank_append [] new g n = rw (last_blank-none new n, g) refl
last_blank_append (c ∷ old) new g n = rw (last_blank_append old new g n) refl

pub diff_header-IsDiffLine :
    (line old new : Units) → IsDiffLine line old new → diff_header line ≡ some (old, new)
unfolding diff_header
diff_header-IsDiffLine line [] new h = let no = h.old_given in cc
diff_header-IsDiffLine line (c ∷ old) new h =
    rw
      (
        h.spelled,
        after_append (codes "diff --git ") (c ∷ old ++ 32 ∷ new),
        h.one_line,
        last_blank_append (c ∷ old) new h.new_given h.no_blank,
      )
      refl

pub strip_diff_prefix-IsStripped : (s path : Units) → IsStripped s path → strip_diff_prefix s ≡ path
unfolding strip_diff_prefix after
strip_diff_prefix-IsStripped s path of_a = refl
strip_diff_prefix-IsStripped s path of_b = refl
strip_diff_prefix-IsStripped s path (plain a b) = elim (Option-cases (after (codes "a/") s)) [
  | inr (rest, e) ↦ let no = rw e at a in cc
  | inl e ↦ elim (Option-cases (after (codes "b/") s)) [
    | inr (rest, f) ↦ let no = rw f at b in cc
    | inl f ↦ rw (e, f, strip_diff_prefix) refl
  ]
]

pub read_line_open :
    (line old new : Units) (p : Parsed)
    → diff_header line ≡ some (old, new)
    → read_line line p ≡ open_diff old new p
unfolding read_line
read_line_open line old new p e = rw (e, read_line) refl

pub read_line_within :
    (line : Units) (p : Parsed)
    → diff_header line ≡ none
    → read_line line p ≡ within line (flag_line line p) p.current
unfolding read_line
read_line_within line p e = rw (e, read_line) refl

push_path-includes :
    (path text : Units) (files : List Units)
    → includes path files ≡ true
    → includes path (push_path text files) ≡ true
push_path-includes path text files m = elim (Bool-cases (equals text (codes "/dev/null"))) [
  | inl e ↦ rw e m
  | inr e ↦ rw e (includes-append_left path files (text ∷ []) m)
]

-- A path that is there stays, and a diff that is open stays open.
pub record Keeps (path : Units) (p q : Parsed) : Type 0 where
  pub files : includes path p.files ≡ true → includes path q.files ≡ true
  pub is_open : is_some p.current ≡ true → is_some q.current ≡ true

unnamed-Keeps :
    (path : Units) (hunk changed : Bool) (c : Current) (p : Parsed)
    → Keeps path p (
        if hunk
        then record p { current = some (record c { saw_hunk = true }) }
        else if changed
        then record p { changed_line_count = p.changed_line_count + 1 }
        else p)
unnamed-Keeps path true changed c p = record { files = λ m. m; is_open = λ o. refl }
unnamed-Keeps path false true c p = record { files = λ m. m; is_open = λ o. o }
unnamed-Keeps path false false c p = record { files = λ m. m; is_open = λ o. o }

body_line-Keeps : (path line : Units) (c : Current) (p : Parsed) → Keeps path p (body_line line c p)
unfolding body_line
body_line-Keeps path line c p = elim (Option-cases (rest_of_line (after (codes "--- ") line))) [
  | inr (text, e) ↦
      rw (e, body_line)
        (record {
          files = push_path-includes path (strip_diff_prefix text) p.files;
          is_open = λ o. refl;
        })
  | inl e ↦ elim (Option-cases (rest_of_line (after (codes "+++ ") line))) [
    | inr (text, f) ↦
        rw (e, f, body_line)
          (record {
            files = push_path-includes path (strip_diff_prefix text) p.files;
            is_open = λ o. refl;
          })
    | inl f ↦ rw (e, f, body_line) (unnamed-Keeps path _ _ c p)
  ]
]

within-Keeps :
    (path line : Units) (p q : Parsed) (o : Option Current)
    → q.files ≡ p.files
    → q.current ≡ p.current
    → Keeps path p (within line q o)
unfolding within
within-Keeps path line p q none f c = record { files = λ m. rw f m; is_open = λ k. rw c k }
within-Keeps path line p q (some x) f c =
    let body = body_line-Keeps path line x q in
    record { files = λ m. body.files (rw f m); is_open = λ k. body.is_open (rw c k) }

pub read_line-Keeps : (path line : Units) (p : Parsed) → Keeps path p (read_line line p)
unfolding read_line flag_line
read_line-Keeps path line p = elim (Option-cases (diff_header line)) [
  | inl e ↦
      rw (read_line_within line p e)
        (within-Keeps path line p (flag_line line p) p.current refl refl)
  | inr ((old, new), e) ↦
      rw (read_line_open line old new p e)
        (record { files = includes-append_left path p.files _; is_open = λ o. refl })
]

pub read_lines-files :
    (path : Units) (lines : List Units) (p : Parsed)
    → includes path p.files ≡ true
    → includes path (read_lines lines p).files ≡ true
unfolding read_lines
read_lines-files path [] p m = m
read_lines-files path (line ∷ rest) p m =
    read_lines-files path rest (read_line line p) ((read_line-Keeps path line p).files m)
