-- ===== src/Patch/Diff/Kept.antt =====
-- The paths that a patch names are among those that parseUnifiedDiff of
-- src/run/provider-patch-validator.ts keeps.
use run_forge.Common.{
  sym, ◌≡◌, refl, Bool, true, false, Option, none, some, List, [], ◌∷◌, ◌++◌, inl, inr, is_some,
  ◌⊎◌,
}
use run_forge.Common.Text.{codes}
use run_forge.Patch.Diff.{
  Units, after, rest_of_line, diff_header, strip_diff_prefix, equals, push_path, Current, Parsed,
  open_diff, flag_line, body_line, within, read_line, read_lines, unread, split_lines, close_diff,
  parse_unified_diff,
}
use run_forge.Patch.Validate.{includes}
use run_forge.Patch.Validate.Lists.{includes-cons_self, includes-cons, includes-append_right}
use run_forge.Patch.Diff.Names.{
  IsHeader, IsStripped, Named, old_of, new_of, minus, plus, opened, later, PatchNames,
}
use run_forge.Patch.Diff.Reading.{
  rest_of_header, diff_header-IsDiffLine, strip_diff_prefix-IsStripped, read_line_open,
  read_line_within, read_line-Keeps, read_lines-files,
}

includes_last : (path : Units) (files : List Units) → includes path (files ++ path ∷ []) ≡ true
includes_last path files = includes-append_right path files (path ∷ []) (includes-cons_self path [])

push_path_self :
    (path : Units) (files : List Units)
    → equals path (codes "/dev/null") ≡ false
    → includes path (push_path path files) ≡ true
push_path_self path files e = rw e (includes_last path files)

open_diff-files :
    (old new : Units) (p : Parsed)
    → (includes (strip_diff_prefix old) (open_diff old new p).files ≡ true)
      × (includes (strip_diff_prefix new) (open_diff old new p).files ≡ true)
unfolding open_diff
open_diff-files old new p =
    let a = strip_diff_prefix old in
    let b = strip_diff_prefix new in
    (
      includes-append_right a p.files (a ∷ b ∷ []) (includes-cons_self a (b ∷ [])),
      includes-append_right b p.files (a ∷ b ∷ [])
          (includes-cons b a (b ∷ []) (includes-cons_self b [])),
    )

opened_is_open : (old new : Units) (p : Parsed) → is_some (open_diff old new p).current ≡ true
unfolding open_diff
opened_is_open old new p = refl

-- What a line of an open diff names.
named_within :
    (line text : Units) (p : Parsed) (o : Option Current)
    → is_some o ≡ true
    → (rest_of_line (after (codes "--- ") line) ≡ some text)
      ⊎ ((rest_of_line (after (codes "--- ") line) ≡ none)
          × (rest_of_line (after (codes "+++ ") line) ≡ some text))
    → equals (strip_diff_prefix text) (codes "/dev/null") ≡ false
    → includes (strip_diff_prefix text) (within line (flag_line line p) o).files ≡ true
unfolding within body_line flag_line
named_within line text p none h found n = cc
named_within line text p (some c) h (inl e) n =
    rw (e, body_line) (push_path_self (strip_diff_prefix text) p.files n)
named_within line text p (some c) h (inr (e, f)) n =
    rw (e, f, body_line) (push_path_self (strip_diff_prefix text) p.files n)

-- A header line of an open diff.
no_diff :
    (line text : Units)
    → IsHeader "--- " line text ⊎ IsHeader "+++ " line text
    → diff_header line ≡ none
unfolding diff_header after
no_diff line text (inl h) = rw h.spelled refl
no_diff line text (inr h) = rw h.spelled refl

named_mark :
    (line text : Units)
    → IsHeader "--- " line text ⊎ IsHeader "+++ " line text
    → (rest_of_line (after (codes "--- ") line) ≡ some text)
      ⊎ ((rest_of_line (after (codes "--- ") line) ≡ none)
          × (rest_of_line (after (codes "+++ ") line) ≡ some text))
unfolding after
named_mark line text (inl h) = inl (rest_of_header "--- " line text h)
named_mark line text (inr h) = inr (rw h.spelled refl, rest_of_header "+++ " line text h)

named_line :
    (line text path : Units) (p : Parsed)
    → is_some p.current ≡ true
    → IsHeader "--- " line text ⊎ IsHeader "+++ " line text
    → IsStripped text path
    → equals path (codes "/dev/null") ≡ false
    → includes path (read_line line p).files ≡ true
named_line line text path p s h strip n =
    let same = sym (strip_diff_prefix-IsStripped text path strip) in
    rw (read_line_within line p (no_diff line text h), same)
      (named_within line text p p.current s (named_mark line text h) (rw same at n))

-- The parser keeps each path that the lines name.
pub read_lines-Named :
    (path : Units) (started : Bool) (lines : List Units) (p : Parsed)
    → Named path started lines
    → (started ≡ true → is_some p.current ≡ true)
    → includes path (read_lines lines p).files ≡ true
unfolding read_lines
read_lines-Named path started [] p named s = elim named [ ]
read_lines-Named path started (line ∷ rest) p (old_of {old = old} {new = new} d strip) s =
    read_lines-files path rest _ (
      rw
        (
          read_line_open line old new p (diff_header-IsDiffLine line old new d),
          sym (strip_diff_prefix-IsStripped old path strip),
        )
        (open_diff-files old new p).0)
read_lines-Named path started (line ∷ rest) p (new_of {old = old} {new = new} d strip) s =
    read_lines-files path rest _ (
      rw
        (
          read_line_open line old new p (diff_header-IsDiffLine line old new d),
          sym (strip_diff_prefix-IsStripped new path strip),
        )
        (open_diff-files old new p).1)
read_lines-Named path started (line ∷ rest) p (minus {text = text} h strip n) s =
    read_lines-files path rest _ (named_line line text path p (s refl) (inl h) strip n)
read_lines-Named path started (line ∷ rest) p (plus {text = text} h strip n) s =
    read_lines-files path rest _ (named_line line text path p (s refl) (inr h) strip n)
read_lines-Named path started (line ∷ rest) p (opened {old = old} {new = new} d more) s =
    read_lines-Named path true rest (read_line line p) more (λ _.
      rw (read_line_open line old new p (diff_header-IsDiffLine line old new d))
        (opened_is_open old new p))
read_lines-Named path started (line ∷ rest) p (later more) s =
    read_lines-Named path started rest (read_line line p) more
      (λ e. (read_line-Keeps path line p).is_open (s e))

pub parse_unified_diff-PatchNames :
    (patch path : Units)
    → PatchNames patch path
    → includes path (parse_unified_diff patch).files ≡ true
unfolding parse_unified_diff close_diff
parse_unified_diff-PatchNames patch path named =
    read_lines-Named path false (split_lines patch) unread named (λ e. cc)
