-- ===== src/Patch/Diff/Unread.antt =====
-- What `parseUnifiedDiff` of src/run/provider-patch-validator.ts makes of a line before the first
-- `diff --git`.
use run_forge.Common.{
  ◌+◌, ◌≡◌, refl, sym, ◌∙◌, ap, Bool, true, false, ◌||◌, Option, none, some, List, [], ◌∷◌, ◌++◌,
  inl, inr, arith, any, ◌==◌, if◌then◌else◌, Option-cases,
}
use run_forge.Common.Text.{codes}
use run_forge.Patch.Diff.{
  Units, after, rest_of_line, diff_header, Current, Parsed, open_diff, flag_line, body_line, within,
  read_line, read_lines, unread, split_lines, close_diff, parse_unified_diff,
}
use run_forge.Patch.Diff.Reading.{read_line_open, read_line_within}

-- The same reading under other flags.
abbrev reflag : Bool → Bool → Parsed → Parsed
reflag binary modes p = record p { binary_diff = binary; suspicious_file_modes = modes }

unnamed-reflag :
    (b m hunk changed : Bool) (c : Current) (p : Parsed)
    → (if hunk
        then record (reflag b m p) { current = some (record c { saw_hunk = true }) }
        else if changed
        then record (reflag b m p) { changed_line_count = p.changed_line_count + 1 }
        else reflag b m p)
      ≡ reflag b m (
          if hunk
          then record p { current = some (record c { saw_hunk = true }) }
          else if changed
          then record p { changed_line_count = p.changed_line_count + 1 }
          else p)
unnamed-reflag b m true changed c p = refl
unnamed-reflag b m false true c p = refl
unnamed-reflag b m false false c p = refl

body_line-reflag :
    (b m : Bool) (line : Units) (c : Current) (p : Parsed)
    → body_line line c (reflag b m p) ≡ reflag b m (body_line line c p)
unfolding body_line
body_line-reflag b m line c p = elim (Option-cases (rest_of_line (after (codes "--- ") line))) [
  | inr (text, e) ↦ rw (e, body_line) refl
  | inl e ↦ elim (Option-cases (rest_of_line (after (codes "+++ ") line))) [
    | inr (text, f) ↦ rw (e, f, body_line) refl
    | inl f ↦ rw (e, f, body_line) (unnamed-reflag b m _ _ c p)
  ]
]

within-reflag :
    (b m : Bool) (line : Units) (o : Option Current) (p : Parsed)
    → within line (reflag b m p) o ≡ reflag b m (within line p o)
unfolding within
within-reflag b m line none p = refl
within-reflag b m line (some c) p = body_line-reflag b m line c p

read_line-reflag :
    (b m : Bool) (line : Units) (p : Parsed)
    → (b' : Bool) × (m' : Bool) × (read_line line (reflag b m p) ≡ reflag b' m' (read_line line p))
unfolding flag_line open_diff
read_line-reflag b m line p = elim (Option-cases (diff_header line)) [
  | inr ((old, new), e) ↦ (
    b,
    m,
    read_line_open line old new (reflag b m p) e
        ∙ ap (reflag b m) (sym (read_line_open line old new p e)),
  )
  | inl e ↦
      let q = flag_line line (reflag b m p) in
      (
        q.binary_diff,
        q.suspicious_file_modes,
        read_line_within line (reflag b m p) e
            ∙ within-reflag q.binary_diff q.suspicious_file_modes line p.current (flag_line line p)
            ∙ ap (reflag q.binary_diff q.suspicious_file_modes) (sym (read_line_within line p e)),
      )
]

read_lines-reflag :
    (b m : Bool) (lines : List Units) (p : Parsed)
    → (b' : Bool) × (m' : Bool) × (read_lines lines (reflag b m p)
        ≡ reflag b' m' (read_lines lines p))
unfolding read_lines
read_lines-reflag b m [] p = (b, m, refl)
read_lines-reflag b m (line ∷ rest) p =
    let (b1, m1, first) = read_line-reflag b m line p in
    let (b2, m2, later) = read_lines-reflag b1 m1 rest (read_line line p) in
    (b2, m2, ap (λ (q : Parsed). read_lines rest q) first ∙ later)

or_false : (a b : Bool) → (a || b) ≡ false → (a ≡ false) × (b ≡ false)
or_false a b h = ground (arith, h)

split_lines-break :
    (text : Units) (lines : List Units)
    → split_lines text ≡ lines
    → split_lines (10 ∷ text) ≡ [] ∷ split_lines text
unfolding split_lines
split_lines-break text [] e = rw e refl
split_lines-break text (l ∷ ls) e = rw e refl

split_lines-line :
    (line text : Units)
    → any (λ c. c == 10) line ≡ false
    → split_lines (line ++ 10 ∷ text) ≡ line ∷ split_lines text
unfolding split_lines
split_lines-line [] text h = split_lines-break text (split_lines text) refl
split_lines-line (c ∷ cs) text h =
    let (now, more) = or_false (c == 10) _ h in rw (split_lines-line cs text more, now) refl

read_first :
    (line patch : Units)
    → any (λ c. c == 10) line ≡ false
    → diff_header line ≡ none
    → let q = flag_line line unread in
      read_lines (split_lines (line ++ 10 ∷ patch)) unread
      ≡ read_lines (split_lines patch) (reflag q.binary_diff q.suspicious_file_modes unread)
unfolding read_lines within flag_line
read_first line patch h e =
    rw (split_lines-line line patch h)
      (ap (λ (q : Parsed). read_lines (split_lines patch) q) (read_line_within line unread e))

-- A line before the first `diff --git` adds no file and no changed line, whatever path it gives as a
-- `---` or `+++` header.
pub parse_unified_diff-unread :
    (line patch : Units)
    → any (λ c. c == 10) line ≡ false
    → diff_header line ≡ none
    → ((parse_unified_diff (line ++ 10 ∷ patch)).files ≡ (parse_unified_diff patch).files)
      × ((parse_unified_diff (line ++ 10 ∷ patch)).changed_line_count
          ≡ (parse_unified_diff patch).changed_line_count)
unfolding parse_unified_diff close_diff
parse_unified_diff-unread line patch h e =
    let q = flag_line line unread in
    let (b, m, same) =
      read_lines-reflag q.binary_diff q.suspicious_file_modes (split_lines patch) unread in
    let all = read_first line patch h e ∙ same in
    (ap (λ (r : Parsed). r.files) all, ap (λ (r : Parsed). r.changed_line_count) all)
