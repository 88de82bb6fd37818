-- ===== src/Patch/Diff.antt =====
-- `parseUnifiedDiff` of src/run/provider-patch-validator.ts: a pass over the lines of a patch.
pub mod Names
pub mod Reading
pub mod Kept
pub mod Unread
use run_forge.Common.{
  ℕ, ◌+◌, ◌≡◌, refl, Bool, true, false, not, ◌&&◌, ◌||◌, Option, none, some, List, [], ◌∷◌, ◌++◌,
  String, if◌then◌else◌, ◌==◌, any,
}
use run_forge.Common.Text.{codes, is_space, trim}

abbrev pub Units : Type 0
Units = List ℕ

abbrev pub is_empty : Units → Bool
is_empty [] = true
is_empty (c ∷ cs) = false

-- `text.split("\n")`
unfoldable pub split_lines : Units → List Units
split_lines [] = [] ∷ []
split_lines (c ∷ cs) = elim (split_lines cs) [
  | [] ↦ [] ∷ []
  | line ∷ rest ↦ if c == 10 then [] ∷ line ∷ rest else (c ∷ line) ∷ rest
]

-- What follows a prefix.
unfoldable pub after : Units → Units → Option Units
after [] s = some s
after (p ∷ ps) [] = none
after (p ∷ ps) (c ∷ s) = let rest = after ps s in if p == c then rest else none

abbrev pub starts : String → Units → Bool
starts p s = elim (after (codes p) s) [ none ↦ false | some r ↦ true ]

-- `.` of a regular expression matches no line terminator.
abbrev pub is_terminator : ℕ → Bool
is_terminator c = c == 10 || c == 13 || c == 0x2028 || c == 0x2029

-- `(.+)$`
abbrev pub rest_of_line : Option Units → Option Units
rest_of_line none = none
rest_of_line (some s) = if is_empty s || any is_terminator s then none else some s

-- The last blank that something follows, and what stands on each side of it.
pub last_blank : Units → Option (Units × Units)
last_blank [] = none
last_blank (c ∷ cs) = elim (last_blank cs) [
  | some (l, r) ↦ some (c ∷ l, r)
  | none ↦ if c == 32 && not (is_empty cs) then some ([], cs) else none
]

-- `^diff --git (.+) (.+)$`: the first group is as long as can be.
unfoldable pub diff_header : Units → Option (Units × Units)
unfolding after last_blank
diff_header line = elim (rest_of_line (after (codes "diff --git ") line)) [
  | none ↦ none
  | some rest ↦ elim (last_blank rest) [
    | none ↦ none
    | some ([], r) ↦ none
    | some (c ∷ l, r) ↦ some (c ∷ l, r)
  ]
]

-- `stripDiffPrefix`
unfoldable pub strip_diff_prefix : Units → Units
unfolding after
strip_diff_prefix path = elim (after (codes "a/") path) [
  | some rest ↦ rest
  | none ↦ elim (after (codes "b/") path) [ some rest ↦ rest | none ↦ path ]
]

pub record Current : Type 0 where
  pub new_path : Units
  pub saw_old : Bool
  pub saw_new : Bool
  pub saw_hunk : Bool

pub record Parsed : Type 0 where
  pub files : List Units
  pub errors : List Units
  pub binary_diff : Bool
  pub suspicious_file_modes : Bool
  pub changed_line_count : ℕ
  pub current : Option Current
  pub diff_count : ℕ

-- The error for a diff whose headers or hunks are missing.
pub malformed : Option Current → List Units
malformed none = []
malformed (some c) =
    if c.saw_old && c.saw_new && c.saw_hunk
    then []
    else (codes "malformed diff for " ++ c.new_path) ∷ []

pub open_diff : Units → Units → Parsed → Parsed
unfolding malformed strip_diff_prefix
open_diff old new p = record p {
  errors = p.errors ++ malformed p.current;
  current = some (record {
    new_path = strip_diff_prefix new;
    saw_old = false;
    saw_new = false;
    saw_hunk = false;
  });
  files = p.files ++ strip_diff_prefix old ∷ strip_diff_prefix new ∷ [];
  diff_count = p.diff_count + 1;
}

abbrev pub equals : Units → Units → Bool
equals [] [] = true
equals (c ∷ s) (d ∷ t) = c == d && equals s t
equals s t = false

-- `if (path !== "/dev/null") files.push(path)`
abbrev pub push_path : Units → List Units → List Units
push_path path files = if equals path (codes "/dev/null") then files else files ++ path ∷ []

-- `/^\+[^+]/` and `/^-[^-]/`
abbrev pub is_single : ℕ → Units → Bool
is_single sign (c ∷ d ∷ s) = c == sign && not (d == sign)
is_single sign s = false

abbrev pub is_mode_line : Units → Bool
is_mode_line line =
    starts "old mode " line
    || starts "new mode " line
    || starts "deleted file mode " line
    || starts "new file mode " line
    || starts "similarity index " line
    || starts "rename from " line
    || starts "rename to " line

-- The flags that a line sets wherever it stands.
pub flag_line : Units → Parsed → Parsed
unfolding after
flag_line line p = record p {
  binary_diff =
      p.binary_diff || starts "Binary files " line || equals line (codes "GIT binary patch");
  suspicious_file_modes = p.suspicious_file_modes || is_mode_line line;
}

-- A line within a diff.
pub body_line : Units → Current → Parsed → Parsed
unfolding after strip_diff_prefix
body_line line c p = elim (rest_of_line (after (codes "--- ") line)) [
  | some path ↦ record p {
    files = push_path (strip_diff_prefix path) p.files;
    current = some (record c { saw_old = true });
  }
  | none ↦ elim (rest_of_line (after (codes "+++ ") line)) [
    | some path ↦ record p {
      files = push_path (strip_diff_prefix path) p.files;
      current = some (record c { saw_new = true });
    }
    | none ↦
        if starts "@@ " line
        then record p { current = some (record c { saw_hunk = true }) }
        else if c.saw_hunk && (is_single b'+' line || is_single b'-' line)
        then record p { changed_line_count = p.changed_line_count + 1 }
        else p
  ]
]

abbrev pub within : Units → Parsed → Option Current → Parsed
unfolding body_line
within line p none = p
within line p (some c) = body_line line c p

unfoldable pub read_line : Units → Parsed → Parsed
unfolding diff_header open_diff flag_line within body_line
read_line line p = elim (diff_header line) [
  | some (old, new) ↦ open_diff old new p
  | none ↦ within line (flag_line line p) p.current
]

pub read_lines : List Units → Parsed → Parsed
unfolding read_line
read_lines [] p = p
read_lines (line ∷ rest) p = read_lines rest (read_line line p)

abbrev pub unread : Parsed
unread = record {
  files = [];
  errors = [];
  binary_diff = false;
  suspicious_file_modes = false;
  changed_line_count = 0;
  current = none;
  diff_count = 0;
}

-- `!text.trim()`
unfoldable pub is_blank : Units → Bool
unfolding trim is_space
is_blank s = is_empty (trim s)

-- The errors that are found at the end.
pub close_diff : Units → Parsed → Parsed
unfolding malformed is_blank
close_diff patch p = record p {
  errors =
      p.errors
      ++ (malformed p.current
          ++ (if p.diff_count == 0 && not (is_blank patch)
              then codes "patch is not a parseable git unified diff" ∷ []
              else []));
}

unfoldable pub parse_unified_diff : Units → Parsed
unfolding split_lines read_lines close_diff
parse_unified_diff patch = close_diff patch (read_lines (split_lines patch) unread)
