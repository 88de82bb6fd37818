-- ===== src/Patch/Tests.antt =====
-- A patch of one file, and one that touches a lock file.
use run_forge.Common.{◌++◌, ◌≡◌, refl, true, false, none, some, [], ◌∷◌, String, length}
use run_forge.Common.Text.{codes, ◌+++◌}
use run_forge.Patch.Diff.{diff_header, split_lines, Units, parse_unified_diff}
use run_forge.Patch.Validate.{Host, Validation, normalize_contract, passed}
use run_forge.Patch.Diff.Names.{PatchNames, old_of, of_a}
use run_forge.Patch.Diff.Unread.{parse_unified_diff-unread}

abbrev host : Host
host = record { byte_length = length; normalize_repo_path = λ p. p; applies = λ p. true }

header_test : diff_header (codes "diff --git a/x y b/x y") ≡ some (codes "a/x y b/x", codes "y")
unfolding diff_header
header_test = refl

abbrev patch_of : String → Units
patch_of f = codes (
    "diff --git a/" +++ f +++ " b/" +++ f +++ "\n--- a/" +++ f +++ "\n+++ b/" +++ f
    +++ "\n@@ -1 +1 @@\n-old\n+new")

abbrev small : Units
small = patch_of "s"

small_files : (parse_unified_diff small).files ≡ codes "s" ∷ codes "s" ∷ codes "s" ∷ codes "s" ∷ []
unfolding parse_unified_diff
small_files = refl

abbrev header : Units
header = codes "+++ b/deploy/x"

-- The header of a path that is forbidden by default.
parse_unified_diff-unread_example :
    ((parse_unified_diff (header ++ 10 ∷ small)).files ≡ (parse_unified_diff small).files)
    × ((parse_unified_diff (header ++ 10 ∷ small)).changed_line_count
        ≡ (parse_unified_diff small).changed_line_count)
unfolding diff_header
parse_unified_diff-unread_example = parse_unified_diff-unread header small refl refl

small-PatchNames : PatchNames small (codes "s")
unfolding split_lines
small-PatchNames =
    old_of {old = codes "a/s"} {new = codes "b/s"}
      (record {
        spelled = refl;
        old_given = refl;
        new_given = refl;
        no_blank = refl;
        one_line = refl;
      })
      of_a

abbrev report : Validation
report = record {
  accepted = true;
  files_changed = codes "s" ∷ [];
  errors = [];
  patch_bytes = length small;
  contract = normalize_contract none;
  checks = record {
    parseable = true;
    binary_diff = false;
    absolute_paths = false;
    path_traversal = false;
    forbidden_paths = false;
    allowed_paths = true;
    max_files_changed = true;
    max_patch_bytes = true;
    suspicious_file_modes = false;
    has_file_changes = true;
    dry_run_apply = passed;
  };
}
