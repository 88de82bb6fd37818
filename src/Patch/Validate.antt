-- ===== src/Patch/Validate.antt =====
-- `validateProviderPatch` of src/run/provider-patch-validator.ts: a patch is accepted if nothing that it
-- names or does is refused, and if it applies.
pub mod Lists
pub mod Laws
use run_forge.Common.{
  ℕ, zero, suc, ◌+◌, ◌≡◌, refl, Bool, true, false, not, ◌&&◌, ◌||◌, Option, none, some, List, [],
  ◌∷◌, ◌++◌, map, String, if◌then◌else◌, ◌==◌, any, ltb, leb, or_else, filter, length,
}
use run_forge.Common.Text.{codes, show_nat}
use run_forge.Patch.Diff.{
  Units, is_empty, equals, starts, after, is_blank, Parsed, parse_unified_diff,
}
use run_forge.Patch.Glob.{matches_any}

-- `ProviderPatchContract`, and the same with its defaults.
pub record Contract : Type 0 where
  pub allowed_paths : Option (List Units)
  pub forbidden_paths : Option (List Units)
  pub max_files_changed : Option ℕ
  pub max_patch_bytes : Option ℕ

pub record Normalized : Type 0 where
  pub allowed_paths : List Units
  pub forbidden_paths : List Units
  pub max_files_changed : ℕ
  pub max_patch_bytes : ℕ

abbrev pub default_forbidden_paths : List Units
default_forbidden_paths =
    codes ".env"
    ∷ codes ".env.*"
    ∷ codes "**/secrets/**"
    ∷ codes "secrets/**"
    ∷ codes "deploy/**"
    ∷ codes "infra/**"
    ∷ codes ".github/**"
    ∷ codes "Dockerfile"
    ∷ codes "docker/**"
    ∷ codes "package-lock.json"
    ∷ codes "pnpm-lock.yaml"
    ∷ codes "yarn.lock"
    ∷ codes "bun.lockb"
    ∷ []

-- `array.includes(text)`
pub includes : Units → List Units → Bool
includes t [] = false
includes t (s ∷ ss) = equals s t || includes t ss

-- `[...new Set(texts)]`: each text at its first place.
pub distinct : List Units → List Units → List Units
unfolding includes
distinct seen [] = []
distinct seen (t ∷ ts) =
    let rest = distinct (t ∷ seen) ts in
    let skipped = distinct seen ts in if includes t seen then skipped else t ∷ rest

unfoldable pub unique_non_empty : List Units → List Units
unfolding distinct
unique_non_empty texts = distinct [] (filter (λ t. not (is_empty t)) texts)

-- `contract?.field`
abbrev pub field_of {ℓ} : {A : Type ℓ} → (Contract → Option A) → Option Contract → Option A
field_of field none = none
field_of field (some c) = field c

unfoldable pub normalize_contract : Option Contract → Normalized
unfolding unique_non_empty
normalize_contract c = record {
  allowed_paths = unique_non_empty (or_else (field_of (λ r. r.allowed_paths) c) []);
  forbidden_paths =
      unique_non_empty
        (default_forbidden_paths ++ or_else (field_of (λ r. r.forbidden_paths) c) []);
  max_files_changed = or_else (field_of (λ r. r.max_files_changed) c) 3;
  max_patch_bytes = or_else (field_of (λ r. r.max_patch_bytes) c) 50000;
}

-- The order of texts that `sort` uses, and the sort itself.
pub units_le : Units → Units → Bool
units_le [] t = true
units_le (c ∷ s) [] = false
units_le (c ∷ s) (d ∷ t) =
    let rest = units_le s t in if ltb c d then true else if c == d then rest else false

pub insert_sorted : Units → List Units → List Units
unfolding units_le
insert_sorted t [] = t ∷ []
insert_sorted t (s ∷ ss) =
    let rest = insert_sorted t ss in if units_le t s then t ∷ s ∷ ss else s ∷ rest

pub sort : List Units → List Units
unfolding insert_sorted
sort [] = []
sort (t ∷ ts) = insert_sorted t (sort ts)

unfoldable pub is_absolute_repo_path : Units → Bool
unfolding after
is_absolute_repo_path path = starts "/" path

-- `path.includes("\0")` asks for a NUL character.
unfoldable pub escapes_workspace : Units → Bool
unfolding after
escapes_workspace path = equals path (codes "..") || starts "../" path || any (λ c. c == 0) path

pub data DryRun : Type 0 where
  passed failed not_run : DryRun

-- What the checks report.
pub record Checks : Type 0 where
  pub parseable : Bool
  pub binary_diff : Bool
  pub absolute_paths : Bool
  pub path_traversal : Bool
  pub forbidden_paths : Bool
  pub allowed_paths : Bool
  pub max_files_changed : Bool
  pub max_patch_bytes : Bool
  pub suspicious_file_modes : Bool
  pub has_file_changes : Bool
  pub dry_run_apply : DryRun

pub record Validation : Type 0 where
  pub accepted : Bool
  pub files_changed : List Units
  pub errors : List Units
  pub patch_bytes : ℕ
  pub contract : Normalized
  pub checks : Checks

-- The errors and flags that the loop over the files adds to.
pub record PathFindings : Type 0 where
  pub errors : List Units
  pub absolute_paths : Bool
  pub path_traversal : Bool
  pub forbidden_paths : Bool
  pub allowed_paths : Bool

abbrev pub none_found : PathFindings
none_found = record {
  errors = [];
  absolute_paths = false;
  path_traversal = false;
  forbidden_paths = false;
  allowed_paths = true;
}

abbrev pub error_if : Bool → Units → List Units
error_if true e = e ∷ []
error_if false e = []

-- The findings for one file, from the four answers about it.
pub add_findings : Units → Bool → Bool → Bool → Bool → PathFindings → PathFindings
add_findings file absolute escapes forbidden outside f = record {
  errors =
      f.errors
      ++ (error_if absolute (codes "patch uses an absolute path: " ++ file)
          ++ (error_if escapes (codes "patch touches path outside repo scope: " ++ file)
              ++ (error_if forbidden (codes "patch touches forbidden path: " ++ file)
                  ++ error_if outside
                      (codes "patch touches path outside allowedPaths: " ++ file))));
  absolute_paths = f.absolute_paths || absolute;
  path_traversal = f.path_traversal || escapes;
  forbidden_paths = f.forbidden_paths || forbidden;
  allowed_paths = f.allowed_paths && not outside;
}

abbrev pub is_nil {ℓ} : {A : Type ℓ} → List A → Bool
is_nil [] = true
is_nil (x ∷ xs) = false

-- `contract.allowedPaths.length > 0 && !matchesAny(file, contract.allowedPaths)`
unfoldable pub is_outside : Normalized → Units → Option Bool
unfolding matches_any
is_outside c file =
    if is_nil c.allowed_paths
    then some false
    else elim (matches_any file c.allowed_paths) [ none ↦ none | some b ↦ some (not b) ]

-- The body of the loop, `none` where a pattern throws.
unfoldable pub check_file : Normalized → Units → PathFindings → Option PathFindings
unfolding matches_any is_outside is_absolute_repo_path escapes_workspace add_findings
check_file c file f = elim (matches_any file c.forbidden_paths) [
  | none ↦ none
  | some forbidden ↦ elim (is_outside c file) [
    | none ↦ none
    | some outside ↦ some (
        add_findings file (is_absolute_repo_path file) (escapes_workspace file) forbidden outside f)
  ]
]

pub check_files : Normalized → List Units → PathFindings → Option PathFindings
unfolding check_file
check_files c [] f = some f
check_files c (file ∷ files) f = elim (check_file c file f) [
  | none ↦ none
  | some f' ↦ check_files c files f'
]

-- What the code asks of Node and of git: the length of a text in UTF-8, `path.normalize` followed by the
-- change of `\` into `/`, and whether `git apply --check` succeeds for a patch.
pub record Host : Type 0 where
  pub byte_length : Units → ℕ
  pub normalize_repo_path : Units → Units
  pub applies : Units → Bool

-- The files that a patch names, normalised, without repetition and in order.
unfoldable pub files_of : Host → Parsed → List Units
unfolding sort distinct
files_of host parsed = sort (distinct [] (map host.normalize_repo_path parsed.files))

-- The errors that are found before the loop over the files.
unfoldable pub early_errors : Units → Normalized → ℕ → Parsed → List Units
unfolding is_blank show_nat
early_errors patch c bytes parsed =
    error_if (is_blank patch) (codes "provider output did not contain a patch")
    ++ (error_if (ltb c.max_patch_bytes bytes)
          (codes "patch exceeds maxPatchBytes " ++ codes (show_nat c.max_patch_bytes))
        ++ (parsed.errors
            ++ (error_if parsed.binary_diff (codes "binary diffs are not supported")
                ++ (error_if parsed.suspicious_file_modes
                      (codes "file mode changes are not supported")
                    ++ error_if (not (ltb 0 parsed.changed_line_count) && not (is_blank patch))
                        (codes "patch contains no file changes")))))

-- Those that are found after it.
unfoldable pub late_errors : Units → Normalized → List Units → List Units
unfolding is_blank show_nat
late_errors patch c files =
    error_if (is_nil files && not (is_blank patch)) (codes "patch does not declare changed files")
    ++ error_if (ltb c.max_files_changed (length files)) (
        codes "patch changes "
        ++ (codes (show_nat (length files))
            ++ (codes " files, exceeding maxFilesChanged "
                ++ codes (show_nat c.max_files_changed))))

-- The patch is tried only if there is no error yet.
abbrev pub dry_run : Bool → Bool → DryRun
dry_run false applies = not_run
dry_run true true = passed
dry_run true false = failed

abbrev pub dry_run_errors : DryRun → List Units
dry_run_errors failed = codes "patch failed dry-run apply" ∷ []
dry_run_errors d = []

unfoldable pub conclude :
    Host → Units → Normalized → ℕ → Parsed → List Units → PathFindings → Validation
unfolding distinct
conclude host patch c bytes parsed files f =
    let structural = early_errors patch c bytes parsed ++ (f.errors ++ late_errors patch c files) in
    let tried = dry_run (is_nil structural) (host.applies patch) in
    let errors = structural ++ dry_run_errors tried in
    record {
      accepted = is_nil errors;
      files_changed = files;
      errors = distinct [] errors;
      patch_bytes = bytes;
      contract = c;
      checks = record {
        parseable = not (is_blank patch) && is_nil parsed.errors;
        binary_diff = parsed.binary_diff;
        absolute_paths = f.absolute_paths;
        path_traversal = f.path_traversal;
        forbidden_paths = f.forbidden_paths;
        allowed_paths = f.allowed_paths;
        max_files_changed = leb (length files) c.max_files_changed;
        max_patch_bytes = leb bytes c.max_patch_bytes;
        suspicious_file_modes = parsed.suspicious_file_modes;
        has_file_changes = ltb 0 parsed.changed_line_count;
        dry_run_apply = tried;
      };
    }

-- `none` where a path pattern of the contract is no regular expression, and the call throws.
unfoldable pub validate_provider_patch : Host → Units → Option Contract → Option Validation
unfolding normalize_contract parse_unified_diff files_of check_files conclude
validate_provider_patch host patch contract =
    let c = normalize_contract contract in
    let parsed = parse_unified_diff patch in
    let files = files_of host parsed in
    elim (check_files c files none_found) [
      | none ↦ none
      | some f ↦ some (conclude host patch c (host.byte_length patch) parsed files f)
    ]
