-- ===== src/Patch/Validate/Laws.antt =====
-- What an accepted patch satisfies.
use run_forge.Common.{◌≤◌, ◌≡◌, true, false, some, [], length}
use run_forge.Patch.Diff.{Units, parse_unified_diff}
use run_forge.Patch.Diff.Names.{PatchNames}
use run_forge.Patch.Glob.{glob_matches, matches_any}
use run_forge.Patch.Validate.{
  Normalized, includes, is_absolute_repo_path, escapes_workspace, is_nil, is_outside, Host,
  files_of,
}

-- A file that adds no error.
pub record IsClean (c : Normalized) (file : Units) : Type 0 where
  pub relative : is_absolute_repo_path file ≡ false
  pub inside : escapes_workspace file ≡ false
  pub forbidden : matches_any file c.forbidden_paths ≡ some false
  pub outside : is_outside c file ≡ some false

-- `c` is the contract with its defaults.
pub record IsSafe (host : Host) (patch : Units) (c : Normalized) : Type 0 where
  pub relative :
      (path : Units)
      → PatchNames patch path
      → (is_absolute_repo_path (host.normalize_repo_path path) ≡ false)
        × (escapes_workspace (host.normalize_repo_path path) ≡ false)
  pub permitted :
      (path pattern : Units)
      → PatchNames patch path
      → includes pattern c.forbidden_paths ≡ true
      → glob_matches pattern (host.normalize_repo_path path) ≡ some false
  pub allowed :
      (path : Units)
      → PatchNames patch path
      → is_nil c.allowed_paths ≡ false
      → matches_any (host.normalize_repo_path path) c.allowed_paths ≡ some true
  pub well_formed : (parse_unified_diff patch).errors ≡ []
  pub text_only : (parse_unified_diff patch).binary_diff ≡ false
  pub modes_kept : (parse_unified_diff patch).suspicious_file_modes ≡ false
  pub files : length (files_of host (parse_unified_diff patch)) ≤ c.max_files_changed
  pub bytes : host.byte_length patch ≤ c.max_patch_bytes
  pub applied : host.applies patch ≡ true
