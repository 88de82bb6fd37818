-- ===== src/Check/Git.antt =====
-- src/run/external-command-check-git.ts: whether the original repository changed, and what changed in
-- the disposable workspace. A snapshot is the association list of a `Map`, so its paths are distinct.
-- What `git` and the file system answer is the environment's.
pub mod Laws
use run_forge.Common.{
  ℕ, Bool, true, false, not, ◌&&◌, ◌||◌, Option, none, some, List, [], ◌∷◌, String, length, filter,
  if◌then◌else◌, str_eq, is_some, ◌⊎◌, inl, inr,
}
use run_forge.Common.Text.{str_leb}
use run_forge.Check.{GitSnapshot, MutationVerdict}

abbrev same : Option String → Option String → Bool
same none none = true
same (some a) (some b) = str_eq a b
same _ _ = false

unfoldable pub mutation_verdict_for : GitSnapshot → GitSnapshot → MutationVerdict
mutation_verdict_for before after =
    if not (is_some before.head)
      || not (is_some after.head)
      || not (is_some before.status)
      || not (is_some after.status)
    then MutationVerdict.unknown
    else if same before.head after.head && same before.status after.status
    then MutationVerdict.unchanged
    else MutationVerdict.changed

pub record WorkspaceFileEntry : Type 0 where
  pub size : ℕ
  pub mtime_ms : ℕ
  pub hash : String

abbrev pub WorkspaceFileSnapshot : Type 0
WorkspaceFileSnapshot = List (String × WorkspaceFileEntry)

pub data SummaryStatus : Type 0 where
  ok unknown : SummaryStatus

pub record WorkspaceChangeSummary : Type 0 where
  pub status : SummaryStatus
  pub added : List String
  pub modified : List String
  pub deleted : List String
  pub added_count : ℕ
  pub modified_count : ℕ
  pub deleted_count : ℕ
  pub error : Option String

-- `Map.get`
unfoldable pub get : String → WorkspaceFileSnapshot → Option WorkspaceFileEntry
get file [] = none
get file ((path, entry) ∷ files) = if str_eq path file then some entry else get file files

abbrev pub keys : WorkspaceFileSnapshot → List String
keys [] = []
keys ((path, entry) ∷ files) = path ∷ keys files

-- `sort()` on texts.
pub insert_sorted : String → List String → List String
insert_sorted s [] = s ∷ []
insert_sorted s (t ∷ ts) =
    let rest = insert_sorted s ts in if str_leb s t then s ∷ t ∷ ts else t ∷ rest

pub sort : List String → List String
unfolding insert_sorted
sort [] = []
sort (s ∷ ss) = insert_sorted s (sort ss)

-- `before.has(file) && before.get(file)?.hash !== entry.hash`
abbrev pub differs : Option WorkspaceFileEntry → WorkspaceFileEntry → Bool
differs none entry = false
differs (some old) entry = not (str_eq old.hash entry.hash)

pub modified_keys : WorkspaceFileSnapshot → WorkspaceFileSnapshot → List String
modified_keys before [] = []
modified_keys before ((path, entry) ∷ files) =
    let rest = modified_keys before files in
    if differs (get path before) entry then path ∷ rest else rest

unfoldable pub diff_workspace_snapshots :
    WorkspaceFileSnapshot → WorkspaceFileSnapshot → WorkspaceChangeSummary
unfolding sort get modified_keys
diff_workspace_snapshots before after =
    let added = sort (filter (λ file. not (is_some (get file before))) (keys after)) in
    let deleted = sort (filter (λ file. not (is_some (get file after))) (keys before)) in
    let modified = sort (modified_keys before after) in
    record {
      status = SummaryStatus.ok;
      added = added;
      modified = modified;
      deleted = deleted;
      added_count = length added;
      modified_count = length modified;
      deleted_count = length deleted;
      error = none;
    }

unfoldable pub unknown_workspace_change_summary : String → WorkspaceChangeSummary
unknown_workspace_change_summary error = record {
  status = SummaryStatus.unknown;
  added = [];
  modified = [];
  deleted = [];
  added_count = 0;
  modified_count = 0;
  deleted_count = 0;
  error = some error;
}

-- `computeWorkspaceChangeSummary`: the second snapshot, or the message of the error that it threw.
unfoldable pub compute_workspace_change_summary :
    Option String
    → Option WorkspaceFileSnapshot
    → WorkspaceFileSnapshot ⊎ String
    → WorkspaceChangeSummary
unfolding diff_workspace_snapshots unknown_workspace_change_summary
compute_workspace_change_summary none before after =
    unknown_workspace_change_summary "workspace was not prepared"
compute_workspace_change_summary (some path) none after =
    unknown_workspace_change_summary "workspace before snapshot was not available"
compute_workspace_change_summary (some path) (some before) (inl after) =
    diff_workspace_snapshots before after
compute_workspace_change_summary (some path) (some before) (inr message) =
    unknown_workspace_change_summary message
