-- ===== src/Check/Git/Laws.antt =====
-- The change summary of the workspace says of every file what the two snapshots say.
use run_forge.Common.{
  ℕ, suc, ◌+◌, ◌≡◌, refl, ◌∙◌, ap, ◌↔◌, Bool, true, false, not, ◌&&◌, Option, none, some, List, [],
  ◌∷◌, String, arith, any, length, filter, str_eq, str_eq_iff, is_some,
}
use run_forge.Check.Git.{
  WorkspaceFileEntry, WorkspaceFileSnapshot, WorkspaceChangeSummary, get, keys, insert_sorted, sort,
  differs, modified_keys, diff_workspace_snapshots,
}

abbrev pub contains : String → List String → Bool
contains file files = any (λ f. str_eq f file) files

contains-insert_sorted :
    (file s : String) (ss : List String)
    → contains file (insert_sorted s ss) ≡ contains file (s ∷ ss)
unfolding insert_sorted
contains-insert_sorted file s [] = refl
contains-insert_sorted file s (t ∷ ts) = ground (arith, contains-insert_sorted file s ts)

contains-sort : (file : String) (ss : List String) → contains file (sort ss) ≡ contains file ss
unfolding sort
contains-sort file [] = refl
contains-sort file (s ∷ ss) =
    ground (arith, contains-insert_sorted file s (sort ss), contains-sort file ss)

length-insert_sorted :
    (s : String) (ss : List String) → length (insert_sorted s ss) ≡ suc (length ss)
unfolding insert_sorted
length-insert_sorted s [] = refl
length-insert_sorted s (t ∷ ts) = ground (arith, length-insert_sorted s ts)

length-sort : (ss : List String) → length (sort ss) ≡ length ss
unfolding sort
length-sort [] = refl
length-sort (s ∷ ss) = omega (arith, length-insert_sorted s (sort ss), length-sort ss)

contains-filter :
    (p : String → Bool) (file : String) (ss : List String)
    → contains file (filter p ss) ≡ (p file && contains file ss)
contains-filter p file [] = ground arith
contains-filter p file (s ∷ ss) = ground (arith, str_eq_iff s file, contains-filter p file ss)

contains-keys :
    (file : String) (files : WorkspaceFileSnapshot)
    → contains file (keys files) ≡ is_some (get file files)
unfolding get
contains-keys file [] = refl
contains-keys file ((path, entry) ∷ files) = ground (arith, contains-keys file files)

-- The paths of a `Map` are distinct.
abbrev pub HasDistinctPaths : WorkspaceFileSnapshot → Type 0
HasDistinctPaths [] = Unit
HasDistinctPaths ((path, entry) ∷ files) = (get path files ≡ none) × HasDistinctPaths files

-- The file is in both snapshots, with another hash.
abbrev pub changed : Option WorkspaceFileEntry → Option WorkspaceFileEntry → Bool
changed old none = false
changed old (some entry) = differs old entry

contains-modified_keys :
    (file : String) (before after : WorkspaceFileSnapshot)
    → HasDistinctPaths after
    → contains file (modified_keys before after) ≡ changed (get file before) (get file after)
unfolding modified_keys get
contains-modified_keys file before [] h = refl
contains-modified_keys file before ((path, entry) ∷ files) (fresh, h) =
    ground (arith, str_eq_iff path file, contains-modified_keys file before files h)

-- A file is listed as added exactly when only the second snapshot has it, as deleted exactly when
-- only the first has it, and as modified exactly when both have it with different hashes.
pub diff_workspace_snapshots-contains :
    (before after : WorkspaceFileSnapshot) (file : String)
    → HasDistinctPaths after
    → (contains file (diff_workspace_snapshots before after).added
        ≡ (not (is_some (get file before)) && is_some (get file after)))
      × (contains file (diff_workspace_snapshots before after).deleted
          ≡ (not (is_some (get file after)) && is_some (get file before)))
      × (contains file (diff_workspace_snapshots before after).modified
          ≡ changed (get file before) (get file after))
unfolding diff_workspace_snapshots
diff_workspace_snapshots-contains before after file h = (
  contains-sort file _
      ∙ contains-filter _ file (keys after)
      ∙ ap (λ b. not (is_some (get file before)) && b) (contains-keys file after),
  contains-sort file _
      ∙ contains-filter _ file (keys before)
      ∙ ap (λ b. not (is_some (get file after)) && b) (contains-keys file before),
  contains-sort file _ ∙ contains-modified_keys file before after h,
)

-- The two snapshots do not differ at a file: neither has it, or both with the same hash.
abbrev pub agrees : Option WorkspaceFileEntry → Option WorkspaceFileEntry → Bool
agrees none none = true
agrees (some a) (some b) = str_eq a.hash b.hash
agrees _ _ = false

contains-nil : (ss : List String) → ((f : String) → contains f ss ≡ false) → length ss ≡ 0
contains-nil [] h = refl
contains-nil (s ∷ ss) h = ground (arith, h s, str_eq_iff s s)

nil-contains : (f : String) (ss : List String) → length ss ≡ 0 → contains f ss ≡ false
nil-contains f [] h = refl
nil-contains f (s ∷ ss) h = absurd (omega arith)

abbrev pub total_changes : WorkspaceChangeSummary → ℕ
total_changes s = s.added_count + s.modified_count + s.deleted_count

counts :
    (before after : WorkspaceFileSnapshot)
    → let d = diff_workspace_snapshots before after in
      (d.added_count ≡ length d.added)
      × (d.modified_count ≡ length d.modified)
      × (d.deleted_count ≡ length d.deleted)
unfolding diff_workspace_snapshots
counts before after = (refl, refl, refl)

module _ (before after : WorkspaceFileSnapshot) (h : HasDistinctPaths after) where
  agrees-of :
      (f : String)
      → total_changes (diff_workspace_snapshots before after) ≡ 0
      → agrees (get f before) (get f after) ≡ true
  agrees-of f none_left =
      let d = diff_workspace_snapshots before after in
      let (a, x, m) = diff_workspace_snapshots-contains before after f h in
      let (p, q, r) = counts before after in
      ground (
        arith,
        a,
        x,
        m,
        nil-contains f d.added (omega arith),
        nil-contains f d.modified (omega arith),
        nil-contains f d.deleted (omega arith),
      )

  of-agrees :
      ((f : String) → agrees (get f before) (get f after) ≡ true)
      → total_changes (diff_workspace_snapshots before after) ≡ 0
  of-agrees all =
      let d = diff_workspace_snapshots before after in
      let (p, q, r) = counts before after in
      let here = λ (f : String). diff_workspace_snapshots-contains before after f h in
      let no_added = contains-nil d.added (λ f. ground (arith, (here f).0, all f)) in
      let no_deleted = contains-nil d.deleted (λ f. ground (arith, (here f).1, all f)) in
      let no_modified = contains-nil d.modified (λ f. ground (arith, (here f).2, all f)) in
      omega (arith, p, q, r, no_added, no_deleted, no_modified)

-- The three counts are zero exactly when the two snapshots have the same files with the same hashes.
pub diff_workspace_snapshots-unchanged_iff :
    (before after : WorkspaceFileSnapshot)
    → HasDistinctPaths after
    → (total_changes (diff_workspace_snapshots before after) ≡ 0)
      ↔ ((f : String) → agrees (get f before) (get f after) ≡ true)
diff_workspace_snapshots-unchanged_iff before after h =
    (λ e f. agrees-of before after h f e, of-agrees before after h)
