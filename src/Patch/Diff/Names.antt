-- ===== src/Patch/Diff/Names.antt =====
-- The paths that a patch names, told from its lines alone, for parseUnifiedDiff of
-- src/run/provider-patch-validator.ts.
use run_forge.Common.{String, any, ◌==◌, ◌≡◌, Bool, true, false, List, ◌∷◌, ◌++◌}
use run_forge.Common.Text.{codes}
use run_forge.Patch.Diff.{is_empty, is_terminator, starts, Units, equals, split_lines}

-- A line `diff --git old new`, where `new` holds no blank.
pub record IsDiffLine (line old new : Units) : Type 0 where
  pub spelled : line ≡ codes "diff --git " ++ (old ++ 32 ∷ new)
  pub old_given : is_empty old ≡ false
  pub new_given : is_empty new ≡ false
  pub no_blank : any (λ c. c == 32) new ≡ false
  pub one_line : any is_terminator (old ++ 32 ∷ new) ≡ false

-- A line that is a mark and a text.
pub record IsHeader (mark : String) (line text : Units) : Type 0 where
  pub spelled : line ≡ codes mark ++ text
  pub given : is_empty text ≡ false
  pub one_line : any is_terminator text ≡ false

-- A path without its prefix `a/` or `b/`, if it has one.
pub data IsStripped : Units → Units → Type 0 where
  of_a : {path : Units} → IsStripped (codes "a/" ++ path) path
  of_b : {path : Units} → IsStripped (codes "b/" ++ path) path
  plain :
      {path : Units} → starts "a/" path ≡ false → starts "b/" path ≡ false → IsStripped path path

-- The lines name a path, where `started` says that a line `diff --git` stands before them: each such line
-- names two, and each `--- path` or `+++ path` after one names its path, unless that is `/dev/null`.
pub data Named (path : Units) : Bool → List Units → Type 0 where
  old_of :
      {started : Bool} {line old new : Units} {rest : List Units}
      → IsDiffLine line old new
      → IsStripped old path
      → Named path started (line ∷ rest)
  new_of :
      {started : Bool} {line old new : Units} {rest : List Units}
      → IsDiffLine line old new
      → IsStripped new path
      → Named path started (line ∷ rest)
  minus :
      {line text : Units} {rest : List Units}
      → IsHeader "--- " line text
      → IsStripped text path
      → equals path (codes "/dev/null") ≡ false
      → Named path true (line ∷ rest)
  plus :
      {line text : Units} {rest : List Units}
      → IsHeader "+++ " line text
      → IsStripped text path
      → equals path (codes "/dev/null") ≡ false
      → Named path true (line ∷ rest)
  opened :
      {started : Bool} {line old new : Units} {rest : List Units}
      → IsDiffLine line old new
      → Named path true rest
      → Named path started (line ∷ rest)
  later :
      {started : Bool} {line : Units} {rest : List Units}
      → Named path started rest
      → Named path started (line ∷ rest)

-- The paths of a patch, from its first line `diff --git` on.
abbrev pub PatchNames : Units → Units → Type 0
PatchNames patch path = Named path false (split_lines patch)
