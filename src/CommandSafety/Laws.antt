-- ===== src/CommandSafety/Laws.antt =====
-- Which commands are refused, for every command text.
use run_forge.Common.{
  ℕ, ◌≡◌, refl, ◌↔◌, true, false, Option, none, some, List, [], ◌∷◌, ◌++◌, inl, inr, String, arith,
  Bool-cases,
}
use run_forge.Common.{every, All}
use run_forge.Common.Text.{codes, is_space, trim}
use mathlib.Core.Bool.{xor}
use run_forge.Common.Regex.{Regex, test, next_is_word, last_is_word, text_of, spaces, seq, boundary}
use run_forge.Common.Regex.Laws.{
  Matches, nothing, at_boundary, one, both, Occurs, test_iff, test-append, text_of-Matches,
  many-Matches, last_of,
}
use run_forge.CommandSafety.{
  BlockedPattern, blocked_patterns, find_blocked, blocked_reason, git_command, whole_word,
  credential_read, blocked_external_command_reason, first_reason, command_reason,
}

spaces-Matches :
    (c : ℕ) (ws : List ℕ) (l : Option ℕ) (s : List ℕ)
    → is_space c ≡ true
    → every is_space ws ≡ true
    → Matches spaces l (c ∷ (ws ++ s)) (last_of (some c) ws) s
spaces-Matches c ws l s h k = both (one h) (many-Matches is_space ws (some c) s k)

ends_with_boundary :
    (l : Option ℕ) (s : List ℕ)
    → xor (last_is_word l) (next_is_word s) ≡ true
    → Matches (seq boundary (text_of [])) l s l s
ends_with_boundary l s h = both (at_boundary h) nothing

git_push-Matches :
    (c : ℕ) (ws : List ℕ) (l : Option ℕ) (b : List ℕ)
    → last_is_word l ≡ false
    → is_space c ≡ true
    → every is_space ws ≡ true
    → next_is_word b ≡ false
    → Matches
        (git_command "push")
        l
        (codes "git" ++ (c ∷ (ws ++ (codes "push" ++ b))))
        (some b'h')
        b
unfolding xor
git_push-Matches c ws l b start h k stop = both (at_boundary (rw start)) (
    both (text_of-Matches (codes "git") l _) (
      both (spaces-Matches c ws _ _ h k)
        (both (text_of-Matches (codes "push") _ b) (ends_with_boundary _ b (rw stop)))))

-- A command that holds the words `git` and `push` with white space between them is refused, and the
-- reason names the push, whatever stands before `git` and after `push`, as long as no letter, digit
-- or underscore touches the words there.
pub blocked_external_command_reason-push :
    (a : List ℕ) (c : ℕ) (ws b : List ℕ)
    → last_is_word (last_of none a) ≡ false
    → is_space c ≡ true
    → every is_space ws ≡ true
    → next_is_word b ≡ false
    → blocked_external_command_reason (a ++ (codes "git" ++ (c ∷ (ws ++ (codes "push" ++ b)))))
      ≡ some "Blocked external check command: git push is not allowed."
unfolding blocked_external_command_reason
blocked_external_command_reason-push a c ws b start h k stop =
    rw (test-append (git_command "push") a _ (git_push-Matches c ws _ b start h k stop))

module _ (text : List ℕ) where
  abbrev pub Avoids : Regex → Type 0
  Avoids r = ¬ (Occurs r none text)

  Avoids-of : (r : Regex) → test r text ≡ false → Avoids r
  Avoids-of r h found = let p : test r text ≡ true = (test_iff r text).1 found in cc

  of-Avoids : (r : Regex) → Avoids r → test r text ≡ false
  of-Avoids r avoid = elim (Bool-cases (test r text)) [
    | inl e ↦ absurd (avoid ((test_iff r text).0 e))
    | inr e ↦ e
  ]

  -- No listed pattern is found exactly when each of them occurs nowhere.
  find_blocked-none :
      (entries : List BlockedPattern)
      → find_blocked entries text ≡ none
      → All (λ e. Avoids e.pattern) entries
  unfolding find_blocked
  find_blocked-none [] h = tt
  find_blocked-none (entry ∷ entries) h = elim (Bool-cases (test entry.pattern text)) [
    | inl e ↦ ground arith
    | inr e ↦ (Avoids-of entry.pattern e, find_blocked-none entries (rw e at h))
  ]

  none-find_blocked :
      (entries : List BlockedPattern)
      → All (λ e. Avoids e.pattern) entries
      → find_blocked entries text ≡ none
  unfolding find_blocked
  none-find_blocked [] h = refl
  none-find_blocked (entry ∷ entries) (p, h) =
      rw (of-Avoids entry.pattern p) (none-find_blocked entries h)

abbrev pub AvoidsPolicy : List ℕ → Type 0
AvoidsPolicy command =
    Avoids command (git_command "push")
    × Avoids command (git_command "merge")
    × Avoids command (whole_word "deploy")
    × Avoids command credential_read

policy-none :
    (command : List ℕ) → blocked_external_command_reason command ≡ none → AvoidsPolicy command
unfolding blocked_external_command_reason
policy-none command h = (
  Avoids-of command (git_command "push") (ground arith),
  Avoids-of command (git_command "merge") (ground arith),
  Avoids-of command (whole_word "deploy") (ground arith),
  Avoids-of command credential_read (ground arith),
)

none-policy :
    (command : List ℕ) → AvoidsPolicy command → blocked_external_command_reason command ≡ none
unfolding blocked_external_command_reason
none-policy command (push, merge, deploy, credential) = ground (
  arith,
  of-Avoids command (git_command "push") push,
  of-Avoids command (git_command "merge") merge,
  of-Avoids command (whole_word "deploy") deploy,
  of-Avoids command credential_read credential,
)

first_reason-none : (a b : Option String) → first_reason a b ≡ none → (a ≡ none) × (b ≡ none)
first_reason-none none b h = (refl, h)
first_reason-none (some r) b h = cc

blocked_reason-none : (e : Option BlockedPattern) → blocked_reason e ≡ none → e ≡ none
blocked_reason-none none h = refl
blocked_reason-none (some e) h = cc

-- A command is let through exactly when none of the destructive patterns occurs anywhere in it once
-- it is trimmed, and it holds no `git push`, no `git merge`, no word `deploy` and no read of a
-- credential.
pub command_reason-none_iff :
    (command : List ℕ)
    → (command_reason command ≡ none)
      ↔ (All (λ e. Avoids (trim command) e.pattern) blocked_patterns × AvoidsPolicy command)
unfolding command_reason
command_reason-none_iff command = (to, from)
  where
    to :
        command_reason command ≡ none
        → All (λ e. Avoids (trim command) e.pattern) blocked_patterns × AvoidsPolicy command
    to h =
        let (p, q) = first_reason-none _ _ h in
        (
          find_blocked-none (trim command) blocked_patterns (blocked_reason-none _ p),
          policy-none command q,
        )

    from :
        All (λ e. Avoids (trim command) e.pattern) blocked_patterns × AvoidsPolicy command
        → command_reason command ≡ none
    from (p, q) = rw (none-find_blocked (trim command) blocked_patterns p, none-policy command q)
