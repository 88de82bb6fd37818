-- ===== src/CommandSafety.antt =====
-- src/run/command-safety.ts and `blockedExternalCommandReason` of src/run/external-command-check-helpers.ts:
-- the patterns of commands that are refused before anything runs. A command is a list of code
-- points; a block is its reason.
pub mod Laws
mod Tests
use run_forge.Common.{
  ℕ, Bool, not, ◌||◌, Option, none, some, List, [], ◌∷◌, String, if◌then◌else◌, ◌==◌,
}
use run_forge.Common.Text.{is_space, trim}
use run_forge.Common.Regex.{
  Regex, empty, start, end, boundary, chr, many, seq, alt, test, lit, lit_i, one_of, all_of, space,
  spaces, letters, is_letter,
}
use Prim.Native.String

-- `[;&|()\s]`
abbrev pub is_separator : ℕ → Bool
is_separator c = c == b';' || c == b'&' || c == b'|' || c == b'(' || c == b')' || is_space c

-- `(^|[;&|()\s])` and `($|[;&|()\s])`
abbrev pub before : Regex
before = alt start (chr is_separator)

abbrev pub after : Regex
after = alt end (chr is_separator)

-- `-[A-Za-z]*x[A-Za-z]*y[A-Za-z]*`
abbrev flags : String → String → Regex
flags x y = all_of (lit "-" ∷ letters ∷ lit x ∷ letters ∷ lit y ∷ letters ∷ [])

-- `curl\b[^|]*\|\s*(?:sh|bash)\b`
abbrev piped_to_shell : String → Regex
piped_to_shell tool = all_of (
    before
    ∷ lit tool
    ∷ boundary
    ∷ many (λ c. not (c == b'|'))
    ∷ lit "|"
    ∷ many is_space
    ∷ alt (lit "sh") (lit "bash")
    ∷ boundary
    ∷ [])

pub record BlockedPattern : Type 0 where
  pub name : String
  pub pattern : Regex

abbrev pub blocked_patterns : List BlockedPattern
blocked_patterns =
    record { name = "sudo"; pattern = all_of (before ∷ lit "sudo" ∷ after ∷ []) }
    ∷ record {
      name = "rm -rf";
      pattern = all_of (before ∷ lit "rm" ∷ spaces ∷ flags "r" "f" ∷ after ∷ []);
    }
    ∷ record {
      name = "git reset --hard";
      pattern =
          all_of (before ∷ lit "git" ∷ spaces ∷ lit "reset" ∷ spaces ∷ lit "--hard" ∷ after ∷ []);
    }
    ∷ record {
      name = "git clean -fd";
      pattern =
          all_of (before ∷ lit "git" ∷ spaces ∷ lit "clean" ∷ spaces ∷ flags "f" "d" ∷ after ∷ []);
    }
    ∷ record { name = "curl | sh"; pattern = piped_to_shell "curl" }
    ∷ record { name = "wget | sh"; pattern = piped_to_shell "wget" }
    ∷ []

-- `blockedPatterns.find((entry) => entry.pattern.test(normalized))`
pub find_blocked : List BlockedPattern → List ℕ → Option BlockedPattern
find_blocked [] text = none
find_blocked (entry ∷ entries) text =
    if test entry.pattern text then some entry else find_blocked entries text

abbrev pub blocked_reason : Option BlockedPattern → Option String
blocked_reason none = none
blocked_reason (some entry) =
    some (String.◌++◌ "Blocked dangerous command pattern: " (String.◌++◌ entry.name "."))

unfoldable pub validate_command_safety : List ℕ → Option String
unfolding find_blocked trim is_space
validate_command_safety command = blocked_reason (find_blocked blocked_patterns (trim command))

-- `\bgit\s+push\b` and its like
abbrev pub git_command : String → Regex
git_command verb = all_of (boundary ∷ lit "git" ∷ spaces ∷ lit verb ∷ boundary ∷ [])

abbrev pub whole_word : String → Regex
whole_word w = all_of (boundary ∷ lit w ∷ boundary ∷ [])

-- `\bprintenv\b|\$(?:\{|)[A-Za-z_]*(?:TOKEN|...)`, with the flag `i`
abbrev pub credential_read : Regex
credential_read = alt (all_of (boundary ∷ lit_i "printenv" ∷ boundary ∷ [])) (
    all_of (
      lit "$"
      ∷ alt (lit "{") empty
      ∷ many (λ c. is_letter c || c == b'_')
      ∷ one_of (
          lit_i "TOKEN"
          ∷ lit_i "SECRET"
          ∷ lit_i "PASSWORD"
          ∷ lit_i "CREDENTIAL"
          ∷ lit_i "PRIVATE_KEY"
          ∷ lit_i "API_KEY"
          ∷ [])
      ∷ []))

unfoldable pub blocked_external_command_reason : List ℕ → Option String
unfolding is_space
blocked_external_command_reason command =
    if test (git_command "push") command
    then some "Blocked external check command: git push is not allowed."
    else if test (git_command "merge") command
    then some "Blocked external check command: git merge is not allowed."
    else if test (whole_word "deploy") command
    then some "Blocked external check command: deploy commands are not allowed."
    else if test credential_read command
    then some "Blocked external check command: environment credentials must not be read."
    else none

-- `safety?.reason ?? policyBlock`
abbrev pub first_reason : Option String → Option String → Option String
first_reason none policy_block = policy_block
first_reason (some reason) policy_block = some reason

unfoldable pub command_reason : List ℕ → Option String
unfolding validate_command_safety blocked_external_command_reason
command_reason command =
    first_reason (validate_command_safety command) (blocked_external_command_reason command)
