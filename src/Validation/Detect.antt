-- ===== src/Validation/Detect.antt =====
-- What a validation command is known to need, src/validation/capability-contract.ts: the detectors and
-- `normalizeValidationRequirements`.
pub mod Laws
use Prim.Native.Char.{code}
use run_forge.Common.{
  ℕ, Bool, true, false, not, ◌&&◌, ◌||◌, Option, none, some, List, [], ◌∷◌, ◌++◌, String,
  if◌then◌else◌, any, find, map, filter, or_else, str_eq, ◌⊎◌, inl, inr,
}
use run_forge.Common.Text.{codes, is_space, trim}
use run_forge.Common.Regex.{
  Regex, start, end, boundary, seq, alt, test, lit, one_of, all_of, space, spaces,
}
use run_forge.Validation.{
  ValidationCapability, ValidationAcceptance, RequirementSource, ValidationCommandRequirement,
  ValidationProfile, has_command, unique,
}
use run_forge.Validation.Plan.{is_git}
use Prim.Native.String

-- `text.trim()`, again as a text.
abbrev trim_left : String → String
trim_left String.[] = ""
trim_left (String.◌∷◌ c s) =
    let rest = trim_left s in if is_space (code c) then rest else String.◌∷◌ c s

abbrev trim_right : String → String
trim_right String.[] = ""
trim_right (String.◌∷◌ c s) =
    let rest = trim_right s in if str_eq rest "" && is_space (code c) then "" else String.◌∷◌ c rest

unfoldable pub trim_text : String → String
trim_text s = trim_right (trim_left s)

-- What a detector knows of a command.
pub record Known : Type 0 where
  pub required_capabilities : List ValidationCapability
  pub acceptance : ValidationAcceptance
  pub evidence_role : String
  pub fallbacks : List String

abbrev pub KnownCommandDetector : Type 0
KnownCommandDetector = String → Option Known

abbrev known_if : Bool → List ValidationCapability → ValidationAcceptance → String → Option Known
known_if detected capabilities acceptance role =
    if detected
    then some (record {
      required_capabilities = capabilities;
      acceptance = acceptance;
      evidence_role = role;
      fallbacks = [];
    })
    else none

-- `/^name(?:\s|$)/.test(command.trim())`
abbrev starts_with_word : Regex → String → Bool
starts_with_word name command =
    test (all_of (start ∷ name ∷ alt space end ∷ [])) (trim (codes command))

abbrev package_manager : Regex
package_manager = one_of (lit "pnpm" ∷ lit "npm" ∷ lit "yarn" ∷ lit "bun" ∷ [])

-- Whether `packageManagerInvocation` finds one, with `corepack` before it or not.
unfoldable pub is_package_manager_invocation : String → Bool
is_package_manager_invocation command =
    starts_with_word package_manager command
    || starts_with_word (all_of (lit "corepack" ∷ spaces ∷ package_manager ∷ [])) command

unfoldable pub detect_package_script : KnownCommandDetector
detect_package_script command =
    known_if (is_package_manager_invocation command)
      (ValidationCapability.filesystem ∷ ValidationCapability.shell
        ∷ ValidationCapability.package_manager ∷ ValidationCapability.dependencies ∷ [])
      ValidationAcceptance.required "product-validation"

abbrev has_word : List String → String → Bool
has_word words command =
    test (all_of (boundary ∷ one_of (map lit words) ∷ boundary ∷ [])) (trim (codes command))

unfoldable pub detect_git : KnownCommandDetector
detect_git command =
    known_if (is_git command)
      (unique (
        ValidationCapability.filesystem
        ∷ ValidationCapability.git_read_only_evidence
        ∷ ValidationCapability.git_metadata
        ∷ ((if has_word ("log" ∷ "show" ∷ "rev-list" ∷ "merge-base" ∷ "blame" ∷ []) command
              then ValidationCapability.git_history ∷ []
              else [])
            ++ (if has_word ("diff" ∷ "status" ∷ "add" ∷ "reset" ∷ "ls-files" ∷ []) command
                then ValidationCapability.working_tree_index ∷ []
                else []))))
      ValidationAcceptance.evidence_only "git-evidence"

unfoldable pub detect_node : KnownCommandDetector
detect_node command =
    known_if (starts_with_word (lit "node") command)
      (ValidationCapability.filesystem ∷ ValidationCapability.shell ∷ [])
      ValidationAcceptance.required "product-validation"

unfoldable pub detect_docker : KnownCommandDetector
detect_docker command =
    known_if
      (starts_with_word (alt (lit "docker") (all_of (lit "docker" ∷ spaces ∷ lit "compose" ∷ [])))
        command)
      (ValidationCapability.filesystem ∷ ValidationCapability.shell ∷ ValidationCapability.docker
        ∷ [])
      ValidationAcceptance.optional "environment-validation"

-- The detectors at the start; `registerKnownCommandDetector` puts one before them.
abbrev pub detectors : List KnownCommandDetector
detectors = detect_package_script ∷ detect_git ∷ detect_node ∷ detect_docker ∷ []

-- `detectors.map((detector) => detector.detect(command)).find(Boolean)`
unfoldable pub detect : List KnownCommandDetector → String → Option Known
detect [] command = none
detect (d ∷ ds) command = elim (d command) [ some known ↦ some known | none ↦ detect ds command ]

pub record ValidationRequirementInput : Type 0 where
  pub command : String
  pub capabilities : Option (List ValidationCapability)
  pub acceptance : Option ValidationAcceptance
  pub evidence_role : Option String
  pub fallbacks : Option (List String)

-- `explicit.get(command)`: a later entry of the same command replaces an earlier one.
unfoldable pub declared_for :
    List ValidationRequirementInput → String → Option ValidationRequirementInput
declared_for [] command = none
declared_for (item ∷ items) command =
    let rest = declared_for items command in
    elim rest [
      | some later ↦ some later
      | none ↦ if str_eq (trim_text item.command) command then some item else none
    ]

-- `a || b` of texts.
abbrev first_text : Option String → String → String
first_text none b = b
first_text (some a) b = if str_eq a "" then b else a

abbrev trimmed : Option String → Option String
trimmed none = none
trimmed (some s) = some (trim_text s)

abbrev unique_texts : List String → List String
unique_texts [] = []
unique_texts (s ∷ ss) = s ∷ filter (λ t. not (str_eq s t)) (unique_texts ss)

-- The requirement of one command, declared or not and known or not.
unfoldable pub requirement_of :
    ValidationProfile
    → String
    → Option ValidationRequirementInput
    → Option Known
    → ValidationCommandRequirement
requirement_of profile command (some declared) none = record {
  command = command;
  required_capabilities = unique (
      (ValidationCapability.shell ∷ [])
      ++ (or_else declared.capabilities [] ++ profile.additional_capabilities));
  acceptance = or_else declared.acceptance profile.default_acceptance;
  evidence_role = first_text (trimmed declared.evidence_role) profile.default_evidence_role;
  fallbacks = unique_texts (or_else declared.fallbacks []);
  source = RequirementSource.explicit;
}
requirement_of profile command (some declared) (some known) = record {
  command = command;
  required_capabilities = unique (
      known.required_capabilities
      ++ (or_else declared.capabilities [] ++ profile.additional_capabilities));
  acceptance = or_else declared.acceptance known.acceptance;
  evidence_role =
      first_text (trimmed declared.evidence_role)
        (first_text (some known.evidence_role) profile.default_evidence_role);
  fallbacks = unique_texts (or_else declared.fallbacks known.fallbacks);
  source = RequirementSource.explicit;
}
requirement_of profile command none (some known) = record {
  command = command;
  required_capabilities = unique (known.required_capabilities ++ profile.additional_capabilities);
  acceptance = known.acceptance;
  evidence_role = known.evidence_role;
  fallbacks = known.fallbacks;
  source = RequirementSource.known_command;
}
requirement_of profile command none none = record {
  command = command;
  required_capabilities = unique profile.additional_capabilities;
  acceptance = profile.default_acceptance;
  evidence_role = profile.default_evidence_role;
  fallbacks = [];
  source = RequirementSource.auto_default;
}

-- The declared command that is not among the commands, if there is one.
unfoldable pub undeclared : List String → List ValidationRequirementInput → Option String
undeclared commands inputs =
    find (λ command. not (has_command commands command))
      (map (λ item. trim_text (ValidationRequirementInput.command item)) inputs)

-- The error names the undeclared command. The profile's own list has been made unique.
unfoldable pub normalize_validation_requirements :
    List KnownCommandDetector
    → List String
    → List ValidationRequirementInput
    → ValidationProfile
    → String ⊎ List ValidationCommandRequirement
unfolding undeclared requirement_of
normalize_validation_requirements known_detectors commands inputs profile =
    let unique_profile = record profile {
      additional_capabilities = unique profile.additional_capabilities;
    } in
    elim (undeclared commands inputs) [
      | some command ↦ inl command
      | none ↦ inr (
          map
            (λ raw.
              let command = trim_text raw in
              requirement_of unique_profile command (declared_for inputs command)
                (detect known_detectors command))
            commands)
    ]
