-- ===== src/Triage/Classifier.antt =====
-- What a failed check failed of, src/run/external-failure-triage-classifier.ts.
pub mod Laws
use run_forge.Common.{
  ℕ, Bool, true, false, not, ◌&&◌, ◌||◌, Option, none, some, List, [], ◌∷◌, ◌++◌, String,
  if◌then◌else◌, any, every, filter, find, map, leb, ◌==◌, or_else, str_eq,
}
use run_forge.Common.Text.{codes, show_nat, ◌+++◌}
use run_forge.Common.Regex.{
  Regex, empty, start, boundary, chr, many, ahead, seq, alt, test, lit, lit_i, one_of, all_of,
}
use run_forge.Check.{CommandPhase, CommandStatus}
use run_forge.Triage.{
  FailureTriageCategory, FailureTriageConfidence, FailureEvidence, ExternalFailureTriageSourceRun,
  FailureTriageAnalysis,
}
use run_forge.Triage.Missing.{is_quote, is_dot, has_missing_external_package}

-- `.*`, `\d` and `['"]?`
abbrev dots : Regex
dots = many is_dot

abbrev digit : Regex
digit = chr (λ c. leb b'0' c && leb c b'9')

abbrev maybe_quote : Regex
maybe_quote = alt (chr is_quote) empty

abbrev between : String → String → Regex
between a b = all_of (lit_i a ∷ dots ∷ lit_i b ∷ [])

abbrev is_path_start : List ℕ → Bool
is_path_start [] = false
is_path_start (c ∷ s) = c == b'.' || c == b'/'

-- `(?!['"]?[./])`
abbrev starts_relative : List ℕ → Bool
starts_relative [] = false
starts_relative (c ∷ s) = is_path_start (c ∷ s) || (is_quote c && is_path_start s)

abbrev not_relative : Regex
not_relative = ahead (λ s. not (starts_relative s))

pub record ClassificationRule : Type 0 where
  pub category : FailureTriageCategory
  pub confidence : FailureTriageConfidence
  pub pattern : Regex
  pub root_cause : String
  pub next_action : String
  pub ready_for_code_proposal : Bool

abbrev pub setup_next_action : String
setup_next_action =
    "Install or prepare dependencies in the disposable workspace, or provide an explicit setup command, then rerun the failing command before attempting a code proposal."

abbrev pub classification_rules : List ClassificationRule
classification_rules =
    record {
      category = FailureTriageCategory.command_not_found;
      confidence = FailureTriageConfidence.high;
      pattern = one_of (
          lit_i "command not found"
          ∷ lit_i "not recognized as an internal"
          ∷ lit_i "No such file or directory"
          ∷ lit_i "ENOENT"
          ∷ []);
      root_cause = "The command or executable was not available in the execution environment.";
      next_action =
          "Verify the command name and ensure the required tool is installed or invoked through the package manager script.";
      ready_for_code_proposal = false;
    }
    ∷ record {
      category = FailureTriageCategory.dependency_missing;
      confidence = FailureTriageConfidence.high;
      pattern = one_of (
          seq (lit_i "Cannot find module ") not_relative
          ∷ all_of (lit_i "Module not found:" ∷ dots ∷ lit " " ∷ not_relative ∷ [])
          ∷ lit_i "ERR_MODULE_NOT_FOUND"
          ∷ lit_i "MODULE_NOT_FOUND"
          ∷ lit_i "Cannot find package"
          ∷ lit_i "missing dependency"
          ∷ lit_i "pnpm: command not found"
          ∷ lit_i "npm: command not found"
          ∷ []);
      root_cause =
          "The command failed because a dependency, package, or package manager was missing in the disposable workspace environment.";
      next_action = setup_next_action;
      ready_for_code_proposal = false;
    }
    ∷ record {
      category = FailureTriageCategory.typecheck_error;
      confidence = FailureTriageConfidence.high;
      pattern = one_of (
          all_of (lit_i "TS" ∷ digit ∷ digit ∷ digit ∷ digit ∷ lit ":" ∷ [])
          ∷ between "Type '" "' is not assignable"
          ∷ between "Property " " does not exist"
          ∷ seq (lit_i "tsc") boundary
          ∷ lit_i "TypeScript"
          ∷ []);
      root_cause = "The logs contain TypeScript/typecheck diagnostics.";
      next_action =
          "Inspect the referenced type errors and prepare a narrow code proposal only if the diagnostics identify repo source files.";
      ready_for_code_proposal = true;
    }
    ∷ record {
      category = FailureTriageCategory.test_assertion_failure;
      confidence = FailureTriageConfidence.high;
      pattern = one_of (
          lit_i "AssertionError"
          ∷ between "expect(" ")"
          ∷ between "Expected " " Received"
          ∷ between "FAIL " ".test"
          ∷ between "Test Files " "failed"
          ∷ between "Tests " "failed"
          ∷ []);
      root_cause = "The logs contain test assertion failure output.";
      next_action =
          "Inspect the failing assertion and affected test, then propose a minimal code or test fix if the expected behavior is clear.";
      ready_for_code_proposal = true;
    }
    ∷ record {
      category = FailureTriageCategory.lint_error;
      confidence = FailureTriageConfidence.medium;
      pattern = one_of (
          lit_i "eslint"
          ∷ lit_i "lint"
          ∷ lit_i "prettier"
          ∷ lit_i "no-unused-vars"
          ∷ lit_i "no-explicit-any"
          ∷ []);
      root_cause = "The logs contain lint or formatting diagnostics.";
      next_action =
          "Inspect lint diagnostics and propose a mechanical fix when the rule and file location are clear.";
      ready_for_code_proposal = true;
    }
    ∷ record {
      category = FailureTriageCategory.configuration_error;
      confidence = FailureTriageConfidence.medium;
      pattern = one_of (
          lit_i "config"
          ∷ lit_i "configuration"
          ∷ lit_i "Cannot read properties of undefined"
          ∷ lit_i "Invalid option"
          ∷ lit_i "Unknown option"
          ∷ between "missing required " "config"
          ∷ []);
      root_cause = "The logs point to a configuration or invocation problem.";
      next_action =
          "Verify the command, config file, and environment assumptions before proposing source changes.";
      ready_for_code_proposal = false;
    }
    ∷ record {
      category = FailureTriageCategory.environment_error;
      confidence = FailureTriageConfidence.medium;
      pattern = one_of (
          lit_i "EACCES"
          ∷ lit_i "permission denied"
          ∷ lit_i "ECONNREFUSED"
          ∷ lit_i "ENOTFOUND"
          ∷ lit_i "network"
          ∷ lit_i "database"
          ∷ lit_i "DATABASE_URL"
          ∷ lit_i "API_KEY"
          ∷ lit_i "environment variable"
          ∷ []);
      root_cause =
          "The command appears blocked by environment, permission, network, or service setup.";
      next_action =
          "Document the missing environment requirement and rerun with the required local service or variable when safe.";
      ready_for_code_proposal = false;
    }
    ∷ record {
      category = FailureTriageCategory.build_error;
      confidence = FailureTriageConfidence.medium;
      pattern = one_of (
          lit_i "build failed"
          ∷ lit_i "Failed to compile"
          ∷ lit_i "Compilation failed"
          ∷ lit_i "webpack"
          ∷ lit_i "vite"
          ∷ lit_i "rollup"
          ∷ lit_i "next build"
          ∷ []);
      root_cause = "The logs contain build failure output.";
      next_action =
          "Inspect the first concrete build diagnostic and only propose code when the failing source location is explicit.";
      ready_for_code_proposal = true;
    }
    ∷ []

abbrev pub status_text : CommandStatus → String
status_text CommandStatus.passed = "passed"
status_text CommandStatus.failed = "failed"
status_text CommandStatus.timed_out = "timed_out"
status_text CommandStatus.error = "error"
status_text CommandStatus.blocked = "blocked"

abbrev is_setup : Option CommandPhase → Bool
is_setup none = false
is_setup (some CommandPhase.setup) = true
is_setup (some CommandPhase.main) = false

abbrev basis_of : FailureEvidence → String
basis_of item =
    (if is_setup item.phase then "Setup" else "Command")
    +++ (" "
        +++ (show_nat item.index
            +++ (" (" +++ (status_text item.status +++ (") " +++ item.command)))))

abbrev pub classification :
    FailureTriageCategory
    → FailureTriageConfidence
    → String
    → List FailureEvidence
    → String
    → (requires_more_context ready_for_code_proposal : Bool) → FailureTriageAnalysis
classification category confidence cause evidence next requires ready = record {
  category = category;
  confidence = confidence;
  probable_root_cause = cause;
  evidence_basis = map basis_of evidence;
  requires_more_context = requires;
  ready_for_code_proposal = ready;
  safe_next_action = next;
}

-- The command and the excerpts of each item, line after line.
abbrev text_of_item : FailureEvidence → List ℕ
text_of_item item =
    codes item.command ++ (10 ∷ (codes item.stdout_excerpt ++ (10 ∷ codes item.stderr_excerpt)))

unfoldable pub combined : List FailureEvidence → List ℕ
combined [] = []
combined (item ∷ []) = text_of_item item
combined (item ∷ more ∷ items) = text_of_item item ++ (10 ∷ combined (more ∷ items))

unfoldable pub missing_node_modules : List ℕ → Bool
missing_node_modules text =
    test
      (one_of (
        lit_i "node_modules missing"
        ∷ all_of (lit_i "node_modules " ∷ alt (lit_i "is ") empty ∷ lit_i "missing" ∷ [])
        ∷ lit_i "Local package.json exists, but node_modules missing"
        ∷ []))
      text

unfoldable pub missing_node_types : List ℕ → Bool
missing_node_types text =
    test
      (one_of (
        all_of (
          lit_i "Cannot find type definition file for "
          ∷ maybe_quote
          ∷ lit_i "node"
          ∷ maybe_quote
          ∷ [])
        ∷ all_of (
            lit_i "Cannot find name "
            ∷ maybe_quote
            ∷ one_of (
                lit_i "process"
                ∷ lit_i "Buffer"
                ∷ lit_i "__dirname"
                ∷ lit_i "__filename"
                ∷ lit_i "require"
                ∷ lit_i "module"
                ∷ [])
            ∷ maybe_quote
            ∷ [])
        ∷ all_of (
            lit_i "Try "
            ∷ alt (lit "`") empty
            ∷ lit_i "npm i --save-dev @types/node"
            ∷ alt (lit "`") empty
            ∷ [])
        ∷ []))
      text

-- The classification from what is missing.
unfoldable pub environment_from :
    (node_modules node_types a_package : Bool) → List FailureEvidence → Option FailureTriageAnalysis
environment_from node_modules node_types a_package evidence =
    if not node_modules && (not node_types && not a_package)
    then none
    else some (
        classification
          (if node_modules || a_package
            then FailureTriageCategory.dependency_missing
            else FailureTriageCategory.environment_error)
          FailureTriageConfidence.high
          (if node_modules
            then "The disposable workspace appears to have a package manifest but missing installed dependencies."
            else if node_types
            then "The command failed because Node.js ambient types were unavailable in the disposable workspace."
            else "The command failed because a required package or module was unavailable in the disposable workspace.")
          evidence setup_next_action true false)

unfoldable pub environment_setup_classification :
    List ℕ → List FailureEvidence → Option FailureTriageAnalysis
unfolding environment_from
environment_setup_classification text evidence =
    environment_from (missing_node_modules text) (missing_node_types text)
      (has_missing_external_package text) evidence

unfoldable pub is_setup_evidence : FailureEvidence → Bool
is_setup_evidence item = is_setup item.phase || test (lit ":setup:") (codes item.command_id)

-- Whether the packet is that of a failed setup.
unfoldable pub is_setup_packet : ExternalFailureTriageSourceRun → List FailureEvidence → Bool
is_setup_packet run evidence =
    test (seq start (lit "setup_")) (codes (or_else run.status ""))
    || any is_setup_evidence evidence

abbrev pub is_diagnostic : ExternalFailureTriageSourceRun → Bool
is_diagnostic run =
    str_eq (or_else run.status "") "setup_failed_main_passed"
    || (str_eq (or_else run.status "") "setup_failed_main_failed"
        || run.continue_after_setup_failure)

abbrev has_items {ℓ} : {A : Type ℓ} → List A → Bool
has_items [] = false
has_items (x ∷ xs) = true

-- The classification of a failed setup, with what its evidence says of the environment.
unfoldable pub setup_from :
    (diagnostic : Bool)
    → Option FailureTriageAnalysis
    → (evidence : List FailureEvidence) → FailureTriageAnalysis
setup_from diagnostic (some dependency) evidence = record dependency {
  probable_root_cause =
      (if diagnostic
        then "Setup/preflight failed, then main commands ran in diagnostic mode. "
        else "Setup/preflight failed before main commands ran. ")
      +++ dependency.probable_root_cause;
  safe_next_action =
      if diagnostic
      then "Fix setup/preflight first, then rerun a clean verification. Treat diagnostic main-command logs as supporting evidence only."
      else "Inspect setup/preflight logs, correct the dependency preparation command, then rerun before attempting a code proposal.";
}
setup_from diagnostic none evidence =
    classification FailureTriageCategory.environment_error FailureTriageConfidence.high
      (if diagnostic
        then "Setup/preflight failed, and main commands ran only because diagnostic mode was explicitly enabled. The packet is not clean source-fix evidence."
        else "Setup/preflight failed before main commands ran, so the packet does not yet provide source-fix evidence.")
      evidence
      (if diagnostic
        then "Fix setup/preflight first, then rerun a clean verification. Treat diagnostic main-command logs as supporting evidence only."
        else "Inspect setup/preflight logs, correct the setup command or disposable workspace environment, then rerun before attempting a code proposal.")
      true false

unfoldable pub setup_failure_classification :
    ExternalFailureTriageSourceRun → List FailureEvidence → Option FailureTriageAnalysis
unfolding setup_from is_setup_packet
setup_failure_classification run evidence =
    let setup_evidence = filter is_setup_evidence evidence in
    if not (is_setup_packet run evidence)
    then none
    else some (
        setup_from (is_diagnostic run)
          (environment_setup_classification (combined setup_evidence) setup_evidence)
          (if has_items setup_evidence then setup_evidence else evidence))

abbrev pub is_passed_status : CommandStatus → Bool
is_passed_status CommandStatus.passed = true
is_passed_status _ = false

abbrev pub has_timed_out : FailureEvidence → Bool
has_timed_out item =
    item.timed_out || elim item.status [ CommandStatus.timed_out ↦ true | _ ↦ false ]

abbrev pub nothing_failed : ExternalFailureTriageSourceRun → List FailureEvidence → Bool
nothing_failed run evidence =
    (str_eq (or_else run.status "") "passed" || str_eq (or_else run.status "") "success")
    && every (λ item. is_passed_status item.status) evidence

abbrev no_failure_observed : FailureTriageAnalysis
no_failure_observed = record {
  category = FailureTriageCategory.no_failure_observed;
  confidence = FailureTriageConfidence.high;
  probable_root_cause =
      "No failed, timed-out, blocked, or errored command is present in the check packet.";
  evidence_basis = "Source check packet status is passed." ∷ [];
  requires_more_context = false;
  ready_for_code_proposal = false;
  safe_next_action = "Preserve the packet as passing evidence; no failure triage action is needed.";
}

-- The classification by the first rule that matches the logs, or by none.
unfoldable pub classify_by :
    Option ClassificationRule → List FailureEvidence → FailureTriageAnalysis
classify_by (some rule) evidence =
    classification rule.category rule.confidence rule.root_cause evidence rule.next_action
      (not rule.ready_for_code_proposal) rule.ready_for_code_proposal
classify_by none evidence =
    classification FailureTriageCategory.unknown_failure FailureTriageConfidence.low
      "The command failed, but the captured excerpts do not contain enough recognizable evidence to classify the root cause."
      evidence
      "Inspect the full stdout/stderr logs and rerun with more focused commands or larger log capture if needed."
      true false

unfoldable pub first_rule : List ℕ → List ClassificationRule → Option ClassificationRule
first_rule text rules = find (λ rule. test (ClassificationRule.pattern rule) text) rules

-- The tests of `analyzeFailure` in their order, over what they answer.
unfoldable pub analyze_from :
    (passed : Bool)
    → Option FailureTriageAnalysis
    → (timed_out : Bool) → Option FailureTriageAnalysis
    → Option ClassificationRule
    → List FailureEvidence
    → FailureTriageAnalysis
unfolding classify_by
analyze_from true setup timed_out environment rule evidence = no_failure_observed
analyze_from false (some setup) timed_out environment rule evidence = setup
analyze_from false none true environment rule evidence =
    classification FailureTriageCategory.timeout FailureTriageConfidence.high
      "At least one command exceeded the configured timeout." evidence
      "Inspect the timed-out command, then rerun with a narrower command or a larger timeout if the duration is expected."
      true false
analyze_from false none false (some environment) rule evidence = environment
analyze_from false none false none rule evidence = classify_by rule evidence

unfoldable pub analyze_failure :
    ExternalFailureTriageSourceRun → List FailureEvidence → FailureTriageAnalysis
unfolding analyze_from first_rule
analyze_failure run evidence =
    analyze_from (nothing_failed run evidence) (setup_failure_classification run evidence)
      (any has_timed_out evidence) (environment_setup_classification (combined evidence) evidence)
      (first_rule (combined evidence) classification_rules) evidence
