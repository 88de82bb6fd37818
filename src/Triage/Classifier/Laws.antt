-- ===== src/Triage/Classifier/Laws.antt =====
-- When a failure is ready for a code proposal.
use run_forge.Common.{
  ℕ, ◌≡◌, refl, Bool, true, false, ◌&&◌, Option, none, some, List, [], ◌∷◌, inl, inr, arith, any,
  find, All, Bool-cases, ◌||◌, not, ◌⊎◌, every, or_else,
}
use run_forge.Common.Regex.{test, seq, start, lit}
use run_forge.Common.Text.{codes}
use run_forge.Triage.{FailureEvidence, ExternalFailureTriageSourceRun, FailureTriageAnalysis}
use run_forge.Triage.Readiness.{is_code_failure}
use run_forge.Triage.Missing.{has_missing_external_package}
use run_forge.Triage.Classifier.{
  ClassificationRule, classification_rules, combined, missing_node_modules, missing_node_types,
  environment_from, environment_setup_classification, setup_from, setup_failure_classification,
  is_setup_evidence, is_passed_status, is_setup_packet, has_timed_out, nothing_failed, classify_by,
  first_rule, analyze_from, analyze_failure,
}

-- An analysis is ready for a proposal if its category is one that an edit can answer, and only then;
-- what is ready needs no more context.
abbrev IsConsistent : FailureTriageAnalysis → Type 0
IsConsistent a =
    (a.ready_for_code_proposal ≡ is_code_failure a.category)
    × (a.ready_for_code_proposal && a.requires_more_context ≡ false)

abbrev IsUnready : FailureTriageAnalysis → Type 0
IsUnready a = (a.ready_for_code_proposal ≡ false) × (is_code_failure a.category ≡ false)

abbrev IfSome : (FailureTriageAnalysis → Type 0) → Option FailureTriageAnalysis → Type 0
IfSome P none = Unit
IfSome P (some a) = P a

environment-IsUnready :
    (a b c : Bool) (evidence : List FailureEvidence)
    → IfSome IsUnready (environment_from a b c evidence)
unfolding environment_from
environment-IsUnready false false false evidence = tt
environment-IsUnready false false true evidence = (refl, refl)
environment-IsUnready false true false evidence = (refl, refl)
environment-IsUnready false true true evidence = (refl, refl)
environment-IsUnready true b c evidence = (refl, refl)

environment_setup-IsUnready :
    (text : List ℕ) (evidence : List FailureEvidence)
    → IfSome IsUnready (environment_setup_classification text evidence)
unfolding environment_setup_classification
environment_setup-IsUnready text evidence =
    environment-IsUnready (missing_node_modules text) (missing_node_types text)
      (has_missing_external_package text) evidence

setup_from-IsUnready :
    (diagnostic : Bool) (o : Option FailureTriageAnalysis) (evidence : List FailureEvidence)
    → IfSome IsUnready o
    → IsUnready (setup_from diagnostic o evidence)
unfolding setup_from
setup_from-IsUnready diagnostic none evidence h = (refl, refl)
setup_from-IsUnready diagnostic (some a) evidence h = h

setup-IsUnready :
    (run : ExternalFailureTriageSourceRun) (evidence : List FailureEvidence)
    → IfSome IsUnready (setup_failure_classification run evidence)
unfolding setup_failure_classification
setup-IsUnready run evidence = elim (Bool-cases (is_setup_packet run evidence)) [
  | inl e ↦
      rw (e, setup_failure_classification)
        (setup_from-IsUnready _ _ _ (environment_setup-IsUnready _ _))
  | inr e ↦ rw (e, setup_failure_classification) tt
]

-- Every rule says that its failure is ready if its category is one that an edit can answer.
abbrev RuleFits : ClassificationRule → Type 0
RuleFits rule = rule.ready_for_code_proposal ≡ is_code_failure rule.category

abbrev IfRule : Option ClassificationRule → Type 0
IfRule none = Unit
IfRule (some rule) = RuleFits rule

find-All :
    (p : ClassificationRule → Bool) (rules : List ClassificationRule)
    → All RuleFits rules
    → IfRule (find p rules)
find-All p [] h = tt
find-All p (rule ∷ rules) (f, h) = elim (Bool-cases (p rule)) [
  | inl e ↦ rw e f
  | inr e ↦ rw e (find-All p rules h)
]

first_rule-IfRule :
    (text : List ℕ) (rules : List ClassificationRule)
    → All RuleFits rules
    → IfRule (first_rule text rules)
unfolding first_rule
first_rule-IfRule text rules h =
    find-All (λ rule. test (ClassificationRule.pattern rule) text) rules h

rules-fit : All RuleFits classification_rules
rules-fit = (refl, (refl, (refl, (refl, (refl, (refl, (refl, (refl, tt))))))))

consistent : (a : FailureTriageAnalysis) → IsUnready a → IsConsistent a
consistent a (r, c) = ground arith

classify_by-IsConsistent :
    (o : Option ClassificationRule) (evidence : List FailureEvidence)
    → IfRule o
    → IsConsistent (classify_by o evidence)
unfolding classify_by
classify_by-IsConsistent none evidence h = (refl, refl)
classify_by-IsConsistent (some rule) evidence h = (h, ground arith)

analyze_from-IsConsistent :
    (passed : Bool) (setup : Option FailureTriageAnalysis) (timed_out : Bool)
    (environment : Option FailureTriageAnalysis) (rule : Option ClassificationRule)
    (evidence : List FailureEvidence)
    → IfSome IsUnready setup
    → IfSome IsUnready environment
    → IfRule rule
    → IsConsistent (analyze_from passed setup timed_out environment rule evidence)
unfolding analyze_from
analyze_from-IsConsistent true setup timed_out environment rule evidence s e r = (refl, refl)
analyze_from-IsConsistent false (some a) timed_out environment rule evidence s e r = consistent a s
analyze_from-IsConsistent false none true environment rule evidence s e r = (refl, refl)
analyze_from-IsConsistent false none false (some a) rule evidence s e r = consistent a e
analyze_from-IsConsistent false none false none rule evidence s e r =
    classify_by-IsConsistent rule evidence r

-- The analysis of a check is ready for a code proposal if and only if its category is one of tests,
-- types, lint or build, and what is ready never asks for more context.
pub analyze_failure-ready :
    (run : ExternalFailureTriageSourceRun) (evidence : List FailureEvidence)
    → let a = analyze_failure run evidence in
      (a.ready_for_code_proposal ≡ is_code_failure a.category)
      × (a.ready_for_code_proposal && a.requires_more_context ≡ false)
unfolding analyze_failure
analyze_failure-ready run evidence =
    analyze_from-IsConsistent _ _ _ _ _ evidence (setup-IsUnready run evidence)
      (environment_setup-IsUnready (combined evidence) evidence)
      (first_rule-IfRule (combined evidence) classification_rules rules-fit)

ready_only :
    (passed : Bool) (setup : Option FailureTriageAnalysis) (timed_out : Bool)
    (environment : Option FailureTriageAnalysis) (rule : Option ClassificationRule)
    (evidence : List FailureEvidence)
    → IfSome IsUnready setup
    → IfSome IsUnready environment
    → (analyze_from passed setup timed_out environment rule evidence).ready_for_code_proposal ≡ true
    → (passed ≡ false) × (setup ≡ none) × (timed_out ≡ false) × (environment ≡ none)
unfolding analyze_from
ready_only true setup timed_out environment rule evidence s e h = absurd (cc)
ready_only false (some a) timed_out environment rule evidence (s, _) e h = absurd (cc)
ready_only false none true environment rule evidence s e h = absurd (cc)
ready_only false none false (some a) rule evidence s (e, _) h = absurd (cc)
ready_only false none false none rule evidence s e h = (refl, refl, refl, refl)

no_setup :
    (run : ExternalFailureTriageSourceRun) (evidence : List FailureEvidence)
    → setup_failure_classification run evidence ≡ none
    → is_setup_packet run evidence ≡ false
unfolding setup_failure_classification
no_setup run evidence h = elim (Bool-cases (is_setup_packet run evidence)) [
  | inl e ↦ absurd (cc (rw (e, setup_failure_classification) at h))
  | inr e ↦ e
]

has_failed :
    (evidence : List FailureEvidence)
    → every (λ i. is_passed_status i.status) evidence ≡ false
    → any (λ i. not (is_passed_status i.status)) evidence ≡ true
has_failed [] h = cc
has_failed (i ∷ is) h = ground (arith, has_failed is)

failed_under :
    (run : ExternalFailureTriageSourceRun) (evidence : List FailureEvidence)
    → nothing_failed run evidence ≡ false
    → (run.status ≡ some "passed") ⊎ (run.status ≡ some "success")
    → any (λ i. not (is_passed_status i.status)) evidence ≡ true
failed_under run evidence h (inl e) = has_failed evidence (rw e at h)
failed_under run evidence h (inr e) = has_failed evidence (rw e at h)

or_false : (a b : Bool) → (a || b) ≡ false → (a ≡ false) × (b ≡ false)
or_false a b h = ground (arith, h)

environment_from-none :
    (a b c : Bool) (evidence : List FailureEvidence)
    → environment_from a b c evidence ≡ none
    → (a ≡ false) × (b ≡ false) × (c ≡ false)
unfolding environment_from
environment_from-none false false false evidence h = (refl, refl, refl)
environment_from-none false false true evidence h = absurd (cc)
environment_from-none false true c evidence h = absurd (cc)
environment_from-none true b c evidence h = absurd (cc)

none_missing :
    (text : List ℕ) (evidence : List FailureEvidence)
    → environment_setup_classification text evidence ≡ none
    → (missing_node_modules text ≡ false)
      × (missing_node_types text ≡ false)
      × (has_missing_external_package text ≡ false)
unfolding environment_setup_classification
none_missing text evidence h = environment_from-none _ _ _ evidence h

-- An analysis that is ready is not of a packet whose status is "passed" or "success" unless some command
-- of its evidence did not pass; its status does not start with "setup_" and none of its commands is one
-- of the setup; no command timed out; and the logs name no missing package, modules or types.
pub analyze_failure-clean :
    (run : ExternalFailureTriageSourceRun) (evidence : List FailureEvidence)
    → (analyze_failure run evidence).ready_for_code_proposal ≡ true
    → ((run.status ≡ some "passed") ⊎ (run.status ≡ some "success")
        → any (λ i. not (is_passed_status i.status)) evidence ≡ true)
      × (test (seq start (lit "setup_")) (codes (or_else run.status "")) ≡ false)
      × (any is_setup_evidence evidence ≡ false)
      × (any has_timed_out evidence ≡ false)
      × (missing_node_modules (combined evidence) ≡ false)
      × (missing_node_types (combined evidence) ≡ false)
      × (has_missing_external_package (combined evidence) ≡ false)
unfolding analyze_failure is_setup_packet
analyze_failure-clean run evidence h =
    let (p, s, t, e) =
      ready_only _ _ _ _ _ evidence (setup-IsUnready run evidence)
        (environment_setup-IsUnready (combined evidence) evidence) h in
    let (status, commands) = or_false _ _ (no_setup run evidence s) in
    let (modules, types, packages) = none_missing (combined evidence) evidence e in
    (failed_under run evidence p, status, commands, t, modules, types, packages)
