-- ===== src/Campaign/Completion/Laws.antt =====
-- When a child counts as completed.
use run_forge.Common.{
  ◌≡◌, subst, ◌⊎◌, inl, inr, refl, Bool, true, false, not, ◌&&◌, Option, none, some, String,
  if◌then◌else◌, str_eq, or_else, str_eq_iff, arith, Bool-cases, Option-cases,
}
use run_forge.Common.Json.{Json}
use run_forge.Common.Text.{◌+++◌}
use run_forge.Campaign.Completion.{
  Texts, Facts, Completion, is_one_of, fatal_statuses, fatal_verdicts, settled_aggregates,
  equals_text, fatal, implementation_completion, validation_completion, completion_from, is_settled,
  facts_of, campaign_child_completion, refuse, accept,
}

-- Nothing that ends a child in every mode has happened.
pub record IsAlive (f : Facts) : Type 0 where
  pub status : is_one_of f.status fatal_statuses ≡ false
  pub workflow :
      (is_one_of (or_else f.workflow_status "") fatal_statuses ≡ false)
      ⊎ (f.delegated_review_failure ≡ true)
  pub root_verdict : is_one_of f.root_verdict fatal_verdicts ≡ false
  pub workflow_verdict : is_one_of f.workflow_verdict fatal_verdicts ≡ false

no_refusal : (b : Bool) (r s : String) → (if b then refuse r else refuse s).completed ≡ true → ⊥
no_refusal true r s h = cc
no_refusal false r s h = cc

-- No check of `fatal` ends with a completion.
data IsRefused : Option Completion → Type 0 where
  gone : IsRefused none
  refused : (c : Completion) → c.completed ≡ false → IsRefused (some c)

IsRefused-if :
    (b : Bool) (r : String) (rest : Option Completion)
    → IsRefused rest
    → IsRefused (if b then some (refuse r) else rest)
IsRefused-if true r rest h = refused (refuse r) refl
IsRefused-if false r rest h = h

fatal-IsRefused : (f : Facts) → IsRefused (fatal f)
unfolding fatal
fatal-IsRefused f =
    let workflow = or_else f.workflow_status "" in
    IsRefused-if (is_one_of f.status fatal_statuses) ("campaign_child_workflow_fatal:" +++ f.status)
      _
      (IsRefused-if (is_one_of workflow fatal_statuses && not f.delegated_review_failure)
        ("campaign_child_workflow_fatal:" +++ workflow) _
        (IsRefused-if (is_one_of f.root_verdict fatal_verdicts)
          ("campaign_child_verdict:" +++ f.root_verdict) _
          (IsRefused-if (is_one_of f.workflow_verdict fatal_verdicts)
            ("campaign_child_verdict:" +++ f.workflow_verdict) none gone)))

fatal_refuses : (f : Facts) (c : Completion) → fatal f ≡ some c → c.completed ≡ true → ⊥
fatal_refuses f c e h = not_both (subst IsRefused e (fatal-IsRefused f)) h
  where
    not_both : {d : Completion} → IsRefused (some d) → d.completed ≡ true → ⊥
    not_both (refused d n) h = cc

if_none :
    (b : Bool) (r : Completion) (rest : Option Completion)
    → (if b then some r else rest) ≡ none
    → (b ≡ false) × (rest ≡ none)
if_none true r rest h = cc
if_none false r rest h = (refl, h)

-- A refusal that was not taken.
if_refuse :
    (b : Bool) (reason : String) (rest : Completion)
    → (if b then refuse reason else rest).completed ≡ true
    → (b ≡ false) × (rest.completed ≡ true)
if_refuse true reason rest h = cc
if_refuse false reason rest h = (refl, h)

and_not : (a b : Bool) → (a && not b) ≡ false → (a ≡ false) ⊎ (b ≡ true)
and_not a true h = inr refl
and_not a false h = inl (ground (arith, h))

not-false : (b : Bool) → not b ≡ false → b ≡ true
not-false b h = ground (arith, h)

module _ (f : Facts) where
  fatal-IsAlive : fatal f ≡ none → IsAlive f
  unfolding fatal
  fatal-IsAlive h =
      let (status, h1) = if_none _ _ _ h in
      let (workflow, h2) = if_none _ _ _ h1 in
      let (root, h3) = if_none _ _ _ h2 in
      let (verdict, h4) = if_none _ _ _ h3 in
      record {
        status = status;
        workflow = and_not _ _ workflow;
        root_verdict = root;
        workflow_verdict = verdict;
      }

  -- An implementation counts only if it is implemented and validated.
  implementation_done :
      (implementation_completion f).completed ≡ true
      → (f.status ≡ "completed")
        × (is_one_of f.aggregate settled_aggregates ≡ true)
        × (f.implementation_status ≡ "implemented_and_validated")
  unfolding implementation_completion
  implementation_done h =
      let (status, h1) = if_refuse _ _ _ h in
      let (workflow, h2) = if_refuse _ _ _ h1 in
      let (aggregate, h3) = if_refuse _ _ _ h2 in
      (
        (str_eq_iff _ _).0 (not-false _ status),
        not-false _ aggregate,
        last (Bool-cases (str_eq f.implementation_status "implemented_and_validated")) h3,
      )
    where
      last :
          (str_eq f.implementation_status "implemented_and_validated" ≡ true)
            ⊎ (str_eq f.implementation_status "implemented_and_validated" ≡ false)
          → (if str_eq f.implementation_status "implemented_and_validated"
              then accept
              else if str_eq f.implementation_status "no_change_required"
              then refuse "campaign_child_implementation_no_change_requires_explicit_noop_contract"
              else refuse (
                  "campaign_child_implementation_incomplete:"
                  +++ f.implementation_status)).completed
            ≡ true
          → f.implementation_status ≡ "implemented_and_validated"
      last (inl e) h = (str_eq_iff _ _).0 e
      last (inr e) h = absurd (no_refusal _ _ _ (rw e at h))

  -- A validation counts only if its workflow has completed with a settled outcome.
  validation_done :
      (validation_completion f).completed ≡ true
      → (f.workflow_incomplete ≡ false)
        × (is_settled f ≡ true)
        × (is_one_of f.aggregate settled_aggregates ≡ true)
  unfolding validation_completion
  validation_done h =
      let (incomplete, h1) = if_refuse _ _ _ h in
      let (settled, h2) = if_refuse _ _ _ h1 in
      (
        incomplete,
        not-false (is_settled f) settled,
        accepted (is_one_of f.aggregate settled_aggregates) _ h2,
      )
    where
      accepted :
          (b : Bool) (reason : String)
          → (if b then accept else refuse reason).completed ≡ true
          → b ≡ true
      accepted true reason h = refl
      accepted false reason h = cc

-- What each mode asks of a child, beyond its being alive. `other` is asked in neither of the two modes.
abbrev pub AsksFor : Facts → Option String → Type 0
AsksFor f mode =
    (equals_text mode "implementation" ≡ true
      → (f.status ≡ "completed")
        × (is_one_of f.aggregate settled_aggregates ≡ true)
        × (f.implementation_status ≡ "implemented_and_validated"))
    × (equals_text mode "implementation" ≡ false
        → equals_text mode "validation" ≡ true
        → (f.workflow_incomplete ≡ false)
          × (is_settled f ≡ true)
          × (is_one_of f.aggregate settled_aggregates ≡ true))

completion_from-IsAlive :
    (f : Facts) (mode : Option String)
    → (completion_from f mode).completed ≡ true
    → IsAlive f × AsksFor f mode
unfolding completion_from
completion_from-IsAlive f mode h = elim (Option-cases (fatal f)) [
  | inr (c, e) ↦ absurd (fatal_refuses f c e (rw (e, completion_from) at h))
  | inl e ↦
      let h' = rw (e, completion_from) at h in
      (
        fatal-IsAlive f e,
        (λ i. implementation_done f (rw i at h'), λ n v. validation_done f (rw (n, v) at h')),
      )
]

-- A child counts as completed only if no status or verdict ends it, where a failed workflow is
-- excused by a delegated review only; an implementation must be implemented and validated with a
-- settled outcome, and the workflow of a validation must have completed with one.
pub campaign_child_completion-IsAlive :
    (texts : Texts) (value : Json) (mode : Option String)
    → (campaign_child_completion texts value mode).completed ≡ true
    → IsAlive (facts_of texts value mode) × AsksFor (facts_of texts value mode) mode
unfolding campaign_child_completion
campaign_child_completion-IsAlive texts value mode h =
    completion_from-IsAlive (facts_of texts value mode) mode h
