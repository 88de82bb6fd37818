-- ===== src/Campaign/Completion.antt =====
-- `campaignChildCompletion` of src/control-plane/campaign-coordinator-state.ts: whether the result of a
-- child lets its campaign go on, by the mode in which the child ran.
pub mod Laws
mod Tests
use run_forge.Common.{
  ℕ, ◌≡◌, refl, Bool, true, false, not, ◌&&◌, ◌||◌, Option, none, some, List, [], ◌∷◌, String,
  if◌then◌else◌, str_eq, or_else,
}
use run_forge.Common.Json.{
  Json, Fields, get, object, truthy, coalesce, is_str, is_true, elements, undefined, null, bool,
  str, arr, obj,
}
use run_forge.Common.Text.{is_blank, str_leb, ◌+++◌}

-- What the code asks of the language and of Node: `String(value)`, `toLowerCase` and
-- `isDeepStrictEqual`.
pub record Texts : Type 0 where
  pub string_of : Json → String
  pub to_lower : String → String
  pub deep_equal : Json → Json → Bool

pub record Completion : Type 0 where
  pub completed : Bool
  pub reason : String

abbrev pub is_one_of : String → List String → Bool
is_one_of s [] = false
is_one_of s (t ∷ ts) = str_eq s t || is_one_of s ts

-- `typeof value === "string" ? value : undefined`
abbrev pub text_of : Json → Option String
text_of (str s) = some s
text_of v = none

-- `value === false`, `value === null`
abbrev pub is_false : Json → Bool
is_false (bool false) = true
is_false v = false

abbrev pub is_null : Json → Bool
is_null null = true
is_null v = false

-- `root.result && typeof root.result === "object" ? root.result : root`
abbrev pub result_of : Json → Json
result_of root = elim (get "result" root) [ obj fs ↦ obj fs | arr vs ↦ obj Fields.end | _ ↦ root ]

-- `Object.keys(value).sort().join(",")`
insert_text : String → List String → List String
insert_text s [] = s ∷ []
insert_text s (t ∷ ts) = let rest = insert_text s ts in if str_leb s t then s ∷ t ∷ ts else t ∷ rest

sorted_keys : Fields → List String
unfolding insert_text
sorted_keys Fields.end = []
sorted_keys (Fields.field k v fs) = insert_text k (sorted_keys fs)

abbrev join : List String → String
join [] = ""
join (s ∷ []) = s
join (s ∷ t ∷ ts) = s +++ "," +++ join (t ∷ ts)

pub keys_text : Json → String
unfolding sorted_keys
keys_text (obj fs) = join (sorted_keys fs)
keys_text v = ""

abbrev reviewer_failure : String
reviewer_failure = "Semantic reviewer invocation was unavailable: openrouter_max_calls_exceeded"

abbrev delegated_action : String
delegated_action =
    "Perform an independent semantic review in the delegated session and attach structured findings to this handoff."

abbrev is_named : Json → Bool
is_named (str s) = not (is_blank s)
is_named v = false

abbrev is_only : String → List Json → Bool
is_only s (v ∷ []) = is_str s v
is_only s vs = false

abbrev is_empty_array : Json → Bool
is_empty_array (arr vs) = elim (elements (arr vs)) [ [] ↦ true | v ∷ rest ↦ false ]
is_empty_array v = false

-- The exact form of the review that a session is asked to make up for.
unfoldable pub is_delegated_review : Json → Bool
unfolding keys_text
is_delegated_review value =
    let review = object value in
    let delegation = object (get "delegation" review) in
    let selected = object (get "selectedReviewer" review) in
    let reviewer = object (get "reviewer" review) in
    str_eq (keys_text review)
      "confidence,delegation,evidence,findings,kind,limitations,performed,reviewer,selectedReviewer,status"
    && is_str "semantic" (get "kind" review)
    && is_str "unavailable" (get "status" review)
    && is_false (get "performed" review)
    && is_str "unknown" (get "confidence" review)
    && is_str "openrouter" (get "provider" selected)
    && is_named (get "model" selected)
    && is_null (get "provider" reviewer)
    && is_null (get "model" reviewer)
    && is_null (get "invocationId" reviewer)
    && is_str "external_session" (get "party" delegation)
    && is_str reviewer_failure (get "reason" delegation)
    && is_str delegated_action (get "exactAction" delegation)
    && is_only reviewer_failure (elements (get "limitations" review))
    && is_empty_array (get "findings" review)
    && is_empty_array (get "evidence" review)

abbrev pub settled_aggregates : List String
settled_aggregates = "passed" ∷ "completed_with_validation_gaps" ∷ []

-- `value === text` for a text that may be missing.
abbrev pub equals_text : Option String → String → Bool
equals_text none s = false
equals_text (some t) s = str_eq t s

unfoldable pub authenticated_delegated_review_failure :
    Texts → Json → Json → String → Option String → String → String → Bool
unfolding is_delegated_review
authenticated_delegated_review_failure texts result workflow status workflow_status
      implementation_status aggregate =
    let root_review = get "semantic" (object (get "review" result)) in
    let handoff_review = object (get "semanticReview" (object (get "handoff" workflow))) in
    str_eq status "completed"
    && equals_text workflow_status "failed"
    && str_eq implementation_status "implemented_and_validated"
    && is_one_of aggregate settled_aggregates
    && is_str aggregate (get "validationAggregate" workflow)
    && is_str "implementation" (get "actualExecutorMode" result)
    && is_true (get "implementationCompleted" workflow)
    && is_true (get "validationCompleted" workflow)
    && is_false (get "ownerDecisionRequired" workflow)
    && not (is_true (get "required" (object (get "ownerGate" workflow))))
    && is_false (get "budgetExceeded" workflow)
    && not (is_true (get "exceeded" (object (get "budget" result))))
    && not (is_false (get "workflowCompleted" result))
    && not (is_false (get "workflowCompleted" workflow))
    && is_false (get "required" (object (get "ownerGate" result)))
    && is_str "on_hold" (get "status" (object (get "publication" result)))
    && is_false (get "performed" (object (get "publication" result)))
    && is_true (get "publicationBlocked" workflow)
    && is_delegated_review root_review
    && is_delegated_review handoff_review
    && texts.deep_equal root_review handoff_review

-- What the function reads from the result before it decides.
pub record Facts : Type 0 where
  pub status : String
  pub workflow_status : Option String
  pub workflow_completed : Bool
  -- Whether either of the two fields `workflowCompleted` is `false`.
  pub workflow_incomplete : Bool
  pub verdict : String
  pub root_verdict : String
  pub workflow_verdict : String
  pub aggregate : String
  pub next_party : Option String
  pub implementation_status : String
  pub delegated_review_failure : Bool

abbrev pub fatal_statuses : List String
fatal_statuses =
    "failed" ∷ "blocked" ∷ "blocked_by_capability" ∷ "blocked_by_policy" ∷ "cancelled" ∷ "timed_out"
    ∷ "rejected" ∷ "do_not_apply" ∷ []

abbrev pub fatal_verdicts : List String
fatal_verdicts = "failed" ∷ "blocked" ∷ "rejected" ∷ "do_not_apply" ∷ []

abbrev pub refuse : String → Completion
refuse reason = record { completed = false; reason = reason }

abbrev pub accept : Completion
accept = record { completed = true; reason = "" }

abbrev or_unknown : String → String
or_unknown s = if str_eq s "" then "unknown" else s

-- `${party ? `:${party}` : ""}`
abbrev party_suffix : Option String → String
party_suffix none = ""
party_suffix (some p) = if str_eq p "" then "" else ":" +++ p

-- The checks that come first in every mode.
pub fatal : Facts → Option Completion
fatal f =
    let workflow = or_else f.workflow_status "" in
    if is_one_of f.status fatal_statuses
    then some (refuse ("campaign_child_workflow_fatal:" +++ f.status))
    else if is_one_of workflow fatal_statuses && not f.delegated_review_failure
    then some (refuse ("campaign_child_workflow_fatal:" +++ workflow))
    else if is_one_of f.root_verdict fatal_verdicts
    then some (refuse ("campaign_child_verdict:" +++ f.root_verdict))
    else if is_one_of f.workflow_verdict fatal_verdicts
    then some (refuse ("campaign_child_verdict:" +++ f.workflow_verdict))
    else none

abbrev followed_up : List String
followed_up = "awaiting_external_session" ∷ "runforge_scope_completed" ∷ "workflow_completed" ∷ []

pub implementation_completion : Facts → Completion
implementation_completion f =
    if not (str_eq f.status "completed")
    then refuse ("campaign_child_implementation_incomplete:" +++ f.status)
    else if not (is_one_of (or_else f.workflow_status "") followed_up)
        && not f.delegated_review_failure
    then refuse
        ("campaign_child_implementation_workflow_unknown:" +++ or_else f.workflow_status "missing")
    else if not (is_one_of f.aggregate settled_aggregates)
    then refuse ("campaign_child_implementation_validation_incomplete:" +++ or_unknown f.aggregate)
    else if str_eq f.implementation_status "implemented_and_validated"
    then accept
    else if str_eq f.implementation_status "no_change_required"
    then refuse "campaign_child_implementation_no_change_requires_explicit_noop_contract"
    else refuse ("campaign_child_implementation_incomplete:" +++ f.implementation_status)

-- `!workflowStatus || workflowStatus === "workflow_completed"`
abbrev done_or_missing : Option String → Bool
done_or_missing none = true
done_or_missing (some s) = str_eq s "" || str_eq s "workflow_completed"

abbrev pub is_settled : Facts → Bool
is_settled f =
    (str_eq f.status "workflow_completed" && done_or_missing f.workflow_status)
    || (str_eq f.status "completed" && equals_text f.workflow_status "workflow_completed")

pub validation_completion : Facts → Completion
validation_completion f =
    if f.workflow_incomplete
    then refuse "campaign_child_workflow_incomplete:workflowCompleted_false"
    else if not (is_settled f)
    then refuse (
        "campaign_child_workflow_incomplete:"
        +++ or_else f.workflow_status f.status
        +++ party_suffix f.next_party)
    else if is_one_of f.aggregate settled_aggregates
    then accept
    else refuse ("campaign_child_validation_incomplete:" +++ or_unknown f.aggregate)

abbrev waiting_statuses : List String
waiting_statuses =
    "awaiting_external_session" ∷ "runforge_scope_completed" ∷ "awaiting_owner"
    ∷ "awaiting_owner_decision" ∷ "blocked" ∷ []

abbrev waiting_workflows : List String
waiting_workflows =
    "awaiting_external_session" ∷ "runforge_scope_completed" ∷ "awaiting_owner" ∷ "blocked" ∷ []

-- Every other mode.
pub other_completion : Facts → Completion
other_completion f =
    if is_one_of f.status waiting_statuses
      || is_one_of (or_else f.workflow_status "") waiting_workflows
    then refuse ("campaign_child_workflow_incomplete:" +++ or_else f.workflow_status f.status)
    else if f.workflow_incomplete
    then refuse "campaign_child_workflow_incomplete:workflowCompleted_false"
    else if is_one_of f.verdict fatal_verdicts
    then refuse ("campaign_child_verdict:" +++ f.verdict)
    else if str_eq f.status "workflow_completed"
        || (str_eq f.status "completed" && equals_text f.workflow_status "workflow_completed")
        || (f.workflow_completed && str_eq f.status "completed")
    then accept
    else refuse ("campaign_child_workflow_incomplete:" +++ f.status +++ party_suffix f.next_party)

unfoldable pub completion_from : Facts → Option String → Completion
completion_from f mode = elim (fatal f) [
  | some refused ↦ refused
  | none ↦
      if equals_text mode "implementation"
      then implementation_completion f
      else if equals_text mode "validation"
      then validation_completion f
      else other_completion f
]

unfoldable pub facts_of : Texts → Json → Option String → Facts
unfolding authenticated_delegated_review_failure
facts_of texts value mode =
    let result = result_of (object value) in
    let workflow = object (get "workflow" result) in
    let status = or_else (text_of (get "status" result)) "unknown" in
    let workflow_status = text_of (get "status" workflow) in
    let implementation_status =
      or_else (text_of (get "status" (object (get "implementation" result)))) "unknown" in
    let aggregate = texts.string_of (
      coalesce (coalesce (get "validationAggregate" result) (get "validationAggregate" workflow))
        (str "")) in
    let text = λ (v : Json). texts.to_lower (texts.string_of (coalesce v (str ""))) in
    let next = object (
      coalesce
        (coalesce (coalesce (get "next" result) (get "nextAction" result)) (get "next" workflow))
        (get "nextAction" workflow)) in
    record {
      status = status;
      workflow_status = workflow_status;
      workflow_completed =
          is_true (get "workflowCompleted" result) || is_true (get "workflowCompleted" workflow);
      workflow_incomplete =
          is_false (get "workflowCompleted" result) || is_false (get "workflowCompleted" workflow);
      verdict = text (coalesce (get "verdict" result) (get "verdict" workflow));
      root_verdict = text (get "verdict" result);
      workflow_verdict = text (get "verdict" workflow);
      aggregate = aggregate;
      next_party = text_of (get "party" next);
      implementation_status = implementation_status;
      delegated_review_failure =
          equals_text mode "implementation"
          && authenticated_delegated_review_failure texts result workflow status workflow_status
              implementation_status aggregate;
    }

unfoldable pub campaign_child_completion : Texts → Json → Option String → Completion
unfolding facts_of completion_from
campaign_child_completion texts value mode = completion_from (facts_of texts value mode) mode
