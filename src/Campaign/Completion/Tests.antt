-- ===== src/Campaign/Completion/Tests.antt =====
-- The result of an implementation that its nested workflow hands to an external session.
use run_forge.Common.{◌≡◌, refl, true, false, some, String}
use run_forge.Common.Json.{Json, Fields}
use run_forge.Campaign.Completion.{
  Texts, campaign_child_completion, completion_from, facts_of, fatal, implementation_completion,
}
use run_forge.Campaign.Completion.Laws.{IsAlive, AsksFor, campaign_child_completion-IsAlive}

abbrev texts : Texts
texts = record { string_of = shown; to_lower = λ s. s; deep_equal = λ v w. false }
  where
    shown : Json → String
    shown (Json.str s) = s
    shown v = ""

abbrev with_status : String → Fields → Fields
with_status s rest = Fields.field "status" (Json.str s) rest

abbrev result_with : String → Json
result_with status = Json.obj (
    with_status status (
      Fields.field "workflow" (Json.obj (with_status "awaiting_external_session" Fields.end)) (
        Fields.field "implementation"
          (Json.obj (with_status "implemented_and_validated" Fields.end))
          (Fields.field "validationAggregate" (Json.str "passed") Fields.end))))

implementation_done :
    (campaign_child_completion texts (result_with "completed") (some "implementation")).completed
    ≡ true
unfolding campaign_child_completion completion_from fatal implementation_completion
implementation_done = refl

validation_waits :
    (campaign_child_completion texts (result_with "failed") (some "implementation")).reason
    ≡ "campaign_child_workflow_fatal:failed"
unfolding campaign_child_completion completion_from fatal implementation_completion
validation_waits = refl

campaign_child_completion-IsAlive_example :
    IsAlive (facts_of texts (result_with "completed") (some "implementation"))
    × AsksFor
        (facts_of texts (result_with "completed") (some "implementation"))
        (some "implementation")
campaign_child_completion-IsAlive_example =
    campaign_child_completion-IsAlive texts (result_with "completed") (some "implementation")
      implementation_done
