-- ===== src/Planning/Tests.antt =====
-- A plan of an implementation and the validation that ends it.
use run_forge.Common.{
  ℕ, ◌≤◌, ◌≡◌, ◌≢◌, ◌↔◌, refl, true, false, none, some, List, [], ◌∷◌, String, filter,
}
use run_forge.Common.Json.{Json, Fields, Items}
use run_forge.Common.Text.{codes}
use run_forge.Planning.Graph.{remove, GraphNode, member, deps_of, ids}
use run_forge.Planning.Cycle.{detect_cycle}
use run_forge.Planning.Cycle.Chains.{IsCycle}
use run_forge.Planning.Cycle.Laws.{detect_cycle-IsCycle, detect_cycle_iff, HasOrder}
use run_forge.Planning.Validate.{PlanNode, Plan, Rules, check_plan, check_node, PlanError, is_nil}
use run_forge.Planning.Validate.Laws.{IsSound, check_plan-IsSound, check_plan-caps, total_caps}
use run_forge.Planning.Validate.Laws.{IsUnique}
use run_forge.Planning.Cycle.Orders.{IsOrdered}
use run_forge.Planning.Topo.{topo_sort}
use run_forge.Planning.Topo.Laws.{IsClosed, topo_sort_complete}
use mathlib.Core.List.{reverse}
use run_forge.Planning.Sinks.{transitive_dependencies, validate_campaign_plan, is_implementation}
use run_forge.Planning.Sinks.Reaching.{Reaches, transitive_dependencies_iff}
use run_forge.Planning.Sinks.Laws.{IsTerminal, validate_campaign_plan-IsTerminal}
use run_forge.Campaign.{CampaignSpec, CampaignRecord, openrouter}
use run_forge.Planning.Create.{Services, new_record, used, plan_of, queued_with, node_of}

abbrev vertex : String → List String → GraphNode
vertex id depends_on = record { id = id; depends_on = depends_on }

abbrev looped : List GraphNode
looped = vertex "a" ("b" ∷ []) ∷ vertex "b" ("a" ∷ []) ∷ []

looped_found : detect_cycle looped ≡ "a" ∷ "b" ∷ "a" ∷ []
unfolding detect_cycle
looped_found = refl

looped_not_empty : detect_cycle looped ≢ []
looped_not_empty e = let e' = rw looped_found at e in cc

detect_cycle_test :
    detect_cycle (vertex "a" ("b" ∷ []) ∷ vertex "b" ("c" ∷ []) ∷ vertex "c" ("b" ∷ []) ∷ [])
    ≡ "b" ∷ "c" ∷ "b" ∷ []
unfolding detect_cycle
detect_cycle_test = refl

topo_sort_test :
    topo_sort (vertex "c" ("a" ∷ "b" ∷ []) ∷ vertex "b" ("a" ∷ []) ∷ vertex "a" [] ∷ [])
    ≡ some ("a" ∷ "b" ∷ "c" ∷ [])
unfolding topo_sort member remove
topo_sort_test = refl

detect_cycle-IsCycle_example : IsCycle (deps_of looped) (detect_cycle looped)
detect_cycle-IsCycle_example = detect_cycle-IsCycle looped looped_not_empty

detect_cycle_iff_example : (detect_cycle looped ≡ []) ↔ HasOrder looped
detect_cycle_iff_example = detect_cycle_iff looped

abbrev layered : List GraphNode
layered = vertex "c" ("a" ∷ "b" ∷ []) ∷ vertex "b" ("a" ∷ []) ∷ vertex "a" [] ∷ []

layered_distinct : IsUnique [] (ids layered)
unfolding member
layered_distinct = (refl, (refl, (refl, tt)))

layered-IsClosed : IsClosed (ids layered) layered
unfolding member
layered-IsClosed = ((refl, (refl, tt)), ((refl, tt), (tt, tt)))

layered_acyclic : detect_cycle layered ≡ []
unfolding detect_cycle
layered_acyclic = refl

topo_sort_complete_example :
    (order : List String) × (topo_sort layered ≡ some order)
    × IsOrdered (deps_of layered) (reverse order)
    × ((x : String) → member x (ids layered) ≡ true → member x (reverse order) ≡ true)
topo_sort_complete_example =
    topo_sort_complete layered layered_distinct layered-IsClosed layered_acyclic

abbrev object_of : String → String → Fields
object_of k v = Fields.field k (Json.str v) Fields.end

abbrev routed : ℕ → Json
routed budget = Json.obj (
    Fields.field "provider" (Json.str "openrouter")
      (Fields.field "costBudgetUsd" (Json.num budget) Fields.end))

abbrev coding : PlanNode
coding = record {
  id = "code";
  task_spec = Json.obj (
      Fields.field "execution" (Json.obj (object_of "mode" "implementation"))
        (Fields.field "providerRouting" (routed 300) Fields.end));
  depends_on = [];
  estimated_tokens = some 40;
  estimated_cost_usd = some 400;
  write_scopes = "src" ∷ [];
}

abbrev checks : String
checks = "git diff --check __CAMPAIGN_BASE__...HEAD"

abbrev final_check : PlanNode
final_check = record {
  id = "check";
  task_spec = Json.obj (
      Fields.field "execution" (Json.obj (object_of "mode" "validation")) (
        Fields.field "providerRouting" (routed 0) (
          Fields.field "authority" (Json.obj (object_of "profile" "read-only")) (
            Fields.field "validation"
              (Json.obj (
                Fields.field "mode" (Json.str "explicit") (
                  Fields.field "commands" (Json.arr (Items.cons (Json.str checks) Items.nil)) (
                    Fields.field "requirements"
                      (Json.arr (
                        Items.cons
                          (Json.obj (
                            Fields.field "command" (Json.str checks)
                              (object_of "acceptance" "required")))
                          Items.nil))
                      Fields.end))))
              Fields.end))));
  depends_on = "code" ∷ [];
  estimated_tokens = none;
  estimated_cost_usd = some 0;
  write_scopes = [];
}

abbrev plan : Plan
plan = record { nodes = coding ∷ final_check ∷ []; estimated_cost_usd = some 401 }

abbrev string_of : Json → String
string_of (Json.str s) = s
string_of v = ""

abbrev rules : Rules
rules = record {
  limits = record { max_tasks = 2; max_tokens = 50; max_cost_usd = some 500 };
  authority = record {
    inspect = true;
    implementation = true;
    provider_calls = true;
    network = false;
    local_branch = true;
    local_commit = true;
  };
  options = record {
    require_open_router = false;
    implementation = true;
    required_validation_commands = checks ∷ [];
  };
  text = λ v. codes "{}";
}

plan_accepted : validate_campaign_plan string_of rules plan ≡ none
unfolding validate_campaign_plan member check_node detect_cycle
plan_accepted = refl

plan_checked : check_plan rules plan ≡ none
unfolding check_plan member check_node detect_cycle
plan_checked = refl

two_sinks :
    validate_campaign_plan string_of rules
      (record plan { nodes = coding ∷ (record final_check { depends_on = [] }) ∷ [] })
    ≡ some PlanError.no_single_sink
unfolding validate_campaign_plan member check_node detect_cycle
two_sinks = refl

check_plan-IsSound_example : IsSound rules plan
check_plan-IsSound_example = check_plan-IsSound rules plan plan_checked

check_plan-caps_example : total_caps rules plan.nodes ≤ 500
check_plan-caps_example = check_plan-caps rules plan 500 refl plan_checked

transitive_dependencies_iff_example :
    (found : List String) × (transitive_dependencies looped "a" ≡ some found)
    × ((x : String) → (member x found ≡ true) ↔ Reaches (deps_of looped) "a" x)
transitive_dependencies_iff_example = transitive_dependencies_iff looped "a"

validate_campaign_plan-IsTerminal_example :
    IsSound rules plan
    × (is_nil (filter is_implementation plan.nodes) ≡ false)
    × ((sink : PlanNode) × IsTerminal string_of plan.nodes
          rules.options.required_validation_commands sink)
validate_campaign_plan-IsTerminal_example =
    validate_campaign_plan-IsTerminal string_of rules plan refl plan_accepted

abbrev spec : CampaignSpec
spec = record {
  target = record { project_id = none; repository = some "/repo" };
  authority = record rules.authority { network = true };
  provider = openrouter;
  fallback_policy = none;
  limits = record { max_cost_usd = some 500; max_tokens = 60; max_tasks = 2; max_concurrency = 1 };
  required_commands = some (checks ∷ []);
}

abbrev services : Services
services = record {
  id = "cmp_v1_1";
  planned = record { usage = record { tokens = 10; cost_usd = 7 }; plan = some (plan, 50) };
  string_of = string_of;
  text = rules.text;
  has_worktree = true;
}

abbrev created : CampaignRecord
unfolding node_of
created = queued_with plan (record (used services.planned.usage (new_record services spec)) {
  plan = some (plan_of plan 50);
})
