-- ===== src/Planning/Sinks.antt =====
-- `validateImplementationSinks` of src/run/campaign-validation.ts: an implementation campaign ends in one
-- read-only node that validates all of its implementation nodes.
pub mod Reaching
pub mod Laws
use run_forge.Common.{
  ℕ, zero, suc, ◌+◌, Bool, true, false, not, ◌&&◌, ◌||◌, Option, none, some, List, [], ◌∷◌, ◌++◌,
  map, String, if◌then◌else◌, str_eq, or_else, length, every, filter, find, leb, ◌==◌,
}
use run_forge.Common.Json.{
  Json, get, object, is_str, is_true, is_array, elements, texts, coalesce, str,
}
use run_forge.Common.Regex.{Regex, empty, start, end, chr, seq, alt, test, lit, all_of}
use run_forge.Common.Text.{codes}
use run_forge.Planning.Graph.{GraphNode, member, deps_of}
use run_forge.Planning.Validate.{
  PlanNode, Plan, PlanError, Rules, ◌then_check◌, require, check_each, check_plan, graph_of, is_nil,
  no_implementation, no_single_sink, no_git_range, git_not_required, sink_not_read_only,
  sink_not_explicit, sink_without_requirements, sink_misses_implementation, omitted_command,
  command_not_required,
}

-- `for (const dependency of dependencies) if (!seen.has(dependency)) { seen.add(dependency); ... }`
unfoldable pub each_new :
    (String → List String → Option (List String)) → List String → List String → Option (List String)
each_new visit [] seen = some seen
each_new visit (d ∷ ds) seen =
    let skipped = each_new visit ds seen in
    let entered : Option (List String) = elim (visit d (d ∷ seen)) [
      | none ↦ none
      | some seen' ↦ each_new visit ds seen'
    ] in
    if member d seen then skipped else entered

-- `transitiveDependencies`, `none` for lack of fuel; `seen` holds the latest id first.
unfoldable pub transitive : (String → List String) → ℕ → String → List String → Option (List String)
unfolding each_new
transitive deps zero id seen = none
transitive deps (suc fuel) id seen = each_new (transitive deps fuel) (deps id) seen

unfoldable pub transitive_dependencies : List GraphNode → String → Option (List String)
unfolding transitive
transitive_dependencies nodes id = transitive (deps_of nodes) (length nodes + 2) id []

-- `values !== undefined && values.length > 0 && values.every((value) => value === "required")`
unfoldable pub strictly_required : List String → Bool
strictly_required values = not (is_nil values) && every (λ v. str_eq v "required") values

-- `c{n}` and `c{0,n}`
abbrev exactly : ℕ → (ℕ → Bool) → Regex
exactly zero c = empty
exactly (suc n) c = seq (chr c) (exactly n c)

abbrev at_most : ℕ → (ℕ → Bool) → Regex
at_most zero c = empty
at_most (suc n) c = alt (seq (chr c) (at_most n c)) empty

-- `[a-f0-9]`
abbrev is_hex : ℕ → Bool
is_hex c = (leb b'a' c && leb c b'f') || (leb b'0' c && leb c b'9')

-- `^git diff --check (?:__CAMPAIGN_BASE__|[a-f0-9]{40,64})\.\.\.HEAD$`
abbrev git_range : Regex
git_range = all_of (
    start
    ∷ lit "git diff --check "
    ∷ alt (lit "__CAMPAIGN_BASE__") (seq (exactly 40 is_hex) (at_most 24 is_hex))
    ∷ lit "...HEAD"
    ∷ end
    ∷ [])

unfoldable pub is_git_range : String → Bool
unfolding test
is_git_range command = test git_range (codes command)

-- `object(node.taskSpec).execution?.mode === "implementation"`
abbrev pub is_implementation : PlanNode → Bool
is_implementation node = is_str "implementation" (get "mode" (get "execution" node.task_spec))

abbrev pub all_dependencies : List PlanNode → List String
all_dependencies [] = []
all_dependencies (n ∷ ns) = n.depends_on ++ all_dependencies ns

abbrev pub is_sink : List PlanNode → PlanNode → Bool
is_sink nodes node = not (member node.id (all_dependencies nodes))

module _ (string_of : Json → String) where
  -- The acceptances of the requirements of one command, `string_of` being the language's `String`.
  pub acceptances : String → List Json → List String
  acceptances command [] = []
  acceptances command (v ∷ vs) =
      let rest = acceptances command vs in
      if is_str command (get "command" (object v))
      then string_of (coalesce (get "acceptance" (object v)) (str "default")) ∷ rest
      else rest

  abbrev pub commands_of : PlanNode → List String
  commands_of node = texts (elements (get "commands" (object (get "validation" node.task_spec))))

  unfoldable pub is_required : PlanNode → String → Bool
  unfolding acceptances strictly_required
  is_required node command = strictly_required (
      acceptances command
        (elements (get "requirements" (object (get "validation" node.task_spec)))))

  unfoldable pub is_read_only : PlanNode → Bool
  is_read_only node =
      let task = node.task_spec in
      let authority = object (get "authority" task) in
      is_str "validation" (get "mode" (object (get "execution" task)))
      && is_str "read-only" (get "profile" authority)
      && not (is_true (get "allowProviderCalls" authority))
      && not (is_true (get "allowNetwork" authority))
      && is_nil node.write_scopes
      && is_nil (elements (get "writeScopes" (object (get "discovery" task))))

  ancestors_check : Option (List String) → List PlanNode → Option PlanError
  unfolding check_each
  ancestors_check none implementations = none
  ancestors_check (some ancestors) implementations =
      check_each (λ n. require (member n.id ancestors) (sink_misses_implementation n.id))
        implementations

  -- The body of the loop over the sinks.
  unfoldable pub check_sink : List PlanNode → PlanNode → Option PlanError
  unfolding is_read_only ancestors_check transitive_dependencies
  check_sink nodes node =
      let validation = object (get "validation" node.task_spec) in
      require (is_read_only node) (sink_not_read_only node.id)
      then_check require
          (is_str "explicit" (get "mode" validation) && is_array (get "commands" validation))
          (sink_not_explicit node.id)
      then_check require (is_array (get "requirements" validation))
          (sink_without_requirements node.id)
      then_check ancestors_check (transitive_dependencies (graph_of nodes) node.id)
          (filter is_implementation nodes)

  check_command : PlanNode → String → Option PlanError
  unfolding is_required
  check_command sink command =
      require (member command (commands_of sink)) (omitted_command command)
      then_check require (is_required sink command) (command_not_required command)

  integrity_check : PlanNode → Option String → Option PlanError
  unfolding is_required
  integrity_check sink none = some no_git_range
  integrity_check sink (some command) = require (is_required sink command) git_not_required

  -- What follows for the single sink.
  check_single : List String → List PlanNode → List PlanNode → Option PlanError
  unfolding check_sink check_each check_command integrity_check is_git_range
  check_single required nodes (sink ∷ []) =
      check_sink nodes sink
      then_check check_each (check_command sink) required
      then_check integrity_check sink (find is_git_range (commands_of sink))
  check_single required nodes sinks = some no_single_sink

  unfoldable pub validate_implementation_sinks : List PlanNode → List String → Option PlanError
  unfolding check_single
  validate_implementation_sinks nodes required =
      require (not (is_nil (filter is_implementation nodes))) no_implementation
      then_check check_single required nodes (filter (is_sink nodes) nodes)

  unfoldable pub validate_campaign_plan : Rules → Plan → Option PlanError
  unfolding check_plan validate_implementation_sinks
  validate_campaign_plan rules plan =
      check_plan rules plan
      then_check (if rules.options.implementation
          then validate_implementation_sinks plan.nodes rules.options.required_validation_commands
          else none)
