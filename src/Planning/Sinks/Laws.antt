-- ===== src/Planning/Sinks/Laws.antt =====
-- What an implementation campaign's plan satisfies if its validation accepts it.
use run_forge.Common.{
  ◌≡◌, ◌↔◌, refl, true, false, Option, none, some, List, [], ◌∷◌, String, All, filter, find,
}
use run_forge.Common.Json.{Json}
use run_forge.Planning.Graph.{member, deps_of}
use run_forge.Planning.Validate.{
  PlanNode, Plan, PlanError, Rules, require, check_plan, graph_of, is_nil,
}
use run_forge.Planning.Validate.Laws.{
  then_check-eq_none, require-eq_none, require-not, check_each-eq_none, IsSound, check_plan-IsSound,
}
use run_forge.Planning.Sinks.{
  transitive_dependencies, is_implementation, is_sink, is_read_only, is_required, commands_of,
  is_git_range, ancestors_check, check_sink, check_command, integrity_check, check_single,
  validate_implementation_sinks, validate_campaign_plan,
}
use run_forge.Planning.Sinks.Reaching.{Reaches, transitive_dependencies_iff}

All-require :
    (required : List PlanNode) (found : List String)
    → All
        (λ (n : PlanNode).
          require (member n.id found) (PlanError.sink_misses_implementation n.id) ≡ none)
        required
    → All (λ (n : PlanNode). member n.id found ≡ true) required
All-require [] found h = tt
All-require (n ∷ ns) found (h, hs) = (require-eq_none _ _ h, All-require ns found hs)

module _ (string_of : Json → String) where
  -- The one node that no other depends on: it is read-only, depends on every implementation node, and
  -- runs each required command and a check of the campaign's Git range, all with required acceptance.
  pub record IsTerminal (nodes : List PlanNode) (required : List String) (sink : PlanNode)
      : Type 0 where
    pub single : filter (is_sink nodes) nodes ≡ sink ∷ []
    pub read_only : is_read_only string_of sink ≡ true
    pub covers :
        All (λ n. Reaches (deps_of (graph_of nodes)) sink.id n.id) (filter is_implementation nodes)
    pub commands :
        All
          (λ c.
            (member c (commands_of string_of sink) ≡ true) × (is_required string_of sink c ≡ true))
          required
    pub integrity :
        (command : String) × (find is_git_range (commands_of string_of sink) ≡ some command)
        × (is_required string_of sink command ≡ true)

  ancestors_cover :
      (nodes implementations : List PlanNode) (sink : PlanNode)
      → ancestors_check string_of (transitive_dependencies (graph_of nodes) sink.id) implementations
        ≡ none
      → All (λ (n : PlanNode). Reaches (deps_of (graph_of nodes)) sink.id n.id) implementations
  unfolding ancestors_check
  ancestors_cover nodes implementations sink h =
      let (found, e, reached) = transitive_dependencies_iff (graph_of nodes) sink.id in
      reach implementations found reached (
        All-require implementations found
          (check_each-eq_none _ implementations (rw (e, ancestors_check) at h)))
    where
      reach :
          (ns : List PlanNode) (found : List String)
          → ((x : String) → (member x found ≡ true) ↔ Reaches (deps_of (graph_of nodes)) sink.id x)
          → All (λ (n : PlanNode). member n.id found ≡ true) ns
          → All (λ (n : PlanNode). Reaches (deps_of (graph_of nodes)) sink.id n.id) ns
      reach [] found iff h = tt
      reach (n ∷ ns) found iff (h, hs) = ((iff n.id).0 h, reach ns found iff hs)

  commands_checked :
      (sink : PlanNode) (required : List String)
      → All (λ c. check_command string_of sink c ≡ none) required
      → All
          (λ c.
            (member c (commands_of string_of sink) ≡ true) × (is_required string_of sink c ≡ true))
          required
  unfolding check_command
  commands_checked sink [] h = tt
  commands_checked sink (c ∷ cs) (h, hs) =
      let (listed, required) = then_check-eq_none _ _ h in
      ((require-eq_none _ _ listed, require-eq_none _ _ required), commands_checked sink cs hs)

  integrity_checked :
      (sink : PlanNode) (o : Option String)
      → integrity_check string_of sink o ≡ none
      → (command : String) × (o ≡ some command) × (is_required string_of sink command ≡ true)
  unfolding integrity_check
  integrity_checked sink none h = cc
  integrity_checked sink (some c) h = (c, refl, require-eq_none _ _ h)

  single_IsTerminal :
      (required : List String) (nodes sinks : List PlanNode)
      → filter (is_sink nodes) nodes ≡ sinks
      → check_single string_of required nodes sinks ≡ none
      → (sink : PlanNode) × IsTerminal nodes required sink
  unfolding check_single check_sink
  single_IsTerminal required nodes [] e h = cc
  single_IsTerminal required nodes (a ∷ b ∷ rest) e h = cc
  single_IsTerminal required nodes (sink ∷ []) e h =
      let (own, h1) = then_check-eq_none _ _ h in
      let (listed, integrity) = then_check-eq_none _ _ h1 in
      let (read_only, h2) = then_check-eq_none _ _ own in
      let (explicit, h3) = then_check-eq_none _ _ h2 in
      let (requirements, ancestors) = then_check-eq_none _ _ h3 in
      (
        sink,
        record {
          single = e;
          read_only = require-eq_none _ _ read_only;
          covers = ancestors_cover nodes (filter is_implementation nodes) sink ancestors;
          commands = commands_checked sink required (check_each-eq_none _ required listed);
          integrity = integrity_checked sink _ integrity;
        },
      )

  -- An implementation campaign's plan that is accepted passes the general checks, has an implementation
  -- node, and ends in one terminal node.
  pub validate_campaign_plan-IsTerminal :
      (rules : Rules) (plan : Plan)
      → rules.options.implementation ≡ true
      → validate_campaign_plan string_of rules plan ≡ none
      → IsSound rules plan
        × (is_nil (filter is_implementation plan.nodes) ≡ false)
        × ((sink : PlanNode) × IsTerminal plan.nodes rules.options.required_validation_commands
              sink)
  unfolding validate_campaign_plan validate_implementation_sinks
  validate_campaign_plan-IsTerminal rules plan i h =
      let (general, h1) = then_check-eq_none (check_plan rules plan) _ h in
      let (some_node, single) = then_check-eq_none _ _ (rw i at h1) in
      (
        check_plan-IsSound rules plan general,
        require-not _ _ some_node,
        single_IsTerminal _ plan.nodes _ refl single,
      )
