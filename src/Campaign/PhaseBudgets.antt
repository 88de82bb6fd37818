-- ===== src/Campaign/PhaseBudgets.antt =====
-- How a child's token budget is split over its phases, `projectPhaseBudgets` of
-- src/control-plane/campaign-child-projection.ts.
pub mod Laws
use run_forge.Common.{ℕ, ◌+◌, ◌-◌, Bool, Option, if◌then◌else◌, ltb, or_else}

-- The budgets that the routing asks for; one that is missing or not a number is none, and
-- `integer` has made the others whole and not negative.
pub record PerPhase : Type 0 where
  pub planner : Option ℕ
  pub implementer : Option ℕ
  pub repair : Option ℕ
  pub reviewer : Option ℕ
  pub log_compression : Option ℕ

pub record PhaseBudgets : Type 0 where
  pub planner : ℕ
  pub implementer : ℕ
  pub repair : ℕ
  pub reviewer : ℕ
  pub log_compression : ℕ

-- `Math.min` and `Math.max`
abbrev pub least : ℕ → ℕ → ℕ
least a b = if ltb a b then a else b

abbrev pub greatest : ℕ → ℕ → ℕ
greatest a b = if ltb a b then b else a

-- `route ? Math.max(1, integer(value, 1)) : 0`
abbrev pub desired : Bool → Option ℕ → ℕ
desired route value = if route then greatest 1 (or_else value 1) else 0

abbrev pub one_for : Bool → ℕ
one_for route = if route then 1 else 0

-- With an implementation, its phase takes what the others leave.
unfoldable pub implementation_budgets :
    ℕ → (log reviewer repair : ℕ) → (for_reviewer for_repair : ℕ) → PhaseBudgets
implementation_budgets total want_log want_reviewer want_repair for_reviewer for_repair =
    let log = least want_log (total - 1 - (for_reviewer + for_repair)) in
    let reviewer = least want_reviewer (total - log - 1 - for_repair) in
    let repair = least want_repair (total - log - reviewer - 1) in
    record {
      planner = 0;
      implementer = total - log - reviewer - repair;
      repair = repair;
      reviewer = reviewer;
      log_compression = log;
    }

unfoldable pub other_budgets :
    ℕ → (log reviewer repair planner implementer : ℕ) → (for_reviewer for_repair : ℕ) → PhaseBudgets
other_budgets total want_log want_reviewer want_repair want_planner want_implementer for_reviewer
      for_repair =
    let log = least want_log (total - for_reviewer - for_repair) in
    let reviewer = least want_reviewer (total - log - for_repair) in
    let repair = least want_repair (total - log - reviewer) in
    let available = total - repair - reviewer - log in
    let planner = least available want_planner in
    record {
      planner = planner;
      implementer = least (available - planner) want_implementer;
      repair = repair;
      reviewer = reviewer;
      log_compression = log;
    }

unfoldable pub project_phase_budgets :
    PerPhase
    → ℕ
    → (implementation compression_route reviewer_route repair_route : Bool) → PhaseBudgets
unfolding implementation_budgets other_budgets
project_phase_budgets per_phase total implementation compression_route reviewer_route repair_route =
    let want_log = desired compression_route per_phase.log_compression in
    let want_reviewer = desired reviewer_route per_phase.reviewer in
    let want_repair = desired repair_route per_phase.repair in
    if implementation
    then implementation_budgets total want_log want_reviewer want_repair (one_for reviewer_route)
        (one_for repair_route)
    else other_budgets total want_log want_reviewer want_repair (or_else per_phase.planner 0)
        (or_else per_phase.implementer 0) (one_for reviewer_route) (one_for repair_route)
