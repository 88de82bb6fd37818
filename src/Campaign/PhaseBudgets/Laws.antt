-- ===== src/Campaign/PhaseBudgets/Laws.antt =====
-- The phases share the budget and no more.
use run_forge.Common.{ℕ, ◌+◌, ◌-◌, ◌≤◌, ◌≡◌, Bool, true, false, Option, arith}
use run_forge.Campaign.PhaseBudgets.{
  PerPhase, PhaseBudgets, least, desired, one_for, implementation_budgets, other_budgets,
  project_phase_budgets,
}

abbrev pub total_of : PhaseBudgets → ℕ
total_of b = b.planner + b.implementer + b.repair + b.reviewer + b.log_compression

least-le : (a b : ℕ) → (least a b ≤ a) × (least a b ≤ b)
least-le a b = ground arith

desired-positive : (route : Bool) (value : Option ℕ) → one_for route ≤ desired route value
desired-positive route value = ground arith

least-one : (a b c : ℕ) → c ≤ a → c ≤ b → c ≤ least a b
least-one a b c h k = ground arith

implementation-total :
    (total a b c x y : ℕ) → total_of (implementation_budgets total a b c x y) ≡ total
unfolding implementation_budgets
implementation-total total a b c x y =
    let log = least a (total - 1 - (x + y)) in
    let reviewer = least b (total - log - 1 - y) in
    let (p1, p2) = least-le a (total - 1 - (x + y)) in
    let (q1, q2) = least-le b (total - log - 1 - y) in
    let (r1, r2) = least-le c (total - log - reviewer - 1) in omega (arith, p2, q2, r2)

other-total : (total a b c d e x y : ℕ) → total_of (other_budgets total a b c d e x y) ≤ total
unfolding other_budgets
other-total total a b c d e x y =
    let log = least a (total - x - y) in
    let reviewer = least b (total - log - y) in
    let repair = least c (total - log - reviewer) in
    let available = total - repair - reviewer - log in
    let (p1, p2) = least-le a (total - x - y) in
    let (q1, q2) = least-le b (total - log - y) in
    let (r1, r2) = least-le c (total - log - reviewer) in
    let (s1, s2) = least-le available d in
    let (t1, t2) = least-le (available - least available d) e in omega (arith, p2, q2, r2, s1, t1)

implementation-positive :
    (total a b c x y : ℕ)
    → 1 + x + y ≤ total
    → x ≤ b
    → y ≤ c
    → let r = implementation_budgets total a b c x y in
      (1 ≤ r.implementer) × (x ≤ r.reviewer) × (y ≤ r.repair)
unfolding implementation_budgets
implementation-positive total a b c x y h hb hc =
    let log = least a (total - 1 - (x + y)) in
    let reviewer = least b (total - log - 1 - y) in
    let (p1, p2) = least-le a (total - 1 - (x + y)) in
    let (q1, q2) = least-le b (total - log - 1 - y) in
    let (r1, r2) = least-le c (total - log - reviewer - 1) in
    (
      omega (arith, p2, q2, r2, h),
      least-one b (total - log - 1 - y) x hb (omega (arith, p2, h)),
      least-one c (total - log - reviewer - 1) y hc (omega (arith, p2, q2, h)),
    )

-- The phases never get more than the budget together, and with an implementation they get all of it.
pub project_phase_budgets-total :
    (per_phase : PerPhase) (total : ℕ) (compression_route reviewer_route repair_route : Bool)
    → (total_of (
          project_phase_budgets per_phase total false compression_route reviewer_route repair_route)
        ≤ total)
      × (total_of (
            project_phase_budgets per_phase total true compression_route reviewer_route
              repair_route)
          ≡ total)
unfolding project_phase_budgets
project_phase_budgets-total per_phase total compression_route reviewer_route repair_route =
    (other-total total _ _ _ _ _ _ _, implementation-total total _ _ _ _ _)

-- With an implementation and a budget of at least one token for the implementer and for each of the
-- reviewer and the repair that has a route, each of these gets at least one.
pub project_phase_budgets-positive :
    (per_phase : PerPhase) (total : ℕ) (compression_route reviewer_route repair_route : Bool)
    → 1 + one_for reviewer_route + one_for repair_route ≤ total
    → let budgets =
        project_phase_budgets per_phase total true compression_route reviewer_route repair_route in
      (1 ≤ budgets.implementer)
      × (one_for reviewer_route ≤ budgets.reviewer)
      × (one_for repair_route ≤ budgets.repair)
unfolding project_phase_budgets
project_phase_budgets-positive per_phase total compression_route reviewer_route repair_route h =
    implementation-positive total _ _ _ _ _ h (desired-positive reviewer_route per_phase.reviewer)
      (desired-positive repair_route per_phase.repair)
