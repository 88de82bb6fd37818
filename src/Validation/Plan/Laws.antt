-- ===== src/Validation/Plan/Laws.antt =====
-- What a plan lets run: the commands whose needs the lane meets, and Git only in its own lane.
use run_forge.Common.{
  ℕ, suc, ◌+◌, ◌≡◌, ◌↔◌, refl, ap, subst, Bool, true, false, not, ◌&&◌, Option, none, some, List,
  [], ◌∷◌, ◌++◌, String, inl, inr, arith, filter, every, leb, map, or_else, is_some, length,
  length-append, All, All-append, All-filter, All-map, Bool-cases,
}
use run_forge.Validation.{
  ValidationCapability, Disposition, ValidationCommandRequirement, ValidationProfile,
  ValidationProjectPolicy, ValidationRuntimeCapabilities, ValidationLane, ValidationPlanEntry,
  has_capability,
}
use run_forge.Validation.Plan.{
  is_empty, policy_skips, missing_of, is_known, is_skipped, plan_entry, disposition_of,
  build_validation_preflight_plan, is_git, ParsedGit, git_disposition, git_entry, insert_entry,
  sort_entries, no_git_lane, build_multi_lane_validation_preflight_plan,
}

-- The needs of a command are met: the policy lets it run, it is known, and every capability that it
-- requires is available.
abbrev pub MayRun :
    ValidationProjectPolicy → List ValidationCapability → ValidationCommandRequirement → Type 0
MayRun policy available requirement =
    (policy_skips policy requirement ≡ false)
    × (is_known requirement ≡ true)
    × (every (has_capability available) requirement.required_capabilities ≡ true)

none_missing :
    (p : ValidationCapability → Bool) (cs : List ValidationCapability)
    → is_empty (filter (λ c. not (p c)) cs) ≡ every p cs
none_missing p [] = refl
none_missing p (c ∷ cs) = elim (Bool-cases (p c)) [
  | inl e ↦ rw e (none_missing p cs)
  | inr e ↦ rw e refl
]

execute_iff :
    (skipped known met : Bool)
    → (disposition_of skipped (known && (met && not skipped)) ≡ Disposition.execute)
      ↔ (skipped ≡ false) × (known ≡ true) × (met ≡ true)
unfolding disposition_of
execute_iff skipped known met = ground arith

plan_entry-execute_iff :
    (policy : ValidationProjectPolicy) (runtime : ValidationRuntimeCapabilities) (cwd : String)
    (requirement : ValidationCommandRequirement)
    → ((plan_entry policy runtime cwd requirement).disposition ≡ Disposition.execute)
      ↔ MayRun policy runtime.available requirement
unfolding plan_entry missing_of
plan_entry-execute_iff policy runtime cwd requirement =
    rw (none_missing (has_capability runtime.available) requirement.required_capabilities) (
      execute_iff (policy_skips policy requirement) (is_known requirement)
        (every (has_capability runtime.available) requirement.required_capabilities))

-- A plan has one entry for each requirement, in order, and an entry is to be executed if and only if
-- the policy does not skip its command, the command is known, and every capability that it requires
-- is available.
pub build_validation_preflight_plan-execute_iff :
    (requirements : List ValidationCommandRequirement) (profile : ValidationProfile)
    (policy : ValidationProjectPolicy) (runtime : ValidationRuntimeCapabilities) (cwd : String)
    (now : ℕ)
    → let commands =
        (build_validation_preflight_plan requirements profile policy runtime cwd now).commands in
      (map (λ e. ValidationPlanEntry.requirement e) commands ≡ requirements)
      × All
          (λ e.
            (ValidationPlanEntry.disposition e ≡ Disposition.execute)
            ↔ MayRun policy runtime.available (ValidationPlanEntry.requirement e))
          commands
unfolding build_validation_preflight_plan plan_entry
build_validation_preflight_plan-execute_iff [] profile policy runtime cwd now = (refl, tt)
build_validation_preflight_plan-execute_iff (r ∷ rs) profile policy runtime cwd now =
    let (p, q) = build_validation_preflight_plan-execute_iff rs profile policy runtime cwd now in
    (ap (λ xs. r ∷ xs) p, (plan_entry-execute_iff policy runtime cwd r, q))

-- Where the entry of a plan with two lanes may run: a Git command only in the Git lane, with a form
-- that the parser supports and by the parser's own arguments; any other command in the product lane.
pub record IsRouted (policy : ValidationProjectPolicy) (product_lane : ValidationLane)
    (git_lane : Option ValidationLane) (parse_git : String → ParsedGit) (e : ValidationPlanEntry)
    : Type 0 where
  pub git :
      is_git e.requirement.command ≡ true
      → e.disposition ≡ Disposition.execute
      → ((lane : ValidationLane) × ((git_lane ≡ some lane)
            × MayRun policy lane.capabilities.available e.requirement))
        × ((parse_git e.requirement.command).supported ≡ true)
        × (e.argv ≡ (parse_git e.requirement.command).argv)
  pub product :
      is_git e.requirement.command ≡ false
      → e.disposition ≡ Disposition.execute
      → MayRun policy product_lane.capabilities.available e.requirement

module _ (P : ValidationPlanEntry → Type 0) (key : ValidationPlanEntry → ℕ) where
  insert_entry-All :
      (e : ValidationPlanEntry) (es : List ValidationPlanEntry)
      → P e
      → All P es
      → All P (insert_entry key e es)
  unfolding insert_entry
  insert_entry-All e [] p h = (p, tt)
  insert_entry-All e (x ∷ xs) p (q, h) = elim (Bool-cases (leb (key e) (key x))) [
    | inl t ↦ rw t (p, (q, h))
    | inr f ↦ rw f (q, insert_entry-All e xs p h)
  ]

  sort_entries-All : (es : List ValidationPlanEntry) → All P es → All P (sort_entries key es)
  unfolding sort_entries
  sort_entries-All [] h = tt
  sort_entries-All (e ∷ es) (p, h) =
      insert_entry-All e (sort_entries key es) p (sort_entries-All es h)

length-insert_entry :
    (key : ValidationPlanEntry → ℕ) (e : ValidationPlanEntry) (es : List ValidationPlanEntry)
    → length (insert_entry key e es) ≡ suc (length es)
unfolding insert_entry
length-insert_entry key e [] = refl
length-insert_entry key e (x ∷ xs) = elim (Bool-cases (leb (key e) (key x))) [
  | inl t ↦ rw t refl
  | inr f ↦ rw (f, length-insert_entry key e xs) refl
]

length-sort_entries :
    (key : ValidationPlanEntry → ℕ) (es : List ValidationPlanEntry)
    → length (sort_entries key es) ≡ length es
unfolding sort_entries
length-sort_entries key [] = refl
length-sort_entries key (e ∷ es) =
    rw (length-insert_entry key e (sort_entries key es), length-sort_entries key es) refl

git_executes :
    (base : Disposition) (supported parsed lane : Bool)
    → git_disposition base (supported && (parsed && lane)) ≡ Disposition.execute
    → (is_skipped base ≡ false) × (supported ≡ true) × (parsed ≡ true) × (lane ≡ true)
unfolding git_disposition
git_executes base supported parsed lane h = ground arith

supported_executes :
    (skipped supported : Bool)
    → is_skipped (disposition_of skipped supported) ≡ false
    → supported ≡ true
    → disposition_of skipped supported ≡ Disposition.execute
unfolding disposition_of
supported_executes skipped supported h k = ground arith

lane_of :
    (g : Option ValidationLane) (lane : ValidationLane)
    → ((l : ValidationLane) → g ≡ some l → lane ≡ l)
    → is_some g ≡ true
    → (X : ValidationLane → Type 0) → X lane
    → (l : ValidationLane) × ((g ≡ some l) × X l)
lane_of none lane same h X x = absurd (cc)
lane_of (some l) lane same h X x = (l, (refl, subst X (same l refl) x))

module _ (policy : ValidationProjectPolicy) (product_lane : ValidationLane)
    (git_lane : Option ValidationLane) (parse_git : String → ParsedGit) where
  product-IsRouted :
      (r : ValidationCommandRequirement)
      → not (is_git r.command) ≡ true
      → IsRouted policy product_lane git_lane parse_git
          (plan_entry policy product_lane.capabilities product_lane.cwd r)
  unfolding plan_entry
  product-IsRouted r h = record {
    git = λ g _. absurd (ground arith);
    product = λ _ e.
        let (to, from) =
          plan_entry-execute_iff policy product_lane.capabilities product_lane.cwd r in
        to e;
  }

  git-IsRouted :
      (reason : Option String) (lane : ValidationLane)
      → ((l : ValidationLane) → git_lane ≡ some l → lane ≡ l)
      → (r : ValidationCommandRequirement) → is_git r.command ≡ true
      → IsRouted policy product_lane git_lane parse_git (
          git_entry parse_git git_lane reason lane (plan_entry policy lane.capabilities lane.cwd r))
  unfolding plan_entry git_entry
  git-IsRouted reason lane same r h = record {
    git = λ _ e.
        let base = plan_entry policy lane.capabilities lane.cwd r in
        let (s, t, p, l) =
          git_executes base.disposition base.supported (parse_git r.command).supported
            (is_some git_lane) e in
        let (to, from) = plan_entry-execute_iff policy lane.capabilities lane.cwd r in
        let runs = to (supported_executes (policy_skips policy r) base.supported s t) in
        (
          lane_of git_lane lane same l (λ x. MayRun policy x.capabilities.available r) runs,
          p,
          refl,
        );
    product = λ g _. absurd (cc);
  }

module _ (policy : ValidationProjectPolicy) (product_lane : ValidationLane)
    (git_lane : Option ValidationLane) (parse_git : String → ParsedGit) where
  map-IsRouted :
      (reason : Option String) (lane : ValidationLane)
      → ((l : ValidationLane) → git_lane ≡ some l → lane ≡ l)
      → (rs : List ValidationCommandRequirement)
      → All (λ r. is_git (ValidationCommandRequirement.command r) ≡ true) rs
      → All (IsRouted policy product_lane git_lane parse_git) (
          map
            (git_entry parse_git git_lane reason lane)
            (map (plan_entry policy lane.capabilities lane.cwd) rs))
  map-IsRouted reason lane same [] h = tt
  map-IsRouted reason lane same (r ∷ rs) (p, h) = (
    git-IsRouted policy product_lane git_lane parse_git reason lane same r p,
    map-IsRouted reason lane same rs h,
  )

length-partition :
    (p : ValidationCommandRequirement → Bool) (rs : List ValidationCommandRequirement)
    → length (filter (λ r. not (p r)) rs) + length (filter p rs) ≡ length rs
length-partition p [] = refl
length-partition p (r ∷ rs) = elim (Bool-cases (p r)) [
  | inl e ↦ rw e (omega (arith, length-partition p rs))
  | inr e ↦ rw e (omega (arith, length-partition p rs))
]

length-map : {A B : Type 0} (f : A → B) (xs : List A) → length (map f xs) ≡ length xs
length-map f [] = refl
length-map f (x ∷ xs) = ap suc (length-map f xs)

-- The chosen lane is the Git lane where there is one.
chosen : (g : Option ValidationLane) (d l : ValidationLane) → g ≡ some l → or_else g d ≡ l
chosen g d l h = rw h refl

-- A plan with two lanes has as many entries as there are requirements, and each is routed: a Git
-- command is to be executed only if there is a Git lane, the parser supports its form, the entry
-- carries the parser's arguments, and the policy and the Git lane's capabilities allow it; any other
-- command is to be executed only if the policy and the product lane's capabilities allow it.
pub build_multi_lane_validation_preflight_plan-IsRouted :
    (requirements : List ValidationCommandRequirement) (profile : ValidationProfile)
    (policy : ValidationProjectPolicy) (product_lane : ValidationLane)
    (git_lane : Option ValidationLane) (reason : Option String) (parse_git : String → ParsedGit)
    (now : ℕ)
    → let commands =
        (build_multi_lane_validation_preflight_plan requirements profile policy product_lane
          git_lane reason parse_git now).commands in
      (length commands ≡ length requirements)
      × All (IsRouted policy product_lane git_lane parse_git) commands
unfolding build_multi_lane_validation_preflight_plan build_validation_preflight_plan
build_multi_lane_validation_preflight_plan-IsRouted requirements profile policy product_lane
      git_lane reason parse_git now =
    let lane = or_else git_lane (no_git_lane product_lane) in
    let plain = filter (λ r. not (is_git r.command)) requirements in
    let gits = filter (λ r. is_git r.command) requirements in
    let product = map (plan_entry policy product_lane.capabilities product_lane.cwd) plain in
    let base = map (plan_entry policy lane.capabilities lane.cwd) gits in
    let routed = map (git_entry parse_git git_lane reason lane) base in
    (
      rw
          (
            length-sort_entries _ (product ++ routed),
            length-append product routed,
            length-map (plan_entry policy product_lane.capabilities product_lane.cwd) plain,
            length-map (git_entry parse_git git_lane reason lane) base,
            length-map (plan_entry policy lane.capabilities lane.cwd) gits,
          )
          (length-partition (λ r. is_git r.command) requirements),
      sort_entries-All _ _ (product ++ routed) (
          All-append _ product routed
            (All-map _ _ _ (product-IsRouted policy product_lane git_lane parse_git) plain
              (All-filter (λ r. not (is_git r.command)) requirements))
            (map-IsRouted policy product_lane git_lane parse_git reason lane
              (chosen git_lane (no_git_lane product_lane)) gits
              (All-filter (λ r. is_git r.command) requirements))),
    )
