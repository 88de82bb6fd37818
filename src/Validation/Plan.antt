-- ===== src/Validation/Plan.antt =====
-- The plan of a validation, src/validation/capability-contract.ts: which command runs in which lane.
pub mod Laws
use run_forge.Common.{
  ℕ, suc, Bool, true, false, not, ◌&&◌, ◌||◌, Option, none, some, List, [], ◌∷◌, ◌++◌, String,
  if◌then◌else◌, filter, any, leb, map, or_else, is_some, str_eq,
}
use run_forge.Common.Text.{codes, is_space, trim, ◌+++◌}
use run_forge.Common.Regex.{start, end, alt, test, lit, all_of, space}
use run_forge.Validation.{
  ValidationCapability, RequirementSource, Disposition, ValidationCommandRequirement,
  ValidationProfile, ValidationProjectPolicy, ValidationRuntimeCapabilities, ValidationLane,
  ValidationPlanEntry, ValidationPreflightPlan, has_capability, has_command, unique,
  join_capabilities,
}

abbrev pub is_empty {ℓ} : {A : Type ℓ} → List A → Bool
is_empty [] = true
is_empty (x ∷ xs) = false

abbrev is_auto_default : RequirementSource → Bool
is_auto_default RequirementSource.auto_default = true
is_auto_default _ = false

abbrev pub is_skipped : Disposition → Bool
is_skipped Disposition.skipped_by_policy = true
is_skipped _ = false

-- Whether the project's policy skips the command or denies one of its capabilities.
unfoldable pub policy_skips : ValidationProjectPolicy → ValidationCommandRequirement → Bool
policy_skips policy requirement =
    has_command policy.skipped_commands requirement.command
    || any (has_capability policy.denied_capabilities) requirement.required_capabilities

unfoldable pub missing_of :
    List ValidationCapability → ValidationCommandRequirement → List ValidationCapability
missing_of available requirement =
    filter (λ c. not (has_capability available c)) requirement.required_capabilities

-- A command is known if a detector or the caller described it.
unfoldable pub is_known : ValidationCommandRequirement → Bool
is_known requirement =
    not (is_auto_default requirement.source) || not (is_empty requirement.required_capabilities)

unfoldable pub disposition_of : Bool → Bool → Disposition
disposition_of skipped supported =
    if skipped
    then Disposition.skipped_by_policy
    else if supported
    then Disposition.execute
    else Disposition.capability_unsupported

unfoldable pub plan_entry :
    ValidationProjectPolicy
    → ValidationRuntimeCapabilities
    → String
    → ValidationCommandRequirement
    → ValidationPlanEntry
unfolding disposition_of
plan_entry policy runtime cwd requirement =
    let missing = missing_of runtime.available requirement in
    let skipped = policy_skips policy requirement in
    let known = is_known requirement in
    let supported = known && (is_empty missing && not skipped) in
    record {
      requirement = requirement;
      runtime = runtime.runtime;
      lane = runtime.lane;
      cwd = cwd;
      available_capabilities = unique runtime.available;
      missing_capabilities = missing;
      supported = supported;
      reason =
          if skipped
          then "Project policy skips the command or denies a required capability."
          else if not known
          then "No known-command detector or explicit capability requirement describes this command."
          else if not (is_empty missing)
          then "Missing capabilities: " +++ (join_capabilities missing +++ ".")
          else "All required capabilities are available.";
      disposition = disposition_of skipped supported;
      argv = none;
      repository_identity = none;
      bound_sha = none;
      safety_assertions = none;
    }

unfoldable pub build_validation_preflight_plan :
    List ValidationCommandRequirement
    → ValidationProfile
    → ValidationProjectPolicy
    → ValidationRuntimeCapabilities
    → (cwd : String) (now : ℕ) → ValidationPreflightPlan
build_validation_preflight_plan requirements profile policy runtime cwd now = record {
  created_at = now;
  profile = profile;
  runtime = record runtime { available = unique runtime.available };
  lanes = none;
  commands = map (plan_entry policy runtime cwd) requirements;
}

-- `/^git(?:\s|$)/.test(command.trim())`
unfoldable pub is_git : String → Bool
unfolding is_space
is_git command = test (all_of (start ∷ lit "git" ∷ alt space end ∷ [])) (trim (codes command))

-- What `parseGit` answers; the caller passes it.
pub record ParsedGit : Type 0 where
  pub supported : Bool
  pub argv : Option (List String)
  pub reason : String

-- The lane of Git commands when there is none.
abbrev pub no_git_lane : ValidationLane → ValidationLane
no_git_lane product_lane = record {
  capabilities = record { runtime = "git-evidence"; lane = "git-evidence"; available = [] };
  cwd = product_lane.cwd;
  repository_identity = none;
  bound_sha = none;
  safety_assertions = some ("git_metadata_unavailable_in_product_lane" ∷ []);
}

unfoldable pub git_disposition : Disposition → Bool → Disposition
git_disposition base supported =
    if is_skipped base
    then Disposition.skipped_by_policy
    else if supported
    then Disposition.execute
    else Disposition.capability_unsupported

-- The entry of a Git command: it runs only where the parser and the lane both allow it.
unfoldable pub git_entry :
    (parse_git : String → ParsedGit) (git_lane : Option ValidationLane)
    (unavailable_reason : Option String) (lane : ValidationLane)
    → ValidationPlanEntry
    → ValidationPlanEntry
unfolding git_disposition
git_entry parse_git git_lane unavailable_reason lane entry =
    let parsed = parse_git entry.requirement.command in
    let supported = entry.supported && (parsed.supported && is_some git_lane) in
    record entry {
      supported = supported;
      disposition = git_disposition entry.disposition supported;
      reason =
          if is_skipped entry.disposition
          then entry.reason
          else if supported
          then "Safe read-only Git form is supported in the SHA-bound Git evidence lane."
          else if not (is_some git_lane)
          then or_else unavailable_reason
              "A separate Git evidence lane with repository metadata is unavailable."
          else parsed.reason;
      argv = parsed.argv;
      repository_identity = lane.repository_identity;
      bound_sha = lane.bound_sha;
      safety_assertions = lane.safety_assertions;
    }

-- `order.get(command) ?? 0`: the last position of the command among the requirements.
pub order_from : ℕ → ℕ → List ValidationCommandRequirement → String → ℕ
order_from i found [] command = found
order_from i found (r ∷ rs) command =
    order_from (suc i) (if str_eq r.command command then i else found) rs command

-- A stable sort by that position.
unfoldable pub insert_entry :
    (ValidationPlanEntry → ℕ)
    → ValidationPlanEntry
    → List ValidationPlanEntry
    → List ValidationPlanEntry
insert_entry key e [] = e ∷ []
insert_entry key e (x ∷ xs) =
    let rest = insert_entry key e xs in if leb (key e) (key x) then e ∷ x ∷ xs else x ∷ rest

unfoldable pub sort_entries :
    (ValidationPlanEntry → ℕ) → List ValidationPlanEntry → List ValidationPlanEntry
unfolding insert_entry
sort_entries key [] = []
sort_entries key (e ∷ es) = insert_entry key e (sort_entries key es)

unfoldable pub build_multi_lane_validation_preflight_plan :
    List ValidationCommandRequirement
    → ValidationProfile
    → ValidationProjectPolicy
    → (product_lane : ValidationLane) (git_lane : Option ValidationLane)
      (unavailable_reason : Option String) (parse_git : String → ParsedGit) (now : ℕ)
    → ValidationPreflightPlan
unfolding build_validation_preflight_plan
build_multi_lane_validation_preflight_plan requirements profile policy product_lane git_lane
      unavailable_reason parse_git now =
    let product =
      build_validation_preflight_plan (filter (λ r. not (is_git r.command)) requirements) profile
        policy product_lane.capabilities product_lane.cwd now in
    let lane = or_else git_lane (no_git_lane product_lane) in
    let git_base =
      build_validation_preflight_plan (filter (λ r. is_git r.command) requirements) profile policy
        lane.capabilities lane.cwd now in
    record {
      created_at = now;
      profile = profile;
      runtime = product_lane.capabilities;
      lanes = some (product_lane ∷ elim git_lane [ none ↦ [] | some l ↦ l ∷ [] ]);
      commands =
          sort_entries (λ e. order_from 0 0 requirements e.requirement.command)
            (product.commands
              ++ map (git_entry parse_git git_lane unavailable_reason lane) git_base.commands);
    }
