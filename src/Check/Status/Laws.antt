-- ===== src/Check/Status/Laws.antt =====
-- What the final status and the exit code say of the commands, and the reports of blocked commands.
use run_forge.Common.{
  ◌≡◌, ◌↔◌, refl, Bool, true, false, ◌||◌, List, [], ◌∷◌, arith, any, every, length,
}
use run_forge.Check.{ExternalCheckStatus, CommandResult, MutationVerdict}
use run_forge.Check.Status.{
  is_passed, is_failed, is_timed_out, is_error, is_blocked, SetupPhaseStatus, setup_phase_status,
  is_changed, is_blocked_check, final_status,
}

abbrev pub all_passed : List CommandResult → Bool
all_passed results = every (λ r. is_passed r.status) results

-- Every main command passed, or was refused before it ran.
abbrev pub none_failed : List CommandResult → Bool
none_failed results = every (λ r. is_passed r.status || is_blocked r.status) results

setup_phase_status-passed :
    (rs : List CommandResult)
    → setup_phase_status rs ≡ SetupPhaseStatus.setup_passed
    → all_passed rs ≡ true
unfolding setup_phase_status
setup_phase_status-passed [] h = refl
setup_phase_status-passed (r ∷ rs) h = ground (arith, setup_phase_status-passed rs)

passed-setup_phase_status :
    (rs : List CommandResult)
    → all_passed rs ≡ true
    → setup_phase_status rs ≡ SetupPhaseStatus.setup_passed
unfolding setup_phase_status
passed-setup_phase_status [] h = refl
passed-setup_phase_status (r ∷ rs) h = ground (arith, passed-setup_phase_status rs)

abbrev any_fault : List CommandResult → Bool
any_fault rs =
    any (λ r. is_timed_out r.status) rs
    || (any (λ r. is_error r.status) rs || any (λ r. is_failed r.status) rs)

any_fault-none_failed : (rs : List CommandResult) → any_fault rs ≡ false → none_failed rs ≡ true
any_fault-none_failed [] h = refl
any_fault-none_failed (r ∷ rs) h = ground (arith, any_fault-none_failed rs)

none_failed-any_fault : (rs : List CommandResult) → none_failed rs ≡ true → any_fault rs ≡ false
none_failed-any_fault [] h = refl
none_failed-any_fault (r ∷ rs) h = ground (arith, none_failed-any_fault rs)

no_setup : (rs : List CommandResult) → (length rs ≡ 0) → rs ≡ []
no_setup [] h = refl
no_setup (r ∷ rs) h = absurd (omega arith)

-- The final status is `passed` exactly when the original repository is not seen to have changed, the
-- run was not refused, every setup command passed, and no main command timed out, erred or failed.
pub final_status-passed_iff :
    (current : ExternalCheckStatus) (setups mains : List CommandResult) (verdict : MutationVerdict)
    (continue_after : Bool)
    → (final_status current setups mains verdict continue_after ≡ ExternalCheckStatus.passed) ↔ (
        (is_changed verdict ≡ false)
        × (is_blocked_check current ≡ false)
        × (all_passed setups ≡ true)
        × (none_failed mains ≡ true))
unfolding final_status
final_status-passed_iff current setups mains verdict continue_after = (to, from)
  where
    to :
        final_status current setups mains verdict continue_after ≡ ExternalCheckStatus.passed
        → (is_changed verdict ≡ false)
          × (is_blocked_check current ≡ false)
          × (all_passed setups ≡ true)
          × (none_failed mains ≡ true)
    to h =
        ground
          (arith, setup_phase_status-passed setups, any_fault-none_failed mains, no_setup setups)

    from :
        (is_changed verdict ≡ false)
          × (is_blocked_check current ≡ false)
          × (all_passed setups ≡ true)
          × (none_failed mains ≡ true)
        → final_status current setups mains verdict continue_after ≡ ExternalCheckStatus.passed
    from h =
        ground
          (arith, passed-setup_phase_status setups, none_failed-any_fault mains, no_setup setups)
