-- ===== src/Lib.antt =====
-- A model of the decisions of RunForge, with proofs. RunForge runs commands and coding tasks on
-- repositories, keeps evidence of what happened, and lets a task go on only where policy, budget and
-- evidence allow it. The parts below call one another as the source does.
--
-- CommandSafety models src/run/command-safety.ts and blockedExternalCommandReason of
-- src/run/external-command-check-helpers.ts: the commands that are refused before anything runs. A
-- pattern is a value of Common/Regex.antt, which answers what RegExp.test answers; Common/Regex/Laws
-- gives its relational meaning. A repetition is always of one class of characters.
--
-- Check models the external command check. Check.antt has the types of
-- src/run/external-command-check-types.ts; Check/Status the status and exit code of
-- external-command-check-helpers.ts; Check/Exec the limited log writer and the result of one command of
-- external-command-check-exec.ts; Check/Git the mutation verdict and the snapshot diff of
-- external-command-check-git.ts; Check/Report the safety report of external-command-check-packet.ts;
-- Check/Options, Check/Log and Check/Run external-command-check.ts: the tests on the options, what a run
-- collects, and the whole run, runExternalCommandCheck. The machine (paths,
-- git, the workspace and the process of each command) is the record Env. A process is what the run
-- reads of it: its chunks of output, its exit code, and whether it was stopped.
--
-- Triage models what is made of a failed check: Triage/Classifier and Triage/Missing are
-- src/run/external-failure-triage-classifier.ts (analyzeFailure), Triage/Readiness is
-- src/run/external-proposal-readiness-decision.ts and external-proposal-readiness-contract.ts
-- (decideReadiness, buildProposalContract).
--
-- Validation models src/validation and its negotiation: Validation.antt has the types,
-- Validation/Detect what a command is known to need, Validation/Plan the preflight plans and
-- Validation/Outcome the outcomes of src/validation/capability-contract.ts;
-- Validation/GitEvidence is parseGitEvidenceCommand of src/validation/git-evidence-lane.ts;
-- Validation/Negotiation is src/control-plane/validation-negotiation.ts.
--
-- Campaign models the budget of a campaign of dependent tasks: Campaign.antt has the types of
-- src/control-plane/contracts.ts, Campaign/Accounting the reservations of
-- src/control-plane/campaign-coordinator-state.ts, Campaign/Schedule the part of runCampaign of
-- src/control-plane/campaign-coordinator.ts that starts children, with dispatchReservedChild, and
-- Campaign/PhaseBudgets projectPhaseBudgets of src/control-plane/campaign-child-projection.ts. The
-- store of tasks is the record Deps. Campaign/Completion is campaignChildCompletion of
-- src/control-plane/campaign-coordinator-state.ts, on the JSON values of Common/Json; Campaign/Lease is
-- src/control-plane/campaign-coordinator-lease.ts, where any number of processes take the lock by calls
-- of the file system in any order.
--
-- Planning models src/run/campaign-validation.ts: Planning/Graph and Planning/Cycle the search of
-- detectCycle, Planning/Topo topoSortPlan, Planning/Validate validateCampaignPlan and Planning/Sinks
-- validateImplementationSinks, which a campaign's plan passes before Campaign runs it. Planning/Create is
-- createCampaign, which makes the record that Campaign works on; its planner is a parameter.
--
-- Patch models src/run/provider-patch-validator.ts: Patch/Diff parseUnifiedDiff, Patch/Glob
-- globToRegExp, and Patch/Validate validateProviderPatch. Patch/Diff/Names says, without the parser,
-- which paths the lines of a patch name. Node and git are the record Host.
--
-- Control has the tasks of the control plane, of src/control-plane/contracts.ts, and Control/Recovery what
-- a restart makes of them, recoverInterruptedTasks of src/control-plane/state.ts.
--
-- Conventions. Texts are compared by their code points, where the source compares UTF-16 units; in Patch
-- a text is a list of UTF-16 units. Money is
-- counted in millionths of a dollar, the step of the limit, and times are milliseconds; an estimate or
-- an amount is a natural number, as the source's Math.max(0, ...) leaves it. A time stamp that no
-- decision reads is left out, and so is a campaign's `updatedAt`; those that a restart rewrites are
-- kept. A number in JSON is counted in millionths, and finer fractions are not represented; a task
-- specification is an object. Loops are structural recursion on the list that they go through, but for three searches of a plan's graph on
-- fuel, two more than there are nodes for detectCycle and transitiveDependencies, and one more than
-- twice the nodes for topoSortPlan. A search goes down only to an id that it has not met, and from an id
-- that is no node it goes no further; each round of the sort takes one id, and an id comes once from
-- the start and once from its entry. The numeral printer of Common/Text is given n + 1 digits for n,
-- which is enough.
--
-- Not modelled: files, processes, HTTP, model providers and rendering; the settlement of finished
-- children and the integration of a campaign in Git; the preflight hook of createCampaign; the reasons
-- that an operator is shown; the readers of packets. The sources give these to the modelled parts as inputs.
pub mod Common
pub mod CommandSafety
pub mod Check
pub mod Campaign
pub mod Planning
pub mod Control
pub mod Patch
pub mod Triage
pub mod Validation
