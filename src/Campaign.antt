-- ===== src/Campaign.antt =====
-- A campaign: a plan of dependent tasks that the coordinator runs within a budget. The types are those
-- of src/control-plane/contracts.ts. Money is counted in millionths of a dollar, the step that
-- `maxCostUsd` is given in; times are milliseconds. The `children` of a record are in plan order,
-- each under its node's id.
pub mod Accounting
pub mod Schedule
pub mod PhaseBudgets
pub mod Completion
pub mod Lease
mod Tests
use run_forge.Common.{ℕ, Bool, Option, List, String}

pub data CampaignStatus : Type 0 where
  planning queued running completed failed on_hold : CampaignStatus

pub data ChildStatus : Type 0 where
  pending dispatching queued running completed failed blocked : ChildStatus

pub data Provider : Type 0 where
  openrouter local : Provider

pub data FallbackPolicy : Type 0 where
  none same_provider : FallbackPolicy

pub record Authority : Type 0 where
  pub inspect : Bool
  pub implementation : Bool
  pub provider_calls : Bool
  pub network : Bool
  pub local_branch : Bool
  pub local_commit : Bool

pub record Limits : Type 0 where
  pub max_cost_usd : Option ℕ
  pub max_tokens : ℕ
  pub max_tasks : ℕ
  pub max_concurrency : ℕ

pub record Target : Type 0 where
  pub project_id : Option String
  pub repository : Option String

pub record CampaignSpec : Type 0 where
  pub target : Target
  pub authority : Authority
  pub provider : Provider
  pub fallback_policy : Option FallbackPolicy
  pub limits : Limits
  -- The required commands of the validation contract, if there is one.
  pub required_commands : Option (List String)

pub data ExecutionMode : Type 0 where
  implementation validation other : ExecutionMode

pub record CampaignPlanNode : Type 0 where
  pub id : String
  -- `taskSpec.taskId` where it is a text that is not blank, and `taskSpec.execution.mode`.
  pub task_id : Option String
  pub execution_mode : ExecutionMode
  pub depends_on : List String
  pub estimated_tokens : Option ℕ
  pub estimated_cost_usd : Option ℕ

pub record CampaignPlan : Type 0 where
  pub nodes : List CampaignPlanNode
  pub estimated_tokens : ℕ
  pub estimated_cost_usd : Option ℕ

pub record Child : Type 0 where
  pub node_id : String
  pub depends_on : List String
  pub task_id : Option String
  pub status : ChildStatus
  pub started_at : Option ℕ
  pub finished_at : Option ℕ
  pub error : Option String
  pub accounted : Bool
  pub reserved_tokens : ℕ
  pub reserved_cost_usd : ℕ
  pub integration_repair_attempts : ℕ
  pub execution_retry_attempts : ℕ

pub record Usage : Type 0 where
  pub tokens : ℕ
  pub cost_usd : ℕ
  pub tasks : ℕ

pub record Amount : Type 0 where
  pub tokens : ℕ
  pub cost_usd : ℕ

pub record Failure : Type 0 where
  pub node_id : Option String
  pub reason : String

pub record CampaignRecord : Type 0 where
  pub id : String
  pub status : CampaignStatus
  pub spec : CampaignSpec
  pub plan : Option CampaignPlan
  pub children : List Child
  pub usage : Usage
  -- Absent from records that were written before reservations were persisted.
  pub reserved : Option Amount
  pub failures : List Failure
  -- Whether the result is written.
  pub has_result : Bool
