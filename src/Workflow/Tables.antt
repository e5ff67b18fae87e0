-- ===== src/Workflow/Tables.antt =====
-- The tables of workflows (models `Workflow`, `WorkflowRule`, `WorkflowExecution` and `WorkflowLog` of
-- prisma/schema.prisma), and the state that the engine works on.
use central_backend_e_commer.Prelude.{ℕ, Bool, Option, List, String}
use central_backend_e_commer.Prelude.Int.{ℤ}
use central_backend_e_commer.Action.{Action, Error}
use central_backend_e_commer.Workflow.Json.{Json}

pub record WorkflowRule : Type 0 where
  pub id : String
  pub condition_json : Json
  pub action_json : Json

-- With its rules in the order of `orderIndex`.
pub record Workflow : Type 0 where
  pub id : String
  pub name : String
  pub trigger_event : String
  pub is_active : Bool
  pub rules : List WorkflowRule

pub data WorkflowExecutionStatus : Type 0 where
  success failed running : WorkflowExecutionStatus

pub record WorkflowExecution : Type 0 where
  pub id : ℕ
  pub workflow_id : String
  pub event_key : Option String
  pub status : WorkflowExecutionStatus
  pub input_json : Json
  pub output_json : Option Json

pub data LogLevel : Type 0 where
  info error : LogLevel

-- The messages, by what the texts tell.
pub data LogMessage : Type 0 where
  workflow_started : String → LogMessage
  rule_matched rule_skipped rule_already_executed rule_action_executed : String → LogMessage
  workflow_failed : Error → LogMessage

pub record WorkflowLog : Type 0 where
  pub execution_id : ℕ
  pub level : LogLevel
  pub message : LogMessage

-- The audit lines WORKFLOW_EXECUTED and WORKFLOW_FAILED: of which workflow and execution.
pub data WorkflowAudit : Type 0 where
  executed : String → ℕ → WorkflowExecutionStatus → WorkflowAudit
  failed : String → ℕ → Error → WorkflowAudit

-- `W` is the state of the services that an action calls.
pub record EngineDb (W : Type 0) : Type 0 where
  pub workflows : List Workflow
  pub executions : List WorkflowExecution
  pub logs : List WorkflowLog
  pub audit : List WorkflowAudit
  pub world : W
  -- how many values `uuid` has given
  pub drawn : ℕ

-- What the engine calls: `ActionExecutorService.execute` on the action and the input of a rule, `Number` on
-- a text, and `error.message`.
pub record Runtime (W : Type 0) : Type 0 where
  pub execute : Json → Json → Action W Json
  pub number_of_text : String → Option ℤ
  pub message_of : Error → String
