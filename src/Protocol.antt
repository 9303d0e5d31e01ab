-- ===== src/Protocol.antt =====
-- The messages of api/devops/v1/devops.proto that the other modules share, as records, and the
-- constants of api/devops/v1/limits.go. Enumerations that go over the wire as int32 are numbers, so
-- that a value which the protocol does not name stays possible.
use silent_devops.Prelude.{ℕ, ◌*◌, ◌^◌, String, Bool, Option, List}

-- Role
abbrev pub Role : Type 0
Role = ℕ

abbrev pub role_unspecified : Role
role_unspecified = 0

abbrev pub role_viewer : Role
role_viewer = 1

abbrev pub role_operator : Role
role_operator = 2

abbrev pub role_admin : Role
role_admin = 3

-- gRPC status codes that the program returns. The text of a status is not modelled.
pub data Code : Type 0 where
  invalid_argument unauthenticated permission_denied not_found already_exists : Code
  failed_precondition unavailable resource_exhausted internal : Code

-- ProtocolLimits
pub record Limits : Type 0 where
  pub max_message_bytes : ℕ
  pub max_output_bytes : ℕ
  pub max_output_chunk_bytes : ℕ
  pub max_metrics : ℕ
  pub max_labels_per_metric : ℕ
  pub max_capabilities : ℕ
  pub max_queue_depth : ℕ
  pub max_reason_bytes : ℕ
  pub max_command_bytes : ℕ
  pub max_unit_bytes : ℕ
  pub max_path_bytes : ℕ
  pub max_job_timeout_seconds : ℕ
  pub max_ssh_ttl_seconds : ℕ
  pub max_page_size : ℕ

abbrev pub default_limits : Limits
default_limits = record {
  max_message_bytes = 4 * 2 ^ 20;
  max_output_bytes = 2 ^ 20;
  max_output_chunk_bytes = 64 * 2 ^ 10;
  max_metrics = 4096;
  max_labels_per_metric = 16;
  max_capabilities = 128;
  max_queue_depth = 256;
  max_reason_bytes = 2048;
  max_command_bytes = 64 * 2 ^ 10;
  max_unit_bytes = 256;
  max_path_bytes = 4096;
  max_job_timeout_seconds = 3600;
  max_ssh_ttl_seconds = 3600;
  max_page_size = 1000;
}

-- VersionRange
pub record VersionRange : Type 0 where
  pub minimum : ℕ
  pub maximum : ℕ

-- AgentHello, with the fields that the validator reads.
pub record Hello : Type 0 where
  pub agent_id : String
  pub protocol : Option VersionRange
  pub capabilities : List (String × ℕ)
  pub hostname : String
  pub boot_id : String
  pub limits : Option Limits

-- JobState
abbrev pub JobState : Type 0
JobState = ℕ

abbrev pub dispatched : JobState
dispatched = 2

abbrev pub running : JobState
running = 3

abbrev pub succeeded : JobState
succeeded = 4

abbrev pub failed : JobState
failed = 5

abbrev pub cancelled_state : JobState
cancelled_state = 6

abbrev pub timed_out : JobState
timed_out = 7

abbrev pub unknown_result : JobState
unknown_result = 8

abbrev pub rejected : JobState
rejected = 9

-- The requests of TypedOperation and UnsafeOperation. Unix times are milliseconds.
pub data TypedOperation : Type 0 where
  process_list service_list : ℕ → TypedOperation
  service_status service_start service_stop service_restart : String → TypedOperation
  journal_read : String → ℕ → ℕ → ℕ → TypedOperation
  cleanup_preview : List String → TypedOperation

pub data UnsafeOperation : Type 0 where
  arbitrary_command : String → UnsafeOperation
  cleanup_run : String → List ℕ → ℕ → UnsafeOperation
  reboot : String → String → ℕ → UnsafeOperation

pub data Operation : Type 0 where
  no_operation : Operation
  safe : TypedOperation → Operation
  unsafe : UnsafeOperation → Operation

-- Job, with its authorization.
pub record Job : Type 0 where
  pub id : String
  pub actor_id : String
  pub agent_id : String
  pub created : ℕ
  pub deadline : ℕ
  pub role : Role
  pub reason : String
  pub confirmed : Bool
  pub operation : Operation
  pub state : JobState
  pub attempt : ℕ
  pub dispatch_id : String
  pub idempotency_key : String

-- JobRequestContext
pub record JobContext : Type 0 where
  pub agent_id : String
  pub reason : String
  pub idempotency_key : String
  pub timeout_seconds : ℕ
  pub confirmed : Bool

-- JobResult, with the fields that the validator stores.
pub record JobResult : Type 0 where
  pub job_id : String
  pub dispatch_id : String
  pub attempt : ℕ
  pub state : JobState
  pub output : List ℕ
  pub output_truncated : Bool

-- The payloads of ValidatorMessage.
pub data Message : Type 0 where
  job : Job → Message
  cancel : String → String → ℕ → String → Message
  prepare_ssh : String → List ℕ → ℕ → ℕ → List ℕ → Message
  open_tunnel : String → List ℕ → Message
  close_ssh : String → Message
