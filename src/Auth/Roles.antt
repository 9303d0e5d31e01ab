-- ===== src/Auth/Roles.antt =====
-- Roles and methods: `Allowed` of internal/auth/auth.go, and the table of internal/auth/service.go.
use silent_devops.Prelude.{
  ◌≤◌, ◌<◌, String, ◌≡◌, ◌⊎◌, inl, inr, Bool, true, false, ◌||◌, Option, none, some, List, [], ◌∷◌,
  arith, str_eq, leb, if◌then◌else◌, Option-cases,
}
use silent_devops.Protocol.{Role, role_viewer, role_operator, role_admin}

pub data Action : Type 0 where
  read operate administer : Action

-- The map of `Allowed`.
required : Action → Role
required read = role_viewer
required operate = role_operator
required administer = role_admin

-- `Allowed`
unfoldable pub allowed : Role → Action → Bool
unfolding required
allowed role action = leb (required action) role

-- `methodActions`, three rows of the table by the action that they need.
abbrev pub read_methods : List String
read_methods =
    "/devops.v1.FleetService/ListAgents" ∷ "/devops.v1.FleetService/GetAgent"
    ∷ "/devops.v1.FleetService/GetMetrics" ∷ "/devops.v1.FleetService/StreamJobOutput"
    ∷ "/devops.v1.FleetService/ListAudit" ∷ "/devops.v1.FleetService/ListProcesses"
    ∷ "/devops.v1.FleetService/ListServices" ∷ "/devops.v1.FleetService/GetService"
    ∷ "/devops.v1.FleetService/ReadLogs" ∷ []

abbrev pub operate_methods : List String
operate_methods =
    "/devops.v1.FleetService/StartService" ∷ "/devops.v1.FleetService/StopService"
    ∷ "/devops.v1.FleetService/RestartService" ∷ "/devops.v1.FleetService/PreviewCleanup"
    ∷ "/devops.v1.FleetService/RunCleanup" ∷ "/devops.v1.FleetService/Reboot"
    ∷ "/devops.v1.FleetService/CancelJob" ∷ "/devops.v1.FleetService/PrepareSsh"
    ∷ "/devops.v1.FleetService/GetSshSession" ∷ "/devops.v1.FleetService/CloseSsh"
    ∷ "/devops.v1.FleetService/BridgeSsh" ∷ []

abbrev pub admin_methods : List String
admin_methods =
    "/devops.v1.FleetService/Exec" ∷ "/devops.v1.FleetService/CreateClientInvitation"
    ∷ "/devops.v1.FleetService/ListClientInvitations"
    ∷ "/devops.v1.FleetService/RevokeClientInvitation"
    ∷ "/devops.v1.FleetService/CreateEnrollmentToken"
    ∷ "/devops.v1.FleetService/ListEnrollmentTokens"
    ∷ "/devops.v1.FleetService/RevokeEnrollmentToken" ∷ "/devops.v1.FleetService/RevokeAgent"
    ∷ "/devops.v1.FleetService/CreateUser" ∷ "/devops.v1.FleetService/ListUsers"
    ∷ "/devops.v1.FleetService/SetUserRole" ∷ "/devops.v1.FleetService/AddSshKey"
    ∷ "/devops.v1.FleetService/ListSshKeys" ∷ "/devops.v1.FleetService/DeleteSshKey" ∷ []

abbrev listed : String → List String → Bool
listed method [] = false
listed method (m ∷ ms) = str_eq m method || listed method ms

-- `action, ok := methodActions[method]`; no method stands in two rows.
unfoldable pub method_action : String → Option Action
method_action method =
    if listed method read_methods
    then some read
    else if listed method operate_methods
    then some operate
    else if listed method admin_methods
    then some administer
    else none

-- `MethodAllowed`
unfoldable pub method_allowed : String → Role → Bool
method_allowed method role = elim (method_action method) [
  | none ↦ false
  | some action ↦ allowed role action
]

-- Deny by default: no role may call a method that the table lacks, and a role below viewer may call
-- no method at all.
pub denied_by_default :
    (method : String) (role : Role)
    → (method_action method ≡ none) ⊎ (role < role_viewer)
    → method_allowed method role ≡ false
unfolding method_allowed allowed
denied_by_default method role h = elim (Option-cases (method_action method)) [
  | inl e ↦ ground arith
  | inr (read, e) ↦ ground arith
  | inr (operate, e) ↦ ground arith
  | inr (administer, e) ↦ ground arith
]

-- What a role may call, a higher role may call.
pub method_allowed_mono :
    (method : String) (role higher : Role)
    → role ≤ higher
    → method_allowed method role ≡ true
    → method_allowed method higher ≡ true
unfolding method_allowed allowed
method_allowed_mono method role higher le h = elim (Option-cases (method_action method)) [
  | inl e ↦ ground arith
  | inr (read, e) ↦ ground arith
  | inr (operate, e) ↦ ground arith
  | inr (administer, e) ↦ ground arith
]
