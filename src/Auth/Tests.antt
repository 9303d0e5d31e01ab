-- ===== src/Auth/Tests.antt =====
-- Runs of internal/auth, and the theorems about it at concrete inputs.
use silent_devops.Prelude.{
  ℕ, ◌+◌, ◌*◌, ◌^◌, ◌≤◌, String, ◌≡◌, refl, ◌⊎◌, true, false, Option, none, some, List, [], ◌∷◌,
  arith, str_eq, if◌then◌else◌, bytes_eq, ok,
}
use silent_devops.Prelude.Dict.{lookup, remove, insert}
use silent_devops.Protocol.{role_operator}
use silent_devops.Auth.Cidr.{Addr, v4, Prefix, unmap, contains, allows}
use silent_devops.Auth.Limiter.{new_limiter, allow, granted, granted_bound}
use silent_devops.Auth.Roles.{allowed, method_action, method_allowed}
use silent_devops.Auth.Token.{Bytes, Claims}
use silent_devops.Auth.Endpoints.{
  Request, Policies, policy_of, parse_bearer, authorize_method, is_open, authorize_peer,
  authenticate_fleet, endpoint_unary, stream,
}
use silent_devops.Auth.Endpoints.Guards.{
  PeerAllowed, TokenGood, endpoint_unary_guards, stream_guards,
}

abbrev lan : Prefix
lan = record { base = v4 (10 * 2 ^ 24 + 7); bits = 8 }

abbrev lan_text : String → Option Prefix
lan_text text = if str_eq text "10.0.0.7/8" then some lan else none

abbrev attempts : List (String × ℕ)
attempts = ("a", 100) ∷ ("a", 101) ∷ ("b", 102) ∷ ("a", 103) ∷ []

granted_two : granted (new_limiter 2 60) "a" attempts ≡ 2
unfolding granted new_limiter allow lookup insert remove
granted_two = refl

granted_bound_example : granted (new_limiter 2 60) "a" attempts ≤ 4
unfolding new_limiter
granted_bound_example = granted_bound (new_limiter 2 60) "a" 100 attempts (
  (omega arith, omega arith),
  ((omega arith, omega arith), ((omega arith, omega arith), ((omega arith, omega arith), tt))),
)

operator_may_reboot : method_allowed "/devops.v1.FleetService/Reboot" role_operator ≡ true
unfolding method_allowed method_action allowed
operator_may_reboot = refl

operator_may_not_exec : method_allowed "/devops.v1.FleetService/Exec" role_operator ≡ false
unfolding method_allowed method_action allowed
operator_may_not_exec = refl

-- A peer in the network, with the token "t" of an operator.
abbrev operator : Claims
operator = record { subject = "anna"; role = role_operator; issued = 0; expires = 600; nonce = [] }

abbrev token_check : Bytes → Option Claims
token_check token = if bytes_eq token (b't' ∷ []) then some operator else none

abbrev address : String → Option Addr
address text = if str_eq text "10.0.0.9" then some (v4 (10 * 2 ^ 24 + 9)) else none

abbrev no_port : String → Option String
no_port text = none

abbrev policies : Policies
policies = record { enrollment = []; agent = []; client = lan ∷ [] }

abbrev header : Bytes
header = b'B' ∷ b'e' ∷ b'a' ∷ b'r' ∷ b'e' ∷ b'r' ∷ 32 ∷ b't' ∷ []

abbrev call : Request
call = record { peer = some "10.0.0.9"; authorization = some (header ∷ []); claims = none }

reboot_reaches :
    endpoint_unary no_port address token_check policies call "/devops.v1.FleetService/Reboot"
    ≡ ok (some operator)
unfolding endpoint_unary authorize_peer authenticate_fleet parse_bearer policy_of authorize_method
    method_allowed method_action allowed allows unmap contains
reboot_reaches = refl

bridge_reaches :
    stream no_port address token_check policies call "/devops.v1.FleetService/BridgeSsh"
    ≡ ok (some operator)
unfolding stream authorize_peer authenticate_fleet parse_bearer policy_of authorize_method
    method_allowed method_action allowed allows unmap contains
bridge_reaches = refl

endpoint_unary_guards_example :
    PeerAllowed no_port address token_check policies call "/devops.v1.FleetService/Reboot"
    × ((is_open "/devops.v1.FleetService/Reboot" ≡ true) × (some operator ≡ none)
        ⊎ ((c : Claims) × (some operator ≡ some c)
            × TokenGood no_port address token_check call c
            × (method_allowed "/devops.v1.FleetService/Reboot" c.role ≡ true)))
endpoint_unary_guards_example =
    endpoint_unary_guards no_port address token_check policies call "/devops.v1.FleetService/Reboot"
      (some operator) reboot_reaches

stream_guards_example :
    PeerAllowed no_port address token_check policies call "/devops.v1.FleetService/BridgeSsh"
    × ((false ≡ true) × (some operator ≡ none)
        ⊎ ((c : Claims) × (some operator ≡ some c)
            × TokenGood no_port address token_check call c
            × (method_allowed "/devops.v1.FleetService/BridgeSsh" c.role ≡ true)))
stream_guards_example =
    stream_guards no_port address token_check policies call "/devops.v1.FleetService/BridgeSsh"
      (some operator) bridge_reaches
