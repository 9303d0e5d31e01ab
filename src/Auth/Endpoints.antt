-- ===== src/Auth/Endpoints.antt =====
-- The interceptors of internal/auth: policy.go, endpoints.go, interceptor.go and stream.go. A call
-- that reaches its handler is `ok`, with the claims that its context then carries. What the network
-- and gRPC give is in `Request`; `split_host` and `parse_addr` stand for net.SplitHostPort and
-- netip.ParseAddr, and `check` for the verification of a token by the issuer at the present instant.
pub mod Guards
use text.Mathlib.Text.{starts_with}
use silent_devops.Prelude.{
  ℕ, ◌+◌, String, Bool, not, ◌&&◌, ◌||◌, Option, none, some, List, [], ◌∷◌, map, str_eq, leb, ◌==◌,
  if◌then◌else◌, bytes_eq, Result, ok, err, ◌>>=◌, ◌>>◌, fail_if, or_fail, map_err,
}
use silent_devops.Protocol.{Code, unauthenticated, permission_denied}
use silent_devops.Auth.Cidr.{Addr, Prefix, unmap, allows}
use silent_devops.Auth.Token.{Bytes, Claims}
use silent_devops.Auth.Roles.{method_allowed}

-- The peer's address as text, if there is one; the values of the authorization metadata, if there is
-- metadata; the claims that the context carries.
pub record Request : Type 0 where
  pub peer : Option String
  pub authorization : Option (List Bytes)
  pub claims : Option Claims

pub record Policies : Type 0 where
  pub enrollment : List Prefix
  pub agent : List Prefix
  pub client : List Prefix

pub data Denial : Type 0 where
  unknown_endpoint peer_missing invalid_peer peer_denied metadata_missing metadata_invalid : Denial
  bad_header bad_token authentication_required role_denied : Denial

-- The policy of the service that a method belongs to.
unfoldable pub policy_of : Policies → String → Option (List Prefix)
policy_of p method =
    if starts_with method "/devops.v1.EnrollmentService/"
    then some p.enrollment
    else if starts_with method "/devops.v1.AgentService/"
    then some p.agent
    else if starts_with method "/devops.v1.AuthService/"
        || starts_with method "/devops.v1.FleetService/"
    then some p.client
    else none

-- White space of an ASCII text.
is_space : ℕ → Bool
is_space c = c == 32 || (leb 9 c && leb c 13)

-- A field that has come to its end, before the others; an empty one is none.
flush : Bytes → List Bytes → List Bytes
flush [] rest = rest
flush (c ∷ cs) rest = (c ∷ cs) ∷ rest

-- `strings.Fields`: the field under way, and those behind it.
fields_from : Bytes → Bytes × List Bytes
unfolding is_space flush
fields_from [] = ([], [])
fields_from (c ∷ cs) =
    let (field, rest) = fields_from cs in
    if is_space c then ([], flush field rest) else (c ∷ field, rest)

pub fields : Bytes → List Bytes
unfolding fields_from
fields text = let (field, rest) = fields_from text in flush field rest

lower_case : ℕ → ℕ
lower_case c = if leb b'A' c && leb c b'Z' then c + 32 else c

-- `strings.EqualFold(scheme, "Bearer")`
is_bearer : Bytes → Bool
unfolding lower_case
is_bearer scheme = bytes_eq (map lower_case scheme) (b'b' ∷ b'e' ∷ b'a' ∷ b'r' ∷ b'e' ∷ b'r' ∷ [])

bearer_fields : List Bytes → Result Denial Bytes
unfolding is_bearer
bearer_fields (scheme ∷ token ∷ []) = if is_bearer scheme then ok token else err bad_header
bearer_fields _ = err bad_header

-- `ParseBearer`
unfoldable pub parse_bearer : Bytes → Result Denial Bytes
unfolding bearer_fields fields
parse_bearer header = bearer_fields (fields header)

-- `values := md.Get("authorization")`, which must be one value.
single : List Bytes → Result Denial Bytes
single (value ∷ []) = ok value
single _ = err metadata_invalid

-- `AuthorizeMethod`
unfoldable pub authorize_method : Option Claims → String → Result Denial (Unit {0})
authorize_method none method = err authentication_required
authorize_method (some c) method = fail_if (not (method_allowed method c.role)) role_denied

-- The methods that run without a token.
abbrev pub is_open : String → Bool
is_open method =
    (str_eq method "/devops.v1.AuthService/Login"
      || str_eq method "/devops.v1.AuthService/RedeemClientInvitation"
      || str_eq method "/devops.v1.EnrollmentService/Enroll")
    || str_eq method "/devops.v1.EnrollmentService/Renew"

status_of : Denial → Code
status_of authentication_required = Code.unauthenticated
status_of _ = Code.permission_denied

module _ (split_host : String → Option String) (parse_addr : String → Option Addr)
    (check : Bytes → Option Claims) where
  pub host_of : String → String
  host_of text = elim (split_host text) [ none ↦ text | some host ↦ host ]

  -- `peerAddr`
  peer_addr : Request → Result Denial Addr
  unfolding host_of
  peer_addr r = do
    text ← or_fail r.peer peer_missing
    addr ← or_fail (parse_addr (host_of text)) invalid_peer
    ok (unmap addr)

  -- `EndpointPolicies.AuthorizePeer`
  unfoldable pub authorize_peer : Policies → Request → String → Result Denial (Unit {0})
  unfolding peer_addr
  authorize_peer p r method = do
    policy ← or_fail (policy_of p method) unknown_endpoint
    addr ← peer_addr r
    fail_if (not (allows policy addr)) peer_denied

  -- The token of a request: the tail that the two ways to authenticate share.
  token_claims : Request → Result Denial Claims
  unfolding single
  token_claims r = do
    values ← or_fail r.authorization metadata_missing
    value ← single values
    token ← parse_bearer value
    or_fail (check token) bad_token

  -- `AuthenticateFleet`: the claims that the new context carries.
  unfoldable pub authenticate_fleet : Policies → Request → String → Result Denial Claims
  unfolding token_claims
  authenticate_fleet p r method = do
    authorize_peer p r method
    claims ← token_claims r
    authorize_method (some claims) method
    ok claims

  -- `AuthenticateContext`, for a single policy.
  pub authenticate_context : List Prefix → Request → Result Denial Claims
  unfolding host_of token_claims
  authenticate_context policy r = do
    text ← or_fail r.peer peer_missing
    addr ← or_fail (parse_addr (host_of text)) peer_denied
    fail_if (not (allows policy addr)) peer_denied
    token_claims r

  -- `UnaryInterceptor`
  pub unary : List Prefix → Request → String → Result Code (Option Claims)
  unfolding status_of
  unary policy r method = do
    claims ← map_err (authenticate_context policy r) (λ e. Code.unauthenticated)
    map_err (authorize_method (some claims) method) status_of
    ok (some claims)

  -- A call that is authenticated for the fleet, as the two interceptors below make it.
  fleet_call : Policies → Request → String → Result Code (Option Claims)
  fleet_call p r method = do
    claims ← map_err (authenticate_fleet p r method) (λ e. Code.unauthenticated)
    ok (some claims)

  -- The `switch` of `EndpointUnaryInterceptor`.
  route_unary : Policies → Request → String → Result Code (Option Claims)
  unfolding fleet_call
  route_unary p r method =
      if is_open method
      then ok r.claims
      else if starts_with method "/devops.v1.FleetService/"
      then fleet_call p r method
      else err Code.permission_denied

  -- `EndpointUnaryInterceptor`
  unfoldable pub endpoint_unary : Policies → Request → String → Result Code (Option Claims)
  unfolding route_unary
  endpoint_unary p r method = do
    map_err (authorize_peer p r method) (λ e. Code.permission_denied)
    route_unary p r method

  route_stream : Policies → Request → String → Result Code (Option Claims)
  unfolding fleet_call
  route_stream p r method =
      if starts_with method "/devops.v1.AgentService/" then ok r.claims else fleet_call p r method

  -- `StreamInterceptor`
  unfoldable pub stream : Policies → Request → String → Result Code (Option Claims)
  unfolding route_stream
  stream p r method = do
    map_err (authorize_peer p r method) (λ e. Code.permission_denied)
    route_stream p r method
