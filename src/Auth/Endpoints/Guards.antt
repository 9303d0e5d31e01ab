-- ===== src/Auth/Endpoints/Guards.antt =====
-- What has to hold for a call to reach its handler through the interceptors of internal/auth.
use text.Mathlib.Text.{starts_with}
use silent_devops.Prelude.{
  String, ◌≡◌, ap, ◌∙◌, ◌⊎◌, inl, inr, true, Option, some, List, [], ◌∷◌, arith, Bool-cases, ok,
  map_err-eq-ok, or_fail, map_err, >>=-eq-ok,
}
use silent_devops.Protocol.{Code}
use silent_devops.Auth.Cidr.{Addr, Prefix, unmap, allows}
use silent_devops.Auth.Token.{Bytes, Claims}
use silent_devops.Auth.Roles.{allowed, method_allowed}
use silent_devops.Auth.Endpoints.{
  Request, Policies, unknown_endpoint, peer_missing, invalid_peer, metadata_missing, policy_of,
  parse_bearer, single, authorize_method, is_open, host_of, peer_addr, authorize_peer, token_claims,
  authenticate_fleet, fleet_call, route_unary, endpoint_unary, route_stream, stream,
}

single-eq-ok :
    (values : List Bytes) (value : Bytes) → single values ≡ ok value → values ≡ value ∷ []
unfolding single
single-eq-ok [] value h = cc
single-eq-ok (v ∷ []) value h = ground arith
single-eq-ok (v ∷ w ∷ rest) value h = cc

module _ (split_host : String → Option String) (parse_addr : String → Option Addr)
    (check : Bytes → Option Claims) where
  -- The peer's address is known, and the policy of the method's service allows it.
  pub record PeerAllowed (p : Policies) (r : Request) (method : String) : Type 0 where
    pub policy : List Prefix
    pub of_method : policy_of p method ≡ some policy
    pub text : String
    pub peer : r.peer ≡ some text
    pub addr : Addr
    pub parsed : parse_addr (host_of split_host parse_addr check text) ≡ some addr
    pub allowed : allows policy (unmap addr) ≡ true

  -- The request carries one authorization value, a bearer token that verifies to the claims.
  pub record TokenGood (r : Request) (c : Claims) : Type 0 where
    pub value : Bytes
    pub alone : r.authorization ≡ some (value ∷ [])
    pub token : Bytes
    pub bearer : parse_bearer value ≡ ok token
    pub verified : check token ≡ some c

  peer_addr-eq-ok :
      (r : Request) (a : Addr)
      → peer_addr split_host parse_addr check r ≡ ok a
      → (text : String) × (addr : Addr) × (r.peer ≡ some text)
        × (parse_addr (host_of split_host parse_addr check text) ≡ some addr)
        × (unmap addr ≡ a)
  unfolding peer_addr
  peer_addr-eq-ok r a h =
      let (text, peer, more) = >>=-eq-ok (or_fail r.peer peer_missing) _ h in
      let (addr, parsed, last) =
        >>=-eq-ok (or_fail (parse_addr (host_of split_host parse_addr check text)) invalid_peer) _
          more in
      (text, addr, ground arith, ground arith, ground arith)

  authorize_peer-eq-ok :
      (p : Policies) (r : Request) (method : String)
      → authorize_peer split_host parse_addr check p r method ≡ ok tt
      → PeerAllowed p r method
  unfolding authorize_peer
  authorize_peer-eq-ok p r method h =
      let (policy, found, more) = >>=-eq-ok (or_fail (policy_of p method) unknown_endpoint) _ h in
      let (a, known, last) = >>=-eq-ok (peer_addr split_host parse_addr check r) _ more in
      let (text, addr, peer, parsed, same) = peer_addr-eq-ok r a known in
      record {
        policy = policy;
        of_method = ground arith;
        text = text;
        peer = peer;
        addr = addr;
        parsed = parsed;
        allowed = rw same (ground arith);
      }

  token_claims-eq-ok :
      (r : Request) (c : Claims) → token_claims split_host parse_addr check r ≡ ok c → TokenGood r c
  unfolding token_claims
  token_claims-eq-ok r c h =
      let (values, present, more) = >>=-eq-ok (or_fail r.authorization metadata_missing) _ h in
      let (value, only, after) = >>=-eq-ok (single values) _ more in
      let (token, bearer, last) = >>=-eq-ok (parse_bearer value) _ after in
      record {
        value = value;
        alone = ground (arith, single-eq-ok values value only);
        token = token;
        bearer = bearer;
        verified = ground arith;
      }

  authenticate_fleet-eq-ok :
      (p : Policies) (r : Request) (method : String) (c : Claims)
      → authenticate_fleet split_host parse_addr check p r method ≡ ok c
      → TokenGood r c × (method_allowed method c.role ≡ true)
  unfolding authenticate_fleet authorize_method
  authenticate_fleet-eq-ok p r method c h =
      let (u, allowed, more) =
        >>=-eq-ok (authorize_peer split_host parse_addr check p r method) _ h in
      let (d, token, last) = >>=-eq-ok (token_claims split_host parse_addr check r) _ more in
      let same : d ≡ c = ground arith in (token_claims-eq-ok r c (token ∙ ap ok same), ground arith)

  fleet_call-eq-ok :
      (p : Policies) (r : Request) (method : String) (ctx : Option Claims)
      → fleet_call split_host parse_addr check p r method ≡ ok ctx
      → (c : Claims) × (ctx ≡ some c) × TokenGood r c × (method_allowed method c.role ≡ true)
  unfolding fleet_call
  fleet_call-eq-ok p r method ctx h =
      let (c, authentic, last) =
        >>=-eq-ok
          (map_err (authenticate_fleet split_host parse_addr check p r method)
            (λ e. Code.unauthenticated))
          _ h in
      let (good, may) =
        authenticate_fleet-eq-ok p r method c
          (map_err-eq-ok (authenticate_fleet split_host parse_addr check p r method) _ authentic) in
      (c, ground arith, good, may)

  -- A unary call reaches its handler only if the peer's address is allowed by the policy of the
  -- service that the method belongs to, and either the method is one of the four that need no token,
  -- with the context as it came, or the one authorization value is a bearer token that verifies,
  -- to claims whose role may call the method, and these claims are what the context carries.
  pub endpoint_unary_guards :
      (p : Policies) (r : Request) (method : String) (ctx : Option Claims)
      → endpoint_unary split_host parse_addr check p r method ≡ ok ctx
      → PeerAllowed p r method
        × ((is_open method ≡ true) × (ctx ≡ r.claims)
            ⊎ ((c : Claims) × (ctx ≡ some c)
                × TokenGood r c
                × (method_allowed method c.role ≡ true)))
  unfolding endpoint_unary route_unary
  endpoint_unary_guards p r method ctx h =
      let (u, peer, more) =
        >>=-eq-ok
          (map_err (authorize_peer split_host parse_addr check p r method)
            (λ e. Code.permission_denied))
          _ h in
      (
        authorize_peer-eq-ok p r method
            (map_err-eq-ok (authorize_peer split_host parse_addr check p r method) _ peer),
        elim (Bool-cases (is_open method)) [
          | inl open_method ↦ inl (open_method, ground arith)
          | inr closed ↦ elim (Bool-cases (starts_with method "/devops.v1.FleetService/")) [
            | inl fleet ↦ inr (fleet_call-eq-ok p r method ctx (ground arith))
            | inr other ↦ absurd (ground arith)
          ]
        ],
      )

  -- A stream reaches its handler only if the peer's address is allowed by the policy of the service
  -- that the method belongs to, and either it is a stream of an agent, with the context as it came,
  -- or the one authorization value is a bearer token that verifies, to claims whose role may call
  -- the method, and these claims are what the context carries.
  pub stream_guards :
      (p : Policies) (r : Request) (method : String) (ctx : Option Claims)
      → stream split_host parse_addr check p r method ≡ ok ctx
      → PeerAllowed p r method
        × ((starts_with method "/devops.v1.AgentService/" ≡ true) × (ctx ≡ r.claims)
            ⊎ ((c : Claims) × (ctx ≡ some c)
                × TokenGood r c
                × (method_allowed method c.role ≡ true)))
  unfolding stream route_stream
  stream_guards p r method ctx h =
      let (u, peer, more) =
        >>=-eq-ok
          (map_err (authorize_peer split_host parse_addr check p r method)
            (λ e. Code.permission_denied))
          _ h in
      (
        authorize_peer-eq-ok p r method
            (map_err-eq-ok (authorize_peer split_host parse_addr check p r method) _ peer),
        elim (Bool-cases (starts_with method "/devops.v1.AgentService/")) [
          | inl agent ↦ inl (agent, ground arith)
          | inr other ↦ inr (fleet_call-eq-ok p r method ctx (ground arith))
        ],
      )
