-- ===== src/Easypanel.antt =====
-- Easypanel: the client of a panel, internal/easypanel/client.go. The server is a function of the
-- requests that it has had and of the next one, without a reply where the call fails; the JSON of the bodies is read and written by
-- arguments.
pub mod Preflight
pub mod Detect
pub mod Migrate
mod Settles
mod Sends
mod Checks
mod Tests
use silent_devops.Prelude.{
  ℕ, String, Bool, true, false, not, ◌&&◌, ◌||◌, Option, none, some, List, ◌∷◌, str_eq, ltb, leb,
  ◌==◌, if◌then◌else◌, Result, ok, err, or_fail,
}

pub data Method : Type 0 where
  get_method post_method : Method

pub data Endpoint : Type 0 where
  trpc : String → Endpoint
  migrate_service : Endpoint

pub record HttpCall : Type 0 where
  pub method : Method
  pub base_url : String
  pub token : String
  pub endpoint : Endpoint
  pub body : String

-- The requests so far, the last one first.
abbrev pub Log : Type 0
Log = List HttpCall

pub record Client : Type 0 where
  pub base_url : String
  pub token : String
  pub query_method : Option Method

pub record ApiError : Type 0 where
  pub status : ℕ
  pub code : String
  pub message : String

-- An error of the panel, or one of the connection or of JSON.
pub data CallError : Type 0 where
  api_error : ApiError → CallError
  url_required call_failed : CallError

-- What json.Unmarshal reads of an error body: the two shapes of tRPC, and the texts of a REST body.
pub record TrpcError : Type 0 where
  pub code : String
  pub message : String
  pub data_code : String

pub record Envelope : Type 0 where
  pub nested : TrpcError
  pub legacy : TrpcError
  pub message : String
  pub rest_error : String

abbrev pub is_empty : String → Bool
is_empty s = str_eq s ""

abbrev pub first_text : String → String → String
first_text s other = if is_empty s then other else s

-- `decodeAPIError`
unfoldable pub decode_api_error : ℕ → Envelope → ApiError
decode_api_error status env =
    let te =
      if is_empty env.nested.code && is_empty env.nested.message then env.legacy else env.nested in
    let code = first_text te.code te.data_code in
    record {
      status = status;
      code = if is_empty code && status == 404 then "NOT_FOUND" else code;
      message = first_text te.message (first_text env.message env.rest_error);
    }

-- `NotFound`
abbrev pub not_found_error : CallError → Bool
not_found_error (api_error e) = e.status == 404 || str_eq e.code "NOT_FOUND"
not_found_error _ = false

-- `methodNotAllowed`
abbrev pub method_not_allowed {ℓ} : {A : Type ℓ} → Result CallError A → Bool
method_not_allowed (err (api_error e)) = e.status == 405
method_not_allowed _ = false

abbrev pub other_method : Method → Method
other_method post_method = get_method
other_method get_method = post_method

abbrev pub first_method : Option Method → Method
first_method none = get_method
first_method (some m) = m

-- `unwrapPayload`, with what json.Unmarshal finds under the two wrappers.
abbrev pub unwrap_payload : (String → Option String) → (String → Option String) → String → String
unwrap_payload v10 bare raw = elim (v10 raw) [
  | some payload ↦ payload
  | none ↦ elim (bare raw) [ some payload ↦ payload | none ↦ raw ]
]

-- What the client uses of the server and of JSON. `succeeded` is the field of a migration's answer.
pub record Remote : Type 0 where
  pub respond : Log → HttpCall → Option (ℕ × String)
  pub read_error : String → Envelope
  pub v10 : String → Option String
  pub bare : String → Option String
  pub succeeded : String → Option Bool

abbrev pub is_success : ℕ → Bool
is_success status = leb 200 status && ltb status 300

-- `do`, with the decoding of the payload.
abbrev pub read_reply {ℓ} :
    {A : Type ℓ} → Remote → (String → Option A) → Option (ℕ × String) → Result CallError A
read_reply r decode none = err call_failed
read_reply r decode (some (status, raw)) =
    if is_success status
    then or_fail (decode (unwrap_payload r.v10 r.bare raw)) call_failed
    else err (api_error (decode_api_error status (r.read_error raw)))

abbrev pub request : Client → Method → Endpoint → String → HttpCall
request c m e body = record {
  method = m;
  base_url = c.base_url;
  token = c.token;
  endpoint = e;
  body = body;
}

-- `queryVia`
unfoldable pub query_via {ℓ} :
    {A : Type ℓ}
    → Remote
    → Client
    → Method
    → String
    → String
    → (String → Option A)
    → Log
    → Result CallError A × Log
query_via r c m proc input decode log =
    let call = request c m (trpc proc) input in
    (read_reply r decode (r.respond log call), call ∷ log)

abbrev pub learn {ℓ} : {A : Type ℓ} → Client → Method → Result CallError A → Client
learn c m (ok a) = record c { query_method = some m }
learn c m (err why) = c

-- `trpcQuery`
unfoldable pub trpc_query {ℓ} :
    {A : Type ℓ}
    → Remote
    → Client
    → String
    → String
    → (String → Option A)
    → Log
    → Result CallError A × (Client × Log)
trpc_query r c proc input decode log =
    if is_empty c.base_url
    then (err url_required, (c, log))
    else let first = first_method c.query_method in
      let o = query_via r c first proc input decode log in
      let alt = other_method first in
      let o' = query_via r c alt proc input decode o.1 in
      if method_not_allowed o.0
      then (o'.0, (learn c alt o'.0, o'.1))
      else (o.0, (learn c first o.0, o.1))

-- `trpc`, which decodes nothing for a mutation without a result.
unfoldable pub trpc_mutation :
    Remote → Client → String → String → Log → Result CallError (Unit {0}) × Log
trpc_mutation r c proc input log =
    if is_empty c.base_url
    then (err url_required, log)
    else let call = request c post_method (trpc proc) input in
      (read_reply r (λ payload. some tt) (r.respond log call), call ∷ log)

pub record Service : Type 0 where
  pub name : String
  pub kind : String
  pub project : String

pub record Inspected : Type 0 where
  pub project : String
  pub services : List Service

-- `MigrateInput`
pub record MigrateInput : Type 0 where
  pub local_project : String
  pub local_service : String
  pub remote_token : String
  pub remote_url : String
  pub remote_project : String
  pub remote_service : String

abbrev pub migrated : Remote → Option (ℕ × String) → Result CallError (Unit {0})
migrated r none = err call_failed
migrated r (some (status, raw)) =
    if is_success status
    then elim (r.succeeded raw) [
      | some false ↦ err (api_error (decode_api_error 502 (r.read_error raw)))
      | some true ↦ ok tt
      | none ↦ ok tt
    ]
    else err (api_error (decode_api_error status (r.read_error raw)))

-- The JSON of the requests and of the answers.
pub record Codec : Type 0 where
  pub project_input : String → String
  pub name_input : String → String
  pub migrate_input : MigrateInput → String
  pub read_inspected : String → Option Inspected
  pub read_projects : String → Option (List String)

-- `ListProjects`, `InspectProject`, `ProjectExists`, `CreateProject`, `Migrate`
unfoldable pub list_projects :
    Remote → Codec → Client → Log → Result CallError (List String) × (Client × Log)
list_projects r j c log = trpc_query r c "projects.listProjects" "{\"json\":{}}" j.read_projects log

unfoldable pub inspect_project :
    Remote → Codec → Client → String → Log → Result CallError Inspected × (Client × Log)
inspect_project r j c name log =
    trpc_query r c "projects.inspectProject" (j.project_input name) j.read_inspected log

abbrev pub exists_answer : Result CallError Inspected → Result CallError Bool
exists_answer (ok found) = ok true
exists_answer (err why) = if not_found_error why then ok false else err why

unfoldable pub project_exists :
    Remote → Codec → Client → String → Log → Result CallError Bool × (Client × Log)
project_exists r j c name log = let o = inspect_project r j c name log in (exists_answer o.0, o.1)

unfoldable pub create_project :
    Remote → Codec → Client → String → Log → Result CallError (Unit {0}) × Log
create_project r j c name log = trpc_mutation r c "projects.createProject" (j.name_input name) log

unfoldable pub migrate :
    Remote → Codec → Client → MigrateInput → Log → Result CallError (Unit {0}) × Log
migrate r j c input log =
    let call = request c post_method migrate_service (j.migrate_input input) in
    (migrated r (r.respond log call), call ∷ log)

-- `preferPOSTQuery` and `parseMajorMinor`; the text is trimmed, a prefix "v" dropped and the rest split at
-- its first two points by `parts`, and strconv.Atoi is `atoi`, with the sign of its result.
abbrev pub VersionPart : Type 0
VersionPart = Bool × ℕ

abbrev pub major_minor :
    (String → Option VersionPart) → List String → Option (VersionPart × VersionPart)
major_minor atoi (major ∷ minor ∷ more) = elim (atoi major) [
  | none ↦ none
  | some a ↦ elim (atoi minor) [ none ↦ none | some b ↦ some (a, b) ]
]
major_minor atoi _ = none

-- `v > n`, `v ≥ n` for a sign (true for a negative number) and a size
abbrev pub above : VersionPart → ℕ → Bool
above (true, size) n = false
above (false, size) n = ltb n size

unfoldable pub prefer_post_query :
    (String → Option VersionPart) → (String → List String) → String → Bool
prefer_post_query atoi parts version = elim (major_minor atoi (parts version)) [
  | none ↦ false
  | some ((negative, major), minor) ↦
      if not negative && major == 2 then above minor 31 else above (negative, major) 2
]

-- `New` and `NewForVersion`; the last "/" characters of the address are cut by `trim_url`.
unfoldable pub new_for_version :
    (String → Option VersionPart)
    → (String → List String)
    → (String → String)
    → String
    → String
    → String
    → Client
new_for_version atoi parts trim_url url token version = record {
  base_url = trim_url url;
  token = token;
  query_method = if prefer_post_query atoi parts version then some post_method else none;
}
