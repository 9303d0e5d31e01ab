-- ===== src/Easypanel/Detect.antt =====
-- `Detect`, `PanelVersion`, `PanelPublicURL`, `ExtractToken` and `DetectAndToken` of
-- internal/easypanel/detect.go. The runner of commands, the environment, strings.TrimSpace and
-- strings.TrimRight are arguments, and the lines of `docker ps` are split.
use text.Mathlib.Text.{starts_with}
use silent_devops.Prelude.{
  String, Bool, true, false, not, ◌||◌, Option, List, [], ◌∷◌, str_eq, if◌then◌else◌, Result, ok,
  err, ◌>>=◌, ◌>>◌, fail_if, or_fail,
}
use silent_devops.Easypanel.{Client, VersionPart, new_for_version}

pub record Host : Type 0 where
  pub run : List String → Option String
  pub env : String → String
  pub trim : String → String
  pub trim_url : String → String
  pub lines : String → List String

pub record Detection : Type 0 where
  pub present : Bool
  pub container : String
  pub base_url : String
  pub version : String
  pub public_url : String

pub data DetectError : Type 0 where
  command_failed no_container no_api_token not_detected : DetectError

-- The three programs that are run in the panel's container.
pub data Script : Type 0 where
  token_script version_script settings_script : Script

abbrev pub is_panel_name : String → Bool
is_panel_name name =
    starts_with name "easypanel.1." || (str_eq name "easypanel" || str_eq name "easypanel-app")

-- `panelContainer`
unfoldable pub panel_container : (String → String) → List String → String
panel_container trim [] = ""
panel_container trim (line ∷ lines) =
    let rest = panel_container trim lines in
    let name = trim line in if is_panel_name name then name else rest

-- `localURL`
abbrev pub local_url : Host → String
local_url h =
    let u = h.trim (h.env "EASYPANEL_URL") in
    if str_eq u "" then "http://127.0.0.1:3000" else h.trim_url u

-- A script in the container; its text is `text`.
unfoldable pub run_script : (Script → String) → Host → String → Script → Result DetectError String
run_script text h container script = do
  fail_if (str_eq container "") no_container
  out ←
      or_fail (h.run ("docker" ∷ "exec" ∷ container ∷ "node" ∷ "-e" ∷ text script ∷ []))
        command_failed
  ok (h.trim out)

-- `PanelVersion`, `PanelPublicURL`
abbrev pub panel_version : (Script → String) → Host → String → Result DetectError String
panel_version text h container = run_script text h container version_script

abbrev pub panel_public_url : (Script → String) → Host → String → Result DetectError String
panel_public_url text h container = run_script text h container settings_script

-- `ExtractToken`
unfoldable pub extract_token : (Script → String) → Host → String → Result DetectError String
extract_token text h container = do
  token ← run_script text h container token_script
  fail_if (str_eq token "") no_api_token
  ok token

abbrev pub text_of : Result DetectError String → String
text_of (err why) = ""
text_of (ok s) = s

abbrev pub absent : Detection
absent = record { present = false; container = ""; base_url = ""; version = ""; public_url = "" }

-- `Detect`
unfoldable pub detect : (Script → String) → Host → Result DetectError Detection
detect text h =
    let pinned = h.trim (h.env "EASYPANEL_CONTAINER") in
    if not (str_eq pinned "")
    then ok (record absent { present = true; container = pinned; base_url = local_url h })
    else do
      names ← or_fail (h.run ("docker" ∷ "ps" ∷ "--format" ∷ "{{.Names}}" ∷ [])) command_failed
      let container = panel_container h.trim (h.lines names)
      if str_eq container ""
          then ok absent
          else ok (record {
            present = true;
            container = container;
            base_url = local_url h;
            version = text_of (panel_version text h container);
            public_url = text_of (panel_public_url text h container);
          })

-- `DetectAndToken`
unfoldable pub detect_and_token :
    (Script → String)
    → Host
    → (String → Option VersionPart)
    → (String → List String)
    → Result DetectError (Client × Detection)
detect_and_token text h atoi parts = do
  found ← detect text h
  fail_if (not found.present) not_detected
  token ← extract_token text h found.container
  ok (new_for_version atoi parts h.trim_url found.base_url token found.version, found)
