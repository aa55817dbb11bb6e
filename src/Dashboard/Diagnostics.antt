-- ===== src/Dashboard/Diagnostics.antt =====
-- The checks and messages of the dashboard's server, apps/bun/src/bin/ui.ts.
use wormdb.Base.{
  Bool, if◌then◌else◌, ℕ, true, false, [], ◌∷◌, ◌++◌, none, some, Option, JsString, List, leb, ◌&&◌,
  ◌||◌, not,
}
use wormdb.Managed.Subscribe.{same_text}
use Prim.Native.String.{String}
use wormdb.Text.{decimal, codes}
use wormdb.Managed.Receive.{starts_with}

-- `Number.isInteger(value) && value >= 1 && value <= 65535` of a natural number.
unfoldable pub is_valid_port : ℕ → Bool
is_valid_port value = leb 1 value && leb value 65535

-- `command` is the request body's, none where it is missing; what is not a string does not come up.
pub record Diagnostic : Type 0 where
  pub code : Option JsString
  pub error : JsString
  pub hint : JsString

-- An error that was thrown: its `code` and what `message ?? String(err)` gives.
pub record Thrown : Type 0 where
  pub code : Option JsString
  pub message : JsString

abbrev pub has_code : String → Option JsString → Bool
has_code name none = false
has_code name (some c) = same_text c (codes name)

unfoldable pub format_connection_diagnostic : Thrown → JsString → ℕ → Diagnostic
format_connection_diagnostic e host port =
    let target = host ++ (58 ∷ decimal port) in
    if has_code "ECONNREFUSED" e.code
    then record {
      code = e.code;
      error = codes "Connection refused by WormDB at " ++ target ++ codes ".";
      hint =
          codes "Start WormDB and confirm it listens on "
          ++ target
          ++ codes " (default port is 6389).";
    }
    else if has_code "ENOTFOUND" e.code || has_code "EAI_AGAIN" e.code
    then record {
      code = e.code;
      error = codes "Unable to resolve WormDB host '" ++ host ++ codes "'.";
      hint = codes "Verify WORMDB_HOST and DNS/network configuration.";
    }
    else if has_code "ETIMEDOUT" e.code
    then record {
      code = e.code;
      error = codes "Timed out connecting to WormDB at " ++ target ++ codes ".";
      hint = codes "Verify firewall/routing and that WormDB is reachable from this machine.";
    }
    else if has_code "EHOSTUNREACH" e.code || has_code "ENETUNREACH" e.code
    then record {
      code = e.code;
      error = codes "Network unreachable for WormDB target " ++ target ++ codes ".";
      hint = codes "Check host reachability and local network routes.";
    }
    else record {
      code = e.code;
      error = codes "Failed to reach WormDB at " ++ target ++ codes ": " ++ e.message;
      hint = codes "Verify WORMDB_HOST/WORMDB_PORT and ensure WormDB is running.";
    }

-- `ADMIN_TOKEN` and the header `x-admin-token`.
unfoldable pub has_admin_access : Option JsString → Option JsString → Bool
has_admin_access none header = true
has_admin_access (some []) header = true
has_admin_access (some (c ∷ s)) none = false
has_admin_access (some (c ∷ s)) (some token) = same_text token (c ∷ s)

-- What a request for an action on a container leads to.
pub data DockerAnswer : Type 0 where
  refuses : ℕ → DockerAnswer
  runs : List JsString → DockerAnswer

abbrev pub is_empty : Option JsString → Bool
is_empty none = true
is_empty (some []) = true
is_empty (some (c ∷ s)) = false

abbrev pub or_empty : Option JsString → JsString
or_empty none = []
or_empty (some s) = s

unfoldable pub is_action : JsString → Bool
is_action a =
    same_text a (codes "stop") || (same_text a (codes "kill") || same_text a (codes "start"))

unfoldable pub docker_command : JsString → JsString → List JsString
docker_command action container =
    if same_text action (codes "stop")
    then codes "docker" ∷ codes "stop" ∷ codes "-t" ∷ codes "10" ∷ container ∷ []
    else if same_text action (codes "kill")
    then codes "docker" ∷ codes "kill" ∷ container ∷ []
    else codes "docker" ∷ codes "start" ∷ container ∷ []

-- POST /api/docker/container, up to the command.
unfoldable pub docker_container :
    Option JsString → Option JsString → Option JsString → Option JsString → DockerAnswer
docker_container admin header container action =
    if not (has_admin_access admin header)
    then refuses 401
    else if is_empty container || is_empty action
    then refuses 400
    else if not (is_action (or_empty action))
    then refuses 400
    else if not (starts_with (or_empty container) (codes "wormdb-"))
    then refuses 400
    else runs (docker_command (or_empty action) (or_empty container))

-- `handleDockerAction`, the same over a WebSocket: the command that is run, if any.
unfoldable pub handle_docker_action : Option JsString → Option JsString → Option (List JsString)
handle_docker_action container action =
    if is_empty container || is_empty action
    then none
    else if not (is_action (or_empty action))
    then none
    else if not (starts_with (or_empty container) (codes "wormdb-"))
    then none
    else some (docker_command (or_empty action) (or_empty container))
