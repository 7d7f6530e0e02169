-- ===== src/UpDown/Commands.antt =====
-- The commands of a link that comes up or goes down, as lists (updown.c, net.c, route.c,
-- resolv.c).
use vpn_mgr.Base.{ℕ, String, ◌<>◌, ◌≡◌, Bool, not, ◌&&◌, List, [], ◌∷◌, ◌++◌, map, if◌then◌else◌}
use vpn_mgr.Base.Chars.{show}
use vpn_mgr.Base.Text.{valid}
use vpn_mgr.Net.{is_connect}
use vpn_mgr.Process.{Event, Env, access, x_ok, get_pid}
use vpn_mgr.Route.Laws.{command_for}
use vpn_mgr.UpDown.{script_command}
use vpn_mgr.Vpn.{Vpn}

-- What does not change while the program runs: its process id, and which scripts it may execute.
pub record Steady (env : Env) : Type 0 where
  pub pid : ℕ
  pub executable : String → Bool
  pub is_pid : (t : List Event) → env.number (get_pid ∷ t) ≡ pid
  pub is_executable :
      (script : String) (t : List Event) → env.yes (access script x_ok ∷ t) ≡ executable script

abbrev pub address_commands : Vpn → String → List String
address_commands v dev =
    if not (valid v.local_address)
    then []
    else ("ifconfig "
        <> dev
        <> " "
        <> v.local_address
        <> (if valid v.remote_address then " pointopoint " <> v.remote_address else ""))
      ∷ []

abbrev pub route_commands : Env → Vpn → String → List String
route_commands env v dev =
    if is_connect v.action && valid v.allowed_ips
    then map (command_for env dev) (env.tokens v.allowed_ips ",")
    else []

abbrev pub resolver_commands : Bool → Vpn → ℕ → List String
resolver_commands nodns v pid =
    if not nodns && valid v.dns
    then "mv /etc/resolv.conf /etc/vpn_mgr.resolv.save"
      ∷ ("mv -f " <> ("/tmp/vpn_mgr-" <> show pid <> ".resolv.conf") <> " /etc/resolv.conf")
      ∷ []
    else []

-- The scripts of a list that may be executed.
abbrev pub runnable : (String → Bool) → List String → List String
runnable executable [] = []
runnable executable (script ∷ more) =
    if executable script then script ∷ runnable executable more else runnable executable more

abbrev pub script_commands : Env → (String → Bool) → Vpn → String → String → List String
script_commands env executable v dev files =
    if valid files
    then map (script_command v dev) (runnable executable (env.tokens files ":"))
    else []

-- The address, the routes, the name servers, and then the scripts.
abbrev pub up_commands : (env : Env) → Steady env → Bool → Vpn → String → List String
up_commands env steady nodns v dev =
    (address_commands v dev ++ (route_commands env v dev ++ resolver_commands nodns v steady.pid))
    ++ script_commands env steady.executable v dev v.up_file

abbrev pub down_commands : (env : Env) → Steady env → Vpn → String → List String
down_commands env steady v dev =
    (("ifconfig " <> dev <> " down") ∷ ("ip link delete dev " <> dev) ∷ [])
    ++ script_commands env steady.executable v dev v.down_file
