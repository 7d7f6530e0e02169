-- ===== src/Vpn/Context.antt =====
-- `VpnCtxDestroy` and `VpnCtxLoadConfig` (vpn_ctx.c).
pub mod Laws
use vpn_mgr.Base.{String, Bool, false, Option, none, some, List, [], ◌∷◌, ◌==◌, if◌then◌else◌}
use vpn_mgr.Base.Chars.{case_eq}
use vpn_mgr.Process.{Read, Stream, Env, M, ◌>>=◌, ◌>>◌, pure, emit, ask_stream, open_stream, close}
use vpn_mgr.Vpn.{Vpn, vpn_ctx_create}

-- A member of the context that points to a text: NULL, a text, or a text that was freed.
pub data Pointer : Type 0 where
  null text dangling : Pointer

-- The pointers of a context, by the members' names.
abbrev pub Pointers : Type 0
Pointers = String → Pointer

abbrev pub set_pointer : Pointers → String → Pointer → Pointers
set_pointer p name new other = if name == other then new else p other

-- `Destroy`: NULL is left alone, and to free a text twice is a fault.
unfoldable pub destroy : Pointers → String → Option Pointers
destroy p name = elim (p name) [
  | null ↦ some p
  | text ↦ some (set_pointer p name dangling)
  | dangling ↦ none
]

unfoldable pub destroy_all : List String → Pointers → Option Pointers
destroy_all [] p = some p
destroy_all (name ∷ names) p = elim (destroy p name) [
  | none ↦ none
  | some p' ↦ destroy_all names p'
]

-- The members in the order of the calls of `Destroy`.
abbrev pub destroyed_members : List String
destroyed_members =
    "Name" ∷ "Server" ∷ "Dev" ∷ "RemoteDev" ∷ "Transport" ∷ "ServerAddress" ∷ "ConfFile" ∷ "UpFile"
    ∷ "DownFile" ∷ "LocalAddress" ∷ "RemoteAddress" ∷ "VerifyCert" ∷ "AllowedIPs"
    ∷ "RemoteAllowedIPs" ∷ "ClientCert" ∷ "ClientKey" ∷ "UserName" ∷ "Password" ∷ "VerifyCert"
    ∷ "PreSharedKey" ∷ "PrivSepUser" ∷ "PrivSepGroup" ∷ "Ciphers" ∷ "ClientID" ∷ "DNS" ∷ "PPPAuth"
    ∷ "ServerAuth" ∷ "RemoteSearchPath" ∷ []

-- `VpnCtxDestroy` of a context that is not NULL, without the `free` of the context itself.
unfoldable pub vpn_ctx_destroy : Pointers → Option Pointers
vpn_ctx_destroy = destroy_all destroyed_members

-- The chain of comparisons in `VpnCtxLoadConfig`.
unfoldable pub load_field : String → String → Vpn → Vpn
load_field key value v =
    if case_eq key "name"
    then record v { name = value }
    else if case_eq key "server"
    then record v { server = value }
    else if case_eq key "upfile"
    then record v { up_file = value }
    else if case_eq key "downfile"
    then record v { down_file = value }
    else if case_eq key "servercert"
    then record v { verify_cert = value }
    else if case_eq key "clientcert"
    then record v { client_cert = value }
    else if case_eq key "clientkey"
    then record v { client_key = value }
    else v

module _ (env : Env) where
  unfoldable pub load_config_lines : List Read → Vpn → Vpn
  load_config_lines [] v = v
  load_config_lines (r ∷ reads) v =
      let (key, value) = env.get_token (env.trim_right (env.trim_left r.line)) "=" in
      load_config_lines reads (load_field key value v)

  unfoldable pub load_into_new : Stream → Option Vpn → M (Option Vpn)
  load_into_new s none = emit (close s.id) >> pure none
  load_into_new s (some v) = emit (close s.id) >> pure (some (load_config_lines s.reads v))

  unfoldable pub load_opened : Option Stream → M (Option Vpn)
  load_opened none = pure none
  load_opened (some s) = vpn_ctx_create "" "" "" >>= load_into_new s

  -- The result, the caller's context, and the context that was made and is lost. The parameter
  -- `Vpn` is replaced by the new context before anything is stored, and `result` stays FALSE.
  unfoldable pub vpn_ctx_load_config : Vpn → String → M (Bool × Vpn × Option Vpn)
  vpn_ctx_load_config v path = do
    s ← ask_stream env (open_stream path "r")
    lost ← load_opened s
    pure (false, v, lost)
