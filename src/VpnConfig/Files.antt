-- ===== src/VpnConfig/Files.antt =====
-- `PathValid`, `AddConfig`, `ListConfigs` and `DeleteConfig` (vpn_config.c).
use vpn_mgr.Base.{
  String, ◌<>◌, Bool, true, false, not, Option, none, some, List, [], ◌∷◌, if◌then◌else◌,
}
use vpn_mgr.Base.Text.{valid}
use vpn_mgr.Process.{
  Env, M, ◌>>=◌, ◌>>◌, pure, emit, ask_yes, ask_texts, print, access, f_ok, r_ok, make_dir,
  copy_file, chmod_file, remove_dir, list_files,
}
use vpn_mgr.Vpn.{Vpn, vpn_ctx_create}
use vpn_mgr.VpnConfig.Read.{read_config}
use vpn_mgr.VpnConfig.Write.{write_config}

abbrev pub conf_dir : String → String → String
conf_dir home name = home <> "/.config/vpn_mgr/" <> name <> "/"

module _ (env : Env) where
  unfoldable pub path_valid : String → M Bool
  path_valid path = if not (valid path) then pure false else do
    exists ← ask_yes env (access path f_ok)
    if not exists
        then emit (print ("ERROR: File [" <> path <> "] does not exist\n")) >> pure false
        else do
          readable ← ask_yes env (access path r_ok)
          if not readable
              then emit (print ("ERROR: File [" <> path <> "] is not readable\n")) >> pure false
              else pure true

  -- Copies a file into the configuration's directory, and gives the path that the context holds
  -- from then on.
  unfoldable pub keep_copy : String → String → M String
  keep_copy path copy = do
    fine ← path_valid path
    if fine
        then emit (copy_file path copy) >> emit (chmod_file copy "0600") >> pure copy
        else pure path

  unfoldable pub add_config : Vpn → M Vpn
  add_config v = do
    let dir = conf_dir env.home_dir v.name
    emit (make_dir dir "0700")
    cert ← keep_copy v.client_cert (dir <> v.name <> ".crt")
    key ← keep_copy v.client_key (dir <> v.name <> ".key")
    verify ← keep_copy v.verify_cert (dir <> v.name <> ".server")
    let v' = record v { client_cert = cert; client_key = key; verify_cert = verify }
    write_config env v'
    pure v'

  unfoldable pub list_context : Option Vpn → M (Unit {0})
  list_context none = pure tt
  list_context (some v) = do
    v' ← read_config env v
    emit (print (v'.name <> " " <> v'.server <> "\n"))

  unfoldable pub list_paths : List String → M (Unit {0})
  list_paths [] = pure tt
  list_paths (path ∷ paths) =
      (vpn_ctx_create "" (env.rtrunc_char (env.base_name path) ".") "" >>= list_context)
      >> list_paths paths

  unfoldable pub list_configs : M (Unit {0})
  list_configs = do
    paths ← ask_texts env (list_files (env.home_dir <> "/.config/vpn_mgr/*/*.conf"))
    list_paths paths

  unfoldable pub delete_config : Vpn → M (Unit {0})
  delete_config v = emit (remove_dir (conf_dir env.home_dir v.name) "")
