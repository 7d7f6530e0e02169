-- ===== src/Resolv.antt =====
-- The resolver's configuration (resolv.c).
use vpn_mgr.Base.{ℕ, String, ◌<>◌, Option, none, some, List, [], ◌∷◌}
use vpn_mgr.Base.Chars.{show}
use vpn_mgr.Process.{
  Stream, Env, M, ◌>>=◌, ◌>>◌, pure, emit, ask_number, ask_stream, get_pid, open_stream, write,
  close,
}
use vpn_mgr.RunCommand.Format.{cmd_asroot}
use vpn_mgr.RunCommand.Launch.{run_command}

unfoldable pub write_servers : ℕ → List String → M (Unit {0})
write_servers id [] = pure tt
write_servers id (server ∷ servers) =
    emit (write id ("nameserver " <> server <> "\n")) >> write_servers id servers

unfoldable pub write_resolv : List String → Option Stream → M (Unit {0})
write_resolv servers none = pure tt
write_resolv servers (some s) = write_servers s.id servers >> emit (close s.id)

module _ (env : Env) where
  unfoldable pub resolv_change : String → M (Unit {0})
  resolv_change nameservers = do
    pid ← ask_number env get_pid
    let path = "/tmp/vpn_mgr-" <> show pid <> ".resolv.conf"
    s ← ask_stream env (open_stream path "w")
    write_resolv (env.tokens nameservers ",") s
    run_command env "mv /etc/resolv.conf /etc/vpn_mgr.resolv.save" cmd_asroot
    run_command env ("mv -f " <> path <> " /etc/resolv.conf") cmd_asroot
    pure tt

  unfoldable pub resolv_restore : M (Unit {0})
  resolv_restore = do
    run_command env "mv /etc/vpn_mgr.resolv.save /etc/resolv.conf" cmd_asroot
    pure tt
