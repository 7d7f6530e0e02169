-- ===== src/Examples/Links.antt =====
-- Links between a peer and pppd (ppp.c, ssl_server.c), and who is let in.
use vpn_mgr.Base.{String, ◌<>◌, ◌≡◌, refl, Bool, true, false, ◌==◌, none, some, List, [], ◌∷◌}
use vpn_mgr.Base.Chars.{case_eq, case_prefix, skip_space, drop}
use vpn_mgr.Base.Text.{concat}
use vpn_mgr.Net.Devices.{Device, nth_ip, devs_ip_exists, next_ip}
use vpn_mgr.Net.First.{FirstOrNone}
use vpn_mgr.Net.Laws.{next_ip_lem}
use vpn_mgr.Net.Names.{numbered, is_listed, net_dev_find_next_lem}
use vpn_mgr.Net.{net_dev_find_next}
use vpn_mgr.Ppp.Laws.{pppd_loop-file_text}
use vpn_mgr.Ppp.{Ready, from_pppd, from_peer, time_out, running, pppd_loop}
use vpn_mgr.Process.{Stream, Env, Event, Read, close, write, ret}
use vpn_mgr.Sample.{sample_env, start, stream_of}
use vpn_mgr.SslServer.Auth.Policy.{method_of, permits, authorized-permits}
use vpn_mgr.SslServer.Auth.{Client, authorized}
use vpn_mgr.SslServer.Connections.Laws.{Unlinked, ssl_process-closed, ssl_process-link_ends}
use vpn_mgr.SslServer.Connections.Pairs.{Paired, link_ends-Paired}
use vpn_mgr.SslServer.Connections.{Table, find_end, link_ends, ssl_process}
use vpn_mgr.Vpn.{Vpn, fresh, act_connect}
use vpn_mgr.VpnConfig.Written.{file_text}

abbrev env : Env
env = sample_env (λ trace. none) (λ trace. true)

abbrev gives : String → Read
gives text = record { line = text; sigint = false }

abbrev link_events : List Ready
link_events =
    from_pppd (gives "one") ∷ from_peer (gives "1") ∷ time_out false ∷ from_pppd (gives "two") ∷ []

abbrev link_vpn : Vpn
link_vpn = fresh act_connect "home" "ptls:vpn.example.com:443"

pppd_loop-file_text_example :
    let run = pppd_loop env link_vpn (stream_of 4 []) (stream_of 9 []) link_events true start in
    (run.0 ≡ ret running)
    × (file_text 9 run.1.trace ≡ file_text 9 [] <> concat ("one" ∷ "two" ∷ []))
    × (file_text 4 run.1.trace ≡ file_text 4 [] <> concat ("1" ∷ []))
pppd_loop-file_text_example =
    pppd_loop-file_text env link_vpn (stream_of 4 []) (stream_of 9 []) link_events start
      ((refl, refl), ((refl, refl), (refl, ((refl, refl), tt)))) refl refl

abbrev alice : Client
alice = record {
  id = 12;
  peer_ip = "192.0.2.7";
  common_name = "alice";
  certificate_verify = "OK";
  certificate_issuer = "example";
  cipher_details = "";
}

abbrev is_user : String → Bool
is_user name = name == "root"

authorized-permits_example :
    authorized env is_user "users:bob,alice" alice
    ≡ permits env is_user alice (method_of "users:bob,alice")
unfolding case_eq case_prefix skip_space drop
authorized-permits_example = authorized-permits env is_user alice "users:bob,alice"

abbrev linked : Table
linked = link_ends (some (stream_of 30 [])) alice []

ssl_process-closed_example :
    (table' : Table) × (earlier : List Event) × ((ssl_process linked 12 "" start).0 ≡ ret table')
    × ((ssl_process linked 12 "" start).1.trace ≡ close 12 ∷ close 30 ∷ earlier)
    × Unlinked 12 30 linked table'
unfolding link_ends find_end
ssl_process-closed_example = ssl_process-closed linked 12 30 _ start refl refl

ssl_process-link_ends_example :
    (ssl_process linked 12 "data" start
      ≡ (ret linked, record start { trace = write 30 "data" ∷ [] }))
    × (ssl_process linked 30 "data" start
        ≡ (ret linked, record start { trace = write 12 "data" ∷ [] }))
ssl_process-link_ends_example =
    ssl_process-link_ends (stream_of 30 []) alice [] "data" start refl refl

abbrev ppp_devices : List Device
ppp_devices =
    record { tag = "ppp0"; item = "172.16.0.2" } ∷ record { tag = "ppp1"; item = "172.16.0.3" } ∷ []

next_ip_lem_example :
    FirstOrNone
      (nth_ip "172.16.0")
      (devs_ip_exists ppp_devices)
      2
      255
      (next_ip "172.16.0" ppp_devices)
next_ip_lem_example = next_ip_lem "172.16.0" ppp_devices

-- The file /proc/net/dev, with two devices.
abbrev dev_file : Stream
dev_file = stream_of 5 (gives "lo" ∷ gives "tun0" ∷ [])

abbrev two_devices : Env
two_devices = sample_env (λ trace. some dev_file) (λ trace. true)

net_dev_find_next_lem_example :
    (name : String) × ((net_dev_find_next two_devices "tun" start).0 ≡ ret name)
    × FirstOrNone (numbered "tun") (is_listed two_devices dev_file.reads) 0 999 name
unfolding sample_env
net_dev_find_next_lem_example = net_dev_find_next_lem two_devices dev_file (λ t. refl) "tun" start

linked-Paired : Paired linked
unfolding find_end
linked-Paired = link_ends-Paired (stream_of 30 []) alice [] (λ x y h. absurd cc) refl refl refl
