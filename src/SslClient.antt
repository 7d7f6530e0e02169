-- ===== src/SslClient.antt =====
-- pppd over TLS, the client's side (ssl_client.c).
use vpn_mgr.Base.{String, ◌<>◌, false, Option, none, some, List, ◌==◌, if◌then◌else◌}
use vpn_mgr.Base.Text.{valid}
use vpn_mgr.Ppp.{Ready, pppd_process}
use vpn_mgr.Process.{Stream, Env, M, ◌>>=◌, ◌>>◌, pure, emit, ask_stream, open_stream, print}
use vpn_mgr.Route.{route_setup_vpn_server}
use vpn_mgr.Vpn.{Vpn}

-- What the TLS stream tells of its certificate and its cipher.
pub record Session : Type 0 where
  pub cipher_details : String
  pub cipher_bits : String
  pub issuer : String
  pub common_name : String
  pub not_before : String
  pub not_after : String
  pub certificate_verify : String

-- The options of the TLS stream. Without a key file, the certificate's file holds the key.
unfoldable pub tls_options : Vpn → String
tls_options v =
    "rw SSL:CertFile="
    <> v.client_cert
    <> " SSL:KeyFile="
    <> (if valid v.client_key then v.client_key else v.client_cert)
    <> (if valid v.verify_cert then " SSL:VerifyFile=" <> v.verify_cert else "")
    <> (if valid v.ciphers then " SSL:PermittedCiphers=" <> v.ciphers else "")

-- A verified certificate makes it needless to verify the peer by ppp.
unfoldable pub verified_vpn : Session → Vpn → Vpn
verified_vpn t v = if t.certificate_verify == "OK" then record v { verify_peer = false } else v

unfoldable pub describe : Session → M (Unit {0})
describe t = do
  emit (
      print (
        "~mTLS/SSL:~0 ~gConnected~0 encryption: [" <> t.cipher_details <> " " <> t.cipher_bits
        <> " bit]\n"))
  emit (
      print (
        "~mTLS/SSL:~0 Server Certificate: issued by: [" <> t.issuer <> "] for [" <> t.common_name
        <> "] from [" <> t.not_before <> "] to [" <> t.not_after <> "]\n"))
  emit (
      print (
        if t.certificate_verify == "OK"
        then "~mTLS/SSL:~0 ~gCertificate Valid: This link is protected from man-in-the-middle attacks~0\n"
        else "~mTLS/SSL:~0 ~rCANNOT CONFIRM SERVER CERTIFICATE: " <> t.certificate_verify
          <> ". This link is vulnerable to man-in-the-middle-attacks~0\n"))

module _ (env : Env) (session : Stream → Session) where
  unfoldable pub run_tls : Vpn → List Ready → String → Option Stream → M (Unit {0})
  run_tls v events url none = emit (print ("~rFATAL:~0 Can't connect to [" <> url <> "]\n"))
  run_tls v events url (some s) = do
    describe (session s)
    pppd_process env (verified_vpn (session s) v) s events
    pure tt

  unfoldable pub ppp_ssl_client_vpn_up : Vpn → List Ready → M (Unit {0})
  ppp_ssl_client_vpn_up v events = do
    let url = env.unpack_url v.server
    route_setup_vpn_server env url.host
    let target = "tls:" <> url.host <> ":" <> url.port
    s ← ask_stream env (open_stream target (tls_options v))
    run_tls v events target s
