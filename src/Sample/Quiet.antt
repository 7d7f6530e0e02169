-- ===== src/Sample/Quiet.antt =====
-- The outside world of a run in which nothing is read.
use vpn_mgr.Base.{false, []}
use vpn_mgr.Main.{Inputs}

abbrev pub no_inputs : Inputs
no_inputs = record {
  terminal = [];
  ppp = [];
  server = [];
  session = λ stream. record {
    cipher_details = "";
    cipher_bits = "";
    issuer = "";
    common_name = "";
    not_before = "";
    not_after = "";
    certificate_verify = "OK";
  };
  is_user = λ name. false;
}
