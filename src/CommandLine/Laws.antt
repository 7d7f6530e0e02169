-- ===== src/CommandLine/Laws.antt =====
-- How `server` and the words in front of the options are taken (command_line.c).
use vpn_mgr.Base.{
  String, ◌≡◌, refl, ◌∙◌, sym, ap, true, false, none, some, List, ◌∷◌, ◌==◌, eq_iff, Bool-cases,
  inl, inr, arith,
}
use vpn_mgr.Base.Case.{case_eq_same}
use vpn_mgr.Base.Chars.{case_eq}
use vpn_mgr.Base.Text.{valid}
use vpn_mgr.CommandLine.{
  is_server_url, commands_needing_server, accepts, refuse, command_line_valid, read_request,
  with_server, with_name, with_options, parse_request, parse_command_line, Request,
}
use vpn_mgr.Process.{Env, State, ◌>>=◌, fault}
use vpn_mgr.Vpn.{act_connect, fresh, action_of, vpn_ctx_create}

differs :
    (a word : String)
    → case_eq a "delete" ≡ true
    → case_eq word "delete" ≡ false
    → (a == word) ≡ false
differs a word h w = elim (Bool-cases (a == word)) [
  | inl same ↦ absurd (cc (h, w, ap (λ x. case_eq x "delete") ((eq_iff a word).0 same)))
  | inr other ↦ other
]

-- `delete` in other letters than small ones is no action's name to `VpnCtxCreate`, which then
-- makes a context that connects.
action_of-delete :
    (a : String) → case_eq a "delete" ≡ true → (a == "delete") ≡ false → action_of a ≡ act_connect
unfolding action_of case_eq
action_of-delete a h n = rw (differs a "conf" h refl) (
    rw (differs a "config" h refl) (
      rw (differs a "add" h refl) (
        rw (differs a "del" h refl) (
          rw n (
            rw (differs a "server" h refl) (
              rw (differs a "list" h refl) (
                rw (differs a "protocols" h refl)
                  (rw (differs a "version" h refl) (rw (differs a "help" h refl) refl)))))))))

case_eq_trans : (a v w : String) → case_eq a v ≡ true → case_eq a w ≡ true → case_eq v w ≡ true
case_eq_trans a v w e f = sym (case_eq_same a v w e) ∙ f

case_differs :
    (key a word : String) → case_eq a key ≡ true → case_eq word key ≡ false → case_eq a word ≡ false
case_differs key a word h w = elim (Bool-cases (case_eq a word)) [
  | inl same ↦ absurd (cc (case_eq_trans a word key same h, w))
  | inr other ↦ other
]

named : String → String → List String → Request
named a name rest = record { action = a; name = some name; server = ""; rest = rest }

read_request-delete :
    (a name : String) (rest : List String)
    → case_eq a "delete" ≡ true
    → read_request a (name ∷ rest) ≡ named a name rest
unfolding read_request with_name case_eq named
read_request-delete a name rest h = rw (case_differs "delete" a "add" h refl) (
    rw (case_differs "delete" a "conf" h refl) (
      rw (case_differs "delete" a "config" h refl) (
        rw (case_differs "delete" a "list" h refl)
          (rw (case_differs "delete" a "del" h refl) (rw h refl)))))

-- A request without a URL passes `CommandLineValid`.
pub accepts-empty : (env : Env) (action : String) → accepts env action "" ≡ true
unfolding accepts
accepts-empty env action = ground arith

parse_request-named :
    (env : Env) (a name : String) (rest : List String) (s : State)
    → action_of a ≡ act_connect
    → parse_request env (named a name rest) s
      ≡ with_options env rest (some (fresh act_connect name "")) s
unfolding parse_request named command_line_valid vpn_ctx_create ◌>>=◌
parse_request-named env a name rest s h = rw (accepts-empty env a) (rw (h, vpn_ctx_create) refl)

-- The command line `delete name` with any letter of `delete` written large does not delete: the
-- arguments that follow are read as options into a context whose action is to connect, with that
-- name and no server.
parse_command_line-delete :
    (env : Env) (a name : String) (rest : List String) (s : State)
    → case_eq a "delete" ≡ true
    → (a == "delete") ≡ false
    → parse_command_line env (a ∷ name ∷ rest) s
      ≡ with_options env rest (some (fresh act_connect name "")) s
unfolding parse_command_line
parse_command_line-delete env a name rest s h n =
    rw (read_request-delete a name rest h)
      (parse_request-named env a name rest s (action_of-delete a h n))

served : String → String → List String → Request
served a url rest = record { action = a; name = none; server = url; rest = rest }

read_request-server :
    (a url : String) (rest : List String)
    → case_eq a "server" ≡ true
    → read_request a (url ∷ rest) ≡ served a url rest
unfolding read_request with_server case_eq served
read_request-server a url rest h = rw (case_differs "server" a "add" h refl) (
    rw (case_differs "server" a "conf" h refl) (
      rw (case_differs "server" a "config" h refl) (
        rw (case_differs "server" a "list" h refl) (
          rw (case_differs "server" a "del" h refl) (
            rw (case_differs "server" a "delete" h refl)
              (rw (case_differs "server" a "protocols" h refl) (rw h refl)))))))

refused :
    (env : Env) (a url : String)
    → env.match_token a commands_needing_server ≡ true
    → valid url ≡ true
    → is_server_url url ≡ false
    → accepts env a url ≡ false
unfolding accepts
refused env a url m c u = rw (m, accepts) (ground arith)

parse_request-refused :
    (env : Env) (a url : String) (rest : List String) (s : State)
    → accepts env a url ≡ false
    → parse_request env (served a url rest) s ≡ (fault, s)
unfolding parse_request served command_line_valid refuse ◌>>=◌
parse_request-refused env a url rest s h = rw h refl

-- The command line `server url` with a text that is not the URL of a server faults, in letters of
-- any size of `server` that `MatchTokenFromList` finds among the commands that need a URL: the
-- name was never set, and is tested as a URL for the choice of the message.
pub parse_command_line-server :
    (env : Env) (a url : String) (rest : List String) (s : State)
    → case_eq a "server" ≡ true
    → env.match_token a commands_needing_server ≡ true
    → valid url ≡ true
    → is_server_url url ≡ false
    → parse_command_line env (a ∷ url ∷ rest) s ≡ (fault, s)
unfolding parse_command_line
parse_command_line-server env a url rest s h m c u =
    rw (read_request-server a url rest h)
      (parse_request-refused env a url rest s (refused env a url m c u))
