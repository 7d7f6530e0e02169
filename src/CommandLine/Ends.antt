-- ===== src/CommandLine/Ends.antt =====
-- How `ParseCommandLine` ends (command_line.c).
use vpn_mgr.Base.{
  String, ◌≡◌, refl, Bool, true, false, Bool-cases, inl, inr, Option, none, some, List, [], ◌∷◌,
  if◌then◌else◌, arith,
}
use vpn_mgr.Base.Chars.{case_eq}
use vpn_mgr.CommandLine.Laws.{accepts-empty}
use vpn_mgr.CommandLine.{
  Request, next, after, stored_name, is_server_url, accepts, refuse, command_line_valid,
  read_request, parse_options, with_options, parse_request, parse_command_line, connect_request,
  with_name, with_server, with_nothing, with_name_and_server,
}
use vpn_mgr.Process.Ends.{Ends, Ends-map, >>=-Ends}
use vpn_mgr.Process.{Env, State, ◌>>=◌, pure}
use vpn_mgr.Vpn.{Vpn, act_add, action_of, vpn_ctx_create}
use vpn_mgr.CommandLine.Faults.{
  Dangling, Nameless, Faulty, dangling, nameless, behind, parse_options-Ends,
}

module _ (env : Env) where
  refuse-Ends :
      (args : List String) (name : Option String) (s : State)
      → (name ≡ none → Nameless env args)
      → Ends (Faulty env args) (refuse env name s).0
  unfolding refuse ◌>>=◌
  refuse-Ends args none s h = nameless (h refl)
  refuse-Ends args (some name) s h = ground arith

  command_line_valid-Ends :
      (args : List String) (r : Request) (s : State)
      → (r.name ≡ none → accepts env r.action r.server ≡ false → Nameless env args)
      → Ends (Faulty env args) (command_line_valid env r.action r.name r.server s).0
  unfolding command_line_valid pure
  command_line_valid-Ends args r s h = elim (Bool-cases (accepts env r.action r.server)) [
    | inl fine ↦ rw fine tt
    | inr bad ↦ rw bad (refuse-Ends args r.name s (λ e. h e bad))
  ]

  with_options-Ends :
      (args rest : List String) (v : Option Vpn) (s : State)
      → (Dangling rest → Dangling args)
      → Ends (Faulty env args) (with_options env rest v s).0
  unfolding with_options pure
  with_options-Ends args rest none s k = tt
  with_options-Ends args rest (some v) s k =
      >>=-Ends (Faulty env args) (parse_options env rest v) _ s
        (Ends-map _ _ _ (λ d. dangling (k d)) (parse_options-Ends env rest v s)) (λ w t. tt)

  vpn_ctx_create-Ends :
      (F : Type 0) (action name server : String) (s : State)
      → Ends F (vpn_ctx_create action name server s).0
  unfolding vpn_ctx_create ◌>>=◌
  vpn_ctx_create-Ends F action name server s =
      elim (action_of action)
          as (λ a. action_of action ≡ a → Ends F (vpn_ctx_create action name server s).0) [
            | act_add ↦ λ e. rw (e, vpn_ctx_create) (ground arith)
            | other ↦ λ e. rw (e, vpn_ctx_create) tt
          ]
        refl

  made :
      (args : List String) (r : Request) (fine : Bool) (t : State)
      → (Dangling r.rest → Dangling args)
      → Ends
          (Faulty env args)
          ((if fine
              then vpn_ctx_create r.action (stored_name r.name) r.server >>= with_options env r.rest
              else pure none)
            t).0
  unfolding pure
  made args r true t k =
      >>=-Ends (Faulty env args) _ _ t
        (vpn_ctx_create-Ends (Faulty env args) r.action (stored_name r.name) r.server t)
        (λ v u. with_options-Ends args r.rest v u k)
  made args r false t k = tt

  -- What a request is at fault for.
  Blamed : List String → Request → Type 0
  Blamed args r =
      (r.name ≡ none → accepts env r.action r.server ≡ false → Nameless env args)
      × (Dangling r.rest → Dangling args)

  if-Blamed :
      (args : List String) (b : Bool) (x y : Request)
      → (b ≡ true → Blamed args x)
      → (b ≡ false → Blamed args y)
      → Blamed args (if b then x else y)
  if-Blamed args true x y h k = h refl
  if-Blamed args false x y h k = k refl

  parse_request-Ends :
      (args : List String) (r : Request) (s : State)
      → (r.name ≡ none → accepts env r.action r.server ≡ false → Nameless env args)
      → (Dangling r.rest → Dangling args)
      → Ends (Faulty env args) (parse_request env r s).0
  unfolding parse_request pure
  parse_request-Ends args r s h k =
      >>=-Ends (Faulty env args) _ _ s (command_line_valid-Ends args r s h)
        (λ fine t. made args r fine t k)

  past : (args : List String) → Dangling (after args) → Dangling args
  past [] d = d
  past (a ∷ args) d = behind a args d

  named-Blamed :
      (args : List String) (r : Request) (name : String)
      → r.name ≡ some name
      → (Dangling r.rest → Dangling args)
      → Blamed args r
  unfolding Blamed
  named-Blamed args r name e k = (λ n. absurd cc, k)

  accepted-Blamed :
      (args : List String) (r : Request)
      → accepts env r.action r.server ≡ true
      → (Dangling r.rest → Dangling args)
      → Blamed args r
  unfolding Blamed
  accepted-Blamed args r e k = (λ n f. absurd cc, k)

  accepts-url :
      (action server : String) → is_server_url server ≡ true → accepts env action server ≡ true
  unfolding accepts
  accepts-url action server h = ground arith

  connect_request-Blamed :
      (a : String) (args : List String) → Blamed (a ∷ args) (connect_request a args)
  unfolding connect_request
  connect_request-Blamed a args =
      if-Blamed (a ∷ args) (is_server_url (next args)) _ _
        (λ h.
          accepted-Blamed (a ∷ args) _ (accepts-url a (next args) h)
            (λ d. behind a args (past args d)))
        (λ h. named-Blamed (a ∷ args) _ (next args) refl (λ d. behind a args (past args d)))

  with_name-Blamed : (a : String) (args : List String) → Blamed (a ∷ args) (with_name a args)
  unfolding with_name
  with_name-Blamed a args =
      named-Blamed (a ∷ args) _ (next args) refl (λ d. behind a args (past args d))

  with_name_and_server-Blamed :
      (a : String) (args : List String) → Blamed (a ∷ args) (with_name_and_server a args)
  unfolding with_name_and_server
  with_name_and_server-Blamed a args =
      named-Blamed (a ∷ args) _ (next args) refl
        (λ d. behind a args (past args (past (after args) d)))

  with_nothing-Blamed :
      (a word : String) (args : List String) → Blamed (a ∷ args) (with_nothing word args)
  unfolding with_nothing
  with_nothing-Blamed a word args =
      accepted-Blamed (a ∷ args) _ (accepts-empty env word) (behind a args)

  with_server-Blamed :
      (a : String) (args : List String)
      → case_eq a "server" ≡ true
      → Blamed (a ∷ args) (with_server a args)
  unfolding Blamed with_server
  with_server-Blamed a args h =
      (λ n f. record { asked = h; refused = f }, λ d. behind a args (past args d))

  read_request-Blamed : (a : String) (args : List String) → Blamed (a ∷ args) (read_request a args)
  unfolding read_request
  read_request-Blamed a args =
      search
        (
          if-Blamed, connect_request-Blamed, with_name-Blamed, with_name_and_server-Blamed,
          with_nothing-Blamed, with_server-Blamed,
        )
        depth 40

  -- However the command line is, `ParseCommandLine` returns or ends the process with status 1,
  -- or the command line is at fault.
  pub parse_command_line-Ends :
      (args : List String) (s : State) → Ends (Faulty env args) (parse_command_line env args s).0
  unfolding parse_command_line Blamed read_request with_nothing case_eq
  parse_command_line-Ends [] s =
      parse_request-Ends [] (read_request "" []) s
        (λ n f. absurd (cc (f, accepts-empty env "help"))) (λ d. d)
  parse_command_line-Ends (a ∷ args) s =
      let (h, k) = read_request-Blamed a args in
      parse_request-Ends (a ∷ args) (read_request a args) s h k
