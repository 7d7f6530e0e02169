-- ===== src/CommandLine/Documented.antt =====
-- The options with an argument as the help text lists them (help.c), and how they are read
-- (command_line.c).
use vpn_mgr.Base.{String, ◌≡◌, refl, ◌∙◌, sym, ap, ◌⊎◌, inl, inr, List, [], ◌∷◌}
use vpn_mgr.CommandLine.Kinds.{option_kind, text_option}
use vpn_mgr.CommandLine.{last_option, parse_options}
use vpn_mgr.Process.{Env, State, fault}
use vpn_mgr.Vpn.{Vpn}

-- What an option sets to its argument.
abbrev pub Setter : Type 0
Setter = Vpn → String → Vpn

-- The options that take a text, by what they set: the names that the help text gives for one thing
-- stand together. It writes `-remote-path` for the last, and shows no argument for `-ppp-auth`.
abbrev pub documented : List (List String × Setter)
documented =
    ("-c" ∷ "-conf" ∷ [], λ v x. record v { conf_file = x })
    ∷ ("-d" ∷ "-dev" ∷ "-ldev" ∷ "-local-dev" ∷ [], λ v x. record v { dev = x })
    ∷ ("-D" ∷ "-rdev" ∷ "-remote-dev" ∷ [], λ v x. record v { remote_dev = x })
    ∷ ("-a" ∷ [], λ v x. record v { allowed_ips = x })
    ∷ ("-A" ∷ [], λ v x. record v { remote_allowed_ips = x })
    ∷ ("-L" ∷ "-laddr" ∷ "-local-address" ∷ [], λ v x. record v { local_address = x })
    ∷ ("-R" ∷ "-raddr" ∷ "-remote-address" ∷ [], λ v x. record v { remote_address = x })
    ∷ ("-cert" ∷ [], λ v x. record v { client_cert = x })
    ∷ ("-key" ∷ "-k" ∷ [], λ v x. record v { client_key = x })
    ∷ ("-server-key" ∷ "-ca" ∷ [], λ v x. record v { verify_cert = x })
    ∷ ("-psk" ∷ [], λ v x. record v { pre_shared_key = x })
    ∷ ("-ciphers" ∷ [], λ v x. record v { ciphers = x })
    ∷ ("-up" ∷ [], λ v x. record v { up_file = x })
    ∷ ("-down" ∷ [], λ v x. record v { down_file = x })
    ∷ ("-user" ∷ [], λ v x. record v { user_name = x })
    ∷ ("-pass" ∷ "-passwd" ∷ "-password" ∷ "-pw" ∷ [], λ v x. record v { password = x })
    ∷ ("-dns" ∷ [], λ v x. record v { dns = x })
    ∷ ("-ppp-auth" ∷ [], λ v x. record v { ppp_auth = x })
    ∷ ("-id" ∷ "-cid" ∷ [], λ v x. record v { client_id = x })
    ∷ ("-auth" ∷ [], λ v x. record v { server_auth = x })
    ∷ ("-remote_path" ∷ [], λ v x. record v { remote_search_path = x })
    ∷ []

abbrev pub Among : String → List String → Type 0
Among a [] = ⊥
Among a (name ∷ names) = (a ≡ name) ⊎ Among a names

-- The option is one of the list, with what it sets.
abbrev pub Listed : String → Setter → List (List String × Setter) → Type 0
Listed a put [] = ⊥
Listed a put ((names, f) ∷ more) = (Among a names × (put ≡ f)) ⊎ Listed a put more

abbrev AllNamed : List String → Setter → Type 0
AllNamed [] f = Unit
AllNamed (name ∷ names) f = (option_kind name ≡ text_option f) × AllNamed names f

abbrev AllKnown : List (List String × Setter) → Type 0
AllKnown [] = Unit
AllKnown ((names, f) ∷ more) = AllNamed names f × AllKnown more

named :
    (names : List String) (f : Setter) (a : String)
    → AllNamed names f
    → Among a names
    → option_kind a ≡ text_option f
named [] f a all h = absurd h
named (name ∷ names) f a (k, all) (inl e) = rw e k
named (name ∷ names) f a (k, all) (inr there) = named names f a all there

known :
    (table : List (List String × Setter)) (a : String) (put : Setter)
    → AllKnown table
    → Listed a put table
    → option_kind a ≡ text_option put
known [] a put all h = absurd h
known ((names, f) ∷ more) a put (here, all) (inl (among, e)) =
    named names f a here among ∙ ap text_option (sym e)
known ((names, f) ∷ more) a put (here, all) (inr there) = known more a put all there

documented-AllKnown : AllKnown documented
unfolding option_kind
documented-AllKnown = search

-- An option of the list, with its argument.
pub record TextOption : Type 0 where
  pub arg : String
  pub put : Setter
  pub value : String
  pub listed : Listed arg put documented

-- The options as arguments, in front of more.
abbrev pub as_arguments : List TextOption → List String → List String
as_arguments [] more = more
as_arguments (o ∷ options) more = o.arg ∷ o.value ∷ as_arguments options more

-- The context with their fields set, from left to right.
abbrev pub applied : List TextOption → Vpn → Vpn
applied [] v = v
applied (o ∷ options) v = applied options (o.put v o.value)

-- The options that take a text, each under every name that the help text gives for it, with
-- `-remote_path` for its `-remote-path`, take the argument behind them, whatever it looks like, and
-- set the field that the help text describes, from left to right; the arguments behind all of them
-- are read as if they stood alone, into the context so changed.
pub parse_options-as_arguments :
    (env : Env) (options : List TextOption) (more : List String) (v : Vpn) (s : State)
    → parse_options env (as_arguments options more) v s
      ≡ parse_options env more (applied options v) s
unfolding parse_options
parse_options-as_arguments env [] more v s = refl
parse_options-as_arguments env (o ∷ options) more v s =
    rw (known documented o.arg o.put documented-AllKnown o.listed, parse_options)
      (parse_options-as_arguments env options more (o.put v o.value) s)

last-number :
    (env : Env) (a : String) (v : Vpn) (s : State)
    → (a ≡ "-mtu") ⊎ (a ≡ "-ppp-speed")
    → parse_options env (a ∷ []) v s ≡ (fault, s)
unfolding parse_options last_option option_kind
last-number env a v s (inl e) = rw e refl
last-number env a v s (inr e) = rw e refl

-- Behind any options that take a text, with their arguments, `-mtu` and `-ppp-speed` as the last argument fault, since `atoi` is
-- called with NULL.
pub parse_options-number :
    (env : Env) (options : List TextOption) (a : String) (v : Vpn) (s : State)
    → (a ≡ "-mtu") ⊎ (a ≡ "-ppp-speed")
    → parse_options env (as_arguments options (a ∷ [])) v s ≡ (fault, s)
parse_options-number env options a v s h =
    parse_options-as_arguments env options (a ∷ []) v s ∙ last-number env a (applied options v) s h
