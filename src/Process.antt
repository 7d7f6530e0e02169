-- ===== src/Process.antt =====
-- The state of the process, what the outside world answers it, and actions on them.
-- GlobalFlags, FoundCommands, Passwords, RunCommandPasswordAttemptCount and Active are the
-- program's global variables (common.c, run_command.c, ssh.c).
pub mod Respects
pub mod Completes
pub mod Orderly
pub mod Ends
pub mod Keeps
pub mod Bind
use vpn_mgr.Base.{ℕ, String, Bool, Option, List, ◌∷◌}

-- `GlobalFlags`: one Bool for each bit. FLAG_LOCAL_SU is FLAG_SU, FLAG_LOCAL_SUDO is FLAG_SUDO.
pub record Flags : Type 0 where
  pub exit : Bool
  pub su : Bool
  pub sudo : Bool
  pub remote_su : Bool
  pub remote_sudo : Bool
  pub nodns : Bool
  pub debug : Bool
  pub verbose : Bool

-- What one read of a stream gives, and whether SIGINT arrived while the process waited for it.
pub record Read : Type 0 where
  pub line : String
  pub sigint : Bool

-- A `STREAM *`: its "PeerPID" value, and what is still to be read from it before it ends.
pub record Stream : Type 0 where
  pub id : ℕ
  pub peer_pid : String
  pub reads : List Read

pub data AccessMode : Type 0 where
  f_ok r_ok w_ok x_ok : AccessMode

pub data Signal : Type 0 where
  sigkill sigterm sigint other_signal : Signal

pub data LogLevel : Type 0 where
  log_error log_okay log_info log_plain : LogLevel

-- What the process does to the outside world.
pub data Event : Type 0 where
  print : String → Event
  log : LogLevel → String → String → Event
  open_stream : String → String → Event
  write : ℕ → String → Event
  close : ℕ → Event
  set_value : ℕ → String → String → Event
  prompt : String → Event
  access : String → AccessMode → Event
  make_dir copy_file chmod_file remove_dir : String → String → Event
  kill_process kill_group : String → Signal → Event
  wait_pid : String → Event
  read_bytes : ℕ → ℕ → Event
  read_file : String → Event
  get_uid get_euid : Event
  find_in_path : String → String → Event
  interface_ip : String → Event
  lookup_host : String → Event
  get_pid : Event
  random_text : Event
  user_name : Event
  host_name : Event
  list_files : String → Event
  set_env : String → String → Event

pub record Url : Type 0 where
  pub proto : String
  pub host : String
  pub port : String
  pub user : String

-- What the program uses of libUseful and of the system. An answer may depend on all that the
-- process has done so far, newest first.
pub record Env : Type 0 where
  -- `GetToken` in a loop: the items it gives for a text and a separator
  pub tokens : String → String → List String
  -- one call of `GetToken`: the item, and the rest of the text
  pub get_token : String → String → String × String
  -- `GetNameValuePair(line, " ", "=", …)` in a loop
  pub pairs : String → List (String × String)
  -- the lines that `STREAMReadLine` gives for a file's text
  pub read_lines : String → List String
  pub trim_left : String → String
  pub trim_right : String → String
  pub parse_duration : String → ℕ
  pub parse_url : String → Url
  pub unpack_url : String → Url
  -- `ListFindNamedItem` takes the name of a node for the one it looks for
  pub tag_matches : String → String → Bool
  pub base_name : String → String
  -- `MatchTokenFromList(token, list, 0) > -1`
  pub match_token : String → List String → Bool
  -- `StrRTruncChar`
  pub rtrunc_char : String → String → String
  pub home_dir : String
  -- `getenv("PATH")`
  pub search_path : String
  pub yes : List Event → Bool
  pub number : List Event → ℕ
  pub text : List Event → String
  pub texts : List Event → List String
  pub stream : List Event → Option Stream

-- The `STREAM *` in `Active`, with its "PeerPID". The pointer outlives `STREAMClose`, which frees what
-- it points to.
pub record ActiveStream : Type 0 where
  pub id : ℕ
  pub peer_pid : String
  pub closed : Bool

-- `ran` records the command lines handed to `RunCommand`, newest first. Nothing reads it.
pub record State : Type 0 where
  pub flags : Flags
  pub found : List (String × String)
  pub passwords : List (String × String)
  pub attempts : ℕ
  pub active : Option ActiveStream
  pub ran : List String
  pub trace : List Event

-- A call returns, or ends the process by `exit`, or faults on a pointer that is NULL or freed.
pub data Res {ℓ} (A : Type ℓ) : Type ℓ where
  ret : A → Res A
  stop : ℕ → Res A
  fault : Res A

abbrev pub M {ℓ} : Type ℓ → Type ℓ
M A = State → Res A × State

unfoldable pub pure : {A : Type 0} → A → M A
pure a s = (ret a, s)

unfoldable pub exit_with : {A : Type 0} → ℕ → M A
exit_with c s = (stop c, s)

unfoldable pub emit : Event → M (Unit {0})
emit e s = (ret tt, record s { trace = e ∷ s.trace })

unfoldable pub get_flags : M Flags
get_flags s = (ret s.flags, s)

unfoldable pub put_flags : Flags → M (Unit {0})
put_flags f s = (ret tt, record s { flags = f })

-- The event is recorded, and then the answer is read off.
unfoldable pub ask : {A : Type 0} → (List Event → A) → Event → M A
ask answer e s = let t = e ∷ s.trace in (ret (answer t), record s { trace = t })

module _ (env : Env) where
  abbrev pub ask_yes : Event → M Bool
  ask_yes = ask env.yes

  abbrev pub ask_number : Event → M ℕ
  ask_number = ask env.number

  abbrev pub ask_text : Event → M String
  ask_text = ask env.text

  abbrev pub ask_texts : Event → M (List String)
  ask_texts = ask env.texts

  abbrev pub ask_stream : Event → M (Option Stream)
  ask_stream = ask env.stream

module _ {A B : Type 0} where
  abbrev pub continue : Res A → (A → M B) → M B
  continue (ret a) f s = f a s
  continue (stop c) f s = (stop c, s)
  continue fault f s = (fault, s)

  infixl 10 ◌>>=◌ ◌>>◌
  -- Opening this opens the basic actions too.
  unfoldable pub ◌>>=◌ : M A → (A → M B) → M B
  unfolding pure exit_with emit get_flags put_flags ask
  ◌>>=◌ m f s = continue (m s).0 f (m s).1

  abbrev pub ◌>>◌ : M A → M B → M B
  m >> n = m >>= λ _. n
