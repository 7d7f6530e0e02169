-- ===== src/Sample.antt =====
-- A small libUseful: answers for the questions that the program asks it, on which the tests run.
pub mod Quiet
pub mod Reader
use Prim.Native.Char.{Char, code}
use vpn_mgr.Base.{
  ℕ, zero, suc, String, ◌==◌, Bool, true, false, ◌&&◌, Option, none, some, List, [], ◌∷◌, eqb, any,
  if◌then◌else◌,
}
use vpn_mgr.Base.Chars.{is_space}
use vpn_mgr.Process.{Env, Event, Flags, Read, Res, State, Stream, Url, ret, random_text}

-- Puts a byte in front of the first item.
attach : Char → List String → List String
attach c [] = (String.◌∷◌ c String.[]) ∷ []
attach c (l ∷ ls) = (String.◌∷◌ c l) ∷ ls

-- The lines of a text, each with its newline.
unfoldable pub split_lines : String → List String
unfolding attach
split_lines String.[] = []
split_lines (String.◌∷◌ c s) =
    let rest = split_lines s in
    if eqb (code c) 10 then (String.◌∷◌ c String.[]) ∷ rest else attach c rest

-- The items between commas.
unfoldable pub split_commas : String → List String
unfolding attach
split_commas String.[] = "" ∷ []
split_commas (String.◌∷◌ c s) =
    let rest = split_commas s in if eqb (code c) 44 then "" ∷ rest else attach c rest

-- `StripTrailingWhitespace`
unfoldable pub trim_end : String → String
unfolding is_space
trim_end String.[] = String.[]
trim_end (String.◌∷◌ c s) =
    let rest = trim_end s in
    if rest == "" && is_space (code c) then String.[] else String.◌∷◌ c rest

first_more : Char → Option (String × String) → Option (String × String)
first_more c none = none
first_more c (some (a, b)) = some (String.◌∷◌ c a, b)

-- The name and the value around the first `=`.
unfoldable pub split_equals : String → Option (String × String)
unfolding first_more
split_equals String.[] = none
split_equals (String.◌∷◌ c s) =
    let rest = split_equals s in if eqb (code c) 61 then some ("", s) else first_more c rest

abbrev pub as_list : Option (String × String) → List (String × String)
as_list none = []
as_list (some p) = p ∷ []

more_of_word : Char → String × String → String × String
more_of_word c (a, b) = (String.◌∷◌ c a, b)

-- The first word, and what stands behind the space.
unfoldable pub first_word : String → String × String
unfolding more_of_word
first_word String.[] = ("", "")
first_word (String.◌∷◌ c s) =
    let rest = first_word s in if eqb (code c) 32 then ("", s) else more_of_word c rest

abbrev pub no_url : Url
no_url = record { proto = ""; host = ""; port = ""; user = "" }

-- What is asked of the system gets these answers.
unfoldable pub sample_env : (List Event → Option Stream) → (List Event → Bool) → Env
unfolding split_lines split_commas first_word trim_end split_equals
sample_env stream agrees = record {
  tokens = λ text separator. split_commas text;
  get_token = λ text separator. first_word text;
  pairs = λ text. as_list (split_equals text);
  read_lines = split_lines;
  trim_left = λ text. text;
  trim_right = trim_end;
  parse_duration = λ text. 60;
  parse_url = λ text. no_url;
  unpack_url = λ text. no_url;
  tag_matches = λ a b. a == b;
  base_name = λ path. path;
  match_token = λ token list. any (λ item. item == token) list;
  rtrunc_char = λ text separator. text;
  home_dir = "/root";
  search_path = "/bin";
  yes = agrees;
  number = λ trace. 0;
  text = λ trace. "";
  texts = λ trace. [];
  stream = stream;
}

abbrev pub no_global_flags : Flags
no_global_flags = record {
  exit = false;
  su = false;
  sudo = false;
  remote_su = false;
  remote_sudo = false;
  nodns = false;
  debug = false;
  verbose = false;
}

abbrev pub start : State
start = record {
  flags = no_global_flags;
  found = ("route", "/sbin/route") ∷ [];
  passwords = [];
  attempts = 0;
  active = none;
  ran = [];
  trace = [];
}

abbrev pub stream_of : ℕ → List Read → Stream
stream_of id reads = record { id = id; peer_pid = ""; reads = reads }
