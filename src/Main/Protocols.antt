-- ===== src/Main/Protocols.antt =====
-- Which protocols are said to be supported (main.c, run_command.c).
use Prim.Native.String.append
use mathlib.Core.Bool.{or-false}
use vpn_mgr.Base.{
  String, ◌<>◌, ◌≡◌, refl, ◌∙◌, ap, Bool, true, ◌&&◌, ◌||◌, List, [], ◌∷◌, map, any, Bool-cases,
  inl, inr, if◌then◌else◌,
}
use vpn_mgr.Base.Chars.{case_eq}
use vpn_mgr.Base.Text.{valid, concat, valid-cons, valid-append}
use vpn_mgr.Main.{missing, display_protocol_support}
use vpn_mgr.Process.{Env, State, ret, emit, print, ◌>>=◌, ◌>>◌}
use vpn_mgr.RunCommand.Format.{get_var, find_commands}
use vpn_mgr.RunCommand.Found.{Steady, sought, find_commands-known}

-- The items of a list for which a test fails.
abbrev pub lacking : (String → Bool) → List String → List String
lacking available [] = []
lacking available (p ∷ programs) =
    if available p then lacking available programs else p ∷ lacking available programs

-- What is said of a protocol with the programs that it lacks.
abbrev pub report : String → List String → String
report name [] = "  " <> name <> " supported\n"
report name (p ∷ programs) =
    "  "
    <> name
    <> " NOT supported. "
    <> concat (map (λ q. q <> " ") (p ∷ programs))
    <> " missing\n"

missing-lacking :
    (found : List (String × String)) (available : String → Bool) (programs : List String)
    → ((p : String) → valid (get_var p found) ≡ available p)
    → missing found programs ≡ concat (map (λ q. q <> " ") (lacking available programs))
unfolding missing concat
missing-lacking found available [] h = refl
missing-lacking found available (p ∷ programs) h = elim (Bool-cases (available p)) [
  | inl there ↦ rw (h p, there, append.nil) (missing-lacking found available programs h)
  | inr absent ↦
      rw (h p, absent) (ap (λ t. (p <> " ") <> t) (missing-lacking found available programs h))
]

valid-spaced : (p : String) → valid (p <> " ") ≡ true
valid-spaced String.[] = refl
valid-spaced (String.◌∷◌ c p) = valid-append (String.◌∷◌ c p) " " (valid-cons c p)

valid-lacking : (p rest : String) → valid ((p <> " ") <> rest) ≡ true
valid-lacking p rest = valid-append (p <> " ") rest (valid-spaced p)

report-concat :
    (name : String) (programs : List String)
    → (let lacks = concat (map (λ q. q <> " ") programs) in
        if valid lacks
        then "  " <> name <> " NOT supported. " <> lacks <> " missing\n"
        else "  " <> name <> " supported\n")
      ≡ report name programs
unfolding concat
report-concat name [] = refl
report-concat name (p ∷ programs) =
    rw (valid-lacking p (concat (map (λ q. q <> " ") programs))) refl

module _ (env : Env) (where_is : String → String) (commands : String) where
  -- A program that is searched for, in any spelling, and found.
  abbrev pub available : String → Bool
  available p = any (λ i. case_eq i p && valid (where_is i)) (env.tokens commands ",")

  found-available :
      (p : String) (s : State)
      → Steady env (env.search_path <> ":/sbin:/usr/sbin:/usr/local/sbin") where_is
      → s.found ≡ []
      → valid (get_var p (find_commands env commands s).1.found) ≡ available p
  unfolding get_var
  found-available p s h e =
      (find_commands-known env where_is commands p s h).1
      ∙ ap (λ m. sought where_is (env.tokens commands ",") p || valid (get_var p m)) e
      ∙ or-false (available p)

  -- If the search for a program gives the same path at any time and no program was known before:
  -- after `FindCommands`, `DisplayProtocolSupport` prints that a protocol is supported where each
  -- of its programs was searched for, in some spelling in upper and lower case, and found, and else
  -- that it is not, followed by the programs that are missing, in the order of the protocol's list;
  -- it does nothing else.
  pub display_protocol_support-find_commands :
      (name programs : String) (s : State)
      → Steady env (env.search_path <> ":/sbin:/usr/sbin:/usr/local/sbin") where_is
      → s.found ≡ []
      → (find_commands env commands >> display_protocol_support env name programs) s ≡ (
          let t = (find_commands env commands s).1 in
          (
            ret tt,
            record t {
              trace = print (report name (lacking available (env.tokens programs ","))) ∷ t.trace;
            },
          ))
  unfolding display_protocol_support emit ◌>>=◌
  display_protocol_support-find_commands name programs s h e =
      let t = (find_commands env commands s).1 in
      let items = env.tokens programs "," in
      rw ((find_commands-known env where_is commands "" s h).0) (
        ap (λ text. (ret tt, record t { trace = print text ∷ t.trace }))
          (ap
              (λ lacks.
                if valid lacks
                then "  " <> name <> " NOT supported. " <> lacks <> " missing\n"
                else "  " <> name <> " supported\n")
              (missing-lacking t.found available items (λ p. found-available p s h e))
            ∙ report-concat name (lacking available items)))
