-- ===== src/RunCommand/Found.antt =====
-- The programs that `FindCommands` finds (run_command.c).
use mathlib.Core.Bool.{or-true}
use vpn_mgr.Base.{
  String, ◌<>◌, ◌≡◌, refl, ◌∙◌, sym, ap, Bool, true, false, ◌&&◌, ◌||◌, List, [], ◌∷◌, any,
  Bool-cases, inl, inr, if◌then◌else◌,
}
use vpn_mgr.Base.Case.{case_eq_sym, case_eq_same}
use vpn_mgr.Base.Chars.{case_eq}
use vpn_mgr.Base.Text.{valid}
use vpn_mgr.Process.{Env, Event, State, ret, pure, ask, ◌>>=◌, find_in_path}
use vpn_mgr.RunCommand.Format.{get_var, set_var, add_found, find_all, find_commands}

apart : (j k x : String) → case_eq j k ≡ false → case_eq k x ≡ true → case_eq j x ≡ false
apart j k x h e = case_eq_sym j x ∙ sym (case_eq_same k x j e) ∙ case_eq_sym k j ∙ h

get_var-set_var_same :
    (x k v : String) (m : List (String × String))
    → case_eq k x ≡ true
    → get_var x (set_var k v m) ≡ v
unfolding get_var set_var
get_var-set_var_same x k v [] h = rw h refl
get_var-set_var_same x k v ((j, w) ∷ m) h = elim (Bool-cases (case_eq j k)) [
  | inl same ↦ rw same (rw (case_eq_same j k x same ∙ h) refl)
  | inr other ↦ rw other (rw (apart j k x other h) (get_var-set_var_same x k v m h))
]

get_var-set_var_other :
    (x k v : String) (m : List (String × String))
    → case_eq k x ≡ false
    → get_var x (set_var k v m) ≡ get_var x m
unfolding get_var set_var
get_var-set_var_other x k v [] h = rw h refl
get_var-set_var_other x k v ((j, w) ∷ m) h = elim (Bool-cases (case_eq j k)) [
  | inl same ↦ rw same (rw (case_eq_same j k x same ∙ h) refl)
  | inr other ↦
      rw other (ap (λ rest. if case_eq j x then w else rest) (get_var-set_var_other x k v m h))
]

-- Where the search for a program gives the same path at any time.
abbrev pub Steady : Env → String → (String → String) → Type 0
Steady env path where_is =
    (item : String) (t : List Event) → env.text (find_in_path item path ∷ t) ≡ where_is item

-- Whether the search for the programs of a list finds one of that name, in any spelling.
abbrev pub sought : (String → String) → List String → String → Bool
sought where_is items x = any (λ i. case_eq i x && valid (where_is i)) items

module _ (env : Env) (path : String) (where_is : String → String) where
  step : List (String × String) → String → List (String × String)
  step found item = if valid (where_is item) then set_var item (where_is item) found else found

  known-step :
      (items : List String) (item x : String) (found : List (String × String))
      → (sought where_is items x || valid (get_var x (step found item)))
        ≡ (sought where_is (item ∷ items) x || valid (get_var x found))
  unfolding step
  known-step items item x found = elim (Bool-cases (valid (where_is item))) [
    | inl there ↦ elim (Bool-cases (case_eq item x)) [
      | inl same ↦
          rw (there, same, get_var-set_var_same x item (where_is item) found same, there)
            (or-true (sought where_is items x))
      | inr other ↦ rw (there, other, get_var-set_var_other x item (where_is item) found other) refl
    ]
    | inr absent ↦ elim (Bool-cases (case_eq item x)) [
      | inl same ↦ rw (absent, same) refl
      | inr other ↦ rw (absent, other) refl
    ]
  ]

  -- The state once the answer for a program was taken in.
  abbrev after : String → State → State
  after item s =
      if valid (where_is item) then record s { found = set_var item (where_is item) s.found } else s

  found-after : (item : String) (s : State) → (after item s).found ≡ step s.found item
  unfolding step
  found-after item s = elim (Bool-cases (valid (where_is item))) [
    | inl there ↦ rw there refl
    | inr absent ↦ rw absent refl
  ]

  find_all-known :
      (items : List String) (x : String) (s : State)
      → Steady env path where_is
      → ((find_all env path items s).0 ≡ ret tt)
        × (valid (get_var x (find_all env path items s).1.found)
            ≡ (sought where_is items x || valid (get_var x s.found)))
  unfolding find_all add_found ask pure ◌>>=◌
  find_all-known [] x s h = (refl, refl)
  find_all-known (item ∷ items) x s h =
      let t = record s { trace = find_in_path item path ∷ s.trace } in
      let (r, k) = find_all-known items x (after item t) h in
      rw (h item s.trace) (
        r,
        k
            ∙ ap (λ m. sought where_is items x || valid (get_var x m)) (found-after item t)
            ∙ known-step items item x s.found,
      )

-- Where the search for a program gives the same path at any time, `FindCommands` returns, and a
-- path is then known for a program if the search gives one for a program of the list that has the
-- name in some spelling, or if one was known before.
pub find_commands-known :
    (env : Env) (where_is : String → String) (commands x : String) (s : State)
    → Steady env (env.search_path <> ":/sbin:/usr/sbin:/usr/local/sbin") where_is
    → ((find_commands env commands s).0 ≡ ret tt)
      × (valid (get_var x (find_commands env commands s).1.found)
          ≡ (sought where_is (env.tokens commands ",") x || valid (get_var x s.found)))
unfolding find_commands
find_commands-known env where_is commands x s h =
    find_all-known env _ where_is (env.tokens commands ",") x s h
