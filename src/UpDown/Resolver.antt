-- ===== src/UpDown/Resolver.antt =====
-- The name servers' file through a link's life (resolv.c).
pub mod Moving
use mathlib.Core.List.{reverse_aux}
use vpn_mgr.Base.{
  ℕ, String, ◌<>◌, ◌≡◌, refl, ◌∙◌, ap, Bool, ◌||◌, none, some, List, [], ◌∷◌, ◌++◌, ◌==◌,
  if◌then◌else◌,
}
use vpn_mgr.Process.{Env, State, Res, ret, stop, fault}
use vpn_mgr.Resolv.{resolv_change, resolv_restore}
use vpn_mgr.RunCommand.Runs.{CarriedOut, Runs}
use vpn_mgr.UpDown.Commands.{Steady}
use vpn_mgr.UpDown.Plan.{resolv_change-Runs, one_command}
use Moving.{
  Files, moved, resolv_conf, resolv_save, new_resolv, changed, put_back, changed-save, changed-conf,
  changed-new, put_back-path,
}
use vpn_mgr.Vpn.{Vpn}

-- What the programs that are run do to the files: `mv` moves.
pub record Moves (effect : String → Files → Files) (pid : ℕ) : Type 0 where
  pub save :
      (files : Files)
      → effect "mv /etc/resolv.conf /etc/vpn_mgr.resolv.save" files
        ≡ moved resolv_conf resolv_save files
  pub install :
      (files : Files)
      → effect ("mv -f " <> new_resolv pid <> " /etc/resolv.conf") files
        ≡ moved (new_resolv pid) resolv_conf files
  pub restore :
      (files : Files)
      → effect "mv /etc/vpn_mgr.resolv.save /etc/resolv.conf" files
        ≡ moved resolv_save resolv_conf files

-- The files after all commands of a record, which has the newest first.
abbrev pub files_after : (String → Files → Files) → Files → List String → Files
files_after effect files [] = files
files_after effect files (command ∷ earlier) = effect command (files_after effect files earlier)

carried_out :
    {A : Type 0} (commands : List String) (s t : State) (r : Res A) (a : A)
    → r ≡ ret a
    → CarriedOut commands s r t
    → t.ran ≡ reverse_aux commands s.ran
carried_out commands s t (ret b) a e h = h.ran
carried_out commands s t (stop c) a e h = absurd cc
carried_out commands s t fault a e h = absurd cc

module _ (env : Env) where
  resolv_restore-Runs :
      (nodns : Bool)
      → Runs nodns (resolv_restore env) ("mv /etc/vpn_mgr.resolv.save /etc/resolv.conf" ∷ [])
  unfolding resolv_restore
  resolv_restore-Runs nodns = one_command env nodns "mv /etc/vpn_mgr.resolv.save /etc/resolv.conf"

-- The commands of the two functions, newest first.
abbrev change_commands : ℕ → List String
change_commands pid =
    ("mv -f " <> new_resolv pid <> " /etc/resolv.conf")
    ∷ "mv /etc/resolv.conf /etc/vpn_mgr.resolv.save"
    ∷ []

abbrev restore_commands : ℕ → List String
restore_commands pid = "mv /etc/vpn_mgr.resolv.save /etc/resolv.conf" ∷ change_commands pid

module _ (effect : String → Files → Files) (pid : ℕ) (moves : Moves effect pid)
    (files : Files) where
  files_after-change : files_after effect files (change_commands pid) ≡ changed pid files
  files_after-change = moves.install _ ∙ ap (moved (new_resolv pid) resolv_conf) (moves.save files)

  files_after-restore : files_after effect files (restore_commands pid) ≡ put_back pid files
  files_after-restore = moves.restore _ ∙ ap (moved resolv_save resolv_conf) files_after-change

module _ (env : Env) (steady : Steady env) (v : Vpn) (effect : String → Files → Files)
    (moves : Moves effect steady.pid) (s : State) (files : Files) (old : String)
    (there : files resolv_conf ≡ some old) (returned : (resolv_change env v.dns s).0 ≡ ret tt) where
  change-ran : (resolv_change env v.dns s).1.ran ≡ change_commands steady.pid ++ s.ran
  change-ran =
      carried_out _ s _ _ tt returned ((resolv_change-Runs env s.flags.nodns steady v).at s refl)

  -- If the process id is always the same and so is the answer whether a script may be executed, the
  -- three `mv` commands move files, /etc/resolv.conf and the new file in /tmp are there, and
  -- `ResolvChange` returns: the commands that it has handed to `RunCommand` leave the new file's
  -- text in /etc/resolv.conf and the former text of /etc/resolv.conf in /etc/vpn_mgr.resolv.save,
  -- whatever was saved there before, and no new file.
  pub resolv_change-files :
      (new : String)
      → files (new_resolv steady.pid) ≡ some new
      → (commands : List String) × ((resolv_change env v.dns s).1.ran ≡ commands ++ s.ran)
        × (files_after effect files commands resolv_conf ≡ some new)
        × (files_after effect files commands resolv_save ≡ some old)
        × (files_after effect files commands (new_resolv steady.pid) ≡ none)
  resolv_change-files new made =
      let pid = steady.pid in
      let at =
        λ (path : String). ap (λ (f : Files). f path) (files_after-change effect pid moves files) in
      (
        change_commands pid,
        change-ran,
        at resolv_conf ∙ changed-conf pid files old there new made,
        at resolv_save ∙ changed-save pid files old there,
        at (new_resolv pid) ∙ changed-new pid files old there new made,
      )

  -- If the process id is always the same and so is the answer whether a script may be executed, the
  -- three `mv` commands move files, and `ResolvChange` and behind it `ResolvRestore` return: the
  -- commands that the two have handed to `RunCommand`, carried out on any files among which is
  -- /etc/resolv.conf, leave every file as it was, but that /etc/vpn_mgr.resolv.save and the new
  -- file in /tmp are gone.
  pub resolv_restore-resolv_change :
      (resolv_restore env (resolv_change env v.dns s).1).0 ≡ ret tt
      → (commands : List String) × ((resolv_restore env (resolv_change env v.dns s).1).1.ran
          ≡ commands ++ s.ran)
        × ((path : String)
            → files_after effect files commands path
              ≡ (if path == resolv_save || path == new_resolv steady.pid then none else files path))
  resolv_restore-resolv_change back =
      let pid = steady.pid in
      let t = (resolv_change env v.dns s).1 in
      (
        restore_commands pid,
        carried_out _ t _ _ tt back ((resolv_restore-Runs env t.flags.nodns).at t refl)
            ∙ ap (λ ran. "mv /etc/vpn_mgr.resolv.save /etc/resolv.conf" ∷ ran) change-ran,
        λ path.
            ap (λ (f : Files). f path) (files_after-restore effect pid moves files)
            ∙ put_back-path pid files old there path,
      )
