-- ===== src/Process/Keeps.antt =====
-- What most of the program's actions leave alone in the process's global state.
use vpn_mgr.Base.{◌≡◌, refl, ◌∙◌, true, false}
use vpn_mgr.Process.{State}
use vpn_mgr.Process.Respects.{Preorder}

-- The commands run so far are the same, and so are the programs found; `FLAG_EXIT` stays set once
-- it is, `FLAG_SU` and `FLAG_NODNS` do not change, and `FLAG_SUDO` stays clear once it is.
pub record Keeps (s t : State) : Type 0 where
  pub ran : t.ran ≡ s.ran
  pub found : t.found ≡ s.found
  pub nodns : t.flags.nodns ≡ s.flags.nodns
  pub exit : s.flags.exit ≡ true → t.flags.exit ≡ true
  pub su : t.flags.su ≡ s.flags.su
  pub sudo : s.flags.sudo ≡ false → t.flags.sudo ≡ false

pub keeps : Preorder Keeps
keeps = record {
  same = λ s. record {
    ran = refl;
    found = refl;
    nodns = refl;
    exit = λ h. h;
    su = refl;
    sudo = λ h. h;
  };
  chain = λ s t u p q. record {
    ran = q.ran ∙ p.ran;
    found = q.found ∙ p.found;
    nodns = q.nodns ∙ p.nodns;
    exit = λ h. q.exit (p.exit h);
    su = q.su ∙ p.su;
    sudo = λ h. q.sudo (p.sudo h);
  };
  traced = λ s t. record {
    ran = refl;
    found = refl;
    nodns = refl;
    exit = λ h. h;
    su = refl;
    sudo = λ h. h;
  };
}
