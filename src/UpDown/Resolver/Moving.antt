-- ===== src/UpDown/Resolver/Moving.antt =====
-- Moving files, and the three files of ResolvChange and ResolvRestore (resolv.c).
use vpn_mgr.Base.{
  ℕ, String, ◌<>◌, ◌≡◌, refl, ◌∙◌, sym, ap, false, ◌||◌, Option, none, some, ◌==◌, eq_iff, eq_refl,
  Bool-cases, inl, inr, if◌then◌else◌,
}
use vpn_mgr.Base.Chars.{show}
use vpn_mgr.Base.Text.{strip_prefix, strip_prefix-append}

-- The texts of files by path.
abbrev pub Files : Type 0
Files = String → Option String

-- The files once one was moved, if it is there.
abbrev pub moved : String → String → Files → Files
moved from to files path = elim (files from) [
  | none ↦ files path
  | some text ↦ if path == to then some text else if path == from then none else files path
]

abbrev pub resolv_conf : String
resolv_conf = "/etc/resolv.conf"

abbrev pub resolv_save : String
resolv_save = "/etc/vpn_mgr.resolv.save"

abbrev pub new_resolv : ℕ → String
new_resolv pid = "/tmp/vpn_mgr-" <> show pid <> ".resolv.conf"

module _ (files : Files) (from to text : String) (there : files from ≡ some text) where
  moved-to : moved from to files to ≡ some text
  moved-to = rw (there, moved) (rw (eq_refl to) refl)

  moved-from : (from == to) ≡ false → moved from to files from ≡ none
  moved-from h = rw (there, moved) (rw (h, eq_refl from) refl)

moved-other :
    (files : Files) (from to path : String)
    → (path == to) ≡ false
    → (path == from) ≡ false
    → moved from to files path ≡ files path
moved-other files from to path h k =
    elim (files from)
      as (λ o.
        (elim o [
          | none ↦ files path
          | some text ↦ if path == to then some text else if path == from then none else files path
        ])
        ≡ files path) [ none ↦ refl | some text ↦ rw (h, k) refl ]

differs : (a b : String) → (a ≡ b → ⊥) → (a == b) ≡ false
differs a b h = elim (Bool-cases (a == b)) [
  | inl same ↦ absurd (h ((eq_iff a b).0 same))
  | inr other ↦ other
]

-- The new file is none of those below another directory.
new-ne :
    (pid : ℕ) (path : String) → strip_prefix "/tmp/vpn_mgr-" path ≡ none → new_resolv pid ≡ path → ⊥
new-ne pid path h e =
    let stripped = strip_prefix-append "/tmp/vpn_mgr-" (show pid <> ".resolv.conf") in
    let clash : some (show pid <> ".resolv.conf") ≡ none =
      sym stripped ∙ ap (strip_prefix "/tmp/vpn_mgr-") e ∙ h in
    cc

module _ (pid : ℕ) (path : String) (h : strip_prefix "/tmp/vpn_mgr-" path ≡ none) where
  new-differs : (new_resolv pid == path) ≡ false
  new-differs = differs (new_resolv pid) path (new-ne pid path h)

  differs-new : (path == new_resolv pid) ≡ false
  differs-new = differs path (new_resolv pid) (λ e. new-ne pid path h (sym e))

-- The files once the name servers were changed, and once they were restored.
abbrev pub changed : ℕ → Files → Files
changed pid files = moved (new_resolv pid) resolv_conf (moved resolv_conf resolv_save files)

abbrev pub put_back : ℕ → Files → Files
put_back pid files = moved resolv_save resolv_conf (changed pid files)

module _ (pid : ℕ) (files : Files) (old : String) (there : files resolv_conf ≡ some old) where
  saved : moved resolv_conf resolv_save files resolv_save ≡ some old
  saved = moved-to files resolv_conf resolv_save old there

  pub changed-save : changed pid files resolv_save ≡ some old
  unfolding strip_prefix
  changed-save =
      moved-other (moved resolv_conf resolv_save files) (new_resolv pid) resolv_conf resolv_save
        refl (differs-new pid resolv_save refl)
      ∙ saved

  module _ (new : String) (made : files (new_resolv pid) ≡ some new) where
    still-made : moved resolv_conf resolv_save files (new_resolv pid) ≡ some new
    unfolding strip_prefix
    still-made =
        moved-other files resolv_conf resolv_save (new_resolv pid)
          (new-differs pid resolv_save refl) (new-differs pid resolv_conf refl)
        ∙ made

    pub changed-conf : changed pid files resolv_conf ≡ some new
    changed-conf =
        moved-to (moved resolv_conf resolv_save files) (new_resolv pid) resolv_conf new still-made

    pub changed-new : changed pid files (new_resolv pid) ≡ none
    unfolding strip_prefix
    changed-new =
        moved-from (moved resolv_conf resolv_save files) (new_resolv pid) resolv_conf new still-made
          (new-differs pid resolv_conf refl)

  changed-other :
      (path : String)
      → (path == resolv_conf) ≡ false
      → (path == resolv_save) ≡ false
      → (path == new_resolv pid) ≡ false
      → changed pid files path ≡ files path
  changed-other path c s n =
      moved-other (moved resolv_conf resolv_save files) (new_resolv pid) resolv_conf path c n
      ∙ moved-other files resolv_conf resolv_save path s c

  put_back-conf : put_back pid files resolv_conf ≡ some old
  put_back-conf = moved-to (changed pid files) resolv_save resolv_conf old changed-save

  put_back-save : put_back pid files resolv_save ≡ none
  put_back-save = moved-from (changed pid files) resolv_save resolv_conf old changed-save refl

  put_back-other :
      (path : String)
      → (path == resolv_conf) ≡ false
      → (path == resolv_save) ≡ false
      → put_back pid files path ≡ changed pid files path
  put_back-other path c s = moved-other (changed pid files) resolv_save resolv_conf path c s

  -- Whether or not it was there, the new file is gone.
  changed-none :
      (o : Option String) → files (new_resolv pid) ≡ o → changed pid files (new_resolv pid) ≡ none
  unfolding strip_prefix
  changed-none none h =
      let absent : moved resolv_conf resolv_save files (new_resolv pid) ≡ none =
        moved-other files resolv_conf resolv_save (new_resolv pid)
          (new-differs pid resolv_save refl) (new-differs pid resolv_conf refl)
        ∙ h in
      rw (absent, moved) absent
  changed-none (some new) h = changed-new new h

  pub put_back-path :
      (path : String)
      → put_back pid files path
        ≡ (if path == resolv_save || path == new_resolv pid then none else files path)
  unfolding strip_prefix
  put_back-path path = elim (Bool-cases (path == resolv_save)) [
    | inl save ↦
        rw save (ap (put_back pid files) ((eq_iff path resolv_save).0 save) ∙ put_back-save)
    | inr not_save ↦ elim (Bool-cases (path == new_resolv pid)) [
      | inl temp ↦
          rw (not_save, temp)
            (ap (put_back pid files) ((eq_iff path (new_resolv pid)).0 temp)
              ∙ put_back-other (new_resolv pid) (new-differs pid resolv_conf refl)
                  (new-differs pid resolv_save refl)
              ∙ changed-none (files (new_resolv pid)) refl)
      | inr not_temp ↦ elim (Bool-cases (path == resolv_conf)) [
        | inl conf ↦
            rw (not_save, not_temp)
              (ap (put_back pid files) ((eq_iff path resolv_conf).0 conf)
                ∙ (put_back-conf ∙ sym there)
                ∙ ap files (sym ((eq_iff path resolv_conf).0 conf)))
        | inr not_conf ↦
            rw (not_save, not_temp)
              (put_back-other path not_conf not_save
                ∙ changed-other path not_conf not_save not_temp)
      ]
    ]
  ]
