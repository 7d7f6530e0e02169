-- ===== src/Vpn/Context/Laws.antt =====
-- Which contexts `VpnCtxDestroy` can free (vpn_ctx.c).
use vpn_mgr.Base.{
  String, ◌≡◌, refl, ◌∙◌, ap, Bool, true, false, none, some, List, [], ◌∷◌, ◌==◌, eq_iff,
  Bool-cases, Option-cases, inl, inr, arith, if◌then◌else◌,
}
use vpn_mgr.Vpn.Context.{
  text, dangling, Pointers, set_pointer, destroy, destroy_all, destroyed_members, vpn_ctx_destroy,
}

-- Whether a member is destroyed in a list of calls.
abbrev pub destroys : String → List String → Bool
destroys name [] = false
destroys name (n ∷ names) = if n == name then true else destroys name names

-- Whether a member is destroyed twice.
abbrev pub destroys_twice : String → List String → Bool
destroys_twice name [] = false
destroys_twice name (n ∷ names) =
    if n == name then destroys name names else destroys_twice name names

destroy-none : (p : Pointers) (name : String) → p name ≡ dangling → destroy p name ≡ none
unfolding destroy
destroy-none p name h = rw (h, destroy) refl

destroy-text :
    (p : Pointers) (n name : String)
    → (n == name) ≡ true
    → p name ≡ text
    → (p' : Pointers) × (destroy p n ≡ some p') × (p' name ≡ dangling)
unfolding destroy
destroy-text p n name same h =
    let e = (eq_iff n name).0 same in
    (set_pointer p n dangling, rw (ap p e ∙ h, destroy) refl, rw same refl)

-- Another call of `Destroy` leaves a member as it is.
destroy-other :
    (p p' : Pointers) (n name : String)
    → (n == name) ≡ false
    → destroy p n ≡ some p'
    → p' name ≡ p name
unfolding destroy
destroy-other p p' n name h e = ground arith

step :
    (p p' : Pointers) (n : String) (names : List String)
    → destroy p n ≡ some p'
    → destroy_all (n ∷ names) p ≡ destroy_all names p'
unfolding destroy_all
step p p' n names e = rw (e, destroy_all) refl

fails :
    (p : Pointers) (n : String) (names : List String)
    → destroy p n ≡ none
    → destroy_all (n ∷ names) p ≡ none
unfolding destroy_all
fails p n names e = rw (e, destroy_all) refl

destroy_all-dangling :
    (names : List String) (p : Pointers) (name : String)
    → p name ≡ dangling
    → destroys name names ≡ true
    → destroy_all names p ≡ none
destroy_all-dangling [] p name h d = absurd cc
destroy_all-dangling (n ∷ names) p name h d = elim (Bool-cases (n == name)) [
  | inl same ↦ fails p n names (destroy-none p n (ap p ((eq_iff n name).0 same) ∙ h))
  | inr other ↦ elim (Option-cases (destroy p n)) [
    | inl e ↦ fails p n names e
    | inr (p', e) ↦
        step p p' n names e
        ∙ destroy_all-dangling names p' name (destroy-other p p' n name other e ∙ h) (rw other at d)
  ]
]

destroy_all-twice :
    (names : List String) (p : Pointers) (name : String)
    → p name ≡ text
    → destroys_twice name names ≡ true
    → destroy_all names p ≡ none
destroy_all-twice [] p name h d = absurd cc
destroy_all-twice (n ∷ names) p name h d = elim (Bool-cases (n == name)) [
  | inl same ↦
      let (p', e, gone) = destroy-text p n name same h in
      step p p' n names e ∙ destroy_all-dangling names p' name gone (rw same at d)
  | inr other ↦ elim (Option-cases (destroy p n)) [
    | inl e ↦ fails p n names e
    | inr (p', e) ↦
        step p p' n names e
        ∙ destroy_all-twice names p' name (destroy-other p p' n name other e ∙ h) (rw other at d)
  ]
]

-- `VpnCtxDestroy` frees a text twice on every context with a text in the member `VerifyCert`.
pub vpn_ctx_destroy-none : (p : Pointers) → p "VerifyCert" ≡ text → vpn_ctx_destroy p ≡ none
unfolding vpn_ctx_destroy
vpn_ctx_destroy-none p h = destroy_all-twice destroyed_members p "VerifyCert" h refl
