-- ===== src/Ssh/Remote/Sync.antt =====
-- What is left to be read once the remote shell has echoed the key (ssh.c).
use vpn_mgr.Base.{
  ℕ, String, ◌≡◌, refl, ◌∙◌, ap, true, false, List, [], ◌∷◌, ◌++◌, ◌==◌, Bool-cases, inl, inr, ◌≤◌,
  leb, if◌then◌else◌, arith,
}
use vpn_mgr.Base.Chars.{str_len}
use vpn_mgr.Base.Text.{valid}
use vpn_mgr.Common.{deliver}
use vpn_mgr.Process.Bind.{>>=-ret}
use vpn_mgr.Process.{Flags, Read, Stream, random_text, read_bytes, Env, State, Res, ret, ◌>>=◌}
use vpn_mgr.Ssh.Remote.Taken.{AllQuiet, Taken, take_bytes-Taken}
use vpn_mgr.Ssh.Remote.{
  debug_print, read_bytes_left, after_sync, send_sync, sync_line, sync_loop, ssh_vpn_sync,
}

abbrev value : Res Stream × State → Res Stream
value r = r.0

module _ (env : Env) (key : String) where
  -- What the loop compares with the key.
  abbrev pub shown : Read → String
  shown r = env.trim_left (env.trim_right r.line)

  -- A line that is not empty, and with which no signal came.
  abbrev pub Heard : Read → Type 0
  Heard r = (r.sigint ≡ false) × (valid r.line ≡ true)

  abbrev pub Noise : List Read → Type 0
  Noise [] = Unit
  Noise (r ∷ reads) = (Heard r × ((shown r == key) ≡ false)) × Noise reads

  sync_loop-echo :
      (id : ℕ) (noise : List Read) (echo : Read) (rest : List Read) (s : State)
      → Noise noise
      → Heard echo
      → (shown echo == key) ≡ true
      → s.flags.exit ≡ false
      → (sync_loop env id (noise ++ echo ∷ rest) key s).0 ≡ ret rest
  unfolding sync_loop sync_line after_sync debug_print deliver ◌>>=◌
  sync_loop-echo id [] echo rest s n (q, v) e x = elim (Bool-cases s.flags.debug) [
    | inl d ↦ simp (q, v, d, e) refl
    | inr d ↦ simp (q, v, d, e) refl
  ]
  sync_loop-echo id (r ∷ noise) echo rest s (((q, v), other), n) h e x =
      elim (Bool-cases s.flags.debug) [
        | inl d ↦ simp (q, v, d, other, x) (sync_loop-echo id noise echo rest _ n h e x)
        | inr d ↦ simp (q, v, d, other, x) (sync_loop-echo id noise echo rest s n h e x)
      ]

send_sync_lem :
    (env : Env) (id : ℕ) (s : State)
    → ((send_sync env id s).0 ≡ ret (env.text (random_text ∷ s.trace)))
      × ((send_sync env id s).1.flags ≡ s.flags)
unfolding send_sync debug_print ◌>>=◌
send_sync_lem env id s = elim (Bool-cases s.flags.debug) [
  | inl d ↦ (simp d refl, simp d refl)
  | inr d ↦ (simp d refl, simp d refl)
]

-- The session's stream behind `SSHVpnSync`: of the text behind the key, no more than 4096 bytes are
-- gone.
abbrev pub Resumed : Stream → List Read → Res Stream → Type 0
Resumed stream rest r =
    (left : List Read) × (r ≡ ret (record stream { reads = left })) × Taken 4096 rest left

read_bytes_left-Taken :
    (env : Env) (id : ℕ) (reads : List Read) (s : State)
    → AllQuiet reads
    → (left : List Read) × ((read_bytes_left env id reads s).0 ≡ ret left) × Taken 4096 reads left
unfolding read_bytes_left ◌>>=◌
read_bytes_left-Taken env id reads s q =
    let t = read_bytes id 4096 ∷ s.trace in
    let n = env.number t in
    let (left, e, (front, f, k)) =
      take_bytes-Taken (if leb n 4096 then n else 4096) reads (record s { trace = t }) q in
    (left, e, (front, f, at_most n (str_len front) k))
  where
    at_most : (n k : ℕ) → k ≤ (if leb n 4096 then n else 4096) → k ≤ 4096
    at_most n k h = ground arith

-- With FLAG_EXIT clear, where the shell first gives lines that are not the random key and then
-- the key, all of them without signals and not empty, and no signal comes later, `SSHVpnSync`
-- returns. All text up to the key is gone then, and of what was to be read behind it no more than
-- the first 4096 bytes.
pub ssh_vpn_sync_lem :
    (env : Env) (stream : Stream) (noise : List Read) (echo : Read) (rest : List Read) (s : State)
    → stream.reads ≡ noise ++ echo ∷ rest
    → Noise env (env.text (random_text ∷ s.trace)) noise
    → Heard env (env.text (random_text ∷ s.trace)) echo
    → (shown env (env.text (random_text ∷ s.trace)) echo == env.text (random_text ∷ s.trace)) ≡ true
    → AllQuiet rest
    → s.flags.exit ≡ false
    → Resumed stream rest (ssh_vpn_sync env stream s).0
unfolding ssh_vpn_sync
ssh_vpn_sync_lem env stream noise echo rest s from n h e q x =
    let key = env.text (random_text ∷ s.trace) in
    let (sent, flags) = send_sync_lem env stream.id s in
    let t = (send_sync env stream.id s).1 in
    let u = (sync_loop env stream.id stream.reads key t).1 in
    let heard =
      ap (λ reads. (sync_loop env stream.id reads key t).0) from
      ∙ sync_loop-echo env key stream.id noise echo rest t n h e
          (ap (λ (f : Flags). f.exit) flags ∙ x) in
    let (left, taken, within) = read_bytes_left-Taken env stream.id rest u q in
    (
      left,
      ap value (>>=-ret (send_sync env stream.id) _ s key sent)
          ∙ ap value (>>=-ret (sync_loop env stream.id stream.reads key) _ t rest heard)
          ∙ ap value (>>=-ret (read_bytes_left env stream.id rest) _ u left taken)
          ∙ unfold ◌>>=◌ in refl,
      within,
    )
