-- ===== src/VpnConfig/Written.antt =====
-- What `WriteConfig` leaves in its file (vpn_config.c).
use vpn_mgr.Base.{
  ℕ, String, ◌<>◌, ◌≡◌, refl, ◌∙◌, sym, some, List, [], ◌∷◌, arith, eqb, if◌then◌else◌,
}
use vpn_mgr.Base.Text.{concat, append_assoc, append-nil}
use vpn_mgr.Process.{◌>>=◌, Env, State, Stream, Event, open_stream, make_dir, write, ret}
use vpn_mgr.Vpn.{Vpn}
use vpn_mgr.VpnConfig.Write.{config_pieces, conf_path, write_all, write_config}

-- The text that was written to a stream, in the order of the writes.
unfoldable pub file_text : ℕ → List Event → String
file_text id [] = ""
file_text id (write j text ∷ earlier) =
    if eqb id j then file_text id earlier <> text else file_text id earlier
file_text id (_ ∷ earlier) = file_text id earlier

write_all_ret : (id : ℕ) (pieces : List String) (s : State) → (write_all id pieces s).0 ≡ ret tt
unfolding write_all ◌>>=◌
write_all_ret id [] s = refl
write_all_ret id (p ∷ pieces) s =
    write_all_ret id pieces (record s { trace = write id p ∷ s.trace })

file_text-write_all :
    (id : ℕ) (pieces : List String) (s : State)
    → file_text id (write_all id pieces s).1.trace ≡ file_text id s.trace <> concat pieces
unfolding file_text write_all concat ◌>>=◌
file_text-write_all id [] s = sym (append-nil (file_text id s.trace))
file_text-write_all id (p ∷ pieces) s =
    file_text-write_all id pieces (record s { trace = write id p ∷ s.trace })
    ∙ ground (arith, append_assoc (file_text id s.trace) p (concat pieces))

module _ (env : Env) (v : Vpn) (s : State) where
  -- The trace before the file is opened, with the directory made and the call of `STREAMOpen`.
  abbrev pub opening : List Event
  opening =
      let path = conf_path (env.home_dir <> "/") v.name in
      open_stream path "w" ∷ make_dir path "0700" ∷ s.trace

  -- If `WriteConfig` opens its file, the text written to that stream grows by the lines of the
  -- configuration, in order.
  pub file_text-write_config :
      (file : Stream)
      → env.stream opening ≡ some file
      → file_text file.id (write_config env v s).1.trace
        ≡ file_text file.id s.trace <> concat (config_pieces (env.home_dir <> "/") v s.flags)
  unfolding write_config file_text ◌>>=◌
  file_text-write_config file opened =
      rw (opened, write_config) (rw write_all_ret (file_text-write_all file.id _ _))

  pub write_config_ret :
      (file : Stream) → env.stream opening ≡ some file → (write_config env v s).0 ≡ ret tt
  unfolding write_config ◌>>=◌
  write_config_ret file opened = rw (opened, write_config) (rw write_all_ret refl)
