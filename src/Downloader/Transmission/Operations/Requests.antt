-- ===== src/Downloader/Transmission/Operations/Requests.antt =====
-- How many requests the operations of the client of Transmission send, and when a call asks again.
use mathlib.Core.Path.{subst}
use jproxy_go.Common.{
  ◌≡◌, refl, inl, inr, true, ◌||◌, not, Option, List, [], ◌∷◌, ℤ, Bool-cases, Text, codes, text_eq,
  path_dir, path_base, Result, ok, err,
}
use jproxy_go.Downloader.{
  ClientError, Failure, invalid_argument, valid_rename_name, valid_file_path, bare, then_with,
}
use jproxy_go.Downloader.Transmission.{
  Settings, Rpc, method_of, Exchange, Client, TorrentWire, Codec, Env, send_request,
  admitted_request, config_unchanged, session_get, torrent_get, rename_path,
}
use jproxy_go.Downloader.Transmission.Calls.{marshal_request, call, call_mutation}
use jproxy_go.Downloader.Transmission.Operations.{
  Torrent, decode_session, decode_torrents, decode_rename, torrent_of, settings_of, current_config,
  login, torrent, find_torrent, send_rename, target_name, rename_to, rename, rename_file,
}
use jproxy_go.Downloader.Transmission.Operations.Honesty.{
  Operation, perform, log_in, look_up, rename_torrent, rename_torrent_file,
}
use jproxy_go.Downloader.Transmission.Operations.Repeats.{
  IsCall, send_request-IsOnce, admitted_request-IsOnce, exchange_body-IsCall,
}

-- What an operation may send: a call for Login and for the reading of a torrent, and two for renaming.
abbrev pub AreCalls : Operation → List Exchange → List Exchange → Type 0
AreCalls log_in before after = IsCall before after
AreCalls (look_up _) before after = IsCall before after
AreCalls _ before after = (middle : List Exchange) × IsCall before middle × IsCall middle after

module _ {J W : Type 0} (codec : Codec J) (extension : Text → Option Text) (env : Env W) where
  call-IsCall :
      {A : Type 0} (cfg : Settings) (rpc : Rpc) (decode : J → Result ClientError A) (c : Client W)
      → IsCall c.log (call codec env cfg rpc decode c).1.log
  unfolding call
  call-IsCall cfg rpc decode c =
      exchange_body-IsCall codec (method_of rpc) decode (send_request env) (send_request-IsOnce env)
        (config_unchanged env) cfg (marshal_request codec rpc) c

  send_rename-IsCall :
      (cfg : Settings) (id : ℤ) (old name : Text) (c : Client W)
      → IsCall c.log (send_rename codec extension env cfg id old name c).1.log
  unfolding send_rename call_mutation
  send_rename-IsCall cfg id old name c =
      let rpc = rename_path (id ∷ []) old name in
      exchange_body-IsCall codec (method_of rpc) (decode_rename codec id old name)
        (admitted_request env) (admitted_request-IsOnce env) (λ _ w. (true, w)) cfg
        (marshal_request codec rpc) c

  -- A call, and what follows it.
  then_with-IsCall :
      {A B : Type 0} (before : List Exchange) (r : Result Failure A × Client W)
      (next : A → Client W → Result Failure B × Client W)
      → IsCall before r.1.log
      → ((a : A) (d : Client W) → IsCall d.log (next a d).1.log)
      → (middle : List Exchange) × IsCall before middle × IsCall middle (then_with r next).1.log
  unfolding then_with
  then_with-IsCall before (err e, d) next p q = (d.log, p, inl refl)
  then_with-IsCall before (ok a, d) next p q = (d.log, p, q a d)

  -- The configuration is read without a request.
  after_config :
      {B : Type 0} (P : List Exchange → Type 0) (c : Client W)
      (next : Settings → Client W → Result Failure B × Client W)
      → P c.log
      → ((cfg : Settings) (d : Client W) → d.log ≡ c.log → P (next cfg d).1.log)
      → P (then_with (current_config codec extension env c) next).1.log
  unfolding then_with current_config
  after_config P c next nothing more = go (bare (settings_of codec (env.snapshot c.world).0))
    where
      go :
          (r : Result Failure Settings)
          → P (then_with (r, record c { world = (env.snapshot c.world).1 }) next).1.log
      go (err e) = nothing
      go (ok cfg) = more cfg (record c { world = (env.snapshot c.world).1 }) refl

  torrent-IsCall :
      (cfg : Settings) (hash : Text) (c : Client W)
      → IsCall c.log (torrent codec extension env cfg hash c).1.log
  unfolding torrent then_with
  torrent-IsCall cfg hash c =
      let fields = codes "id" ∷ codes "name" ∷ codes "files" ∷ [] in
      go (call codec env cfg (torrent_get (hash ∷ []) fields) (decode_torrents codec) c)
        (call-IsCall cfg (torrent_get (hash ∷ []) fields) (decode_torrents codec) c)
    where
      go :
          (r : Result Failure (List (TorrentWire J)) × Client W)
          → IsCall c.log r.1.log
          → IsCall c.log (then_with r (λ wires d. (bare (torrent_of codec wires), d))).1.log
      go (err e, d) p = p
      go (ok wires, d) p = p

  rename_to-IsCall :
      (name : Text) (cfg : Settings) (t : Torrent) (c : Client W)
      → IsCall c.log (rename_to codec extension env name cfg t c).1.log
  unfolding rename_to
  rename_to-IsCall name cfg t c =
      let target = target_name codec extension env name t.name in
      elim (Bool-cases (text_eq t.name target)) [
        | inl same ↦ rw same (inl refl)
        | inr other ↦ rw other (send_rename-IsCall cfg t.id t.name target c)
      ]

  -- Two calls: the torrent is read, and something is done with it.
  abbrev AreTwoCalls : List Exchange → List Exchange → Type 0
  AreTwoCalls before after = (middle : List Exchange) × IsCall before middle × IsCall middle after

  on_torrent-AreTwoCalls :
      {B : Type 0} (hash : Text)
      (next : Settings → Torrent → Client W → Result Failure B × Client W)
      → ((cfg : Settings) (t : Torrent) (d : Client W) → IsCall d.log (next cfg t d).1.log)
      → (c : Client W)
      → AreTwoCalls c.log
          (then_with
            (current_config codec extension env c)
            (λ cfg d. then_with (torrent codec extension env cfg hash d) (next cfg))).1.log
  on_torrent-AreTwoCalls hash next calls c =
      after_config (AreTwoCalls c.log) c
        (λ cfg d. then_with (torrent codec extension env cfg hash d) (next cfg))
        (c.log, inl refl, inl refl)
        (λ cfg d same.
          subst
            (λ log.
              AreTwoCalls log (then_with (torrent codec extension env cfg hash d) (next cfg)).1.log)
            same
            (then_with-IsCall d.log (torrent codec extension env cfg hash d) (next cfg)
              (torrent-IsCall cfg hash d) (calls cfg)))

  no_calls : (log : List Exchange) → AreTwoCalls log log
  no_calls log = (log, inl refl, inl refl)

  log_in-IsCall : (c : Client W) → IsCall c.log (login codec extension env c).1.log
  unfolding login
  log_in-IsCall c = after_config (IsCall c.log) c _ (inl refl) (λ cfg d same.
      subst
        (λ log.
          IsCall log
            (call codec env cfg (session_get (codes "version" ∷ [])) (decode_session codec)
              d).1.log)
        same (call-IsCall cfg (session_get (codes "version" ∷ [])) (decode_session codec) d))

  look_up-IsCall :
      (hash : Text) (c : Client W) → IsCall c.log (find_torrent codec extension env hash c).1.log
  unfolding find_torrent
  look_up-IsCall hash c = elim (Bool-cases (invalid_argument hash)) [
    | inl bad ↦ rw bad (inl refl)
    | inr fine ↦ rw fine (
        after_config (IsCall c.log) c _ (inl refl) (λ cfg d same.
          subst (λ log. IsCall log (torrent codec extension env cfg hash d).1.log) same
            (torrent-IsCall cfg hash d)))
  ]

  rename-AreTwoCalls :
      (hash name : Text) (c : Client W)
      → AreTwoCalls c.log (rename codec extension env hash name c).1.log
  unfolding rename
  rename-AreTwoCalls hash name c = elim (Bool-cases (invalid_argument hash)) [
    | inl bad ↦ rw bad (no_calls c.log)
    | inr fine ↦ elim (Bool-cases (valid_rename_name name)) [
      | inl valid ↦
          rw (fine, valid)
            (on_torrent-AreTwoCalls hash (rename_to codec extension env name)
              (rename_to-IsCall name) c)
      | inr invalid ↦ rw (fine, invalid) (no_calls c.log)
    ]
  ]

  rename_file-AreTwoCalls :
      (hash old new : Text) (c : Client W)
      → AreTwoCalls c.log (rename_file codec extension env hash old new c).1.log
  unfolding rename_file
  rename_file-AreTwoCalls hash old new c = elim (Bool-cases (invalid_argument hash)) [
    | inl bad ↦ rw bad (no_calls c.log)
    | inr fine ↦
        elim (Bool-cases (
          not (valid_file_path old)
          || not (valid_file_path new)
          || not (text_eq (path_dir old) (path_dir new)))) [
            | inl wrong ↦ rw (fine, wrong) (no_calls c.log)
            | inr right ↦
                rw (fine, right)
                  (on_torrent-AreTwoCalls hash
                    (λ cfg t d. send_rename codec extension env cfg t.id old (path_base new) d)
                    (λ cfg t. send_rename-IsCall cfg t.id old (path_base new)) c)
          ]
  ]

  -- Whatever state the client is in, whatever the endpoint answers and however the configuration changes:
  -- Login and the reading of a torrent are one call, a renaming is two at most. A call sends no request, or
  -- one, or two; and two only if the answer to the first is a conflict.
  pub perform-AreCalls :
      (o : Operation) (c : Client W) → AreCalls o c.log (perform codec extension env o c).log
  unfolding perform
  perform-AreCalls log_in c = log_in-IsCall c
  perform-AreCalls (look_up hash) c = look_up-IsCall hash c
  perform-AreCalls (rename_torrent hash name) c = rename-AreTwoCalls hash name c
  perform-AreCalls (rename_torrent_file hash old new) c = rename_file-AreTwoCalls hash old new c
