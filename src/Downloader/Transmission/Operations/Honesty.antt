-- ===== src/Downloader/Transmission/Operations/Honesty.antt =====
-- The operations of the client of Transmission, one after the other.
use jproxy_go.Common.{
  ℕ, ◌+◌, ◌*◌, ◌≡◌, refl, true, Option, List, [], ◌∷◌, arith, ℤ, length, Text, codes, path_base,
  Result, ok, err,
}
use jproxy_go.Downloader.{ClientError, Failure, then_with}
use jproxy_go.Downloader.Transmission.Calls.{marshal_request, call, call_mutation}
use jproxy_go.Downloader.Transmission.{
  Settings, no_session, Rpc, method_of, Client, Codec, Env, send_request, admitted_request,
  config_unchanged, session_get, torrent_get, rename_path,
}
use jproxy_go.Downloader.Transmission.Operations.{
  Torrent, decode_session, decode_torrents, decode_rename, current_config, login, torrent,
  find_torrent, send_rename, target_name, rename_to, rename, rename_file,
}
use jproxy_go.Downloader.Transmission.Operations.Sessions.{
  all_earned, is_honest, IsStep, IsStep-refl, IsStep-trans, request-IsCareful, world-IsStep,
  admitted_request-IsCareful, exchange_body-IsStep,
}

-- The methods of the client that send requests.
pub data Operation : Type 0 where
  log_in : Operation
  look_up : Text → Operation
  rename_torrent : Text → Text → Operation
  rename_torrent_file : Text → Text → Text → Operation

-- A client as New makes it.
abbrev pub new_client : {W : Type 0} → W → Client W
new_client w = record { session = no_session; log = []; world = w }

then_with-IsStep :
    {W A B : Type 0} {m n : ℕ} (c : Client W) (r : Result Failure A × Client W)
    (next : A → Client W → Result Failure B × Client W)
    → IsStep m c r.1
    → ((a : A) (d : Client W) → IsStep n d (next a d).1)
    → IsStep (m + n) c (then_with r next).1
unfolding then_with
then_with-IsStep {n = n} c (err e, d) next p q = IsStep-trans p (IsStep-refl n d)
then_with-IsStep c (ok a, d) next p q = IsStep-trans p (q a d)

weaken : {W : Type 0} {c d : Client W} → IsStep 2 c d → IsStep 4 c d
weaken p = record { stays = p.stays; sends = omega (arith, p.sends) }

module _ {J W : Type 0} (codec : Codec J) (extension : Text → Option Text) (env : Env W) where
  -- What an operation makes of the client.
  unfoldable pub perform : Operation → Client W → Client W
  perform log_in c = (login codec extension env c).1
  perform (look_up hash) c = (find_torrent codec extension env hash c).1
  perform (rename_torrent hash name) c = (rename codec extension env hash name c).1
  perform (rename_torrent_file hash old new) c = (rename_file codec extension env hash old new c).1

  unfoldable pub perform_all : List Operation → Client W → Client W
  perform_all [] c = c
  perform_all (o ∷ os) c = perform_all os (perform o c)

  config-IsStep : (c : Client W) → IsStep 0 c (current_config codec extension env c).1
  unfolding current_config
  config-IsStep c = world-IsStep c (env.snapshot c.world).1

  call-IsStep :
      {A : Type 0} (cfg : Settings) (rpc : Rpc) (decode : J → Result ClientError A) (c : Client W)
      → IsStep 2 c (call codec env cfg rpc decode c).1
  unfolding call
  call-IsStep cfg rpc decode c =
      exchange_body-IsStep codec (method_of rpc) decode (send_request env) (request-IsCareful env)
        (config_unchanged env) cfg (marshal_request codec rpc) c

  send_rename-IsStep :
      (cfg : Settings) (id : ℤ) (old name : Text) (c : Client W)
      → IsStep 2 c (send_rename codec extension env cfg id old name c).1
  unfolding send_rename call_mutation
  send_rename-IsStep cfg id old name c =
      let rpc = rename_path (id ∷ []) old name in
      exchange_body-IsStep codec (method_of rpc) (decode_rename codec id old name)
        (admitted_request env) (admitted_request-IsCareful env) (λ _ w. (true, w)) cfg
        (marshal_request codec rpc) c

  torrent-IsStep :
      (cfg : Settings) (hash : Text) (c : Client W)
      → IsStep 2 c (torrent codec extension env cfg hash c).1
  unfolding torrent
  torrent-IsStep cfg hash c =
      let fields = codes "id" ∷ codes "name" ∷ codes "files" ∷ [] in
      then_with-IsStep {n = 0} c _ _
        (call-IsStep cfg (torrent_get (hash ∷ []) fields) (decode_torrents codec) c)
        (λ wires d. IsStep-refl 0 d)

  rename_to-IsStep :
      (name : Text) (cfg : Settings) (t : Torrent) (c : Client W)
      → IsStep 2 c (rename_to codec extension env name cfg t c).1
  unfolding rename_to
  rename_to-IsStep name cfg t c =
      let target = target_name codec extension env name t.name in
      ground (arith, IsStep-refl 2 c, send_rename-IsStep cfg t.id t.name target c)

  -- An operation on a torrent, with a step after it.
  on_torrent-IsStep :
      {B : Type 0} (hash : Text)
      (next : Settings → Torrent → Client W → Result Failure B × Client W)
      → ((cfg : Settings) (t : Torrent) (d : Client W) → IsStep 2 d (next cfg t d).1)
      → (c : Client W)
      → IsStep 4 c
          (then_with
            (current_config codec extension env c)
            (λ cfg d. then_with (torrent codec extension env cfg hash d) (next cfg))).1
  on_torrent-IsStep hash next steps c =
      then_with-IsStep c (current_config codec extension env c)
        (λ cfg d. then_with (torrent codec extension env cfg hash d) (next cfg)) (config-IsStep c)
        (λ cfg d.
          then_with-IsStep d (torrent codec extension env cfg hash d) (next cfg)
            (torrent-IsStep cfg hash d) (steps cfg))

  -- Every operation sends at most four requests, and leaves an honest client honest.
  pub perform-IsStep : (o : Operation) (c : Client W) → IsStep 4 c (perform o c)
  unfolding perform login find_torrent rename rename_file
  perform-IsStep log_in c = weaken (
      then_with-IsStep c (current_config codec extension env c) _ (config-IsStep c)
        (λ cfg. call-IsStep cfg (session_get (codes "version" ∷ [])) (decode_session codec)))
  perform-IsStep (look_up hash) c =
      let found =
        then_with-IsStep c (current_config codec extension env c)
          (λ cfg. torrent codec extension env cfg hash) (config-IsStep c)
          (λ cfg. torrent-IsStep cfg hash) in
      ground (arith, IsStep-refl 4 c, weaken found)
  perform-IsStep (rename_torrent hash name) c = ground (
    arith,
    IsStep-refl 4 c,
    on_torrent-IsStep hash (rename_to codec extension env name) (rename_to-IsStep name) c,
  )
  perform-IsStep (rename_torrent_file hash old new) c =
      let next : Settings → Torrent → Client W → Result Failure (Unit {0}) × Client W =
        λ cfg t. send_rename codec extension env cfg t.id old (path_base new) in
      ground (
        arith,
        IsStep-refl 4 c,
        on_torrent-IsStep hash next (λ cfg t. send_rename-IsStep cfg t.id old (path_base new)) c,
      )

  perform_all-IsStep :
      (os : List Operation) (c : Client W) → IsStep (4 * length os) c (perform_all os c)
  unfolding perform_all
  perform_all-IsStep [] c = IsStep-refl 0 c
  perform_all-IsStep (o ∷ os) c =
      let p = IsStep-trans (perform-IsStep o c) (perform_all-IsStep os (perform o c)) in
      record { stays = p.stays; sends = omega (arith, p.sends) }

  -- Whatever the endpoint answers and however the configuration changes meanwhile: after any operations of a
  -- new client, every request that carried a session identifier carried one that the endpoint gave before it,
  -- with a conflict, under the same revision of the configuration; and so does the session that is kept.
  pub perform_all-is_honest :
      (os : List Operation) (w : W) → is_honest (perform_all os (new_client w)) ≡ true
  unfolding is_honest all_earned
  perform_all-is_honest os w = (perform_all-IsStep os (new_client w)).stays refl
