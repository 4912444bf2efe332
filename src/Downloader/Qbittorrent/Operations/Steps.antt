-- ===== src/Downloader/Qbittorrent/Operations/Steps.antt =====
-- The requests, the login and the attempts of the client of qBittorrent, each as a step of the client.
use jproxy_go.Common.{
  ℕ, zero, suc, ◌≡◌, refl, inl, inr, Bool, true, none, ◌∷◌, arith, Bool-cases, codes, trim_slashes,
  Result, ok, err,
}
use jproxy_go.Downloader.{ClientError, Failure, is_success, is_redirect, bare, then_with}
use jproxy_go.Downloader.Qbittorrent.{
  Cookie, Session, no_cookie, Settings, Call, Request, Response, Outcome, Client, Codec, Env,
  response_of, settings_of, choose_cookie, build, login_call, send_request, answered, failed,
}
use jproxy_go.Downloader.Qbittorrent.Operations.{
  current_config, save_session, logged_in, login_round, login,
}
use jproxy_go.Downloader.Qbittorrent.Operations.Cookies.{
  gives, is_given, carries_given, all_given, may_send, is_honest, is_login, asked,
  has_suffix-append, IsOnward, IsStep, chosen, Gives, IsStep-refl, IsStep-trans, weaken,
  then_with-IsStep, world-IsStep,
}

module _ {W : Type 0} (codec : Codec) (env : Env W) {left : W → ℕ} (moves : IsOnward env left) where
  pub send_request-IsStep :
      (cfg : Settings) (call : Call) (saved : Cookie) (c : Client W)
      → (is_honest c ≡ true → may_send saved cfg.revision c.log ≡ true)
      → IsStep left 1 c (send_request env cfg call saved c).1
  unfolding send_request build is_honest all_given carries_given is_given asked
  send_request-IsStep cfg call saved c safe = record {
    stays = λ h. ground (arith, safe h);
    sends = ground arith;
    onward = ground (arith, moves.at_send (build cfg call saved) c.world);
  }

  no_cookie_built : (cfg : Settings) (call : Call) → (build cfg call no_cookie).cookie ≡ none
  unfolding build
  no_cookie_built cfg call = ground arith

  login_call_lem : (cfg : Settings) → is_login (build cfg (login_call codec cfg) no_cookie) ≡ true
  unfolding is_login build
  login_call_lem cfg = has_suffix-append (trim_slashes cfg.base.path) (codes "/api/v2/auth/login")

  send_login-IsStep :
      (cfg : Settings) (c : Client W)
      → IsStep left 0 c (send_request env cfg (login_call codec cfg) no_cookie c).1
  unfolding send_request is_honest all_given carries_given is_given asked
  send_login-IsStep cfg c = record {
    stays = λ h. ground (arith, no_cookie_built cfg (login_call codec cfg));
    sends = ground (arith, login_call_lem cfg);
    onward = ground (arith, moves.at_send (build cfg (login_call codec cfg) no_cookie) c.world);
  }

  -- The cookie that is chosen from an answer was given under the revision of its request.
  abbrev IsLoggedIn : Settings → Result ClientError Response × Client W → Type 0
  IsLoggedIn cfg reply = elim reply.0 [
    | ok r ↦
        is_success r.status ≡ true
        → may_send (choose_cookie no_cookie r.cookies) cfg.revision reply.1.log ≡ true
    | err _ ↦ Unit {0}
  ]

  logged :
      (o : Outcome) (request : Request) (cfg : Settings) (c : Client W) (w : W)
      → IsLoggedIn cfg (
        response_of o,
        record c {
          log = record { revision = cfg.revision; request = request; outcome = o } ∷ c.log;
          world = w;
        },
      )
  unfolding response_of is_given gives
  logged (failed e) request cfg c w = tt
  logged (answered r) request cfg c w = elim (Bool-cases (is_redirect r.status)) [
    | inl away ↦ rw away tt
    | inr here ↦ rw here (λ fine. ground (arith, chosen r.cookies))
  ]

  send_login-IsLoggedIn :
      (cfg : Settings) (call : Call) (c : Client W)
      → IsLoggedIn cfg (send_request env cfg call no_cookie c)
  unfolding send_request
  send_login-IsLoggedIn cfg call c =
      let q = build cfg call no_cookie in
      let sent = env.send q c.world in ground (arith, logged sent.0 q cfg c sent.1)

  pub config-IsStep : (c : Client W) → IsStep left 0 c (current_config codec env c).1
  unfolding current_config
  config-IsStep c = world-IsStep c (env.snapshot c.world).1 (moves.at_snapshot c.world)

  -- What holds of a client whatever its world holds after its configuration was read.
  pub config-Gives :
      (Q : Settings → Client W → Type 0) (c : Client W)
      → ((cfg : Settings) → Q cfg (record c { world = (env.snapshot c.world).1 }))
      → Gives Q (current_config codec env c)
  unfolding current_config
  config-Gives Q c holds = go (settings_of codec (env.snapshot c.world).0)
    where
      go :
          (r : Result ClientError Settings)
          → Gives Q (bare r, record c { world = (env.snapshot c.world).1 })
      go (ok cfg) = holds cfg
      go (err e) = tt

  -- A step that starts with reading the configuration.
  pub config_first-IsStep :
      {B : Type 0} {n : ℕ} (c : Client W) (next : Settings → Client W → Result Failure B × Client W)
      → ((cfg : Settings) (d : Client W)
          → d.log ≡ c.log
          → d.session ≡ c.session
          → IsStep left n d (next cfg d).1)
      → IsStep left n c (then_with (current_config codec env c) next).1
  config_first-IsStep c next steps =
      weaken
        (then_with-IsStep {m = 0} (λ _ d. (d.log ≡ c.log) × (d.session ≡ c.session)) c
          (current_config codec env c) next (config-IsStep c)
          (config-Gives (λ _ d. (d.log ≡ c.log) × (d.session ≡ c.session)) c (λ _. (refl, refl)))
          (λ cfg d same. steps cfg d same.0 same.1))
        (omega arith)

  keep_session :
      (s : Session) (c : Client W)
      → may_send s.cookie s.revision c.log ≡ true
      → IsStep left 0 c (record c { session = s })
  unfolding is_honest
  keep_session s c safe = record {
    stays = λ h. ground arith;
    sends = omega arith;
    onward = omega arith;
  }

  module _ (again : Client W → Result Failure (Unit {0}) × Client W)
      (more : (d : Client W) → IsStep left 0 d (again d).1) where
    save_session-IsStep :
        (cfg : Settings) (saved : Cookie) (c : Client W)
        → may_send saved cfg.revision c.log ≡ true
        → IsStep left 0 c (save_session codec env cfg saved again c).1
    unfolding save_session
    save_session-IsStep cfg saved c safe = config_first-IsStep c _ (λ latest d log _. ground (
      arith,
      more d,
      keep_session (record { cookie = saved; revision = cfg.revision }) d (rw log safe),
    ))

    logged_in-IsStep :
        (cfg : Settings) (r : Result ClientError Response) (c : Client W)
        → IsLoggedIn cfg (r, c)
        → IsStep left 0 c (logged_in codec env cfg again (r, c)).1
    unfolding logged_in
    logged_in-IsStep cfg (err e) c given = IsStep-refl 0 c
    logged_in-IsStep cfg (ok r) c given = elim (Bool-cases (is_success r.status)) [
      | inl fine ↦
          let saved = choose_cookie no_cookie r.cookies in
          ground (
            arith,
            fine,
            IsStep-refl {left = left} 0 c,
            save_session-IsStep cfg saved c (given fine),
          )
      | inr bad ↦ rw bad (IsStep-refl 0 c)
    ]

    login_round-IsStep :
        (reuse : Bool) (c : Client W) → IsStep left 0 c (login_round codec env reuse again c).1
    unfolding login_round
    login_round-IsStep reuse c = config_first-IsStep c _ (λ cfg d _ _.
        let reply = send_request env cfg (login_call codec cfg) no_cookie d in
        let step : IsStep left 0 d (logged_in codec env cfg again reply).1 =
          IsStep-trans (send_login-IsStep cfg d) (
            logged_in-IsStep cfg reply.0 reply.1
              (send_login-IsLoggedIn cfg (login_call codec cfg) d)) in
        ground (arith, IsStep-refl {left = left} 0 d, step))

  pub login-IsStep :
      (fuel : ℕ) (reuse : Bool) (c : Client W) → IsStep left 0 c (login codec env fuel reuse c).1
  unfolding login
  login-IsStep zero reuse c = IsStep-refl 0 c
  login-IsStep (suc fuel) reuse c =
      login_round-IsStep (login codec env fuel reuse) (λ d. login-IsStep fuel reuse d) reuse c
