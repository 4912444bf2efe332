-- ===== src/Downloader/Qbittorrent/Operations/Login.antt =====
-- The loop of login ends: it goes round again only after a publication of the configuration.
use jproxy_go.Common.{ℕ, zero, suc, ◌≤◌, ◌≡◌, refl, Bool, true, false, arith, Result, ok, err}
use jproxy_go.Runtime.Snapshot.{Snapshot}
use jproxy_go.Downloader.{ClientError, Failure, bare, then_with, plain, http_error, unfinished}
use jproxy_go.Downloader.Qbittorrent.{
  Cookie, no_cookie, Settings, Call, Request, Response, Client, Codec, Env, settings_of,
  choose_cookie, build, login_call, send_request,
}
use jproxy_go.Downloader.Qbittorrent.Operations.{
  current_config, save_session, logged_in, login_round, login,
}
use jproxy_go.Downloader.Qbittorrent.Operations.Cookies.{IsOnward, Gives}

-- The revision of the configuration that is read in a world.
abbrev pub revision_at : {W : Type 0} → Env W → W → ℕ
revision_at env w = (env.snapshot w).0.qbittorrent_revision

-- The publications that are left in a world: the revision only changes when there is one less.
pub record IsSettling {W : Type 0} (env : Env W) (left : W → ℕ) : Type 0 where
  pub moves : IsOnward env left
  pub steady_snapshot :
      (w : W)
      → left (env.snapshot w).1 ≡ left w
      → revision_at env (env.snapshot w).1 ≡ revision_at env w
  pub steady_send :
      (q : Request) (w : W)
      → left (env.send q w).1 ≡ left w
      → revision_at env (env.send q w).1 ≡ revision_at env w

abbrev pub is_finished : {A : Type 0} → Result Failure A → Bool
is_finished (ok a) = true
is_finished (err unfinished) = false
is_finished (err (plain e)) = true
is_finished (err (http_error o e n)) = true

settings_revision :
    (codec : Codec) (s : Snapshot) (cfg : Settings)
    → settings_of codec s ≡ ok cfg
    → cfg.revision ≡ s.qbittorrent_revision
unfolding settings_of
settings_revision codec s cfg h = ground arith

pub bare_finished : {A : Type 0} (r : Result ClientError A) → is_finished (bare r) ≡ true
bare_finished (ok a) = refl
bare_finished (err e) = refl

module _ {W : Type 0} (codec : Codec) (env : Env W) {left : W → ℕ}
    (settling : IsSettling env left) where
  -- A step that finishes, after one that does.
  pub then_with_finished :
      {A B : Type 0} (Q : A → Client W → Type 0) (r : Result Failure A × Client W)
      (next : A → Client W → Result Failure B × Client W)
      → is_finished r.0 ≡ true
      → Gives Q r
      → ((a : A) (d : Client W) → Q a d → is_finished (next a d).0 ≡ true)
      → is_finished (then_with r next).0 ≡ true
  unfolding then_with
  then_with_finished Q (err e, d) next p given q = p
  then_with_finished Q (ok a, d) next p given q = q a d given

  -- What is known when the configuration was read.
  abbrev IsRead : Client W → Settings → Client W → Type 0
  IsRead c cfg d = (cfg.revision ≡ revision_at env c.world) × (d.world ≡ (env.snapshot c.world).1)

  config-IsRead : (c : Client W) → Gives (IsRead c) (current_config codec env c)
  unfolding current_config
  config-IsRead c = go (settings_of codec (env.snapshot c.world).0) refl
    where
      go :
          (r : Result ClientError Settings)
          → settings_of codec (env.snapshot c.world).0 ≡ r
          → Gives (IsRead c) (bare r, record c { world = (env.snapshot c.world).1 })
      go (ok cfg) h = (settings_revision codec (env.snapshot c.world).0 cfg h, refl)
      go (err e) h = tt

  pub config_finished : (c : Client W) → is_finished (current_config codec env c).0 ≡ true
  unfolding current_config
  config_finished c = bare_finished (settings_of codec (env.snapshot c.world).0)

  module _ (again : Client W → Result Failure (Unit {0}) × Client W) (start : W)
      (more : (d : Client W)
        → suc (left d.world) ≤ left start
        → is_finished (again d).0 ≡ true) where
    save_session_finished :
        (cfg : Settings) (saved : Cookie) (c : Client W)
        → left c.world ≤ left start
        → (left c.world ≡ left start → revision_at env c.world ≡ cfg.revision)
        → is_finished (save_session codec env cfg saved again c).0 ≡ true
    unfolding save_session
    save_session_finished cfg saved c low same =
        then_with_finished (IsRead c) (current_config codec env c) _ (config_finished c)
          (config-IsRead c)
          (λ latest d read.
            ground (arith, read.0, read.1, same, low, settling.moves.at_snapshot c.world, more d))

    logged_in_finished :
        (cfg : Settings) (r : Result ClientError Response) (c : Client W)
        → left c.world ≤ left start
        → (left c.world ≡ left start → revision_at env c.world ≡ cfg.revision)
        → is_finished (logged_in codec env cfg again (r, c)).0 ≡ true
    unfolding logged_in
    logged_in_finished cfg (err e) c low same = refl
    logged_in_finished cfg (ok r) c low same =
        let saved = choose_cookie no_cookie r.cookies in
        ground (arith, save_session_finished cfg saved c low same)

    -- A request does not raise what is left, and keeps the revision if it lowers nothing.
    asked_steady :
        (cfg : Settings) (call : Call) (c : Client W)
        → (left (send_request env cfg call no_cookie c).1.world ≤ left c.world)
          × (left (send_request env cfg call no_cookie c).1.world ≡ left c.world
              → revision_at env (send_request env cfg call no_cookie c).1.world
                ≡ revision_at env c.world)
    unfolding send_request
    asked_steady cfg call c =
        let q = build cfg call no_cookie in
        (
          ground (arith, settling.moves.at_send q c.world),
          λ h. ground (arith, settling.steady_send q c.world),
        )

    login_round_finished :
        (reuse : Bool) (c : Client W)
        → c.world ≡ start
        → is_finished (login_round codec env reuse again c).0 ≡ true
    unfolding login_round
    login_round_finished reuse c here =
        then_with_finished (IsRead c) (current_config codec env c) _ (config_finished c)
          (config-IsRead c)
          (λ cfg d read.
            let reply = send_request env cfg (login_call codec cfg) no_cookie d in
            let (low, same) = asked_steady cfg (login_call codec cfg) d in
            let before = settling.moves.at_snapshot c.world in
            let round =
              logged_in_finished cfg reply.0 reply.1 (ground (arith, low, before, read.1, here))
                (λ h. ground (
                  arith,
                  h,
                  low,
                  same,
                  before,
                  read.0,
                  read.1,
                  here,
                  settling.steady_snapshot c.world,
                )) in
            ground (arith, round))

  -- With more fuel than publications are left, login comes to an end.
  pub login_finished :
      (fuel : ℕ) (reuse : Bool) (c : Client W)
      → suc (left c.world) ≤ fuel
      → is_finished (login codec env fuel reuse c).0 ≡ true
  unfolding login
  login_finished zero reuse c h = absurd (omega (arith, h))
  login_finished (suc fuel) reuse c h =
      login_round_finished (login codec env fuel reuse) c.world
        (λ d lower. login_finished fuel reuse d (omega (arith, h, lower))) reuse c refl
