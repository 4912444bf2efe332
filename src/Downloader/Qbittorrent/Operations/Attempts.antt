-- ===== src/Downloader/Qbittorrent/Operations/Attempts.antt =====
-- The sessions and the attempts of the client of qBittorrent as steps, and its operations one after the other.
use jproxy_go.Common.{
  ℕ, zero, suc, ◌+◌, ◌≡◌, refl, sym, inl, inr, Bool, true, false, arith, ◌==◌, if◌then◌else◌,
  Bool-cases, Result, ok, err,
}
use jproxy_go.Downloader.{ClientError, Failure, Admission, then_with, admitted, stale, refused}
use jproxy_go.Downloader.Qbittorrent.{
  Cookie, Session, Settings, Call, Response, Client, Codec, Env, is_usable, send_request, await,
  begin, admitted_request,
}
use jproxy_go.Downloader.Qbittorrent.Operations.{
  forget, current_config, login, read_session, session_for, after_answer, attempt, attempts,
}
use jproxy_go.Downloader.Qbittorrent.Operations.Cookies.{
  may_send, is_honest, IsOnward, IsStep, Gives, Gives-nothing, IsStep-refl, IsStep-trans, weaken,
  then_with-IsStep, world-IsStep, forget-IsStep,
}
use jproxy_go.Downloader.Qbittorrent.Operations.Steps.{
  send_request-IsStep, config_first-IsStep, login-IsStep,
}

module _ {W : Type 0} (codec : Codec) (env : Env W) {left : W → ℕ} (moves : IsOnward env left) where
  -- The session that is found may be sent under the configuration that is found with it, if the client is
  -- honest.
  abbrev IsFound : Settings × Session → Client W → Type 0
  IsFound found d = is_honest d ≡ true → may_send found.1.cookie found.0.revision d.log ≡ true

  usable-IsFound :
      (cfg : Settings) (d : Client W)
      → is_usable cfg.revision d.session ≡ true
      → IsFound (cfg, d.session) d
  unfolding is_usable is_honest
  usable-IsFound cfg d h k = ground arith

  IsFound-here :
      (b : Bool) (cfg : Settings) (d : Client W)
      (other : Result Failure (Settings × Session) × Client W)
      → b ≡ is_usable cfg.revision d.session
      → Gives IsFound other
      → Gives IsFound (if b then (ok (cfg, d.session), d) else other)
  IsFound-here true cfg d other h given = usable-IsFound cfg d (sym h)
  IsFound-here false cfg d other h given = given

  IsFound-after :
      {A : Type 0} (r : Result Failure A × Client W)
      (next : A → Client W → Result Failure (Settings × Session) × Client W)
      → ((a : A) (d : Client W) → Gives IsFound (next a d))
      → Gives IsFound (then_with r next)
  unfolding then_with
  IsFound-after (err e, d) next given = tt
  IsFound-after (ok a, d) next given = given a d

  read_session-Gives : (c : Client W) → Gives IsFound (read_session codec env c)
  unfolding read_session
  read_session-Gives c = IsFound-after (current_config codec env c) _ (λ cfg d.
      elim (Bool-cases (is_usable cfg.revision d.session)) [
        | inl fine ↦ rw fine (usable-IsFound cfg d fine)
        | inr bad ↦ rw bad tt
      ])

  session_for-Gives : (fuel : ℕ) (c : Client W) → Gives IsFound (session_for codec env fuel c)
  unfolding session_for
  session_for-Gives fuel c = IsFound-after (current_config codec env c) _ (λ cfg d.
      IsFound-here (is_usable cfg.revision d.session) cfg d _ refl
        (IsFound-after (login codec env fuel true d) _ (λ _ e. read_session-Gives e)))

  read_session-IsStep : (c : Client W) → IsStep left 0 c (read_session codec env c).1
  unfolding read_session
  read_session-IsStep c =
      config_first-IsStep codec env moves c _
        (λ cfg d _ _. ground (arith, IsStep-refl {left = left} 0 d))

  -- A step that is taken after login.
  after_login-IsStep :
      {B : Type 0} {n : ℕ} (fuel : ℕ) (c : Client W) (next : Client W → Result Failure B × Client W)
      → ((d : Client W) → IsStep left n d (next d).1)
      → IsStep left n c (then_with (login codec env fuel true c) (λ _. next)).1
  after_login-IsStep fuel c next steps =
      let entered = login codec env fuel true c in
      weaken
        (then_with-IsStep (λ _ _. Unit {0}) c entered (λ _. next)
          (login-IsStep codec env moves fuel true c) (Gives-nothing entered) (λ _ d _. steps d))
        (omega arith)

  pub session_for-IsStep :
      (fuel : ℕ) (c : Client W) → IsStep left 0 c (session_for codec env fuel c).1
  unfolding session_for
  session_for-IsStep fuel c = config_first-IsStep codec env moves c _ (λ cfg d _ _. ground (
    arith,
    IsStep-refl {left = left} 0 d,
    after_login-IsStep fuel d (read_session codec env) read_session-IsStep,
  ))

  -- Asking with a cookie that may be sent is a step with one request.
  abbrev pub IsAsking :
      (Settings → Call → Cookie → Client W → Result ClientError Response × Client W) → Type 0
  IsAsking ask =
      (cfg : Settings) (call : Call) (saved : Cookie) (c : Client W)
      → (is_honest c ≡ true → may_send saved cfg.revision c.log ≡ true)
      → IsStep left 1 c (ask cfg call saved c).1

  await-IsStep :
      (r : Result ClientError Response) (c d : Client W)
      → IsStep left 1 c d
      → IsStep left 1 c (await env (r, d)).1
  unfolding await
  await-IsStep r c d p =
      weaken (IsStep-trans p (world-IsStep d (env.wait d.world).1 (moves.at_wait d.world)))
        (omega arith)

  begin-IsAsking : (a : Admission) → IsAsking (begin env a)
  unfolding begin
  begin-IsAsking stale cfg call saved c safe = IsStep-refl 1 c
  begin-IsAsking (refused e) cfg call saved c safe = IsStep-refl 1 c
  begin-IsAsking admitted cfg call saved c safe =
      let sent = send_request env cfg call saved c in
      await-IsStep sent.0 c sent.1 (send_request-IsStep codec env moves cfg call saved c safe)

  pub admitted_request-IsAsking : IsAsking (admitted_request env)
  unfolding admitted_request is_honest
  admitted_request-IsAsking cfg call saved c safe =
      let admission = env.admit cfg.revision c.world in
      let d : Client W = record c { world = admission.1 } in
      let begun : IsStep left 1 c (begin env admission.0 cfg call saved d).1 =
        weaken
          (IsStep-trans (world-IsStep c admission.1 (moves.at_admit cfg.revision c.world))
            (begin-IsAsking admission.0 cfg call saved d safe))
          (omega arith) in
      ground (arith, IsStep-refl {left = left} 1 c, begun)

  module _ (fuel : ℕ)
      (ask : Settings → Call → Cookie → Client W → Result ClientError Response × Client W)
      (asking : IsAsking ask) (call : Call) where
    after_answer-IsStep :
        {n : ℕ} (last : Bool) (saved : Session)
        (again : Client W → Result Failure Response × Client W) (r : Result ClientError Response)
        (c : Client W)
        → ((d : Client W) → IsStep left n d (again d).1)
        → IsStep left n c (after_answer codec env fuel ask call last saved again (r, c)).1
    unfolding after_answer
    after_answer-IsStep {n = n} last saved again (err e) c more = IsStep-refl n c
    after_answer-IsStep {n = n} last saved again (ok r) c more =
        let gone : IsStep left 0 c (forget saved c) = forget-IsStep saved c in
        let round : IsStep left n c
            (then_with (login codec env fuel true (forget saved c)) (λ _. again)).1 =
          weaken (IsStep-trans gone (after_login-IsStep fuel (forget saved c) again more))
            (omega arith) in
        ground (arith, IsStep-refl {left = left} n c, round, weaken {n = n} gone (omega arith))

    attempt-IsStep :
        {n : ℕ} (last : Bool) (again : Client W → Result Failure Response × Client W) (c : Client W)
        → ((d : Client W) → IsStep left n d (again d).1)
        → IsStep left (1 + n) c (attempt codec env fuel ask call last again c).1
    unfolding attempt
    attempt-IsStep last again c more =
        let found = session_for codec env fuel c in
        weaken
          (then_with-IsStep IsFound c found _ (session_for-IsStep fuel c) (session_for-Gives fuel c)
            (λ f d may.
              let reply = ask f.0 call f.1.cookie d in
              IsStep-trans (asking f.0 call f.1.cookie d may)
                (after_answer-IsStep last f.1 again reply.0 reply.1 more)))
          (omega arith)

    pub attempts-IsStep :
        (n : ℕ) (c : Client W) → IsStep left n c (attempts codec env fuel ask call n c).1
    unfolding attempts
    attempts-IsStep zero c = IsStep-refl 0 c
    attempts-IsStep (suc n) c =
        weaken
          (attempt-IsStep (n == 0) (attempts codec env fuel ask call n) c
            (λ d. attempts-IsStep n d))
          (omega arith)
