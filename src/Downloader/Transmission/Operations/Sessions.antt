-- ===== src/Downloader/Transmission/Operations/Sessions.antt =====
-- The session identifiers that the client of Transmission sends: where they come from, and how often a call
-- asks again.
use jproxy_go.Common.{
  ℕ, ◌+◌, ◌≤◌, ◌≡◌, refl, inl, inr, Bool, true, false, ◌&&◌, ◌||◌, none, some, List, [], ◌∷◌, arith,
  ◌==◌, Bool-cases, length, Text, text_eq, text_eq_refl, is_empty, Result, ok, err,
}
use jproxy_go.Downloader.{ClientError, Admission, admitted, stale, refused}
use jproxy_go.Downloader.Transmission.Calls.{after_second, challenged, after_first, exchange_body}
use jproxy_go.Downloader.Transmission.{
  Settings, Session, Response, Outcome, Exchange, Client, Codec, Env, response_of, session_for,
  compare_and_swap_session, build, send_request, await, begin, admitted_request, answered, failed,
}

-- Whether an answer is a challenge with an identifier.
unfoldable pub challenges : Text → Outcome → Bool
challenges id (answered r) = r.status == 409 && text_eq r.session_id id
challenges id (failed e) = false

-- Whether a challenge under a revision of the configuration gave an identifier.
unfoldable pub is_earned : Text → ℕ → List Exchange → Bool
is_earned id revision [] = false
is_earned id revision (x ∷ log) =
    (x.revision == revision && challenges id x.outcome) || is_earned id revision log

unfoldable pub carries_earned : Exchange → List Exchange → Bool
carries_earned x log = elim x.request.session_id [
  | none ↦ true
  | some id ↦ is_earned id x.revision log
]

-- Whether every request carries no identifier, or one that was given before it under its own revision.
unfoldable pub all_earned : List Exchange → Bool
all_earned [] = true
all_earned (x ∷ log) = carries_earned x log && all_earned log

-- Whether a session may be sent under a revision.
abbrev pub may_send : Session → ℕ → List Exchange → Bool
may_send saved revision log = is_empty saved.id || is_earned saved.id revision log

unfoldable pub is_honest : {W : Type 0} → Client W → Bool
is_honest c = all_earned c.log && may_send c.session c.session.revision c.log

-- A client becomes another one with at most so many more requests, and stays honest.
pub record IsStep {W : Type 0} (n : ℕ) (c d : Client W) : Type 0 where
  pub stays : is_honest c ≡ true → is_honest d ≡ true
  pub sends : length d.log ≤ n + length c.log

module _ {W : Type 0} where
  pub IsStep-refl : (n : ℕ) (c : Client W) → IsStep n c c
  IsStep-refl n c = record { stays = λ h. h; sends = omega arith }

  pub IsStep-trans : {m n : ℕ} {a b c : Client W} → IsStep m a b → IsStep n b c → IsStep (m + n) a c
  IsStep-trans p q = record {
    stays = λ h. q.stays (p.stays h);
    sends = omega (arith, p.sends, q.sends);
  }

  -- What asking gives: an answer that is a challenge is in the log.
  abbrev IsTold : ℕ → Result ClientError Response → Client W → Type 0
  IsTold revision r c =
      (answer : Response)
      → r ≡ ok answer
      → (answer.status == 409) ≡ true
      → is_earned answer.session_id revision c.log ≡ true

  abbrev IsCareful :
      (Settings → Text → Session → Client W → Result ClientError Response × Client W) → Type 0
  IsCareful ask =
      (cfg : Settings) (body : Text) (saved : Session) (c : Client W)
      → (is_honest c ≡ true → may_send saved cfg.revision c.log ≡ true)
      → IsStep 1 c (ask cfg body saved c).1
        × IsTold cfg.revision (ask cfg body saved c).0 (ask cfg body saved c).1

  told :
      (o : Outcome) (cfg : Settings) (body : Text) (saved : Session) (c : Client W) (w : W)
      → IsTold cfg.revision (response_of o) (record c {
        log =
            record { revision = cfg.revision; request = build cfg body saved; outcome = o } ∷ c.log;
        world = w;
      })
  unfolding response_of is_earned challenges
  told (failed e) cfg body saved c w answer h conflict = cc
  told (answered r) cfg body saved c w answer h conflict =
      ground (arith, text_eq_refl answer.session_id)

  request-IsStep :
      (env : Env W) (cfg : Settings) (body : Text) (saved : Session) (c : Client W)
      → (is_honest c ≡ true → may_send saved cfg.revision c.log ≡ true)
      → IsStep 1 c (send_request env cfg body saved c).1
  unfolding send_request is_honest all_earned carries_earned is_earned
  request-IsStep env cfg body saved c safe = record {
    stays = λ h. ground (arith, safe h);
    sends = ground arith;
  }

  pub request-IsCareful : (env : Env W) → IsCareful (send_request env)
  unfolding send_request
  request-IsCareful env cfg body saved c safe =
      let sent = env.send (build cfg body saved) c.world in
      (
        request-IsStep env cfg body saved c safe,
        λ answer h conflict. ground (arith, told sent.0 cfg body saved c sent.1 answer),
      )

  await-IsTold :
      (env : Env W) (revision : ℕ) (r : Result ClientError Response) (c : Client W)
      → IsTold revision r c
      → IsTold revision (await env (r, c)).0 (await env (r, c)).1
  unfolding await
  await-IsTold env revision r c was answer h conflict = ground (arith, was answer)

  await-IsStep :
      (env : Env W) (r : Result ClientError Response) (c d : Client W)
      → IsStep 1 c d
      → IsStep 1 c (await env (r, d)).1
  unfolding await is_honest
  await-IsStep env r c d p = record { stays = λ h. ground (arith, p.stays h); sends = p.sends }

  begin-IsCareful : (env : Env W) (a : Admission) → IsCareful (begin env a)
  unfolding begin
  begin-IsCareful env stale cfg body saved c safe = (IsStep-refl 1 c, λ answer h conflict. cc)
  begin-IsCareful env (refused e) cfg body saved c safe = (IsStep-refl 1 c, λ answer h conflict. cc)
  begin-IsCareful env admitted cfg body saved c safe =
      let (step, was) = request-IsCareful env cfg body saved c safe in
      let sent = send_request env cfg body saved c in
      (await-IsStep env sent.0 c sent.1 step, await-IsTold env cfg.revision sent.0 sent.1 was)

  pub world-IsStep : (c : Client W) (w : W) → IsStep 0 c (record c { world = w })
  unfolding is_honest
  world-IsStep c w = record { stays = λ h. h; sends = omega arith }

  pub admitted_request-IsCareful : (env : Env W) → IsCareful (admitted_request env)
  unfolding admitted_request is_honest begin send_request await
  admitted_request-IsCareful env cfg body saved c safe = elim (Bool-cases env.can_admit) [
    | inl can ↦
        let admission = env.admit cfg.revision c.world in
        let (step, was) =
          begin-IsCareful env admission.0 cfg body saved (record c { world = admission.1 }) safe in
        rw can (IsStep-trans (world-IsStep c admission.1) step, was)
    | inr cannot ↦ rw cannot (IsStep-refl 1 c, λ answer h conflict. cc)
  ]

  swap-honest :
      (saved : Session) (id : Text) (revision : ℕ) (c : Client W)
      → is_honest c ≡ true
      → is_earned id revision c.log ≡ true
      → is_honest (compare_and_swap_session saved (record { id = id; revision = revision }) c)
        ≡ true
  unfolding is_honest compare_and_swap_session
  swap-honest saved id revision c h earned = ground arith

  swap_log :
      (saved next : Session) (c : Client W) → (compare_and_swap_session saved next c).log ≡ c.log
  unfolding compare_and_swap_session
  swap_log saved next c = ground arith

  module _ {J A : Type 0} (codec : Codec J) (method : Text) (decode : J → Result ClientError A)
      (ask : Settings → Text → Session → Client W → Result ClientError Response × Client W)
      (careful : IsCareful ask) (recheck : Settings → W → Bool × W) where
    after_second-IsStep :
        (r : Result ClientError Response) (c d : Client W)
        → IsStep 1 c d
        → IsStep 1 c (after_second codec method decode ask recheck (r, d)).1
    unfolding after_second
    after_second-IsStep (err e) c d p = p
    after_second-IsStep (ok r) c d p = ground (arith, p)

    second-IsStep :
        (cfg : Settings) (body : Text) (saved : Session) (challenge : Text) (c : Client W)
        → is_earned challenge cfg.revision c.log ≡ true
        → let next : Session = record { id = challenge; revision = cfg.revision } in
          IsStep 1 c
            (after_second codec method decode ask recheck
              (ask cfg body next (compare_and_swap_session saved next c))).1
    second-IsStep cfg body saved challenge c earned =
        let next : Session = record { id = challenge; revision = cfg.revision } in
        let swapped : Client W = compare_and_swap_session saved next c in
        let same : swapped.log ≡ c.log = swap_log saved next c in
        let swap : IsStep 0 c swapped = record {
          stays = λ h. swap-honest saved challenge cfg.revision c h earned;
          sends = ground (arith, same);
        } in
        let (step, _) = careful cfg body next swapped (λ h. ground (arith, same, earned)) in
        let asked = ask cfg body next swapped in
        IsStep-trans swap (after_second-IsStep asked.0 swapped asked.1 step)

    challenged-IsStep :
        (cfg : Settings) (body : Text) (saved : Session) (challenge : Text) (c : Client W)
        → is_earned challenge cfg.revision c.log ≡ true
        → IsStep 1 c (challenged codec method decode ask recheck cfg body saved challenge c).1
    unfolding challenged is_honest
    challenged-IsStep cfg body saved challenge c earned =
        let checked = recheck cfg c.world in
        let d : Client W = record c { world = checked.1 } in
        ground (arith, second-IsStep cfg body saved challenge d earned, world-IsStep c checked.1)

    after_first-IsStep :
        (cfg : Settings) (body : Text) (saved : Session) (r : Result ClientError Response)
        (c : Client W)
        → IsTold cfg.revision r c
        → IsStep 1 c (after_first codec method decode ask recheck cfg body saved (r, c)).1
    unfolding after_first
    after_first-IsStep cfg body saved (err e) c was = IsStep-refl 1 c
    after_first-IsStep cfg body saved (ok r) c was = elim (Bool-cases (r.status == 409)) [
      | inl conflict ↦
          rw conflict (challenged-IsStep cfg body saved r.session_id c (was r refl conflict))
      | inr none_such ↦ rw none_such (IsStep-refl 1 c)
    ]

    pub exchange_body-IsStep :
        (cfg : Settings) (body : Result ClientError Text) (c : Client W)
        → IsStep 2 c (exchange_body codec method decode ask recheck cfg body c).1
    unfolding exchange_body session_for is_honest
    exchange_body-IsStep cfg (err e) c = IsStep-refl 2 c
    exchange_body-IsStep cfg (ok body) c =
        let saved = session_for cfg.revision c in
        let (step, was) = careful cfg body saved c (λ h. ground arith) in
        let asked = ask cfg body saved c in
        IsStep-trans step (after_first-IsStep cfg body saved asked.0 asked.1 was)
