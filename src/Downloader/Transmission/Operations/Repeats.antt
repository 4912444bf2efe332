-- ===== src/Downloader/Transmission/Operations/Repeats.antt =====
-- When a call of the client of Transmission sends a second request.
use mathlib.Core.Path.{subst}
use jproxy_go.Common.{
  ◌≡◌, refl, ap, ◌∙◌, ◌≢◌, ◌⊎◌, inl, inr, Bool, true, false, List, ◌∷◌, arith, ◌==◌, Bool-cases,
  Text, is_empty, trim_space, Result, ok, err,
}
use jproxy_go.Downloader.{ClientError, Admission, admitted, stale, refused}
use jproxy_go.Downloader.Transmission.{
  Settings, Session, Response, Outcome, Exchange, Client, Codec, Env, response_of, session_for,
  compare_and_swap_session, build, send_request, await, begin, admitted_request, answered, failed,
}
use jproxy_go.Downloader.Transmission.Calls.{after_second, challenged, after_first, exchange_body}

-- The answer is a conflict.
abbrev pub is_conflict : Outcome → Bool
is_conflict (answered r) = r.status == 409
is_conflict (failed e) = false

-- One call: no request, or one, or two, of which the first was answered with a conflict.
abbrev pub IsCall : List Exchange → List Exchange → Type 0
IsCall before after =
    (after ≡ before)
    ⊎ ((x : Exchange) × (after ≡ x ∷ before))
    ⊎ ((x : Exchange) × ((y : Exchange) × (after ≡ y ∷ x ∷ before)
          × (is_conflict x.outcome ≡ true)))

told :
    (o : Outcome) (a : Response)
    → response_of o ≡ ok a
    → (a.status == 409) ≡ true
    → is_conflict o ≡ true
unfolding response_of
told (failed e) a h conflict = cc
told (answered r) a h conflict = ground arith

-- At most one more request.
abbrev IsOneMore : List Exchange → List Exchange → Type 0
IsOneMore before after = (after ≡ before) ⊎ ((x : Exchange) × (after ≡ x ∷ before))

module _ {W : Type 0} where
  -- Asking once: without a request there is no answer, and an answer that is a conflict is in the log.
  abbrev pub IsOnce : List Exchange → Result ClientError Response × Client W → Type 0
  IsOnce before r =
      ((r.1.log ≡ before) × ((a : Response) → r.0 ≢ ok a))
      ⊎ ((x : Exchange) × (r.1.log ≡ x ∷ before)
          × ((a : Response) → r.0 ≡ ok a → (a.status == 409) ≡ true → is_conflict x.outcome ≡ true))

  pub send_request-IsOnce :
      (env : Env W) (cfg : Settings) (body : Text) (saved : Session) (c : Client W)
      → IsOnce c.log (send_request env cfg body saved c)
  unfolding send_request
  send_request-IsOnce env cfg body saved c = elim (Bool-cases (env.can_build cfg.endpoint)) [
    | inl can ↦
        let sent = env.send (build cfg body saved) c.world in
        rw can (
          inr (
            record { revision = cfg.revision; request = build cfg body saved; outcome = sent.0 },
            refl,
            told sent.0,
          ))
    | inr cannot ↦ rw cannot (inl (refl, λ a h. cc))
  ]

  await-IsOnce :
      (env : Env W) (before : List Exchange) (r : Result ClientError Response) (c : Client W)
      → IsOnce before (r, c)
      → IsOnce before (await env (r, c))
  unfolding await
  await-IsOnce env before r c (inl (same, nothing)) = inl (same, λ a h. ground (arith, nothing a))
  await-IsOnce env before r c (inr (x, one, was)) = inr (x, one, λ a h. ground (arith, was a))

  begin-IsOnce :
      (env : Env W) (a : Admission) (cfg : Settings) (body : Text) (saved : Session) (c : Client W)
      → IsOnce c.log (begin env a cfg body saved c)
  unfolding begin
  begin-IsOnce env stale cfg body saved c = inl (refl, λ a h. cc)
  begin-IsOnce env (refused e) cfg body saved c = inl (refl, λ a h. cc)
  begin-IsOnce env admitted cfg body saved c =
      let sent = send_request env cfg body saved c in
      await-IsOnce env c.log sent.0 sent.1 (send_request-IsOnce env cfg body saved c)

  pub admitted_request-IsOnce :
      (env : Env W) (cfg : Settings) (body : Text) (saved : Session) (c : Client W)
      → IsOnce c.log (admitted_request env cfg body saved c)
  unfolding admitted_request begin send_request await
  admitted_request-IsOnce env cfg body saved c = elim (Bool-cases env.can_admit) [
    | inl can ↦
        let admission = env.admit cfg.revision c.world in
        rw can (begin-IsOnce env admission.0 cfg body saved (record c { world = admission.1 }))
    | inr cannot ↦ rw cannot (inl (refl, λ a h. cc))
  ]

  swapped_log :
      (saved next : Session) (c : Client W) → (compare_and_swap_session saved next c).log ≡ c.log
  unfolding compare_and_swap_session
  swapped_log saved next c = ground arith

  module _ {J A : Type 0} (codec : Codec J) (method : Text) (decode : J → Result ClientError A)
      (ask : Settings → Text → Session → Client W → Result ClientError Response × Client W)
      (once : (cfg : Settings) (body : Text) (saved : Session) (c : Client W)
        → IsOnce c.log (ask cfg body saved c))
      (recheck : Settings → W → Bool × W) where
    after_second-IsOneMore :
        (before : List Exchange) (r : Result ClientError Response) (c : Client W)
        → IsOnce before (r, c)
        → IsOneMore before (after_second codec method decode ask recheck (r, c)).1.log
    unfolding after_second
    after_second-IsOneMore before (err e) c (inl (same, nothing)) = inl same
    after_second-IsOneMore before (err e) c (inr (x, one, was)) = inr (x, one)
    after_second-IsOneMore before (ok r) c (inl (same, nothing)) = absurd (nothing r refl)
    after_second-IsOneMore before (ok r) c (inr (x, one, was)) = inr (x, ground (arith, one))

    second-IsOneMore :
        (cfg : Settings) (body : Text) (saved next : Session) (c : Client W)
        → IsOneMore c.log
            (after_second codec method decode ask recheck
              (ask cfg body next (compare_and_swap_session saved next c))).1.log
    second-IsOneMore cfg body saved next c =
        let swapped = compare_and_swap_session saved next c in
        let asked = ask cfg body next swapped in
        after_second-IsOneMore c.log asked.0 asked.1
          (subst (λ log. IsOnce log asked) (swapped_log saved next c) (once cfg body next swapped))

    challenged-IsOneMore :
        (cfg : Settings) (body : Text) (saved : Session) (challenge : Text) (c : Client W)
        → IsOneMore c.log
            (challenged codec method decode ask recheck cfg body saved challenge c).1.log
    unfolding challenged
    challenged-IsOneMore cfg body saved challenge c =
        let checked = recheck cfg c.world in
        elim (Bool-cases (is_empty (trim_space challenge))) [
          | inl blank ↦ rw blank (inl refl)
          | inr text ↦ elim (Bool-cases checked.0) [
            | inl same ↦
                rw (text, same)
                  (second-IsOneMore cfg body saved
                    (record { id = challenge; revision = cfg.revision })
                    (record c { world = checked.1 }))
            | inr other ↦ rw (text, other) (inl refl)
          ]
        ]

    two_requests :
        (before middle after : List Exchange) (x : Exchange)
        → middle ≡ x ∷ before
        → is_conflict x.outcome ≡ true
        → IsOneMore middle after
        → IsCall before after
    two_requests before middle after x one conflict (inl same) = inr (inl (x, same ∙ one))
    two_requests before middle after x one conflict (inr (y, two)) =
        inr (inr (x, (y, two ∙ ap (λ log. y ∷ log) one, conflict)))

    after_first-IsCall :
        (cfg : Settings) (body : Text) (saved : Session) (before : List Exchange)
        (r : Result ClientError Response) (c : Client W)
        → IsOnce before (r, c)
        → IsCall before (after_first codec method decode ask recheck cfg body saved (r, c)).1.log
    unfolding after_first
    after_first-IsCall cfg body saved before (err e) c (inl (same, nothing)) = inl same
    after_first-IsCall cfg body saved before (err e) c (inr (x, one, was)) = inr (inl (x, one))
    after_first-IsCall cfg body saved before (ok r) c (inl (same, nothing)) =
        absurd (nothing r refl)
    after_first-IsCall cfg body saved before (ok r) c (inr (x, one, was)) =
        elim (Bool-cases (r.status == 409)) [
          | inl conflict ↦ rw conflict (
              two_requests before c.log
                (challenged codec method decode ask recheck cfg body saved r.session_id c).1.log x
                one (was r refl conflict) (challenged-IsOneMore cfg body saved r.session_id c))
          | inr none_such ↦ rw none_such (inr (inl (x, one)))
        ]

    pub exchange_body-IsCall :
        (cfg : Settings) (body : Result ClientError Text) (c : Client W)
        → IsCall c.log (exchange_body codec method decode ask recheck cfg body c).1.log
    unfolding exchange_body
    exchange_body-IsCall cfg (err e) c = inl refl
    exchange_body-IsCall cfg (ok body) c =
        let saved = session_for cfg.revision c in
        let asked = ask cfg body saved c in
        after_first-IsCall cfg body saved c.log asked.0 asked.1 (once cfg body saved c)
