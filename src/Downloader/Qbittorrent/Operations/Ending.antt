-- ===== src/Downloader/Qbittorrent/Operations/Ending.antt =====
-- Every operation of the client of qBittorrent comes to an end.
use jproxy_go.Common.{
  ℕ, zero, suc, ◌≤◌, ◌≡◌, refl, Bool, true, false, some, List, [], ◌∷◌, ◌++◌, arith, ◌==◌, Text,
  codes, Result, check, ok, err,
}
use jproxy_go.Downloader.{
  ClientError, Failure, Admission, bare, then_with, close_failed, unfinished, admitted, stale,
  refused,
}
use jproxy_go.Downloader.Qbittorrent.{
  Cookie, Session, Settings, Call, Response, Client, Codec, Env, build, send_request, await, begin,
  admitted_request,
}
use jproxy_go.Downloader.Qbittorrent.Operations.{
  forget, current_config, login, read_session, session_for, after_answer, attempt, attempts,
  authenticated, authenticated_mutation, names_of, files, post_mutation, rename, rename_file,
}
use jproxy_go.Downloader.Qbittorrent.Operations.Cookies.{IsStep, Gives-nothing, forget-IsStep}
use jproxy_go.Downloader.Qbittorrent.Operations.Steps.{config-IsStep, login-IsStep}
use jproxy_go.Downloader.Qbittorrent.Operations.Attempts.{session_for-IsStep}
use jproxy_go.Downloader.Qbittorrent.Operations.Runs.{
  Operation, error_of, run, log_in, list_files, rename_torrent, rename_torrent_file,
}
use jproxy_go.Downloader.Qbittorrent.Operations.Login.{
  IsSettling, is_finished, bare_finished, then_with_finished, config_finished, login_finished,
}

module _ {W : Type 0} (codec : Codec) (env : Env W) {left : W → ℕ}
    (settling : IsSettling env left) where
  read_session_finished : (c : Client W) → is_finished (read_session codec env c).0 ≡ true
  unfolding read_session
  read_session_finished c =
      then_with_finished codec env settling (λ _ _. Unit {0}) (current_config codec env c) _
        (config_finished codec env settling c) (Gives-nothing (current_config codec env c))
        (λ cfg d _. ground arith)

  module _ (fuel : ℕ) where
    -- Finishes from a world with fewer publications left than fuel.
    abbrev Ends : {A : Type 0} → (Client W → Result Failure A × Client W) → Type 0
    Ends f = (c : Client W) → suc (left c.world) ≤ fuel → is_finished (f c).0 ≡ true

    -- Any step after one that does not raise what is left.
    then_with-Ends :
        {A B : Type 0} {n : ℕ} (c : Client W) (r : Result Failure A × Client W)
        (next : A → Client W → Result Failure B × Client W)
        → suc (left c.world) ≤ fuel
        → is_finished r.0 ≡ true
        → IsStep left n c r.1
        → ((a : A) → Ends (next a))
        → is_finished (then_with r next).0 ≡ true
    unfolding then_with
    then_with-Ends c (err e, d) next enough p step ends = p
    then_with-Ends c (ok a, d) next enough p step ends =
        ends a d (omega (arith, enough, step.onward))

    session_for-Ends : Ends (session_for codec env fuel)
    unfolding session_for
    session_for-Ends c enough =
        then_with-Ends c (current_config codec env c) _ enough
          (config_finished codec env settling c) (config-IsStep codec env settling.moves c)
          (λ cfg d more.
            let entered =
              then_with-Ends d (login codec env fuel true d) (λ _. read_session codec env) more
                (login_finished codec env settling fuel true d more)
                (login-IsStep codec env settling.moves fuel true d)
                (λ _ e _. read_session_finished e) in
            ground (arith, entered))

    -- Asking does not raise what is left.
    abbrev IsMoving :
        (Settings → Call → Cookie → Client W → Result ClientError Response × Client W) → Type 0
    IsMoving ask =
        (cfg : Settings) (call : Call) (saved : Cookie) (c : Client W)
        → left (ask cfg call saved c).1.world ≤ left c.world

    send_moves : IsMoving (send_request env)
    unfolding send_request
    send_moves cfg call saved c =
        ground (arith, settling.moves.at_send (build cfg call saved) c.world)

    begin_moves : (a : Admission) → IsMoving (begin env a)
    unfolding begin await
    begin_moves stale cfg call saved c = omega arith
    begin_moves (refused e) cfg call saved c = omega arith
    begin_moves admitted cfg call saved c =
        let sent = send_request env cfg call saved c in
        omega (arith, send_moves cfg call saved c, settling.moves.at_wait sent.1.world)

    admitted_moves : IsMoving (admitted_request env)
    unfolding admitted_request
    admitted_moves cfg call saved c =
        let admission = env.admit cfg.revision c.world in
        ground (
          arith,
          settling.moves.at_admit cfg.revision c.world,
          begin_moves admission.0 cfg call saved (record c { world = admission.1 }),
        )

    module _ (ask : Settings → Call → Cookie → Client W → Result ClientError Response × Client W)
        (moving : IsMoving ask) (call : Call) where
      after_answer-Ends :
          (last : Bool) (saved : Session) (again : Client W → Result Failure Response × Client W)
          (r : Result ClientError Response)
          → Ends again
          → Ends (λ c. after_answer codec env fuel ask call last saved again (r, c))
      unfolding after_answer
      after_answer-Ends last saved again (err e) more c enough = refl
      after_answer-Ends last saved again (ok r) more c enough =
          let gone : IsStep left 0 c (forget saved c) = forget-IsStep saved c in
          let still : suc (left (forget saved c).world) ≤ fuel =
            omega (arith, enough, gone.onward) in
          let round =
            then_with-Ends (forget saved c) (login codec env fuel true (forget saved c))
              (λ _. again) still
              (login_finished codec env settling fuel true (forget saved c) still)
              (login-IsStep codec env settling.moves fuel true (forget saved c)) (λ _. more) in
          ground (arith, round)

      attempts-Ends : (n : ℕ) → Ends (attempts codec env fuel ask call n)
      unfolding attempts attempt
      attempts-Ends zero c enough = refl
      attempts-Ends (suc n) c enough =
          then_with-Ends c (session_for codec env fuel c) _ enough (session_for-Ends c enough)
            (session_for-IsStep codec env settling.moves fuel c)
            (λ found d more.
              let reply = ask found.0 call found.1.cookie d in
              after_answer-Ends (n == 0) found.1 (attempts codec env fuel ask call n) reply.0
                (attempts-Ends n) reply.1
                (omega (arith, more, moving found.0 call found.1.cookie d)))

    mutation-Ends :
        (path : Text) (values : List (Text × Text))
        → Ends (post_mutation codec env fuel path values)
    unfolding post_mutation authenticated_mutation
    mutation-Ends path values c enough =
        let call : Call = record {
          method = codes "POST";
          path = path;
          query = [];
          form = codec.encode values;
        } in
        let r = authenticated_mutation codec env fuel call c in
        then_with_finished codec env settling (λ _ _. Unit {0}) r _
          (attempts-Ends (admitted_request env) admitted_moves call 2 c enough) (Gives-nothing r)
          (λ answer d _. bare_finished (check answer.closes close_failed))

    files_end : (hash : Text) → Ends (files codec env fuel hash)
    unfolding files authenticated
    files_end hash c enough =
        let call : Call = record {
          method = codes "GET";
          path = codes "/api/v2/torrents/files";
          query = codes "hash=" ++ codec.escape hash;
          form = [];
        } in
        let r = authenticated codec env fuel call c in
        let ended =
          then_with_finished codec env settling (λ _ _. Unit {0}) r
            (λ answer d. (bare (names_of codec env answer.body), d))
            (attempts-Ends (send_request env) send_moves call 2 c enough) (Gives-nothing r)
            (λ answer d _. bare_finished (names_of codec env answer.body)) in
        ground (arith, ended)

    finished_error :
        {A : Type 0} (r : Result Failure A)
        → is_finished r ≡ true
        → ¬ (error_of r ≡ some unfinished)
    finished_error (ok a) h e = cc
    finished_error (err f) h e = ground arith

    -- If the configuration is published only finitely often more, then with more fuel than there are
    -- publications left every operation of the client ends, with a result or an error of the code: the loop
    -- of login does not go round for ever.
    pub run_ends :
        (o : Operation) (c : Client W)
        → suc (left c.world) ≤ fuel
        → ¬ ((run codec env fuel o c).0 ≡ some unfinished)
    unfolding run rename rename_file
    run_ends log_in c enough =
        finished_error (login codec env fuel false c).0
          (login_finished codec env settling fuel false c enough)
    run_ends (list_files hash) c enough =
        finished_error (files codec env fuel hash c).0 (files_end hash c enough)
    run_ends (rename_torrent hash name) c enough =
        let values : List (Text × Text) = (codes "hash", hash) ∷ (codes "name", name) ∷ [] in
        finished_error (rename codec env fuel hash name c).0
          (ground (arith, mutation-Ends (codes "/api/v2/torrents/rename") values c enough))
    run_ends (rename_torrent_file hash old new) c enough =
        let values : List (Text × Text) =
          (codes "hash", hash) ∷ (codes "oldPath", old) ∷ (codes "newPath", new) ∷ [] in
        finished_error (rename_file codec env fuel hash old new c).0
          (ground (arith, mutation-Ends (codes "/api/v2/torrents/renameFile") values c enough))
