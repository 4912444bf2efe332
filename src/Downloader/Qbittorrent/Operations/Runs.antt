-- ===== src/Downloader/Qbittorrent/Operations/Runs.antt =====
-- The operations of the client of qBittorrent, one after the other.
use jproxy_go.Common.{
  ℕ, ◌+◌, ◌*◌, ◌≤◌, ◌≡◌, refl, true, false, Option, none, some, List, [], ◌∷◌, ◌++◌, arith, length,
  Text, codes, Result, ok, err,
}
use jproxy_go.Downloader.{Failure, bare, then_with}
use jproxy_go.Downloader.Qbittorrent.{
  no_session, Call, Client, Codec, Env, send_request, admitted_request,
}
use jproxy_go.Downloader.Qbittorrent.Operations.{
  login, authenticated, authenticated_mutation, names_of, files, post_mutation, rename, rename_file,
}
use jproxy_go.Downloader.Qbittorrent.Operations.Cookies.{
  all_given, is_honest, asked, IsOnward, IsStep, Gives-nothing, IsStep-refl, IsStep-trans, weaken,
  then_with-IsStep,
}
use jproxy_go.Downloader.Qbittorrent.Operations.Steps.{send_request-IsStep, login-IsStep}
use jproxy_go.Downloader.Qbittorrent.Operations.Attempts.{
  admitted_request-IsAsking, attempts-IsStep,
}

-- The methods of the client that send requests.
pub data Operation : Type 0 where
  log_in : Operation
  list_files : Text → Operation
  rename_torrent : Text → Text → Operation
  rename_torrent_file : Text → Text → Text → Operation

-- A client as New makes it.
abbrev pub new_client : {W : Type 0} → W → Client W
new_client w = record { session = no_session; log = []; world = w }

-- How many requests an operation may send besides those of login.
abbrev pub most_requests : Operation → ℕ
most_requests log_in = 0
most_requests _ = 2

-- The error of a result.
abbrev pub error_of : {A : Type 0} → Result Failure A → Option Failure
error_of (ok a) = none
error_of (err e) = some e

module _ {W : Type 0} (codec : Codec) (env : Env W) (fuel : ℕ) where
  -- What an operation makes of the client, with its error.
  unfoldable pub run : Operation → Client W → Option Failure × Client W
  run log_in c = let r = login codec env fuel false c in (error_of r.0, r.1)
  run (list_files hash) c = let r = files codec env fuel hash c in (error_of r.0, r.1)
  run (rename_torrent hash name) c =
      let r = rename codec env fuel hash name c in (error_of r.0, r.1)
  run (rename_torrent_file hash old new) c =
      let r = rename_file codec env fuel hash old new c in (error_of r.0, r.1)

  unfoldable pub run_all : List Operation → Client W → Client W
  run_all [] c = c
  run_all (o ∷ os) c = run_all os (run o c).1

  module _ {left : W → ℕ} (moves : IsOnward env left) where
    authenticated-IsStep :
        (call : Call) (c : Client W) → IsStep left 2 c (authenticated codec env fuel call c).1
    unfolding authenticated
    authenticated-IsStep call c =
        attempts-IsStep codec env moves fuel (send_request env)
          (send_request-IsStep codec env moves) call 2 c

    post_mutation-IsStep :
        (path : Text) (values : List (Text × Text)) (c : Client W)
        → IsStep left 2 c (post_mutation codec env fuel path values c).1
    unfolding post_mutation authenticated_mutation then_with
    post_mutation-IsStep path values c =
        let call : Call = record {
          method = codes "POST";
          path = path;
          query = [];
          form = codec.encode values;
        } in
        let r = authenticated_mutation codec env fuel call c in
        weaken
          (then_with-IsStep {n = 0} (λ _ _. Unit {0}) c r _
            (attempts-IsStep codec env moves fuel (admitted_request env)
              (admitted_request-IsAsking codec env moves) call 2 c)
            (Gives-nothing r) (λ _ d _. IsStep-refl 0 d))
          (omega arith)

    files-IsStep : (hash : Text) (c : Client W) → IsStep left 2 c (files codec env fuel hash c).1
    unfolding files
    files-IsStep hash c =
        let call : Call = record {
          method = codes "GET";
          path = codes "/api/v2/torrents/files";
          query = codes "hash=" ++ codec.escape hash;
          form = [];
        } in
        let r = authenticated codec env fuel call c in
        let step =
          then_with-IsStep {n = 0} (λ _ _. Unit {0}) c r
            (λ answer d. (bare (names_of codec env answer.body), d)) (authenticated-IsStep call c)
            (Gives-nothing r) (λ _ d _. IsStep-refl 0 d) in
        ground (arith, IsStep-refl {left = left} 2 c, weaken {n = 2} step (omega arith))

    pub run-IsStep : (o : Operation) (c : Client W) → IsStep left 2 c (run o c).1
    unfolding run rename rename_file
    run-IsStep log_in c = weaken (login-IsStep codec env moves fuel false c) (omega arith)
    run-IsStep (list_files hash) c = files-IsStep hash c
    run-IsStep (rename_torrent hash name) c =
        let values : List (Text × Text) = (codes "hash", hash) ∷ (codes "name", name) ∷ [] in
        ground (
          arith,
          IsStep-refl {left = left} 2 c,
          post_mutation-IsStep (codes "/api/v2/torrents/rename") values c,
        )
    run-IsStep (rename_torrent_file hash old new) c =
        let values : List (Text × Text) =
          (codes "hash", hash) ∷ (codes "oldPath", old) ∷ (codes "newPath", new) ∷ [] in
        ground (
          arith,
          IsStep-refl {left = left} 2 c,
          post_mutation-IsStep (codes "/api/v2/torrents/renameFile") values c,
        )

    run_all-IsStep :
        (os : List Operation) (c : Client W) → IsStep left (2 * length os) c (run_all os c)
    unfolding run_all
    run_all-IsStep [] c = IsStep-refl 0 c
    run_all-IsStep (o ∷ os) c =
        weaken (IsStep-trans (run-IsStep o c) (run_all-IsStep os (run o c).1)) (omega arith)

  no_measure : IsOnward env (λ _. 0)
  no_measure = record {
    at_snapshot = λ w. omega arith;
    at_send = λ q w. omega arith;
    at_admit = λ n w. omega arith;
    at_wait = λ w. omega arith;
  }

  -- Whatever the endpoint answers and however the configuration changes meanwhile: after any operations of a
  -- new client, every request that carried a cookie carried one that an answer of success gave before it under
  -- the same revision of the configuration; and so does the session that is kept.
  pub run_all-is_honest :
      (os : List Operation) (w : W) → is_honest (run_all os (new_client w)) ≡ true
  unfolding is_honest all_given
  run_all-is_honest os w = (run_all-IsStep no_measure os (new_client w)).stays refl

  -- Whatever state the client is in, whatever the endpoint answers and however the configuration changes:
  -- an operation sends at most two requests besides those to the path of login, and Login sends none.
  pub run-sends :
      (o : Operation) (c : Client W) → asked (run o c).1.log ≤ most_requests o + asked c.log
  unfolding run
  run-sends log_in c = (login-IsStep codec env no_measure fuel false c).sends
  run-sends (list_files hash) c = (run-IsStep no_measure (list_files hash) c).sends
  run-sends (rename_torrent hash name) c =
      (run-IsStep no_measure (rename_torrent hash name) c).sends
  run-sends (rename_torrent_file hash old new) c =
      (run-IsStep no_measure (rename_torrent_file hash old new) c).sends
