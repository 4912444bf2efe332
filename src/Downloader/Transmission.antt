-- ===== src/Downloader/Transmission.antt =====
-- internal/downloader/transmission: the session with Transmission and the requests of client.go and
-- mutation.go. The program around the client is a type of worlds: what a snapshot, a request or an admission
-- does to it is a parameter, so that the configuration may change between any two of them. JSON is a
-- parameter too. The log is not in the code.
pub mod Calls
pub mod Operations
use jproxy_go.Common.{
  ℕ, Bool, ◌&&◌, ◌||◌, not, Option, none, some, List, [], ◌∷◌, ℤ, ltb, ◌==◌, if◌then◌else◌, Text,
  codes, text_eq, is_empty, Result, ok, err,
}
use jproxy_go.Runtime.Snapshot.{Snapshot}
use jproxy_go.Transmissionconfig.{Url}
use jproxy_go.Downloader.{
  ClientError, SendError, ReadError, Body, is_redirect, Admission, invalid_config, timeout,
  redirect_rejected, transport_failed, config_changed, canceled, admitted, stale, refused,
}

-- config
pub record Settings : Type 0 where
  pub endpoint : Url
  pub username : Text
  pub password : Text
  pub revision : ℕ

-- session
pub record Session : Type 0 where
  pub id : Text
  pub revision : ℕ

abbrev pub no_session : Session
no_session = record { id = []; revision = 0 }

abbrev pub same_session : Session → Session → Bool
same_session a b = text_eq a.id b.id && a.revision == b.revision

-- The requests that the client makes, each a method with its arguments.
pub data Rpc : Type 0 where
  session_get : List Text → Rpc
  torrent_get : List Text → List Text → Rpc
  rename_path : List ℤ → Text → Text → Rpc

abbrev pub method_of : Rpc → Text
method_of (session_get fields) = codes "session-get"
method_of (torrent_get ids fields) = codes "torrent-get"
method_of (rename_path ids path name) = codes "torrent-rename-path"

-- An HTTP request: its basic authentication and its header X-Transmission-Session-Id where it has them.
pub record Request : Type 0 where
  pub endpoint : Url
  pub body : Text
  pub basic_auth : Option (Text × Text)
  pub session_id : Option Text

pub record Response : Type 0 where
  pub status : ℕ
  pub session_id : Text
  pub body : Body

pub data Outcome : Type 0 where
  answered : Response → Outcome
  failed : SendError → Outcome

-- One request that was sent, under which revision of the configuration, and what came of it.
pub record Exchange : Type 0 where
  pub revision : ℕ
  pub request : Request
  pub outcome : Outcome

-- The client: its session, the exchanges so far (the last one first) and the world.
pub record Client (W : Type 0) : Type 0 where
  pub session : Session
  pub log : List Exchange
  pub world : W

-- responseEnvelope
pub record Envelope (J : Type 0) : Type 0 where
  pub result : Option Text
  pub arguments : Option J

-- torrentWire
pub record TorrentWire (J : Type 0) : Type 0 where
  pub id : Option J
  pub name : Option Text
  pub files : Option (List Text)

pub record RenameWire (J : Type 0) : Type 0 where
  pub path : Option Text
  pub name : Option Text
  pub id : Option J

-- The packages encoding/json and net/url: the documents that json.Marshal prints, the envelope of a document
-- with whether nothing follows it, and the values of a raw message.
pub record Codec (J : Type 0) : Type 0 where
  pub marshal : Rpc → Option Text
  pub envelope : Text → Option (Envelope J × Bool)
  pub is_null : J → Bool
  pub version_of : J → Option (Option Text)
  pub torrents_of : J → Option (Option J)
  pub torrent_list : J → Option (List (TorrentWire J))
  pub rename_of : J → Option (RenameWire J)
  pub int64_of : J → Option ℤ
  pub parse_url : Text → Option Url

-- The provider of snapshots and the HTTP client; `wait` is the select that waits for the answer of a request
-- that was begun, or gives the error of the context that was done before.
pub record Env (W : Type 0) : Type 0 where
  pub snapshot : W → Snapshot × W
  pub can_build : Url → Bool
  pub send : Request → W → Outcome × W
  pub can_admit : Bool
  pub admit : ℕ → W → Admission × W
  pub wait : W → Option ClientError × W

-- The errors that requestStarted makes of an error of Do.
unfoldable pub classify : SendError → ClientError
classify e =
    if e.is_canceled
    then canceled
    else if e.past_deadline
    then timeout
    else if e.use_last_response
    then redirect_rejected
    else if e.network_timeout
    then timeout
    else transport_failed

-- classifyReadError
unfoldable pub classify_read_error : ReadError → ClientError
classify_read_error e =
    if e.is_canceled
    then canceled
    else if e.past_deadline
    then timeout
    else if e.past_request_deadline
    then timeout
    else transport_failed

unfoldable pub response_of : Outcome → Result ClientError Response
response_of (failed e) = err (classify e)
response_of (answered r) = if is_redirect r.status then err redirect_rejected else ok r

-- The method sessionFor
unfoldable pub session_for : {W : Type 0} → ℕ → Client W → Session
session_for revision c = if c.session.revision == revision then c.session else no_session

-- compareAndSwapSession
unfoldable pub compare_and_swap_session : {W : Type 0} → Session → Session → Client W → Client W
compare_and_swap_session current next c =
    if same_session c.session current || ltb c.session.revision next.revision
    then record c { session = next }
    else c

-- The request that requestStarted builds.
abbrev pub build : Settings → Text → Session → Request
build cfg body saved = record {
  endpoint = cfg.endpoint;
  body = body;
  basic_auth =
      if not (is_empty cfg.username) || not (is_empty cfg.password)
      then some (cfg.username, cfg.password)
      else none;
  session_id = if not (is_empty saved.id) then some saved.id else none;
}

module _ {W : Type 0} (env : Env W) where
  -- request, requestStarted
  unfoldable pub send_request :
      Settings → Text → Session → Client W → Result ClientError Response × Client W
  send_request cfg body saved c =
      if not (env.can_build cfg.endpoint)
      then (err invalid_config, c)
      else let sent = env.send (build cfg body saved) c.world in
        let exchange : Exchange = record {
          revision = cfg.revision;
          request = build cfg body saved;
          outcome = sent.0;
        } in
        (response_of sent.0, record c { log = exchange ∷ c.log; world = sent.1 })

  -- The select at the end of admittedRequest.
  unfoldable pub await :
      Result ClientError Response × Client W → Result ClientError Response × Client W
  await (r, c) =
      let done = env.wait c.world in
      (elim done.0 [ none ↦ r | some e ↦ err e ], record c { world = done.1 })

  -- What admittedRequest does with the answer of AdmitTransmissionMutation.
  unfoldable pub begin :
      Admission → Settings → Text → Session → Client W → Result ClientError Response × Client W
  begin stale cfg body saved c = (err config_changed, c)
  begin (refused e) cfg body saved c = (err e, c)
  begin admitted cfg body saved c = await (send_request cfg body saved c)

  -- admittedRequest
  unfoldable pub admitted_request :
      Settings → Text → Session → Client W → Result ClientError Response × Client W
  admitted_request cfg body saved c =
      if not env.can_admit
      then (err config_changed, c)
      else let admission = env.admit cfg.revision c.world in
        begin admission.0 cfg body saved (record c { world = admission.1 })

  -- configUnchanged
  unfoldable pub config_unchanged : Settings → W → Bool × W
  config_unchanged cfg w =
      let read = env.snapshot w in (read.0.transmission_revision == cfg.revision, read.1)
