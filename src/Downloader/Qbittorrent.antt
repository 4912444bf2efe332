-- ===== src/Downloader/Qbittorrent.antt =====
-- internal/downloader/qbittorrent: the session with qBittorrent and its requests. The program around the
-- client is a type of worlds: what a snapshot, a request or an admission does to it is a parameter, so that
-- the configuration may change between any two of them. The log is not in the code.
pub mod Operations
use jproxy_go.Common.{
  ℕ, Bool, ◌&&◌, ◌||◌, not, Option, none, some, List, [], ◌∷◌, ◌++◌, ◌==◌, if◌then◌else◌, Text,
  codes, text_eq, has_control, is_empty, starts_with, trim_slashes, Result, ◌>>=◌, or_fail, check,
  ok, err,
}
use jproxy_go.Runtime.Snapshot.{Snapshot}
use jproxy_go.Transmissionconfig.{Url}
use jproxy_go.Downloader.{
  ClientError, SendError, Body, is_redirect, Admission, invalid_config, timeout, redirect_rejected,
  transport_failed, config_changed, canceled, admitted, stale, refused,
}

-- cookie
pub record Cookie : Type 0 where
  pub name : Text
  pub value : Text

-- session
pub record Session : Type 0 where
  pub cookie : Cookie
  pub revision : ℕ

abbrev pub no_cookie : Cookie
no_cookie = record { name = []; value = [] }

abbrev pub no_session : Session
no_session = record { cookie = no_cookie; revision = 0 }

-- config
pub record Settings : Type 0 where
  pub base : Url
  pub username : Text
  pub password : Text
  pub revision : ℕ

-- What a request asks for: its method, the path and the query after the base, and its form.
pub record Call : Type 0 where
  pub method : Text
  pub path : Text
  pub query : Text
  pub form : Text

-- An HTTP request. The form has its content type where it is not empty.
pub record Request : Type 0 where
  pub method : Text
  pub target : Url
  pub form : Text
  pub cookie : Option Cookie

pub record Response : Type 0 where
  pub status : ℕ
  pub cookies : List Cookie
  pub body : Body
  pub closes : Bool

pub data Outcome : Type 0 where
  answered : Response → Outcome
  failed : SendError → Outcome

-- One request that was sent, under which revision of the configuration, and what came of it.
pub record Exchange : Type 0 where
  pub revision : ℕ
  pub request : Request
  pub outcome : Outcome

-- The client: its session, the exchanges so far (the last one first) and the world.
pub record Client (W : Type 0) : Type 0 where
  pub session : Session
  pub log : List Exchange
  pub world : W

-- net/url and encoding/json: url.Parse, url.Values.Encode, url.QueryEscape, and the names of the files of a
-- document that nothing follows.
pub record Codec : Type 0 where
  pub parse_url : Text → Option Url
  pub encode : List (Text × Text) → Text
  pub escape : Text → Text
  pub file_list : Text → Option (List Text)

-- The provider of snapshots and the HTTP client; `wait` is the select that waits for the answer of a request
-- that was begun, or gives the error of the context that was done before.
pub record Env (W : Type 0) : Type 0 where
  pub snapshot : W → Snapshot × W
  pub can_build : Url → Bool
  pub send : Request → W → Outcome × W
  pub can_admit : Bool
  pub admit : ℕ → W → Admission × W
  pub wait : W → Option ClientError × W

-- The errors that doStarted makes of an error of Do.
unfoldable pub classify : SendError → ClientError
classify e =
    if e.is_canceled
    then canceled
    else if e.past_deadline
    then timeout
    else if e.network_timeout
    then timeout
    else transport_failed

unfoldable pub response_of : Outcome → Result ClientError Response
response_of (failed e) = err (classify e)
response_of (answered r) = if is_redirect r.status then err redirect_rejected else ok r

-- currentConfig, of the snapshot that is read
unfoldable pub settings_of : Codec → Snapshot → Result ClientError Settings
settings_of codec s = do
  _ ← check (not (is_empty s.qbittorrent_url)) invalid_config
  _ ← check (not (is_empty s.qbittorrent_username)) invalid_config
  _ ← check (not (is_empty s.qbittorrent_password)) invalid_config
  _ ← check (not (has_control s.qbittorrent_url)) invalid_config
  _ ← check (not (has_control s.qbittorrent_username)) invalid_config
  _ ← check (not (has_control s.qbittorrent_password)) invalid_config
  u ← or_fail (codec.parse_url s.qbittorrent_url) invalid_config
  _ ← check (text_eq u.scheme (codes "http") || text_eq u.scheme (codes "https")) invalid_config
  _ ← check (not (is_empty u.host)) invalid_config
  _ ← check (not u.has_user) invalid_config
  _ ← check (is_empty u.raw_query) invalid_config
  _ ← check (is_empty u.fragment) invalid_config
  ok (record {
    base = u;
    username = s.qbittorrent_username;
    password = s.qbittorrent_password;
    revision = s.qbittorrent_revision;
  })

-- The tests of the name and the value of a cookie that is received.
unfoldable pub is_sid : Cookie → Bool
is_sid c = text_eq c.name (codes "SID") && not (is_empty c.value)

unfoldable pub is_prefixed_sid : Cookie → Bool
is_prefixed_sid c = starts_with (codes "QBT_SID_") c.name && not (is_empty c.value)

-- The loop of login over the cookies of an answer, with the cookie that is kept so far.
unfoldable pub choose_cookie : Cookie → List Cookie → Cookie
choose_cookie saved [] = saved
choose_cookie saved (c ∷ cs) =
    let next = choose_cookie c cs in
    let same = choose_cookie saved cs in
    if is_sid c then c else if is_empty saved.value && is_prefixed_sid c then next else same

-- A session that may be used under a revision.
unfoldable pub is_usable : ℕ → Session → Bool
is_usable revision s = not (is_empty s.cookie.value) && s.revision == revision

-- The request that doStarted builds.
unfoldable pub build : Settings → Call → Cookie → Request
build cfg call saved = record {
  method = call.method;
  target = record cfg.base {
    path = trim_slashes cfg.base.path ++ call.path;
    raw_query = call.query;
  };
  form = call.form;
  cookie = if not (is_empty saved.value) then some saved else none;
}

-- The request of login.
abbrev pub login_call : Codec → Settings → Call
login_call codec cfg = record {
  method = codes "POST";
  path = codes "/api/v2/auth/login";
  query = [];
  form = codec.encode ((codes "username", cfg.username) ∷ (codes "password", cfg.password) ∷ []);
}

module _ {W : Type 0} (env : Env W) where
  -- do, doStarted
  unfoldable pub send_request :
      Settings → Call → Cookie → Client W → Result ClientError Response × Client W
  send_request cfg call saved c =
      if not (env.can_build (build cfg call saved).target)
      then (err invalid_config, c)
      else let sent = env.send (build cfg call saved) c.world in
        let exchange : Exchange = record {
          revision = cfg.revision;
          request = build cfg call saved;
          outcome = sent.0;
        } in
        (response_of sent.0, record c { log = exchange ∷ c.log; world = sent.1 })

  -- The select at the end of admittedDo.
  unfoldable pub await :
      Result ClientError Response × Client W → Result ClientError Response × Client W
  await (r, c) =
      let done = env.wait c.world in
      (elim done.0 [ none ↦ r | some e ↦ err e ], record c { world = done.1 })

  -- What admittedDo does with the answer of AdmitQBittorrentMutation.
  unfoldable pub begin :
      Admission → Settings → Call → Cookie → Client W → Result ClientError Response × Client W
  begin stale cfg call saved c = (err config_changed, c)
  begin (refused e) cfg call saved c = (err e, c)
  begin admitted cfg call saved c = await (send_request cfg call saved c)

  -- admittedDo
  unfoldable pub admitted_request :
      Settings → Call → Cookie → Client W → Result ClientError Response × Client W
  admitted_request cfg call saved c =
      if not env.can_admit
      then (err config_changed, c)
      else let admission = env.admit cfg.revision c.world in
        begin admission.0 cfg call saved (record c { world = admission.1 })
