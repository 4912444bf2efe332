-- ===== src/Downloader/Transmission/Calls.antt =====
-- internal/downloader/transmission: call of client.go, callMutation of mutation.go, and protocol.go.
use jproxy_go.Common.{
  ◌+◌, ◌^◌, Bool, true, not, leb, ◌==◌, if◌then◌else◌, length, take, Text, codes, text_eq, is_empty,
  trim_space, Result, ◌>>=◌, or_fail, check, ok, err,
}
use jproxy_go.Downloader.{
  ClientError, Failure, Body, max_response_bytes, is_success, is_unauthorized, authentication,
  upstream_status, upstream_result, response_too_large, malformed_response, transport_failed,
  session_challenge, request_too_large, config_changed, http_error, received, broken,
}
use jproxy_go.Downloader.Transmission.{
  Settings, Session, Rpc, method_of, Response, Client, Codec, Env, classify_read_error, session_for,
  compare_and_swap_session, send_request, admitted_request, config_unchanged,
}

module _ {J : Type 0} (codec : Codec J) where
  -- marshalRequest
  unfoldable pub marshal_request : Rpc → Result ClientError Text
  marshal_request rpc = do
    body ← or_fail (codec.marshal rpc) transport_failed
    _ ← check (leb (length body) (2 ^ 20)) request_too_large
    ok body

  -- decodeResponse
  unfoldable pub decode_response :
      {A : Type 0} → Text → (J → Result ClientError A) → Result ClientError A
  decode_response body decode = do
    read ← or_fail (codec.envelope body) malformed_response
    _ ← check read.1 malformed_response
    result ← or_fail read.0.result upstream_result
    _ ← check (text_eq result (codes "success")) upstream_result
    arguments ← or_fail read.0.arguments malformed_response
    elim (decode arguments) [ ok a ↦ ok a | err e ↦ err malformed_response ]

  -- io.ReadAll of the limited body, the test of its length and decodeResponse.
  unfoldable pub decode_body :
      {A : Type 0} → Body → (J → Result ClientError A) → Result ClientError A
  decode_body (broken e) decode = err (classify_read_error e)
  decode_body (received bytes) decode = do
    let read = take (max_response_bytes + 1) bytes
    _ ← check (leb (length read) max_response_bytes) response_too_large
    decode_response read decode

  -- The end of call and of callMutation, from an answer that is no conflict.
  unfoldable pub finish :
      {A : Type 0} → Text → (J → Result ClientError A) → Response → Result Failure A
  finish method decode r =
      if is_unauthorized r.status
      then err (http_error method authentication r.status)
      else if not (is_success r.status)
      then err (http_error method upstream_status r.status)
      else elim (decode_body r.body decode) [
        | ok a ↦ ok a
        | err e ↦ err (http_error method e r.status)
      ]

  module _ {W A : Type 0} (method : Text) (decode : J → Result ClientError A)
      (ask : Settings → Text → Session → Client W → Result ClientError Response × Client W)
      (recheck : Settings → W → Bool × W) where
    -- The answer to the second request.
    unfoldable pub after_second :
        Result ClientError Response × Client W → Result Failure A × Client W
    after_second (err e, c) = (err (http_error method e 0), c)
    after_second (ok r, c) =
        if r.status == 409
        then (err (http_error method session_challenge 409), c)
        else (finish method decode r, c)

    -- A conflict: the challenge is the session of a second request.
    unfoldable pub challenged :
        Settings → Text → Session → Text → Client W → Result Failure A × Client W
    challenged cfg body saved challenge c =
        let checked = recheck cfg c.world in
        let c₁ : Client W = record c { world = checked.1 } in
        let next : Session = record { id = challenge; revision = cfg.revision } in
        if is_empty (trim_space challenge)
        then (err (http_error method session_challenge 409), c)
        else if not checked.0
        then (err (http_error method config_changed 409), c₁)
        else after_second (ask cfg body next (compare_and_swap_session saved next c₁))

    unfoldable pub after_first :
        Settings
        → Text
        → Session
        → Result ClientError Response × Client W
        → Result Failure A × Client W
    after_first cfg body saved (err e, c) = (err (http_error method e 0), c)
    after_first cfg body saved (ok r, c) =
        if r.status == 409
        then challenged cfg body saved r.session_id c
        else (finish method decode r, c)

    unfoldable pub exchange_body :
        Settings → Result ClientError Text → Client W → Result Failure A × Client W
    exchange_body cfg (err e) c = (err (http_error method e 0), c)
    exchange_body cfg (ok body) c =
        let saved = session_for cfg.revision c in after_first cfg body saved (ask cfg body saved c)

  module _ {W A : Type 0} (env : Env W) (cfg : Settings) (rpc : Rpc) where
    -- call
    unfoldable pub call : (J → Result ClientError A) → Client W → Result Failure A × Client W
    call decode c =
        exchange_body (method_of rpc) decode (send_request env) (config_unchanged env) cfg
          (marshal_request rpc) c

    -- callMutation, which does not look at the configuration again: the second admission does.
    unfoldable pub call_mutation :
        (J → Result ClientError A) → Client W → Result Failure A × Client W
    call_mutation decode c =
        exchange_body (method_of rpc) decode (admitted_request env) (λ _ w. (true, w)) cfg
          (marshal_request rpc) c
