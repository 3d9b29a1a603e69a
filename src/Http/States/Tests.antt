-- ===== src/Http/States/Tests.antt =====
-- Connections from their first byte on.
use cppsocks.Base.{
  ℕ, suc, true, List, [], ◌∷◌, ◌++◌, length, replicate, length-replicate, ◌≡◌, refl, arith, inr,
}
use cppsocks.Base.Bytes.{codes, text_eq}
use cppsocks.Base.Outcome.{ok, err, fault}
use cppsocks.Tcp.Connection.{connection_alone, World}
use cppsocks.Tcp.Connection.Tests.{eager_net, fresh_world}
use cppsocks.Http.Request.{no_request}
use cppsocks.Http.Request.Tests.{
  client_key, path, query, version, plain_headers, ws_headers, plain-IsRequest, ws-IsRequest,
  plain_headers-stay, ws_headers-upgrade,
}
use cppsocks.Http.Request.Parse.{request_info, headers_of}
use cppsocks.Http.Ws.{fresh_ws_state, ws_on_enter}
use cppsocks.Http.Ws.Tests.{recording_handler, toy_crypto, key_found}
use cppsocks.Http.Ws.Enter.{ws_handshake}
use cppsocks.Http.Response.Tests.{eager_net-Serves}
use cppsocks.Base.{none}
use cppsocks.Http.States.{
  Handlers, HttpSession, init_state, get_state, ws_state, recv_size, on_receive,
}
use cppsocks.Http.States.Transitions.{Follows, on_receive-Follows}
use cppsocks.Http.States.Step.{waiting}
use cppsocks.Http.States.Answers.{get_request_answered}
use cppsocks.Http.States.Requests.{
  answering, incomplete_request_waits, ws_request_upgraded, init_state_faults,
}

-- A file handler that keeps the path that it is asked for.
abbrev handlers : Handlers
handlers = record {
  do_get = λ info w. (ok tt, record w { app = info.path });
  ws_handler = recording_handler;
  crypto = toy_crypto;
}

abbrev first_part : List ℕ
first_part = codes "GET /a?x=1 HT"

abbrev second_part : List ℕ
second_part = codes "TP/1.1\r\nHost: b\r\n\r\n"

incomplete_request_waits_example :
    on_receive eager_net handlers
      (first_part ++ second_part)
      (length first_part)
      (waiting ([] ++ (replicate 13 0 ++ (0 ∷ []))) 0 fresh_world no_request)
    ≡ (ok tt, waiting (([] ++ first_part) ++ (0 ∷ [])) (length first_part) fresh_world no_request)
unfolding text_eq
incomplete_request_waits_example =
    incomplete_request_waits eager_net handlers [] (replicate 13 0) (0 ∷ []) first_part second_part
      (codes "GET /a?x=") (codes "1 HT") fresh_world no_request refl refl refl refl (omega arith)

-- The bytes of the buffer that a request leaves free, less one.
abbrev plain_free : ℕ
plain_free = 4063

get_request_answered_example :
    on_receive eager_net handlers (second_part ++ []) (length second_part) (
      waiting
        (first_part ++ (replicate 19 0 ++ replicate (suc plain_free) 0))
        (length first_part)
        fresh_world
        no_request)
    ≡ (
      ok tt,
      answering get_state
          (record fresh_world { closed = true; app = path })
          (request_info path (headers_of [] plain_headers)),
    )
get_request_answered_example =
    get_request_answered eager_net handlers path query version plain_headers first_part
      (replicate 19 0) second_part [] plain_free fresh_world (record fresh_world { app = path })
      no_request plain-IsRequest (omega arith) refl refl (omega arith) plain_headers-stay refl

abbrev upgrade_part : List ℕ
upgrade_part =
    codes "TP/1.1\r\nUpgrade: websocket\r\nConnection: Upgrade\r\n"
    ++ codes "Sec-WebSocket-Key: dGhlIHNhbXBsZSBub25jZQ==\r\n\r\n"

-- The world behind the handshake.
upgraded :
    (w' : World) × (ws_on_enter eager_net recording_handler toy_crypto
        (headers_of [] ws_headers)
        fresh_world
      ≡ (ok tt, w'))
upgraded =
    let (w', e, s) =
      ws_handshake eager_net toy_crypto 10000 eager_net-Serves recording_handler
        (headers_of [] ws_headers) client_key (codes "\r") fresh_world refl refl (omega arith)
        key_found in
    (w', e)

abbrev ws_free : ℕ
ws_free = 3986

ws_request_upgraded_example :
    on_receive eager_net handlers (upgrade_part ++ []) (length upgrade_part) (
      waiting
        (first_part ++ (replicate 96 0 ++ replicate (suc ws_free) 0))
        (length first_part)
        fresh_world
        no_request)
    ≡ (
      ok tt,
      answering (ws_state fresh_ws_state) upgraded.0 (request_info path (headers_of [] ws_headers)),
    )
ws_request_upgraded_example =
    ws_request_upgraded eager_net handlers path query version ws_headers first_part (replicate 96 0)
      upgrade_part [] ws_free fresh_world upgraded.0 no_request ws-IsRequest (omega arith) refl refl
      (omega arith) ws_headers-upgrade upgraded.1

init_state_faults_example :
    (on_receive eager_net handlers
      (71 ∷ 69 ∷ 84 ∷ [])
      3
      (waiting (replicate recv_size 0) 0 fresh_world no_request)).0
    ≡ err fault
init_state_faults_example =
    init_state_faults eager_net handlers (replicate recv_size 0) (71 ∷ 69 ∷ 84 ∷ []) 0 3 fresh_world
      no_request (length-replicate {A = ℕ} recv_size 0) (omega arith) (inr (omega arith))

abbrev answered_session : HttpSession
answered_session =
    answering get_state (record fresh_world { closed = true; app = path })
      (request_info path (headers_of [] plain_headers))

on_receive-Follows_example :
    Follows
      (init_state
        (first_part ++ (replicate 19 0 ++ replicate (suc plain_free) 0))
        (length first_part))
      answered_session.cur_state
    × (answered_session.next_state ≡ none)
on_receive-Follows_example =
    on_receive-Follows eager_net handlers
      (init_state (first_part ++ (replicate 19 0 ++ replicate (suc plain_free) 0))
        (length first_part))
      fresh_world no_request (second_part ++ []) (length second_part) answered_session
      (get_request_answered eager_net handlers path query version plain_headers first_part
        (replicate 19 0) second_part [] plain_free fresh_world (record fresh_world { app = path })
        no_request plain-IsRequest (omega arith) refl refl (omega arith) plain_headers-stay refl)
