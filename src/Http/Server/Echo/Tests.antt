-- ===== src/Http/Server/Echo/Tests.antt =====
-- Whole connections to the WebSocket echo server.
use cppsocks.Base.{ℕ, true, false, List, [], ◌∷◌, ◌++◌, All, ◌≡◌, refl, arith}
use cppsocks.Base.Bytes.{codes}
use cppsocks.Base.Outcome.{ok}
use cppsocks.Tcp.Connection.{connection_alone, World}
use cppsocks.Tcp.Connection.Laws.{Sent}
use cppsocks.Tcp.Connection.Tests.{eager_net, fresh_world}
use cppsocks.Tcp.Worker.{run}
use cppsocks.Tcp.Worker.Sessions.{chunk, event_round, rounds_of, end_of_file}
use cppsocks.Http.Response.Tests.{eager_net-Serves}
use cppsocks.Http.Request.Tests.{
  client_key, path, query, version, ws_headers, ws-IsRequest, ws_headers-upgrade,
}
use cppsocks.Http.Request.Parse.{request_info, headers_of}
use cppsocks.Frame.Wire.{client_frame, plain_frame}
use cppsocks.Http.Ws.{ws_echo_handler}
use cppsocks.Http.Ws.Receive.{text, binary}
use cppsocks.Http.Ws.Tests.{toy_crypto, key_found, zero_key}
use cppsocks.Http.States.Session.Upgrade.{between}
use cppsocks.Http.Server.{default_options, serve, http_handler_null}
use cppsocks.Http.Server.Sessions.{Sending, fresh_worker}
use cppsocks.Http.Server.Echo.{
  Message, IsMessage, frame_rounds, answers_of, accepting, ws_echo_session,
}
use cppsocks.Frame.{opcode_connection_close}
use cppsocks.Http.Server.Echo.Closing.{IsClosing, closing_frame, closing_answer, ws_closing_session}
use cppsocks.Http.Server.Tests.{events, events-Arrive}

abbrev pub upgrade_part : List ℕ
upgrade_part =
    codes "TP/1.1\r\nUpgrade: websocket\r\nConnection: Upgrade\r\n"
    ++ codes "Sec-WebSocket-Key: dGhlIHNhbXBsZSBub25jZQ==\r\n\r\n"

ws-Sending : Sending path query version ws_headers events upgrade_part
ws-Sending = record {
  well = ws-IsRequest;
  short_path = omega arith;
  fits = omega arith;
  arrive = events-Arrive;
  last_pos = omega arith;
  last_bound = omega arith;
  whole = refl;
}

abbrev greeting_message : Message
greeting_message = record { kind = text; key = zero_key; payload = codes "Hi" }

abbrev data_message : Message
data_message = record { kind = binary; key = zero_key; payload = 200 ∷ 7 ∷ [] }

abbrev messages : List Message
messages = greeting_message ∷ data_message ∷ []

messages-IsMessage : All (IsMessage 10000) messages
unfolding client_frame plain_frame
messages-IsMessage = (
  record {
    is_key = ground arith;
    are_bytes = ground arith;
    is_text = ground arith;
    small = omega arith;
    fits = omega arith;
    answer_fits = omega arith;
  },
  (
    record {
      is_key = ground arith;
      are_bytes = ground arith;
      is_text = ground arith;
      small = omega arith;
      fits = omega arith;
      answer_fits = omega arith;
    },
    tt,
  ),
)

ws_echo_session_example :
    (opcode : ℕ) × (w' : World) × (run
        (serve eager_net toy_crypto http_handler_null
          (ws_echo_handler eager_net)
          default_options).handler
        (rounds_of events
          (event_round (chunk upgrade_part) ∷ frame_rounds messages (end_of_file ∷ [])))
        []
        (fresh_worker fresh_world)
      ≡ (
        ok tt,
        record {
          session = between opcode w' (request_info path (headers_of [] ws_headers));
          socket_closed = true;
          is_active = false;
        },
      ))
    × Sent fresh_world (accepting toy_crypto client_key ++ answers_of messages) w'
ws_echo_session_example =
    ws_echo_session eager_net 10000 toy_crypto http_handler_null default_options path query version
      ws_headers events upgrade_part client_key (codes "\r") messages [] [] fresh_world
      eager_net-Serves ws-Sending ws_headers-upgrade key_found refl (omega arith) messages-IsMessage
      refl

-- A close frame with the code 1000.
going : IsClosing zero_key (3 ∷ 232 ∷ [])
unfolding client_frame
going = record {
  is_key = ground arith;
  are_bytes = ground arith;
  small = omega arith;
  fits = omega arith;
}

ws_closing_session_example :
    (w' : World) × (run
        (serve eager_net toy_crypto http_handler_null
          (ws_echo_handler eager_net)
          default_options).handler
        (rounds_of events (
          event_round (chunk upgrade_part)
          ∷ frame_rounds messages
              (event_round (chunk (closing_frame zero_key (3 ∷ 232 ∷ []))) ∷ end_of_file ∷ [])))
        []
        (fresh_worker fresh_world)
      ≡ (
        ok tt,
        record {
          session =
              between opcode_connection_close
                (record w' { closed = true })
                (request_info path (headers_of [] ws_headers));
          socket_closed = true;
          is_active = false;
        },
      ))
    × Sent fresh_world
        ((accepting toy_crypto client_key ++ answers_of messages) ++ closing_answer)
        w'
ws_closing_session_example =
    ws_closing_session eager_net 10000 toy_crypto http_handler_null default_options path query
      version ws_headers events upgrade_part client_key (codes "\r") messages zero_key
      (3 ∷ 232 ∷ []) end_of_file [] [] fresh_world eager_net-Serves ws-Sending ws_headers-upgrade
      key_found refl (omega arith) messages-IsMessage going refl
