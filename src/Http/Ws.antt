-- ===== src/Http/Ws.antt =====
-- http/socks_ws_handler.hpp, http/socks_ws_handler.cpp and http/socks_http_states_ws.cpp: the
-- WebSocket side of a connection, and the handlers of examples/ws_echo/main.cpp.
pub mod Sending
pub mod Receive
pub mod Enter
pub mod Control
pub mod Reads
pub mod Tests
use cppsocks.Base.{ℕ, ◌+◌, Bool, true, false, not, Option, none, some, List, [], ◌∷◌, ◌++◌}
use cppsocks.Base.{length, take, drop, if◌then◌else◌, ◌==◌}
use cppsocks.Base.Bytes.{codes, c_str}
use cppsocks.Base.Text.{Text}
use cppsocks.Base.Outcome.{
  Result, ok, err, thrown, fault, terminated, running, runtime_error, out_of_range,
  invalid_argument, length_error, blocked,
}
use cppsocks.Base.Effect.{M, continue, return, raise, lift, ◌>>=◌, ◌>>◌}
use cppsocks.Frame.{
  Decoded, decode, make, make_text, create_connection_close, create_pong, payload_length,
  payload_offset, opcode_binary, opcode_continuation, opcode_connection_close,
  opcode_connection_ping, opcode_text,
}
use cppsocks.Http.Request.{HeadersMap, find}
use cppsocks.Http.Response.{newline, put}
use cppsocks.Tcp.Connection.{Net, World, Holder, connection_alone, send, close}

-- `WsHandler`, the application's side, on a state that its connection is part of. `on_text` is given the memory of a C string. `close_connection` is
-- `connection()->close()`, on the connection that the handler was created with.
pub record WsHandlerOn (S : Type 0) : Type 0 where
  pub on_connect : M S (Unit {0})
  pub on_data : List ℕ → ℕ → M S (Unit {0})
  pub on_text : List ℕ → M S (Unit {0})
  pub on_disconnect : M S (Unit {0})
  pub subprotocol : Text
  pub close_connection : M S (Unit {0})

abbrev pub WsHandler : Type 0
WsHandler = WsHandlerOn World

-- `onText` where the application does not override it.
unfoldable pub on_text_default :
    {S : Type 0} → (List ℕ → ℕ → M S (Unit {0})) → List ℕ → M S (Unit {0})
on_text_default on_data buf = do text ← lift (c_str buf); on_data buf (length text)

-- `WsHandlerNull`, by what closing the connection does that it was created with.
unfoldable pub ws_handler_null : {S : Type 0} → M S (Unit {0}) → WsHandlerOn S
unfolding on_text_default
ws_handler_null close_connection = record {
  on_connect = return tt;
  on_data = λ buf len. return tt;
  on_text = on_text_default (λ buf len. return tt);
  on_disconnect = return tt;
  subprotocol = [];
  close_connection = close_connection;
}

module _ (net : Net) where
  unfoldable pub send_frame : Result (List ℕ) → M World ℕ
  send_frame frame = do
    response ← lift frame
    n ← send net response (length response)
    lift (payload_length response)

  -- `WsConnection::send`, of bytes and of a C string.
  unfoldable pub send_data : List ℕ → ℕ → M World ℕ
  unfolding send_frame
  send_data buf len = send_frame (make buf len true opcode_binary)

  unfoldable pub send_text : List ℕ → M World ℕ
  unfolding send_frame
  send_text buf = send_frame (make_text buf)

  -- `WsConnection::close`.
  unfoldable pub ws_close : M World (Unit {0})
  ws_close = do
    message ← lift (create_connection_close 0)
    n ← send net message (length message)
    close

  -- `WsEchoHandler`.
  unfoldable pub ws_echo_handler : WsHandler
  ws_echo_handler = record {
    on_connect = return tt;
    on_data = λ buf len. send_data buf len >> return tt;
    on_text = λ buf. send_text buf >> return tt;
    on_disconnect = return tt;
    subprotocol = [];
    close_connection = ws_close;
  }

-- The libraries digestpp and cppcodec.
pub record Crypto : Type 0 where
  pub sha1 : List ℕ → List ℕ
  pub base64 : List ℕ → List ℕ

abbrev pub ws_guid : Text
ws_guid = codes "258EAFA5-E914-47DA-95CA-C5AB0DC85B11"

unfoldable pub create_accept_key : Crypto → Text → Text
create_accept_key crypto client_key = crypto.base64 (crypto.sha1 (take 24 client_key ++ ws_guid))

-- `opcode` and `inBuf` of `HttpWsState`.
pub record WsState : Type 0 where
  pub opcode : ℕ
  pub in_buf : List ℕ

abbrev pub fresh_ws_state : WsState
fresh_ws_state = record { opcode = 0; in_buf = [] }

pub record WsSessionOn (S : Type 0) : Type 0 where
  pub ws : WsState
  pub world : S

abbrev pub WsSession : Type 0
WsSession = WsSessionOn World

module _ {S : Type 0} ⦃holder : Holder S⦄ (net : Net) (handler : WsHandlerOn S) where
  abbrev pub protocol_line : Text → Text
  protocol_line [] = []
  protocol_line (c ∷ name) = codes "Sec-WebSocket-Protocol: " ++ ((c ∷ name) ++ newline)

  abbrev pub switching_text : Crypto → Text → Text
  switching_text crypto client_key =
      codes "HTTP/1.1 101 Switching Protocols"
      ++ (newline
          ++ (codes "Upgrade: websocket"
              ++ (newline
                  ++ (codes "Connection: Upgrade"
                      ++ (newline
                          ++ (codes "Sec-WebSocket-Version: 13"
                              ++ (newline
                                  ++ (protocol_line handler.subprotocol
                                      ++ (codes "Sec-WebSocket-Accept: "
                                          ++ (create_accept_key crypto client_key
                                              ++ (newline ++ newline)))))))))))

  -- `HttpWsState::onEnter`; `at` throws where there is no key.
  unfoldable pub ws_on_enter : Crypto → HeadersMap → M S (Unit {0})
  ws_on_enter crypto headers = elim (find (codes "Sec-WebSocket-Key") headers) [
    | none ↦ raise out_of_range
    | some client_key ↦ (do
      holder.call (Unit {0}) (put net (switching_text crypto client_key))
      handler.on_connect)
  ]

  pub on_world : M S (Unit {0}) → M (WsSessionOn S) (Unit {0})
  on_world m s = let (r, w) = m s.world in (r, record s { world = w })

  pub set_in_buf : List ℕ → M (WsSessionOn S) (Unit {0})
  set_in_buf in_buf s = (ok tt, record s { ws = record { opcode = s.ws.opcode; in_buf = in_buf } })

  -- The reply to a ping.
  pub send_pong : List ℕ → M World (Unit {0})
  send_pong in_buf = do
    response ← lift (create_pong in_buf (length in_buf))
    off ← lift (payload_offset response)
    n ← lift (payload_length response)
    sent ← send net (drop off response) n
    return tt

  -- The `switch` over the opcode.
  pub dispatch : ℕ → List ℕ → M (WsSessionOn S) (Unit {0})
  unfolding on_world set_in_buf send_pong
  dispatch opcode in_buf =
      if opcode == opcode_continuation
      then raise runtime_error
      else if opcode == opcode_connection_close
      then on_world handler.close_connection
      else if opcode == opcode_connection_ping
      then on_world (holder.call (Unit {0}) (send_pong in_buf))
      else if opcode == opcode_binary
      then on_world (handler.on_data in_buf (length in_buf))
      else if opcode == opcode_text
      then (set_in_buf (in_buf ++ (0 ∷ [])) >> on_world (handler.on_text (in_buf ++ (0 ∷ []))))
      else return tt

  -- What follows the call of `decode`.
  pub on_decoded : Decoded → M (WsSessionOn S) (Unit {0})
  unfolding dispatch
  on_decoded d s =
      let opcode = if length s.ws.in_buf == 0 then d.opcode else s.ws.opcode in
      let s' = record s { ws = record { opcode = opcode; in_buf = d.payload } } in
      if d.is_final then ((dispatch opcode d.payload >> set_in_buf []) s') else (ok tt, s')

  -- `catch (std::invalid_argument&)`.
  pub ignore_invalid : Result (Unit {0}) × WsSessionOn S → Result (Unit {0}) × WsSessionOn S
  ignore_invalid (err (thrown invalid_argument), s) = (ok tt, s)
  ignore_invalid (err (thrown runtime_error), s) = (err (thrown runtime_error), s)
  ignore_invalid (err (thrown out_of_range), s) = (err (thrown out_of_range), s)
  ignore_invalid (err (thrown length_error), s) = (err (thrown length_error), s)
  ignore_invalid (err fault, s) = (err fault, s)
  ignore_invalid (err terminated, s) = (err terminated, s)
  ignore_invalid (err running, s) = (err running, s)
  ignore_invalid (err blocked, s) = (err blocked, s)
  ignore_invalid (ok t, s) = (ok t, s)

  -- `HttpWsState::onReceive`.
  unfoldable pub ws_on_receive : List ℕ → ℕ → M (WsSessionOn S) (Unit {0})
  unfolding on_decoded ignore_invalid
  ws_on_receive buf len s = ignore_invalid (continue (decode buf len s.ws.in_buf, s) on_decoded)

-- `HttpWsState::onDisconnect`.
abbrev pub ws_on_disconnect : {S : Type 0} → WsHandlerOn S → M S (Unit {0})
ws_on_disconnect handler = handler.on_disconnect
