-- ===== src/Http/Server/Echo/Closing.antt =====
-- A client of the WebSocket echo server that ends with a close frame.
use cppsocks.Base.{
  ℕ, ◌^◌, ◌≤◌, ◌<◌, true, false, some, List, [], ◌∷◌, ◌++◌, length, drop, All, ◌≡◌, refl, ◌∙◌,
  arith,
}
use cppsocks.Base.Bytes.{IsByte, codes}
use cppsocks.Base.Text.{Text}
use cppsocks.Base.Outcome.{ok}
use cppsocks.Frame.{opcode_connection_close}
use cppsocks.Frame.Wire.{Key, IsKey, client_frame, plain_frame}
use cppsocks.Tcp.Connection.{connection_alone, Net, World}
use cppsocks.Tcp.Connection.Laws.{Sent, Sent-trans}
use cppsocks.Tcp.Connection.Serving.{Serves}
use cppsocks.Tcp.Worker.{Round, run, loop, max_size}
use cppsocks.Tcp.Worker.Sessions.{Event, chunk, event_round, rounds_of, loop_closed, run_in_order}
use cppsocks.Http.Request.{RequestInfo, HeadersMap, find, is_ws_request}
use cppsocks.Http.Request.Parse.{request_info, headers_of}
use cppsocks.Http.Ws.{Crypto, ws_close, ws_echo_handler}
use cppsocks.Http.Ws.Sending.{ws_connection_sends}
use cppsocks.Http.Ws.Control.{receive_close}
use cppsocks.Http.States.{tcp_server_handler, new_session}
use cppsocks.Http.States.Session.Upgrade.{between, loop_frame, disconnect_between}
use cppsocks.Http.Server.{HttpHandlerFactory, ServerOptions, serve, create_server_handler}
use cppsocks.Http.Server.Sessions.{Sending, fresh_worker}
use cppsocks.Http.Server.Echo.{
  Message, IsMessage, frame_rounds, answers_of, accepting, echo_handlers, loop_exchanges,
}

-- The client's close frame, with a key and a payload.
abbrev pub closing_frame : Key → List ℕ → List ℕ
closing_frame key payload = client_frame true opcode_connection_close key payload

-- The server's.
abbrev pub closing_answer : List ℕ
closing_answer = 0x88 ∷ 0x02 ∷ 0x00 ∷ 0x00 ∷ []

pub record IsClosing (key : Key) (payload : List ℕ) : Type 0 where
  pub is_key : IsKey key
  pub are_bytes : All IsByte payload
  pub small : length payload < 2 ^ 16
  pub fits : length (closing_frame key payload) ≤ max_size

closes :
    (net : Net) (room : ℕ) (w : World)
    → Serves net room
    → 4 ≤ room
    → w.closed ≡ false
    → (w' : World) × (ws_close net w ≡ (ok tt, record w' { closed = true }))
      × Sent w closing_answer w'
unfolding plain_frame
closes net room w serves wide still_open =
    (ws_connection_sends net room serves w still_open [] [] tt (omega arith) (omega arith)
      (omega arith) wide).2

-- The worker's loop over a close frame and the round after it.
loop_closes :
    (net : Net) (crypto : Crypto) (http : HttpHandlerFactory) (old : ℕ) (key : Key)
    (payload buf : List ℕ) (r : Round) (later : List Round) (w w' : World) (info : RequestInfo)
    → IsClosing key payload
    → w.closed ≡ false
    → ws_close net w ≡ (ok tt, record w' { closed = true })
    → loop
        (tcp_server_handler net (echo_handlers net crypto http))
        (event_round (chunk (closing_frame key payload)) ∷ r ∷ later)
        buf
        (between old w info)
      ≡ (ok tt, between opcode_connection_close (record w' { closed = true }) info)
unfolding tcp_server_handler
loop_closes net crypto http old key payload buf r later w w' info h still_open closed =
    loop_frame net (echo_handlers net crypto http) opcode_connection_close old key payload buf
      (r ∷ later) w (record w' { closed = true }) info still_open
      (unfold client_frame in omega arith) h.fits
      (receive_close net (ws_echo_handler net)
        (record {
          key = key;
          payload = payload;
          after = drop (length (closing_frame key payload)) buf;
        })
        old w (record w' { closed = true }) (h.is_key, h.are_bytes) (omega (arith, h.small))
        (unfold ws_echo_handler in closed))
    ∙ loop_closed (tcp_server_handler net (echo_handlers net crypto http)) r later _
        (between opcode_connection_close (record w' { closed = true }) info) refl

-- A client of the echo server that asks for an upgrade, sends messages of one masked frame each,
-- and then a close frame, whatever its payload: behind the handshake's response and the answers to
-- the messages, in order, the server's own close frame goes out, connection and socket are closed,
-- and the worker ends in order, whatever arrives later. The request is well-formed and fits, in
-- chunks of which the first brings four bytes at least and none but the last brings an empty line
-- as its end, with idle rounds and repeated reads between them, and has a key of 24 characters in its
-- header; each message and the close frame come in one read and have less than 65536 bytes of
-- payload, the messages no NUL; the connection is open, and its socket makes progress and is
-- followed for more rounds than the response and each answer have bytes.
pub ws_closing_session :
    (net : Net) (room : ℕ) (crypto : Crypto) (http : HttpHandlerFactory) (options : ServerOptions)
    (path query version : Text) (hs : HeadersMap) (es : List Event) (last : List ℕ)
    (key key_rest : Text) (ms : List Message) (mask : Key) (payload : List ℕ) (r : Round)
    (later : List Round) (buf : List ℕ) (w : World)
    → Serves net room
    → Sending path query version hs es last
    → is_ws_request (headers_of [] hs) ≡ true
    → find (codes "Sec-WebSocket-Key") (headers_of [] hs) ≡ some (key ++ key_rest)
    → length key ≡ 24
    → length (accepting crypto key) ≤ room
    → All (IsMessage room) ms
    → IsClosing mask payload
    → w.closed ≡ false
    → (w' : World) × (run
          (serve net crypto http (ws_echo_handler net) options).handler
          (rounds_of es (
            event_round (chunk last)
            ∷ frame_rounds ms (event_round (chunk (closing_frame mask payload)) ∷ r ∷ later)))
          buf
          (fresh_worker w)
        ≡ (
          ok tt,
          record {
            session =
                between opcode_connection_close
                  (record w' { closed = true })
                  (request_info path (headers_of [] hs));
            socket_closed = true;
            is_active = false;
          },
        ))
      × Sent w ((accepting crypto key ++ answers_of ms) ++ closing_answer) w'
unfolding serve create_server_handler tcp_server_handler ws_echo_handler
ws_closing_session net room crypto http options path query version hs es last key key_rest ms mask
      payload r later buf w serves sending upgrade found long fits messages closing still_open =
    let (buf', opcode, w1, looped, sent) =
      loop_exchanges net room crypto http path query version hs es last key key_rest ms
        (event_round (chunk (closing_frame mask payload)) ∷ r ∷ later) buf w serves sending upgrade
        found long fits messages still_open in
    let live = sent.same_closed ∙ still_open in
    let (w2, closed, said) = closes net room w1 serves (omega arith) live in
    let info = request_info path (headers_of [] hs) in
    let end = between opcode_connection_close (record w2 { closed = true }) info in
    (
      w2,
      run_in_order (tcp_server_handler net (echo_handlers net crypto http)) _ buf _ (new_session w)
          end end refl
          (looped
            ∙ loop_closes net crypto http opcode mask payload buf' r later w1 w2 info closing live
                closed)
          (disconnect_between net (echo_handlers net crypto http) opcode_connection_close
            (record w2 { closed = true }) (record w2 { closed = true }) info refl),
      Sent-trans sent said,
    )
