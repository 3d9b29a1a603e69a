-- ===== src/Http/Server/Echo.antt =====
-- A client's whole connection to the WebSocket echo server of examples/ws_echo/main.cpp: request,
-- handshake, messages, end.
pub mod Closing
pub mod Tests
use cppsocks.Base.{
  ℕ, ◌^◌, ◌≤◌, ◌<◌, true, false, some, List, [], ◌∷◌, ◌++◌, length, drop, All, ◌≡◌, refl, ◌∙◌,
  arith,
}
use cppsocks.Base.Bytes.{IsByte, IsText, codes}
use cppsocks.Base.Text.{Text}
use cppsocks.Base.Outcome.{ok}
use cppsocks.Frame.Wire.{Key, IsKey, client_frame, plain_frame}
use cppsocks.Tcp.Connection.{connection_alone, Net, World}
use cppsocks.Tcp.Connection.Laws.{Sent, Sent-nil, Sent-trans}
use cppsocks.Tcp.Connection.Serving.{Serves}
use cppsocks.Tcp.Worker.{Round, run, loop, max_size}
use cppsocks.Tcp.Worker.Sessions.{
  Event, chunk, event_round, rounds_of, end_of_file, loop-end_of_file, run_in_order,
}
use cppsocks.Http.Request.{RequestInfo, HeadersMap, find, is_ws_request}
use cppsocks.Http.Request.Parse.{request_info, headers_of}
use cppsocks.Http.Ws.{Crypto, ws_guid, ws_echo_handler}
use cppsocks.Http.Ws.Receive.{Kind, kind_opcode}
use cppsocks.Http.Ws.Sending.{ws_echo}
use cppsocks.Http.Ws.Enter.{response_text, accept_lines, ws_handshake}
use cppsocks.Http.States.{Handlers, tcp_server_handler, new_session}
use cppsocks.Http.States.Session.Upgrade.{between, loop_upgrades, loop_frame, disconnect_between}
use cppsocks.Http.Server.{HttpHandlerFactory, ServerOptions, serve, create_server_handler}
use cppsocks.Http.Server.Sessions.{Sending, fresh_worker}

-- A message of the client, in one masked frame.
pub record Message : Type 0 where
  pub kind : Kind
  pub key : Key
  pub payload : List ℕ

abbrev pub frame_of : Message → List ℕ
frame_of m = client_frame true (kind_opcode m.kind) m.key m.payload

abbrev pub answer_of : Message → List ℕ
answer_of m = plain_frame true (kind_opcode m.kind) m.payload

-- A message of bytes without a NUL that fits in a read, and its answer in what is followed of the
-- socket.
pub record IsMessage (room : ℕ) (m : Message) : Type 0 where
  pub is_key : IsKey m.key
  pub are_bytes : All IsByte m.payload
  pub is_text : IsText m.payload
  pub small : length m.payload < 2 ^ 16
  pub fits : length (frame_of m) ≤ max_size
  pub answer_fits : length (answer_of m) ≤ room

abbrev pub frame_rounds : List Message → List Round → List Round
frame_rounds [] later = later
frame_rounds (m ∷ ms) later = event_round (chunk (frame_of m)) ∷ frame_rounds ms later

abbrev pub answers_of : List Message → List ℕ
answers_of [] = []
answers_of (m ∷ ms) = answer_of m ++ answers_of ms

abbrev echo_handlers : Net → Crypto → HttpHandlerFactory → Handlers
echo_handlers net crypto http = record {
  do_get = http;
  ws_handler = ws_echo_handler net;
  crypto = crypto;
}

module _ (net : Net) (room : ℕ) (serves : Serves net room) (crypto : Crypto)
    (http : HttpHandlerFactory) where
  -- The worker's loop over messages.
  loop_echoes :
      (ms : List Message) (old : ℕ) (later : List Round) (buf : List ℕ) (w : World)
      (info : RequestInfo)
      → All (IsMessage room) ms
      → w.closed ≡ false
      → (buf' : List ℕ) × (opcode : ℕ) × (w' : World) × (loop
            (tcp_server_handler net (echo_handlers net crypto http))
            (frame_rounds ms later)
            buf
            (between old w info)
          ≡ loop
              (tcp_server_handler net (echo_handlers net crypto http))
              later
              buf'
              (between opcode w' info))
        × Sent w (answers_of ms) w'
  loop_echoes [] old later buf w info t still_open = (buf, old, w, refl, Sent-nil w)
  loop_echoes (m ∷ ms) old later buf w info (h, t) still_open =
      let (w1, e, sent) =
        ws_echo net room serves w still_open m.kind old
          (record { key = m.key; payload = m.payload; after = drop (length (frame_of m)) buf })
          (h.is_key, h.are_bytes) h.is_text h.small h.answer_fits in
      let (buf', opcode, w', looped, more) =
        loop_echoes ms (kind_opcode m.kind) later (frame_of m ++ drop (length (frame_of m)) buf) w1
          info t (sent.same_closed ∙ still_open) in
      (
        buf',
        opcode,
        w',
        loop_frame net (echo_handlers net crypto http) (kind_opcode m.kind) old m.key m.payload buf
              (frame_rounds ms later) w w1 info still_open (unfold client_frame in omega arith)
              h.fits e
            ∙ looped,
        Sent-trans sent more,
      )

-- What the server answers to the handshake with a key.
abbrev pub accepting : Crypto → Text → List ℕ
accepting crypto key =
    response_text (accept_lines [] (crypto.base64 (crypto.sha1 (key ++ ws_guid))))

-- From the request's first byte to the answer to the last of the messages.
module _ (net : Net) (room : ℕ) (crypto : Crypto) (http : HttpHandlerFactory)
    (path query version : Text) (hs : HeadersMap) (es : List Event) (last : List ℕ)
    (key key_rest : Text) (ms : List Message) (rest : List Round) (buf : List ℕ) (w : World) where
  abbrev Exchanged : Type 0
  Exchanged =
      (buf' : List ℕ) × (opcode : ℕ) × (w' : World) × (loop
          (tcp_server_handler net (echo_handlers net crypto http))
          (rounds_of es (event_round (chunk last) ∷ frame_rounds ms rest)) buf (new_session w)
        ≡ loop (tcp_server_handler net (echo_handlers net crypto http)) rest buf'
            (between opcode w' (request_info path (headers_of [] hs))))
      × Sent w (accepting crypto key ++ answers_of ms) w'

  loop_exchanges :
      Serves net room
      → Sending path query version hs es last
      → is_ws_request (headers_of [] hs) ≡ true
      → find (codes "Sec-WebSocket-Key") (headers_of [] hs) ≡ some (key ++ key_rest)
      → length key ≡ 24
      → length (accepting crypto key) ≤ room
      → All (IsMessage room) ms
      → w.closed ≡ false
      → Exchanged
  unfolding ws_echo_handler
  loop_exchanges serves sending upgrade found long fits messages still_open =
      let (w1, entered, greeted) =
        ws_handshake net crypto room serves (ws_echo_handler net) (headers_of [] hs) key key_rest w
          still_open long fits found in
      let (buf1, looped) =
        loop_upgrades net (echo_handlers net crypto http) path query version hs w w1 sending.well
          sending.short_path upgrade (entered ∙ connects w1) es last (frame_rounds ms rest) buf
          sending.arrive sending.last_pos sending.last_bound sending.whole sending.fits
          still_open in
      let (buf2, opcode, w2, echoed, sent) =
        loop_echoes net room serves crypto http ms 0 rest buf1 w1
          (request_info path (headers_of [] hs)) messages (greeted.same_closed ∙ still_open) in
      (buf2, opcode, w2, looped ∙ echoed, Sent-trans greeted sent)
    where
      connects : (w1 : World) → (ws_echo_handler net).on_connect w1 ≡ (ok tt, w1)
      connects w1 = refl

-- A client of the echo server that asks for an upgrade, sends messages of one masked frame each,
-- and closes its side: the request may come in chunks, with idle rounds and repeated reads between
-- them, where the first chunk brings four bytes at least. The handshake's response goes out, then each message in an unmasked frame of its
-- kind, in order, and the worker ends in order with the socket closed. The request is well-formed
-- and fits, with a key of 24 characters in its header; each message comes in one read, has less
-- than 65536 bytes and no NUL; the connection is open, and its socket makes progress and is
-- followed for more rounds than the response and each answer have bytes.
pub ws_echo_session :
    (net : Net) (room : ℕ) (crypto : Crypto) (http : HttpHandlerFactory) (options : ServerOptions)
    (path query version : Text) (hs : HeadersMap) (es : List Event) (last : List ℕ)
    (key key_rest : Text) (ms : List Message) (later : List Round) (buf : List ℕ) (w : World)
    → Serves net room
    → Sending path query version hs es last
    → is_ws_request (headers_of [] hs) ≡ true
    → find (codes "Sec-WebSocket-Key") (headers_of [] hs) ≡ some (key ++ key_rest)
    → length key ≡ 24
    → length (accepting crypto key) ≤ room
    → All (IsMessage room) ms
    → w.closed ≡ false
    → (opcode : ℕ) × (w' : World) × (run
          (serve net crypto http (ws_echo_handler net) options).handler
          (rounds_of es (event_round (chunk last) ∷ frame_rounds ms (end_of_file ∷ later)))
          buf
          (fresh_worker w)
        ≡ (
          ok tt,
          record {
            session = between opcode w' (request_info path (headers_of [] hs));
            socket_closed = true;
            is_active = false;
          },
        ))
      × Sent w (accepting crypto key ++ answers_of ms) w'
unfolding serve create_server_handler tcp_server_handler ws_echo_handler
ws_echo_session net room crypto http options path query version hs es last key key_rest ms later buf
      w serves sending upgrade found long fits messages still_open =
    let (buf', opcode, w', looped, sent) =
      loop_exchanges net room crypto http path query version hs es last key key_rest ms
        (end_of_file ∷ later) buf w serves sending upgrade found long fits messages still_open in
    let handler = tcp_server_handler net (echo_handlers net crypto http) in
    let info = request_info path (headers_of [] hs) in
    (
      opcode,
      w',
      run_in_order handler _ buf _ (new_session w) (between opcode w' info) (between opcode w' info)
          refl
          (looped
            ∙ loop-end_of_file handler later buf' (between opcode w' info)
                (sent.same_closed ∙ still_open))
          (disconnect_between net (echo_handlers net crypto http) opcode w' w' info refl),
      sent,
    )
