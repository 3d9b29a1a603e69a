-- ===== src/Http/States/Session/Get.antt =====
-- A connection to the HTTP server on which a GET request comes, from its first byte to its end:
-- worker, states and handler.
use cppsocks.Base.{ℕ, suc, ◌-◌, ◌≤◌, ◌<◌, true, false, List, [], ◌∷◌, ◌++◌}
use cppsocks.Base.{length, drop, replicate, length-replicate, ◌≡◌, refl, sym, ap, ◌∙◌, arith}
use cppsocks.Base.Text.{Text}
use cppsocks.Base.Outcome.{ok, err, Exception, thrown}
use cppsocks.Tcp.Connection.{connection_alone, Net, World}
use cppsocks.Tcp.Worker.{Round, run, loop, max_size}
use cppsocks.Tcp.Worker.Sessions.{
  Event, chunk, event_round, rounds_of, bytes_of, Arrive, loop-Arrived, loop_chunk, loop_closed,
  run_in_order,
}
use cppsocks.Http.Request.{HeadersMap, no_request, is_ws_request, max_path_len}
use cppsocks.Http.Request.Parse.{request_text, request_info, headers_of, IsRequest}
use cppsocks.Http.States.{
  Handlers, HttpSession, get_state, recv_size, new_session, on_receive, tcp_server_handler,
  state_on_disconnect,
}
use cppsocks.Http.States.Step.{waiting}
use cppsocks.Http.States.Requests.{answering}
use cppsocks.Http.States.Answers.{get_request_answered, get_request_refused}
use cppsocks.Http.States.Session.{Unfinished, Holds, room_for, keeps_waiting}

-- The whole request in the buffer, and the connection closed.
abbrev pub refused : Text → Text → Text → HeadersMap → World → HttpSession
refused path query version hs w' =
    let text = request_text path query version hs in
    waiting (text ++ replicate (suc (recv_size - 1 - length text)) 0) (length text)
      (record w' { closed = true }) (request_info path (headers_of [] hs))

-- What a GET request makes of a connection, where the call that completes it leaves `done`, which is
-- closed.
module _ (net : Net) (handlers : Handlers) (text : Text) (w : World) (done : HttpSession)
    (shut : done.world.closed ≡ true)
    (completes : (received bytes after : List ℕ) (s : HttpSession)
      → Holds net handlers w no_request received s
      → received ++ bytes ≡ text
      → length (received ++ bytes) < recv_size
      → on_receive net handlers (bytes ++ after) (length bytes) s ≡ (ok tt, done)) where
  closes :
      (received bytes buf : List ℕ) (s : HttpSession) (r : Round) (later : List Round)
      → Holds net handlers w no_request received s
      → 0 < length bytes
      → length bytes ≤ max_size
      → received ++ bytes ≡ text
      → length (received ++ bytes) < recv_size
      → w.closed ≡ false
      → loop (tcp_server_handler net handlers) (event_round (chunk bytes) ∷ r ∷ later) buf s
        ≡ (ok tt, done)
  unfolding tcp_server_handler
  closes received bytes buf s r later h pos bound parts small still_open =
      loop_chunk (tcp_server_handler net handlers) bytes (r ∷ later) buf s done
        (ap (λ s. s.world.closed) h.2 ∙ still_open) pos bound
        (completes received bytes (drop (length bytes) buf) s h parts small)
      ∙ loop_closed (tcp_server_handler net handlers) r later _ done shut

  -- The worker's loop over all the chunks of a request.
  loop_answers :
      (es : List Event) (last : List ℕ) (r : Round) (later : List Round) (buf : List ℕ)
      → Arrive Unfinished [] es
      → 0 < length last
      → length last ≤ max_size
      → bytes_of es ++ last ≡ text
      → length text < recv_size
      → w.closed ≡ false
      → loop
          (tcp_server_handler net handlers)
          (rounds_of es (event_round (chunk last) ∷ r ∷ later))
          buf
          (new_session w)
        ≡ (ok tt, done)
  unfolding tcp_server_handler
  loop_answers es last r later buf arrive pos bound parts small still_open =
      let (buf', s', looped, h) =
        loop-Arrived (tcp_server_handler net handlers) (Holds net handlers w no_request) Unfinished
          (keeps_waiting net handlers w no_request)
          (λ received s h. ap (λ s. s.world.closed) h.2 ∙ still_open) es
          (event_round (chunk last) ∷ r ∷ later) [] buf (new_session w) arrive
          (recv_size - 1, refl, refl) in
      looped
      ∙ closes (bytes_of es) last buf' s' r later h pos bound parts (omega (arith, ap length parts))
          still_open

module _ (net : Net) (handlers : Handlers) (path query version : Text) (hs : HeadersMap)
    (w w' : World) (well : IsRequest path query version hs) (fits : length path < max_path_len)
    (plain : is_ws_request (headers_of [] hs) ≡ false) where
  abbrev answered : HttpSession
  answered =
      answering get_state (record w' { closed = true }) (request_info path (headers_of [] hs))

  answers :
      handlers.do_get (request_info path (headers_of [] hs)) w ≡ (ok tt, w')
      → (received bytes after : List ℕ) (s : HttpSession)
      → Holds net handlers w no_request received s
      → received ++ bytes ≡ request_text path query version hs
      → length (received ++ bytes) < recv_size
      → on_receive net handlers (bytes ++ after) (length bytes) s ≡ (ok tt, answered)
  answers called received bytes after s (k, total, e) parts small =
      let (k', total', split) = room_for received bytes k total small in
      ap (on_receive net handlers (bytes ++ after) (length bytes))
        (e ∙ ap (λ m. waiting (received ++ m) (length received) w no_request) split)
      ∙ get_request_answered net handlers path query version hs received
          (replicate (length bytes) 0) bytes after k' w w' no_request well fits (zeros bytes) parts
          (omega (arith, ap length parts)) plain called
    where
      zeros : (bs : List ℕ) → length bs ≡ length {A = ℕ} (replicate (length bs) 0)
      zeros bs = sym (length-replicate (length bs) 0)

  refuses :
      (error : Exception)
      → handlers.do_get (request_info path (headers_of [] hs)) w ≡ (err (thrown error), w')
      → (received bytes after : List ℕ) (s : HttpSession)
      → Holds net handlers w no_request received s
      → received ++ bytes ≡ request_text path query version hs
      → length (received ++ bytes) < recv_size
      → on_receive net handlers (bytes ++ after) (length bytes) s
        ≡ (ok tt, refused path query version hs w')
  refuses error called received bytes after s (k, total, e) parts small =
      let (k', total', split) = room_for received bytes k total small in
      let text = request_text path query version hs in
      let same : k' ≡ recv_size - 1 - length text = omega (arith, ap length parts) in
      ap (on_receive net handlers (bytes ++ after) (length bytes))
        (e ∙ ap (λ m. waiting (received ++ m) (length received) w no_request) split)
      ∙ get_request_refused net handlers path query version hs received (replicate (length bytes) 0)
          bytes after k' w w' no_request error well fits (zeros bytes) parts
          (omega (arith, ap length parts)) plain called
      ∙ ap
          (λ n. (
            ok tt,
            waiting (text ++ replicate (suc n) 0) (length text) (record w' { closed = true })
                (request_info path (headers_of [] hs)),
          ))
          same
    where
      zeros : (bs : List ℕ) → length bs ≡ length {A = ℕ} (replicate (length bs) 0)
      zeros bs = sym (length-replicate (length bs) 0)

-- A client that sends a well-formed GET request without an upgrade, cut into chunks wherever it
-- likes and with idle rounds and repeated reads between them, is served: the file handler is
-- called once the last chunk is there, and then the worker ends in order, with the connection and
-- the socket closed. The path has less than 1024 characters, the request leaves a byte of the
-- receive buffer free, each chunk has 1 to 4096 bytes, from the first one on four bytes at least
-- have arrived and none but the last one leaves an empty line at the end, and the handler returns.
pub http_get_session :
    (net : Net) (handlers : Handlers) (path query version : Text) (hs : HeadersMap)
    (es : List Event) (last : List ℕ) (r : Round) (later : List Round) (buf : List ℕ) (w w' : World)
    → IsRequest path query version hs
    → length path < max_path_len
    → is_ws_request (headers_of [] hs) ≡ false
    → length (request_text path query version hs) < recv_size
    → Arrive Unfinished [] es
    → 0 < length last
    → length last ≤ max_size
    → bytes_of es ++ last ≡ request_text path query version hs
    → w.closed ≡ false
    → handlers.do_get (request_info path (headers_of [] hs)) w ≡ (ok tt, w')
    → run
        (tcp_server_handler net handlers)
        (rounds_of es (event_round (chunk last) ∷ r ∷ later))
        buf
        (record { session = new_session w; socket_closed = false; is_active = true })
      ≡ (
        ok tt,
        record {
          session =
              answering get_state
                (record w' { closed = true })
                (request_info path (headers_of [] hs));
          socket_closed = true;
          is_active = false;
        },
      )
unfolding tcp_server_handler state_on_disconnect
http_get_session net handlers path query version hs es last r later buf w w' well fits plain small
      arrive pos bound parts still_open called =
    run_in_order (tcp_server_handler net handlers) _ buf _ (new_session w) done done refl
      (loop_answers net handlers (request_text path query version hs) w done refl
        (answers net handlers path query version hs w w' well fits plain called) es last r later buf
        arrive pos bound parts small still_open)
      refl
  where
    done : HttpSession
    done = answering get_state (record w' { closed = true }) (request_info path (headers_of [] hs))

-- The same client where the handler throws: the connection and the socket are closed in order, and
-- the connection's other state is as the handler left it.
pub http_get_session_refused :
    (net : Net) (handlers : Handlers) (path query version : Text) (hs : HeadersMap)
    (es : List Event) (last : List ℕ) (r : Round) (later : List Round) (buf : List ℕ) (w w' : World)
    (error : Exception)
    → IsRequest path query version hs
    → length path < max_path_len
    → is_ws_request (headers_of [] hs) ≡ false
    → length (request_text path query version hs) < recv_size
    → Arrive Unfinished [] es
    → 0 < length last
    → length last ≤ max_size
    → bytes_of es ++ last ≡ request_text path query version hs
    → w.closed ≡ false
    → handlers.do_get (request_info path (headers_of [] hs)) w ≡ (err (thrown error), w')
    → run
        (tcp_server_handler net handlers)
        (rounds_of es (event_round (chunk last) ∷ r ∷ later))
        buf
        (record { session = new_session w; socket_closed = false; is_active = true })
      ≡ (
        ok tt,
        record {
          session = refused path query version hs w';
          socket_closed = true;
          is_active = false;
        },
      )
unfolding tcp_server_handler state_on_disconnect
http_get_session_refused net handlers path query version hs es last r later buf w w' error well fits
      plain small arrive pos bound parts still_open called =
    run_in_order (tcp_server_handler net handlers) _ buf _ (new_session w) done done refl
      (loop_answers net handlers (request_text path query version hs) w done refl
        (refuses net handlers path query version hs w w' well fits plain error called) es last r
        later buf arrive pos bound parts small still_open)
      refl
  where
    done : HttpSession
    done = refused path query version hs w'
