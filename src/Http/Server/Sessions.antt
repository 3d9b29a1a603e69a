-- ===== src/Http/Server/Sessions.antt =====
-- A client's whole connection to a server that is put together by `Server::serve`.
use cppsocks.Base.{
  Option, ℕ, ◌^◌, ◌≤◌, ◌<◌, false, true, none, some, List, [], ◌∷◌, ◌++◌, length, ◌≡◌, refl, ◌∙◌,
  arith,
}
use cppsocks.Base.Bytes.{codes}
use cppsocks.Base.Text.{Text, find_text}
use cppsocks.Base.Outcome.{Result, ok, err, thrown, out_of_range}
use cppsocks.Base.Effect.{◌>>◌}
use cppsocks.Tcp.Connection.{connection_alone, Net, World}
use cppsocks.Tcp.Connection.Laws.{Sent}
use cppsocks.Tcp.Connection.Serving.{Serves}
use cppsocks.Tcp.Worker.{new_worker, Round, Worker, run, max_size}
use cppsocks.Tcp.Worker.Sessions.{Event, chunk, event_round, rounds_of, bytes_of, Arrive}
use cppsocks.Http.Request.{RequestInfo, HeadersMap, find, is_ws_request, max_path_len}
use cppsocks.Http.Request.Parse.{request_text, request_info, headers_of, IsRequest}
use cppsocks.Http.Response.{newline, status_text, length_text, http_200, write}
use cppsocks.Http.Response.Emits.{Emits->>, http_200-Emits, write_whole-Emits, length_text-le}
use cppsocks.Http.Files.{FileSystem, buf_size, local_path}
use cppsocks.Http.Files.Serve.{do_get-Sent}
use cppsocks.Http.Ws.{Crypto}
use cppsocks.Http.States.{HttpSession, get_state, recv_size, new_session}
use cppsocks.Http.States.Requests.{answering}
use cppsocks.Http.States.Session.Get.{http_get_session, http_get_session_refused, refused}
use cppsocks.Http.States.Session.{Unfinished}
use cppsocks.Http.Server.{
  HttpHandlerFactory, WsHandlerFactory, ServerOptions, Service, serve, serve_files,
  create_server_handler, file_handler_factory, ws_handler_null_factory, serve_http,
}
use cppsocks.Http.Server.Examples.{greeting, simple_do_get}

greets :
    (net : Net) (info : RequestInfo) (host : Text) (w : World)
    → find (codes "Host") info.headers ≡ some host
    → simple_do_get net info w
      ≡ (http_200 net (some (length greeting)) >> write net greeting (length greeting)) w
unfolding simple_do_get
greets net info host w named = rw (simple_do_get, named) refl

throws :
    (net : Net) (info : RequestInfo) (w : World)
    → find (codes "Host") info.headers ≡ none
    → simple_do_get net info w ≡ (err (thrown out_of_range), w)
unfolding simple_do_get
throws net info w unnamed = rw (simple_do_get, unnamed) refl

-- How a client sends a request: cut into chunks, of which the last one completes it.
pub record Sending (path query version : Text) (hs : HeadersMap) (es : List Event) (last : List ℕ)
    : Type 0 where
  pub well : IsRequest path query version hs
  pub short_path : length path < max_path_len
  pub fits : length (request_text path query version hs) < recv_size
  pub arrive : Arrive Unfinished [] es
  pub last_pos : 0 < length last
  pub last_bound : length last ≤ max_size
  pub whole : bytes_of es ++ last ≡ request_text path query version hs

abbrev pub fresh_worker : World → Worker HttpSession
fresh_worker w = new_worker (new_session w)

-- A worker that has answered a GET request and ended.
abbrev pub ended_worker : World → Text → HeadersMap → Worker HttpSession
ended_worker w path hs = record {
  session = answering get_state (record w { closed = true }) (request_info path (headers_of [] hs));
  socket_closed = true;
  is_active = false;
}

module _ (net : Net) (room : ℕ) (serves : Serves net room) (wide : buf_size ≤ room)
    (crypto : Crypto) (path query version : Text) (hs : HeadersMap) (es : List Event)
    (last : List ℕ) (r : Round) (later : List Round) (buf : List ℕ) (w : World)
    (sending : Sending path query version hs es last)
    (plain : is_ws_request (headers_of [] hs) ≡ false) (still_open : w.closed ≡ false) where
  abbrev run_service : Service → Result (Unit {0}) × Worker HttpSession
  run_service service =
      run service.handler (rounds_of es (event_round (chunk last) ∷ r ∷ later)) buf (fresh_worker w)

  answered :
      (http : HttpHandlerFactory) (ws : WsHandlerFactory) (options : ServerOptions) (w' : World)
      → http (request_info path (headers_of [] hs)) w ≡ (ok tt, w')
      → run_service (serve net crypto http ws options) ≡ (ok tt, ended_worker w' path hs)
  unfolding serve create_server_handler
  answered http ws options w' called =
      http_get_session net _ path query version hs es last r later buf w w' sending.well
        sending.short_path plain sending.fits sending.arrive sending.last_pos sending.last_bound
        sending.whole still_open called

  -- The server that `serve` makes of a base path alone, for a client that asks for a file: into
  -- whatever chunks the request is cut, if the first has four bytes at least, the whole response goes out, which is the status, the length and
  -- the file's bytes, and the worker ends in order with connection and socket closed. The request is
  -- well-formed, fits, and asks for no upgrade; its path, taken relative to the working directory
  -- and not to the base path, has no `..` in it and names a file that can be read, of less than
  -- 2 ^ 64 bytes by the file system; the connection is open, and its socket makes progress and is
  -- followed for more than a buffer's bytes.
  pub file_session :
      (fs : FileSystem) (base_path : Text) (options : ServerOptions) (content : List ℕ) (size : ℕ)
      → find_text (codes "..") (local_path path) ≡ none
      → fs.contents (local_path path) ≡ some content
      → fs.file_size (local_path path) ≡ some size
      → size < 2 ^ 64
      → (w' : World) × (run_service (serve_files net crypto fs base_path options)
          ≡ (ok tt, ended_worker w' path hs))
        × Sent w
            ((status_text (codes "200 OK") ++ (length_text (some size) ++ newline)) ++ content)
            w'
  unfolding serve_files file_handler_factory
  file_session fs base_path options content size safe found sized small =
      let (w', called, sent) =
        do_get-Sent net room serves wide fs (request_info path (headers_of [] hs)) content size w
          safe found sized small still_open in
      (w', answered _ (ws_handler_null_factory net) options w' called, sent)

  -- `SimpleServerHandler`, for a request that names a host.
  simple_answer :
      (host : Text)
      → 100 ≤ room
      → find (codes "Host") (headers_of [] hs) ≡ some host
      → (w' : World) × (simple_do_get net (request_info path (headers_of [] hs)) w ≡ (ok tt, w'))
        × Sent w
            ((status_text (codes "200 OK") ++ (length_text (some (length greeting)) ++ newline))
              ++ greeting)
            w'
  simple_answer host enough named =
      let (w', e, sent) =
        Emits->> (http_200 net (some (length greeting))) (write net greeting (length greeting)) _
          greeting
          (http_200-Emits net room serves (some (length greeting))
            (omega (arith, length_text-le (length greeting) (omega arith))) enough)
          (write_whole-Emits net room serves greeting (omega arith)) w still_open in
      (w', greets net (request_info path (headers_of [] hs)) host w named ∙ e, sent)

  -- What becomes of a connection, by the value of the request's Host header.
  abbrev pub Greeted : Option Text → Result (Unit {0}) × Worker HttpSession → Type 0
  Greeted (some host) r =
      (w' : World) × (r ≡ (ok tt, ended_worker w' path hs))
      × Sent w
          ((status_text (codes "200 OK") ++ (length_text (some (length greeting)) ++ newline))
            ++ greeting)
          w'
  Greeted none r = r ≡ (
    ok tt,
    record { session = refused path query version hs w; socket_closed = true; is_active = false },
  )

  -- The server of examples/http_simple/main.cpp, for a client that sends a request in
  -- chunks, the first of four bytes at least: one
  -- that names a host is answered with the status, the length and the greeting; one that has no Host
  -- header gets nothing, since the exception of the line that logs the host is caught in the state
  -- machine. In both cases the worker ends in order, with connection and socket closed. The request
  -- is well-formed, fits, and asks for no upgrade; the connection is open, and its socket makes
  -- progress and is followed for more than a buffer's bytes.
  pub simple_session :
      (options : ServerOptions) (host : Option Text)
      → find (codes "Host") (headers_of [] hs) ≡ host
      → Greeted host (run_service (serve_http net crypto (simple_do_get net) options))
  unfolding serve_http serve create_server_handler
  simple_session options (some host) named =
      let (w', called, sent) = simple_answer host (omega arith) named in
      (w', answered _ (ws_handler_null_factory net) options w' called, sent)
  simple_session options none unnamed =
      http_get_session_refused net _ path query version hs es last r later buf w w out_of_range
        sending.well sending.short_path plain sending.fits sending.arrive sending.last_pos
        sending.last_bound sending.whole still_open
        (throws net (request_info path (headers_of [] hs)) w unnamed)
