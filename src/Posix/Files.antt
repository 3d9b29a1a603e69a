-- ===== src/Posix/Files.antt =====
-- The HTTP server's files over POSIX.
use cppsocks.Base.{ℕ, ◌^◌, ◌<◌, false, none, some, List, [], ◌∷◌, ◌++◌, ◌≡◌, ap, ◌∙◌, arith}
use cppsocks.Base.Bytes.{codes}
use cppsocks.Base.Text.{Text, find_text}
use cppsocks.Base.Outcome.{ok}
use cppsocks.Tcp.Connection.{connection_alone, World}
use cppsocks.Tcp.Connection.Laws.{Sent}
use cppsocks.Tcp.Worker.{Round, run}
use cppsocks.Tcp.Worker.Sessions.{rounds_of}
use cppsocks.Http.Request.{HeadersMap, is_ws_request}
use cppsocks.Http.Request.Parse.{headers_of}
use cppsocks.Http.Response.{newline, status_text, length_text}
use cppsocks.Http.Files.{FileSystem, buf_size, local_path}
use cppsocks.Http.Ws.{Crypto}
use cppsocks.Http.Server.{ServerOptions, serve_files}
use cppsocks.Http.Server.Sessions.{Sending, fresh_worker, ended_worker, file_session}
use cppsocks.Posix.{Answered}
use cppsocks.Posix.Sockets.{
  posix_net, TakesBytes, posix_net-Serves, Happens, arrives, round_at, rounds_at, events_of,
  rounds_at-events, round_at-event,
}

-- The file server over POSIX: through time-outs, interrupted calls and reads that find nothing, a
-- client that asks for a file in chunks, of which the first has four bytes at least, is sent the status, the length and the file's bytes,
-- and the worker ends in order with connection and socket closed. No signal has arrived; `send`
-- blocks until it takes a byte, and is followed for more than a buffer's rounds; the request is
-- well-formed, fits, and asks for no upgrade; its path, taken relative to the working directory,
-- has no `..` in it and names a file that can be read, of less than 2 ^ 64 bytes by the file
-- system; and the connection is open.
pub posix_file_session :
    (kernel : ℕ → ℕ → Answered ℕ) (rounds : ℕ) (crypto : Crypto) (fs : FileSystem)
    (base_path path query version : Text) (options : ServerOptions) (hs : HeadersMap)
    (xs : List Happens) (last : List ℕ) (r : Round) (later : List Round) (buf : List ℕ)
    (content : List ℕ) (size : ℕ) (w : World)
    → TakesBytes kernel
    → buf_size < rounds
    → Sending path query version hs (events_of xs) last
    → is_ws_request (headers_of [] hs) ≡ false
    → find_text (codes "..") (local_path path) ≡ none
    → fs.contents (local_path path) ≡ some content
    → fs.file_size (local_path path) ≡ some size
    → size < 2 ^ 64
    → w.closed ≡ false
    → (w' : World) × (run
          (serve_files (posix_net kernel rounds) crypto fs base_path options).handler
          (rounds_at xs (round_at (arrives last) ∷ r ∷ later))
          buf
          (fresh_worker w)
        ≡ (ok tt, ended_worker w' path hs))
      × Sent w
          ((status_text (codes "200 OK") ++ (length_text (some size) ++ newline)) ++ content)
          w'
posix_file_session kernel rounds crypto fs base_path path query version options hs xs last r later
      buf content size w takes enough sending plain safe found sized small still_open =
    let net = posix_net kernel rounds in
    let (w', ran, sent) =
      file_session net buf_size (posix_net-Serves kernel rounds buf_size takes enough (omega arith))
        (omega arith) crypto path query version hs (events_of xs) last r later buf w sending plain
        still_open fs base_path options content size safe found sized small in
    (
      w',
      ap (λ rs. run (serve_files net crypto fs base_path options).handler rs buf (fresh_worker w))
            (rounds_at-events xs (round_at (arrives last) ∷ r ∷ later)
              ∙ ap (λ a. rounds_of (events_of xs) (a ∷ r ∷ later)) (round_at-event (arrives last)))
          ∙ ran,
      sent,
    )
