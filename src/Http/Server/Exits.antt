-- ===== src/Http/Server/Exits.antt =====
-- The exit codes of the example servers.
use cppsocks.Base.{ℕ, false, List, [], ◌∷◌, ◌++◌, ◌≡◌, ◌≢◌, refl, ap}
use cppsocks.Base.Outcome.{Result, ok, err, Exception, thrown, terminated, running}
use cppsocks.Base.Effect.{continue, return, recover}
use cppsocks.Tcp.Connection.{Net}
use cppsocks.Tcp.Server
use cppsocks.Tcp.Server.{Server, idle_server, Tick, failed, serve_loop}
use cppsocks.Tcp.Server.Failure.{failed_accept_terminates}
use cppsocks.Tcp.Server.System.Schedule.{quitting, returns}
use cppsocks.Tcp.Echo
use cppsocks.Http.Files.{FileSystem}
use cppsocks.Http.Ws.{Crypto}
use cppsocks.Http.Server.{serve, serve_clients, serve_http, serve_files}
use cppsocks.Http.Server.Examples.{http_simple_main, http_server_main, ws_echo_main, run_main}
use cppsocks.Push.{tcp_push_main, joined_with}
use cppsocks.Push.WsServer.{ws_push_main, ws_push_service}

module _ (nets : ℕ → Net) (i : ℕ) (crypto : Crypto) (fs : FileSystem) where
  -- Every main function comes to this.
  abbrev pub Exit : Result (Unit {0}) → List Tick → Result ℕ × Server → Type 0
  Exit listening ts r =
      (Echo.main listening ts ≡ r)
      × (http_simple_main (nets i) crypto listening ts ≡ r)
      × (http_server_main (nets i) crypto listening ts fs ≡ r)
      × (ws_echo_main (nets i) crypto listening ts ≡ r)
      × (tcp_push_main (ok tt) listening ts ≡ r)
      × (ws_push_main nets crypto i (ok tt) listening ts ≡ r)

  exit_of : Result (Unit {0}) × Server → Result ℕ × Server
  exit_of r = recover (continue r (λ _. return 0)) (λ exc. return 1)

  Exit-serve :
      (listening : Result (Unit {0})) (ts : List Tick) (r : Result (Unit {0}) × Server)
      → Server.serve Server.default_options listening ts idle_server ≡ r
      → Exit listening ts (exit_of r)
  unfolding exit_of Echo.main http_simple_main http_server_main ws_echo_main serve_clients serve
      serve_http serve_files Server.serve tcp_push_main ws_push_main ws_push_service joined_with
      run_main
  Exit-serve listening ts r e =
      (ap exit_of e, ap exit_of e, ap exit_of e, ap exit_of e, ap exit_of e, ap exit_of e)

  -- The six example servers, each with its default options, and the two that push with a pusher
  -- that has returned. The exit code is 0 where the quit condition ends the loop and every worker's
  -- thread then comes to its end; it is 1 where the listening socket cannot be created; and where
  -- `accept` fails while there are workers, there is no exit code, since the process ends by
  -- `std::terminate`. Before that the loop may have made any rounds.
  pub mains-Exit :
      (before rest ts : List Tick) (t : Tick) (s : Server) (e : Exception)
      → serve_loop 2 before idle_server ≡ (err running, s)
      → t.quit ≡ false
      → t.accepted ≡ failed
      → s.workers ≢ []
      → Exit
          (ok tt)
          (before ++ (quitting ∷ rest))
          (ok 0, record s { workers = []; joined = s.joined ++ s.workers })
        × Exit (err (thrown e)) ts (ok 1, idle_server)
        × Exit (ok tt) (before ++ (t ∷ rest)) (err terminated, s)
  unfolding exit_of Server.serve
  mains-Exit before rest ts t s e reached still_on broken busy = (
    Exit-serve (ok tt) (before ++ (quitting ∷ rest)) _
        (returns Server.default_options before rest s reached),
    Exit-serve (err (thrown e)) ts (err (thrown e), idle_server) refl,
    Exit-serve (ok tt) (before ++ (t ∷ rest)) _ (
        failed_accept_terminates Server.default_options before rest t idle_server s reached still_on
          broken busy),
  )
