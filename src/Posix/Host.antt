-- ===== src/Posix/Host.antt =====
-- A server's process over POSIX: `Server::serve` of tcp/socks_tcp.cpp with the sockets of
-- examples/system_context/, the signals, and the main functions of
-- the programs of examples/.
pub mod Ledger
pub mod Steps
pub mod Loop
pub mod Ends
pub mod Fails
pub mod Tests
use cppsocks.Base.{
  ℕ, suc, Bool, Option, none, some, List, [], ◌∷◌, ◌++◌, length, ltb, ◌==◌, if◌then◌else◌,
}
use cppsocks.Base.Outcome.{Result, ok, err, thrown, running, runtime_error, fault, terminated}
use cppsocks.Base.Effect.{M, return, raise, continue, recover, ◌>>=◌, ◌>>◌}
use cppsocks.Tcp.Connection.{Answer, wrote, again, failed}
use cppsocks.Tcp.Server.{
  Server, ServerOptions, default_options, idle_server, cleanup, start_worker, turn_away, finish_all,
  unwound,
}
use cppsocks.Posix.{
  Answered, Polled, Descriptors, close_bound, socket_write, ListenAnswers, create_listen_socket,
}
use cppsocks.Push.{joined_with}
use cppsocks.Http.Server as Http
use cppsocks.Posix.Accept.{accept, socket_close}
use cppsocks.Posix.Signals.{
  Signals, signals_at_start, signalled, quit_condition, init_quit_condition,
}

-- The object that `createListenSocket` returns.
pub record ListenSocket : Type 0 where
  pub fd : ℕ

-- The sockets of the workers that have not closed theirs, by the worker's number, and the
-- descriptors of the clients that were turned away.
pub record Host : Type 0 where
  pub signals : Signals
  pub descriptors : Descriptors
  pub server : Server
  pub sockets : List (ℕ × ℕ)
  pub refused_fds : List ℕ

abbrev pub on_descriptors : {A : Type 0} → M Descriptors A → M Host A
on_descriptors m h = let (r, d) = m h.descriptors in (r, record h { descriptors = d })

abbrev pub on_signals : M Signals (Unit {0}) → M Host (Unit {0})
on_signals m h = let (r, s) = m h.signals in (r, record h { signals = s })

abbrev pub on_server : M Server (Unit {0}) → M Host (Unit {0})
on_server m h = let (r, s) = m h.server in (r, record h { server = s })

-- What one round of the server's loop finds: the answers of the calls in `accept`, the workers
-- whose flag is down, and the answer of `send` to the message for a client that is turned away.
pub record Arrival : Type 0 where
  pub polled : Answered Polled
  pub client : Answered ℕ
  pub no_delay : Answered (Unit {0})
  pub is_finished : ℕ → Bool
  pub bye : Answered ℕ

-- The result of `write` is not used; an exception leaves the loop.
said : Answer → M Host (Unit {0})
said (wrote n) = return tt
said again = return tt
said failed = raise runtime_error

-- What the loop does with what `accept` returns.
pub on_client : ℕ → Arrival → Option ℕ → M Host (Unit {0})
unfolding said
on_client max_clients a none h = (ok tt, h)
on_client max_clients a (some fd) h =
    let s = cleanup a.is_finished h.server in
    if ltb (length s.workers) max_clients
    then (ok tt, record h { server = start_worker s; sockets = (s.started, fd) ∷ h.sockets })
    else said (socket_write a.bye)
        (record h { server = turn_away s; refused_fds = fd ∷ h.refused_fds })

-- What happens in the process: a signal arrives, a worker's thread comes to its `socket->close()`,
-- or the server's thread makes a round.
pub data Moment : Type 0 where
  signal : ℕ → Moment
  closes : ℕ → Moment
  round : Arrival → Moment

pub socket_of : ℕ → List (ℕ × ℕ) → Option ℕ
socket_of k [] = none
socket_of k ((j, fd) ∷ rest) = if j == k then some fd else socket_of k rest

pub without : ℕ → List (ℕ × ℕ) → List (ℕ × ℕ)
without k [] = []
without k ((j, fd) ∷ rest) = if j == k then rest else (j, fd) ∷ without k rest

-- A worker that has no open socket closes none.
pub close_socket : ℕ → Option ℕ → M Host (Unit {0})
unfolding without
close_socket k none h = (ok tt, h)
close_socket k (some fd) h =
    on_descriptors (socket_close fd) (record h { sockets = without k h.sockets })

-- The loop of `serve` is still running when the moments are over.
unfoldable pub host_loop : ℕ → List Moment → M Host (Unit {0})
unfolding on_client close_socket socket_of
host_loop max_clients [] h = (err running, h)
host_loop max_clients (signal sig_no ∷ later) h =
    continue (on_signals (signalled sig_no) h) (λ _. host_loop max_clients later)
host_loop max_clients (closes k ∷ later) h =
    continue (close_socket k (socket_of k h.sockets) h) (λ _. host_loop max_clients later)
host_loop max_clients (round a ∷ later) h =
    let next =
      continue
        ((on_descriptors (accept a.polled a.client a.no_delay) >>= on_client max_clients a) h)
        (λ _. host_loop max_clients later) in
    if quit_condition h.signals.signal_status then on_server (finish_all a.is_finished) h else next

-- The destructor of `ListenSocket`.
pub destroy : ListenSocket → Host → Host
destroy socket h = (on_descriptors (close_bound socket.fd) h).1

-- `serve` is left: the listening socket is destroyed, and then the list of workers.
pub leave_host : ListenSocket → Result (Unit {0}) × Host → Result (Unit {0}) × Host
unfolding destroy
leave_host socket (ok t, h) = (ok t, destroy socket h)
leave_host socket (err (thrown e), h) =
    (unwound (err (thrown e)) h.server.workers, destroy socket h)
leave_host socket (err other, h) = (err other, h)

-- `Server::serve`.
unfoldable pub host_serve :
    (ℕ → ℕ) → ListenAnswers → ServerOptions → List Moment → M Host (Unit {0})
unfolding leave_host
host_serve non_blocking answers options moments = do
  fd ← on_descriptors (create_listen_socket non_blocking answers options.server_port)
  λ h. leave_host (record { fd = fd }) (host_loop options.max_clients moments h)

abbrev pub new_host : Descriptors → Host
new_host d = record {
  signals = signals_at_start;
  descriptors = d;
  server = idle_server;
  sockets = [];
  refused_fds = [];
}

-- The six programs of examples/, the two that push with what becomes of their pusher.
pub data Program : Type 0 where
  tcp_echo http_simple http_server ws_echo : Program
  tcp_push ws_push : Result (Unit {0}) → Program

-- What `Http::Server::serve` makes of its default options.
abbrev pub http_options : ServerOptions
http_options = record {
  server_port = Http.default_options.port;
  max_clients = Http.default_options.max_clients;
}

abbrev pub options_of : Program → ServerOptions
options_of tcp_echo = default_options
options_of http_simple = http_options
options_of http_server = http_options
options_of ws_echo = http_options
options_of (tcp_push pusher) = default_options
options_of (ws_push pusher) = http_options

abbrev pub pusher_of : Program → Result (Unit {0})
pusher_of tcp_echo = ok tt
pusher_of http_simple = ok tt
pusher_of http_server = ok tt
pusher_of ws_echo = ok tt
pusher_of (tcp_push pusher) = pusher
pusher_of (ws_push pusher) = pusher

-- Where there is no pusher, there is nothing to wait for.
abbrev pub join_pusher : Program → Result ℕ × Host → Result ℕ × Host
join_pusher program r = joined_with (pusher_of program) r

-- Their `main`: `EXIT_SUCCESS` is 0 and `EXIT_FAILURE` is 1.
unfoldable pub host_main : Program → (ℕ → ℕ) → ListenAnswers → List Moment → M Host ℕ
host_main program non_blocking answers moments = do
  on_signals init_quit_condition
  λ h. join_pusher program (
      recover ((host_serve non_blocking answers (options_of program) moments >> return 0) h)
        (λ exc. return 1))
