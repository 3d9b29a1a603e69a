-- ===== src/Posix/Tests.antt =====
-- Sockets over concrete answers.
use cppsocks.Base.{ℕ, true, false, List, refl, arith, ◌+◌, ◌%◌, ◌^◌, none, some, [], ◌∷◌, ◌≡◌}
use cppsocks.Base.Outcome.{ok, err, thrown, running, terminated, runtime_error}
use cppsocks.Base.Effect.{◌>>=◌, ◌>>◌}
use cppsocks.Tcp.Connection.{World}
use cppsocks.Tcp.Connection.Laws.{Sent}
use cppsocks.Tcp.Connection.Tests.{fresh_world}
use cppsocks.Tcp.Worker.{run}
use cppsocks.Tcp.Worker.Sessions.{bytes_of, Arrive}
use cppsocks.Tcp.Echo.{echo_handler}
use cppsocks.Tcp.Echo.Session.{Anything}
use cppsocks.Posix.Files.{posix_file_session}
use cppsocks.Base.{◌++◌}
use cppsocks.Base.Bytes.{codes, text_eq}
use cppsocks.Tcp.Connection.{connection_alone}
use cppsocks.Http.Request.Tests.{path, query, version, plain_headers, plain_headers-stay}
use cppsocks.Http.Response.{newline, status_text, length_text}
use cppsocks.Http.Files.{local_path}
use cppsocks.Http.Files.Tests.{one_file, safe_path}
use cppsocks.Http.Ws.Tests.{toy_crypto}
use cppsocks.Http.Server.{default_options, serve_files}
use cppsocks.Http.Server.Sessions.{fresh_worker, ended_worker}
use cppsocks.Http.Server.Tests.{first_part, second_part, plain-Sending}
use cppsocks.Posix.{
  eintr, ewouldblock, other_errno, Answered, answered, refused, Polled, set_socket_flags,
  Descriptors,
}
use cppsocks.Posix.Sockets.{
  posix_net, Happens, times_out, poll_interrupted, recv_interrupted, nothing_there, arrives,
  rounds_at, round_at, events_of, client_gone, TakesBytes, posix_echo,
}
use cppsocks.Posix.Accept.{accept, socket_close, accept_outcomes}
use cppsocks.Posix.Signals.{
  signals_at_start, init_quit_condition, signals, numbers, interrupt, terminate, quit_condition,
  signals_ask_to_quit,
}
use cppsocks.Posix.Laws.{failures, set_socket_flags_retries, outcome, create_listen_socket_outcomes}

set_socket_flags_retries_example :
    (set_socket_flags
        (failures (eintr ∷ other_errno ∷ []) (answered 2 ∷ []))
        (failures [] (answered tt ∷ []))
        (λ flags. flags + 2048)
      ≡ ok 2050)
    × (set_socket_flags (failures (eintr ∷ other_errno ∷ []) []) [] (λ flags. flags + 2048)
        ≡ err running)
set_socket_flags_retries_example =
    set_socket_flags_retries (eintr ∷ other_errno ∷ []) [] 2 [] [] (λ flags. flags + 2048)

abbrev three_open : Descriptors
three_open = record { opened = 0 ∷ 1 ∷ 2 ∷ []; bound = none }

create_listen_socket_outcomes_example :
    (outcome
        (λ flags. flags + 2048)
        3
        2
        8080
        []
        []
        three_open
        (answered tt)
        (answered tt)
        (answered tt)
      ≡ (ok 3, record { opened = 3 ∷ three_open.opened; bound = some (8080 % 2 ^ 16) }))
    × (outcome
          (λ flags. flags + 2048)
          3
          2
          8080
          []
          []
          three_open
          (refused other_errno)
          (answered tt)
          (answered tt)
        ≡ (err (thrown runtime_error), record three_open { opened = 3 ∷ three_open.opened }))
    × (outcome
          (λ flags. flags + 2048)
          3
          2
          8080
          []
          []
          three_open
          (answered tt)
          (refused other_errno)
          (answered tt)
        ≡ (err (thrown runtime_error), three_open))
    × (outcome
          (λ flags. flags + 2048)
          3
          2
          8080
          []
          []
          three_open
          (answered tt)
          (answered tt)
          (refused other_errno)
        ≡ (err (thrown runtime_error), record three_open { bound = none }))
create_listen_socket_outcomes_example =
    create_listen_socket_outcomes (λ flags. flags + 2048) 3 2 8080 [] [] other_errno (answered tt)
      (answered tt) three_open

-- A system that takes one byte at a time.
abbrev slow_kernel : ℕ → ℕ → Answered ℕ
slow_kernel i n = answered 1

slow_kernel-TakesBytes : TakesBytes slow_kernel
slow_kernel-TakesBytes i n pos = (1, refl, omega arith, pos)

abbrev happenings : List Happens
happenings =
    times_out
    ∷ arrives (1 ∷ 2 ∷ [])
    ∷ poll_interrupted
    ∷ recv_interrupted
    ∷ nothing_there
    ∷ arrives (3 ∷ [])
    ∷ []

happenings-Arrive : Arrive Anything [] (events_of happenings)
happenings-Arrive = (omega arith, omega arith, tt, (omega arith, omega arith, tt, tt))

posix_echo_example :
    (w' : World) × (run
        (echo_handler (posix_net slow_kernel 5000))
        (rounds_at happenings (client_gone ∷ []))
        []
        (record { session = fresh_world; socket_closed = false; is_active = true })
      ≡ (ok tt, record { session = w'; socket_closed = true; is_active = false }))
    × Sent fresh_world (bytes_of (events_of happenings)) w'
posix_echo_example =
    posix_echo slow_kernel 5000 happenings [] [] fresh_world slow_kernel-TakesBytes (omega arith)
      happenings-Arrive refl

-- The request comes in two reads, with an interrupted `poll` between them.
abbrev request_happenings : List Happens
request_happenings = arrives first_part ∷ poll_interrupted ∷ []

posix_file_session_example :
    (w' : World) × (run
        (serve_files
          (posix_net slow_kernel 5000)
          toy_crypto
          one_file
          (codes "/tmp")
          default_options).handler
        (rounds_at request_happenings (round_at (arrives second_part) ∷ client_gone ∷ []))
        []
        (fresh_worker fresh_world)
      ≡ (ok tt, ended_worker w' path plain_headers))
    × Sent fresh_world
        ((status_text (codes "200 OK") ++ (length_text (some 3) ++ newline)) ++ (7 ∷ 8 ∷ 9 ∷ []))
        w'
unfolding local_path text_eq
posix_file_session_example =
    posix_file_session slow_kernel 5000 toy_crypto one_file (codes "/tmp") path query version
      default_options plain_headers request_happenings second_part client_gone [] []
      (7 ∷ 8 ∷ 9 ∷ []) 3 fresh_world slow_kernel-TakesBytes (omega arith) plain-Sending
      plain_headers-stay safe_path refl refl (omega arith) refl

abbrev one_ready : Answered Polled
one_ready = answered (record { ready = 1; flagged = true })

accept_outcomes_example :
    (accept (answered (record { ready = 0; flagged = true })) (answered 4) (answered tt) three_open
      ≡ (ok none, three_open))
    × (accept
          (answered (record { ready = 1; flagged = false }))
          (answered 4)
          (answered tt)
          three_open
        ≡ (ok none, three_open))
    × (accept (refused eintr) (answered 4) (answered tt) three_open ≡ (ok none, three_open))
    × (accept (refused other_errno) (answered 4) (answered tt) three_open
        ≡ (err (thrown runtime_error), three_open))
    × (accept one_ready (refused eintr) (answered tt) three_open ≡ (ok none, three_open))
    × (accept one_ready (refused ewouldblock) (answered tt) three_open ≡ (ok none, three_open))
    × (accept one_ready (refused other_errno) (answered tt) three_open
        ≡ (err (thrown runtime_error), three_open))
    × ((accept one_ready (answered 4) (answered tt) >>= (λ _. socket_close 4)) three_open
        ≡ (ok tt, three_open))
    × (accept one_ready (answered 4) (refused other_errno) three_open
        ≡ (err (thrown runtime_error), record three_open { opened = 4 ∷ three_open.opened }))
accept_outcomes_example = accept_outcomes 4 (answered 4) (answered tt) other_errno three_open

two_signals :
    let (result, s) =
      (init_quit_condition >> signals (numbers (interrupt ∷ terminate ∷ []))) signals_at_start in
    (result ≡ ok tt)
    × (quit_condition s.signal_status ≡ true)
    × ((signals (numbers (interrupt ∷ interrupt ∷ terminate ∷ [])) signals_at_start).0
        ≡ err terminated)
two_signals = signals_ask_to_quit (interrupt ∷ terminate ∷ []) interrupt
