-- ===== src/Http/Server/Tests.antt =====
-- Whole connections to servers that are put together from the library.
use cppsocks.Base.{ℕ, true, false, none, some, List, [], ◌∷◌, ◌++◌, ◌≡◌, ◌≢◌, refl, arith}
use cppsocks.Base.Bytes.{codes, text_eq}
use cppsocks.Base.Outcome.{ok, err, thrown, terminated, runtime_error}
use cppsocks.Base.Effect.{◌>>◌, ◌>>=◌}
use cppsocks.Tcp.Connection.{connection_alone, World}
use cppsocks.Tcp.Connection.Laws.{Sent}
use cppsocks.Tcp.Connection.Tests.{eager_net, fresh_world}
use cppsocks.Tcp.Worker.{run}
use cppsocks.Tcp.Worker.Sessions.{Event, idle, chunk, event_round, rounds_of, end_of_file, Arrive}
use cppsocks.Http.Response.{newline, status_text, length_text}
use cppsocks.Http.Response.Tests.{eager_net-Serves}
use cppsocks.Http.Request.Tests.{
  path, query, version, plain_headers, plain-IsRequest, plain_headers-stay,
}
use cppsocks.Http.Files.Tests.{one_file, safe_path}
use cppsocks.Http.Files.{local_path}
use cppsocks.Http.Ws.Tests.{toy_crypto, zero_key}
use cppsocks.Http.Ws.Receive.{Fragment}
use cppsocks.Frame.{opcode_connection_close}
use cppsocks.Http.States.Session.{Unfinished}
use cppsocks.Http.Server.{default_options, serve_files, serve_http}
use cppsocks.Http.Request.{is_ws_request, has_header_value, find}
use cppsocks.Http.Server.Examples.{simple_do_get}
use cppsocks.Http.States.Session.Get.{refused}
use cppsocks.Http.Server.Sessions.{
  Sending, fresh_worker, ended_worker, file_session, simple_session,
}
use cppsocks.Tcp.Server.{idle_server}
use cppsocks.Tcp.Server.System.Schedule.{quitting}
use cppsocks.Tcp.Server.System.Tests.{arrival, accept_fails, one_started, arrived, busy}
use cppsocks.Http.Server.Exits.{Exit, mains-Exit}
use cppsocks.Http.Server.Shared.{Shared, create_ws_handler, receives, null_handler_shared}

abbrev pub first_part : List ℕ
first_part = codes "GET /a?x=1 HT"

abbrev pub second_part : List ℕ
second_part = codes "TP/1.1\r\nHost: b\r\n\r\n"

abbrev pub events : List Event
events = chunk first_part ∷ idle ∷ []

pub first_part-Unfinished : Unfinished [] first_part
unfolding text_eq
first_part-Unfinished = (codes "GET /a?x=", codes "1 HT", refl, refl, refl, omega arith)

pub events-Arrive : Arrive Unfinished [] events
events-Arrive = (omega arith, omega arith, first_part-Unfinished, tt)

pub plain-Sending : Sending path query version plain_headers events second_part
plain-Sending = record {
  well = plain-IsRequest;
  short_path = omega arith;
  fits = omega arith;
  arrive = events-Arrive;
  last_pos = omega arith;
  last_bound = omega arith;
  whole = refl;
}

file_session_example :
    (w' : World) × (run
        (serve_files eager_net toy_crypto one_file (codes "/tmp") default_options).handler
        (rounds_of events (event_round (chunk second_part) ∷ end_of_file ∷ []))
        []
        (fresh_worker fresh_world)
      ≡ (ok tt, ended_worker w' path plain_headers))
    × Sent fresh_world
        ((status_text (codes "200 OK") ++ (length_text (some 3) ++ newline)) ++ (7 ∷ 8 ∷ 9 ∷ []))
        w'
unfolding local_path text_eq
file_session_example =
    file_session eager_net 10000 eager_net-Serves (omega arith) toy_crypto path query version
      plain_headers events second_part end_of_file [] [] fresh_world plain-Sending
      plain_headers-stay refl one_file (codes "/tmp") default_options (7 ∷ 8 ∷ 9 ∷ []) 3 safe_path
      refl refl (omega arith)

-- A request with no header.
bare-Sending : Sending path query version [] events (codes "TP/1.1\r\n\r\n")
bare-Sending = record {
  well = record {
    path_plain = ground arith;
    query_plain = ground arith;
    version_plain = ground arith;
    headers_plain = tt;
    no_nul = ground arith;
  };
  short_path = omega arith;
  fits = omega arith;
  arrive = events-Arrive;
  last_pos = omega arith;
  last_bound = omega arith;
  whole = refl;
}

simple_session_example :
    run
      (serve_http eager_net toy_crypto (simple_do_get eager_net) default_options).handler
      (rounds_of events (event_round (chunk (codes "TP/1.1\r\n\r\n")) ∷ end_of_file ∷ []))
      []
      (fresh_worker fresh_world)
    ≡ (
      ok tt,
      record {
        session = refused path query version [] fresh_world;
        socket_closed = true;
        is_active = false;
      },
    )
unfolding text_eq is_ws_request has_header_value find
simple_session_example =
    simple_session eager_net 10000 eager_net-Serves (omega arith) toy_crypto path query version []
      events (codes "TP/1.1\r\n\r\n") end_of_file [] [] fresh_world bare-Sending refl refl
      default_options none refl

abbrev farewell : Fragment
farewell = record { key = zero_key; payload = []; after = 9 ∷ [] }

abbrev two_connections : Shared
two_connections = record { worlds = λ i. fresh_world; null_handler = none }

apart : ◌≢◌ {A = ℕ} 1 0
apart h = absurd (omega arith)

null_handler_shared_example :
    let (r, s') =
      (create_ws_handler (λ i. eager_net) 0
          >> (create_ws_handler (λ i. eager_net) 1
              >>= receives (λ i. eager_net) 1 true opcode_connection_close farewell))
        two_connections in
    (r ≡ ok tt) × ((s'.worlds 0).closed ≡ true) × (s'.worlds 1 ≡ two_connections.worlds 1)
null_handler_shared_example =
    null_handler_shared (λ i. eager_net) 10000 0 1 farewell two_connections refl apart
      ((ground arith), tt) (omega arith) eager_net-Serves (omega arith) refl

mains-Exit_example :
    Exit
      (λ i. eager_net)
      0
      toy_crypto
      one_file
      (ok tt)
      (arrival ∷ quitting ∷ [])
      (ok 0, record one_started.server { workers = []; joined = 0 ∷ [] })
    × Exit
        (λ i. eager_net)
        0
        toy_crypto
        one_file
        (err (thrown runtime_error))
        []
        (ok 1, idle_server)
    × Exit
        (λ i. eager_net)
        0
        toy_crypto
        one_file
        (ok tt)
        (arrival ∷ accept_fails ∷ [])
        (err terminated, one_started.server)
mains-Exit_example =
    mains-Exit (λ i. eager_net) 0 toy_crypto one_file (arrival ∷ []) [] [] accept_fails
      one_started.server runtime_error arrived refl refl busy
