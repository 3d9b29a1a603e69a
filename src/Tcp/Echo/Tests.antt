-- ===== src/Tcp/Echo/Tests.antt =====
-- The echo server with a client that sends two chunks.
use cppsocks.Base.{false, true, List, [], ◌∷◌, ◌≡◌, refl, arith}
use cppsocks.Base.Outcome.{ok}
use cppsocks.Tcp.Connection.{World}
use cppsocks.Tcp.Connection.Laws.{Sent}
use cppsocks.Tcp.Connection.Tests.{eager_net, fresh_world}
use cppsocks.Http.Response.Tests.{eager_net-Serves}
use cppsocks.Tcp.Worker.{run}
use cppsocks.Tcp.Worker.Sessions.{
  Event, idle, retry, chunk, rounds_of, end_of_file, bytes_of, Arrive,
}
use cppsocks.Tcp.Echo.{echo_handler}
use cppsocks.Tcp.Echo.Session.{Anything, tcp_echo}

abbrev events : List Event
events = chunk (1 ∷ 2 ∷ []) ∷ idle ∷ retry ∷ chunk (3 ∷ []) ∷ []

events-Arrive : Arrive Anything [] events
events-Arrive = (omega arith, omega arith, tt, (omega arith, omega arith, tt, tt))

tcp_echo_example :
    (w' : World) × (run
        (echo_handler eager_net)
        (rounds_of events (end_of_file ∷ []))
        []
        (record { session = fresh_world; socket_closed = false; is_active = true })
      ≡ (ok tt, record { session = w'; socket_closed = true; is_active = false }))
    × Sent fresh_world (bytes_of events) w'
tcp_echo_example =
    tcp_echo eager_net 10000 events [] [] fresh_world eager_net-Serves (omega arith) events-Arrive
      refl
