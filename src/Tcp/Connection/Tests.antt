-- ===== src/Tcp/Connection/Tests.antt =====
-- Connections over concrete sockets.
use cppsocks.Base.{ℕ, ◌^◌, ◌-◌, false, true, List, [], ◌∷◌, ◌++◌, length, ◌≡◌, refl, arith}
use cppsocks.Base.Outcome.{ok}
use cppsocks.Tcp.Connection.{new_connection, Net, wrote, again, World, send}
use cppsocks.Tcp.Connection.Laws.{Delivers, Sent, send-Sent}
use cppsocks.Tcp.Connection.Faults.{send_closed, send_not_ready}

-- A socket that takes what it is offered, one that takes a byte at a time, and one that is never
-- ready.
abbrev pub eager_net : Net
eager_net = record { answer = λ i n. wrote n; rounds = 20000 }

abbrev slow_net : Net
slow_net = record { answer = λ i n. wrote 1; rounds = 100 }

abbrev busy_net : Net
busy_net = record { answer = λ i n. again; rounds = 100 }

abbrev pub fresh_world : World
fresh_world = new_connection []

pub eager_net-Delivers : Delivers eager_net
eager_net-Delivers i n h = (n, refl, h, omega arith)

slow_net-Delivers : Delivers slow_net
slow_net-Delivers i n h = (1, refl, omega arith, h)

abbrev hello : List ℕ
hello = 104 ∷ 101 ∷ 108 ∷ 108 ∷ 111 ∷ []

send_one_by_one :
    send slow_net (hello ++ (33 ∷ [])) 5 fresh_world
    ≡ (ok 5, record { closed = false; writes = 5; wire = hello; app = [] })
unfolding send
send_one_by_one = refl

send-Sent_example :
    (w' : World) × (send slow_net (hello ++ (33 ∷ [])) (length hello) fresh_world
      ≡ (ok (length hello), w'))
    × Sent fresh_world hello w'
send-Sent_example =
    send-Sent slow_net slow_net-Delivers hello (33 ∷ []) fresh_world (omega arith) (omega arith)
      refl

send_closed_example :
    send eager_net hello 5 (record fresh_world { closed = true })
    ≡ (ok 0, record fresh_world { closed = true })
send_closed_example =
    send_closed eager_net hello 5 (record fresh_world { closed = true }) (omega arith) refl

send_not_ready_example :
    send busy_net (hello ++ []) (length hello) fresh_world
    ≡ (ok (2 ^ 64 - 1), record fresh_world { writes = 1 })
send_not_ready_example =
    send_not_ready busy_net hello [] fresh_world (omega arith) (omega arith) (omega arith) refl refl
