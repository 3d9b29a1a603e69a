-- ===== src/Tcp/Server/Tests.antt =====
-- A server for two clients at a time.
use cppsocks.Base.{true, false, List, [], ◌∷◌, length, All, ◌==◌, ◌≡◌, ◌⊎◌, refl, arith}
use cppsocks.Base.Outcome.{ok}
use cppsocks.Tcp.Server.{
  default_options, Server, idle_server, client, nobody, Tick, sweep, cleanup, admit, on_accepted,
  serve_loop, serve, finish_all, all_finished,
}
use cppsocks.Tcp.Server.Laws.{upto, Inv, IsSwept, sweep-IsSwept, serve-Inv, serve_joins_all}
use cppsocks.Tcp.Server.Admission.{client_admitted_or_full}
use mathlib.Core.List.{Perm}
use mathlib.Core.List.Perm

abbrev arrival : Tick
arrival = record { quit = false; accepted = client; is_finished = λ w. w == 0 }

abbrev ticks : List Tick
ticks =
    arrival
    ∷ arrival
    ∷ arrival
    ∷ arrival
    ∷ record { quit = true; accepted = nobody; is_finished = λ w. true }
    ∷ []

-- The fourth client finds two active workers.
abbrev served : Server
served = record { workers = []; joined = 0 ∷ 1 ∷ 2 ∷ []; started = 3; turned_away = 1 }

idle_server-Inv : Inv 2 idle_server
idle_server-Inv = record { bounded = omega arith; accounted = Perm.refl [] }

serve_four : serve default_options (ok tt) ticks idle_server ≡ (ok tt, served)
unfolding serve serve_loop on_accepted admit cleanup sweep finish_all all_finished
serve_four = refl

sweep-IsSwept_example :
    IsSwept (λ w. w == 1) (0 ∷ 1 ∷ 2 ∷ []) (sweep (λ w. w == 1) (0 ∷ 1 ∷ 2 ∷ []))
sweep-IsSwept_example = sweep-IsSwept (λ w. w == 1) (0 ∷ 1 ∷ 2 ∷ [])

serve-Inv_example : Inv 2 (serve default_options (ok tt) ticks idle_server).1
serve-Inv_example = serve-Inv default_options (ok tt) ticks idle_server idle_server-Inv

serve_joins_all_example : (served.workers ≡ []) × Perm served.joined (upto served.started)
serve_joins_all_example =
    serve_joins_all default_options (ok tt) ticks idle_server served idle_server-Inv serve_four

client_admitted_or_full_example :
    let s' = (on_accepted 2 arrival idle_server).1 in
    ((s'.started ≡ 1) × (s'.turned_away ≡ 0))
    ⊎ ((s'.started ≡ 0)
        × (s'.turned_away ≡ 1)
        × (length s'.workers ≡ 2)
        × All (λ w. arrival.is_finished w ≡ false) s'.workers)
client_admitted_or_full_example = client_admitted_or_full 2 arrival idle_server idle_server-Inv refl
