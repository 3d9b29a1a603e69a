-- ===== src/Tcp/Server/System/Schedule.antt =====
-- How `Server::serve` returns when the quit condition holds.
use cppsocks.Base.{ℕ, Bool, true, List, [], ◌∷◌, ◌++◌, ◌≡◌, refl, ap, ◌∙◌}
use cppsocks.Base.Outcome.{ok, err, running}
use cppsocks.Tcp.Server.{
  ServerOptions, Server, all_finished, idle_server, nobody, Tick, finish_all, serve_loop, leave,
  serve, unwound,
}
use cppsocks.Tcp.Server.Failure.{serve_loop-append}

-- The quit condition holds, and every worker's thread comes to its end.
abbrev pub quitting : Tick
quitting = record { quit = true; accepted = nobody; is_finished = λ i. true }

-- Every worker's `finish` has returned.
abbrev pub all_joined : Server → Server
all_joined s = record s { workers = []; joined = s.joined ++ s.workers }

pub all_finished-always :
    (is_finished : ℕ → Bool) (ws : List ℕ)
    → ((k : ℕ) → is_finished k ≡ true)
    → all_finished is_finished ws ≡ true
unfolding all_finished
all_finished-always is_finished [] h = refl
all_finished-always is_finished (w ∷ ws) h = rw (h w) (all_finished-always is_finished ws h)

pub finish_all-always :
    (is_finished : ℕ → Bool) (s : Server)
    → ((k : ℕ) → is_finished k ≡ true)
    → finish_all is_finished s ≡ (ok tt, all_joined s)
unfolding finish_all
finish_all-always is_finished s h = rw (all_finished-always is_finished s.workers h) refl

-- `serve` returns in the round that finds the quit condition, whatever the schedule says after it.
pub returns :
    (options : ServerOptions) (ts rest : List Tick) (s : Server)
    → serve_loop options.max_clients ts idle_server ≡ (err running, s)
    → serve options (ok tt) (ts ++ (quitting ∷ rest)) idle_server ≡ (ok tt, all_joined s)
unfolding serve leave serve_loop unwound
returns options ts rest s e = ap leave (
    serve_loop-append options.max_clients ts (quitting ∷ rest) idle_server s e
    ∙ finish_all-always (λ i. true) s (λ k. refl))
