-- ===== src/Tcp/Server/System.antt =====
-- The server's thread and the workers' threads together, in any order of their steps. A round of
-- the server's loop is one step, and so is the run of a worker up to where it puts its flag
-- `_isActive` down, which is all that the server reads of it.
pub mod Safety
pub mod Schedule
pub mod Tests
use cppsocks.Base.{
  ℕ, suc, ◌+◌, ◌<◌, ◌≤◌, Bool, true, false, not, List, [], ◌∷◌, ◌++◌, ◌==◌, if◌then◌else◌, All, ◌≡◌,
}
use cppsocks.Base.Outcome.{ok}
use cppsocks.Tcp.Worker.{ServerHandler, Round, Worker, run}
use cppsocks.Tcp.Server.{Server, idle_server, Accepted, Tick, on_accepted}

-- The server, and which workers' flag `_isActive` is down.
pub record System : Type 0 where
  pub server : Server
  pub is_ended : ℕ → Bool

abbrev pub at_start : System
at_start = record { server = idle_server; is_ended = λ i. false }

abbrev pub mark : ℕ → (ℕ → Bool) → ℕ → Bool
mark i marked k = if k == i then true else marked k

-- What a round of the server finds.
abbrev pub tick_of : System → Accepted → Tick
tick_of s accepted = record { quit = false; accepted = accepted; is_finished = s.is_ended }

module _ {S : Type 0} (handler : ServerHandler S) (max_clients : ℕ) where
  pub data Step (s : System) : System → Type 0 where
    serves :
        (accepted : Accepted) (server' : Server)
        → on_accepted max_clients (tick_of s accepted) s.server ≡ (ok tt, server')
        → Step s (record s { server = server' })
    ends :
        (i : ℕ) (rs : List Round) (buf : List ℕ) (w w' : Worker S)
        → i < s.server.started
        → s.is_ended i ≡ false
        → run handler rs buf w ≡ (ok tt, w')
        → Step s (record s { is_ended = mark i s.is_ended })

  pub data Reach : System → Type 0 where
    start : Reach at_start
    later : {s t : System} → Reach s → Step s t → Reach t

-- The numbers that have a property.
abbrev pub count : (ℕ → Bool) → List ℕ → ℕ
count p [] = 0
count p (x ∷ xs) = if p x then suc (count p xs) else count p xs
