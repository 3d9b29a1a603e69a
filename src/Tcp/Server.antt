-- ===== src/Tcp/Server.antt =====
-- tcp/socks_tcp.cpp and tcp/socks_tcp_options.hpp: `Server::serve` and `cleanup`.
-- A worker is known by the number of workers that were started before it.
pub mod Laws
pub mod Admission
pub mod Failure
pub mod System
pub mod Tests
use cppsocks.Base.{
  ℕ, zero, suc, ◌+◌, Bool, true, false, ◌&&◌, if◌then◌else◌, List, [], ◌∷◌, ◌++◌, length, ltb,
}
use cppsocks.Base.{if◌then◌else◌}
use cppsocks.Base.Outcome.{
  Result, ok, err, thrown, fault, terminated, running, runtime_error, blocked,
}
use cppsocks.Base.Effect.{M, continue, return, raise, lift, ◌>>=◌, ◌>>◌}

pub record ServerOptions : Type 0 where
  pub server_port : ℕ
  pub max_clients : ℕ

abbrev pub default_options : ServerOptions
default_options = record { server_port = 5555; max_clients = 2 }

-- `workers`, and what has happened: how many were started, which were joined, in order, and how
-- many clients were turned away.
pub record Server : Type 0 where
  pub workers : List ℕ
  pub joined : List ℕ
  pub started : ℕ
  pub turned_away : ℕ

abbrev pub idle_server : Server
idle_server = record { workers = []; joined = []; started = 0; turned_away = 0 }

-- What `accept` answers. To a client that is turned away a message is written, which may throw.
pub data Accepted : Type 0 where
  nobody : Accepted
  client : Accepted
  broken_client : Accepted
  failed : Accepted

-- What one round of the loop finds: `quitCondition()`, `accept()`, and which workers' flag
-- `_isActive` is down. In the round that finds the quit condition `is_finished` tells which
-- workers' threads come to their end.
pub record Tick : Type 0 where
  pub quit : Bool
  pub accepted : Accepted
  pub is_finished : ℕ → Bool

-- `remove_if` joins each worker that it removes.
pub record Swept : Type 0 where
  pub kept : List ℕ
  pub finished : List ℕ

unfoldable pub sweep : (ℕ → Bool) → List ℕ → Swept
sweep is_finished [] = record { kept = []; finished = [] }
sweep is_finished (w ∷ ws) =
    let rest = sweep is_finished ws in
    if is_finished w
    then record rest { finished = w ∷ rest.finished }
    else record rest { kept = w ∷ rest.kept }

unfoldable pub cleanup : (ℕ → Bool) → Server → Server
cleanup is_finished s =
    let swept = sweep is_finished s.workers in
    record s { workers = swept.kept; joined = s.joined ++ swept.finished }

-- `workers.emplace_back(…)`, whose constructor starts the thread.
unfoldable pub start_worker : Server → Server
start_worker s = record s { workers = s.workers ++ (s.started ∷ []); started = suc s.started }

unfoldable pub turn_away : Server → Server
turn_away s = record s { turned_away = suc s.turned_away }

-- A client that was accepted, with what a write to it does.
unfoldable pub admit :
    ℕ → (Server → Result (Unit {0}) × Server) → Server → Result (Unit {0}) × Server
unfolding start_worker
admit max_clients refuse s =
    if ltb (length s.workers) max_clients then (ok tt, start_worker s) else refuse s

-- One round behind the test of the quit condition.
unfoldable pub on_accepted : ℕ → Tick → Server → Result (Unit {0}) × Server
unfolding admit turn_away cleanup
on_accepted max_clients t s = elim t.accepted [
  | nobody ↦ (ok tt, s)
  | client ↦ admit max_clients (λ s'. (ok tt, turn_away s')) (cleanup t.is_finished s)
  | broken_client ↦ admit max_clients (raise runtime_error) (cleanup t.is_finished s)
  | failed ↦ (err (thrown runtime_error), s)
]

pub all_finished : (ℕ → Bool) → List ℕ → Bool
all_finished is_finished [] = true
all_finished is_finished (w ∷ ws) = is_finished w && all_finished is_finished ws

-- `for_each(… worker.finish())`, and the end of the list's life. `finish` is `join`, which blocks
-- until the thread has ended: where one of them never does, this waits for ever.
unfoldable pub finish_all : (ℕ → Bool) → M Server (Unit {0})
finish_all is_finished s =
    if all_finished is_finished s.workers
    then (ok tt, record s { workers = []; joined = s.joined ++ s.workers })
    else (err blocked, s)

-- The loop is still running when the given rounds are over.
unfoldable pub serve_loop : ℕ → List Tick → M Server (Unit {0})
unfolding on_accepted finish_all
serve_loop max_clients [] s = (err running, s)
serve_loop max_clients (t ∷ ts) s =
    if t.quit
    then finish_all t.is_finished s
    else continue (on_accepted max_clients t s) (λ _. serve_loop max_clients ts)

-- An exception that leaves `serve` destroys the workers in the list, and with them threads that
-- were not joined.
unfoldable pub unwound : Result (Unit {0}) → List ℕ → Result (Unit {0})
unwound (err (thrown e)) (w ∷ ws) = err terminated
unwound (err (thrown e)) [] = err (thrown e)
unwound (err fault) workers = err fault
unwound (err terminated) workers = err terminated
unwound (err running) workers = err running
unwound (err blocked) workers = err blocked
unwound (ok t) workers = ok t

unfoldable pub leave : Result (Unit {0}) × Server → Result (Unit {0}) × Server
unfolding unwound
leave (result, s) = (unwound result s.workers, s)

-- `createListenSocket` returns or throws.
unfoldable pub serve : ServerOptions → Result (Unit {0}) → List Tick → M Server (Unit {0})
unfolding serve_loop leave
serve options listening ts s = leave ((lift listening >> serve_loop options.max_clients ts) s)
