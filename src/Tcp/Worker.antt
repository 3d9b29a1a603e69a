-- ===== src/Tcp/Worker.antt =====
-- tcp/socks_tcp_worker.hpp and tcp/socks_tcp_worker.cpp: the thread that serves one client.
pub mod Laws
pub mod Sessions
pub mod Tests
use cppsocks.Base.{ℕ, zero, suc, Bool, true, false, ◌||◌, List, [], ◌∷◌, ◌++◌, length, drop, ltb}
use cppsocks.Base.{if◌then◌else◌, ◌==◌}
use cppsocks.Base.Outcome.{
  Result, ok, err, thrown, fault, terminated, running, runtime_error, blocked,
}
use cppsocks.Base.Effect.{M, continue, return, raise, recover, ◌>>=◌, ◌>>◌}

-- `MAX_SIZE`, the size of `MsgBuf`.
abbrev pub max_size : ℕ
max_size = 4096

-- `ServerHandler`, with the state of the handler and its connection in `S`.
pub record ServerHandler (S : Type 0) : Type 0 where
  pub on_connect : M S (Unit {0})
  pub on_disconnect : M S (Unit {0})
  pub on_receive : List ℕ → ℕ → M S (Unit {0})
  pub is_closed : S → Bool

-- What `Socket::read` answers: the bytes that it stored (none of them is `NUM_EOF`),
-- `NUM_CONTINUE`, or an exception.
pub data Received : Type 0 where
  stored : List ℕ → Received
  again : Received
  failed : Received

-- What `Socket::isReadable` answers.
pub data Poll : Type 0 where
  readable unreadable broken : Poll

-- What one round of the loop finds: `quitCondition()`, and the socket.
pub record Round : Type 0 where
  pub quit : Bool
  pub poll : Poll
  pub received : Received

module _ {S : Type 0} (handler : ServerHandler S) where
  -- `socket->read(buf)` and what follows; `next` is the rest of the loop. The array `buf` keeps
  -- the bytes that the socket does not overwrite.
  on_read : Received → List ℕ → (List ℕ → M S (Unit {0})) → M S (Unit {0})
  on_read (stored bytes) buf next =
      if ltb max_size (length bytes)
      then (λ s. (err fault, s))
      else if length bytes == 0
      then return tt
      else (do
        let buf' = bytes ++ drop (length bytes) buf
        handler.on_receive buf' (length bytes)
        next buf')
  on_read again buf next = next buf
  on_read failed buf next = raise runtime_error

  on_poll : Poll → Received → List ℕ → (List ℕ → M S (Unit {0})) → M S (Unit {0})
  unfolding on_read
  on_poll readable received buf next = on_read received buf next
  on_poll unreadable received buf next = next buf
  on_poll broken received buf next = raise runtime_error

  -- The loop is still running when the given rounds are over.
  pub loop : List Round → List ℕ → M S (Unit {0})
  unfolding on_poll
  loop [] buf s = (err running, s)
  loop (r ∷ rs) buf s =
      if r.quit || handler.is_closed s
      then (ok tt, s)
      else on_poll r.poll r.received buf (loop rs) s

-- The worker's own state beside the handler's: whether it closed the socket, and `_isActive`.
pub record Worker (S : Type 0) : Type 0 where
  pub session : S
  pub socket_closed : Bool
  pub is_active : Bool

-- `start`, and the constructor, which calls it.
abbrev pub start : {S : Type 0} → Worker S → Worker S
start w = record w { is_active = true }

abbrev pub new_worker : {S : Type 0} → S → Worker S
new_worker s = start (record { session = s; socket_closed = false; is_active = false })

module _ {S : Type 0} (handler : ServerHandler S) where
  -- The body of the `try` block.
  pub serve_client : List Round → List ℕ → M S (Unit {0})
  unfolding loop
  serve_client rs buf = do handler.on_connect; loop handler rs buf; handler.on_disconnect

  -- `socket->close()` at the end of the `try` block, the `catch` block, and what follows both.
  ended : Result (Unit {0}) × S → Worker S → Result (Unit {0}) × Worker S
  ended (ok t, s) w = (ok t, record { session = s; socket_closed = true; is_active = false })
  ended (err (thrown e), s) w =
      (ok tt, record { session = s; socket_closed = w.socket_closed; is_active = false })
  ended (err fault, s) w = (err fault, record w { session = s })
  ended (err terminated, s) w = (err terminated, record w { session = s })
  ended (err running, s) w = (err running, record w { session = s })
  ended (err blocked, s) w = (err blocked, record w { session = s })

  pub run : List Round → List ℕ → M (Worker S) (Unit {0})
  unfolding serve_client ended
  run rs buf w = ended (serve_client rs buf w.session) w
