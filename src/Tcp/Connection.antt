-- ===== src/Tcp/Connection.antt =====
-- tcp/socks_tcp_handler.hpp: `Connection`, over the interface `Socket` of
-- tcp/socks_system_context.hpp.
pub mod Laws
pub mod Faults
pub mod Serving
pub mod Tests
use cppsocks.Base.{ℕ, zero, suc, ◌+◌, ◌-◌, ◌%◌, ◌^◌, Bool, true, false, not, ◌&&◌}
use cppsocks.Base.{List, [], ◌++◌, length, take, ltb, ◌==◌, if◌then◌else◌}
use cppsocks.Base.Bytes.{load_n}
use cppsocks.Base.Outcome.{Result, ok, err, thrown, running, runtime_error}
use cppsocks.Base.Effect.{M, continue, return, lift, ◌>>=◌}

-- What `Socket::write` answers: a number of bytes, `NUM_CONTINUE`, or an exception.
pub data Answer : Type 0 where
  wrote : ℕ → Answer
  again : Answer
  failed : Answer

-- The socket, by its answer to the `i`-th write of `n` bytes, and the number of rounds of one
-- `send` that the model follows.
pub record Net : Type 0 where
  pub answer : ℕ → ℕ → Answer
  pub rounds : ℕ

-- A connection as the library's code can change it: its flag `closed`, the calls of `write` so
-- far, the bytes that the socket took, and the memory of the application's handlers.
pub record World : Type 0 where
  pub closed : Bool
  pub writes : ℕ
  pub wire : List ℕ
  pub app : List ℕ

-- The constructor of `Connection`, with the memory of the application's handlers.
abbrev pub new_connection : List ℕ → World
new_connection app = record { closed = false; writes = 0; wire = []; app = app }

-- `NUM_CONTINUE`, which is -1, as the `std::size_t` that it is added as.
abbrev pub num_continue : ℕ
num_continue = 2 ^ 64 - 1

took : Answer → List ℕ → M World ℕ
took (wrote k) bytes w = (ok k, record w { writes = w.writes + 1; wire = w.wire ++ take k bytes })
took again bytes w = (ok num_continue, record w { writes = w.writes + 1 })
took failed bytes w = (err (thrown runtime_error), record w { writes = w.writes + 1 })

-- `!closed && numWritten < len`
pub more_to_send : World → ℕ → ℕ → Bool
more_to_send w num_written len = not w.closed && ltb num_written len

module _ (net : Net) where
  pub socket_write : List ℕ → M World ℕ
  unfolding took
  socket_write bytes w = took (net.answer w.writes (length bytes)) bytes w

  pub send_loop : ℕ → List ℕ → ℕ → ℕ → M World ℕ
  unfolding socket_write
  send_loop zero buf len num_written w = (err running, w)
  send_loop (suc rounds) buf len num_written w =
      let next = (do
        bytes ← lift (load_n buf num_written (len - num_written))
        n ← socket_write bytes
        send_loop rounds buf len ((num_written + n) % 2 ^ 64)) in
      if more_to_send w num_written len then next w else (ok num_written, w)

  unfoldable pub send : List ℕ → ℕ → M World ℕ
  unfolding send_loop more_to_send
  send buf len = send_loop net.rounds buf len 0

-- Code that works on a state which one connection is part of: a call on that connection, and
-- whether it is closed.
pub record Holder (S : Type 0) : Type 1 where
  pub call : (A : Type 0) → M World A → M S A
  pub shut : S → Bool

-- The connection alone.
instance abbrev pub connection_alone : Holder World
connection_alone = record { call = λ A m. m; shut = λ w. w.closed }

unfoldable pub close : M World (Unit {0})
close w = (ok tt, record w { closed = true })

unfoldable pub is_closed : World → Bool
is_closed w = w.closed

-- One of several connections is changed.
unfoldable pub put_world : ℕ → World → (ℕ → World) → ℕ → World
put_world i w worlds j = if i == j then w else worlds j
