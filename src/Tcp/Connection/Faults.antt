-- ===== src/Tcp/Connection/Faults.antt =====
-- `Connection::send` on a closed connection, on a socket that fails, and on one that is not ready.
use cppsocks.Base.{ℕ, zero, suc, ◌+◌, ◌-◌, ◌^◌, ◌≤◌, ◌<◌, true, false}
use cppsocks.Base.{List, [], ◌++◌, length}
use cppsocks.Base.{◌≡◌, refl, arith}
use cppsocks.Base.Copies.{load_n-append}
use cppsocks.Base.Outcome.{ok, err, thrown, runtime_error}
use cppsocks.Tcp.Connection.{again, failed, Net, World, more_to_send, send_loop, send}
use cppsocks.Tcp.Connection.Laws.{goes_on, stops}

send_loop_stops :
    (net : Net) (rounds : ℕ) (buf : List ℕ) (len n : ℕ) (w : World)
    → 0 < rounds
    → more_to_send w n len ≡ false
    → send_loop net rounds buf len n w ≡ (ok n, w)
unfolding send_loop
send_loop_stops net zero buf len n w h e = absurd (omega arith)
send_loop_stops net (suc rounds) buf len n w h e = rw e

send_loop_not_ready :
    (net : Net) (rounds : ℕ) (bytes after : List ℕ) (w : World)
    → 0 < length bytes
    → length bytes < 2 ^ 64
    → 2 ≤ rounds
    → w.closed ≡ false
    → net.answer w.writes (length bytes) ≡ again
    → send_loop net rounds (bytes ++ after) (length bytes) 0 w
      ≡ (ok (2 ^ 64 - 1), record w { writes = w.writes + 1 })
unfolding send_loop
send_loop_not_ready net zero bytes after w pos fits h still_open answered = absurd (omega arith)
send_loop_not_ready net (suc rounds) bytes after w pos fits h still_open answered =
    rw (goes_on w 0 (length bytes) still_open pos, all, load_n-append [] bytes after, answered)
      (send_loop_stops net rounds (bytes ++ after) (length bytes) (2 ^ 64 - 1)
        (record w { writes = w.writes + 1 }) (omega arith) (stops _ _ _ (omega arith)))
  where
    all : length bytes - 0 ≡ length bytes
    all = omega arith

send_loop_fails :
    (net : Net) (rounds : ℕ) (bytes after : List ℕ) (w : World)
    → 0 < length bytes
    → 0 < rounds
    → w.closed ≡ false
    → net.answer w.writes (length bytes) ≡ failed
    → send_loop net rounds (bytes ++ after) (length bytes) 0 w
      ≡ (err (thrown runtime_error), record w { writes = w.writes + 1 })
unfolding send_loop
send_loop_fails net zero bytes after w pos h still_open answered = absurd (omega arith)
send_loop_fails net (suc rounds) bytes after w pos h still_open answered =
    rw (goes_on w 0 (length bytes) still_open pos, all, load_n-append [] bytes after, answered) refl
  where
    all : length bytes - 0 ≡ length bytes
    all = omega arith

-- Where the socket of an open connection fails in the first write of a message, `send` throws.
pub send_fails :
    (net : Net) (bytes after : List ℕ) (w : World)
    → 0 < length bytes
    → 0 < net.rounds
    → w.closed ≡ false
    → net.answer w.writes (length bytes) ≡ failed
    → send net (bytes ++ after) (length bytes) w
      ≡ (err (thrown runtime_error), record w { writes = w.writes + 1 })
unfolding send
send_fails net bytes after w pos rounds still_open answered =
    send_loop_fails net net.rounds bytes after w pos rounds still_open answered

-- On a closed connection `send` writes nothing, changes nothing and returns 0.
pub send_closed :
    (net : Net) (buf : List ℕ) (len : ℕ) (w : World)
    → 0 < net.rounds
    → w.closed ≡ true
    → send net buf len w ≡ (ok 0, w)
unfolding send
send_closed net buf len w h e =
    send_loop_stops net net.rounds buf len 0 w h (unfold more_to_send in rw e)

-- Where the socket of an open connection is not ready for the first write of a message, which
-- has less than 2 ^ 64 bytes and is not empty, its -1 is added to the count: `send` ends in its
-- second round, sends nothing, and returns the largest `std::size_t`.
pub send_not_ready :
    (net : Net) (bytes after : List ℕ) (w : World)
    → 0 < length bytes
    → length bytes < 2 ^ 64
    → 2 ≤ net.rounds
    → w.closed ≡ false
    → net.answer w.writes (length bytes) ≡ again
    → send net (bytes ++ after) (length bytes) w
      ≡ (ok (2 ^ 64 - 1), record w { writes = w.writes + 1 })
unfolding send
send_not_ready net bytes after w pos fits rounds still_open answered =
    send_loop_not_ready net net.rounds bytes after w pos fits rounds still_open answered
