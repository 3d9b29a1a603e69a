-- ===== src/Tcp/Connection/Serving.antt =====
-- `Connection::send` over a socket that makes progress, for messages up to a length.
use cppsocks.Base.{ℕ, ◌^◌, ◌≤◌, ◌<◌, false, List, ◌++◌, length, ◌≡◌, arith}
use cppsocks.Base.Outcome.{ok}
use cppsocks.Tcp.Connection.{Net, World, send}
use cppsocks.Tcp.Connection.Laws.{Delivers, Sent, send-Sent}

-- A socket that makes progress, followed for long enough to send `n` bytes at a time.
pub record Serves (net : Net) (n : ℕ) : Type 0 where
  pub delivers : Delivers net
  pub enough : n < net.rounds
  pub fits : n < 2 ^ 64

pub Serves-Sent :
    {net : Net} {room : ℕ} (serves : Serves net room) (bytes after : List ℕ) (w : World)
    → length bytes ≤ room
    → w.closed ≡ false
    → (w' : World) × (send net (bytes ++ after) (length bytes) w ≡ (ok (length bytes), w'))
      × Sent w bytes w'
Serves-Sent {net} serves bytes after w fits still_open =
    send-Sent net serves.delivers bytes after w (omega (arith, serves.fits))
      (omega (arith, serves.enough)) still_open
