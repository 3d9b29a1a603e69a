-- ===== src/Posix/Accept.antt =====
-- `ListenSocket`, the constructor of `SocketImpl` and its `close`, on the process's descriptors.
use cppsocks.Base.{ℕ, if◌then◌else◌, true, false, Option, none, some, ◌∷◌, ==-refl, ◌≡◌, refl}
use cppsocks.Base.Outcome.{ok, err, thrown, runtime_error}
use cppsocks.Base.Effect.{M, return, raise, lift, ◌>>=◌, ◌>>◌}
use cppsocks.Posix.{
  Errno, eintr, ewouldblock, other_errno, Answered, answered, refused, passes, Polled,
  internal_poll, Descriptors, remove, close_fd, open_fd, checked,
}

-- `setTcpNoDelay`.
unfoldable pub set_tcp_no_delay : Answered (Unit {0}) → M Descriptors (Unit {0})
unfolding checked
set_tcp_no_delay answer = checked answer

-- The constructor of `SocketImpl`.
unfoldable pub new_socket : Answered (Unit {0}) → ℕ → M Descriptors (Option ℕ)
unfolding set_tcp_no_delay
new_socket no_delay client_fd = set_tcp_no_delay no_delay >> return (some client_fd)

-- The part of `accept` behind the poll.
unfoldable pub accept_client : Answered ℕ → Answered (Unit {0}) → M Descriptors (Option ℕ)
unfolding open_fd new_socket
accept_client (answered client_fd) no_delay =
    open_fd (answered client_fd) >> new_socket no_delay client_fd
accept_client (refused errno) no_delay = if passes errno then return none else raise runtime_error

-- `ListenSocket::accept`.
unfoldable pub accept :
    Answered Polled → Answered ℕ → Answered (Unit {0}) → M Descriptors (Option ℕ)
accept polled client no_delay = do
  is_ready ← lift (internal_poll polled)
  if is_ready then accept_client client no_delay else return none

-- `SocketImpl::close`, and the destructor of `ListenSocket`.
unfoldable pub socket_close : ℕ → M Descriptors (Unit {0})
socket_close fd = close_fd fd

-- Every way that `accept` can go. Nobody is there where `poll` times out, is interrupted, or
-- reports something else, and where the client is gone again; a client that is accepted has its
-- descriptor open, and `close` then brings the descriptors back to what they were; an error of
-- `poll` or of the system's `accept` throws and opens nothing. Where TCP_NODELAY cannot be set for
-- an accepted client, `accept` throws and the client's descriptor stays open, with nobody to close it.
pub accept_outcomes :
    (fd : ℕ) (client : Answered ℕ) (no_delay : Answered (Unit {0})) (errno : Errno)
    (d : Descriptors)
    → let ready : Answered Polled = answered (record { ready = 1; flagged = true }) in
      (accept (answered (record { ready = 0; flagged = true })) client no_delay d ≡ (ok none, d))
      × (accept (answered (record { ready = 1; flagged = false })) client no_delay d ≡ (ok none, d))
      × (accept (refused eintr) client no_delay d ≡ (ok none, d))
      × (accept (refused other_errno) client no_delay d ≡ (err (thrown runtime_error), d))
      × (accept ready (refused eintr) no_delay d ≡ (ok none, d))
      × (accept ready (refused ewouldblock) no_delay d ≡ (ok none, d))
      × (accept ready (refused other_errno) no_delay d ≡ (err (thrown runtime_error), d))
      × ((accept ready (answered fd) (answered tt) >>= (λ _. socket_close fd)) d ≡ (ok tt, d))
      × (accept ready (answered fd) (refused errno) d
          ≡ (err (thrown runtime_error), record d { opened = fd ∷ d.opened }))
unfolding accept accept_client new_socket set_tcp_no_delay socket_close internal_poll passes open_fd
    checked close_fd remove
accept_outcomes fd client no_delay errno d =
    (refl, refl, refl, refl, refl, refl, refl, rw (==-refl fd) refl, refl)
