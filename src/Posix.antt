-- ===== src/Posix.antt =====
-- examples/system_context/system_impl.hpp and system_posix.cpp: sockets over the POSIX calls.
-- What a call answers is an argument, where a loop repeats it the list of its answers.
pub mod Laws
pub mod Sockets
pub mod Accept
pub mod Signals
pub mod Files
pub mod Host
pub mod Tests
use cppsocks.Base.{
  ℕ, ◌%◌, ◌^◌, Bool, true, false, ◌&&◌, ◌||◌, Option, none, some, List, [], ◌∷◌, length, ◌==◌,
  if◌then◌else◌,
}
use cppsocks.Base.Outcome.{Result, ok, err, thrown, running, runtime_error, Exception}
use cppsocks.Base.Effect.{M, return, raise, lift, ◌>>=◌, ◌>>◌}
use cppsocks.Tcp.Connection.{Answer, wrote, again, failed}
use cppsocks.Tcp.Worker.{Received, Poll}
use cppsocks.Tcp.Server.{Accepted}

-- `errno`; EAGAIN is EWOULDBLOCK.
pub data Errno : Type 0 where
  eintr ewouldblock other_errno : Errno

pub data Answered (A : Type 0) : Type 0 where
  answered : A → Answered A
  refused : Errno → Answered A

-- `errno == EINTR || errno == EWOULDBLOCK`
pub passes : Errno → Bool
passes eintr = true
passes ewouldblock = true
passes other_errno = false

-- `SocketImpl::read`, of the bytes that `recv` stored.
unfoldable pub socket_read : Answered (List ℕ) → Received
unfolding passes
socket_read (answered bytes) = Received.stored bytes
socket_read (refused errno) = if passes errno then Received.again else Received.failed

-- `SocketImpl::write`, of the number of bytes that `send` took.
unfoldable pub socket_write : Answered ℕ → Answer
unfolding passes
socket_write (answered n) = wrote n
socket_write (refused errno) = if passes errno then again else failed

-- What `poll` answers: the number of descriptors, and `revents & flags`. Where it fails,
-- `revents` is still 0.
pub record Polled : Type 0 where
  pub ready : ℕ
  pub flagged : Bool

unfoldable pub internal_poll : Answered Polled → Result Bool
unfolding passes
internal_poll (answered polled) = ok (if polled.ready == 0 then false else polled.flagged)
internal_poll (refused errno) = if passes errno then ok false else err (thrown runtime_error)

as_poll : Result Bool → Poll
as_poll (ok true) = Poll.readable
as_poll (ok false) = Poll.unreadable
as_poll (err e) = Poll.broken

-- `SocketImpl::isReadable`.
unfoldable pub is_readable : Answered Polled → Poll
unfolding internal_poll as_poll
is_readable answer = as_poll (internal_poll answer)

-- The loop over `fcntl` with F_GETFL. The exception for an error that is not EINTR is constructed
-- and not thrown, so the loop goes on.
pub get_flags : List (Answered ℕ) → Result ℕ
get_flags [] = err running
get_flags (answered flags ∷ later) = ok flags
get_flags (refused errno ∷ later) = get_flags later

-- The loop over `fcntl` with F_SETFL, which sets `flags`.
pub put_flags : List (Answered (Unit {0})) → ℕ → Result ℕ
put_flags [] flags = err running
put_flags (answered t ∷ later) flags = ok flags
put_flags (refused errno ∷ later) flags = put_flags later flags

pub set_with : List (Answered (Unit {0})) → (ℕ → ℕ) → Result ℕ → Result ℕ
unfolding put_flags
set_with sets manipulate (ok flags) = put_flags sets (manipulate flags)
set_with sets manipulate (err e) = err e

-- `setSocketFlags`, with the flags that are in force afterwards.
unfoldable pub set_socket_flags :
    List (Answered ℕ) → List (Answered (Unit {0})) → (ℕ → ℕ) → Result ℕ
unfolding get_flags set_with
set_socket_flags gets sets manipulate = set_with sets manipulate (get_flags gets)

-- The descriptors that are open, and the port that one is bound to.
pub record Descriptors : Type 0 where
  pub opened : List ℕ
  pub bound : Option ℕ

unfoldable pub remove : ℕ → List ℕ → List ℕ
remove fd [] = []
remove fd (d ∷ ds) = if fd == d then ds else d ∷ remove fd ds

unfoldable pub close_fd : ℕ → M Descriptors (Unit {0})
unfolding remove
close_fd fd d = (ok tt, record d { opened = remove fd d.opened })

-- `close` of the listening socket, which frees its port.
unfoldable pub close_bound : ℕ → M Descriptors (Unit {0})
unfolding close_fd
close_bound fd = close_fd fd >> λ d. (ok tt, record d { bound = none })

-- `socket`.
pub open_fd : Answered ℕ → M Descriptors ℕ
open_fd (refused errno) d = raise runtime_error d
open_fd (answered fd) d = (ok fd, record d { opened = fd ∷ d.opened })

-- A call whose failure throws at once.
pub checked : Answered (Unit {0}) → M Descriptors (Unit {0})
checked (answered t) d = return tt d
checked (refused errno) d = raise runtime_error d

-- A call whose failure closes the descriptor, in the given way, and throws.
pub checked_or_close : Answered (Unit {0}) → M Descriptors (Unit {0}) → M Descriptors (Unit {0})
checked_or_close (answered t) closing = return tt
checked_or_close (refused errno) closing = closing >> raise runtime_error

pub bind_to : ℕ → M Descriptors (Unit {0})
bind_to port d = (ok tt, record d { bound = some (port % 2 ^ 16) })

-- What the calls of `createListenSocket` answer.
pub record ListenAnswers : Type 0 where
  pub socket : Answered ℕ
  pub reuse : Answered (Unit {0})
  pub get : List (Answered ℕ)
  pub set : List (Answered (Unit {0}))
  pub bind : Answered (Unit {0})
  pub listen : Answered (Unit {0})

-- `ContextImpl::createListenSocket`; `non_blocking` sets O_NONBLOCK.
unfoldable pub create_listen_socket : (ℕ → ℕ) → ListenAnswers → ℕ → M Descriptors ℕ
unfolding open_fd checked checked_or_close bind_to close_bound
create_listen_socket non_blocking answers port = do
  fd ← open_fd answers.socket
  checked answers.reuse
  flags ← lift (set_socket_flags answers.get answers.set non_blocking)
  checked_or_close answers.bind (close_fd fd)
  bind_to port
  checked_or_close answers.listen (close_bound fd)
  return fd
