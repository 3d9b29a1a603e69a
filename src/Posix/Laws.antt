-- ===== src/Posix/Laws.antt =====
-- The outcomes of the POSIX sockets.
use cppsocks.Base.{none, ℕ, ◌%◌, ◌^◌, true, some, List, [], ◌∷◌, ◌≡◌, refl, arith, ◌==◌}
use cppsocks.Base.Outcome.{Result, ok, err, thrown, runtime_error, running}
use cppsocks.Posix.{
  Errno, Answered, answered, refused, get_flags, put_flags, set_with, set_socket_flags, Descriptors,
  remove, close_fd, open_fd, checked, checked_or_close, bind_to, create_listen_socket, close_bound,
}

-- A series of failed calls, whatever the errors.
abbrev pub failures : {A : Type 0} → List Errno → List (Answered A) → List (Answered A)
failures [] later = later
failures (e ∷ es) later = refused e ∷ failures es later

get_flags-failures :
    (es : List Errno) (flags : ℕ) (later : List (Answered ℕ))
    → get_flags (failures es (answered flags ∷ later)) ≡ ok flags
unfolding get_flags
get_flags-failures [] flags later = refl
get_flags-failures (e ∷ es) flags later = get_flags-failures es flags later

put_flags-failures :
    (es : List Errno) (flags : ℕ) (later : List (Answered (Unit {0})))
    → put_flags (failures es (answered tt ∷ later)) flags ≡ ok flags
unfolding put_flags
put_flags-failures [] flags later = refl
put_flags-failures (e ∷ es) flags later = put_flags-failures es flags later

get_flags-fails : (es : List Errno) → get_flags (failures es []) ≡ err running
unfolding get_flags
get_flags-fails [] = refl
get_flags-fails (e ∷ es) = get_flags-fails es

-- `setSocketFlags` calls until a call succeeds, whatever the errors before, and then the
-- manipulated flags are in force; where no call for the flags succeeds, it does not return.
pub set_socket_flags_retries :
    (es es' : List Errno) (flags : ℕ) (gets : List (Answered ℕ)) (sets : List (Answered (Unit {0})))
    (manipulate : ℕ → ℕ)
    → (set_socket_flags
          (failures es (answered flags ∷ gets))
          (failures es' (answered tt ∷ sets))
          manipulate
        ≡ ok (manipulate flags))
      × (set_socket_flags (failures es []) sets manipulate ≡ err running)
unfolding set_socket_flags set_with
set_socket_flags_retries es es' flags gets sets manipulate = (
  rw (get_flags-failures es flags gets) (put_flags-failures es' (manipulate flags) sets),
  rw (get_flags-fails es),
)

-- `createListenSocket` where `socket` and, in the end, `fcntl` succeed.
abbrev pub outcome :
    (ℕ → ℕ)
    → ℕ
    → ℕ
    → ℕ
    → List Errno
    → List Errno
    → Descriptors
    → Answered (Unit {0})
    → Answered (Unit {0})
    → Answered (Unit {0})
    → Result ℕ × Descriptors
outcome non_blocking fd flags port es es' d reuse bind listen =
    create_listen_socket non_blocking
      (record {
        socket = answered fd;
        reuse = reuse;
        get = failures es (answered flags ∷ []);
        set = failures es' (answered tt ∷ []);
        bind = bind;
        listen = listen;
      })
      port d

-- `createListenSocket` where `fcntl` succeeds in the end: with every call answered, the socket is
-- open and bound to the low 16 bits of the port; where `bind` or `listen` fails, it throws and neither
-- the descriptor is left open nor the port bound; where SO_REUSEADDR cannot be set, it throws and the descriptor stays open.
pub create_listen_socket_outcomes :
    (non_blocking : ℕ → ℕ) (fd flags port : ℕ) (es es' : List Errno) (errno : Errno)
    (bind listen : Answered (Unit {0})) (d : Descriptors)
    → (outcome non_blocking fd flags port es es' d (answered tt) (answered tt) (answered tt)
        ≡ (ok fd, record { opened = fd ∷ d.opened; bound = some (port % 2 ^ 16) }))
      × (outcome non_blocking fd flags port es es' d (refused errno) bind listen
          ≡ (err (thrown runtime_error), record d { opened = fd ∷ d.opened }))
      × (outcome non_blocking fd flags port es es' d (answered tt) (refused errno) listen
          ≡ (err (thrown runtime_error), d))
      × (outcome non_blocking fd flags port es es' d (answered tt) (answered tt) (refused errno)
          ≡ (err (thrown runtime_error), record d { bound = none }))
unfolding create_listen_socket open_fd checked checked_or_close bind_to close_bound close_fd remove
create_listen_socket_outcomes non_blocking fd flags port es es' errno bind listen d =
    (rw flags_set, refl, rw (flags_set, same), rw (flags_set, same))
  where
    flags_set :
        set_socket_flags
          (failures es (answered flags ∷ []))
          (failures es' (answered tt ∷ []))
          non_blocking
        ≡ ok (non_blocking flags)
    flags_set = (set_socket_flags_retries es es' flags [] [] non_blocking).0

    same : (fd == fd) ≡ true
    same = ground arith
