-- ===== src/Posix/Host/Ledger.antt =====
-- Which descriptors of a server's process are open.
use cppsocks.Base.{ℕ, ◌+◌, ◌<◌, some, List, [], ◌∷◌, ◌==◌, if◌then◌else◌}
use cppsocks.Base.{◌≡◌, arith}
use cppsocks.Posix.{remove}
use cppsocks.Posix.Host.{Host, socket_of, without}

-- How often a descriptor is in a list.
abbrev pub count : ℕ → List ℕ → ℕ
count x [] = 0
count x (y ∷ ys) = (if y == x then 1 else 0) + count x ys

abbrev pub fds : List (ℕ × ℕ) → List ℕ
fds [] = []
fds ((k, fd) ∷ rest) = fd ∷ fds rest

pub count-remove :
    (f x : ℕ) (ds : List ℕ)
    → 0 < count f ds
    → count x (remove f ds) + (if f == x then 1 else 0) ≡ count x ds
unfolding remove
count-remove f x [] there = absurd (omega arith)
count-remove f x (d ∷ ds) there = ground (arith, count-remove f x ds)

pub count-without :
    (k fd x : ℕ) (sockets : List (ℕ × ℕ))
    → socket_of k sockets ≡ some fd
    → count x (fds (without k sockets)) + (if fd == x then 1 else 0) ≡ count x (fds sockets)
unfolding socket_of without
count-without k fd x [] found = absurd (cc)
count-without k fd x ((j, g) ∷ rest) found = ground (arith, count-without k fd x rest)

pub counts_once : (fd : ℕ) → ◌≡◌ {A = ℕ} (if fd == fd then 1 else 0) 1
counts_once fd = ground arith

-- Open are the listening socket, the sockets of the workers that have not closed theirs, those of
-- the clients that were turned away, and what was open before.
abbrev pub Ledger : ℕ → List ℕ → Host → Type 0
Ledger listening before h =
    (x : ℕ)
    → count x h.descriptors.opened
      ≡ (if listening == x then 1 else 0)
        + (count x (fds h.sockets) + (count x h.refused_fds + count x before))
