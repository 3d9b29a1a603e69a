-- ===== src/Tcp/Worker/Sessions.antt =====
-- A client's bytes through a worker's loop: what the handler makes of them, chunk by chunk.
use cppsocks.Base.{
  ℕ, ◌≤◌, ◌<◌, true, false, List, [], ◌∷◌, ◌++◌, append-nil, append_assoc, length, drop,
}
use cppsocks.Base.{◌≡◌, refl, sym, ◌∙◌, arith, le→ltb, ◌==◌, Bool-cases, inl, inr}
use cppsocks.Base.Outcome.{ok, err, thrown, runtime_error}
use cppsocks.Tcp.Worker.{
  ServerHandler, stored, again, readable, unreadable, broken, Round, loop, on_read, on_poll,
  max_size, Worker, serve_client, ended, run,
}
use mathlib.Core.Path.{subst}

-- What a round finds while the client is connected: no input, a read that is to be repeated, or
-- bytes.
pub data Event : Type 0 where
  idle : Event
  retry : Event
  chunk : List ℕ → Event

abbrev pub event_round : Event → Round
event_round idle = record { quit = false; poll = unreadable; received = again }
event_round retry = record { quit = false; poll = readable; received = again }
event_round (chunk bytes) = record { quit = false; poll = readable; received = stored bytes }

abbrev pub rounds_of : List Event → List Round → List Round
rounds_of [] later = later
rounds_of (e ∷ es) later = event_round e ∷ rounds_of es later

-- The client has closed its side.
abbrev pub end_of_file : Round
end_of_file = record { quit = false; poll = readable; received = stored [] }

abbrev pub bytes_of : List Event → List ℕ
bytes_of [] = []
bytes_of (idle ∷ es) = bytes_of es
bytes_of (retry ∷ es) = bytes_of es
bytes_of (chunk bytes ∷ es) = bytes ++ bytes_of es

-- Each chunk fills at most the worker's buffer and suits what came before it.
abbrev pub Arrive : (List ℕ → List ℕ → Type 0) → List ℕ → List Event → Type 0
Arrive Suits before [] = Unit {0}
Arrive Suits before (idle ∷ es) = Arrive Suits before es
Arrive Suits before (retry ∷ es) = Arrive Suits before es
Arrive Suits before (chunk bytes ∷ es) =
    (0 < length bytes)
    × (length bytes ≤ max_size)
    × Suits before bytes
    × Arrive Suits (before ++ bytes) es

-- The socket of the worker breaks.
abbrev pub broken_round : Round
broken_round = record { quit = false; poll = broken; received = again }

nonempty : (n : ℕ) → 0 < n → (n == 0) ≡ false
nonempty n h = ground arith

module _ {S : Type 0} (handler : ServerHandler S) where
  loop_open :
      (r : Round) (rs : List Round) (buf : List ℕ) (s : S)
      → r.quit ≡ false
      → handler.is_closed s ≡ false
      → loop handler (r ∷ rs) buf s ≡ on_poll handler r.poll r.received buf (loop handler rs) s
  unfolding loop
  loop_open r rs buf s hq hc = rw (hq, hc)

  pub loop_chunk :
      (bytes : List ℕ) (rs : List Round) (buf : List ℕ) (s s' : S)
      → handler.is_closed s ≡ false
      → 0 < length bytes
      → length bytes ≤ max_size
      → handler.on_receive (bytes ++ drop (length bytes) buf) (length bytes) s ≡ (ok tt, s')
      → loop handler (event_round (chunk bytes) ∷ rs) buf s
        ≡ loop handler rs (bytes ++ drop (length bytes) buf) s'
  unfolding on_poll on_read
  loop_chunk bytes rs buf s s' hc pos fits e =
      loop_open (event_round (chunk bytes)) rs buf s refl hc
      ∙ rw (le→ltb max_size (length bytes) fits, nonempty (length bytes) pos, e)

  -- The loop ends where the client has closed its side, and where the connection is closed.
  pub loop-end_of_file :
      (later : List Round) (buf : List ℕ) (s : S)
      → handler.is_closed s ≡ false
      → loop handler (end_of_file ∷ later) buf s ≡ (ok tt, s)
  unfolding loop on_poll on_read
  loop-end_of_file later buf s hc = rw hc

  pub loop_closed :
      (r : Round) (later : List Round) (buf : List ℕ) (s : S)
      → handler.is_closed s ≡ true
      → loop handler (r ∷ later) buf s ≡ (ok tt, s)
  unfolding loop
  loop_closed r later buf s hc = elim (Bool-cases r.quit) [
    | inl quit ↦ rw quit
    | inr goes_on ↦ rw (goes_on, hc)
  ]

  -- A worker whose calls of the handler all return.
  pub run_in_order :
      (rs : List Round) (buf : List ℕ) (w : Worker S) (s s' s'' : S)
      → handler.on_connect w.session ≡ (ok tt, s)
      → loop handler rs buf s ≡ (ok tt, s')
      → handler.on_disconnect s' ≡ (ok tt, s'')
      → run handler rs buf w
        ≡ (ok tt, record { session = s''; socket_closed = true; is_active = false })
  unfolding run serve_client ended
  run_in_order rs buf w s s' s'' connected served disconnected =
      rw (connected, served, disconnected)

module _ {S : Type 0} (handler : ServerHandler S) where
  loop_broken :
      (later : List Round) (buf : List ℕ) (s : S)
      → handler.is_closed s ≡ false
      → loop handler (broken_round ∷ later) buf s ≡ (err (thrown runtime_error), s)
  unfolding loop on_poll
  loop_broken later buf s hc = rw hc refl

  -- A worker whose socket breaks in its first round.
  pub run_broken :
      (later : List Round) (buf : List ℕ) (w : Worker S) (s : S)
      → handler.on_connect w.session ≡ (ok tt, s)
      → handler.is_closed s ≡ false
      → run handler (broken_round ∷ later) buf w
        ≡ (ok tt, record { session = s; socket_closed = w.socket_closed; is_active = false })
  unfolding run serve_client ended
  run_broken later buf w s connected still_open =
      rw (connected, loop_broken later buf s still_open) refl

module _ {S : Type 0} (handler : ServerHandler S) (P : List ℕ → S → Type 0) where
  -- The handler takes a chunk that suits what came before it, and goes on.
  abbrev pub Takes : (List ℕ → List ℕ → Type 0) → Type 0
  Takes Suits =
      (before bytes after : List ℕ) (s : S)
      → 0 < length bytes
      → length bytes ≤ max_size
      → Suits before bytes
      → P before s
      → (s' : S) × (handler.on_receive (bytes ++ after) (length bytes) s ≡ (ok tt, s'))
        × P (before ++ bytes) s'

  -- Where the handler stays open and takes every chunk, the loop arrives behind the events with
  -- all of their bytes taken.
  abbrev pub Arrived : List ℕ → List Event → List Round → List ℕ → S → Type 0
  Arrived before es later buf s =
      (buf' : List ℕ) × (s' : S) × (loop handler (rounds_of es later) buf s
        ≡ loop handler later buf' s')
      × P (before ++ bytes_of es) s'

  module _ (Suits : List ℕ → List ℕ → Type 0) (takes : Takes Suits)
      (stays_open : (before : List ℕ) (s : S) → P before s → handler.is_closed s ≡ false) where
    pub loop-Arrived :
        (es : List Event) (later : List Round) (before buf : List ℕ) (s : S)
        → Arrive Suits before es
        → P before s
        → Arrived before es later buf s
    unfolding on_poll on_read
    loop-Arrived [] later before buf s h p =
        (buf, s, refl, subst (λ m. P m s) (sym (append-nil before)) p)
    loop-Arrived (idle ∷ es) later before buf s h p =
        let (buf', s', e, q) = loop-Arrived es later before buf s h p in
        (
          buf',
          s',
          loop_open handler (event_round idle) (rounds_of es later) buf s refl
                (stays_open before s p)
              ∙ e,
          q,
        )
    loop-Arrived (retry ∷ es) later before buf s h p =
        let (buf', s', e, q) = loop-Arrived es later before buf s h p in
        (
          buf',
          s',
          loop_open handler (event_round retry) (rounds_of es later) buf s refl
                (stays_open before s p)
              ∙ e,
          q,
        )
    loop-Arrived (chunk bytes ∷ es) later before buf s h p =
        let (s1, e1, p1) = takes before bytes (drop (length bytes) buf) s h.0 h.1 h.2 p in
        let (buf', s', e, q) =
          loop-Arrived es later (before ++ bytes) (bytes ++ drop (length bytes) buf) s1 h.3 p1 in
        (
          buf',
          s',
          loop_chunk handler bytes (rounds_of es later) buf s s1 (stays_open before s p) h.0 h.1 e1
              ∙ e,
          subst (λ m. P m s') (append_assoc before bytes (bytes_of es)) q,
        )
