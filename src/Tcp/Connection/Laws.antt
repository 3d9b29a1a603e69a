-- ===== src/Tcp/Connection/Laws.antt =====
-- `Connection::send` on a socket that makes progress.
use cppsocks.Base.{ℕ, zero, suc, ◌+◌, ◌-◌, ◌%◌, ◌^◌, ◌≤◌, ◌<◌, true, false}
use cppsocks.Base.{List, [], ◌∷◌, ◌++◌, append-nil, append_assoc, length, take, drop}
use cppsocks.Base.{◌≡◌, refl, sym, ap, ap₂, ◌∙◌, arith, lt→ltb}
use cppsocks.Base.{length-append, length-take, length-drop, take-append-drop}
use cppsocks.Base.Copies.{load_n-append}
use cppsocks.Base.Outcome.{ok}
use cppsocks.Tcp.Connection.{wrote, Net, World, more_to_send, send_loop, send}
use native.Mathlib.Nat.{mod-eq_of_lt}

-- The socket takes at least one byte of each write and no more than it is offered.
abbrev pub Delivers : Net → Type 0
Delivers net = (i n : ℕ) → 0 < n → (k : ℕ) × (net.answer i n ≡ wrote k) × (0 < k) × (k ≤ n)

-- The bytes went out, behind what was sent before, and nothing else changed but the count.
pub record Sent (w : World) (bytes : List ℕ) (w' : World) : Type 0 where
  pub same_closed : w'.closed ≡ w.closed
  pub on_wire : w'.wire ≡ w.wire ++ bytes
  pub same_app : w'.app ≡ w.app

pub Sent-nil : (w : World) → Sent w [] w
Sent-nil w = record { same_closed = refl; on_wire = sym (append-nil w.wire); same_app = refl }

pub Sent-trans :
    {w w' w'' : World} {xs ys : List ℕ} → Sent w xs w' → Sent w' ys w'' → Sent w (xs ++ ys) w''
Sent-trans {w} {xs = xs} {ys = ys} s t = record {
  same_closed = t.same_closed ∙ s.same_closed;
  on_wire = t.on_wire ∙ ap (λ m. m ++ ys) s.on_wire ∙ append_assoc w.wire xs ys;
  same_app = t.same_app ∙ s.same_app;
}

pub goes_on : (w : World) (n len : ℕ) → w.closed ≡ false → n < len → more_to_send w n len ≡ true
unfolding more_to_send
goes_on w n len still_open h = rw (still_open, lt→ltb n len h)

pub stops : (w : World) (n len : ℕ) → len ≤ n → more_to_send w n len ≡ false
unfolding more_to_send
stops w n len h = ground arith

module _ (net : Net) where
  -- One round: the socket takes `k` bytes of `rest`.
  send_loop-round :
      (rounds len k : ℕ) (pre rest post : List ℕ) (w : World)
      → length pre + length rest ≡ len
      → len < 2 ^ 64
      → length pre < len
      → w.closed ≡ false
      → net.answer w.writes (length rest) ≡ wrote k
      → k ≤ length rest
      → send_loop net (suc rounds) (pre ++ (rest ++ post)) len (length pre) w
        ≡ send_loop net rounds
            ((pre ++ take k rest) ++ (drop k rest ++ post))
            len
            (length (pre ++ take k rest))
            (record w { writes = w.writes + 1; wire = w.wire ++ take k rest })
  unfolding send_loop
  send_loop-round rounds len k pre rest post w total fits more still_open answered bound =
      rw (goes_on w (length pre) len still_open more, left, load_n-append pre rest post, answered)
        (ap₂
          (λ m n.
            send_loop net rounds m len n
              (record w { writes = w.writes + 1; wire = w.wire ++ take k rest }))
          regroup count)
    where
      left : len - length pre ≡ length rest
      left = omega arith

      regroup : pre ++ (rest ++ post) ≡ (pre ++ take k rest) ++ (drop k rest ++ post)
      regroup =
          ap (λ m. pre ++ (m ++ post)) (sym (take-append-drop k rest))
          ∙ ap (◌++◌ pre) (append_assoc (take k rest) (drop k rest) post)
          ∙ sym (append_assoc pre (take k rest) (drop k rest ++ post))

      count : (length pre + k) % 2 ^ 64 ≡ length (pre ++ take k rest)
      count =
          mod-eq_of_lt {n = length pre + k} {m = 2 ^ 64} (omega arith)
          ∙ omega (arith, length-append pre (take k rest), length-take k rest)

  abbrev Completes : ℕ → ℕ → List ℕ → List ℕ → List ℕ → World → Type 0
  Completes rounds len pre rest post w =
      (w' : World) × (send_loop net rounds (pre ++ (rest ++ post)) len (length pre) w
        ≡ (ok len, w'))
      × Sent w rest w'

  Completes-round :
      (rounds len k : ℕ) (pre rest post : List ℕ) (w : World)
      → length pre + length rest ≡ len
      → len < 2 ^ 64
      → length pre < len
      → w.closed ≡ false
      → net.answer w.writes (length rest) ≡ wrote k
      → k ≤ length rest
      → Completes rounds len
          (pre ++ take k rest)
          (drop k rest)
          post
          (record w { writes = w.writes + 1; wire = w.wire ++ take k rest })
      → Completes (suc rounds) len pre rest post w
  Completes-round rounds len k pre rest post w total fits more still_open answered bound later = (
    later.0,
    send_loop-round rounds len k pre rest post w total fits more still_open answered bound
        ∙ later.1,
    record {
      same_closed = later.2.same_closed;
      on_wire =
          later.2.on_wire
          ∙ append_assoc w.wire (take k rest) (drop k rest)
          ∙ ap (◌++◌ w.wire) (take-append-drop k rest);
      same_app = later.2.same_app;
    },
  )

module _ (net : Net) (delivers : Delivers net) where
  send_loop-Completes :
      (rounds len : ℕ) (pre rest post : List ℕ) (w : World)
      → length pre + length rest ≡ len
      → len < 2 ^ 64
      → length rest < rounds
      → w.closed ≡ false
      → Completes net rounds len pre rest post w
  send_loop-Completes zero len pre rest post w total fits enough still_open = absurd (omega arith)
  send_loop-Completes (suc rounds) len pre [] post w total fits enough still_open = (
    w,
    unfold send_loop in rw (stops w (length pre) len (omega arith)) (ap (λ n. (ok n, w)) all),
    Sent-nil w,
  )
    where
      all : length pre ≡ len
      all = omega arith
  send_loop-Completes (suc rounds) len pre (b ∷ bs) post w total fits enough still_open =
      let rest : List ℕ = b ∷ bs in
      let (k, answered, pos, bound) = delivers w.writes (length rest) (omega arith) in
      Completes-round net rounds len k pre rest post w total fits (omega arith) still_open answered
        bound
        (send_loop-Completes rounds len (pre ++ take k rest) (drop k rest) post
          (record w { writes = w.writes + 1; wire = w.wire ++ take k rest })
          (omega (arith, length-append pre (take k rest), length-take k rest, length-drop k rest))
          fits (omega (arith, length-drop k rest)) still_open)

  -- On an open connection over a socket that takes at least a byte of each write, with fewer
  -- bytes than 2 ^ 64 and than rounds that are followed: `send` ends, returns the whole length,
  -- and puts exactly the bytes behind what was sent before. Memory behind the bytes is not sent.
  pub send-Sent :
      (bytes after : List ℕ) (w : World)
      → length bytes < 2 ^ 64
      → length bytes < net.rounds
      → w.closed ≡ false
      → (w' : World) × (send net (bytes ++ after) (length bytes) w ≡ (ok (length bytes), w'))
        × Sent w bytes w'
  unfolding send
  send-Sent bytes after w fits enough still_open =
      send_loop-Completes net.rounds (length bytes) [] bytes after w (omega arith) fits enough
        still_open
