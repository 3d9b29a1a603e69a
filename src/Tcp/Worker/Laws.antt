-- ===== src/Tcp/Worker/Laws.antt =====
-- What a worker guarantees to its handler, and how it ends.
use cppsocks.Base.{ℕ, ◌≤◌, ◌<◌, true, false, ◌||◌, List, [], ◌∷◌, ◌++◌, length, drop}
use cppsocks.Base.{◌≡◌, refl, sym, ap, arith, ltb, ltb→le, ◌==◌, ◌⊎◌, inl, inr, Bool-cases}
use cppsocks.Base.{length-append, length-drop}
use cppsocks.Base.Outcome.{Result, ok, err, thrown, Exception, fault, terminated, running, blocked}
use cppsocks.Base.Effect.{M, continue, ◌>>◌}
use mathlib.Core.Path.{subst}
use cppsocks.Tcp.Worker.{
  ServerHandler, Received, stored, again, failed, Poll, readable, unreadable, broken, Round, Worker,
  loop, on_read, on_poll, serve_client, ended, run, max_size,
}

module _ {S : Type 0} (handler : ServerHandler S) (P : S → Type 0) where
  -- A property that the handler keeps on every buffer that the loop can hand to it.
  abbrev pub Keeps : Type 0
  Keeps =
      (buf : List ℕ) (len : ℕ) (s : S)
      → length buf ≡ max_size
      → 0 < len
      → len ≤ max_size
      → P s
      → P (handler.on_receive buf len s).1

module _ {S : Type 0} (handler : ServerHandler S) (P : S → Type 0) (keeps : Keeps handler P) where
  continue-keeps :
      (m : Result (Unit {0}) × S) (next : M S (Unit {0}))
      → P m.1
      → ((s : S) → P s → P (next s).1)
      → P (continue m (λ _. next)).1
  continue-keeps (ok t, s) next p rest = rest s p
  continue-keeps (err e, s) next p rest = p

  on_read-keeps :
      (received : Received) (buf : List ℕ) (next : List ℕ → M S (Unit {0})) (s : S)
      → length buf ≡ max_size
      → P s
      → ((buf' : List ℕ) (s' : S) → length buf' ≡ max_size → P s' → P (next buf' s').1)
      → P (on_read handler received buf next s).1
  unfolding on_read
  on_read-keeps (stored bytes) buf next s size p rest =
      elim (Bool-cases (ltb max_size (length bytes))) [
        | inl large ↦ rw large p
        | inr small ↦ elim (Bool-cases (length bytes == 0)) [
          | inl eof ↦ rw (small, eof) p
          | inr some ↦
              rw (small, some)
                (continue-keeps (handler.on_receive (filled bytes) (length bytes) s)
                  (next (filled bytes))
                  (keeps (filled bytes) (length bytes) s (full bytes small) (pos bytes some)
                    (ltb→le max_size (length bytes) small) p)
                  (λ s' p'. rest (filled bytes) s' (full bytes small) p'))
        ]
      ]
    where
      filled : List ℕ → List ℕ
      filled bs = bs ++ drop (length bs) buf

      full : (bs : List ℕ) → ltb max_size (length bs) ≡ false → length (filled bs) ≡ max_size
      full bs h = omega (
        arith,
        size,
        ltb→le max_size (length bs) h,
        length-append bs (drop (length bs) buf),
        length-drop (length bs) buf,
      )

      pos : (bs : List ℕ) → (length bs == 0) ≡ false → 0 < length bs
      pos bs h = ground arith
  on_read-keeps again buf next s size p rest = rest buf s size p
  on_read-keeps failed buf next s size p rest = p

  on_poll-keeps :
      (poll : Poll) (received : Received) (buf : List ℕ) (next : List ℕ → M S (Unit {0})) (s : S)
      → length buf ≡ max_size
      → P s
      → ((buf' : List ℕ) (s' : S) → length buf' ≡ max_size → P s' → P (next buf' s').1)
      → P (on_poll handler poll received buf next s).1
  unfolding on_poll
  on_poll-keeps readable received buf next s size p rest =
      on_read-keeps received buf next s size p rest
  on_poll-keeps unreadable received buf next s size p rest = rest buf s size p
  on_poll-keeps broken received buf next s size p rest = p

  -- What the handler's `onReceive` keeps on every call with 1 to 4096 received bytes at the
  -- front of an array of 4096, the worker's loop keeps, whatever the socket does: it makes no
  -- other call.
  pub loop-keeps :
      (rs : List Round) (buf : List ℕ) (s : S)
      → length buf ≡ max_size
      → P s
      → P (loop handler rs buf s).1
  unfolding loop
  loop-keeps [] buf s size p = p
  loop-keeps (r ∷ rs) buf s size p = elim (Bool-cases (r.quit || handler.is_closed s)) [
    | inl over ↦ rw over p
    | inr more ↦
        rw more (on_poll-keeps r.poll r.received buf (loop handler rs) s size p (loop-keeps rs))
  ]

-- Of two steps, the first of which returned: what each did.
returned :
    {S : Type 0} (r : Result (Unit {0}) × S) (k : Unit {0} → M S (Unit {0})) (s' : S)
    → continue r k ≡ (ok tt, s')
    → (s : S) × (r ≡ (ok tt, s)) × (k tt s ≡ (ok tt, s'))
returned (ok t, s) k s' h = (s, refl, h)
returned (err e, s) k s' h = cc (ap (λ r. r.0) h)

-- The first of two steps threw, or it returned and the second one threw.
threw :
    {S : Type 0} (r : Result (Unit {0}) × S) (k : Unit {0} → M S (Unit {0})) (s' : S)
    (x : Exception)
    → continue r k ≡ (err (thrown x), s')
    → (r ≡ (err (thrown x), s')) ⊎ ((s : S) × (r ≡ (ok tt, s)) × (k tt s ≡ (err (thrown x), s')))
threw (ok t, s) k s' x h = inr (s, refl, h)
threw (err e, s) k s' x h = inl h

module _ {S : Type 0} (handler : ServerHandler S) where
  -- The handler was told of the connection, the loop ended, and the handler was told of the
  -- disconnect, from one session to another.
  abbrev pub InOrder : List Round → List ℕ → S → S → Type 0
  InOrder rs buf s s' =
      (s0 : S) × (handler.on_connect s ≡ (ok tt, s0))
      × ((s1 : S) × (loop handler rs buf s0 ≡ (ok tt, s1))
          × (handler.on_disconnect s1 ≡ (ok tt, s')))

  -- One of the three threw, and what stands behind it was not done.
  abbrev pub Threw : List Round → List ℕ → S → S → Exception → Type 0
  Threw rs buf s s' e =
      (handler.on_connect s ≡ (err (thrown e), s'))
      ⊎ ((s0 : S) × (handler.on_connect s ≡ (ok tt, s0))
          × ((loop handler rs buf s0 ≡ (err (thrown e), s'))
              ⊎ ((s1 : S) × (loop handler rs buf s0 ≡ (ok tt, s1))
                  × (handler.on_disconnect s1 ≡ (err (thrown e), s')))))

  in_order :
      (rs : List Round) (buf : List ℕ) (s s' : S)
      → serve_client handler rs buf s ≡ (ok tt, s')
      → InOrder rs buf s s'
  unfolding serve_client
  in_order rs buf s s' h =
      let (s0, connected, rest) =
        returned (handler.on_connect s) (λ _. loop handler rs buf >> handler.on_disconnect) s' h in
      (s0, connected, returned (loop handler rs buf s0) (λ _. handler.on_disconnect) s' rest)

  by_exception :
      (rs : List Round) (buf : List ℕ) (s s' : S) (e : Exception)
      → serve_client handler rs buf s ≡ (err (thrown e), s')
      → Threw rs buf s s' e
  unfolding serve_client
  by_exception rs buf s s' e h =
      elim (threw (handler.on_connect s) (λ _. loop handler rs buf >> handler.on_disconnect) s' e
        h) [
          | inl first ↦ inl first
          | inr (s0, connected, rest) ↦
              inr (
                s0,
                connected,
                threw (loop handler rs buf s0) (λ _. handler.on_disconnect) s' e rest,
              )
        ]

  -- How a worker that has ended has ended: in order, with the socket closed; or by an exception,
  -- and then the socket is left as it was.
  abbrev pub Ending : List Round → List ℕ → Worker S → Worker S → Type 0
  Ending rs buf w w' =
      (InOrder rs buf w.session w'.session × (w'.socket_closed ≡ true))
      ⊎ ((e : Exception) × Threw rs buf w.session w'.session e
          × (w'.socket_closed ≡ w.socket_closed))

  EndsWell : List Round → List ℕ → Worker S → Result (Unit {0}) × Worker S → Type 0
  EndsWell rs buf w r =
      ((e : Exception) → ¬ (r.0 ≡ err (thrown e)))
      × ((w' : Worker S) → r ≡ (ok tt, w') → (w'.is_active ≡ false) × Ending rs buf w w')

  ended_lem :
      (rs : List Round) (buf : List ℕ) (w : Worker S) (r : Result (Unit {0}) × S)
      → serve_client handler rs buf w.session ≡ r
      → EndsWell rs buf w (ended handler r w)
  unfolding EndsWell ended
  ended_lem rs buf w (ok t, s) e = (
    λ y h. cc,
    λ w' h. (
      ap (λ r. r.1.is_active) (sym h),
      inl (
        subst (InOrder rs buf w.session) (ap (λ r. r.1.session) h) (in_order rs buf w.session s e),
        ap (λ r. r.1.socket_closed) (sym h),
      ),
    ),
  )
  ended_lem rs buf w (err (thrown x), s) e = (
    λ y h. cc,
    λ w' h. (
      ap (λ r. r.1.is_active) (sym h),
      inr (
        x,
        subst (λ s'. Threw rs buf w.session s' x) (ap (λ r. r.1.session) h)
            (by_exception rs buf w.session s x e),
        ap (λ r. r.1.socket_closed) (sym h),
      ),
    ),
  )
  ended_lem rs buf w (err fault, s) e = (λ x h. cc, λ w' h. cc (ap (λ r. r.0) h))
  ended_lem rs buf w (err terminated, s) e = (λ x h. cc, λ w' h. cc (ap (λ r. r.0) h))
  ended_lem rs buf w (err running, s) e = (λ x h. cc, λ w' h. cc (ap (λ r. r.0) h))
  ended_lem rs buf w (err blocked, s) e = (λ x h. cc, λ w' h. cc (ap (λ r. r.0) h))

  -- No exception leaves `run`.
  pub run_throws_nothing :
      (rs : List Round) (buf : List ℕ) (w : Worker S) (e : Exception)
      → ¬ ((run handler rs buf w).0 ≡ err (thrown e))
  unfolding run EndsWell
  run_throws_nothing rs buf w e =
      (ended_lem rs buf w (serve_client handler rs buf w.session) refl).0 e

  -- A worker whose `run` has returned is not active. Either the handler was told of the
  -- connection, the loop ended, the handler was told of the disconnect, and the socket is closed; or
  -- one of these three threw, the ones behind it were left out, and the socket is left as it was.
  pub run-Ending :
      (rs : List Round) (buf : List ℕ) (w w' : Worker S)
      → run handler rs buf w ≡ (ok tt, w')
      → (w'.is_active ≡ false) × Ending rs buf w w'
  unfolding run EndsWell
  run-Ending rs buf w w' h =
      (ended_lem rs buf w (serve_client handler rs buf w.session) refl).1 w' h
