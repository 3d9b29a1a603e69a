-- ===== src/Tcp/Server/Laws.antt =====
-- The server's promises: never more workers than allowed, and every worker joined once.
use mathlib.Core.List.{Perm, perm_middle, perm_append_comm}
use mathlib.Core.List.Perm
use mathlib.Core.Path.{subst}
use cppsocks.Base.{ap, ℕ, zero, suc, ◌≤◌, ◌<◌, Bool, true, false, List, [], ◌∷◌, ◌++◌, length, ltb}
use cppsocks.Base.{append_assoc, All, ◌≡◌, refl, arith, ltb→lt, Bool-cases, inl, inr}
use cppsocks.Base.{length-append}
use cppsocks.Base.Outcome.{
  Result, ok, err, Exception, thrown, fault, terminated, running, runtime_error, blocked,
}
use cppsocks.Base.{◌≢◌}
use cppsocks.Base.Effect.{continue, raise}
use cppsocks.Tcp.Server.{
  ServerOptions, Server, Accepted, nobody, client, broken_client, failed, Tick, Swept, sweep,
  cleanup, start_worker, turn_away, admit, on_accepted, finish_all, all_finished, serve_loop,
  unwound, leave, serve,
}

-- The workers that were started, newest first.
abbrev pub upto : ℕ → List ℕ
upto zero = []
upto (suc n) = n ∷ upto n

pub record Inv (max_clients : ℕ) (s : Server) : Type 0 where
  pub bounded : length s.workers ≤ max_clients
  pub accounted : Perm (s.workers ++ s.joined) (upto s.started)

-- `cleanup` keeps the workers that are still active, in order, and joins the others.
pub record IsSwept (is_finished : ℕ → Bool) (ws : List ℕ) (r : Swept) : Type 0 where
  pub kept_active : All (λ w. is_finished w ≡ false) r.kept
  pub joined_finished : All (λ w. is_finished w ≡ true) r.finished
  pub parts : Perm (r.kept ++ r.finished) ws
  pub shorter : length r.kept ≤ length ws

-- `cleanup` keeps only workers that are active and joins only workers that are not; those kept
-- and those joined are together the workers that there were, and those kept are no more than
-- that.
pub sweep-IsSwept :
    (is_finished : ℕ → Bool) (ws : List ℕ) → IsSwept is_finished ws (sweep is_finished ws)
unfolding sweep
sweep-IsSwept is_finished [] = record {
  kept_active = tt;
  joined_finished = tt;
  parts = Perm.refl [];
  shorter = omega arith;
}
sweep-IsSwept is_finished (w ∷ ws) =
    let ih = sweep-IsSwept is_finished ws in
    elim (Bool-cases (is_finished w)) [
      | inl over ↦ rw over (record {
        kept_active = ih.kept_active;
        joined_finished = (over, ih.joined_finished);
        parts = Perm.trans (perm_middle _ _) (Perm.cons w ih.parts);
        shorter = omega (arith, ih.shorter);
      })
      | inr active ↦ rw active (record {
        kept_active = (active, ih.kept_active);
        joined_finished = ih.joined_finished;
        parts = Perm.cons w ih.parts;
        shorter = omega (arith, ih.shorter);
      })
    ]

pub cleanup-Inv :
    (max_clients : ℕ) (is_finished : ℕ → Bool) (s : Server)
    → Inv max_clients s
    → Inv max_clients (cleanup is_finished s)
unfolding cleanup
cleanup-Inv max_clients is_finished s v =
    let swept = sweep-IsSwept is_finished s.workers in
    record {
      bounded = omega (arith, swept.shorter, v.bounded);
      accounted =
          Perm.trans
            (Perm.append_left (sweep is_finished s.workers).kept (perm_append_comm s.joined _))
            (rw (← append_assoc) (Perm.trans (Perm.append_right s.joined swept.parts) v.accounted));
    }

start_worker-Inv :
    (max_clients : ℕ) (s : Server)
    → length s.workers < max_clients
    → Inv max_clients s
    → Inv max_clients (start_worker s)
unfolding start_worker
start_worker-Inv max_clients s room v = record {
  bounded = omega (arith, length-append s.workers (s.started ∷ []));
  accounted =
      rw append_assoc
        (Perm.trans (perm_middle s.workers s.joined) (Perm.cons s.started v.accounted));
}

turn_away-Inv : (max_clients : ℕ) (s : Server) → Inv max_clients s → Inv max_clients (turn_away s)
unfolding turn_away
turn_away-Inv max_clients s v = record { bounded = v.bounded; accounted = v.accounted }

admit-Inv :
    (max_clients : ℕ) (refuse : Server → Result (Unit {0}) × Server) (s : Server)
    → Inv max_clients s
    → Inv max_clients (refuse s).1
    → Inv max_clients (admit max_clients refuse s).1
unfolding admit
admit-Inv max_clients refuse s v refused = elim (Bool-cases (ltb (length s.workers) max_clients)) [
  | inl room ↦ rw room (start_worker-Inv max_clients s (ltb→lt _ _ room) v)
  | inr full ↦ rw full refused
]

pub on_accepted-Inv :
    (max_clients : ℕ) (t : Tick) (s : Server)
    → Inv max_clients s
    → Inv max_clients (on_accepted max_clients t s).1
unfolding on_accepted
on_accepted-Inv max_clients t s v = by_answer t.accepted
  where
    swept : Inv max_clients (cleanup t.is_finished s)
    swept = cleanup-Inv max_clients t.is_finished s v

    by_answer :
        (a : Accepted) → Inv max_clients (on_accepted max_clients (record t { accepted = a }) s).1
    by_answer nobody = v
    by_answer client =
        admit-Inv max_clients (λ s'. (ok tt, turn_away s')) (cleanup t.is_finished s) swept
          (turn_away-Inv max_clients (cleanup t.is_finished s) swept)
    by_answer broken_client =
        admit-Inv max_clients (raise runtime_error) (cleanup t.is_finished s) swept swept
    by_answer failed = v

-- What the server is left with, and that all threads were joined if it returned.
abbrev pub Leaves : ℕ → Result (Unit {0}) × Server → Type 0
Leaves max_clients r =
    Inv max_clients r.1 × (r.0 ≡ ok tt → (r.1.workers ≡ []) × Perm r.1.joined (upto r.1.started))

finish_all-Leaves :
    (max_clients : ℕ) (is_finished : ℕ → Bool) (s : Server)
    → Inv max_clients s
    → Leaves max_clients (finish_all is_finished s)
unfolding finish_all
finish_all-Leaves max_clients is_finished s v =
    elim (Bool-cases (all_finished is_finished s.workers)) [
      | inl over ↦ rw over (record { bounded = omega arith; accounted = all }, λ h. (refl, all))
      | inr more ↦ rw more (v, λ h. cc)
    ]
  where
    all : Perm (s.joined ++ s.workers) (upto s.started)
    all = Perm.trans (perm_append_comm s.joined s.workers) v.accounted

serve_loop-Leaves :
    (max_clients : ℕ) (ts : List Tick) (s : Server)
    → Inv max_clients s
    → Leaves max_clients (serve_loop max_clients ts s)
unfolding serve_loop
serve_loop-Leaves max_clients [] s v = (v, λ h. cc)
serve_loop-Leaves max_clients (t ∷ ts) s v = elim (Bool-cases t.quit) [
  | inl over ↦ rw over (finish_all-Leaves max_clients t.is_finished s v)
  | inr more ↦
      rw more (after _ (on_accepted-Inv max_clients t s v) (serve_loop-Leaves max_clients ts))
]
  where
    after :
        (r : Result (Unit {0}) × Server)
        → Inv max_clients r.1
        → ((s' : Server) → Inv max_clients s' → Leaves max_clients (serve_loop max_clients ts s'))
        → Leaves max_clients (continue r (λ _. serve_loop max_clients ts))
    after (ok u, s') v' rest = rest s' v'
    after (err e, s') v' rest = (v', λ h. cc)

unwound_throws : (e : Exception) (ws : List ℕ) → unwound (err (thrown e)) ws ≢ ok tt
unfolding unwound
unwound_throws e [] h = cc h
unwound_throws e (w ∷ ws) h = cc h

leave-Leaves :
    (max_clients : ℕ) (r : Result (Unit {0}) × Server)
    → Leaves max_clients r
    → Leaves max_clients (leave r)
unfolding leave unwound
leave-Leaves max_clients (ok u, s) h = h
leave-Leaves max_clients (err (thrown e), s) h =
    (h.0, λ returned. absurd (unwound_throws e s.workers returned))
leave-Leaves max_clients (err fault, s) h = h
leave-Leaves max_clients (err terminated, s) h = h
leave-Leaves max_clients (err running, s) h = h
leave-Leaves max_clients (err blocked, s) h = h

serve-Leaves :
    (options : ServerOptions) (listening : Result (Unit {0})) (ts : List Tick) (s : Server)
    → Inv options.max_clients s
    → Leaves options.max_clients (serve options listening ts s)
unfolding serve
serve-Leaves options (ok u) ts s v =
    leave-Leaves options.max_clients (serve_loop options.max_clients ts s)
      (serve_loop-Leaves options.max_clients ts s v)
serve-Leaves options (err e) ts s v = leave-Leaves options.max_clients (err e, s) (v, λ h. cc)

-- From a server that keeps its bounds, whatever happens and however `serve` ends: there are no
-- more workers than `max_clients`, and each worker that was started is either still in the list
-- or was joined, once.
pub serve-Inv :
    (options : ServerOptions) (listening : Result (Unit {0})) (ts : List Tick) (s : Server)
    → Inv options.max_clients s
    → Inv options.max_clients (serve options listening ts s).1
serve-Inv options listening ts s v = (serve-Leaves options listening ts s v).0

-- From a server that keeps its bounds: if `serve` returns, no worker is left in the list and
-- every one that was started was joined once.
pub serve_joins_all :
    (options : ServerOptions) (listening : Result (Unit {0})) (ts : List Tick) (s s' : Server)
    → Inv options.max_clients s
    → serve options listening ts s ≡ (ok tt, s')
    → (s'.workers ≡ []) × Perm s'.joined (upto s'.started)
serve_joins_all options listening ts s s' v e =
    subst (λ r. (r.workers ≡ []) × Perm r.joined (upto r.started)) (ap (λ r. r.1) e)
      ((serve-Leaves options listening ts s v).1 (ap (λ r. r.0) e))
