-- ===== src/Tcp/Server/Failure.antt =====
-- How `Server::serve` ends where `accept` or a write to a refused client fails.
use cppsocks.Base.{
  ℕ, Bool, false, List, [], ◌∷◌, ◌++◌, length, ◌≡◌, ◌≢◌, refl, ap, ◌∙◌, Bool-cases, inl, inr, ltb,
}
use cppsocks.Base.Outcome.{Result, ok, err, thrown, terminated, running, runtime_error}
use cppsocks.Base.Effect.{continue, raise}
use cppsocks.Tcp.Server.{
  ServerOptions, Server, Accepted, nobody, client, broken_client, failed, Tick, cleanup, admit,
  turn_away, finish_all, all_finished, on_accepted, serve_loop, unwound, leave, serve,
}

admit-ne-running :
    (max_clients : ℕ) (refuse : Server → Result (Unit {0}) × Server) (s : Server)
    → (refuse s).0 ≢ err running
    → (admit max_clients refuse s).0 ≢ err running
unfolding admit
admit-ne-running max_clients refuse s h = elim (Bool-cases (ltb (length s.workers) max_clients)) [
  | inl room ↦ rw room (λ e. cc e)
  | inr full ↦ rw full h
]

on_accepted-ne-running :
    (max_clients : ℕ) (t : Tick) (s : Server) → (on_accepted max_clients t s).0 ≢ err running
unfolding on_accepted
on_accepted-ne-running max_clients t s = by_answer t.accepted
  where
    by_answer :
        (a : Accepted) → (on_accepted max_clients (record t { accepted = a }) s).0 ≢ err running
    by_answer nobody = λ e. cc e
    by_answer client =
        admit-ne-running max_clients (λ s'. (ok tt, turn_away s')) (cleanup t.is_finished s)
          (λ e. cc e)
    by_answer broken_client =
        admit-ne-running max_clients (raise runtime_error) (cleanup t.is_finished s) (λ e. cc e)
    by_answer failed = λ e. cc e

finish_all-ne-running :
    (is_finished : ℕ → Bool) (s : Server) → (finish_all is_finished s).0 ≢ err running
unfolding finish_all
finish_all-ne-running is_finished s = elim (Bool-cases (all_finished is_finished s.workers)) [
  | inl over ↦ rw over (λ e. cc e)
  | inr more ↦ rw more (λ e. cc e)
]

-- The loop goes on where it was when its rounds ran out.
pub serve_loop-append :
    (max_clients : ℕ) (before later : List Tick) (s s' : Server)
    → serve_loop max_clients before s ≡ (err running, s')
    → serve_loop max_clients (before ++ later) s ≡ serve_loop max_clients later s'
unfolding serve_loop
serve_loop-append max_clients [] later s s' h = ap (λ r. serve_loop max_clients later r.1) h
serve_loop-append max_clients (t ∷ before) later s s' h = elim (Bool-cases t.quit) [
  | inl over ↦ absurd (finish_all-ne-running t.is_finished s (ap (λ r. r.0) (rw over at h)))
  | inr more ↦ rw more (
      after (on_accepted max_clients t s) (on_accepted-ne-running max_clients t s) (rw more at h)
        (λ s1 e. serve_loop-append max_clients before later s1 s' e))
]
  where
    after :
        (r : Result (Unit {0}) × Server)
        → r.0 ≢ err running
        → continue r (λ _. serve_loop max_clients before) ≡ (err running, s')
        → ((s1 : Server)
            → serve_loop max_clients before s1 ≡ (err running, s')
            → serve_loop max_clients (before ++ later) s1 ≡ serve_loop max_clients later s')
        → continue r (λ _. serve_loop max_clients (before ++ later))
          ≡ serve_loop max_clients later s'
    after (ok u, s1) ne e ih = ih s1 e
    after (err x, s1) ne e ih = absurd (ne (ap (λ r. r.0) e))

fails :
    (max_clients : ℕ) (later : List Tick) (t : Tick) (s : Server)
    → t.quit ≡ false
    → t.accepted ≡ failed
    → serve_loop max_clients (t ∷ later) s ≡ (err (thrown runtime_error), s)
unfolding serve_loop on_accepted
fails max_clients later t s still_on broken = rw (still_on, broken)

unwound_busy : (ws : List ℕ) → ws ≢ [] → unwound (err (thrown runtime_error)) ws ≡ err terminated
unfolding unwound
unwound_busy [] busy = absurd (busy refl)
unwound_busy (w ∷ ws) busy = refl

-- Where `accept` fails after any rounds of the loop, with workers still in the list: their threads
-- were not joined, so the exception does not reach the caller of `serve`, and the process ends by
-- `std::terminate`.
pub failed_accept_terminates :
    (options : ServerOptions) (before later : List Tick) (t : Tick) (s s' : Server)
    → serve_loop options.max_clients before s ≡ (err running, s')
    → t.quit ≡ false
    → t.accepted ≡ failed
    → s'.workers ≢ []
    → serve options (ok tt) (before ++ (t ∷ later)) s ≡ (err terminated, s')
unfolding serve leave
failed_accept_terminates options before later t s s' reached still_on broken busy =
    ap leave (
      serve_loop-append options.max_clients before (t ∷ later) s s' reached
      ∙ fails options.max_clients later t s' still_on broken)
    ∙ ap (λ r. (r, s')) (unwound_busy s'.workers busy)
