-- ===== src/Tcp/Server/Admission.antt =====
-- Which clients `Server::serve` admits.

use cppsocks.Base.{ℕ, suc, false, length, ltb}
use cppsocks.Base.{◌⊎◌, All, ◌≡◌, refl, arith, ltb→le, Bool-cases, inl, inr}
use cppsocks.Tcp.Server.{Server, client, Tick, cleanup, start_worker, turn_away, admit, on_accepted}
use cppsocks.Tcp.Server.Laws.{Inv, sweep-IsSwept, cleanup-Inv}

-- A client that is accepted by a server that keeps its bounds gets a worker of its own, or it is
-- turned away; and it is turned away only while the server has as many workers as it may, all of
-- them active.
pub client_admitted_or_full :
    (max_clients : ℕ) (t : Tick) (s : Server)
    → Inv max_clients s
    → t.accepted ≡ client
    → let s' = (on_accepted max_clients t s).1 in
      ((s'.started ≡ suc s.started) × (s'.turned_away ≡ s.turned_away))
      ⊎ ((s'.started ≡ s.started)
          × (s'.turned_away ≡ suc s.turned_away)
          × (length s'.workers ≡ max_clients)
          × All (λ w. t.is_finished w ≡ false) s'.workers)
unfolding on_accepted admit start_worker turn_away
client_admitted_or_full max_clients t s v e =
    elim (Bool-cases (ltb (length swept.workers) max_clients)) [
      | inl room ↦ rw (e, room) (inl (refl, refl))
      | inr full ↦
          rw (e, full) (inr (refl, refl, omega (arith, ltb→le _ _ full, swept_Inv.bounded), active))
    ]
  where
    swept : Server
    swept = cleanup t.is_finished s

    swept_Inv : Inv max_clients swept
    swept_Inv = cleanup-Inv max_clients t.is_finished s v

    active : All (λ w. t.is_finished w ≡ false) swept.workers
    active = unfold cleanup in (sweep-IsSwept t.is_finished s.workers).kept_active
