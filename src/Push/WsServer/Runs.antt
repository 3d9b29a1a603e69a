-- ===== src/Push/WsServer/Runs.antt =====
-- The calls of the sessions are the manager's history.
use cppsocks.Base.{ℕ, false, List, [], ◌∷◌, ◌++◌, ◌==◌, Bool-cases, inl, inr}
use cppsocks.Base.{◌≡◌, refl, sym, ap, ◌∙◌}
use cppsocks.Base.Outcome.{Result, ok, err}
use cppsocks.Base.Effect.{M, continue}
use cppsocks.Tcp.Connection.{Net, World}
use cppsocks.Tcp.Connection.Serving.{Serves}
use cppsocks.Http.Ws.{Crypto}
use cppsocks.Push.{Hub, on_connection, for_each, push_all, elem_push}
use cppsocks.Push.Delivery.Histories.{Act, pushes, Wiring, act, acts}
use cppsocks.Push.Delivery.Servers.{in_turn, IsMessage}
use cppsocks.Push.WsServer.{Call, Site, Own, site_call, in_session, put_at, own}
use cppsocks.Push.WsServer.Client.{
  Deed, part, asks, says, goes, Event, does, pushed, deed_call, call_of, Phase, next_phase, Asked,
  May, acts_of, site_service,
}
use cppsocks.Push.WsServer.Deeds.{IsAt, deed_on, deed-Did}

-- A call on connections registers and destroys none.
abbrev pub Keeps : Hub → Result (Unit {0}) × Hub → Type 0
Keeps h r = (r.1.connections ≡ h.connections) × (r.1.destroyed ≡ h.destroyed)

pub on_connection-Keeps : (i : ℕ) (m : M World (Unit {0})) (h : Hub) → Keeps h (on_connection i m h)
unfolding on_connection
on_connection-Keeps i m h = elim (Bool-cases (h.destroyed i)) [
  | inl lost ↦ rw lost (refl, refl)
  | inr alive ↦ rw alive (refl, refl)
]

then_Keeps :
    (h : Hub) (r : Result (Unit {0}) × Hub) (k : M Hub (Unit {0}))
    → Keeps h r
    → ((g : Hub) → Keeps g (k g))
    → Keeps h (continue r (λ _. k))
then_Keeps h (ok t, g) k first rest = ((rest g).0 ∙ first.0, (rest g).1 ∙ first.1)
then_Keeps h (err e, g) k first rest = first

pub for_each-Keeps :
    (m : ℕ → M World (Unit {0})) (is : List ℕ) (h : Hub) → Keeps h (for_each m is h)
unfolding for_each
for_each-Keeps m [] h = (refl, refl)
for_each-Keeps m (i ∷ is) h =
    then_Keeps h (on_connection i (m i) h) (for_each m is) (on_connection-Keeps i (m i) h)
      (for_each-Keeps m is)

acts-append :
    {Q : Type 0} (service : Wiring Q) (xs ys : List (Act Q)) (h : Hub)
    → acts service (xs ++ ys) h ≡ continue (acts service xs h) (λ _. acts service ys)
acts-append service [] ys h = refl
acts-append service (x ∷ xs) ys h = after (act service x h) (acts-append service xs ys)
  where
    after :
        (r : Result (Unit {0}) × Hub)
        → ((g : Hub)
            → acts service (xs ++ ys) g ≡ continue (acts service xs g) (λ _. acts service ys))
        → continue r (λ _. acts service (xs ++ ys))
          ≡ continue (continue r (λ _. acts service xs)) (λ _. acts service ys)
    after (ok t, g) rest = rest g
    after (err e, g) rest = refl

abbrev pub call_list : List Event → List Call
call_list [] = []
call_list (e ∷ later) = call_of e ∷ call_list later

abbrev pub all_acts : (ℕ → Phase) → List Event → List (Act Asked)
all_acts phases [] = []
all_acts phases (does i d ∷ later) =
    acts_of i (phases i) d ++ all_acts (put_at i (next_phase (phases i) d) phases) later
all_acts phases (pushed words ∷ later) = pushes words ∷ all_acts phases later

-- Every client does what it may in its phase, and each text fits.
abbrev pub Orderly : ℕ → Crypto → (ℕ → Phase) → List Event → Type 0
Orderly room crypto phases [] = Unit {0}
Orderly room crypto phases (does i d ∷ later) =
    May room crypto (phases i) d
    × Orderly room crypto (put_at i (next_phase (phases i) d) phases) later
Orderly room crypto phases (pushed words ∷ later) =
    IsMessage room words × Orderly room crypto phases later

module _ (nets : ℕ → Net) (room : ℕ) (crypto : Crypto)
    (serves : (i : ℕ) → Serves (nets i) room) where
  abbrev Same : Result (Unit {0}) × Site → Result (Unit {0}) × Hub → Type 0
  Same r a = (r.0 ≡ a.0) × (r.1.hub ≡ a.1)

  deed_call-deed_on :
      (i : ℕ) (d : Deed)
      → site_call nets crypto (deed_call i d) ≡ in_session i (deed_on nets room crypto serves i d)
  deed_call-deed_on i (part bytes after) = refl
  deed_call-deed_on i (asks u last after) = refl
  deed_call-deed_on i (says m after) = refl
  deed_call-deed_on i goes = refl

  push_then :
      (sessions : ℕ → Own) (rest : M Site (Unit {0})) (rest_acts : M Hub (Unit {0})) (h : Hub)
      (r : Result (Unit {0}) × Hub)
      → Keeps h r
      → ((i : ℕ) → h.destroyed i ≡ false)
      → ((g : Hub)
          → ((i : ℕ) → g.destroyed i ≡ false)
          → Same (rest (record { hub = g; sessions = sessions })) (rest_acts g))
      → Same
          (continue (r.0, record { hub = r.1; sessions = sessions }) (λ _. rest))
          (continue r (λ _. rest_acts))
  push_then sessions rest rest_acts h (ok t, g) kept alive same =
      same g (λ i. ap (λ f. f i) kept.1 ∙ alive i)
  push_then sessions rest rest_acts h (err e, g) kept alive same = (refl, refl)

  put-IsAt :
      (i k : ℕ) (phase : Phase) (s : Own) (phases : ℕ → Phase) (sessions : ℕ → Own)
      → IsAt phase s
      → IsAt (phases k) (sessions k)
      → IsAt (put_at i phase phases k) (put_at i s sessions k)
  put-IsAt i k phase s phases sessions new old = elim (Bool-cases (i == k)) [
    | inl same ↦ rw same new
    | inr other ↦ rw other old
  ]

  pub runs :
      (events : List Event) (phases : ℕ → Phase) (site : Site)
      → ((i : ℕ) → IsAt (phases i) (site.sessions i))
      → ((i : ℕ) → site.hub.destroyed i ≡ false)
      → Orderly room crypto phases events
      → Same
          (in_turn (site_call nets crypto) (call_list events) site)
          (acts (site_service nets crypto) (all_acts phases events) site.hub)
  unfolding elem_push push_all
  runs [] phases site at alive orderly = (refl, refl)
  runs (pushed words ∷ later) phases site at alive orderly =
      push_then site.sessions (in_turn (site_call nets crypto) (call_list later))
        (acts (site_service nets crypto) (all_acts phases later)) site.hub
        (act (site_service nets crypto) (pushes words) site.hub)
        (for_each-Keeps ((site_service nets crypto).push_to words) site.hub.connections site.hub)
        alive
        (λ g fine.
          runs later phases (record { hub = g; sessions = site.sessions }) at fine orderly.1)
  runs (does i d ∷ later) phases site at alive orderly =
      let (s', h', called, at', acted, kept) =
        deed-Did nets room crypto serves i (phases i) d (site.sessions i) site.hub (at i) orderly.0
          (alive i) in
      let phases' = put_at i (next_phase (phases i) d) phases in
      let rest = in_turn (site_call nets crypto) (call_list later) in
      let same =
        runs later phases' (record { hub = h'; sessions = put_at i s' site.sessions })
          (λ k. put-IsAt i k (next_phase (phases i) d) s' phases site.sessions at' (at k))
          (λ k. ap (λ f. f k) kept ∙ alive k) orderly.1 in
      let reached : in_turn (site_call nets crypto) (call_list (does i d ∷ later)) site
          ≡ rest (record { hub = h'; sessions = put_at i s' site.sessions }) =
        ap (λ m. continue (m site) (λ _. rest)) (deed_call-deed_on i d)
        ∙ ap
            (λ x.
              continue
                (x.0, record { hub = x.1.world; sessions = put_at i (own x.1) site.sessions })
                (λ _. rest))
            called in
      let history : acts (site_service nets crypto) (all_acts phases (does i d ∷ later)) site.hub
          ≡ acts (site_service nets crypto) (all_acts phases' later) h' =
        acts-append (site_service nets crypto) (acts_of i (phases i) d) (all_acts phases' later)
          site.hub
        ∙ ap (λ r. continue r (λ _. acts (site_service nets crypto) (all_acts phases' later)))
            acted in
      (
        ap (λ r. r.0) reached ∙ same.0 ∙ sym (ap (λ r. r.0) history),
        ap (λ r. r.1.hub) reached ∙ same.1 ∙ sym (ap (λ r. r.1) history),
      )
