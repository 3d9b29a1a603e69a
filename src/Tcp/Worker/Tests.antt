-- ===== src/Tcp/Worker/Tests.antt =====
-- A worker whose handler counts the bytes that it is handed.
use cppsocks.Base.{
  ℕ, ◌+◌, ◌≤◌, true, false, List, [], ◌∷◌, length, replicate, length-replicate, ◌≡◌, refl, arith,
}
use cppsocks.Base.Outcome.{ok, err, thrown, out_of_range}
use cppsocks.Base.Effect.{return}
use cppsocks.Tcp.Worker.{
  ServerHandler, stored, again, failed, readable, unreadable, Round, Worker, loop, run, max_size,
}
use cppsocks.Tcp.Worker.Laws.{Keeps, loop-keeps, Ending, run-Ending, run_throws_nothing}

abbrev counting_handler : ServerHandler ℕ
counting_handler = record {
  on_connect = return tt;
  on_disconnect = return tt;
  on_receive = λ buf len n. (ok tt, n + len);
  is_closed = λ n. false;
}

abbrev rounds : List Round
rounds =
    record { quit = false; poll = unreadable; received = failed }
    ∷ record { quit = false; poll = readable; received = stored (1 ∷ 2 ∷ 3 ∷ []) }
    ∷ record { quit = false; poll = readable; received = again }
    ∷ record { quit = false; poll = readable; received = stored [] }
    ∷ []

abbrev empty_buf : List ℕ
empty_buf = replicate max_size 0

abbrev started_worker : Worker ℕ
started_worker = record { session = 7; socket_closed = false; is_active = true }

abbrev ended_worker : Worker ℕ
ended_worker = record { session = 10; socket_closed = true; is_active = false }

counted : run counting_handler rounds [] started_worker ≡ (ok tt, ended_worker)
unfolding run
counted = refl

keeps_seven : Keeps counting_handler (λ n. 7 ≤ n)
keeps_seven buf len n size pos fits kept = omega arith

empty_buf-full : length empty_buf ≡ max_size
empty_buf-full = length-replicate {A = ℕ} max_size 0

loop-keeps_example : 7 ≤ (loop counting_handler rounds empty_buf 7).1
loop-keeps_example =
    loop-keeps counting_handler (λ n. 7 ≤ n) keeps_seven rounds empty_buf 7 empty_buf-full
      (omega arith)

run-Ending_example :
    (ended_worker.is_active ≡ false) × Ending counting_handler rounds [] started_worker ended_worker
run-Ending_example = run-Ending counting_handler rounds [] started_worker ended_worker counted

run_throws_nothing_example :
    ¬ ((run counting_handler rounds [] started_worker).0 ≡ err (thrown out_of_range))
run_throws_nothing_example =
    run_throws_nothing counting_handler rounds [] started_worker out_of_range
