-- ===== src/Client/Bench/Race/Alone.antt =====
-- A goroutine that runs alone.
use broadcast.Common.{ℕ, ◌≡◌, refl, Bool, Bool-cases, inl, inr, [], ◌∷◌}
use broadcast.Wire.{Platform}
use broadcast.Client.{Network, Client, get, put}
use broadcast.Client.Bench.{wait_bench, wait_bench_async}
use broadcast.Client.Bench.Commands.{Benchmark, async, run_bench}
use broadcast.Client.Bench.Race.{
  started, holding, used, put_back, finished, bench_start, work, next, Run, starting, running,
  begun, then_step,
}

module _ (p : Platform) (net : Network) (results n : ℕ) (pipelined : Bool) (loop : ℕ)
    (b : Benchmark) (now : ℕ) (client : Client) where
  run_bench-work :
      let (c, client') = get client in
      let (r, c') = work p net results n pipelined loop b c in
      run_bench p net now results n pipelined loop b client ≡ (r, put now c' client')
  unfolding run_bench work wait_bench wait_bench_async
  run_bench-work = elim (Bool-cases (async b)) [ inl h ↦ rw h refl | inr h ↦ rw h refl ]

  -- A benchmark of one client has a run of five steps that leaves the pool, and the result of the
  -- goroutine, as waitBench or waitBenchAsync does.
  pub run_bench-alone :
      let (r, client') = run_bench p net now results n pipelined loop b client in
      Run p net results n pipelined loop b
        (bench_start 1 client)
        5
        (record { client = client'; unstarted = 0; wait_group = 0; goroutines = finished r ∷ [] })
  unfolding next
  run_bench-alone =
      let (c, client') = get client in
      let (r, c') = work p net results n pipelined loop b c in
      rw run_bench-work (
        then_step
          (then_step
            (then_step
              (then_step (then_step begun (starting 0 refl))
                (running now [] [] started (holding c) client' 1 refl refl))
              (running now [] [] (holding c) (used r c') client' 1 refl refl))
            (running now [] [] (used r c') (put_back r) (put now c' client') 1 refl refl))
          (running now [] [] (put_back r) (finished r) (put now c' client') 0 refl refl))
