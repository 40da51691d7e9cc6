-- ===== src/Client/Bench/Race/Ends.antt =====
-- Every run of bench comes to the end of wg.Wait, whatever the scheduler does.
use broadcast.Common.{
  ℕ, zero, suc, ◌+◌, ◌*◌, ◌≤◌, ◌<◌, ◌≡◌, refl, ap, ◌∙◌, Bool, some, List, [], ◌∷◌, ◌++◌, arith, inl,
  inr, ◌⊎◌, ℕ-cases, length,
}
use broadcast.Common.Int.{ℤ, pos, pos_part}
use broadcast.Wire.{Platform}
use broadcast.Client.{ClientConnection, Network, Client}
use broadcast.Client.Pool.{IsOwned, count, count-append, shuffle-IsOwned}
use broadcast.Client.Bench.Commands.{Benchmark}
use broadcast.Client.Bench.Race.{
  Goroutine, started, holding, used, put_back, finished, Race, bench_start, next, Step, Run,
  starting, running, begun, then_step,
}
use broadcast.Client.Bench.Race.Pool.{held, left, early, active, pending, next-Keeps}

abbrev total : (Goroutine → ℕ) → List Goroutine → ℕ
total f [] = 0
total f (g ∷ gs) = f g + total f gs

total-middle :
    (f : Goroutine → ℕ) (xs ys : List Goroutine) (g : Goroutine)
    → total f (xs ++ g ∷ ys) ≡ f g + total f (xs ++ ys)
total-middle f [] ys g = refl
total-middle f (x ∷ xs) ys g = omega (arith, total-middle f xs ys g)

-- The connections that are out of the pool.
abbrev pub held_by : List Goroutine → List ClientConnection
held_by [] = []
held_by (g ∷ gs) = held g ++ held_by gs

count-held_by :
    (i : ℕ) (gs : List Goroutine) → count i (held_by gs) ≡ total (λ g. count i (held g)) gs
count-held_by i [] = refl
count-held_by i (g ∷ gs) = omega (arith, count-append i (held g) (held_by gs), count-held_by i gs)

count-middle :
    (i : ℕ) (xs ys : List Goroutine) (g : Goroutine)
    → count i (held_by (xs ++ g ∷ ys)) ≡ count i (held g ++ held_by (xs ++ ys))
count-middle i xs ys g =
    count-held_by i (xs ++ g ∷ ys)
    ∙ total-middle (λ x. count i (held x)) xs ys g
    ∙ omega (arith, count-append i (held g) (held_by (xs ++ ys)), count-held_by i (xs ++ ys))

-- What holds in a run of so many goroutines, after so many steps, for a client that had allocated so many
-- connections.
record IsSound (clients allocated : ℕ) (max_idle : ℤ) (k : ℕ) (x : Race) : Type 0 where
  pub owned : IsOwned (record { client = x.client; held = held_by x.goroutines })
  pub steps : k + (5 * x.unstarted + total left x.goroutines) ≡ 5 * clients
  pub waits : x.wait_group ≡ x.unstarted + total active x.goroutines
  pub created : x.client.created + (x.unstarted + total early x.goroutines) ≤ allocated + clients
  pub same_idle : x.client.max_idle ≡ max_idle
  pub saved :
      0 < clients
      → 0 < pos_part max_idle
      → 0 < length x.client.connections + (x.unstarted + total pending x.goroutines)

left-active_one : (g : Goroutine) → (active g ≤ left g) × (left g ≤ 4 * active g)
left-active_one started = (omega arith, omega arith)
left-active_one (holding c) = (omega arith, omega arith)
left-active_one (used r c) = (omega arith, omega arith)
left-active_one (put_back r) = (omega arith, omega arith)
left-active_one (finished r) = (omega arith, omega arith)

-- Every goroutine that is not done has a step before it, and at most four.
left-active :
    (gs : List Goroutine)
    → (total active gs ≤ total left gs) × (total left gs ≤ 4 * total active gs)
left-active [] = (omega arith, omega arith)
left-active (g ∷ gs) =
    let (l, u) = left-active gs in let (l', u') = left-active_one g in (omega arith, omega arith)

left-pending : (gs : List Goroutine) → total pending gs ≤ total left gs
left-pending [] = omega arith
left-pending (started ∷ gs) = let l = left-pending gs in omega arith
left-pending (holding c ∷ gs) = let l = left-pending gs in omega arith
left-pending (used r c ∷ gs) = let l = left-pending gs in omega arith
left-pending (put_back r ∷ gs) = let l = left-pending gs in omega arith
left-pending (finished r ∷ gs) = let l = left-pending gs in omega arith

held_by-done : (gs : List Goroutine) → total left gs ≡ 0 → held_by gs ≡ []
held_by-done [] h = refl
held_by-done (started ∷ gs) h = absurd (omega arith)
held_by-done (holding c ∷ gs) h = absurd (omega arith)
held_by-done (used r c ∷ gs) h = absurd (omega arith)
held_by-done (put_back r ∷ gs) h = absurd (omega arith)
held_by-done (finished r ∷ gs) h = held_by-done gs (omega arith)

module _ (p : Platform) (net : Network) (results n : ℕ) (pipelined : Bool) (loop : ℕ)
    (b : Benchmark) where
  Step-IsSound :
      {clients allocated k : ℕ} {max_idle : ℤ} {x y : Race}
      → Step p net results n pipelined loop b x y
      → IsSound clients allocated max_idle k x
      → IsSound clients allocated max_idle (suc k) y
  Step-IsSound {x = x} (starting m e) h = record {
    owned = h.owned;
    steps = let s = h.steps in omega arith;
    waits = let s = h.waits in omega arith;
    created = let s = h.created in omega arith;
    same_idle = h.same_idle;
    saved = λ some_clients m. let s = h.saved some_clients m in omega arith;
  }
  Step-IsSound {x = x} (running now xs ys g g' client wg e t) h =
      let parted : IsOwned (record { client = x.client; held = held g ++ held_by (xs ++ ys) }) =
        shuffle-IsOwned x.client (held_by x.goroutines) (held g ++ held_by (xs ++ ys))
          (λ i. let k = ap (λ gs. count i (held_by gs)) e in omega (arith, count-middle i xs ys g))
          h.owned in
      let s =
        next-Keeps p net results n pipelined loop b now (held_by (xs ++ ys)) g x.client x.wait_group
          (g', client, wg) parted t in
      record {
        owned =
            shuffle-IsOwned client (held g' ++ held_by (xs ++ ys)) (held_by (xs ++ g' ∷ ys))
              (λ i. omega (arith, count-middle i xs ys g')) s.owned;
        steps =
            let u = h.steps in
            let v = s.shorter in
            let w = ap (total left) e in
            omega (arith, total-middle left xs ys g, total-middle left xs ys g');
        waits =
            let u = h.waits in
            let v = s.counted in
            let w = ap (total active) e in
            omega (arith, total-middle active xs ys g, total-middle active xs ys g');
        created =
            let u = h.created in
            let v = s.allocated in
            let w = ap (total early) e in
            omega (arith, total-middle early xs ys g, total-middle early xs ys g');
        same_idle = s.same_idle ∙ h.same_idle;
        saved = λ some_clients m.
            let rest = x.unstarted + total pending (xs ++ ys) in
            let u = h.saved some_clients m in
            let w = ap (total pending) e in
            let here : 0 < length x.client.connections + (pending g + rest) =
              omega (arith, total-middle pending xs ys g) in
            let can : 0 < pos_part x.client.max_idle = rw h.same_idle m in
            let later = s.saved can rest here in omega (arith, total-middle pending xs ys g');
      }

  Run-IsSound :
      (clients : ℕ) (client : Client) {k : ℕ} {x : Race}
      → IsOwned (record { client = client; held = [] })
      → Run p net results n pipelined loop b (bench_start clients client) k x
      → IsSound clients client.created client.max_idle k x
  Run-IsSound clients client o begun = record {
    owned = o;
    steps = omega arith;
    waits = omega arith;
    created = omega arith;
    same_idle = refl;
    saved = λ some_clients m. omega arith;
  }
  Run-IsSound clients client o (then_step r s) = Step-IsSound s (Run-IsSound clients client o r)

  -- A goroutine that is not done can go on, as long as the group waits for it.
  next-some :
      (g : Goroutine) (client : Client) (wg : ℕ)
      → 0 < left g
      → 0 < wg
      → (after : Goroutine × Client × ℕ) × (next p net results n pipelined loop b 0 g client wg
          ≡ some after)
  unfolding next
  next-some started client wg l w = (_, refl)
  next-some (holding c) client wg l w = (_, refl)
  next-some (used r c) client wg l w = (_, refl)
  next-some (put_back r) client zero l w = absurd (omega arith)
  next-some (put_back r) client (suc wg) l w = (_, refl)
  next-some (finished r) client wg l w = absurd (omega arith)

  find-left :
      (gs : List Goroutine)
      → 0 < total left gs
      → (xs : List Goroutine) × (g : Goroutine) × (ys : List Goroutine) × (gs ≡ xs ++ g ∷ ys)
        × (0 < left g)
  find-left [] h = absurd (omega arith)
  find-left (started ∷ gs) h = ([], started, gs, refl, omega arith)
  find-left (holding c ∷ gs) h = ([], holding c, gs, refl, omega arith)
  find-left (used r c ∷ gs) h = ([], used r c, gs, refl, omega arith)
  find-left (put_back r ∷ gs) h = ([], put_back r, gs, refl, omega arith)
  find-left (finished r ∷ gs) h =
      let (xs, g, ys, e, l) = find-left gs (omega arith) in
      (finished r ∷ xs, g, ys, ap (λ x. finished r ∷ x) e, l)

  Step-some :
      (u : ℕ) (x : Race)
      → x.unstarted ≡ u
      → 0 < 5 * u + total left x.goroutines
      → 0 < x.wait_group
      → (y : Race) × Step p net results n pipelined loop b x y
  Step-some (suc m) x e h w = (_, starting m e)
  Step-some zero x e h w =
      let (xs, g, ys, parted, l) = find-left x.goroutines (omega arith) in
      let ((g', client, wg), t) = next-some g x.client x.wait_group l w in
      (_, running 0 xs ys g g' client wg parted t)

  -- bench comes to an end whatever the scheduler does, unless a panic ends the program: a run has at most
  -- five steps for each goroutine. As long as it has fewer the group waits, and there is a next step, so
  -- that no Done panics; after so many the group waits no more, no connection is out of the pool, and the
  -- pool holds one, which is as many as it is to hold. All along no connection is shared, no more are idle than the pool is to hold, and at most one for each
  -- goroutine is allocated. At the start all connections that are around are in the pool, and owned once.
  pub bench_ends :
      (clients : ℕ) (client : Client) {k : ℕ} {x : Race}
      → 0 < clients
      → client.max_idle ≡ pos 1
      → IsOwned (record { client = client; held = [] })
      → Run p net results n pipelined loop b (bench_start clients client) k x
      → IsOwned (record { client = x.client; held = held_by x.goroutines })
        × (x.client.max_idle ≡ pos 1)
        × (x.client.created ≤ client.created + clients)
        × (((k < 5 * clients)
              × (0 < x.wait_group)
              × ((y : Race) × Step p net results n pipelined loop b x y))
            ⊎ ((k ≡ 5 * clients)
                × (x.wait_group ≡ 0)
                × (held_by x.goroutines ≡ [])
                × (length x.client.connections ≡ 1)))
  bench_ends clients client {k} {x} some_clients one o r =
      let h = Run-IsSound clients client o r in
      let s = h.steps in
      let c = h.created in
      let w = h.waits in
      let (l, u) = left-active x.goroutines in
      let idle = h.same_idle ∙ one in
      let one_idle = ap pos_part idle in
      let at_most = h.owned.bounded in
      let kept = h.saved some_clients (rw one (omega arith)) in
      let p' = left-pending x.goroutines in
      (
        h.owned,
        idle,
        omega arith,
        elim (ℕ-cases (5 * x.unstarted + total left x.goroutines)) [
          | inl e ↦
              inr (omega arith, omega arith, held_by-done x.goroutines (omega arith), omega arith)
          | inr (m, e) ↦
              inl
                (omega arith, omega arith, Step-some x.unstarted x refl (omega arith) (omega arith))
        ],
      )
