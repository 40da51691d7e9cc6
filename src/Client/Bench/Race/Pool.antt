-- ===== src/Client/Bench/Race/Pool.antt =====
-- What a goroutine of bench does with the connections of the pool, whatever its requests are.
use broadcast.Common.{
  ℕ, zero, suc, ◌<◌, length, if◌then◌else◌, ◌+◌, ◌≤◌, ◌≡◌, refl, ◌∙◌, Bool, Bool-cases, inl, inr,
  true, false, Option, none, some, List, [], ◌∷◌, ◌++◌, arith, Bytes, Result, ok, err, panic,
}
use mathlib.Core.Path.{subst}
use broadcast.Common.Int.{pos_part}
use broadcast.Wire.{Value, Platform}
use broadcast.Client.{ClientConnection, Network, Client, read, get_from, get, put, do'}
use broadcast.Client.Pool.{
  IsOwned, then_do-id, do_async-id, do'-id, read_from-id, get-IsOwned, put-IsOwned, shuffle-IsOwned,
}
use broadcast.Client.Bench.{ignoring, error_of, read_each, send_each, do_each, requests}
use broadcast.Client.Bench.Commands.{Benchmark, async, command}
use broadcast.Client.Bench.Race.{Goroutine, started, holding, used, put_back, finished, work, next}

ignoring-id : (x : Result Value × ClientConnection) → (ignoring x).1.id ≡ x.1.id
ignoring-id (ok v, c) = refl
ignoring-id (err e, c) = refl
ignoring-id (panic, c) = refl

pub error_of-id : (x : Result Value × ClientConnection) → (error_of x).1.id ≡ x.1.id
error_of-id (ok v, c) = refl
error_of-id (err e, c) = refl
error_of-id (panic, c) = refl

read_each-id : (p : Platform) (loop : ℕ) (c : ClientConnection) → (read_each p loop c).1.id ≡ c.id
unfolding read_each read
read_each-id p zero c = refl
read_each-id p (suc loop) c =
    then_do-id c.id (ignoring (read p c)) (read_each p loop)
      (ignoring-id (read p c) ∙ read_from-id p c.net_client c) (read_each-id p loop)

module _ (p : Platform) (net : Network) (cmd : Bytes) (args : List Value) where
  send_each-id : (loop : ℕ) (c : ClientConnection) → (send_each p net cmd args loop c).1.id ≡ c.id
  unfolding send_each
  send_each-id zero c = refl
  send_each-id (suc loop) c =
      then_do-id c.id _ (send_each p net cmd args loop) (do_async-id p net cmd args c)
        (send_each-id loop)

  do_each-id : (loop : ℕ) (c : ClientConnection) → (do_each p net cmd args loop c).1.id ≡ c.id
  unfolding do_each
  do_each-id zero c = refl
  do_each-id (suc loop) c =
      then_do-id c.id _ (do_each p net cmd args loop)
        (error_of-id (do' p net cmd args c) ∙ do'-id p net cmd args c) (do_each-id loop)

  requests-id :
      (pipelined : Bool) (loop : ℕ) (c : ClientConnection)
      → (requests p net cmd args pipelined loop c).1.id ≡ c.id
  unfolding requests
  requests-id true loop c =
      then_do-id c.id _ (read_each p loop) (send_each-id loop c) (read_each-id p loop)
  requests-id false loop c = do_each-id loop c

-- The connections that a goroutine has out of the pool.
abbrev pub held : Goroutine → List ClientConnection
held started = []
held (holding c) = c ∷ []
held (used r c) = c ∷ []
held (put_back r) = []
held (finished r) = []

-- How many steps a goroutine has before it, whether it has not called Get yet, and whether the group
-- waits for it.
abbrev pub left : Goroutine → ℕ
left started = 4
left (holding c) = 3
left (used r c) = 2
left (put_back r) = 1
left (finished r) = 0

abbrev pub early : Goroutine → ℕ
early started = 1
early (holding c) = 0
early (used r c) = 0
early (put_back r) = 0
early (finished r) = 0

abbrev pub active : Goroutine → ℕ
active started = 1
active (holding c) = 1
active (used r c) = 1
active (put_back r) = 1
active (finished r) = 0

-- Whether CloseConnection is still to come.
abbrev pub pending : Goroutine → ℕ
pending started = 1
pending (holding c) = 1
pending (used r c) = 1
pending (put_back r) = 0
pending (finished r) = 0

get_from-max_idle :
    (cs : List ClientConnection) (client : Client)
    → (get_from cs client).1.max_idle ≡ client.max_idle
unfolding get_from
get_from-max_idle [] client = refl
get_from-max_idle (c ∷ cs) client = refl

pub get-max_idle : (client : Client) → (get client).1.max_idle ≡ client.max_idle
unfolding get
get-max_idle client = get_from-max_idle client.connections client

put-if :
    (b : Bool) (client client' : Client)
    → client'.max_idle ≡ client.max_idle
    → (if b then client else client').max_idle ≡ client.max_idle
put-if true client client' h = refl
put-if false client client' h = h

pub put-max_idle :
    (now : ℕ) (c : ClientConnection) (client : Client)
    → (put now c client).max_idle ≡ client.max_idle
unfolding put
put-max_idle now c client = put-if _ client _ refl

-- After CloseConnection a pool that is to hold a connection holds one.
put-saved :
    (now : ℕ) (c : ClientConnection) (client : Client)
    → 0 < pos_part client.max_idle
    → 0 < length (put now c client).connections
unfolding put
put-saved now c client h = ground arith

pub get_from-created :
    (cs : List ClientConnection) (client : Client)
    → (get_from cs client).1.created ≤ suc client.created
unfolding get_from
get_from-created [] client = omega arith
get_from-created (c ∷ cs) client = omega arith

module _ (p : Platform) (net : Network) (results n : ℕ) (pipelined : Bool) (loop : ℕ)
    (b : Benchmark) where
  work-id : (c : ClientConnection) → (work p net results n pipelined loop b c).1.id ≡ c.id
  unfolding work
  work-id c =
      let (cmd, args) = command results n b in
      elim (Bool-cases (async b)) [
        | inl h ↦ rw h (send_each-id p net cmd args loop c)
        | inr h ↦ rw h (requests-id p net cmd args pipelined loop c)
      ]

  -- What a step of a goroutine keeps: the pool owns its connections, the group counts the goroutines
  -- that are not done, and a connection is allocated by Get alone.
  pub record Keeps (others : List ClientConnection) (g : Goroutine) (client : Client) (wg : ℕ)
      (after : Goroutine × Client × ℕ) : Type 0 where
    pub owned : IsOwned (record { client = after.1; held = held after.0 ++ others })
    pub shorter : left g ≡ suc (left after.0)
    pub counted : active g + after.2 ≡ active after.0 + wg
    pub allocated : after.1.created + early after.0 ≤ client.created + early g
    pub same_idle : after.1.max_idle ≡ client.max_idle
    -- A connection is in the pool, or comes back.
    pub saved :
        0 < pos_part client.max_idle
        → (rest : ℕ) → 0 < length client.connections + (pending g + rest)
        → 0 < length after.1.connections + (pending after.0 + rest)

  -- What holds of the value of an option.
  abbrev Each : {A : Type 0} → (A → Type 0) → Option A → Type 0
  Each P none = Unit
  Each P (some a) = P a

  next-Each :
      (now : ℕ) (others : List ClientConnection) (g : Goroutine) (client : Client) (wg : ℕ)
      → IsOwned (record { client = client; held = held g ++ others })
      → Each (Keeps others g client wg) (next p net results n pipelined loop b now g client wg)
  unfolding next get put
  next-Each now others started client wg h = record {
    owned = get-IsOwned client others h;
    shorter = refl;
    counted = refl;
    allocated = let k = get_from-created client.connections client in omega arith;
    same_idle = get-max_idle client;
    saved = λ m rest k. omega arith;
  }
  next-Each now others (holding c) client wg h = record {
    owned =
        shuffle-IsOwned client (c ∷ others) ((work p net results n pipelined loop b c).1 ∷ others)
          (λ i. rw (work-id c) (omega arith)) h;
    shorter = refl;
    counted = refl;
    allocated = omega arith;
    same_idle = refl;
    saved = λ m rest k. omega arith;
  }
  next-Each now others (used r c) client wg h = record {
    owned = put-IsOwned now c client others h;
    shorter = refl;
    counted = refl;
    allocated = ground arith;
    same_idle = put-max_idle now c client;
    saved = λ m rest k. let l = put-saved now c client m in omega arith;
  }
  next-Each now others (put_back r) client zero h = tt
  next-Each now others (put_back r) client (suc wg) h = record {
    owned = h;
    shorter = refl;
    counted = omega arith;
    allocated = omega arith;
    same_idle = refl;
    saved = λ m rest k. k;
  }
  next-Each now others (finished r) client wg h = tt

  pub next-Keeps :
      (now : ℕ) (others : List ClientConnection) (g : Goroutine) (client : Client) (wg : ℕ)
      (after : Goroutine × Client × ℕ)
      → IsOwned (record { client = client; held = held g ++ others })
      → next p net results n pipelined loop b now g client wg ≡ some after
      → Keeps others g client wg after
  next-Keeps now others g client wg after h e =
      subst (Each (Keeps others g client wg)) e (next-Each now others g client wg h)
