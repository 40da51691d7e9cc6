-- ===== src/Client/Bench/Main/Begin.antt =====
-- What the tests of the flags leave of them.
use broadcast.Common.{
  ℕ, zero, suc, ◌+◌, ◌*◌, ◌/◌, ◌≤◌, ◌<◌, ◌≡◌, refl, ap, ◌∙◌, sym, ◌++◌, Bool-cases, inl, inr,
  ℕ-cases, ltb, [], ◌∷◌, arith, Bytes, Option, Option-cases, Error, Result, ok, err, panic,
}
use mathlib.Core.Path.{subst}
use native.Mathlib.Omega.{div_fact, mod_fact}
use native.Mathlib.Nat.{mul-zero}
use broadcast.Decimal.{format_int}
use broadcast.Common.Int.{pos_part, ℤ, pos, negsuc}
use broadcast.Client.{Client, new_client}
use broadcast.Client.Pool.{IsOwned}
use broadcast.Client.Bench.{loop_of}
use broadcast.Client.Bench.Main.{Flags, began, begin}

-- The goroutines share the requests out, but for a rest of fewer than there are goroutines.
pub record IsFair (number clients : ℤ) (loop : ℕ) : Type 0 where
  pub n : ℕ
  pub m : ℕ
  pub number_eq : number ≡ pos n
  pub clients_eq : clients ≡ pos m
  pub some_loop : 0 < loop
  pub enough : m * loop ≤ n
  pub rest : n < m * loop + m

-- A quotient of a number by one that is not greater.
quotient :
    (n m : ℕ)
    → m ≤ n
    → (0 < suc n / suc m)
      × (suc m * (suc n / suc m) ≤ suc n)
      × (suc n < suc m * (suc n / suc m) + suc m)
quotient n m l =
    let d = div_fact (suc n) m in
    let r = mod_fact (suc n) m in
    let some_quotient : 0 < suc n / suc m = elim (ℕ-cases (suc n / suc m)) [
      | inl e ↦ let z = ap (λ x. suc m * x) e in absurd (omega (arith, mul-zero (suc m)))
      | inr (k, e) ↦ omega arith
    ] in
    (some_quotient, omega arith, omega arith)

loop_of-IsFair :
    (number clients : ℤ) (loop : ℕ) → loop_of number clients ≡ ok loop → IsFair number clients loop
unfolding loop_of
loop_of-IsFair (negsuc n) clients loop h = cc
loop_of-IsFair (pos zero) clients loop h = cc
loop_of-IsFair (pos (suc n)) (negsuc m) loop h = cc
loop_of-IsFair (pos (suc n)) (pos zero) loop h = cc
loop_of-IsFair (pos (suc n)) (pos (suc m)) loop h = elim (Bool-cases (ltb n m)) [
  | inl t ↦ let e : panic ≡ ok loop = sym (rw t refl) ∙ h in cc
  | inr f ↦
      let e : ok (suc n / suc m) ≡ ok loop = sym (rw f refl) ∙ h in
      let e' : suc n / suc m ≡ loop = cc in
      let (some_loop, enough, rest) = quotient n m (ground arith) in
      record {
        n = suc n;
        m = suc m;
        number_eq = refl;
        clients_eq = refl;
        some_loop = rw (sym e') some_loop;
        enough = rw (sym e') enough;
        rest = rw (sym e') rest;
      }
]

began-ok :
    (r : Result ℕ) (c : ℕ) (r' : Result Client) (loop clients : ℕ) (client : Client)
    → began r c r' ≡ ok (loop, clients, client)
    → (r ≡ ok loop) × (c ≡ clients) × (r' ≡ ok client)
unfolding began
began-ok (ok l) c (ok k) loop clients client h = (cc, cc, cc)
began-ok (ok l) c (err e) loop clients client h = cc
began-ok (ok l) c panic loop clients client h = cc
began-ok (err e) c r' loop clients client h = cc
began-ok panic c r' loop clients client h = cc

new_client-owned :
    (resolve : Bytes → Option Error) (port : ℤ) (host : Bytes) (max_idle : ℤ) (bprotocol : Bytes)
    (client : Client)
    → new_client resolve port host max_idle bprotocol ≡ ok client
    → IsOwned (record { client = client; held = [] })
      × (client.created ≡ 0)
      × (client.max_idle ≡ max_idle)
unfolding new_client
new_client-owned resolve port host max_idle bprotocol client h =
    let addr = host ++ b':' ∷ format_int port in
    elim (Option-cases (resolve addr)) [
      | inl e ↦
          let fresh : Client = record {
            bprotocol = bprotocol;
            addr = addr;
            max_idle = max_idle;
            connections = [];
            created = 0;
          } in
          let made : ok fresh ≡ ok client = sym (rw (e, new_client) refl) ∙ h in
          let same : fresh ≡ client = cc in
          let owned : IsOwned (record { client = fresh; held = [] }) = record {
            once = λ i. ground arith;
            bounded = omega arith;
          } in
          subst
            (λ c.
              IsOwned (record { client = c; held = [] })
              × (c.created ≡ 0)
              × (c.max_idle ≡ max_idle))
            same (owned, refl, refl)
      | inr (failure, e) ↦
          let made : err failure ≡ ok client = sym (rw (e, new_client) refl) ∙ h in cc
    ]

-- What begin tells of the flags and of the client.
pub begin_sound :
    (resolve : Bytes → Option Error) (flags : Flags) (loop clients : ℕ) (client : Client)
    → begin resolve flags ≡ ok (loop, clients, client)
    → (IsFair flags.number flags.clients loop)
      × (pos_part flags.clients ≡ clients)
      × IsOwned (record { client = client; held = [] })
      × (client.created ≡ 0)
      × (client.max_idle ≡ pos 1)
unfolding begin
begin_sound resolve flags loop clients client h =
    let (l, c, k) = began-ok _ _ _ loop clients client h in
    let (owned, fresh, one) =
      new_client-owned resolve flags.port flags.ip (pos 1) flags.bprotocol client k in
    (loop_of-IsFair flags.number flags.clients loop l, c, owned, fresh, one)
