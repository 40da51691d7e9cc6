-- ===== src/Server/Life/Sane.antt =====
-- What every step of a server keeps, and how it changes the count of the clients.
use broadcast.Common.{
  ℕ, ◌+◌, ◌≡◌, refl, sym, ◌∙◌, ap, none, some, true, false, List, arith, Bytes, ok, panic, length,
  inl, inr, ◌⊎◌, Bool-cases, Option-cases,
}
use broadcast.Common.Int.{ℤ, pos, ◌+ℤ◌, ◌-ℤ◌}
use broadcast.Dict.{lookup, has, insert, remove, has-lookup}
use broadcast.Dict.Distinct.{
  IsDistinct, insert-IsDistinct, remove-IsDistinct, length-insert, length-remove,
}
use broadcast.Server.{NetworkClient, new_client, accept, exited}
use broadcast.Server.Life.{
  Life, Accepting, Event, checking, check, accept_tcp, handle_connection, end_client, close,
}
use broadcast.Server.Life.Steps.{
  Step, looping, arriving, refusing, handling, ending, exiting, closing,
}
use broadcast.Server.Life.Closing.{
  AllTwin, AllLoaded, any_ended, shut, closed_life, close-open, close_client-twin,
}
use broadcast.Server.Life.Clients.{
  insert-AllTwin, remove-AllTwin, lookup-IsTwin, shut_all-IsDistinct, shut_all-AllTwin,
}

pub record IsSane (life : Life) : Type 0 where
  pub distinct : IsDistinct life.server.clients
  pub twins : AllTwin life.server.clients
  pub loaded : life.server.is_closed ≡ false → AllLoaded life.backends
  pub quit : life.server.is_closed ≡ false → life.quit_open ≡ true

-- The count is that of the connected clients, less so many.
abbrev pub IsLess : ℕ → Life → Type 0
IsLess gone life = life.server.client_size ≡ pos (length life.server.clients) -ℤ pos gone

pub record Kept (life life' : Life) : Type 0 where
  pub sane : IsSane life'
  pub same_state : life'.server.is_closed ≡ life.server.is_closed
  pub same_quit : life'.quit_open ≡ life.quit_open
  pub less : (gone : ℕ) → IsLess gone life → IsLess gone life'

pub ok-same : {A : Type 0} {a b : A} → ok a ≡ ok b → a ≡ b
ok-same e = cc

-- The loop of AcceptConnections changes only where it stands, and what was sent.
pub loop-Kept :
    (life : Life) (a : Accepting) (es : List Event)
    → IsSane life
    → Kept life (record life { accepting = a; events = es })
loop-Kept life a es h = record {
  sane = record { distinct = h.distinct; twins = h.twins; loaded = h.loaded; quit = h.quit };
  same_state = refl;
  same_quit = refl;
  less = λ gone l. l;
}

same-Kept : (life : Life) → IsSane life → Kept life life
same-Kept life h = record { sane = h; same_state = refl; same_quit = refl; less = λ gone l. l }

one_more : (n gone : ℕ) → (pos n -ℤ pos gone) +ℤ pos 1 ≡ pos (n + 1) -ℤ pos gone
unfolding ◌+ℤ◌ ◌-ℤ◌
one_more n gone = ground arith

one_less : (n gone : ℕ) → (pos (n + 1) -ℤ pos gone) -ℤ pos 1 ≡ pos n -ℤ pos gone
unfolding ◌-ℤ◌
one_less n gone = ground arith

accept-Kept :
    (id : Bytes) (life : Life)
    → has id life.server.clients ≡ false
    → IsSane life
    → Kept life (handle_connection none id life)
unfolding handle_connection accept
accept-Kept id life new h =
    let size : length (insert id new_client life.server.clients) ≡ length life.server.clients + 1 =
      ground (arith, new, length-insert id new_client life.server.clients) in
    record {
      sane = record {
        distinct = insert-IsDistinct id new_client life.server.clients h.distinct;
        twins =
            insert-AllTwin id new_client life.server.clients
              (record { conn = refl; channels = refl }) h.twins;
        loaded = h.loaded;
        quit = h.quit;
      };
      same_state = refl;
      same_quit = refl;
      less = λ gone l.
          ap (λ (z : ℤ). z +ℤ pos 1) l
          ∙ one_more (length life.server.clients) gone
          ∙ ap (λ (n : ℕ). pos n -ℤ pos gone) (sym size);
    }

exited-Kept :
    (id : Bytes) (c : NetworkClient) (life : Life)
    → lookup id life.server.clients ≡ some c
    → IsSane life
    → Kept life (record life { server = exited id life.server })
unfolding exited
exited-Kept id c life there h =
    let one = length-remove id life.server.clients h.distinct in
    let here = has-lookup id life.server.clients c there in
    let size : length life.server.clients ≡ length (remove id life.server.clients) + 1 =
      ground (arith, one, here) in
    record {
      sane = record {
        distinct = remove-IsDistinct id life.server.clients h.distinct;
        twins = remove-AllTwin id life.server.clients h.twins;
        loaded = h.loaded;
        quit = h.quit;
      };
      same_state = refl;
      same_quit = refl;
      less = λ gone l.
          ap (λ (z : ℤ). z -ℤ pos 1) l
          ∙ ap (λ (n : ℕ). (pos n -ℤ pos gone) -ℤ pos 1) size
          ∙ one_less (length (remove id life.server.clients)) gone;
    }

-- The life behind the end of a client that is there.
abbrev pub shut_client : Bytes → NetworkClient → Life → Life
shut_client id c life = record life {
  server = record life.server { clients = insert id (shut c) life.server.clients };
}

shut_client-Kept :
    (id : Bytes) (c : NetworkClient) (life : Life)
    → lookup id life.server.clients ≡ some c
    → IsSane life
    → Kept life (shut_client id c life)
shut_client-Kept id c life there h =
    let twin = lookup-IsTwin id c life.server.clients h.twins there in
    let here = has-lookup id life.server.clients c there in
    let size : length (insert id (shut c) life.server.clients) ≡ length life.server.clients =
      ground (arith, here, length-insert id (shut c) life.server.clients) in
    record {
      sane = record {
        distinct = insert-IsDistinct id (shut c) life.server.clients h.distinct;
        twins =
            insert-AllTwin id (shut c) life.server.clients
              (record { conn = twin.conn; channels = refl }) h.twins;
        loaded = h.loaded;
        quit = h.quit;
      };
      same_state = refl;
      same_quit = refl;
      less = λ gone l. l ∙ ap (λ (n : ℕ). pos n -ℤ pos gone) (sym size);
    }

-- An end that does not panic is that of a client that is there.
pub end_client-shut :
    (id : Bytes) (life life' : Life)
    → end_client id life ≡ ok life'
    → IsSane life
    → (c : NetworkClient) × (lookup id life.server.clients ≡ some c)
      × (life' ≡ shut_client id c life)
unfolding end_client
end_client-shut id life life' run h = elim (Option-cases (lookup id life.server.clients)) [
  | inl e ↦ let dies : end_client id life ≡ panic = rw (end_client, e) refl in cc
  | inr (c, e) ↦
      let twin = close_client-twin c (lookup-IsTwin id c life.server.clients h.twins e) in
      elim (Bool-cases c.quit_open) [
        | inl f ↦
            let ends : end_client id life ≡ ok (shut_client id c life) =
              rw (end_client, e, twin, f) refl in
            (c, e, ok-same (sym run ∙ ends))
        | inr f ↦ let dies : end_client id life ≡ panic = rw (end_client, e, twin, f) refl in cc
      ]
]

end_client-Kept :
    (id : Bytes) (life life' : Life) → end_client id life ≡ ok life' → IsSane life → Kept life life'
end_client-Kept id life life' run h =
    let (c, e, p) = end_client-shut id life life' run h in rw p (shut_client-Kept id c life e h)

pub closed_life-IsSane : (life : Life) → IsSane life → IsSane (closed_life life)
closed_life-IsSane life h = record {
  distinct = shut_all-IsDistinct life.server.clients h.distinct;
  twins = shut_all-AllTwin life.server.clients h.twins;
  loaded = λ e. cc;
  quit = λ e. cc;
}

-- A step keeps the state, or it is the Close of a server that is listening.
pub Step-cases :
    {life life' : Life}
    → IsSane life
    → Step life life'
    → Kept life life' ⊎ ((life.server.is_closed ≡ false) × (life' ≡ closed_life life))
unfolding check accept_tcp handle_connection close
Step-cases {life} h (looping e) = inl (loop-Kept life (check life).accepting life.events h)
Step-cases {life} h (arriving id e o) =
    inl (loop-Kept life (accept_tcp (inl id) life).accepting life.events h)
Step-cases {life} h (refusing e w) =
    inl (loop-Kept life checking (accept_tcp (inr e) life).events h)
Step-cases {life} h (handling none id w new) = inl (accept-Kept id life new h)
Step-cases {life} h (handling (some e) id w new) =
    inl (loop-Kept life checking (handle_connection (some e) id life).events h)
Step-cases {life} h (ending id {life'} run) = inl (end_client-Kept id life life' run h)
Step-cases {life} h (exiting id c there gone) = inl (exited-Kept id c life there h)
Step-cases {life} h (closing {life'} run) = elim (Bool-cases life.server.is_closed) [
  | inl e ↦
      let again : close life ≡ ok life = rw e refl in
      let p : life' ≡ life = ok-same (sym run ∙ again) in inl (rw p (same-Kept life h))
  | inr e ↦
      let shape =
        close-open life
          (record { serving = e; twins = h.twins; loaded = h.loaded e; quit = h.quit e }) in
      elim (Bool-cases (any_ended life.server.clients)) [
        | inl f ↦ let p : life' ≡ closed_life life = cc in inr (e, p)
        | inr f ↦
            let closes : close life ≡ ok (closed_life life) = rw (shape, f) refl in
            inr (e, ok-same (sym run ∙ closes))
      ]
]
