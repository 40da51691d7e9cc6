-- ===== src/App/Replies.antt =====
-- The calls that the server makes on a redis client that waits for replies: those of one reply for each
-- request, in order.
use broadcast.Common.{
  ℕ, suc, ◌≡◌, refl, sym, ◌∙◌, ap, none, some, Bool, true, false, not, List, [], ◌∷◌, ◌++◌,
  append_assoc, append-nil, arith, Bytes, codes, All, same, inl, inr, Bool-cases, Option-cases,
  if◌then◌else◌, length, Result, ok, err, panic,
}
use broadcast.Common.Int.{ℤ}
use broadcast.Dict.{lookup}
use broadcast.Wire.{Platform}
use broadcast.Wire.Bulk.{IsRequest}
use broadcast.Server.{BroadcastServerStatus}
use broadcast.Server.Context.{BroadcastContext}
use broadcast.Stats.Session.{bulk, Session, ClientCall, flush, write_failure, write_string}
use broadcast.Stats.Session.Answers.{IsReplyCalls, one, HasSent}
use broadcast.Protocol.{
  Conn, Reply, Protocol, success, failed, panicked, fallen, is_quit, after_data, handled,
  run_client, close, complain, say,
}
use broadcast.Protocol.Request.{handle_bulk, redis, apart}
use broadcast.Protocol.Pipeline.{requests, execute, run_client-requests}
use broadcast.App.{App, Configuration, context}
use broadcast.App.Answers.{IsTrue, context-IsTrue}

-- Is the client to wait for a reply to this request?
unfoldable pub is_awaited : Platform → BroadcastContext App → List Bytes → Bool
is_awaited p ctx [] = true
is_awaited p ctx (name ∷ d) = elim (lookup (p.upper name) ctx.command_help) [
  | none ↦ true
  | some i ↦ not i.fire_forget
]

-- How many of the requests are answered: those up to one that quits, or before one that panics.
unfoldable pub answered : {S D : Type 0} → Protocol S D → List D → Conn S → ℕ
answered proto [] c = 0
answered proto (d ∷ ds) c =
    let (reply, c') = handled proto d c in
    elim reply [
      | success ↦ suc (answered proto ds c')
      | failed e ↦ if is_quit e then 1 else suc (answered proto ds (complain e c'))
      | panicked ↦ 0
      | fallen ↦ 0
    ]

abbrev pub concat : List (List ClientCall) → List ClientCall
concat [] = []
concat (r ∷ rs) = r ++ concat rs

-- The calls of so many replies have been made on a connection.
pub record Replied {S : Type 0} (before after : Conn S) (n : ℕ) : Type 0 where
  pub replies : List (List ClientCall)
  pub calls : after.session.calls ≡ before.session.calls ++ concat replies
  pub each : All IsReplyCalls replies
  pub count : length replies ≡ n

module _ {S : Type 0} where
  none-Replied : (c after : Conn S) → after.session.calls ≡ c.session.calls → Replied c after 0
  none-Replied c after e = record {
    replies = [];
    calls = e ∙ sym (append-nil c.session.calls);
    each = tt;
    count = refl;
  }

  -- One reply, and those that come behind it.
  then-Replied :
      (c c' after : Conn S) (n : ℕ) (reply : List ClientCall)
      → c'.session.calls ≡ c.session.calls ++ reply
      → IsReplyCalls reply
      → Replied c' after n
      → Replied c after (suc n)
  then-Replied c c' after n reply e h r = record {
    replies = reply ∷ r.replies;
    calls =
        r.calls
        ∙ ap (λ cs. cs ++ concat r.replies) e
        ∙ append_assoc c.session.calls reply (concat r.replies);
    each = (h, r.each);
    count = ap suc r.count;
  }

-- What a request has sent when handleData ends.
abbrev Sent : {S : Type 0} → Session S → Reply × Session S → Type 0
Sent s (success, s') =
    (reply : List ClientCall) × (s'.calls ≡ s.calls ++ reply) × IsReplyCalls reply
Sent s (failed e, s') = s'.calls ≡ s.calls
Sent s (panicked, s') = s'.calls ≡ s.calls
Sent s (fallen, s') = s'.calls ≡ s.calls

apart-Sent :
    {S : Type 0} (s s' : Session S) (r : Result (Unit {0}))
    → HasSent false s (r, s')
    → Sent s (apart r, s')
apart-Sent s s' (ok tt) (reply, e, inl h) = (reply, e, h)
apart-Sent s s' (ok tt) (reply, e, inr (f, g)) = cc
apart-Sent s s' (err e) h = h
apart-Sent s s' panic h = h

module _ (p : Platform) (ctx : BroadcastContext App) where
  handle_bulk-Sent :
      (r : List Bytes) (s : Session App)
      → IsTrue ctx
      → is_awaited p ctx r ≡ true
      → Sent s (handle_bulk p ctx.commands r s)
  unfolding handle_bulk
  handle_bulk-Sent [] s t w = refl
  handle_bulk-Sent (name ∷ d) s t w = elim (Bool-cases (same (p.upper name) (codes "QUIT"))) [
    | inl q ↦ rw q refl
    | inr q ↦ elim (Option-cases (lookup (p.upper name) ctx.commands)) [
      | inl e ↦ rw (q, e) refl
      | inr (h, e) ↦
          let (i, there, answers) = t.at (p.upper name) h e in
          let waits : i.fire_forget ≡ false = unfold is_awaited in ground arith in
          let sent : HasSent false s (h (bulk d) s) = rw (← waits) ((answers (bulk d)).at s) in
          rw (q, e) (apart-Sent s (h (bulk d) s).1 (h (bulk d) s).0 sent)
    ]
  ]

  after-Replied :
      (reply : Reply) (s' : Session App) (c : Conn App) (next : Conn App → Conn App)
      (n : Conn App → ℕ)
      → Sent c.session (reply, s')
      → ((c' : Conn App) → Replied c' (next c') (n c'))
      → let c' = record c { session = s' } in
        Replied c (after_data (redis p ctx.commands).farewell reply c' next) (elim reply [
          | success ↦ suc (n c')
          | failed e ↦ if is_quit e then 1 else suc (n (complain e c'))
          | panicked ↦ 0
          | fallen ↦ 0
        ])
  unfolding after_data
  after-Replied success s' c next n (reply, e, h) k =
      let c' : Conn App = record c { session = s' } in
      then-Replied c c' (next c') (n c') reply e h (k c')
  after-Replied (failed x) s' c next n e k =
      let c' : Conn App = record c { session = s' } in
      elim (Bool-cases (is_quit x)) [
        | inl q ↦
            let bye = write_string (codes "OK") ∷ flush ∷ [] in
            let said : Conn App = record c' { session = say bye s' } in
            rw q (
              then-Replied c said (close said) 0 bye (ap (λ cs. cs ++ bye) e) (one _ refl)
                (none-Replied said (close said) refl))
        | inr q ↦
            let reply = write_failure x ∷ flush ∷ [] in
            rw q (
              then-Replied c (complain x c') (next (complain x c')) (n (complain x c')) reply
                (ap (λ cs. cs ++ reply) e) (one _ refl) (k (complain x c')))
      ]
  after-Replied panicked s' c next n e k = none-Replied c _ e
  after-Replied fallen s' c next n e k = none-Replied c _ e

  execute-Replied :
      (rs : List (List Bytes)) (c : Conn App)
      → IsTrue ctx
      → All (λ r. is_awaited p ctx r ≡ true) rs
      → Replied c (execute p ctx.commands rs c) (answered (redis p ctx.commands) rs c)
  unfolding answered handled
  execute-Replied [] c t ws = none-Replied c _ refl
  execute-Replied (r ∷ rs) c t (w, ws) =
      let x = handle_bulk p ctx.commands r c.session in
      after-Replied x.0 x.1 c (execute p ctx.commands rs) (answered (redis p ctx.commands) rs)
        (handle_bulk-Sent r c.session t w) (λ c'. execute-Replied rs c' t ws)

module _ (p : Platform) (per_second : ℤ → ℕ → ℕ → ℕ) (runtime : BroadcastServerStatus) where
  -- On the requests of a redis client, each of arguments that can be allocated and of a command that is not
  -- announced as one that is not waited for, the server makes the calls of one reply on the client for each
  -- request that it answers, in order and no other calls, whatever backends are enabled: a call that
  -- writes a value, or WriteLen and as many such calls as it announces, and then Flush. It answers all the
  -- requests up to the first that quits, or before the first that panics. The texts of the calls may be
  -- any, and what they put on the wire is not part of this (it is in App.Reads).
  pub one_reply_each :
      (cfg : Configuration) (id : Bytes) (rs : List (List Bytes)) (c : Conn App)
      → All IsRequest rs
      → All (λ r. is_awaited p (context p per_second runtime cfg id) r ≡ true) rs
      → let ctx = context p per_second runtime cfg id in
        Replied c
          (run_client (redis p ctx.commands) (requests rs) c)
          (answered (redis p ctx.commands) rs c)
  one_reply_each cfg id rs c fits ws =
      let ctx = context p per_second runtime cfg id in
      rw (run_client-requests p ctx.commands rs c fits)
        (execute-Replied p ctx rs c (context-IsTrue p per_second runtime cfg id) ws)
