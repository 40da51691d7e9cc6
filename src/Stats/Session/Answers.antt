-- ===== src/Stats/Session/Answers.antt =====
-- The calls that a handler's run makes on its client: those of one reply, or none and an error that is
-- left to the protocol. What a call puts on the wire is in Protocol.Perform.
use broadcast.Common.{
  ◌≡◌, refl, sym, ◌∙◌, ap, Bool, true, false, List, [], ◌∷◌, ◌++◌, append_assoc, append-nil, Error,
  Result, ok, err, panic, All, ◌⊎◌, inl, inr, length, if◌then◌else◌,
}
use broadcast.Stats.Session.{
  ClientCall, write_len, flush, Session, Run, pure, raise, lift, method, attempt, ask, modify, zoom,
  emit, continue, ◌>>=◌, ◌>>◌,
}

-- Is the call one that writes a value, and not the head of an array or a flush? Its text may be any.
abbrev pub is_value : ClientCall → Bool
is_value (write_len prefix n) = false
is_value flush = false
is_value c = true

-- The calls of one reply: one that writes a value, or WriteLen and as many of those as it announces, and
-- then Flush.
pub data IsReplyCalls : List ClientCall → Type 0 where
  one : (c : ClientCall) → is_value c ≡ true → IsReplyCalls (c ∷ flush ∷ [])
  many :
      (cs : List ClientCall)
      → All (λ c. is_value c ≡ true) cs
      → IsReplyCalls (write_len b'*' (length cs) ∷ cs ++ flush ∷ [])

-- A run that makes no call.
pub record IsQuiet {S A : Type 0} (m : Run S A) : Type 0 where
  pub at : (s : Session S) → (m s).1.calls ≡ s.calls

-- A run that returns has made the calls of one reply, or none where that is allowed. One that fails has
-- made none.
abbrev pub HasSent : {S A : Type 0} → Bool → Session S → Result A × Session S → Type 0
HasSent silent s (ok a, s') =
    (reply : List ClientCall) × (s'.calls ≡ s.calls ++ reply)
    × (IsReplyCalls reply ⊎ ((silent ≡ true) × (reply ≡ [])))
HasSent silent s (err e, s') = s'.calls ≡ s.calls
HasSent silent s (panic, s') = s'.calls ≡ s.calls

pub record Answers {S A : Type 0} (silent : Bool) (m : Run S A) : Type 0 where
  pub at : (s : Session S) → HasSent silent s (m s)

-- Only the calls count, whatever the states are.
moved :
    {S T A : Type 0} (silent : Bool) (s s' : Session S) (t t' : Session T) (r : Result A)
    → t.calls ≡ s.calls
    → s'.calls ≡ t'.calls
    → HasSent silent t (r, t')
    → HasSent silent s (r, s')
moved silent s s' t t' (ok a) e f (reply, g, h) = (reply, f ∙ g ∙ ap (λ cs. cs ++ reply) e, h)
moved silent s s' t t' (err x) e f h = f ∙ h ∙ e
moved silent s s' t t' panic e f h = f ∙ h ∙ e

module _ {S A : Type 0} where
  pub pure-IsQuiet : (a : A) → IsQuiet {S = S} (pure a)
  unfolding pure
  pure-IsQuiet a = record { at = λ s. refl }

  pub lift-IsQuiet : (r : Result A) → IsQuiet {S = S} (lift r)
  unfolding lift
  lift-IsQuiet r = record { at = λ s. refl }

  pub method-IsQuiet : (m : S → Result A × S) → IsQuiet (method m)
  unfolding method
  method-IsQuiet m = record { at = λ s. refl }

  pub attempt-IsQuiet : (m : Run S A) → IsQuiet m → IsQuiet (attempt m)
  unfolding attempt
  attempt-IsQuiet m q = record { at = q.at }

  pub ask-IsQuiet : (f : S → A) → IsQuiet (ask f)
  unfolding ask
  ask-IsQuiet f = record { at = λ s. refl }

  pub modify-IsQuiet : (f : S → A × S) → IsQuiet (modify f)
  unfolding modify
  modify-IsQuiet f = record { at = λ s. refl }

  -- What sends nothing answers where that is allowed.
  quiet_sent : (s s' : Session S) (r : Result A) → s'.calls ≡ s.calls → HasSent true s (r, s')
  quiet_sent s s' (ok a) q = ([], q ∙ sym (append-nil s.calls), inr (refl, refl))
  quiet_sent s s' (err e) q = q
  quiet_sent s s' panic q = q

  pub IsQuiet-Answers : (m : Run S A) → IsQuiet m → Answers true m
  IsQuiet-Answers m q = record { at = λ s. quiet_sent s (m s).1 (m s).0 (q.at s) }

  pub raise-Answers : (silent : Bool) (e : Error) → Answers {S = S} {A = A} silent (raise e)
  unfolding raise
  raise-Answers silent e = record { at = λ s. refl }

  pub panic-Answers : (silent : Bool) → Answers {S = S} {A = A} silent (lift panic)
  unfolding lift
  panic-Answers silent = record { at = λ s. refl }

  pub if-Answers :
      (silent b : Bool) (m n : Run S A)
      → Answers silent m
      → Answers silent n
      → Answers silent (if b then m else n)
  if-Answers silent true m n k l = k
  if-Answers silent false m n k l = l

  pub if-IsQuiet : (b : Bool) (m n : Run S A) → IsQuiet m → IsQuiet n → IsQuiet (if b then m else n)
  if-IsQuiet true m n k l = k
  if-IsQuiet false m n k l = l

module _ {S A B : Type 0} where
  continue-IsQuiet :
      (r : Result A) (f : A → Run S B) (s : Session S)
      → ((a : A) → IsQuiet (f a))
      → (continue r f s).1.calls ≡ s.calls
  continue-IsQuiet (ok a) f s k = (k a).at s
  continue-IsQuiet (err e) f s k = refl
  continue-IsQuiet panic f s k = refl

  pub >>=-IsQuiet :
      (m : Run S A) (f : A → Run S B) → IsQuiet m → ((a : A) → IsQuiet (f a)) → IsQuiet (m >>= f)
  >>=-IsQuiet m f q k = record { at = λ s. continue-IsQuiet (m s).0 f (m s).1 k ∙ q.at s }

  continue-Answers :
      (silent : Bool) (r : Result A) (f : A → Run S B) (s : Session S)
      → ((a : A) → Answers silent (f a))
      → HasSent silent s (continue r f s)
  continue-Answers silent (ok a) f s k = (k a).at s
  continue-Answers silent (err e) f s k = refl
  continue-Answers silent panic f s k = refl

  -- A run that sends nothing, and one that answers.
  pub >>=-Answers :
      (silent : Bool) (m : Run S A) (f : A → Run S B)
      → IsQuiet m
      → ((a : A) → Answers silent (f a))
      → Answers silent (m >>= f)
  >>=-Answers silent m f q k = record {
    at = λ s.
        let r = continue (m s).0 f (m s).1 in
        moved silent s r.1 (m s).1 r.1 r.0 (q.at s) refl
          (continue-Answers silent (m s).0 f (m s).1 k);
  }

module _ {S : Type 0} where
  pub one_call-Answers :
      (silent : Bool) (c : ClientCall)
      → is_value c ≡ true
      → Answers {S = S} silent (do emit c; emit flush)
  unfolding emit
  one_call-Answers silent c v = record {
    at = λ s. (c ∷ flush ∷ [], append_assoc s.calls (c ∷ []) (flush ∷ []), inl (one c v));
  }

  pub zoom-Answers :
      {T A : Type 0} (silent : Bool) (get : S → T) (put : T → S → S) (m : Run T A)
      → Answers silent m
      → Answers silent (zoom get put m)
  unfolding zoom
  zoom-Answers {T} {A} silent get put m k = record {
    at = λ s.
        let t : Session T = record { state = get s.state; calls = s.calls } in
        moved silent s (zoom get put m s).1 t (m t).1 (m t).0 refl refl (k.at t);
  }
