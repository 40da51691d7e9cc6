-- ===== src/Stats/Session/Keeps.antt =====
-- Runs that keep a property of the state, and what their results satisfy.
use broadcast.Common.{Error, Result, ok, err, panic, Bool, true, false, if◌then◌else◌}
use broadcast.Stats.Session.{
  ClientCall, Session, Run, pure, raise, lift, method, attempt, ask, modify, zoom, emit, continue,
  ◌>>=◌,
}

-- A result that is a value satisfies the predicate.
abbrev pub OnOk : {A : Type 0} → (A → Type 0) → Result A → Type 0
OnOk Q (ok a) = Q a
OnOk Q (err e) = Unit
OnOk Q panic = Unit

abbrev pub Anything : {A : Type 0} → A → Type 0
Anything a = Unit

-- From a state with `P` the run ends in one, and its result, if it is a value, satisfies `Q`.
pub record Keeps {S A : Type 0} (P : S → Type 0) (Q : A → Type 0) (m : Run S A) : Type 0 where
  pub at : (s : Session S) → P s.state → P (m s).1.state × OnOk Q (m s).0

module _ {S : Type 0} (P : S → Type 0) where
  module _ {A : Type 0} (Q : A → Type 0) where
    pub pure-Keeps : (a : A) → Q a → Keeps P Q (pure a)
    unfolding pure
    pure-Keeps a q = record { at = λ s h. (h, q) }

    pub raise-Keeps : (e : Error) → Keeps P Q (raise e)
    unfolding raise
    raise-Keeps e = record { at = λ s h. (h, tt) }

    pub lift-Keeps : (r : Result A) → OnOk Q r → Keeps P Q (lift r)
    unfolding lift
    lift-Keeps r q = record { at = λ s h. (h, q) }

    -- A method that keeps the property, whatever it returns.
    pub method-Keeps :
        (m : S → Result A × S) → ((s : S) → P s → P (m s).1 × OnOk Q (m s).0) → Keeps P Q (method m)
    unfolding method
    method-Keeps m keeps = record { at = λ s h. keeps s.state h }

    pub attempt-Keeps : (m : Run S A) → Keeps P Q m → Keeps P (OnOk Q) (attempt m)
    unfolding attempt
    attempt-Keeps m k = record { at = λ s h. k.at s h }

  pub ask-Keeps : {A : Type 0} (f : S → A) → Keeps P Anything (ask f)
  unfolding ask
  ask-Keeps f = record { at = λ s h. (h, tt) }

  pub modify-Keeps :
      {A : Type 0} (f : S → A × S) → ((s : S) → P s → P (f s).1) → Keeps P Anything (modify f)
  unfolding modify
  modify-Keeps f keeps = record { at = λ s h. (keeps s.state h, tt) }

  pub emit-Keeps : (c : ClientCall) → Keeps P Anything (emit c)
  unfolding emit
  emit-Keeps c = record { at = λ s h. (h, tt) }

  module _ {A B : Type 0} (Q : A → Type 0) (R : B → Type 0) where
    continue-Keeps :
        (r : Result A) (f : A → Run S B) (s : Session S)
        → P s.state
        → OnOk Q r
        → ((a : A) → Q a → Keeps P R (f a))
        → P (continue r f s).1.state × OnOk R (continue r f s).0
    continue-Keeps (ok a) f s h q k = (k a q).at s h
    continue-Keeps (err e) f s h q k = (h, tt)
    continue-Keeps panic f s h q k = (h, tt)

    pub >>=-Keeps :
        (m : Run S A) (f : A → Run S B)
        → Keeps P Q m
        → ((a : A) → Q a → Keeps P R (f a))
        → Keeps P R (m >>= f)
    >>=-Keeps m f k l = record {
      at = λ s h. let (kept, q) = k.at s h in continue-Keeps (m s).0 f (m s).1 kept q l;
    }

  pub if-Keeps :
      {A : Type 0} (Q : A → Type 0) (b : Bool) (m n : Run S A)
      → Keeps P Q m
      → Keeps P Q n
      → Keeps P Q (if b then m else n)
  if-Keeps Q true m n k l = k
  if-Keeps Q false m n k l = l

pub zoom-Keeps :
    {S T A : Type 0} (P : S → Type 0) (R : T → Type 0) (Q : A → Type 0) (get : S → T)
    (put : T → S → S) (m : Run T A)
    → ((s : S) → P s → R (get s))
    → ((t : T) (s : S) → R t → P s → P (put t s))
    → Keeps R Q m
    → Keeps P Q (zoom get put m)
unfolding zoom
zoom-Keeps {T = T} P R Q get put m out back k = record {
  at = λ s h.
      let t : Session T = record { state = get s.state; calls = s.calls } in
      let (kept, q) = k.at t (out s.state h) in (back (m t).1.state s.state kept h, q);
}
