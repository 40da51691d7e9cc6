-- ===== src/Protocol/Serve.antt =====
-- RunClient ends on every input, and its fuel does not matter.
use broadcast.Common.{
  ℕ, zero, suc, ◌+◌, ◌<◌, ◌≤◌, ◌≡◌, ◌≢◌, refl, [], ◌∷◌, arith, Bytes, Result, ok, err, panic,
  length,
}
use broadcast.Stats.Session.{ClientCall}
use broadcast.Wire.Fuel.{left}
use broadcast.Wire.Consume.{Consumes}
use broadcast.Protocol.{
  Protocol, Conn, Reply, serving, success, failed, panicked, fallen, after_data, after_read,
  handled, serve_within, run_client, is_quit,
}
use broadcast.Common.{List, Bool-cases, inl, inr}

module _ {S D : Type 0} (p : Protocol S D) where
  pub after_data-agree :
      (bye : List ClientCall) (r : Reply) (c : Conn S) (next next' : Conn S → Conn S)
      → ((c' : Conn S) → next c' ≡ next' c')
      → after_data bye r c next ≡ after_data bye r c next'
  unfolding after_data
  after_data-agree bye success c next next' h = h c
  after_data-agree bye (failed e) c next next' h = rw h refl
  after_data-agree bye panicked c next next' h = refl
  after_data-agree bye fallen c next next' h = refl

  after_read-agree :
      (r : Result (D × Bytes)) (c : Conn S) (next next' : Bytes → Conn S → Conn S) (b : ℕ)
      → left r ≤ b
      → ((rest : Bytes) (c' : Conn S) → length rest ≤ b → next rest c' ≡ next' rest c')
      → after_read p r c next ≡ after_read p r c next'
  unfolding after_read
  after_read-agree (ok (d, rest)) c next next' b l h =
      after_data-agree p.farewell (handled p d c).0 (handled p d c).1 (next rest) (next' rest)
        (λ c'. h rest c' l)
  after_read-agree (err e) c next next' b l h = refl
  after_read-agree panic c next next' b l h = refl

  serve_within-agree :
      Consumes p.read
      → (f g : ℕ) (input : Bytes) (c : Conn S) → length input < f
      → length input < g
      → serve_within p f input c ≡ serve_within p g input c
  unfolding serve_within after_read
  serve_within-agree h zero g input c l m = absurd (omega arith)
  serve_within-agree h (suc f) zero input c l m = absurd (omega arith)
  serve_within-agree h (suc f) (suc g) [] c l m = rw h.ends refl
  serve_within-agree h (suc f) (suc g) (b ∷ input) c l m =
      after_read-agree (p.read (b ∷ input)) c (serve_within p f) (serve_within p g) (length input)
        (omega (arith, h.shrinks (b ∷ input)))
        λ rest c' k. serve_within-agree h f g rest c' (omega arith) (omega arith)

  -- With any fuel above the length of the input RunClient does the same, for a protocol whose reads
  -- consume their input.
  run_client-fuel :
      Consumes p.read
      → (fuel : ℕ) (input : Bytes) (c : Conn S) → length input < fuel
      → serve_within p fuel input c ≡ run_client p input c
  unfolding run_client
  run_client-fuel h fuel input c l =
      serve_within-agree h fuel (length input + 1) input c l (omega arith)

  after_data-ends :
      (bye : List ClientCall) (r : Reply) (c : Conn S) (next : Conn S → Conn S)
      → ((c' : Conn S) → (next c').status ≢ serving)
      → (after_data bye r c next).status ≢ serving
  unfolding after_data
  after_data-ends bye success c next h = h c
  after_data-ends bye (failed e) c next h = elim (Bool-cases (is_quit e)) [
    | inl q ↦ rw q (cc)
    | inr q ↦ rw q (h _)
  ]
  after_data-ends bye panicked c next h = (cc)
  after_data-ends bye fallen c next h = (cc)

  after_read-ends :
      (r : Result (D × Bytes)) (c : Conn S) (next : Bytes → Conn S → Conn S) (b : ℕ)
      → left r ≤ b
      → ((rest : Bytes) (c' : Conn S) → length rest ≤ b → (next rest c').status ≢ serving)
      → (after_read p r c next).status ≢ serving
  unfolding after_read
  after_read-ends (ok (d, rest)) c next b l h =
      after_data-ends p.farewell (handled p d c).0 (handled p d c).1 (next rest) (λ c'. h rest c' l)
  after_read-ends (err e) c next b l h = (cc)
  after_read-ends panic c next b l h = (cc)

  serve_within-ends :
      Consumes p.read
      → (f : ℕ) (input : Bytes) (c : Conn S) → length input < f
      → (serve_within p f input c).status ≢ serving
  unfolding serve_within after_read
  serve_within-ends h zero input c l = absurd (omega arith)
  serve_within-ends h (suc f) [] c l = rw h.ends (cc)
  serve_within-ends h (suc f) (b ∷ input) c l =
      after_read-ends (p.read (b ∷ input)) c (serve_within p f) (length input)
        (omega (arith, h.shrinks (b ∷ input)))
        λ rest c' k. serve_within-ends h f rest c' (omega arith)

  -- RunClient on a finite input never keeps serving: the connection ends closed, or the program
  -- crashes.
  pub run_client-ends :
      Consumes p.read → (input : Bytes) (c : Conn S) → (run_client p input c).status ≢ serving
  unfolding run_client
  run_client-ends h input c = serve_within-ends h (length input + 1) input c (omega arith)
