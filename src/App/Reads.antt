-- ===== src/App/Reads.antt =====
-- The calls of one reply, as a client reads what they put on the wire.
use mathlib.Core.Path.{subst}
use native.Mathlib.Numerals.{add-one}
use broadcast.Common.{
  ℕ, zero, suc, ◌*◌, ◌≤◌, ◌≡◌, refl, sym, ◌∙◌, ap, true, List, [], ◌∷◌, ◌++◌, append_assoc,
  append-nil, arith, Bytes, codes, All, length, map, length-append, Result, ok, ◌>>=◌,
}
use broadcast.Common.Int.{IsInt64}
use broadcast.Wire.{Value, Platform, str, int, null, error, arr, items}
use broadcast.Wire.Write.{Writer, put}
use broadcast.Wire.Read.{read_interface, dispatch, parse_error, max_alloc}
use broadcast.Wire.Frame.{line, frame, frames, array_frame}
use broadcast.Wire.RoundTrip.{
  FitsLine, IsReadable, reply, within-line, read_interface-frame, read_interface-array_frame,
}
use broadcast.Stats.Session.{ClientCall, flush, write_len}
use broadcast.Stats.Session.Answers.{IsReplyCalls, one, many, is_value}
use broadcast.Protocol.Perform.{
  Texts, message, perform_all, call_frame, call_frames, perform_all-frames,
}
use broadcast.App.Replies.{concat}

module _ (p : Platform) (t : Texts) where
  -- A call that writes a value that can be read.
  abbrev IsPlain : ClientCall → Type 0
  IsPlain (ClientCall.write_int64 n) = IsInt64 n
  IsPlain ClientCall.write_null = Unit
  IsPlain ClientCall.flush = Unit
  IsPlain (ClientCall.write_string s) = FitsLine s
  IsPlain (ClientCall.write_interface v) = IsReadable p v
  IsPlain (ClientCall.write_error m) = ⊥
  IsPlain (ClientCall.write_len prefix n) = ⊥
  IsPlain (ClientCall.write_failure e) = ⊥
  IsPlain (ClientCall.write_counters c) = ⊥
  IsPlain (ClientCall.write_status s) = ⊥
  IsPlain (ClientCall.write_help h) = ⊥
  IsPlain (ClientCall.write_array vs) = ⊥

  -- The same for a call that is a reply of its own, which may also be an error or an array.
  abbrev IsClear : ClientCall → Type 0
  IsClear (ClientCall.write_error m) = FitsLine (codes "ERR " ++ m)
  IsClear (ClientCall.write_failure e) = FitsLine (codes "ERR " ++ message t e)
  IsClear (ClientCall.write_array vs) = All (IsReadable p) vs × (length vs * 16 ≤ max_alloc)
  IsClear c = IsPlain c

  -- A reply whose texts are lines that can be read, and that holds no JSON.
  abbrev pub IsReadableReply : List ClientCall → Type 0
  IsReadableReply [] = Unit
  IsReadableReply (ClientCall.write_len prefix n ∷ cs) =
      All IsPlain cs × (length cs * 16 ≤ max_alloc)
  IsReadableReply (c ∷ cs) = IsClear c

  -- What reads as one value.
  record Reads (b : Bytes) : Type 0 where
    pub v : Value
    pub reads : (rest : Bytes) → read_interface p (b ++ rest) ≡ ok (v, rest)

  error-Reads : (m : Bytes) → FitsLine m → Reads (line b'-' m)
  unfolding read_interface dispatch parse_error
  error-Reads [] (h, n, l) = absurd (n refl)
  error-Reads (c ∷ m) h = record {
    v = error (c ∷ m);
    reads = λ rest.
        let n = length (line b'-' (c ∷ m) ++ rest) in
        rw (add-one n) (within-line p n b'-' (c ∷ m) rest (λ e. omega arith) h);
  }

  value-Reads : (v : Value) → IsReadable p v → Reads (frame p v)
  value-Reads v h = record { v = reply p v; reads = λ rest. read_interface-frame p v rest h }

  array-Reads :
      (vs : List Value)
      → All (IsReadable p) vs
      → length vs * 16 ≤ max_alloc
      → Reads (array_frame p vs)
  array-Reads vs h l = record {
    v = arr (items (map (reply p) vs));
    reads = λ rest. read_interface-array_frame p vs rest h l;
  }

  call-Reads :
      (c : ClientCall)
      → is_value c ≡ true
      → IsReadableReply (c ∷ flush ∷ [])
      → Reads (call_frame p t c)
  call-Reads (ClientCall.write_int64 n) e h = value-Reads (int n) h
  call-Reads ClientCall.write_null e h = value-Reads null h
  call-Reads ClientCall.flush e h = cc
  call-Reads (ClientCall.write_error m) e h = error-Reads (codes "ERR " ++ m) h
  call-Reads (ClientCall.write_string s) e h = value-Reads (str s) h
  call-Reads (ClientCall.write_len prefix n) e h = cc
  call-Reads (ClientCall.write_failure x) e h = error-Reads (codes "ERR " ++ message t x) h
  call-Reads (ClientCall.write_counters c) e h = absurd h
  call-Reads (ClientCall.write_status s) e h = absurd h
  call-Reads (ClientCall.write_help x) e h = absurd h
  call-Reads (ClientCall.write_interface v) e h = value-Reads v h
  call-Reads (ClientCall.write_array vs) e (h, l) = array-Reads vs h l

  call_frames-append :
      (xs ys : List ClientCall)
      → call_frames p t (xs ++ ys) ≡ call_frames p t xs ++ call_frames p t ys
  call_frames-append [] ys = refl
  call_frames-append (x ∷ xs) ys =
      ap (λ b. call_frame p t x ++ b) (call_frames-append xs ys)
      ∙ sym (append_assoc (call_frame p t x) (call_frames p t xs) (call_frames p t ys))

  -- The values that plain calls write.
  record Plain (cs : List ClientCall) : Type 0 where
    pub vs : List Value
    pub readable : All (IsReadable p) vs
    pub frames_eq : call_frames p t cs ≡ frames p vs
    pub same_length : length vs ≡ length cs

  then-Plain :
      (v : Value) (c : ClientCall) (cs : List ClientCall)
      → IsReadable p v
      → call_frame p t c ≡ frame p v
      → Plain cs
      → Plain (c ∷ cs)
  then-Plain v c cs h e r = record {
    vs = v ∷ r.vs;
    readable = (h, r.readable);
    frames_eq = rw (e, r.frames_eq) refl;
    same_length = ap suc r.same_length;
  }

  calls-Plain : (cs : List ClientCall) → All (λ c. is_value c ≡ true) cs → All IsPlain cs → Plain cs
  calls-Plain [] e h = record { vs = []; readable = tt; frames_eq = refl; same_length = refl }
  calls-Plain (ClientCall.write_int64 n ∷ cs) (e, es) (h, hs) =
      then-Plain (int n) _ cs h refl (calls-Plain cs es hs)
  calls-Plain (ClientCall.write_null ∷ cs) (e, es) (h, hs) =
      then-Plain null _ cs tt refl (calls-Plain cs es hs)
  calls-Plain (ClientCall.flush ∷ cs) (e, es) (h, hs) = cc
  calls-Plain (ClientCall.write_string s ∷ cs) (e, es) (h, hs) =
      then-Plain (str s) _ cs h refl (calls-Plain cs es hs)
  calls-Plain (ClientCall.write_interface v ∷ cs) (e, es) (h, hs) =
      then-Plain v _ cs h refl (calls-Plain cs es hs)
  calls-Plain (ClientCall.write_error m ∷ cs) (e, es) (h, hs) = absurd h
  calls-Plain (ClientCall.write_len prefix n ∷ cs) (e, es) (h, hs) = absurd h
  calls-Plain (ClientCall.write_failure x ∷ cs) (e, es) (h, hs) = absurd h
  calls-Plain (ClientCall.write_counters x ∷ cs) (e, es) (h, hs) = absurd h
  calls-Plain (ClientCall.write_status s ∷ cs) (e, es) (h, hs) = absurd h
  calls-Plain (ClientCall.write_help x ∷ cs) (e, es) (h, hs) = absurd h
  calls-Plain (ClientCall.write_array vs ∷ cs) (e, es) (h, hs) = absurd h

  All-front : (P : ClientCall → Type 0) (xs ys : List ClientCall) → All P (xs ++ ys) → All P xs
  All-front P [] ys h = tt
  All-front P (x ∷ xs) ys (h, hs) = (h, All-front P xs ys hs)

  reply-Reads :
      (r : List ClientCall) → IsReplyCalls r → IsReadableReply r → Reads (call_frames p t r)
  reply-Reads r (one c e) h = subst Reads (sym (append-nil (call_frame p t c))) (call-Reads c e h)
  reply-Reads r (many cs es) (h, l) =
      let plain = calls-Plain cs es (All-front IsPlain cs (flush ∷ []) h) in
      let n = plain.same_length in
      let body : call_frames p t (cs ++ flush ∷ []) ≡ frames p plain.vs =
        call_frames-append cs (flush ∷ []) ∙ append-nil (call_frames p t cs) ∙ plain.frames_eq in
      let whole : array_frame p plain.vs
          ≡ call_frames p t (write_len b'*' (length cs) ∷ cs ++ flush ∷ []) =
        rw (n, body) refl in
      subst Reads whole
        (array-Reads plain.vs plain.readable (omega (arith, length-append cs (flush ∷ []))))

  -- A client that reads so many replies.
  unfoldable pub read_values : ℕ → Bytes → Result (List Value × Bytes)
  read_values zero s = ok ([], s)
  read_values (suc n) s = do
    (v, s') ← read_interface p s
    (vs, s'') ← read_values n s'
    ok (v ∷ vs, s'')

  values-read :
      (replies : List (List ClientCall)) (rest : Bytes)
      → All IsReplyCalls replies
      → All IsReadableReply replies
      → (vs : List Value) × (length vs ≡ length replies)
        × (read_values (length replies) (call_frames p t (concat replies) ++ rest) ≡ ok (vs, rest))
  unfolding read_values
  values-read [] rest h k = ([], refl, refl)
  values-read (r ∷ rs) rest (h, hs) (k, ks) =
      let first = reply-Reads r h k in
      let (vs, same_length, others) = values-read rs rest hs ks in
      let parted =
        ap (λ b. b ++ rest) (call_frames-append r (concat rs))
        ∙ append_assoc (call_frames p t r) (call_frames p t (concat rs)) rest in
      (
        first.v ∷ vs,
        ap suc same_length,
        rw (parted, first.reads (call_frames p t (concat rs) ++ rest), others) refl,
      )

  -- The calls of replies that can be read put bytes on the wire that a client reads as one value for each
  -- reply, with as many calls of ReadInterface, whatever comes behind them. A reply can be read if its texts
  -- are lines of 1 to 125 bytes, its numbers are int64s, its array can be allocated, and it holds no JSON.
  pub replies_read :
      (replies : List (List ClientCall)) (w : Writer) (rest : Bytes)
      → All IsReplyCalls replies
      → All IsReadableReply replies
      → (sent : Bytes) × (vs : List Value) × (perform_all p t (concat replies) w ≡ put sent w)
        × (length vs ≡ length replies)
        × (read_values (length replies) (sent ++ rest) ≡ ok (vs, rest))
  replies_read replies w rest h k =
      let (vs, same_length, read) = values-read replies rest h k in
      (
        call_frames p t (concat replies),
        vs,
        perform_all-frames p t (concat replies) w,
        same_length,
        read,
      )
