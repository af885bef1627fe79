-- ===== src/Mux/Transfer/Outcome.antt =====
-- What a call of `Read` comes to.
use wire_rift.Prelude.{
  ℕ, zero, suc, ◌≡◌, refl, ap, sym, ◌∙◌, Bool, true, false, ltb, if◌then◌else◌, maybe, List, [],
  ◌∷◌, length, take, drop, Option, none, some, ==_refl, length-zero, if_cases, arith, Bool-cases,
  inl, inr,
}
use wire_rift.Mux.Ring.Inv.{IsValid, contents}
use wire_rift.Mux.Ring.Read.{read-DidRead}
use wire_rift.Mux.Stream.{
  Stream, State, active, half_closed_local, half_closed_remote, closed, was_reset, take_data,
}
use wire_rift.Mux.State.{Codec, Mux, MuxError, end_of_stream, stream_reset, unexpected_end, modify}
use wire_rift.Mux.Transfer.{
  drained, read_from_buffer, read_verdict, ReadOut, returned, waiting, read_rounds, read_stream,
  take_read_token,
}

-- A stream whose buffer gives nothing to a read of k bytes.
record IsQuiet (k : ℕ) (s : Stream) : Type 0 where
  valid : IsValid s.read_buf
  nothing : (take_data s k).0 ≡ []

take_data-bytes :
    (k : ℕ) (s : Stream) → IsValid s.read_buf → (take_data s k).0 ≡ take k (contents s.read_buf)
unfolding take_data
take_data-bytes k s v = (read-DidRead s.read_buf k v).bytes

take-drop-nil : (k : ℕ) (l : List ℕ) → take k l ≡ [] → take k (drop k l) ≡ []
take-drop-nil zero l e = refl
take-drop-nil (suc k) [] e = refl
take-drop-nil (suc k) (x ∷ l) e = cc

drained-IsValid : (k : ℕ) (s : Stream) → IsValid s.read_buf → IsValid (drained k s).read_buf
unfolding take_data
drained-IsValid k s v = (read-DidRead s.read_buf k v).valid

drained-contents :
    (k : ℕ) (s : Stream)
    → IsValid s.read_buf
    → contents (drained k s).read_buf ≡ drop k (contents s.read_buf)
unfolding take_data
drained-contents k s v = (read-DidRead s.read_buf k v).rest

drained-IsQuiet : (k : ℕ) (s : Stream) → IsQuiet k s → IsQuiet k (drained k s)
drained-IsQuiet k s q = record {
  valid = drained-IsValid k s q.valid;
  nothing =
      take_data-bytes k (drained k s) (drained-IsValid k s q.valid)
      ∙ ap (take k) (drained-contents k s q.valid)
      ∙ take-drop-nil k (contents s.read_buf) (sym (take_data-bytes k s q.valid) ∙ q.nothing);
}

-- What a read comes to when no bytes are at hand: the end of the stream where the peer has closed
-- its half, the reset where there was one, an unexpected end where the connection is gone before
-- that, and else a wait.
abbrev pub empty_answer : State → Bool → ReadOut
empty_answer closed mux_done = returned [] (some end_of_stream)
empty_answer half_closed_remote mux_done = returned [] (some end_of_stream)
empty_answer was_reset mux_done = returned [] (some stream_reset)
empty_answer active true = returned [] (some unexpected_end)
empty_answer active false = waiting
empty_answer half_closed_local true = returned [] (some unexpected_end)
empty_answer half_closed_local false = waiting

-- What a read comes to, from the bytes at hand, the state and whether the connection is gone.
abbrev pub read_answer : List ℕ → State → Bool → ReadOut
read_answer [] st mux_done = empty_answer st mux_done
read_answer (x ∷ bytes) st mux_done = returned (x ∷ bytes) none

found_answer :
    (bytes : List ℕ) (st : State) (mux_done : Bool)
    → ltb 0 (length bytes) ≡ true
    → returned bytes none ≡ read_answer bytes st mux_done
found_answer [] st mux_done e = absurd (cc e)
found_answer (x ∷ bytes) st mux_done e = refl

drained-state : (k : ℕ) (s : Stream) → (drained k s).state ≡ s.state
unfolding take_data
drained-state k s = refl

drained-read_ch : (k : ℕ) (s : Stream) → (drained k s).read_ch ≡ s.read_ch
unfolding take_data
drained-read_ch k s = refl

-- A round that finds nothing.
quiet_round :
    (n : ℕ) (c : Codec) (mux_done : Bool) (m : Mux) (h k : ℕ)
    → IsQuiet k (m.obj h)
    → read_rounds (suc n) c mux_done m h k
      ≡ maybe
          (read_verdict (m.obj h).state mux_done)
          (if (m.obj h).read_ch
            then read_rounds n c mux_done (modify (modify m h (drained k)) h take_read_token) h k
            else if m.done
            then read_rounds n c true (modify m h (drained k)) h k
            else (waiting, modify m h (drained k)))
          (λ e. (returned [] (some e), modify m h (drained k)))
unfolding read_rounds read_from_buffer
quiet_round n c mux_done m h k q = rw (q.nothing, ==_refl h, drained-read_ch k (m.obj h))

answer_of :
    (o : Option MuxError) (x : ReadOut × Mux) (m : Mux)
    → (maybe o x (λ e. (returned [] (some e), m))).0 ≡ maybe o x.0 (λ e. returned [] (some e))
answer_of none x m = refl
answer_of (some e) x m = refl

settled :
    (st : State) (x : ReadOut)
    → maybe (read_verdict st true) x (λ e. returned [] (some e)) ≡ read_answer [] st true
unfolding read_verdict
settled active x = refl
settled half_closed_local x = refl
settled half_closed_remote x = refl
settled closed x = refl
settled was_reset x = refl

undecided :
    (st : State) (mux_done : Bool) (x : ReadOut)
    → (read_verdict st false ≡ none → x ≡ read_answer [] st mux_done)
    → maybe (read_verdict st false) x (λ e. returned [] (some e)) ≡ read_answer [] st mux_done
unfolding read_verdict
undecided active d x e = e refl
undecided half_closed_local d x e = e refl
undecided half_closed_remote d x e = refl
undecided closed d x e = refl
undecided was_reset d x e = refl

drained_at : (m : Mux) (h k : ℕ) → IsQuiet k (m.obj h) → IsQuiet k ((modify m h (drained k)).obj h)
drained_at m h k q = rw (==_refl h) (drained-IsQuiet k (m.obj h) q)

-- The last round, with the connection gone.
last_round :
    (n : ℕ) (c : Codec) (m : Mux) (h k : ℕ)
    → IsQuiet k (m.obj h)
    → (read_rounds (suc n) c true m h k).0 ≡ read_answer [] (m.obj h).state true
last_round n c m h k q =
    ap (λ (out : ReadOut × Mux). out.0) (quiet_round n c true m h k q)
    ∙ answer_of (read_verdict (m.obj h).state true) _ _
    ∙ settled (m.obj h).state _

state_at : (m : Mux) (h k : ℕ) → ((modify m h (drained k)).obj h).state ≡ (m.obj h).state
state_at m h k = rw (==_refl h) (drained-state k (m.obj h))

no_verdict : (st : State) → read_verdict st false ≡ none → waiting ≡ read_answer [] st false
unfolding read_verdict
no_verdict active e = refl
no_verdict half_closed_local e = refl
no_verdict half_closed_remote e = absurd (cc e)
no_verdict closed e = absurd (cc e)
no_verdict was_reset e = absurd (cc e)

pick :
    (st : State) (d : Bool) (x y : ReadOut × Mux)
    → x.0 ≡ read_answer [] st true
    → y.0 ≡ waiting
    → read_verdict st false ≡ none
    → (if d then x else y).0 ≡ read_answer [] st d
pick st true x y e f o = e
pick st false x y e f o = f ∙ no_verdict st o

-- The rounds once the token is taken.
untoken_round :
    (n : ℕ) (c : Codec) (m : Mux) (h k : ℕ)
    → IsQuiet k (m.obj h)
    → (m.obj h).read_ch ≡ false
    → (read_rounds (suc (suc n)) c false m h k).0 ≡ read_answer [] (m.obj h).state m.done
untoken_round n c m h k q t =
    ap (λ (out : ReadOut × Mux). out.0) (quiet_round (suc n) c false m h k q)
    ∙ answer_of (read_verdict (m.obj h).state false) _ _
    ∙ undecided (m.obj h).state m.done _ (λ o. rw t (
        pick (m.obj h).state m.done (read_rounds (suc n) c true m1 h k) (waiting, m1)
          (last_round n c m1 h k (drained_at m h k q)
            ∙ ap (λ (st : State). read_answer [] st true) (state_at m h k))
          refl o))
  where
    m1 : Mux
    m1 = modify m h (drained k)

untoken-IsQuiet : (k : ℕ) (s : Stream) → IsQuiet k s → IsQuiet k (take_read_token s)
unfolding take_data
untoken-IsQuiet k s q = record { valid = q.valid; nothing = q.nothing }

untoken_at :
    (m : Mux) (h k : ℕ)
    → IsQuiet k (m.obj h)
    → IsQuiet k ((modify (modify m h (drained k)) h take_read_token).obj h)
untoken_at m h k q =
    rw (==_refl h) (untoken-IsQuiet k (drained k (m.obj h)) (drained-IsQuiet k (m.obj h) q))

quiet_read :
    (c : Codec) (m : Mux) (h k : ℕ)
    → IsQuiet k (m.obj h)
    → (read_stream c m h k).0 ≡ read_answer [] (m.obj h).state m.done
unfolding read_stream
quiet_read c m h k q = elim (Bool-cases (m.obj h).read_ch) [
  | inr t ↦ untoken_round 1 c m h k q t
  | inl t ↦
      ap (λ (out : ReadOut × Mux). out.0) (quiet_round 2 c false m h k q)
      ∙ answer_of (read_verdict (m.obj h).state false) _ _
      ∙ undecided (m.obj h).state m.done _ (λ _. rw t (
          untoken_round 0 c m2 h k (untoken_at m h k q) (rw (==_refl h) refl)
          ∙ ap (λ (st : State). read_answer [] st m.done) same))
]
  where
    m2 : Mux
    m2 = modify (modify m h (drained k)) h take_read_token

    same : (m2.obj h).state ≡ (m.obj h).state
    same = rw (==_refl h) (drained-state k (m.obj h))

read_from_buffer-bytes :
    (c : Codec) (m : Mux) (h k : ℕ) → (read_from_buffer c m h k).0 ≡ (take_data (m.obj h) k).0
unfolding read_from_buffer
read_from_buffer-bytes c m h k =
    if_cases (λ (out : List ℕ × Mux). out.0 ≡ (take_data (m.obj h) k).0)
      (ltb 0 (length (take_data (m.obj h) k).0)) refl refl

-- A round that finds data.
data_round :
    (n : ℕ) (c : Codec) (m : Mux) (h k : ℕ)
    → ltb 0 (length (take_data (m.obj h) k).0) ≡ true
    → (read_rounds (suc n) c false m h k).0 ≡ returned (take_data (m.obj h) k).0 none
unfolding read_rounds
data_round n c m h k e =
    rw found (ap (λ (l : List ℕ). returned l none) (read_from_buffer-bytes c m h k))
  where
    found : ltb 0 (length (read_from_buffer c m h k).0) ≡ true
    found = ap (λ (l : List ℕ). ltb 0 (length l)) (read_from_buffer-bytes c m h k) ∙ e

-- `Read` into k bytes, on a valid buffer, returns the oldest bytes at hand, at most k, if there are
-- any. Otherwise it returns the end of the stream if the peer has closed, the reset if there was
-- one, an unexpected end if the connection is gone, and it waits in every other case. Three rounds
-- are always enough.
pub read_stream-answer :
    (c : Codec) (m : Mux) (h k : ℕ)
    → IsValid (m.obj h).read_buf
    → (read_stream c m h k).0
      ≡ read_answer (take k (contents (m.obj h).read_buf)) (m.obj h).state m.done
unfolding read_stream
read_stream-answer c m h k v = elim (Bool-cases (ltb 0 (length (take_data (m.obj h) k).0))) [
  | inl e ↦
      data_round 2 c m h k e
      ∙ found_answer _ (m.obj h).state m.done e
      ∙ ap (λ (l : List ℕ). read_answer l (m.obj h).state m.done) at_hand
  | inr e ↦
      quiet_read c m h k (record { valid = v; nothing = none_left e })
      ∙ rw (sym at_hand ∙ none_left e)
]
  where
    at_hand : (take_data (m.obj h) k).0 ≡ take k (contents (m.obj h).read_buf)
    at_hand = take_data-bytes k (m.obj h) v

    none_left : ltb 0 (length (take_data (m.obj h) k).0) ≡ false → (take_data (m.obj h) k).0 ≡ []
    none_left e = length-zero _ (ground arith)
