-- ===== src/Proxy/Stream/Chunks.antt =====
-- The events of a stream do not depend on how its bytes are cut into chunks.
use agent_ledger.Base.{
  ℕ, zero, suc, ◌≤◌, ◌<◌, ◌≡◌, ◌≢◌, refl, ap, sym, ◌∙◌, ==_iff, none, some, List, [], ◌∷◌, ◌++◌,
  arith, length, length-append, All, All-append, Option-cases, inl, inr,
}
use mathlib.Core.List.{append_assoc, append-nil, flatten}
use agent_ledger.Proxy.Bytes.{Bytes, strip_prefix, cut, cut-length}
use agent_ledger.Proxy.Stream.{
  StreamInterceptor, Parsed, ParseStreamChunk, parse_sse_event, lf2, crlf2, next_event, drain,
  process_events, receive,
}

-- No byte is a carriage return.
abbrev pub NoCr : Bytes → Type 0
NoCr bs = All (λ b. b ≢ 13) bs

cut-crlf2 : (xs : Bytes) → NoCr xs → cut crlf2 xs ≡ none
unfolding cut strip_prefix
cut-crlf2 [] h = refl
cut-crlf2 (x ∷ xs) h = ground (arith, ==_iff 13 x, h.0, cut-crlf2 xs h.1)

next_event-lf2 : (xs : Bytes) → NoCr xs → next_event xs ≡ cut lf2 xs
unfolding next_event
next_event-lf2 xs h = elim (Option-cases (cut lf2 xs)) [
  | inl n ↦ ground (arith, n, cut-crlf2 xs h)
  | inr (e, n) ↦ ground (arith, n)
]

cut-append : (xs ys b r : Bytes) → cut lf2 xs ≡ some (b, r) → cut lf2 (xs ++ ys) ≡ some (b, r ++ ys)
unfolding cut strip_prefix
cut-append [] ys b r e = ground arith
cut-append (x ∷ []) ys b r e = ground arith
cut-append (x ∷ y ∷ xs) ys b r e = elim (Option-cases (cut lf2 (y ∷ xs))) [
  | inl n ↦ ground (arith, n)
  | inr ((c, s), n) ↦ ground (arith, n, cut-append (y ∷ xs) ys c s n)
]

cut-NoCr : (xs b r : Bytes) → cut lf2 xs ≡ some (b, r) → NoCr xs → NoCr r
unfolding cut strip_prefix
cut-NoCr [] b r e h = ground arith
cut-NoCr (x ∷ []) b r e h = ground arith
cut-NoCr (x ∷ y ∷ xs) b r e h = elim (Option-cases (cut lf2 (y ∷ xs))) [
  | inl n ↦ ground (arith, n, h.1.1)
  | inr ((c, s), n) ↦ ground (arith, n, h.1.1, cut-NoCr (y ∷ xs) c s n h.1)
]

next_event-length : (xs b r : Bytes) → next_event xs ≡ some (b, r) → length r < length xs
unfolding next_event
next_event-length xs b r e = elim (Option-cases (cut lf2 xs)) [
  | inl n ↦ ground (arith, n, cut-length crlf2 xs b r)
  | inr ((c, s), n) ↦ ground (arith, n, cut-length lf2 xs c s n)
]

next_event-append :
    (xs ys b r : Bytes)
    → NoCr xs
    → NoCr ys
    → next_event xs ≡ some (b, r)
    → (next_event (xs ++ ys) ≡ some (b, r ++ ys)) × NoCr r
next_event-append xs ys b r h g e =
    let found = sym (next_event-lf2 xs h) ∙ e in
    (
      next_event-lf2 (xs ++ ys) (All-append (λ c. c ≢ 13) xs ys h g) ∙ cut-append xs ys b r found,
      cut-NoCr xs b r found h,
    )

next_event-nil : next_event [] ≡ none
unfolding next_event cut
next_event-nil = refl

pub flatten-NoCr : (cs : List Bytes) → All NoCr cs → NoCr (flatten cs)
unfolding flatten
flatten-NoCr [] h = tt
flatten-NoCr (c ∷ cs) h = All-append (λ b. b ≢ 13) c (flatten cs) h.0 (flatten-NoCr cs h.1)

module _ (parse_stream_chunk : ParseStreamChunk) where
  drain-fuel :
      (k m : ℕ) (xs : Bytes) (s : Parsed)
      → length xs ≤ k
      → length xs ≤ m
      → drain parse_stream_chunk k xs s ≡ drain parse_stream_chunk m xs s
  unfolding drain
  drain-fuel zero zero xs s h g = refl
  drain-fuel zero (suc m) [] s h g = ground (arith, next_event-nil)
  drain-fuel zero (suc m) (x ∷ xs) s h g = ground arith
  drain-fuel (suc k) zero [] s h g = ground (arith, next_event-nil)
  drain-fuel (suc k) zero (x ∷ xs) s h g = ground arith
  drain-fuel (suc k) (suc m) xs s h g = elim (Option-cases (next_event xs)) [
    | inl n ↦ ground (arith, n)
    | inr ((c, r), n) ↦ ground (
      arith,
      n,
      next_event-length xs c r n,
      drain-fuel k m r (parse_sse_event parse_stream_chunk s c),
    )
  ]

  drain-NoCr :
      (n : ℕ) (xs : Bytes) (s : Parsed) → NoCr xs → NoCr (drain parse_stream_chunk n xs s).0
  unfolding drain
  drain-NoCr zero xs s h = h
  drain-NoCr (suc n) xs s h = elim (Option-cases (next_event xs)) [
    | inl e ↦ rw (e, drain) h
    | inr ((ev, r), e) ↦
        rw (e, drain)
          (drain-NoCr n r (parse_sse_event parse_stream_chunk s ev)
            (cut-NoCr xs ev r (sym (next_event-lf2 xs h) ∙ e) h))
  ]

  drain_complete :
      (n : ℕ) (xs : Bytes) (s : Parsed)
      → length xs ≤ n
      → next_event (drain parse_stream_chunk n xs s).0 ≡ none
  unfolding drain
  drain_complete zero [] s h = next_event-nil
  drain_complete zero (x ∷ xs) s h = ground arith
  drain_complete (suc n) xs s h = elim (Option-cases (next_event xs)) [
    | inl e ↦ ground (arith, e)
    | inr ((ev, r), e) ↦ ground (
      arith,
      e,
      next_event-length xs ev r e,
      drain_complete n r (parse_sse_event parse_stream_chunk s ev),
    )
  ]

  -- Bytes that follow a drained buffer are drained as if all had come at once.
  drain-append :
      (k m n : ℕ) (xs ys : Bytes) (s : Parsed)
      → NoCr xs
      → NoCr ys
      → length (xs ++ ys) ≤ k
      → length xs ≤ m
      → length ((drain parse_stream_chunk m xs s).0 ++ ys) ≤ n
      → let first = drain parse_stream_chunk m xs s in
        drain parse_stream_chunk k (xs ++ ys) s ≡ drain parse_stream_chunk n (first.0 ++ ys) first.1
  unfolding drain
  drain-append k zero n xs ys s hx hy a b c = drain-fuel k n (xs ++ ys) s a c
  drain-append zero (suc m) n xs ys s hx hy a b c = elim (Option-cases (next_event xs)) [
    | inl e ↦ ground (arith, e, drain-fuel zero n (xs ++ ys) s a)
    | inr ((ev, r), e) ↦ absurd (omega (arith, next_event-length xs ev r e, length-append xs ys, a))
  ]
  drain-append (suc k) (suc m) n xs ys s hx hy a b c = elim (Option-cases (next_event xs)) [
    | inl e ↦ ground (arith, e, drain-fuel (suc k) n (xs ++ ys) s a)
    | inr ((ev, r), e) ↦
        let (joined, hr) = next_event-append xs ys ev r hx hy e in
        let lt = next_event-length xs ev r e in
        ground (
          arith,
          e,
          joined,
          drain-append k m n r ys (parse_sse_event parse_stream_chunk s ev) hr hy
              (omega (arith, length-append xs ys, length-append r ys, lt, a))
              (omega (arith, lt, b)),
        )
  ]

  -- The loop over a buffer stops only when no complete event is left in it, whatever the buffer.
  pub process_events_complete :
      (s : StreamInterceptor) → next_event (process_events parse_stream_chunk s).parse_buf ≡ none
  unfolding process_events
  process_events_complete s = drain_complete (length s.parse_buf) s.parse_buf s.parsed (omega arith)

  pub receive-append :
      (s : StreamInterceptor) (xs ys : Bytes)
      → NoCr s.parse_buf
      → NoCr xs
      → NoCr ys
      → receive parse_stream_chunk (receive parse_stream_chunk s xs) ys
        ≡ receive parse_stream_chunk s (xs ++ ys)
  unfolding receive process_events
  receive-append s [] ys hb hx hy = refl
  receive-append s (x ∷ xs) [] hb hx hy = rw (append-nil xs) refl
  receive-append s (x ∷ xs) (y ∷ ys) hb hx hy =
      let buf = s.parse_buf ++ x ∷ xs in
      let first = drain parse_stream_chunk (length buf) buf s.parsed in
      let joined =
        drain-append (length (buf ++ y ∷ ys)) (length buf) (length (first.0 ++ y ∷ ys)) buf (y ∷ ys)
          s.parsed (All-append (λ c. c ≢ 13) s.parse_buf (x ∷ xs) hb hx) hy (omega arith)
          (omega arith) (omega arith) in
      rw (sym (append_assoc s.parse_buf (x ∷ xs) (y ∷ ys)))
        (ap (λ r. record s { parse_buf = r.0; parsed = r.1 }) (sym joined))

  receive-NoCr :
      (s : StreamInterceptor) (xs : Bytes)
      → NoCr s.parse_buf
      → NoCr xs
      → NoCr (receive parse_stream_chunk s xs).parse_buf
  unfolding receive process_events
  receive-NoCr s [] hb hx = hb
  receive-NoCr s (x ∷ xs) hb hx =
      drain-NoCr (length (s.parse_buf ++ x ∷ xs)) (s.parse_buf ++ x ∷ xs) s.parsed
        (All-append (λ c. c ≢ 13) s.parse_buf (x ∷ xs) hb hx)

  -- Reads of one chunk after the other.
  unfoldable pub receive_all : StreamInterceptor → List Bytes → StreamInterceptor
  receive_all s [] = s
  receive_all s (c ∷ cs) = receive_all (receive parse_stream_chunk s c) cs

  -- Bytes without a carriage return, read in any chunks after others of the kind, leave the
  -- interceptor as one read of them all does.
  pub receive_all-flatten :
      (s : StreamInterceptor) (chunks : List Bytes)
      → NoCr s.parse_buf
      → All NoCr chunks
      → receive_all s chunks ≡ receive parse_stream_chunk s (flatten chunks)
  unfolding receive_all receive flatten
  receive_all-flatten s [] hb h = refl
  receive_all-flatten s (c ∷ cs) hb h =
      receive_all-flatten (receive parse_stream_chunk s c) cs (receive-NoCr s c hb h.0) h.1
      ∙ receive-append s c (flatten cs) hb h.0 (flatten-NoCr cs h.1)
