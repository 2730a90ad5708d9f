-- ===== src/Proxy/Stream/Ending.antt =====
-- A stream is recorded once, at its end, by what all its bytes tell.
use mathlib.Core.List.{flatten, append-nil}
use agent_ledger.Base.{
  ◌≡◌, refl, ap, ◌∙◌, true, false, String, Option, List, [], ◌∷◌, ◌++◌, map, arith, All,
}
use agent_ledger.Base.Float64.{Float64}
use agent_ledger.Base.Clock.{Time}
use agent_ledger.Meter.Cost.{Meter}
use agent_ledger.Meter.Encoding.{Encoder}
use agent_ledger.Proxy.Bytes.{Bytes}
use agent_ledger.Proxy.Stream.{
  StreamInterceptor, CallContext, ParseStreamChunk, Action, read, read_eof, close, Effect, recorded,
  act, receive, finalize, usage_record, charge, new_stream_interceptor, process_events,
}
use agent_ledger.Proxy.Stream.Chunks.{
  NoCr, receive_all, receive_all-flatten, receive-append, flatten-NoCr,
}

module _ (parse_stream_chunk : ParseStreamChunk) (f : Float64) (prices : Meter f.Carrier)
    (get_encoding : String → Option Encoder) where
  -- A sequence of calls, and all that they do to others.
  pub perform : StreamInterceptor → List Action → StreamInterceptor × List (Effect f.Carrier)
  perform s [] = (s, [])
  perform s (a ∷ later) =
      let (t, effects) = act parse_stream_chunk f prices get_encoding s a in
      let (u, rest) = perform t later in (u, effects ++ rest)

  receive-finalized :
      (s : StreamInterceptor) (bs : Bytes)
      → (receive parse_stream_chunk s bs).finalized ≡ s.finalized
  unfolding receive process_events
  receive-finalized s [] = refl
  receive-finalized s (b ∷ bs) = refl

  -- What a stream does to others, given the interceptor at its end.
  abbrev pub stream_effects : StreamInterceptor → String → Time → List (Effect f.Carrier)
  stream_effects s ulid now =
      recorded (usage_record parse_stream_chunk f prices get_encoding s ulid now)
      ∷ charge parse_stream_chunk f prices get_encoding s

  finalize-done :
      (s : StreamInterceptor) (ulid : String) (now : Time)
      → s.finalized ≡ true
      → finalize parse_stream_chunk f prices get_encoding s ulid now ≡ (s, [])
  unfolding finalize
  finalize-done s ulid now h = ground (arith, h)

  finalize-effects :
      (s : StreamInterceptor) (ulid : String) (now : Time)
      → s.finalized ≡ false
      → ((finalize parse_stream_chunk f prices get_encoding s ulid now).1
          ≡ stream_effects s ulid now)
        × ((finalize parse_stream_chunk f prices get_encoding s ulid now).0.finalized ≡ true)
  unfolding finalize
  finalize-effects s ulid now h = (ground (arith, h), ground (arith, h))

  perform-finalized :
      (s : StreamInterceptor) (later : List Action) → s.finalized ≡ true → (perform s later).1 ≡ []
  unfolding perform act
  perform-finalized s [] h = refl
  perform-finalized s (read bs ∷ later) h =
      perform-finalized (receive parse_stream_chunk s bs) later (receive-finalized s bs ∙ h)
  perform-finalized s (read_eof bs u t ∷ later) h =
      let t' = receive parse_stream_chunk s bs in
      ground (
        arith,
        finalize-done t' u t (receive-finalized s bs ∙ h),
        perform-finalized t' later (receive-finalized s bs ∙ h),
      )
  perform-finalized s (close u t ∷ later) h =
      ground (arith, finalize-done s u t h, perform-finalized s later h)

  -- The end of a stream that has not been recorded, and what may come after it.
  perform-end :
      (s : StreamInterceptor) (ulid : String) (now : Time) (later : List Action)
      → s.finalized ≡ false
      → (perform s (close ulid now ∷ later)).1 ≡ stream_effects s ulid now
  unfolding perform act
  perform-end s ulid now later h =
      let (effects, done) = finalize-effects s ulid now h in
      let t = (finalize parse_stream_chunk f prices get_encoding s ulid now).0 in
      ap (λ e. e ++ (perform t later).1) effects
      ∙ ap (λ e. stream_effects s ulid now ++ e) (perform-finalized t later done)
      ∙ append-nil (stream_effects s ulid now)

  perform-reads :
      (s : StreamInterceptor) (chunks : List Bytes) (later : List Action)
      → (perform s (map read chunks ++ later)).1
        ≡ (perform (receive_all parse_stream_chunk s chunks) later).1
  unfolding perform act receive_all
  perform-reads s [] later = refl
  perform-reads s (c ∷ cs) later = perform-reads (receive parse_stream_chunk s c) cs later

  perform-whole :
      (c : CallContext) (chunks : List Bytes) (rest : List Action)
      → All NoCr chunks
      → (perform (new_stream_interceptor c) (map read chunks ++ rest)).1
        ≡ (perform (receive parse_stream_chunk (new_stream_interceptor c) (flatten chunks)) rest).1
  unfolding new_stream_interceptor
  perform-whole c chunks rest h =
      let s = new_stream_interceptor c in
      perform-reads s chunks rest
      ∙ ap (λ t. (perform t rest).1) (receive_all-flatten parse_stream_chunk s chunks tt h)

  perform-read_eof :
      (s : StreamInterceptor) (last : Bytes) (ulid : String) (now : Time) (later : List Action)
      → (perform s (read_eof last ulid now ∷ later)).1
        ≡ (perform (receive parse_stream_chunk s last) (close ulid now ∷ later)).1
  unfolding perform act
  perform-read_eof s last ulid now later = refl

  not_finalized :
      (c : CallContext) (bs : Bytes)
      → (receive parse_stream_chunk (new_stream_interceptor c) bs).finalized ≡ false
  unfolding new_stream_interceptor
  not_finalized c bs = receive-finalized (new_stream_interceptor c) bs

  -- A reply whose bytes hold no carriage return, however it is cut into chunks, has the effects of
  -- one read of all its bytes: one usage record, and, where there is a tracker and the call has a
  -- session, one charge, at the end of the source or at Close, whichever comes first; and no call
  -- after that has an effect.
  pub perform_once :
      (c : CallContext) (chunks : List Bytes) (last : Bytes) (ulid : String) (now : Time)
      (later : List Action)
      → All NoCr chunks
      → NoCr last
      → let whole = λ (bs : Bytes). receive parse_stream_chunk (new_stream_interceptor c) bs in
        let reads = map read chunks in
        ((perform (new_stream_interceptor c) (reads ++ read_eof last ulid now ∷ later)).1
          ≡ stream_effects (whole (flatten chunks ++ last)) ulid now)
        × ((perform (new_stream_interceptor c) (reads ++ close ulid now ∷ later)).1
            ≡ stream_effects (whole (flatten chunks)) ulid now)
  unfolding new_stream_interceptor
  perform_once c chunks last ulid now later h g =
      let s = new_stream_interceptor c in
      let all = flatten chunks in
      let t = receive parse_stream_chunk s all in
      let joined = receive-append parse_stream_chunk s all last tt (flatten-NoCr chunks h) g in
      (
        perform-whole c chunks (read_eof last ulid now ∷ later) h
            ∙ perform-read_eof t last ulid now later
            ∙ ap (λ u. (perform u (close ulid now ∷ later)).1) joined
            ∙ perform-end (receive parse_stream_chunk s (all ++ last)) ulid now later
                (not_finalized c (all ++ last)),
        perform-whole c chunks (close ulid now ∷ later) h
            ∙ perform-end t ulid now later (not_finalized c all),
      )
