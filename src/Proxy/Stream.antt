-- ===== src/Proxy/Stream.antt =====
-- internal/proxy/streaming.go: the events of a streamed reply, and the one record of the stream.
-- A provider's ParseStreamChunk is a parameter; tokens are estimated as in Meter/Encoding, without
-- its cache. Metrics and logging are left out.
pub mod Chunks
pub mod Ending
use Prim.Native.String.{len}
use agent_ledger.Base.{
  ℕ, zero, suc, ℤ, pos, Bool, true, false, not, ◌&&◌, ltb, ltb_ℤ, String, str_eq, str_append,
  Option, none, some, List, [], ◌∷◌, ◌++◌, if◌then◌else◌, length, add64, arith, ◌≡◌,
}
use agent_ledger.Base.Float64.{Float64}
use agent_ledger.Base.Clock.{Time, sub, milliseconds}
use agent_ledger.Ledger.Usage.{UsageRecord}
use agent_ledger.Meter.Cost.{Meter, calculate}
use agent_ledger.Meter.Encoding.{Encoder, count_of}
use agent_ledger.Provider.Meta.{StreamChunkMeta}
use agent_ledger.Proxy.Bytes.{Bytes, strip_prefix, cut, split_lines, trim_right_cr, trim_space}

-- What the events so far have told: the model, the tokens and the text.
pub record Parsed : Type 0 where
  pub model : String
  pub input_tokens : ℤ
  pub output_tokens : ℤ
  pub text : String

-- The call that is answered; `meta_model` is the request's model if its body could be parsed, and
-- `tracked` says whether there is a tracker.
pub record CallContext : Type 0 where
  pub provider : String
  pub meta_model : Option String
  pub tracked : Bool
  pub start : Time
  pub api_key_hash : String
  pub path : String
  pub agent_id : String
  pub session_id : String
  pub user_id : String
  pub tenant_id : String

-- streamInterceptor; `finalized` is its sync.Once.
pub record StreamInterceptor : Type 0 where
  pub context : CallContext
  pub parse_buf : Bytes
  pub parsed : Parsed
  pub finalized : Bool

-- What finalize does to others: a record for the recorder, a cost for the tracker.
pub data Effect (A : Type 0) : Type 0 where
  recorded : UsageRecord A → Effect A
  charged : String → A → ℤ → Effect A

abbrev pub nothing_parsed : Parsed
nothing_parsed = record { model = ""; input_tokens = pos 0; output_tokens = pos 0; text = "" }

pub new_stream_interceptor : CallContext → StreamInterceptor
new_stream_interceptor c = record {
  context = c;
  parse_buf = [];
  parsed = nothing_parsed;
  finalized = false;
}

abbrev pub lf2 : Bytes
lf2 = 10 ∷ 10 ∷ []

abbrev pub crlf2 : Bytes
crlf2 = 13 ∷ 10 ∷ 13 ∷ 10 ∷ []

-- The next complete event of the buffer and what follows it.
unfoldable pub next_event : Bytes → Option (Bytes × Bytes)
next_event buf = elim (cut lf2 buf) [ some e ↦ some e | none ↦ cut crlf2 buf ]

-- The tags "event:" and "data:", and the payload that closes a stream of OpenAI.
abbrev event_tag : Bytes
event_tag = 101 ∷ 118 ∷ 101 ∷ 110 ∷ 116 ∷ 58 ∷ []

abbrev data_tag : Bytes
data_tag = 100 ∷ 97 ∷ 116 ∷ 97 ∷ 58 ∷ []

abbrev done_payload : Bytes
done_payload = 91 ∷ 68 ∷ 79 ∷ 78 ∷ 69 ∷ 93 ∷ []

join_payload : Bytes → Bytes → Bytes
join_payload [] d = d
join_payload (b ∷ bs) d = (b ∷ bs) ++ 10 ∷ d

-- The loop over the lines of an event: its type and its payload.
event_fields : List Bytes → Bytes → Bytes → Bytes × Bytes
event_fields [] event_type payload = (event_type, payload)
event_fields (l ∷ ls) event_type payload =
    let line = trim_right_cr l in
    elim (strip_prefix event_tag line) [
      | some t ↦ event_fields ls (trim_space t) payload
      | none ↦ elim (strip_prefix data_tag line) [
        | some d ↦ event_fields ls event_type (join_payload payload (trim_space d))
        | none ↦ event_fields ls event_type payload
      ]
    ]

is_done : Bytes → Bool
is_done payload = elim (strip_prefix done_payload payload) [ some [] ↦ true | _ ↦ false ]

absorb : Parsed → StreamChunkMeta → Parsed
absorb s c = record {
  model = if str_eq c.model "" then s.model else c.model;
  input_tokens = if ltb_ℤ (pos 0) c.input_tokens then c.input_tokens else s.input_tokens;
  output_tokens = if ltb_ℤ (pos 0) c.output_tokens then c.output_tokens else s.output_tokens;
  text = str_append s.text c.text;
}

-- What the reverse proxy calls: Read, with the bytes that the source gave, where the source has
-- more or fails, and where it is at its end; and Close.
pub data Action : Type 0 where
  read : Bytes → Action
  read_eof : Bytes → String → Time → Action
  close : String → Time → Action

-- ParseStreamChunk of an event's type and payload; `none` is an error or no chunk.
abbrev pub ParseStreamChunk : Type 0
ParseStreamChunk = Bytes → Bytes → Option StreamChunkMeta

module _ (parse_stream_chunk : ParseStreamChunk) where
  parse_payload : Parsed → Bytes → Bytes → Parsed
  unfolding is_done absorb
  parse_payload s event_type [] = s
  parse_payload s event_type (b ∷ bs) =
      if is_done (b ∷ bs)
      then s
      else elim (parse_stream_chunk event_type (b ∷ bs)) [ none ↦ s | some chunk ↦ absorb s chunk ]

  pub parse_sse_event : Parsed → Bytes → Parsed
  unfolding parse_payload event_fields
  parse_sse_event s raw =
      let (event_type, payload) = event_fields (split_lines raw) [] [] in
      parse_payload s event_type payload

  -- The loop of processEvents, on fuel.
  unfoldable pub drain : ℕ → Bytes → Parsed → Bytes × Parsed
  drain zero buf s = (buf, s)
  drain (suc n) buf s = elim (next_event buf) [
    | none ↦ (buf, s)
    | some (event, rest) ↦ drain n rest (parse_sse_event s event)
  ]

  -- processEvents: an event takes at least two bytes, so that the buffer's length is enough fuel.
  unfoldable pub process_events : StreamInterceptor → StreamInterceptor
  process_events s =
      let (rest, parsed) = drain (length s.parse_buf) s.parse_buf s.parsed in
      record s { parse_buf = rest; parsed = parsed }

  -- The bytes of one Read.
  unfoldable pub receive : StreamInterceptor → Bytes → StreamInterceptor
  receive s [] = s
  receive s (b ∷ bs) = process_events (record s { parse_buf = s.parse_buf ++ b ∷ bs })

  module _ (f : Float64) (prices : Meter f.Carrier) (get_encoding : String → Option Encoder) where
    recorded_model : StreamInterceptor → String
    recorded_model s =
        if str_eq s.parsed.model ""
        then elim s.context.meta_model [ none ↦ s.parsed.model | some model ↦ model ]
        else s.parsed.model

    -- Whether the provider told no output tokens, but text came.
    is_estimated : StreamInterceptor → Bool
    is_estimated s = elim s.parsed.output_tokens [
      | pos zero ↦ ltb 0 (len s.parsed.text)
      | _ ↦ false
    ]

    final_output : StreamInterceptor → ℤ
    unfolding recorded_model is_estimated
    final_output s =
        if is_estimated s
        then count_of get_encoding (recorded_model s) s.parsed.text
        else s.parsed.output_tokens

    stream_cost : StreamInterceptor → f.Carrier
    unfolding final_output
    stream_cost s = calculate f prices (recorded_model s) s.parsed.input_tokens (final_output s)

    -- The record of the stream; `ulid` is the fresh id.
    pub usage_record : StreamInterceptor → String → Time → UsageRecord f.Carrier
    unfolding stream_cost
    usage_record s ulid now =
        let c = s.context in
        record {
          id = ulid;
          timestamp = c.start;
          provider = c.provider;
          model = recorded_model s;
          api_key_hash = c.api_key_hash;
          input_tokens = s.parsed.input_tokens;
          output_tokens = final_output s;
          total_tokens = add64 s.parsed.input_tokens (final_output s);
          cost_usd = stream_cost s;
          estimated = is_estimated s;
          duration_ms = milliseconds (sub now c.start);
          status_code = pos 200;
          path = c.path;
          agent_id = c.agent_id;
          session_id = c.session_id;
          user_id = c.user_id;
          tenant_id = c.tenant_id;
        }

    pub charge : StreamInterceptor → List (Effect f.Carrier)
    unfolding stream_cost
    charge s =
        if s.context.tracked && not (str_eq s.context.session_id "")
        then charged s.context.session_id (stream_cost s)
            (add64 s.parsed.input_tokens (final_output s))
          ∷ []
        else []

    -- finalize
    pub finalize : StreamInterceptor → String → Time → StreamInterceptor × List (Effect f.Carrier)
    unfolding usage_record charge
    finalize s ulid now = if s.finalized then (s, []) else (
      record s { parsed = record s.parsed { output_tokens = final_output s }; finalized = true },
      recorded (usage_record s ulid now) ∷ charge s,
    )

    unfoldable pub act : StreamInterceptor → Action → StreamInterceptor × List (Effect f.Carrier)
    act s (read bytes) = (receive s bytes, [])
    act s (read_eof bytes ulid now) = finalize (receive s bytes) ulid now
    act s (close ulid now) = finalize s ulid now
