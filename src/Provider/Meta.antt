-- ===== src/Provider/Meta.antt =====
-- internal/provider/provider.go: what a provider tells of requests and replies.
use agent_ledger.Base.{ℤ, Bool, String}

pub record RequestMeta : Type 0 where
  pub model : String
  pub max_tokens : ℤ
  pub stream : Bool

pub record ResponseMeta : Type 0 where
  pub model : String
  pub input_tokens : ℤ
  pub output_tokens : ℤ
  pub total_tokens : ℤ

pub record StreamChunkMeta : Type 0 where
  pub model : String
  pub input_tokens : ℤ
  pub output_tokens : ℤ
  pub text : String
  pub done : Bool
