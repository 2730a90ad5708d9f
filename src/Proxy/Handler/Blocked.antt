-- ===== src/Proxy/Handler/Blocked.antt =====
-- A request whose key the blocklist blocks.
use agent_ledger.Base.{Bool, true, ◌≡◌, ◌≢◌, String, eq_iff, Option, some, arith}
use agent_ledger.Base.Float64.{Float64}
use agent_ledger.Access.Keys.{extract_api_key}
use agent_ledger.Access.Blocklist.{Blocklist, is_blocked}
use agent_ledger.Budget.Spend.{Ledger, Calendar}
use agent_ledger.Provider.Meta.{RequestMeta}
use agent_ledger.Proxy.Handler.{
  Proxy, Request, parsed, Instants, key_blocked, blocklist_guard, guards, serve_http,
}

module _ (f : Float64) (glob : String → String → Bool) (ledger : Ledger f.Carrier) (cal : Calendar)
    (digest : String → String) where
  pub serve_http-blocked :
      (p : Proxy f.Carrier) (r : Request) (t : Instants) (b : Blocklist) (meta : Option RequestMeta)
      → r.path ≢ "/health"
      → r.detected ≡ true
      → r.body ≡ parsed meta
      → p.blocklist ≡ some b
      → (is_blocked glob b t.patterns (extract_api_key r.headers) t.blocked_at t.reloaded_at).1
        ≡ true
      → (serve_http f glob ledger cal digest p r t).answer ≡ key_blocked
  unfolding serve_http guards blocklist_guard
  serve_http-blocked p r t b meta path detected body listed blocked =
      ground (arith, detected, body, listed, blocked, eq_iff r.path "/health")
