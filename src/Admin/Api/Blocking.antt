-- ===== src/Admin/Api/Blocking.antt =====
-- What blocking and unblocking a key does to the store, to the blocklist, and to the proxy that has it.
use agent_ledger.Base.{
  Bool, true, false, ◌≡◌, ◌≢◌, sym, subst, ap, ◌∙◌, inl, inr, String, str_eq, eq_iff, Option, some,
  List, [], ◌∷◌, ◌++◌, arith, Bool-cases,
}
use agent_ledger.Base.Float64.{Float64}
use agent_ledger.Base.Clock.{Time}
use agent_ledger.Access.Keys.{extract_api_key}
use agent_ledger.Access.Blocklist.{Blocklist, refresh, any_match, is_blocked}
use agent_ledger.Budget.Spend.{Ledger, Calendar}
use agent_ledger.Provider.Meta.{RequestMeta}
use agent_ledger.Proxy.Handler.{
  Proxy, Request as ProxyRequest, Instants, parsed, key_blocked, serve_http,
}
use agent_ledger.Proxy.Handler.Blocked.{serve_http-blocked}
use agent_ledger.Ledger.Usage.{CostEntry, CostFilter}
use agent_ledger.Admin.Store.{RoundTrips, stored, get_json-set, set_json_encoded}
use agent_ledger.Admin.Types.{
  Handler, Formats, Request, Moment, Reply, pattern_created, no_content, without, blocked_key,
}
use agent_ledger.Admin.Api.{
  handle_block_key, handle_unblock_key, save_patterns, read_patterns, reread, reload_patterns,
}

any_match-append :
    (glob : String → String → Bool) (ps : List String) (p key : String)
    → glob p key ≡ true
    → any_match glob (ps ++ p ∷ []) key ≡ true
unfolding any_match
any_match-append glob [] p key m = ground (arith, m)
any_match-append glob (q ∷ ps) p key m = ground (arith, any_match-append glob ps p key m)

-- A list that was just refreshed judges by what was read, where a re-read gives the same.
is_blocked-refresh :
    (glob : String → String → Bool) (b : Blocklist) (patterns : List String) (key : String)
    (loaded now reloaded : Time)
    → (is_blocked glob (refresh b (some patterns) loaded) (some patterns) key now reloaded).1
      ≡ any_match glob patterns key
unfolding is_blocked refresh
is_blocked-refresh glob b patterns key loaded now reloaded = ground arith

module _ (f : Float64) (formats : Formats f.Carrier) (cal : Calendar)
    (query_costs : CostFilter → List (CostEntry f.Carrier) × Bool) where
  -- A call whose write and whose refresh the database does not fail, of patterns that can be written.
  pub record Saved (h : Handler f.Carrier) (t : Moment) (saved : List String) : Type 0 where
    pub text : String
    pub encoded : formats.patterns.encode saved ≡ some text
    pub write_works : t.write_fails ≡ false
    pub refresh_works : t.refresh_fails ≡ false

  save_patterns-Saved :
      (h : Handler f.Carrier) (t : Moment) (saved : List String) (reply : Reply f.Carrier)
      → RoundTrips formats.patterns
      → Saved h t saved
      → let (h', answer) = save_patterns f formats cal query_costs h t saved reply in
        (answer ≡ reply)
        × (stored formats.patterns h'.rows blocked_key ≡ saved)
        × (h'.blocklist ≡ reload_patterns h.blocklist (some saved) t.reloaded_at)
  unfolding save_patterns reread
  save_patterns-Saved h t saved reply law s =
      let (rows, g) =
        set_json_encoded formats.patterns h.rows t.write_fails blocked_key saved s.text s.encoded
          s.write_works in
      let read = get_json-set formats.patterns h.rows rows t.write_fails blocked_key saved law g in
      (ground (arith, g), ground (arith, g, read), ground (arith, g, read, s.refresh_works))

  block_key-Saved :
      (h : Handler f.Carrier) (r : Request) (t : Moment) (pattern : String)
      → RoundTrips formats.patterns
      → formats.pattern_body r.body ≡ inr pattern
      → pattern ≢ ""
      → Saved h t ((read_patterns f formats cal query_costs h t).0 ++ pattern ∷ [])
      → let (h', reply) = handle_block_key f formats cal query_costs h r t in
        let saved = (read_patterns f formats cal query_costs h t).0 ++ pattern ∷ [] in
        (reply ≡ pattern_created pattern)
        × (stored formats.patterns h'.rows blocked_key ≡ saved)
        × (h'.blocklist ≡ reload_patterns h.blocklist (some saved) t.reloaded_at)
  unfolding handle_block_key
  block_key-Saved h r t pattern law b ne s =
      let saved = (read_patterns f formats cal query_costs h t).0 ++ pattern ∷ [] in
      let (replied, kept, listed) = save_patterns-Saved h t saved (pattern_created pattern) law s in
      (
        ground (arith, b, eq_iff pattern "", replied),
        ground (arith, b, eq_iff pattern "", kept),
        ground (arith, b, eq_iff pattern "", listed),
      )

  module _ (glob : String → String → Bool) (ledger : Ledger f.Carrier)
      (digest : String → String) where
    -- A key pattern that is blocked is answered with 201, and a proxy whose blocklist is the one that
    -- the call leaves refuses a routed request with a readable body whose key matches the pattern.
    -- This holds where the pattern is not empty, the database does not fail the call's write and
    -- refresh, and the store, should the blocklist be due to read it again, can be read and holds
    -- what the call wrote.
    pub block_key-serve_http :
        (h : Handler f.Carrier) (r : Request) (t : Moment) (pattern : String) (b : Blocklist)
        (p : Proxy f.Carrier) (q : ProxyRequest) (now : Instants) (meta : Option RequestMeta)
        → RoundTrips formats.patterns
        → formats.pattern_body r.body ≡ inr pattern
        → pattern ≢ ""
        → Saved h t ((read_patterns f formats cal query_costs h t).0 ++ pattern ∷ [])
        → h.blocklist ≡ some b
        → p.blocklist ≡ (handle_block_key f formats cal query_costs h r t).0.blocklist
        → now.patterns
          ≡ some (
              stored formats.patterns
                (handle_block_key f formats cal query_costs h r t).0.rows
                blocked_key)
        → q.path ≢ "/health"
        → q.detected ≡ true
        → q.body ≡ parsed meta
        → glob pattern (extract_api_key q.headers) ≡ true
        → ((handle_block_key f formats cal query_costs h r t).1 ≡ pattern_created pattern)
          × ((serve_http f glob ledger cal digest p q now).answer ≡ key_blocked)
    block_key-serve_http h r t pattern b p q now meta law body ne s has same answered path detected
          body_parsed match =
        let (replied, kept, listed) = block_key-Saved h r t pattern law body ne s in
        let saved = (read_patterns f formats cal query_costs h t).0 ++ pattern ∷ [] in
        let b' = refresh b (some saved) t.reloaded_at in
        let key = extract_api_key q.headers in
        let listed' = listed ∙ ap (λ o. reload_patterns o (some saved) t.reloaded_at) has in
        let judged =
          is_blocked-refresh glob b saved key t.reloaded_at now.blocked_at now.reloaded_at
          ∙ any_match-append glob (read_patterns f formats cal query_costs h t).0 pattern key
              match in
        (
          replied,
          serve_http-blocked f glob ledger cal digest p q now b' meta path detected body_parsed
              (same ∙ listed')
              (subst (λ o. (is_blocked glob b' o key now.blocked_at now.reloaded_at).1 ≡ true)
                (sym (answered ∙ ap some kept)) judged),
        )

  without-append :
      (x : String) (ps : List String)
      → (without (λ p. p) x ps).1 ≡ false
      → without (λ p. p) x (ps ++ x ∷ []) ≡ (ps, true)
  unfolding without
  without-append x [] n = ground (arith, eq_iff x x)
  without-append x (p ∷ ps) n = elim (Bool-cases (str_eq p x)) [
    | inl b ↦ absurd (ground (arith, b, n))
    | inr b ↦ let rest = without-append x ps (ground (arith, b, n)) in ground (arith, b, rest)
  ]

  unblock_key-listed :
      (h : Handler f.Carrier) (r : Request) (t : Moment) (pattern : String) (before : List String)
      → (read_patterns f formats cal query_costs h t).0 ≡ before ++ pattern ∷ []
      → r.headers.query "pattern" ≡ pattern
      → pattern ≢ ""
      → (without (λ p. p) pattern before).1 ≡ false
      → handle_unblock_key f formats cal query_costs h r t
        ≡ save_patterns f formats cal query_costs h t before no_content
  unfolding handle_unblock_key
  unblock_key-listed h r t pattern before listed asked ne fresh =
      let found : without (λ p. p) (r.headers.query "pattern")
            (read_patterns f formats cal query_costs h t).0
          ≡ (before, true) =
        ap (λ x. without (λ p. p) x (read_patterns f formats cal query_costs h t).0) asked
        ∙ ap (λ ps. without (λ p. p) pattern ps) listed
        ∙ without-append pattern before fresh in
      ground (arith, found, asked, eq_iff pattern "")

  -- Blocking a pattern that was not on the list and unblocking it again answers 204 and restores
  -- the stored list, which the blocklist then has, where the database does not fail the two calls.
  pub unblock_key-block :
      (h : Handler f.Carrier) (r s : Request) (t u : Moment) (pattern : String)
      → RoundTrips formats.patterns
      → formats.pattern_body r.body ≡ inr pattern
      → s.headers.query "pattern" ≡ pattern
      → pattern ≢ ""
      → t.read_fails ≡ false
      → u.read_fails ≡ false
      → (without (λ p. p) pattern (stored formats.patterns h.rows blocked_key)).1 ≡ false
      → Saved h t (stored formats.patterns h.rows blocked_key ++ pattern ∷ [])
      → Saved
          (handle_block_key f formats cal query_costs h r t).0
          u
          (stored formats.patterns h.rows blocked_key)
      → let h' = (handle_block_key f formats cal query_costs h r t).0 in
        let (h'', reply) = handle_unblock_key f formats cal query_costs h' s u in
        (reply ≡ no_content)
        × (stored formats.patterns h''.rows blocked_key
            ≡ stored formats.patterns h.rows blocked_key)
        × (h''.blocklist
            ≡ reload_patterns h'.blocklist
                (some (stored formats.patterns h.rows blocked_key))
                u.reloaded_at)
  unfolding read_patterns
  unblock_key-block h r s t u pattern law body asked ne ok_t ok_u fresh saves restores =
      let before = stored formats.patterns h.rows blocked_key in
      let h' = (handle_block_key f formats cal query_costs h r t).0 in
      let read : (read_patterns f formats cal query_costs h t).0 ≡ before = ground (arith, ok_t) in
      let (replied, kept, listed) =
        block_key-Saved h r t pattern law body ne
          (subst (λ ps. Saved h t (ps ++ pattern ∷ [])) (sym read) saves) in
      let read' : (read_patterns f formats cal query_costs h' u).0 ≡ before ++ pattern ∷ [] =
        ground (arith, ok_u) ∙ kept ∙ ap (λ ps. ps ++ pattern ∷ []) read in
      let undone = unblock_key-listed h' s u pattern before read' asked ne fresh in
      let (replied', kept', listed') = save_patterns-Saved h' u before no_content law restores in
      (
        ap (λ x. x.1) undone ∙ replied',
        ap (λ x. stored formats.patterns x.0.rows blocked_key) undone ∙ kept',
        ap (λ x. x.0.blocklist) undone ∙ listed',
      )
