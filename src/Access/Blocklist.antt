-- ===== src/Access/Blocklist.antt =====
-- internal/admin/blocklist.go: blocked API keys, read from the store at most every ten seconds.
use agent_ledger.Base.{
  pos, String, Bool, true, false, Option, none, some, List, [], ◌∷◌, if◌then◌else◌, ltb_ℤ, ◌≡◌,
  arith, ◌<ℤ◌,
}
use agent_ledger.Base.Clock.{Time, Duration, sub}

pub record Blocklist : Type 0 where
  pub patterns : List String
  pub last_load : Time
  pub ttl : Duration

-- NewBlocklist
pub new_blocklist : Blocklist
new_blocklist = record { patterns = []; last_load = pos 0; ttl = pos 10000000000 }

-- What GetJSON leaves in an empty list: nothing where it fails or the key is missing.
abbrev pub loaded : Option (List String) → List String
loaded none = []
loaded (some patterns) = patterns

-- refresh; `stored` is the answer of the store, `none` an error.
unfoldable pub refresh : Blocklist → Option (List String) → Time → Blocklist
refresh b stored now = record b { patterns = loaded stored; last_load = now }

module _ (glob : String → String → Bool) where
  unfoldable pub any_match : List String → String → Bool
  any_match [] key = false
  any_match (p ∷ ps) key = if glob p key then true else any_match ps key

  -- IsBlocked: `now` is when the age is tested, `reloaded` when a refresh ends.
  unfoldable pub is_blocked :
      Blocklist → Option (List String) → String → Time → Time → Blocklist × Bool
  unfolding any_match refresh
  is_blocked b stored raw_key now reloaded =
      let b' = if ltb_ℤ b.ttl (sub now b.last_load) then refresh b stored reloaded else b in
      (b', any_match b'.patterns raw_key)

  -- Once the list is older than its time to live, a request is judged by what the store holds; and
  -- where the store cannot be read, no key is blocked, not even one that was blocked before.
  pub is_blocked_stale :
      (b : Blocklist) (stored : Option (List String)) (key : String) (now reloaded : Time)
      → b.ttl <ℤ sub now b.last_load
      → ((is_blocked b stored key now reloaded).1 ≡ any_match (loaded stored) key)
        × ((is_blocked b none key now reloaded).1 ≡ false)
  unfolding is_blocked
  is_blocked_stale b stored key now reloaded h = (ground arith, ground arith)
