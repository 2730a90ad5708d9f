-- ===== src/Ledger/Examples.antt =====
-- A recorder with room for one record, that is given two and closed.
use agent_ledger.Base.Differing.{str_eq-ne}
use agent_ledger.Base.{
  arith, ℕ, ◌≡◌, ℤ, pos, false, none, some, String, List, ◌≤◌, ◌⊎◌, refl, true, [], ◌∷◌, ltb,
}
use agent_ledger.Base.FixedPoint.{thousandths, sum_ℤ, first_ℤ}
use agent_ledger.Base.Clock.{Time}
use agent_ledger.Agent.Session.{Session, active}
use agent_ledger.Ledger.Usage.{UsageRecord}
use agent_ledger.Ledger.Store.{
  Database, Sql, total_of, get_total_spend, get_total_spend_by_tenant, get_session, upsert_session,
  query_error_stats,
}
use agent_ledger.Ledger.Store.Spending.{record_each, spendings, listed, get_total_spend-record_each}
use agent_ledger.Ledger.Store.Sessions.{ReadBack, get_session-upsert}
use agent_ledger.Ledger.Store.Errors.{selected, Counted, query_error_stats-Counted}
use agent_ledger.Ledger.Recorder.{
  Recorder, new_recorder, record_usage, submits, takes, writes, closes, Reach, here, next, Drained,
}
use agent_ledger.Ledger.Recorder.Draining.{Run, start, more, load, Busy, Run-Drained}
use agent_ledger.Ledger.Recorder.Conservation.{Balanced, Reach-new-Balanced}

abbrev fresh : Recorder ℕ
fresh = new_recorder (pos 1) (pos 1)

abbrev full : Recorder ℕ
full = (record_usage (record_usage fresh 7).0 8).0

abbrev busy : Recorder ℕ
busy = record full { ch = []; taken = 7 ∷ [] }

abbrev closed : Recorder ℕ
closed = record busy { closed = true }

abbrev done : Recorder ℕ
done = record closed { taken = []; written = 7 ∷ [] }

done-Reach : Reach fresh done
unfolding record_usage new_recorder
done-Reach =
    next
      (next
        (next (next (next here (submits 7 refl)) (submits 8 refl))
          (takes 7 [] (ground arith) refl refl))
        (closes refl))
      (writes [] 7 [] true refl refl)

Reach-new-Balanced_example : Balanced (λ x. ltb 5 x) done
Reach-new-Balanced_example = Reach-new-Balanced (λ x. ltb 5 x) (pos 1) (pos 1) done done-Reach

-- The worker of the closed recorder, from its taking of the record.
abbrev waiting : Recorder ℕ
waiting = record full { closed = true }

waiting-Reach : Reach fresh waiting
unfolding record_usage new_recorder
waiting-Reach = next (next (next here (submits 7 refl)) (submits 8 refl)) (closes refl)

waiting-Run : Run waiting 2 done
unfolding record_usage new_recorder
waiting-Run =
    more (more start (takes 7 [] (ground arith) refl refl) tt) (writes [] 7 [] true refl refl) tt

Run-Drained_example : (2 ≤ load waiting) × (Drained done ⊎ Busy done)
unfolding record_usage new_recorder
Run-Drained_example = Run-Drained (pos 1) (pos 1) waiting done 2 waiting-Reach refl waiting-Run

-- A call of the key "h" by the tenant "acme", with its id, its time and its status.
abbrev call : String → Time → ℤ → UsageRecord ℤ
call id at status = record {
  id = id;
  timestamp = at;
  provider = "openai";
  model = "gpt-4o";
  api_key_hash = "h";
  input_tokens = pos 5;
  output_tokens = pos 2;
  total_tokens = pos 7;
  cost_usd = pos 30;
  estimated = false;
  duration_ms = pos 12;
  status_code = status;
  path = "/v1/models";
  agent_id = "";
  session_id = "s1";
  user_id = "";
  tenant_id = "acme";
}

-- Amounts in thousandths, summed exactly, with averages rounded to their first term.
abbrev sql : Sql ℤ
sql = record { sum = sum_ℤ; avg = first_ℤ; avg_int = first_ℤ }

abbrev empty : Database ℤ
empty = record { usage_records = []; agent_sessions = [] }

abbrev two_calls : List (UsageRecord ℤ)
two_calls = call "u1" (pos 3) (pos 200) ∷ call "u2" (pos 9) (pos 429) ∷ []

-- The first call is written a second time.
get_total_spend-record_each_example :
    let db = record_each empty (call "u1" (pos 4) (pos 200) ∷ two_calls) in
    (get_total_spend thousandths sql db "h" (pos 1) (pos 10)
      ≡ total_of thousandths sql (pos 30 ∷ pos 30 ∷ []))
    × (get_total_spend_by_tenant thousandths sql db "h" (pos 1) (pos 10)
        ≡ total_of thousandths sql [])
unfolding spendings listed
get_total_spend-record_each_example =
    get_total_spend-record_each thousandths sql [] (call "u1" (pos 4) (pos 200) ∷ two_calls) "h"
      (pos 1) (pos 10)

query_error_stats-Counted_example :
    let db = record empty { usage_records = two_calls } in
    Counted thousandths sql
      (selected thousandths sql db (pos 4) (pos 10) "acme")
      (query_error_stats thousandths sql db (pos 4) (pos 10) "acme")
query_error_stats-Counted_example =
    query_error_stats-Counted thousandths sql (record empty { usage_records = two_calls }) (pos 4)
      (pos 10) "acme"

-- A session, as it is first written, and after its tracker was started anew.
abbrev session : ℤ → Session ℤ
session calls = record {
  id = "s1";
  agent_id = "a";
  user_id = "";
  task = "";
  started_at = pos 1;
  ended_at = none;
  status = active;
  call_count = calls;
  total_cost_usd = pos 30;
  total_tokens = pos 7;
}

get_session-upsert_example :
    let db = record empty { agent_sessions = session (pos 9) ∷ [] } in
    ((got : Session ℤ) × (get_session (upsert_session db (session (pos 1))) "s1" ≡ some got)
      × ReadBack (get_session db "s1") (session (pos 1)) got)
    × (get_session (upsert_session db (session (pos 1))) "s2" ≡ get_session db "s2")
get_session-upsert_example =
    get_session-upsert (record empty { agent_sessions = session (pos 9) ∷ [] }) (session (pos 1))
      "s2" (str_eq-ne "s1" "s2" refl)
