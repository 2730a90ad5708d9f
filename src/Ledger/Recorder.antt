-- ===== src/Ledger/Recorder.antt =====
-- internal/ledger/recorder.go: a bounded channel drained by workers. A state holds the channel's
-- content, the records that workers have taken, and, as history, what was submitted, dropped,
-- written and refused by the store. A step is one action of a client, a worker or Close.
pub mod Conservation
pub mod Draining
use agent_ledger.Base.{
  ℕ, suc, ℤ, pos, ◌<ℤ◌, Bool, true, false, List, [], ◌∷◌, ◌++◌, ltb, leb_ℤ, add64, if◌then◌else◌,
  length, ◌≡◌,
}

pub record Recorder (R : Type 0) : Type 0 where
  pub buf_size : ℤ
  pub workers : ℤ
  pub ch : List R
  pub taken : List R
  pub closed : Bool
  pub dropped : ℤ
  pub submitted : List R
  pub lost : List R
  pub written : List R
  pub failed : List R

-- The outcome of a send: `panicked` is a send on a closed channel.
pub data Sent : Type 0 where
  queued discarded panicked : Sent

module _ {R : Type 0} where
  -- NewRecorder
  unfoldable pub new_recorder : ℤ → ℤ → Recorder R
  new_recorder buf_size workers = record {
    buf_size = if leb_ℤ buf_size (pos 0) then pos 10000 else buf_size;
    workers = if leb_ℤ workers (pos 0) then pos 4 else workers;
    ch = [];
    taken = [];
    closed = false;
    dropped = pos 0;
    submitted = [];
    lost = [];
    written = [];
    failed = [];
  }

  -- Record: the select sends if there is room, and otherwise counts a drop.
  unfoldable pub record_usage : Recorder R → R → Recorder R × Sent
  record_usage r x =
      if r.closed
      then (r, panicked)
      else if leb_ℤ r.buf_size (pos (length r.ch))
      then (
        record r {
          dropped = add64 r.dropped (pos 1);
          submitted = x ∷ r.submitted;
          lost = x ∷ r.lost;
        },
        discarded,
      )
      else (record r { ch = r.ch ++ x ∷ []; submitted = x ∷ r.submitted }, queued)

  -- One step of the system. A worker holds one record at a time, so that one takes a record only
  -- while there is a worker that holds none; `ok` is the store's answer to RecordUsage.
  pub data Step (r : Recorder R) : Recorder R → Type 0 where
    submits : (x : R) {s : Recorder R} → s ≡ (record_usage r x).0 → Step r s
    takes :
        (x : R) (rest : List R) {s : Recorder R}
        → pos (length r.taken) <ℤ r.workers
        → r.ch ≡ x ∷ rest
        → s ≡ record r { ch = rest; taken = x ∷ r.taken }
        → Step r s
    writes :
        (before : List R) (x : R) (behind : List R) (ok : Bool) {s : Recorder R}
        → r.taken ≡ before ++ x ∷ behind
        → s ≡ record r {
          taken = before ++ behind;
          written = if ok then x ∷ r.written else r.written;
          failed = if ok then r.failed else x ∷ r.failed;
        }
        → Step r s
    closes : {s : Recorder R} → s ≡ record r { closed = true } → Step r s

  pub data Reach (r : Recorder R) : Recorder R → Type 0 where
    here : Reach r r
    next : {s t : Recorder R} → Reach r s → Step s t → Reach r t

  -- Close returns when every worker has found the closed channel empty and is done.
  abbrev pub Drained : Recorder R → Type 0
  Drained r = (r.closed ≡ true) × (r.ch ≡ []) × (r.taken ≡ [])
