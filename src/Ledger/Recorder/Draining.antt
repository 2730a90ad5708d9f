-- ===== src/Ledger/Recorder/Draining.antt =====
-- Close: the workers empty the closed channel.
use agent_ledger.Base.{
  ℕ, suc, ◌+◌, ◌*◌, ◌≤◌, ℤ, pos, ◌<ℤ◌, ◌⊎◌, inl, inr, ◌≡◌, refl, ap, ◌∙◌, true, List, [], ◌∷◌,
  length, length-append, arith,
}
use agent_ledger.Ledger.Recorder.{
  Recorder, new_recorder, record_usage, Step, submits, takes, writes, closes, Reach, here, next,
  Drained,
}

module _ {R : Type 0} where
  -- The steps of a worker.
  abbrev pub Works : {r s : Recorder R} → Step r s → Type 0
  Works (submits x e) = ⊥
  Works (takes x rest i c e) = Unit
  Works (writes before x behind ok t e) = Unit
  Works (closes e) = ⊥

  -- A number of steps of workers.
  pub data Run (r : Recorder R) : ℕ → Recorder R → Type 0 where
    start : Run r 0 r
    more : {n : ℕ} {s t : Recorder R} → Run r n s → (st : Step s t) → Works st → Run r (suc n) t

  -- What is left for the workers: to take a record and to write it.
  abbrev pub load : Recorder R → ℕ
  load r = 2 * length r.ch + length r.taken

  Step-load : {r s : Recorder R} (st : Step r s) → Works st → suc (load s) ≡ load r
  Step-load (submits x e) w = absurd w
  Step-load (takes x rest i c e) w = rw e (ground (arith, ap (λ xs. length xs) c))
  Step-load (writes before x behind ok t e) w = rw e (
      ground (
        arith,
        ap (λ xs. length xs) t,
        length-append before (x ∷ behind),
        length-append before behind,
      ))
  Step-load (closes e) w = absurd w

  Step-closed : {r s : Recorder R} (st : Step r s) → Works st → s.closed ≡ r.closed
  Step-closed (submits x e) w = absurd w
  Step-closed (takes x rest i c e) w = rw e refl
  Step-closed (writes before x behind ok t e) w = rw e refl
  Step-closed (closes e) w = absurd w

  Run-load : {r s : Recorder R} {n : ℕ} → Run r n s → n + load s ≡ load r
  Run-load start = omega arith
  Run-load (more run st w) = omega (arith, Run-load run, Step-load st w)

  Run-closed : {r s : Recorder R} {n : ℕ} → Run r n s → s.closed ≡ r.closed
  Run-closed start = refl
  Run-closed (more run st w) = Step-closed st w ∙ Run-closed run

  -- A worker has something to do.
  abbrev pub Busy : Recorder R → Type 0
  Busy r = (s : Recorder R) × (st : Step r s) × Works st

  worker_progress :
      (r : Recorder R) (ch taken : List R)
      → r.ch ≡ ch
      → r.taken ≡ taken
      → r.closed ≡ true
      → pos 0 <ℤ r.workers
      → Drained r ⊎ Busy r
  worker_progress r [] [] c t d w = inl (d, c, t)
  worker_progress r (x ∷ rest) [] c t d w =
      let idle : pos (length r.taken) <ℤ r.workers = ground (arith, w, ap (λ xs. length xs) t) in
      inr (record r { ch = rest; taken = x ∷ r.taken }, takes x rest idle c refl, tt)
  worker_progress r ch (x ∷ behind) c t d w =
      inr (record r { taken = behind; written = x ∷ r.written }, writes [] x behind true t refl, tt)

  Step-workers : {r s : Recorder R} → Step r s → s.workers ≡ r.workers
  unfolding record_usage
  Step-workers {r} (submits x e) = rw e (ground arith)
  Step-workers (takes x rest i c e) = rw e refl
  Step-workers (writes before x behind ok t e) = rw e refl
  Step-workers (closes e) = rw e refl

  Reach-workers : {r s : Recorder R} → Reach r s → s.workers ≡ r.workers
  Reach-workers here = refl
  Reach-workers (next reach st) = Step-workers st ∙ Reach-workers reach

  Run-workers : {r s : Recorder R} {n : ℕ} → Run r n s → s.workers ≡ r.workers
  Run-workers start = refl
  Run-workers (more run st w) = Step-workers st ∙ Run-workers run

  -- A new recorder has a worker, whatever number it is asked for.
  new_recorder-workers :
      (b w : ℤ) (r : Recorder R)
      → r.workers ≡ (new_recorder {R = R} b w).workers
      → pos 0 <ℤ r.workers
  unfolding new_recorder
  new_recorder-workers b w r e = ground (arith, e)

  -- A recorder that was made with any numbers, and then closed, comes to its end: however its
  -- workers are scheduled and whatever the store answers, they take at most two steps for each
  -- record in the channel and one for each that they hold, and one of them can always go on until
  -- nothing is left.
  pub Run-Drained :
      (b w : ℤ) (r s : Recorder R) (n : ℕ)
      → Reach (new_recorder b w) r
      → r.closed ≡ true
      → Run r n s
      → (n ≤ load r) × (Drained s ⊎ Busy s)
  Run-Drained b w r s n reach d run = (
    omega (arith, Run-load run),
    worker_progress s s.ch s.taken refl refl (Run-closed run ∙ d)
        (new_recorder-workers b w s (Run-workers run ∙ Reach-workers reach)),
  )
