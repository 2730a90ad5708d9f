-- ===== src/Ledger/Recorder/Conservation.antt =====
-- No record is lost in silence, written twice or made up.
use agent_ledger.Base.{
  ℕ, zero, suc, ◌+◌, ℤ, pos, ◌≤ℤ◌, Bool, List, [], ◌∷◌, ◌++◌, if◌then◌else◌, length, length-append,
  ◌≡◌, arith, ap, add64,
}
use agent_ledger.Ledger.Recorder.{
  Recorder, new_recorder, record_usage, Step, submits, takes, writes, closes, Reach, here, next,
  Drained,
}

-- A counter that has been raised by one so many times.
pub counter : ℕ → ℤ
counter zero = pos 0
counter (suc n) = add64 (counter n) (pos 1)

module _ {R : Type 0} (p : R → Bool) where
  -- How many records of a list pass the test `p`.
  pub tally : List R → ℕ
  tally [] = 0
  tally (x ∷ xs) = let rest = tally xs in if p x then suc rest else rest

  tally-append : (xs ys : List R) → tally (xs ++ ys) ≡ tally xs + tally ys
  unfolding tally
  tally-append [] ys = omega arith
  tally-append (x ∷ xs) ys = ground (arith, tally-append xs ys)

  -- Every submitted record is in exactly one place, the channel is no longer than its buffer, no
  -- more records are held than there are workers, and each dropped record has been counted.
  pub record Balanced (r : Recorder R) : Type 0 where
    pub balance :
        tally r.submitted
        ≡ tally r.lost + tally r.ch + tally r.taken + tally r.written + tally r.failed
    pub fits : pos (length r.ch) ≤ℤ r.buf_size
    pub held : pos (length r.taken) ≤ℤ r.workers
    pub counted : r.dropped ≡ counter (length r.lost)

  record_usage-Balanced : (r : Recorder R) (x : R) → Balanced r → Balanced (record_usage r x).0
  unfolding record_usage tally counter
  record_usage-Balanced r x b =
      ground (arith, tally-append r.ch (x ∷ []), length-append r.ch (x ∷ []))

  Step-Balanced : {r s : Recorder R} → Step r s → Balanced r → Balanced s
  unfolding tally
  Step-Balanced {r} (submits x e) b = rw e (record_usage-Balanced r x b)
  Step-Balanced {r} (takes x rest i c e) b =
      rw e (ground (arith, i, ap tally c, ap (λ xs. length xs) c))
  Step-Balanced {r} (writes before x behind ok t e) b = rw e (
      ground (
        arith,
        ap tally t,
        tally-append before (x ∷ behind),
        tally-append before behind,
        ap (λ xs. length xs) t,
        length-append before (x ∷ behind),
        length-append before behind,
      ))
  Step-Balanced {r} (closes e) b =
      rw e (record { balance = b.balance; fits = b.fits; held = b.held; counted = b.counted })

  Reach-Balanced : {r s : Recorder R} → Balanced r → Reach r s → Balanced s
  Reach-Balanced b here = b
  Reach-Balanced b (next w st) = Step-Balanced st (Reach-Balanced b w)

  new_recorder-Balanced : (b w : ℤ) → Balanced (new_recorder b w)
  unfolding new_recorder tally counter
  new_recorder-Balanced b w = ground arith

  -- In every reachable state, of the submitted records that pass any test, as many are in the
  -- channel, with a worker, written, refused by the store, or dropped; the channel never
  -- holds more than its buffer, nor the workers more than one each; and the counter has counted each dropped record.
  pub Reach-new-Balanced : (b w : ℤ) (s : Recorder R) → Reach (new_recorder b w) s → Balanced s
  Reach-new-Balanced b w s = Reach-Balanced (new_recorder-Balanced b w)

  -- When Close returns, every submitted record has been written, refused by the store or dropped.
  pub Drained-written :
      (b w : ℤ) (s : Recorder R)
      → Reach (new_recorder b w) s
      → Drained s
      → tally s.submitted ≡ tally s.lost + tally s.written + tally s.failed
  unfolding tally
  Drained-written b w s r d =
      omega (arith, (Reach-new-Balanced b w s r).balance, ap tally d.1, ap tally d.2)
