-- ===== src/Sim/Cycle.antt =====
-- `doCycle` over a run: the window of the trace, the use of the trace file, and the end by timeout.
use tinylabs_cores.Common.{
  ℕ, zero, suc, ◌+◌, ◌-◌, ◌%◌, ◌^◌, ◌≤◌, ◌<◌, ◌≡◌, ◌≢◌, refl, sym, ap, ◌∙◌, Bool, true, false, not,
  ◌&&◌, ◌⊎◌, inl, inr, Option, none, some, List, [], ◌∷◌, ◌++◌, leb, ◌==◌, if◌then◌else◌, arith,
  Bool-cases, u64,
}
use mathlib.Core.Path.{subst}
use native.Mathlib.Nat.{mod-eq_of_lt}
use tinylabs_cores.Sim.{
  Clock, TraceCall, open_trace, dump, flush_trace, close_trace, switch_dump, do_cycle, run_cycles,
  go_on,
}

-- Does a trace file, open or not at first, take the calls: none opens it twice, and none writes to
-- it while it is closed? If so, is it open at the end?
pub accepts : Bool → List TraceCall → Option Bool
accepts is_open [] = some is_open
accepts is_open (open_trace ∷ calls) = if is_open then none else accepts true calls
accepts is_open (dump t ∷ calls) = if is_open then accepts true calls else none
accepts is_open (flush_trace ∷ calls) = accepts is_open calls
accepts is_open (close_trace ∷ calls) = accepts false calls

pub bind {ℓ κ} : {A : Type ℓ} {B : Type κ} → Option A → (A → Option B) → Option B
bind none f = none
bind (some a) f = f a

accepts-append :
    (b : Bool) (xs ys : List TraceCall)
    → accepts b (xs ++ ys) ≡ bind (accepts b xs) (λ b'. accepts b' ys)
unfolding accepts bind
accepts-append b [] ys = refl
accepts-append b (open_trace ∷ xs) ys = ground (arith, accepts-append true xs ys)
accepts-append b (dump t ∷ xs) ys = ground (arith, accepts-append true xs ys)
accepts-append b (flush_trace ∷ xs) ys = accepts-append b xs ys
accepts-append b (close_trace ∷ xs) ys = accepts-append false xs ys

switch-accepts :
    (c : Clock) → accepts c.fst_dumping (switch_dump c).1 ≡ some (switch_dump c).0.fst_dumping
unfolding switch_dump accepts
switch-accepts c = ground arith

-- The calls of a cycle up to its tests.
abbrev pub early_calls : Clock → List TraceCall
early_calls c =
    (switch_dump c).1
    ++ (if (switch_dump c).0.fst_dumping then dump (switch_dump c).0.t ∷ [] else [])

early-accepts :
    (c : Clock) → accepts c.fst_dumping (early_calls c) ≡ some (switch_dump c).0.fst_dumping
unfolding accepts bind
early-accepts c =
    accepts-append c.fst_dumping (switch_dump c).1 _
    ∙ rw (switch-accepts c) (dumped (switch_dump c).0.fst_dumping (switch_dump c).0.t)
  where
    dumped : (b : Bool) (t : ℕ) → accepts b (if b then dump t ∷ [] else []) ≡ some b
    dumped true t = refl
    dumped false t = refl

abbrev pub timed : Clock → Bool
timed c = not (c.timeout == 0) && leb c.timeout c.t

-- The clock when the tests of a cycle are made, and after them.
abbrev pub tested : Clock → Clock
tested c = (switch_dump c).0

abbrev pub ticked : Clock → Clock
ticked c = record (tested c) { t = u64 ((tested c).t + 1) }

module _ (c : Clock) where
  pub cycle_timeout :
      (f : Bool) → timed (tested c) ≡ true → do_cycle f c ≡ (tested c, early_calls c, false)
  unfolding do_cycle
  cycle_timeout f late = rw late refl

  pub cycle_finish :
      timed (tested c) ≡ false
      → do_cycle true c ≡ (tested c, early_calls c ++ (flush_trace ∷ close_trace ∷ []), false)
  unfolding do_cycle
  cycle_finish early = rw early refl

  pub cycle_tick : timed (tested c) ≡ false → do_cycle false c ≡ (ticked c, early_calls c, true)
  unfolding do_cycle
  cycle_tick early = rw early refl

  -- The calls of a cycle go before those of the rest of the run.
  abbrev pub after_tick : Clock × List TraceCall × Bool → Clock × List TraceCall × Bool
  after_tick (c', later, ended) = (c', early_calls c ++ later, ended)

  -- One step of a run, by how its cycle ends.
  pub run_step :
      (P : Clock × List TraceCall × Bool → Type 0) (n : ℕ) (finished : ℕ → Bool)
      → (timed (tested c) ≡ true → P (tested c, early_calls c, true))
      → (timed (tested c) ≡ false
          → finished c.t ≡ true
          → P (tested c, early_calls c ++ (flush_trace ∷ close_trace ∷ []), true))
      → (timed (tested c) ≡ false
          → finished c.t ≡ false
          → P (after_tick (run_cycles n finished (ticked c))))
      → P (run_cycles (suc n) finished c)
  unfolding run_cycles go_on
  run_step P n finished late over more = elim (Bool-cases (timed (tested c))) [
    | inl timeout ↦
        subst (λ d. P (go_on d (run_cycles n finished)))
          (sym (cycle_timeout (finished c.t) timeout)) (late timeout)
    | inr early ↦ elim (Bool-cases (finished c.t)) [
      | inl finish ↦
          subst (λ d. P (go_on d (run_cycles n finished)))
            (sym (ap (λ f. do_cycle f c) finish ∙ cycle_finish early)) (over early finish)
      | inr going ↦
          subst (λ d. P (go_on d (run_cycles n finished)))
            (sym (ap (λ f. do_cycle f c) going ∙ cycle_tick early)) (more early going)
    ]
  ]

-- The first statement of a cycle changes neither the time nor the timeout.
pub switch-keeps :
    (c : Clock) → ((switch_dump c).0.t ≡ c.t) × ((switch_dump c).0.timeout ≡ c.timeout)
unfolding switch_dump
switch-keeps c = ground arith

-- Over any run of `doCycle`, with a trace file that is open at first exactly if `fstDumping` is
-- true, each dump goes to an open file and no open file is opened again.
pub run_cycles-accepts :
    (n : ℕ) (finished : ℕ → Bool) (c : Clock)
    → (b : Bool) × (accepts c.fst_dumping (run_cycles n finished c).1 ≡ some b)
unfolding run_cycles accepts bind
run_cycles-accepts zero finished c = (c.fst_dumping, refl)
run_cycles-accepts (suc n) finished c =
    run_step c (λ r. (b : Bool) × (accepts c.fst_dumping r.1 ≡ some b)) n finished
      (λ late. ((tested c).fst_dumping, early-accepts c))
      (λ early finish. (
        false,
        accepts-append c.fst_dumping (early_calls c) (flush_trace ∷ close_trace ∷ [])
            ∙ ap (λ o. bind o (λ b. accepts b (flush_trace ∷ close_trace ∷ []))) (early-accepts c),
      ))
      (λ early going.
        let later : List TraceCall = (run_cycles n finished (ticked c)).1 in
        let (b, e) = run_cycles-accepts n finished (ticked c) in
        (
          b,
          accepts-append c.fst_dumping (early_calls c) later
              ∙ ap (λ o. bind o (λ b. accepts b later)) (early-accepts c)
              ∙ e,
        ))

-- The end of a run: by the timeout, or by `$finish` before it.
abbrev pub EndsBy : ℕ → (ℕ → Bool) → Clock × List TraceCall × Bool → Type 0
EndsBy limit finished (c, calls, ended) =
    (ended ≡ true) × (c.t ≤ limit) × ((c.t ≡ limit) ⊎ (finished c.t ≡ true))

pub reached : (limit t : ℕ) → (not (limit == 0) && leb limit t) ≡ true → limit ≤ t
reached limit t late = ground arith

pub not_reached : (limit t : ℕ) → limit ≢ 0 → (not (limit == 0) && leb limit t) ≡ false → t < limit
not_reached limit t set early = ground arith

pub u64-step : (x y : ℕ) → x ≡ y → y + 1 < 2 ^ 64 → u64 (x + 1) ≡ y + 1
u64-step x y e fits = ap (λ z. (z + 1) % 2 ^ 64) e ∙ mod-eq_of_lt fits

-- The end of `run_cycles-ends`, with the timeout as a number of its own.
ends_by :
    (limit : ℕ) (n : ℕ) (finished : ℕ → Bool) (c : Clock)
    → limit ≢ 0
    → limit < 2 ^ 64
    → c.timeout ≡ limit
    → c.t ≤ limit
    → limit - c.t < n
    → EndsBy limit finished (run_cycles n finished c)
ends_by limit zero finished c set fits this before enough = absurd (omega arith)
ends_by limit (suc n) finished c set fits this before enough =
    let (st, sto) = switch-keeps c in
    run_step c (EndsBy limit finished) n finished
      (λ late.
        let past : (tested c).timeout ≤ (tested c).t =
          reached (tested c).timeout (tested c).t late in
        (refl, omega (arith, st, before), inl (omega (arith, past, st, sto, this, before))))
      (λ early finish. (refl, omega (arith, st, before), inr (ap finished st ∙ finish)))
      (λ early going.
        let left : (tested c).t < (tested c).timeout =
          not_reached (tested c).timeout (tested c).t (λ e. set (sym (sto ∙ this) ∙ e)) early in
        let tick : u64 ((tested c).t + 1) ≡ c.t + 1 = u64-step (tested c).t c.t st (omega arith) in
        ends_by limit n finished (ticked c) set fits (sto ∙ this) (omega arith) (omega arith))

-- With a timeout below 2^64 that has not passed yet, a run ends by itself, at the timeout or at
-- an earlier `$finish`, if it may take more cycles than there are ticks left.
pub run_cycles-ends :
    (n : ℕ) (finished : ℕ → Bool) (c : Clock)
    → c.timeout ≢ 0
    → c.t ≤ c.timeout
    → c.timeout < 2 ^ 64
    → c.timeout - c.t < n
    → EndsBy c.timeout finished (run_cycles n finished c)
run_cycles-ends n finished c set before fits enough =
    ends_by c.timeout n finished c set fits refl before enough
