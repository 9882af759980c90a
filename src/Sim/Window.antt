-- ===== src/Sim/Window.antt =====
-- The ticks that a run of `doCycle` writes to the trace: those of the window that the options
-- `--fst`, `--fststart` and `--fststop` set.
use tinylabs_cores.Common.{
  ℕ, zero, suc, ◌+◌, ◌-◌, ◌^◌, ◌≤◌, ◌<◌, ◌≡◌, ◌≢◌, refl, sym, ap, ap₂, ◌∙◌, Bool, true, false, not,
  ◌&&◌, List, [], ◌∷◌, ◌++◌, append-nil, leb, ◌==◌, if◌then◌else◌, arith,
}
use tinylabs_cores.Sim.{
  Clock, TraceCall, open_trace, dump, flush_trace, close_trace, past_stop, switch_dump, run_cycles,
}
use tinylabs_cores.Sim.Cycle.{
  tested, ticked, early_calls, run_step, switch-keeps, not_reached, u64-step,
}

-- The ticks that the calls dump.
pub dumps : List TraceCall → List ℕ
dumps [] = []
dumps (open_trace ∷ calls) = dumps calls
dumps (dump t ∷ calls) = t ∷ dumps calls
dumps (flush_trace ∷ calls) = dumps calls
dumps (close_trace ∷ calls) = dumps calls

-- Tracing is on and has begun at tick `t`, and has not ended, if it ends at all.
abbrev pub in_window : Clock → ℕ → Bool
in_window c t =
    not (not (c.fst_dump_stop == 0) && leb c.fst_dump_stop t)
    && (c.fst_dump && leb c.fst_dump_start t)

-- The ticks of the window among `k` ticks from `t` on.
pub window_ticks : Clock → ℕ → ℕ → List ℕ
window_ticks c t zero = []
window_ticks c t (suc k) = (if in_window c t then t ∷ [] else []) ++ window_ticks c (t + 1) k

-- If the trace is being dumped, it has begun.
abbrev pub HasBegun : Clock → Type 0
HasBegun c = c.fst_dumping ≡ true → (c.fst_dump && leb c.fst_dump_start c.t) ≡ true

dumps-append : (xs ys : List TraceCall) → dumps (xs ++ ys) ≡ dumps xs ++ dumps ys
unfolding dumps
dumps-append [] ys = refl
dumps-append (open_trace ∷ xs) ys = dumps-append xs ys
dumps-append (dump t ∷ xs) ys = ap (λ l. t ∷ l) (dumps-append xs ys)
dumps-append (flush_trace ∷ xs) ys = dumps-append xs ys
dumps-append (close_trace ∷ xs) ys = dumps-append xs ys

-- The two clocks have the same window.
pub record SameWindow (c d : Clock) : Type 0 where
  pub same_dump : c.fst_dump ≡ d.fst_dump
  pub same_start : c.fst_dump_start ≡ d.fst_dump_start
  pub same_stop : c.fst_dump_stop ≡ d.fst_dump_stop

switch-keeps_window : (c : Clock) → SameWindow (tested c) c
unfolding switch_dump
switch-keeps_window c = record {
  same_dump = ground arith;
  same_start = ground arith;
  same_stop = ground arith;
}

switch-in_window : (c : Clock) → HasBegun c → (tested c).fst_dumping ≡ in_window c c.t
unfolding switch_dump past_stop
switch-in_window c begun = ground arith

dumps-switch : (c : Clock) → dumps (switch_dump c).1 ≡ []
unfolding switch_dump dumps
dumps-switch c = ground arith

dumps-early :
    (c : Clock) → HasBegun c → dumps (early_calls c) ≡ (if in_window c c.t then c.t ∷ [] else [])
unfolding dumps
dumps-early c begun =
    dumps-append (switch_dump c).1 _
    ∙ ap (λ l. l ++ dumps (if (tested c).fst_dumping then dump (tested c).t ∷ [] else []))
        (dumps-switch c)
    ∙ ap₂ (λ b t. dumps (if b then dump t ∷ [] else [])) (switch-in_window c begun)
        (switch-keeps c).0
    ∙ one (in_window c c.t) c.t
  where
    one : (b : Bool) (t : ℕ) → dumps (if b then dump t ∷ [] else []) ≡ (if b then t ∷ [] else [])
    one true t = refl
    one false t = refl

window_ticks-SameWindow :
    (k t : ℕ) (c d : Clock) → SameWindow c d → window_ticks c t k ≡ window_ticks d t k
unfolding window_ticks
window_ticks-SameWindow zero t c d s = refl
window_ticks-SameWindow (suc k) t c d s =
    rw (s.same_dump, s.same_start, s.same_stop)
      (ap (λ l. (if in_window d t then t ∷ [] else []) ++ l)
        (window_ticks-SameWindow k (t + 1) c d s))

begun_next :
    (c : Clock) (t : ℕ)
    → HasBegun c
    → c.t ≤ t
    → (tested c).fst_dumping ≡ true
    → ((tested c).fst_dump && leb (tested c).fst_dump_start t) ≡ true
unfolding switch_dump past_stop
begun_next c t begun later dumping = ground arith

-- What the calls of a run say, that goes on from a clock to its end.
abbrev pub Dumped : Clock → Clock × List TraceCall × Bool → Type 0
Dumped c (c', calls, ended) = (k : ℕ) × (dumps calls ≡ window_ticks c c.t k) × (c'.t + 1 ≡ c.t + k)

one_tick : (c : Clock) → window_ticks c c.t 1 ≡ (if in_window c c.t then c.t ∷ [] else [])
unfolding window_ticks
one_tick c = append-nil _

-- The run of `run_cycles-dumps`, with the timeout as a number of its own.
dumps_by :
    (limit : ℕ) (n : ℕ) (finished : ℕ → Bool) (c : Clock)
    → HasBegun c
    → limit ≢ 0
    → limit < 2 ^ 64
    → c.timeout ≡ limit
    → c.t ≤ limit
    → limit - c.t < n
    → Dumped c (run_cycles n finished c)
unfolding dumps window_ticks
dumps_by limit zero finished c begun set fits this before enough = absurd (omega arith)
dumps_by limit (suc n) finished c begun set fits this before enough =
    let (st, sto) = switch-keeps c in
    let now : dumps (early_calls c) ≡ (if in_window c c.t then c.t ∷ [] else []) =
      dumps-early c begun in
    run_step c (Dumped c) n finished (λ late. (1, now ∙ sym (one_tick c), omega (arith, st)))
      (λ early finish. (
        1,
        dumps-append (early_calls c) (flush_trace ∷ close_trace ∷ [])
            ∙ append-nil (dumps (early_calls c))
            ∙ now
            ∙ sym (one_tick c),
        omega (arith, st),
      ))
      (λ early going.
        let left : (tested c).t < (tested c).timeout =
          not_reached (tested c).timeout (tested c).t (λ e. set (sym (sto ∙ this) ∙ e)) early in
        let tick : (ticked c).t ≡ c.t + 1 = u64-step (tested c).t c.t st (omega arith) in
        let kept : SameWindow (tested c) c = switch-keeps_window c in
        let later : List TraceCall = (run_cycles n finished (ticked c)).1 in
        let (k, e, t) =
          dumps_by limit n finished (ticked c)
            (λ dumping. begun_next c (ticked c).t begun (omega (arith, tick)) dumping) set fits
            (sto ∙ this) (omega arith) (omega arith) in
        (
          suc k,
          dumps-append (early_calls c) later
              ∙ ap₂ (λ a b. a ++ b) now
                  (e
                    ∙ window_ticks-SameWindow k (ticked c).t (ticked c) c (record {
                      same_dump = kept.same_dump;
                      same_start = kept.same_start;
                      same_stop = kept.same_stop;
                    })
                    ∙ ap (λ (i : ℕ). window_ticks c i k) tick),
          omega (arith, t, tick),
        ))

-- A run with a timeout that has not passed, and with cycles for the ticks left, dumps exactly the
-- ticks of the window that it goes through, each once and in order, from its first tick to its
-- last. (The timeout is below 2^64; if `fstDumping` is true at first, the trace has begun.)
pub run_cycles-dumps :
    (n : ℕ) (finished : ℕ → Bool) (c : Clock)
    → HasBegun c
    → c.timeout ≢ 0
    → c.t ≤ c.timeout
    → c.timeout < 2 ^ 64
    → c.timeout - c.t < n
    → Dumped c (run_cycles n finished c)
run_cycles-dumps n finished c begun set before fits enough =
    dumps_by c.timeout n finished c begun set fits refl before enough
