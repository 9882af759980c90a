-- ===== src/Rig/Main.antt =====
-- The frame that the main programs of ahb3lite_remote_bridge2/bench put round what they do with the
-- design: the cycles of the reset, `Enable`, padding, `Disable`, and 20 cycles more.
use tinylabs_cores.Common.{ℕ, ◌+◌, ◌*◌, ◌^◌, ◌<◌, ◌≡◌, ◌∙◌, some}
use tinylabs_cores.Queue.{ByteQueue}
use tinylabs_cores.Script.{Script, ◌>>=◌, ◌>>◌, pure, modify, step, repeat, bind-some, step-some}
use tinylabs_cores.Script.Refines.{Refines, Refines-result}
use tinylabs_cores.Rig.{Rig, Wiring, World, reset_time, full_cycle}
use tinylabs_cores.Rig.Ports.{on_top}
use tinylabs_cores.Rig.Reset.{
  ResetPort, Quiet, Free, At, cycles-reset, cycles-Free, full_cycle-Free,
}

module _ (K : ByteQueue) {Top : Type 0} (wiring : Wiring Top) (world : World Top) where
  -- `Enable` and `Disable`
  unfoldable pub switch : (Top → Top) → Script (Rig K Top) (Unit {0})
  switch f = do modify (on_top f); step (full_cycle K Top wiring world)

  -- A main program.
  unfoldable pub framed :
      {A : Type 0} → (Top → Top) → (Top → Top) → ℕ → Script (Rig K Top) A → Script (Rig K Top) A
  framed enable disable padding body = do
    repeat (reset_time * 2) (step (full_cycle K Top wiring world))
    switch enable
    v ← body
    repeat padding (step (full_cycle K Top wiring world))
    switch disable
    repeat 20 (step (full_cycle K Top wiring world))
    pure v

  module _ (q : Quiet world) (r : ResetPort wiring world) where
    switch-Free :
        (f : Top → Top) (b : Rig K Top)
        → Free K Top wiring world q b
        → (b' : Rig K Top) × (full_cycle K Top wiring world (on_top f b) ≡ some b')
          × (switch f b ≡ some (tt, b'))
          × Free K Top wiring world q b'
    unfolding switch ◌>>=◌ modify
    switch-Free f b free =
        let moved : Free K Top wiring world q (on_top f b) = record {
          no_timeout = free.no_timeout;
          not_done = free.not_done;
          no_client = free.no_client;
        } in
        let (b', e, free') = full_cycle-Free K Top wiring world q (on_top f b) moved in
        (b', e, step-some _ e, free')

    -- What a design does once the bench has let it out of its reset and enabled it: it represents a
    -- state.
    abbrev pub Boots :
        {S : Type 0} → (Rig K Top → S → Type 0) → (Top → Top) → Rig K Top → S → Type 0
    Boots Rep enable b s =
        (b1 b2 : Rig K Top)
        → repeat 20 (step (full_cycle K Top wiring world)) b ≡ some (tt, b1)
        → At K Top wiring world q r (b.clock.t + 40) b1
        → full_cycle K Top wiring world (on_top enable b1) ≡ some b2
        → Rep b2 s

    -- The frame comes to an end with the result of what stands in it, where that follows a script on
    -- `S`.
    pub framed-some :
        {A S : Type 0} (Rep : Rig K Top → S → Type 0) (enable disable : Top → Top) (padding : ℕ)
        (body : Script (Rig K Top) A) (abstract : Script S A) (b : Rig K Top) (s s' : S) (v : A)
        → Refines Rep body abstract
        → ((b1 : Rig K Top) (s1 : S) → Rep b1 s1 → Free K Top wiring world q b1)
        → Boots Rep enable b s
        → Free K Top wiring world q b
        → b.clock.t + 40 < 2 ^ 64
        → abstract s ≡ some (v, s')
        → (b' : Rig K Top) × (framed enable disable padding body b ≡ some (v, b'))
    unfolding framed pure
    framed-some Rep enable disable padding body abstract b s s' v follows keeps boots free fits e =
        let cycles : (n : ℕ) → Script (Rig K Top) (Unit {0}) =
          λ n. repeat n (step (full_cycle K Top wiring world)) in
        let (b1, e1, a1) = cycles-reset K Top wiring world q r 19 b free fits in
        let (b2, c2, e2, _) = switch-Free enable b1 a1.0 in
        let (b3, e3, r3) =
          Refines-result body abstract b2 s v s' follows (boots b1 b2 e1 a1 c2) e in
        let (b4, e4, f4) = cycles-Free K Top wiring world q padding b3 (keeps b3 s' r3) in
        let (b5, _, e5, f5) = switch-Free disable b4 f4 in
        let (b6, e6, _) = cycles-Free K Top wiring world q 20 b5 f5 in
        (
          b6,
          bind-some (cycles 20) _ e1
              ∙ bind-some (switch enable) _ e2
              ∙ bind-some body _ e3
              ∙ bind-some (cycles padding) _ e4
              ∙ bind-some (switch disable) _ e5
              ∙ bind-some (cycles 20) _ e6,
        )
