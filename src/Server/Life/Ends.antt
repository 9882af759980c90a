-- ===== src/Server/Life/Ends.antt =====
-- How a server of verilator_utils/Server.cpp is destroyed.
use tinylabs_cores.Common.{
  ℕ, ◌≡◌, ◌⊎◌, inl, inr, refl, sym, ap, ◌∙◌, Bool, true, false, Option, List, arith, Bool-cases,
  none, some, ◌&&◌, ◌==◌, length,
}
use mathlib.Core.Path.{subst}
use tinylabs_cores.Queue.{ByteQueue}
use tinylabs_cores.Server.{
  Server, Incoming, closed, nothing, received, Round, stopped, restarted, continued, listen_round,
  respond, send, resp_size,
}
use tinylabs_cores.Server.Listen.{round_running}
use tinylabs_cores.Server.Life.{
  Network, unborn, spawned, opening, waiting, serving, gone, live, joining, deleted, State, at,
  doubled, starts_again, ended, Step, starts, start_fails, begins, opens, open_fails, accepts,
  accept_fails, goes_on, restarts, stops, send_fails, closes_early, closes_waiting, closes_serving,
  joins, leaves, Calm, Reach, made, followed,
}

module _ (K : ByteQueue) where
  -- What a pass of the loop tells of `running`.
  Tells : Server K → Round K → Type 0
  Tells s (stopped s') = (s.running ≡ false) × (s'.running ≡ false)
  Tells s (restarted s') = (s.running ≡ true) × (s'.running ≡ true)
  Tells s (continued s' resp sent) = (s.running ≡ true) × (s'.running ≡ true)
  Tells s _ = Unit

  send-Tells :
      (s s0 : Server K) (resp : List ℕ) (wrote : Option ℕ)
      → s0.running ≡ true
      → s.running ≡ true
      → Tells s0 (send K s resp wrote)
  unfolding send Tells
  send-Tells s s0 resp none e0 e = elim (Bool-cases (s.debug && (length resp == resp_size))) [
    | inl over ↦ rw over tt
    | inr fits ↦ rw fits tt
  ]
  send-Tells s s0 resp (some n) e0 e = elim (Bool-cases (s.debug && (length resp == resp_size))) [
    | inl over ↦ rw over tt
    | inr fits ↦ rw fits (e0, e)
  ]

  respond-Tells :
      (s s0 : Server K) (wrote : Option ℕ)
      → s0.running ≡ true
      → s.running ≡ true
      → Tells s0 (respond K s wrote)
  unfolding respond Tells
  respond-Tells s s0 wrote e0 e = elim (Bool-cases (K.size_approx s.rx == 0)) [
    | inl nil ↦ rw nil (e0, e)
    | inr some_left ↦ rw some_left (send-Tells _ s0 _ wrote e0 e)
  ]

  round_stopped :
      (s : Server K) (incoming : Incoming) (wrote : Option ℕ)
      → s.running ≡ false
      → listen_round K s incoming wrote ≡ stopped s
  unfolding listen_round
  round_stopped s incoming wrote off = ground (arith, off)

  round_restarted :
      (s : Server K) (wrote : Option ℕ)
      → s.running ≡ true
      → listen_round K s closed wrote ≡ restarted s
  unfolding listen_round
  round_restarted s wrote on = ground (arith, on)

  round-Tells :
      (s : Server K) (incoming : Incoming) (wrote : Option ℕ)
      → Tells s (listen_round K s incoming wrote)
  unfolding Tells
  round-Tells s incoming wrote = elim (Bool-cases s.running) [
    | inl on ↦ tells incoming on
    | inr off ↦ subst (Tells s) (sym (round_stopped s incoming wrote off)) (off, off)
  ]
    where
      tells : (incoming : Incoming) → s.running ≡ true → Tells s (listen_round K s incoming wrote)
      tells closed on = subst (Tells s) (sym (round_restarted s wrote on)) (on, on)
      tells nothing on =
          let (s', same, e) = round_running K s nothing wrote on (λ h. ground (arith, h)) in
          subst (Tells s) (sym same)
            (respond-Tells s' s wrote on (ap (λ (s : Server K). s.running) e ∙ on))
      tells (received bs) on =
          let (s', same, e) = round_running K s (received bs) wrote on (λ h. ground (arith, h)) in
          subst (Tells s) (sym same)
            (respond-Tells s' s wrote on (ap (λ (s : Server K). s.running) e ∙ on))

  -- What holds of a server at each place of the two threads.
  LiveInv : Network → Bool → Type 0
  LiveInv unborn running = running ≡ false
  LiveInv spawned running = running ≡ false
  LiveInv gone running = ⊥
  LiveInv _ running = running ≡ true

  Inv : State K → Type 0
  Inv (at s network live shut) = LiveInv network s.running
  Inv (at s unborn joining shut) = ⊥
  Inv (at s spawned joining shut) = ⊥
  Inv (at s network joining shut) = s.running ≡ false
  Inv (at s unborn deleted shut) = Unit
  Inv (at s gone deleted shut) = Unit
  Inv (at s network deleted shut) = ⊥
  Inv (doubled s network shut) = ⊥
  Inv ended = Unit

  told :
      (s : Server K) (incoming : Incoming) (wrote : Option ℕ) (r : Round K)
      → listen_round K s incoming wrote ≡ r
      → Tells s r
  told s incoming wrote r e = subst (Tells s) e (round-Tells s incoming wrote)

  Step-Inv : {a b : State K} (st : Step K a b) → Calm K st → Inv a → Inv b
  unfolding Inv LiveInv Calm Tells
  Step-Inv (starts s port) c i = i
  Step-Inv (start_fails s) c i = tt
  Step-Inv (starts_again s port network shut other) c i = absurd c
  Step-Inv (begins s live shut) c i = refl
  Step-Inv (begins s joining shut) c i = absurd i
  Step-Inv (begins s deleted shut) c i = absurd i
  Step-Inv (opens s live shut) c i = i
  Step-Inv (opens s joining shut) c i = i
  Step-Inv (opens s deleted shut) c i = absurd i
  Step-Inv (open_fails s owner shut) c i = tt
  Step-Inv (accepts s live) c i = i
  Step-Inv (accepts s joining) c i = i
  Step-Inv (accepts s deleted) c i = absurd i
  Step-Inv (accept_fails s owner shut) c i = tt
  Step-Inv (goes_on s s' live shut incoming wrote resp sent e) c i = (told s incoming wrote _ e).1
  Step-Inv (goes_on s s' joining shut incoming wrote resp sent e) c i =
      ground (arith, i, (told s incoming wrote _ e).0)
  Step-Inv (goes_on s s' deleted shut incoming wrote resp sent e) c i = absurd i
  Step-Inv (restarts s s' live shut incoming wrote e) c i = (told s incoming wrote _ e).1
  Step-Inv (restarts s s' joining shut incoming wrote e) c i =
      ground (arith, i, (told s incoming wrote _ e).0)
  Step-Inv (restarts s s' deleted shut incoming wrote e) c i = absurd i
  Step-Inv (stops s s' live shut incoming wrote e) c i =
      ground (arith, i, (told s incoming wrote _ e).0)
  Step-Inv (stops s s' joining shut incoming wrote e) c i = (told s incoming wrote _ e).1
  Step-Inv (stops s s' deleted shut incoming wrote e) c i = tt
  Step-Inv (send_fails s owner shut incoming wrote e) c i = tt
  Step-Inv (closes_early s e) c i = refl
  Step-Inv (closes_waiting s e) c i = refl
  Step-Inv (closes_serving s e) c i = refl
  Step-Inv (joins s shut) c i = tt
  Step-Inv (leaves s unborn e) c i = tt
  Step-Inv (leaves s spawned e) c i = absurd c
  Step-Inv (leaves s opening e) c i = ground (arith, e, i)
  Step-Inv (leaves s waiting e) c i = ground (arith, e, i)
  Step-Inv (leaves s serving e) c i = ground (arith, e, i)
  Step-Inv (leaves s gone e) c i = absurd i

  Reach-Inv : {a : State K} → Reach K a → Inv a
  unfolding Inv LiveInv
  Reach-Inv (made s e) = e
  Reach-Inv (followed r st c) = Step-Inv st c (Reach-Inv r)

  -- From a server that is not running, as long as `Start` is called once at most and the destructor is
  -- not called between it and the first statement of the thread: once the destructor has returned, the network thread was
  -- never created or has left `Listen`, and does not use the server any more.
  pub deleted-joined :
      {s : Server K} {network : Network} {shut : Bool}
      → Reach K (at s network deleted shut)
      → (network ≡ unborn) ⊎ (network ≡ gone)
  unfolding Inv
  deleted-joined {network = unborn} r = inl refl
  deleted-joined {network = spawned} r = absurd (Reach-Inv r)
  deleted-joined {network = opening} r = absurd (Reach-Inv r)
  deleted-joined {network = waiting} r = absurd (Reach-Inv r)
  deleted-joined {network = serving} r = absurd (Reach-Inv r)
  deleted-joined {network = gone} r = inr refl

  server_of : Server K → Round K → Server K
  server_of s (stopped s') = s'
  server_of s _ = s

  is_stopped : Round K → Bool
  is_stopped (stopped s') = true
  is_stopped _ = false

  stopped_only :
      (s : Server K) (shut : Bool) (b : State K)
      → s.running ≡ false
      → Step K (at s serving joining shut) b
      → b ≡ at s gone joining shut
  unfolding Tells server_of is_stopped
  stopped_only s shut b off (goes_on _ s' _ _ incoming wrote resp sent e) =
      ground (arith, off, (told s incoming wrote _ e).0)
  stopped_only s shut b off (restarts _ s' _ _ incoming wrote e) =
      ground (arith, off, (told s incoming wrote _ e).0)
  stopped_only s shut b off (stops _ s' _ _ incoming wrote e) =
      ap (λ (r : Round K). at (server_of s r) gone joining shut)
        (sym e ∙ round_stopped s incoming wrote off)
  stopped_only s shut b off (send_fails _ _ _ incoming wrote e) =
      ground (arith, ap is_stopped (sym (round_stopped s incoming wrote off) ∙ e))

  -- In every state that is reached so, if the destructor waits for a thread that is in its loop,
  -- that thread can make a pass, and any pass, whatever is read and sent, takes it out of `Listen`,
  -- after which the destructor can return.
  pub joining-stops :
      {s : Server K} {shut : Bool} {b : State K}
      → Reach K (at s serving joining shut)
      → Step K (at s serving joining shut) b
      → (b ≡ at s gone joining shut)
        × Step K (at s serving joining shut) (at s gone joining shut)
        × Step K (at s gone joining shut) (at s gone deleted shut)
  unfolding Inv
  joining-stops {s} {shut} {b} r st =
      let off : s.running ≡ false = Reach-Inv r in
      (
        stopped_only s shut b off st,
        stops s s joining shut nothing none (round_stopped s nothing none off),
        joins s shut,
      )
