-- ===== src/Fifo/Served.antt =====
-- The FIFOs of the benches of ahb3lite_remote_bridge2/bench against what they promise: behind
-- them, a target takes each word that is put, in order, and answers with words that are got, in
-- order. What the benches rely on of the verilated design is the record `Serves`.
use tinylabs_cores.Common.{ℕ, ◌<◌, ◌≡◌, refl, true, false, none, some, List, [], ◌∷◌, ◌++◌}
use tinylabs_cores.Script.{Script, step, step-some}
use tinylabs_cores.Script.Refines.{Refines, Agree}
use tinylabs_cores.Fifo.{Ports, put, get, Link, bench_link}
use tinylabs_cores.Fifo.Wait.{Falls, put-Falls, get-Falls, offered}

-- What a target does with a word: its next state, and the words it answers.
abbrev pub Target : Type 0 → Type 0 → Type 0 → Type 0
Target T W R = W → T → T × List R

module _ {T W R : Type 0} (answer : Target T W R) where
  -- A put, a get, and a cycle without either, on a target and the answers that wait.
  unfoldable pub target_put : W → Script (T × List R) (Unit {0})
  target_put w (t, waiting) = let (t', answers) = answer w t in some (tt, (t', waiting ++ answers))

  unfoldable pub target_get : Script (T × List R) R
  target_get (t, []) = none
  target_get (t, r ∷ waiting) = some (r, (t, waiting))

unfoldable pub target_idle : {S : Type 0} → Script S (Unit {0})
target_idle s = some (tt, s)

-- Within `fuel` cycles, and if a bench holds its ports for one more, the design behind the FIFOs
-- takes a word, hands over the first answer that waits, and otherwise keeps to itself.
pub record Serves {B W R T : Type 0} (p : Ports B W R) (fuel : ℕ) (answer : Target T W R)
    : Type 1 where
  pub Rep : B → T × List R → Type 0
  pub takes :
      (b : B) (t : T) (waiting : List R) (w : W)
      → Rep b (t, waiting)
      → (n : ℕ) × (b1 : B) × (b2 : B) × Falls p.cycle p.wrfull n b b1
        × (n < fuel)
        × (p.cycle (offered p w b1) ≡ some b2)
        × Rep (p.set_wren false b2) ((answer w t).0, waiting ++ (answer w t).1)
  pub gives :
      (b : B) (t : T) (r : R) (waiting : List R)
      → Rep b (t, r ∷ waiting)
      → (n : ℕ) × (b1 : B) × (b2 : B) × Falls p.cycle p.rdempty n b b1
        × (n < fuel)
        × (p.cycle (p.set_rden true b1) ≡ some b2)
        × (p.rddata (p.set_rden false b2) ≡ r)
        × Rep (p.set_rden false b2) (t, waiting)
  pub idles : (b : B) (s : T × List R) → Rep b s → (b1 : B) × (p.cycle b ≡ some b1) × Rep b1 s

module _ {B W R T : Type 0} (p : Ports B W R) (fuel : ℕ) (answer : Target T W R)
    (d : Serves p fuel answer) where
  pub Refines-put : (w : W) → Refines d.Rep (put p fuel w) (target_put answer w)
  unfolding target_put
  Refines-put w = record {
    at = λ (b : B) ((t, waiting) : T × List R) r.
        let (n, b1, b2, f, h, s, r2) = d.takes b t waiting w r in
        rw (put-Falls p fuel w f h s).0 (refl, r2);
  }

  pub Refines-get : Refines d.Rep (get p fuel) (target_get answer)
  unfolding target_get
  Refines-get = record { at = got }
    where
      got : (b : B) (s : T × List R) → d.Rep b s → Agree d.Rep (get p fuel b) (target_get answer s)
      got b (t, []) r = tt
      got b (t, x ∷ waiting) r =
          let (n, b1, b2, f, h, s, word, r2) = d.gives b t x waiting r in
          rw (get-Falls p fuel f h s).0 (word, r2)

  pub Refines-cycle : Refines d.Rep (step p.cycle) target_idle
  unfolding target_idle
  Refines-cycle = record {
    at = λ b s r. let (b1, e, r1) = d.idles b s r in rw (step-some p.cycle e) (refl, r1);
  }

-- Two links, the one of which does what the other says.
pub record FollowsLink {B S W R : Type 0} (Rep : B → S → Type 0) (l : Link B W R) (k : Link S W R)
    : Type 0 where
  pub sends : (w : W) → Refines Rep (l.send w) (k.send w)
  pub receives : Refines Rep l.receive k.receive
  pub idles : Refines Rep l.idle k.idle

module _ {T W R : Type 0} (answer : Target T W R) where
  unfoldable pub target_link : Link (T × List R) W R
  target_link = record { send = target_put answer; receive = target_get answer; idle = target_idle }

  -- A bench whose FIFOs serve a target follows that target.
  pub bench-FollowsLink :
      {B : Type 0} (p : Ports B W R) (fuel : ℕ) (d : Serves p fuel answer)
      → FollowsLink d.Rep (bench_link p fuel) target_link
  unfolding bench_link target_link
  bench-FollowsLink p fuel d = record {
    sends = Refines-put p fuel answer d;
    receives = Refines-get p fuel answer d;
    idles = Refines-cycle p fuel answer d;
  }
