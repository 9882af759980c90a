-- ===== src/Tests/Bench.antt =====
-- A bench whose design is itself a target behind two FIFOs that are never full, for the benches of
-- ahb3lite_remote_bridge2/bench.
use tinylabs_cores.Common.{
  ℕ, ◌<◌, ◌≡◌, refl, Bool, true, false, Option, some, List, [], ◌∷◌, ◌++◌, arith, if◌then◌else◌,
}
use mathlib.Core.Path.{subst}
use tinylabs_cores.Fifo.{Ports}
use tinylabs_cores.Fifo.Wait.{Falls, low, offered}
use tinylabs_cores.Fifo.Served.{Target, Serves}

pub record Served (T W R : Type 0) : Type 0 where
  pub state : T
  pub waiting : List R
  pub wrdata : W
  pub wren : Bool
  pub rden : Bool
  pub rddata : R

module _ {T W R : Type 0} (answer : Target T W R) where
  take : Served T W R → Served T W R
  take b =
      if b.wren
      then (let (state', answers) = answer b.wrdata b.state in
          record b { state = state'; waiting = b.waiting ++ answers })
      else b

  hand : List R → Served T W R → Served T W R
  hand [] b = b
  hand (x ∷ xs) b = record b { waiting = xs; rddata = x }

  pub tick : Served T W R → Option (Served T W R)
  tick b = let b' = take b in some (if b'.rden then hand b'.waiting b' else b')

  is_empty : List R → Bool
  is_empty [] = true
  is_empty (x ∷ xs) = false

  pub served_ports : Ports (Served T W R) W R
  served_ports = record {
    cycle = tick;
    wrfull = λ b. false;
    set_wrdata = λ w b. record b { wrdata = w };
    set_wren = λ on b. record b { wren = on };
    rdempty = λ b. is_empty b.waiting;
    rddata = λ b. b.rddata;
    set_rden = λ on b. record b { rden = on };
  }

  abbrev pub idle : T → List R → W → R → Served T W R
  idle t xs w r = record {
    state = t;
    waiting = xs;
    wrdata = w;
    wren = false;
    rden = false;
    rddata = r;
  }

  data Holds : Served T W R → T × List R → Type 0 where
    held : (t : T) (xs : List R) (w : W) (r : R) → Holds (idle t xs w r) (t, xs)

  takes :
      (b : Served T W R) (t : T) (xs : List R) (w : W)
      → Holds b (t, xs)
      → (n : ℕ) × (b1 : Served T W R) × (b2 : Served T W R) × Falls served_ports.cycle
          served_ports.wrfull n b b1
        × (n < 1)
        × (served_ports.cycle (offered served_ports w b1) ≡ some b2)
        × Holds (served_ports.set_wren false b2) ((answer w t).0, xs ++ (answer w t).1)
  unfolding served_ports tick take hand
  takes b t xs w (held t1 xs1 w1 r) = (0, b, _, low b refl, omega arith, refl, held _ _ w r)

  shape :
      (b : Served T W R) (s : T × List R) → Holds b s → (w : W) × (r : R) × (idle s.0 s.1 w r ≡ b)
  shape b s (held t xs w r) = (w, r, refl)

  abbrev Gives : T → R → List R → Served T W R → Type 0
  Gives t x xs b =
      (n : ℕ) × (b1 : Served T W R) × (b2 : Served T W R) × Falls served_ports.cycle
        served_ports.rdempty n b b1
      × (n < 1)
      × (served_ports.cycle (served_ports.set_rden true b1) ≡ some b2)
      × (served_ports.rddata (served_ports.set_rden false b2) ≡ x)
      × Holds (served_ports.set_rden false b2) (t, xs)

  gives : (b : Served T W R) (t : T) (x : R) (xs : List R) → Holds b (t, x ∷ xs) → Gives t x xs b
  unfolding served_ports tick take hand is_empty
  gives b t x xs h =
      let (w, r, e) = shape b (t, x ∷ xs) h in
      subst (Gives t x xs) e
        (0, idle t (x ∷ xs) w r, _, low _ refl, omega arith, refl, refl, held t xs w x)

  idles :
      (b : Served T W R) (s : T × List R)
      → Holds b s
      → (b1 : Served T W R) × (served_ports.cycle b ≡ some b1) × Holds b1 s
  unfolding served_ports tick take hand
  idles b s (held t xs w r) = (b, refl, held t xs w r)

  pub served_by : Serves served_ports 1 answer
  served_by = record { Rep = Holds; takes = takes; gives = gives; idles = idles }

  pub idle-served : (t : T) (xs : List R) (w : W) (r : R) → served_by.Rep (idle t xs w r) (t, xs)
  unfolding served_by
  idle-served t xs w r = held t xs w r
