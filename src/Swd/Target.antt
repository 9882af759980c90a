-- ===== src/Swd/Target.antt =====
-- The session of ahb3lite_remote_bridge2/bench/swd_phy_tb.cpp against a target that answers each
-- request at once.
use tinylabs_cores.Common.{ℕ, Bool}
use tinylabs_cores.Script.Refines.{Refines, Refines-bind, Refines-pure, Refines-defined}
use tinylabs_cores.Fifo.{Link}
use tinylabs_cores.Fifo.Served.{FollowsLink}
use tinylabs_cores.Phy.{Words}
use tinylabs_cores.Swd.Bench.{send_req, get_resp, get_three, tell, session}

module _ {B S : Type 0} {Rep : B → S → Type 0} (l : Link B Words ℕ) (k : Link S Words ℕ)
    (f : FollowsLink Rep l k) where
  Refines-send_req :
      (len t0 t1 so : ℕ) → Refines Rep (send_req l len t0 t1 so) (send_req k len t0 t1 so)
  unfolding send_req
  Refines-send_req len t0 t1 so = f.sends _

  Refines-tell :
      (apndp : Bool) (addr x : ℕ) → Refines Rep (tell l apndp addr x) (tell k apndp addr x)
  unfolding tell
  Refines-tell apndp addr x = Refines-bind (Refines-defined _) λ _. Refines-send_req _ _ _ _

  Refines-get_resp : Refines Rep (get_resp l) (get_resp k)
  unfolding get_resp
  Refines-get_resp = Refines-bind f.receives λ _. Refines-pure _

  Refines-get_three : Refines Rep (get_three l) (get_three k)
  unfolding get_three
  Refines-get_three =
      Refines-bind Refines-get_resp
        λ _. Refines-bind Refines-get_resp λ _. Refines-bind Refines-get_resp λ _. Refines-pure _

  pub Refines-session : Refines Rep (session l) (session k)
  unfolding session
  Refines-session = Refines-bind (Refines-send_req _ _ _ _) λ _.
      Refines-bind (Refines-send_req _ _ _ _) λ _. Refines-bind (Refines-send_req _ _ _ _) λ _.
        Refines-bind (Refines-send_req _ _ _ _) λ _. Refines-bind (Refines-tell _ _ _) λ _.
          Refines-bind (Refines-send_req _ _ _ _) λ _. Refines-bind Refines-get_three λ _.
            Refines-bind (Refines-tell _ _ _) λ _. Refines-bind (Refines-send_req _ _ _ _) λ _.
              Refines-bind (Refines-send_req _ _ _ _)
                λ _. Refines-bind Refines-get_three λ _. Refines-pure _
