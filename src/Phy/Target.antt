-- ===== src/Phy/Target.antt =====
-- The operations of ahb3lite_remote_bridge2/bench/jtag_phy_tb.cpp against a target that answers each
-- request at once.
use tinylabs_cores.Common.{ℕ, zero, suc, ◌^◌, Bool, bit_and, ◌==◌, if◌then◌else◌}
use tinylabs_cores.Script.Refines.{
  Refines, Refines-bind, Refines-pure, Refines-elim, Refines-repeat, Refines-out_of_fuel,
  Refines-defined,
}
use tinylabs_cores.Fifo.{Link}
use tinylabs_cores.Fifo.Served.{FollowsLink}
use tinylabs_cores.Phy.{
  Words, send_req, get_resp, get_resps, device_count, ir_len, dp_write, dp_read, ap_write, ap_read,
  halt, session,
}

module _ {B S : Type 0} {Rep : B → S → Type 0} (l : Link B Words Words) (k : Link S Words Words)
    (f : FollowsLink Rep l k) where
  pub Refines-send_req : (cmd len x : ℕ) → Refines Rep (send_req l cmd len x) (send_req k cmd len x)
  unfolding send_req
  Refines-send_req cmd len x = f.sends _

  pub Refines-get_resp : Refines Rep (get_resp l) (get_resp k)
  unfolding get_resp
  Refines-get_resp = Refines-bind f.receives λ _. Refines-pure _

  Refines-get_resps : (n : ℕ) → Refines Rep (get_resps l n) (get_resps k n)
  unfolding get_resps
  Refines-get_resps zero = Refines-pure _
  Refines-get_resps (suc n) =
      Refines-bind Refines-get_resp λ _. Refines-bind (Refines-get_resps n) λ _. Refines-pure _

  pub Refines-device_count :
      (stall : Bool) → Refines Rep (device_count l stall) (device_count k stall)
  unfolding device_count
  Refines-device_count stall = Refines-bind (Refines-send_req _ _ _) λ _.
      Refines-bind (Refines-send_req _ _ _) λ _. Refines-bind (Refines-send_req _ _ _) λ _.
        Refines-bind (Refines-repeat 5 (Refines-send_req _ _ _)) λ _.
          Refines-bind Refines-get_resp λ _.
            Refines-bind (Refines-repeat (if stall then 182 else 181) f.idles)
              λ _. Refines-bind (Refines-get_resps 5) λ _. Refines-defined _

  pub Refines-ir_len : (stall : Bool) → Refines Rep (ir_len l stall) (ir_len k stall)
  unfolding ir_len
  Refines-ir_len stall = Refines-bind (Refines-send_req _ _ _) λ _.
      Refines-bind (Refines-repeat (if stall then 68 else 67) f.idles) λ _.
        Refines-bind (Refines-send_req _ _ _)
          λ _. Refines-bind (Refines-get_resps 2) λ _. Refines-defined _

  pub Refines-dp_write : (addr x : ℕ) → Refines Rep (dp_write l addr x) (dp_write k addr x)
  unfolding dp_write
  Refines-dp_write addr x = Refines-bind (Refines-send_req _ _ _) λ _. Refines-send_req _ _ _

  pub Refines-dp_read : (addr : ℕ) → Refines Rep (dp_read l addr) (dp_read k addr)
  unfolding dp_read
  Refines-dp_read addr = Refines-bind (Refines-send_req _ _ _) λ _.
      Refines-bind (Refines-send_req _ _ _) λ _. Refines-bind Refines-get_resp λ _. Refines-pure _

  pub Refines-ap_write : (ap addr x : ℕ) → Refines Rep (ap_write l ap addr x) (ap_write k ap addr x)
  unfolding ap_write
  Refines-ap_write ap addr x =
      Refines-bind (Refines-dp_write _ _)
        λ _. Refines-bind (Refines-send_req _ _ _) λ _. Refines-send_req _ _ _

  pub Refines-ap_read : (ap addr : ℕ) → Refines Rep (ap_read l ap addr) (ap_read k ap addr)
  unfolding ap_read
  Refines-ap_read ap addr = Refines-bind (Refines-dp_write _ _) λ _.
      Refines-bind (Refines-send_req _ _ _)
        λ _. Refines-bind (Refines-send_req _ _ _) λ _. Refines-dp_read _

  Refines-halt : (tries : ℕ) → Refines Rep (halt l tries) (halt k tries)
  unfolding halt
  Refines-halt zero = Refines-out_of_fuel
  Refines-halt (suc tries) = Refines-bind (Refines-ap_write _ _ _) λ _.
      Refines-bind (Refines-ap_read _ _)
        λ dhcsr. Refines-elim (bit_and dhcsr (2 ^ 17) == 0) (Refines-halt tries) (Refines-pure tt)

  pub Refines-session : (tries : ℕ) → Refines Rep (session l tries) (session k tries)
  unfolding session
  Refines-session tries = Refines-bind (Refines-send_req _ _ _) λ _.
      Refines-bind (Refines-send_req _ _ _) λ _. Refines-bind (Refines-ir_len _) λ _.
        Refines-bind (Refines-ir_len _) λ _. Refines-bind (Refines-device_count _) λ _.
          Refines-bind (Refines-device_count _) λ _. Refines-bind (Refines-send_req _ _ _) λ _.
            Refines-bind (Refines-send_req _ _ _) λ _. Refines-bind Refines-get_resp λ _.
              Refines-bind (Refines-dp_write _ _) λ _. Refines-bind (Refines-dp_read _) λ _.
                Refines-bind (Refines-repeat 100 f.idles) λ _.
                  Refines-bind (Refines-ap_read _ _) λ _. Refines-bind (Refines-ap_read _ _) λ _.
                    Refines-bind (Refines-ap_read _ _) λ _.
                      Refines-bind (Refines-ap_write _ _ _) λ _.
                        Refines-bind (Refines-ap_write _ _ _)
                          λ _. Refines-bind (Refines-halt _) λ _. Refines-pure _
