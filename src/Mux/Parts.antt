-- ===== src/Mux/Parts.antt =====
-- What `test_if` and `JTAG_Direct` of ahb3lite_remote_bridge2/bench/debug_mux_tb.cpp do behind their
-- selections, on a bench and on a target.
use tinylabs_cores.Common.{
  ℕ, zero, suc, ◌*◌, ◌/◌, ◌%◌, ◌^◌, ◌<◌, ◌≡◌, refl, ap, ◌∙◌, some, List, [], ◌∷◌, u32, arith,
}
use tinylabs_cores.Script.{Script, ◌>>=◌, ◌>>◌, pure, repeat, bind-some}
use tinylabs_cores.Script.Refines.{Refines, Refines-bind, Refines-pure, Refines-repeat}
use tinylabs_cores.Fifo.{Link}
use tinylabs_cores.Fifo.Served.{
  Target, target_idle, FollowsLink, target_link, target_put, target_get,
}
use tinylabs_cores.Phy.Packet.{response_lem}
use tinylabs_cores.Phy.{
  Words, response, request_words, send_req, get_resp, cmd_dr_write, cmd_ir_write, cmd_dr_read,
}
use tinylabs_cores.Phy.Target.{Refines-send_req, Refines-get_resp}
use tinylabs_cores.Adiv5.{Report}

-- What `JTAG_Direct` does behind the selection.
unfoldable pub read_direct : {B : Type 0} → Link B Words Words → Script B ℕ
read_direct l = do
  send_req l cmd_dr_write 0 0
  send_req l cmd_ir_write 0 0
  send_req l cmd_dr_read 32 0
  resp ← get_resp l
  pure (u32 resp.payload)

pub Refines-read_direct :
    {B S : Type 0} {Rep : B → S → Type 0} (l : Link B Words Words) (k : Link S Words Words)
    → FollowsLink Rep l k
    → Refines Rep (read_direct l) (read_direct k)
unfolding read_direct
Refines-read_direct l k f = Refines-bind (Refines-send_req l k f _ _ _) λ _.
    Refines-bind (Refines-send_req l k f _ _ _) λ _.
      Refines-bind (Refines-send_req l k f _ _ _)
        λ _. Refines-bind (Refines-get_resp l k f) λ _. Refines-pure _

-- The session and the padding of `test_if`, on a bench and on a target.
unfoldable pub padded : {B : Type 0} → Script B Report → Script B (Unit {0}) → Script B Report
padded session idle = do report ← session; repeat 100 idle; pure report

pub Refines-padded :
    {B S : Type 0} {Rep : B → S → Type 0} {m : Script B Report} {n : Script S Report}
    {i : Script B (Unit {0})} {j : Script S (Unit {0})}
    → Refines Rep m n
    → Refines Rep i j
    → Refines Rep (padded m i) (padded n j)
unfolding padded
Refines-padded h k = Refines-bind h λ _. Refines-bind (Refines-repeat 100 k) λ _. Refines-pure _

repeat-idle : {S : Type 0} (n : ℕ) (s : S) → repeat n target_idle s ≡ some (tt, s)
unfolding repeat pure target_idle
repeat-idle zero s = refl
repeat-idle (suc n) s = bind-some target_idle _ refl ∙ repeat-idle n s

pub padded-idle :
    {S : Type 0} (n : Script S Report) (s s' : S) (v : Report)
    → n s ≡ some (v, s')
    → padded n target_idle s ≡ some (v, s')
unfolding padded pure
padded-idle n s s' v e = bind-some n _ e ∙ bind-some (repeat 100 target_idle) _ (repeat-idle 100 s')

-- A request of the JTAG PHY without data, and its response with a value of 32 bits: 32 in the low
-- six bits, and the value at the top of the 64 bits above.
abbrev pub plain_request : ℕ → Words
plain_request w = record { word0 = w; word1 = 0; word2 = 0 }

abbrev pub value_response : ℕ → Words
value_response y = record { word0 = 32; word1 = y * 64 % 2 ^ 32; word2 = y * 64 / 2 ^ 32 }

value_lem : (y : ℕ) → y < 2 ^ 32 → response (value_response y) ≡ record { len = 32; payload = y }
value_lem y h =
    response_lem (value_response y) 32 y (omega arith) (omega arith) (omega arith) (omega arith)
      (omega arith) h (omega arith)

sent :
    {T : Type 0} (phy : Target T Words Words) (w : Words) (t t' : T) (out : List Words)
    → phy w t ≡ (t', out)
    → target_put phy w (t, []) ≡ some (tt, (t', out))
unfolding target_put
sent phy w t t' out e = ap (λ r. some (tt, r)) e

got :
    {T : Type 0} (phy : Target T Words Words) (y : ℕ) (t : T)
    → y < 2 ^ 32
    → get_resp (target_link phy) (t, value_response y ∷ [])
      ≡ some (record { len = 32; payload = y }, (t, []))
unfolding get_resp target_link target_get pure ◌>>=◌
got phy y t h = ap (λ r. some (r, (t, []))) (value_lem y h)

-- A PHY that takes a write of no bits to DR (the request 0), one to IR (4), and answers a read of 32
-- bits of DR (1 + 32 * 8) with a value: `JTAG_Direct` reads that value.
pub read_direct-value :
    {T : Type 0} (phy : Target T Words Words) (t t1 t2 t3 : T) (y : ℕ)
    → y < 2 ^ 32
    → phy (plain_request 0) t ≡ (t1, [])
    → phy (plain_request 4) t1 ≡ (t2, [])
    → phy (plain_request 257) t2 ≡ (t3, value_response y ∷ [])
    → read_direct (target_link phy) (t, []) ≡ some (y, (t3, []))
unfolding read_direct send_req request_words target_link pure
read_direct-value {T} phy t t1 t2 t3 y h e1 e2 e3 =
    let link : Link (T × List Words) Words Words = target_link phy in
    let narrow : u32 y ≡ y = omega arith in
    bind-some (send_req link cmd_dr_write 0 0) _ (sent phy (plain_request 0) t t1 [] e1)
    ∙ bind-some (send_req link cmd_ir_write 0 0) _ (sent phy (plain_request 4) t1 t2 [] e2)
    ∙ bind-some (send_req link cmd_dr_read 32 0) _
        (sent phy (plain_request 257) t2 t3 (value_response y ∷ []) e3)
    ∙ bind-some (get_resp link) _ (got phy y t3 h)
    ∙ ap (λ (x : ℕ). some (x, (t3, []))) narrow
