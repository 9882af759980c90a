-- ===== src/Phy/Wait.antt =====
-- The waiting loops of ahb3lite_remote_bridge2/bench/jtag_phy_tb.cpp: a request goes to a FIFO
-- that has room, and a response is read from one that holds some.
use tinylabs_cores.Common.{ℕ, ◌<◌, ◌≡◌, true, false, some}
use tinylabs_cores.Script.{pure, bind-some}
use tinylabs_cores.Fifo.{Ports, bench_link, get}
use tinylabs_cores.Fifo.Wait.{Falls, offered, put-Falls, get-Falls}
use tinylabs_cores.Phy.{Words, request_words, response, send_req, get_resp}

module _ {B : Type 0} (p : Ports B Words Words) where
  -- Where the write FIFO has room after `n` cycles, and the bench lives on for one more, fuel above
  -- `n` lets `SendReq` end: the request was at the port for that one cycle only, and the FIFO had
  -- room for it.
  pub send_req-room :
      {n : ℕ} {b b' b2 : B} (fuel cmd len x : ℕ)
      → Falls p.cycle p.wrfull n b b'
      → n < fuel
      → p.cycle (offered p (request_words cmd len x) b') ≡ some b2
      → (send_req (bench_link p fuel) cmd len x b ≡ some (tt, p.set_wren false b2))
        × (p.wrfull b' ≡ false)
  unfolding send_req bench_link
  send_req-room fuel cmd len x f h s = put-Falls p fuel (request_words cmd len x) f h s

  -- Where the read FIFO holds a response after `n` cycles, and the bench lives on for one more,
  -- fuel above `n` lets `GetResp` end: it enables the read port for that one cycle only, while the
  -- FIFO is not empty, and returns the response that the words then at the port encode.
  pub get_resp-response :
      {n : ℕ} {b b' b2 : B} (fuel : ℕ)
      → Falls p.cycle p.rdempty n b b'
      → n < fuel
      → p.cycle (p.set_rden true b') ≡ some b2
      → (get_resp (bench_link p fuel) b
          ≡ some (response (p.rddata (p.set_rden false b2)), p.set_rden false b2))
        × (p.rdempty b' ≡ false)
  unfolding get_resp bench_link pure
  get_resp-response fuel f h s =
      let (e, room) = get-Falls p fuel f h s in (bind-some (get p fuel) _ e, room)
