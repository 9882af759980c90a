-- ===== src/Tests/Switched/Reset.antt =====
-- Only the port itself changes the reset of the design in Tests/Switched/Design.
use tinylabs_cores.Common.{ℕ, ◌≡◌, refl, ◌∙◌, List, [], ◌∷◌, if-both}
use tinylabs_cores.Phy.{Words}
use tinylabs_cores.Mux.{wiring}
use tinylabs_cores.Tests.Switched.Design.{
  Device, take_word, hand_word, serve_port, take_request, hand_reply, serve_phy, device,
}
use tinylabs_cores.Rig.Reset.{ResetPort}
use tinylabs_cores.Jtag.{Lines}

abbrev KeepsReset : ℕ → Device → Type 0
KeepsReset n top = top.reset_n ≡ n

hand_word-reset : (xs : List ℕ) (top : Device) → KeepsReset top.reset_n (hand_word xs top)
unfolding hand_word
hand_word-reset [] top = refl
hand_word-reset (x ∷ xs) top = refl

hand_reply-reset : (xs : List Words) (top : Device) → KeepsReset top.reset_n (hand_reply xs top)
unfolding hand_reply
hand_reply-reset [] top = refl
hand_reply-reset (x ∷ xs) top = refl

serve_port-reset : (top : Device) → KeepsReset top.reset_n (serve_port top)
unfolding serve_port take_word
serve_port-reset top =
    let taken : KeepsReset top.reset_n (take_word top) =
      if-both (KeepsReset top.reset_n) top.adiv5_wren _ top refl refl in
    if-both (KeepsReset top.reset_n) (take_word top).adiv5_rden _ (take_word top)
      (hand_word-reset (take_word top).inside.answers (take_word top) ∙ taken) taken

serve_phy-reset : (top : Device) → KeepsReset top.reset_n (serve_phy top)
unfolding serve_phy take_request
serve_phy-reset top =
    let taken : KeepsReset top.reset_n (take_request top) =
      if-both (KeepsReset top.reset_n) top.jtag_wren _ top refl refl in
    if-both (KeepsReset top.reset_n) (take_request top).jtag_rden _ (take_request top)
      (hand_reply-reset (take_request top).inside.replies (take_request top) ∙ taken) taken

eval-reset : (top : Device) → KeepsReset top.reset_n (device.eval top)
unfolding device
eval-reset top = if-both (KeepsReset top.reset_n) top.clk top _ refl (
    if-both (KeepsReset top.reset_n) top.jtag_direct (serve_phy top) (serve_port top)
      (serve_phy-reset top) (serve_port-reset top))

lines-reset : (l : Lines) (top : Device) → KeepsReset top.reset_n (wiring.set_lines l top)
unfolding wiring
lines-reset l top = if-both (KeepsReset top.reset_n) top.tmsoe _ _ refl refl

pub reset_port : ResetPort wiring device
unfolding wiring
reset_port = record {
  reset_n = λ top. top.reset_n;
  of_set = λ level top. refl;
  of_flip = λ top. refl;
  of_lines = lines-reset;
  of_eval = eval-reset;
}
