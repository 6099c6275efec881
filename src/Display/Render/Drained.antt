-- ===== src/Display/Render/Drained.antt =====
-- That what is pushed to the queue of statics/include/display.js is rendered.
use routercenter_old.Prelude.{
  ℕ, ◌-◌, ◌≡◌, refl, sym, ap, ◌∙◌, Bool, false, not, ◌&&◌, inl, inr, Bool-cases, List, [], ◌∷◌,
  ◌++◌, map, append-nil, ◌==◌, arith,
}
use routercenter_old.Prelude.All.{All}
use routercenter_old.Display.{View, Draw, Action, Display, draw}
use routercenter_old.Display.Render.{
  waits, scan_loop, is_empty, after_scan, scan_render_q, on_frame,
}
use routercenter_old.Display.Render.Drawing.{
  drawing, Drawable, Renders, restyled, restyled-Renders, Draws, perform-drawing,
}
use routercenter_old.Display.Render.Order.{
  Turn, frame, turn, turns, pushes, Polled, turn-Draws, Draws-trans, All-parts_of, turns-Draws,
}

Draws-all :
    {vp : View} {before : List Draw} {t : Display} {due : List Action}
    → Draws vp before t due
    → t.render_q ≡ []
    → t.draws ≡ before ++ map (drawing vp) due
Draws-all {vp} {before} {t} {due} h e =
    h.shown
    ∙ ap (λ z. before ++ map (drawing vp) z)
        (sym (h.in_order ∙ ap (λ z. h.drawn_now ++ z) e ∙ append-nil h.drawn_now))

-- Every image of the actions has loaded.
abbrev pub AllLoaded : (ℕ → Bool) → List Action → Type 0
AllLoaded loaded = All (λ a. waits loaded a ≡ false)

scan_loop_empties :
    (loaded : ℕ → Bool) (q : List Action) (s : Display)
    → All Drawable q
    → Renders s
    → AllLoaded loaded q
    → (scan_loop loaded q s).1.render_q ≡ []
unfolding scan_loop
scan_loop_empties loaded [] s p t l = refl
scan_loop_empties loaded (a ∷ q) s p t l =
    rw (l.0, perform-drawing a s p.0 t, scan_loop)
      (scan_loop_empties loaded q (draw (drawing s.view a) (restyled a s)) p.1
        (restyled-Renders a s p.0 t) l.1)

after_scan-render_q : (out : Bool × Display) → (after_scan out).render_q ≡ out.1.render_q
unfolding after_scan
after_scan-render_q (done, t) = elim (Bool-cases (done && not (is_empty t.render_q))) [
  | inl e ↦ rw e refl
  | inr e ↦ rw e refl
]

frame_empties :
    (loaded : ℕ → Bool) (s : Display)
    → All Drawable s.render_q
    → Renders s
    → Polled s
    → AllLoaded loaded s.render_q
    → (on_frame loaded s).render_q ≡ []
unfolding on_frame scan_render_q
frame_empties loaded s p t h l = elim (Bool-cases (s.frames == 0)) [
  | inl e ↦ rw e (elim h [ inl k ↦ k | inr lt ↦ absurd (grind arith) ])
  | inr e ↦
      let s' = record s { frames = s.frames - 1 } in
      rw e (
        after_scan-render_q (scan_loop loaded s.render_q s')
        ∙ scan_loop_empties loaded s.render_q s' p t l)
]

-- In true colour, when the copy of the canvas's style is right, images of pixels have a pixel, colours have
-- three parts, and a callback is asked for if something waits: once
-- every image of what was queued and pushed has loaded, the next frame leaves nothing waiting, and
-- everything has been drawn, in its order.
pub on_frame-turns :
    (ts : List Turn) (loaded : ℕ → Bool) (s : Display)
    → All Drawable (s.render_q ++ pushes ts)
    → Renders s
    → Polled s
    → AllLoaded loaded (s.render_q ++ pushes ts)
    → ((on_frame loaded (turns ts s)).render_q ≡ [])
      × ((on_frame loaded (turns ts s)).draws
          ≡ s.draws ++ map (drawing s.view) (s.render_q ++ pushes ts))
unfolding turn pushes
on_frame-turns ts loaded s p t h l =
    let due = s.render_q ++ pushes ts in
    let s' = turns ts s in
    let d = turns-Draws ts s p t h in
    let pixels = All-parts_of Drawable d.drawn_now s'.render_q due d.in_order p in
    let empty =
      frame_empties loaded s' pixels d.still_renders d.waited_for
        (All-parts_of (λ a. waits loaded a ≡ false) d.drawn_now s'.render_q due d.in_order l) in
    let f =
      turn-Draws (frame loaded) s' (rw (append-nil s'.render_q) pixels) d.still_renders
        d.waited_for in
    (
      empty,
      Draws-all (Draws-trans {t' = on_frame loaded s'} [] d f) empty
          ∙ ap (λ z. s.draws ++ map (drawing s.view) z) (append-nil due),
    )
