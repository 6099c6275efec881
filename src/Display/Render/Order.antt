-- ===== src/Display/Render/Order.antt =====
-- In which order statics/include/display.js renders what is pushed to its queue.
use routercenter_old.Prelude.{
  ℕ, ◌-◌, ◌≡◌, ◌<◌, refl, sym, ap, ◌∙◌, Bool, false, ◌⊎◌, inl, inr, Bool-cases, List, [], ◌∷◌, ◌++◌,
  append_assoc, append-nil, length, ◌==◌,
}
use mathlib.Core.List.{map-append}
use routercenter_old.Prelude.All.{All, All-append, All-append_parts}
use routercenter_old.Display.{View, Draw, Action, Display}
use routercenter_old.Display.Render.{render_q_push, on_frame}
use routercenter_old.Display.Render.Drawing.{Drawable, Renders, Draws, scan_render_q-Draws}

-- What happens to the queue, with the images that have loaded then.
pub data Turn : Type 0 where
  pushed : (ℕ → Bool) → Action → Turn
  frame : (ℕ → Bool) → Turn

unfoldable pub turn : Turn → Display → Display
turn (pushed loaded a) s = render_q_push loaded a s
turn (frame loaded) s = on_frame loaded s

unfoldable pub turns : List Turn → Display → Display
unfolding turn
turns [] s = s
turns (t ∷ ts) s = turns ts (turn t s)

unfoldable pub pushes : List Turn → List Action
pushes [] = []
pushes (pushed loaded a ∷ ts) = a ∷ pushes ts
pushes (frame loaded ∷ ts) = pushes ts

-- Either nothing waits or a callback does.
abbrev pub Polled : Display → Type 0
Polled s = (s.render_q ≡ []) ⊎ (0 < s.frames)

still_polled :
    (q : List Action) (a : Action) (n : ℕ)
    → (length (q ++ a ∷ []) == 1) ≡ false
    → (q ≡ []) ⊎ (0 < n)
    → 0 < n
still_polled [] a n e h = cc
still_polled (b ∷ q) a n e (inl k) = cc
still_polled (b ∷ q) a n e (inr h) = h

pub turn-Draws :
    (u : Turn) (s : Display)
    → All Drawable (s.render_q ++ pushes (u ∷ []))
    → Renders s
    → Polled s
    → Draws s.view s.draws (turn u s) (s.render_q ++ pushes (u ∷ []))
unfolding turn render_q_push on_frame pushes
turn-Draws (pushed loaded a) s p t h = elim (Bool-cases (length (s.render_q ++ a ∷ []) == 1)) [
  | inl e ↦ rw e (scan_render_q-Draws loaded (record s { render_q = s.render_q ++ a ∷ [] }) p t)
  | inr e ↦ rw e (record {
    drawn_now = [];
    in_order = refl;
    shown = sym (append-nil s.draws);
    same_view = refl;
    still_renders = t;
    waited_for = inr (still_polled s.render_q a s.frames e h);
  })
]
turn-Draws (frame loaded) s p t h = elim (Bool-cases (s.frames == 0)) [
  | inl e ↦
      rw (e, append-nil s.render_q)
        (record {
          drawn_now = [];
          in_order = refl;
          shown = sym (append-nil s.draws);
          same_view = refl;
          still_renders = t;
          waited_for = h;
        })
  | inr e ↦
      rw (e, append-nil s.render_q)
        (scan_render_q-Draws loaded (record s { frames = s.frames - 1 })
          (All-append_parts Drawable s.render_q [] p).0 t)
]

pushes-∷ : (u : Turn) (ts : List Turn) → pushes (u ∷ ts) ≡ pushes (u ∷ []) ++ pushes ts
unfolding pushes
pushes-∷ (pushed loaded a) ts = refl
pushes-∷ (frame loaded) ts = refl

-- Draws after draws.
pub Draws-trans :
    {vp : View} {before : List Draw} {t t' : Display} {due : List Action} (later : List Action)
    (h : Draws vp before t due)
    → Draws t.view t.draws t' (t.render_q ++ later)
    → Draws vp before t' (due ++ later)
Draws-trans {vp} {before} {t} {t'} {due} later h k = record {
  drawn_now = h.drawn_now ++ k.drawn_now;
  in_order =
      ap (λ z. z ++ later) h.in_order
      ∙ append_assoc h.drawn_now t.render_q later
      ∙ ap (λ z. h.drawn_now ++ z) k.in_order
      ∙ sym (append_assoc h.drawn_now k.drawn_now t'.render_q);
  shown = rw (k.shown, h.shown, h.same_view, append_assoc, map-append) refl;
  same_view = k.same_view ∙ h.same_view;
  still_renders = k.still_renders;
  waited_for = k.waited_for;
}

pub All-parts_of :
    (P : Action → Type 0) (done rest due : List Action)
    → due ≡ done ++ rest
    → All P due
    → All P rest
All-parts_of P done rest due e p = (All-append_parts P done rest (rw (sym e) p)).1

-- In true colour, when the copy of the canvas's style is right, images of pixels have a pixel, colours have
-- three parts, and a callback is asked for if something waits:
-- whatever is pushed, and whenever the browser has a frame, what was queued and pushed is drawn in its
-- order, from some point on it waits, and while something waits a callback is asked for.
pub turns-Draws :
    (ts : List Turn) (s : Display)
    → All Drawable (s.render_q ++ pushes ts)
    → Renders s
    → Polled s
    → Draws s.view s.draws (turns ts s) (s.render_q ++ pushes ts)
unfolding turns pushes
turns-Draws [] s p t h = rw (append-nil s.render_q) (record {
  drawn_now = [];
  in_order = refl;
  shown = sym (append-nil s.draws);
  same_view = refl;
  still_renders = t;
  waited_for = h;
})
turns-Draws (u ∷ ts) s p t h =
    let now = s.render_q ++ pushes (u ∷ []) in
    let e : s.render_q ++ pushes (u ∷ ts) ≡ now ++ pushes ts =
      ap (λ z. s.render_q ++ z) (pushes-∷ u ts)
      ∙ sym (append_assoc s.render_q (pushes (u ∷ [])) (pushes ts)) in
    let (first, later) = All-append_parts Drawable now (pushes ts) (rw (sym e) p) in
    let d = turn-Draws u s first t h in
    rw e (
      Draws-trans (pushes ts) d (
        turns-Draws ts (turn u s)
          (All-append Drawable (turn u s).render_q (pushes ts)
            (All-parts_of Drawable d.drawn_now (turn u s).render_q now d.in_order first) later)
          d.still_renders d.waited_for))
