-- ===== src/Vt100/Screen.antt =====
-- `write` keeps the cursor on the screen and the size of the screen.
use routercenter_old.Prelude.{ℕ, zero, suc, ◌≤◌, refl, List, replicate, length-replicate}
use routercenter_old.Vt100.{Terminal, normal, scroll, unfilled, new}
use routercenter_old.Vt100.Grid.{HasWidth}
use routercenter_old.Vt100.Bounds.{
  IsScreen, scroll-IsShape, clrtoeol-IsScreen, clrtobot-IsScreen, clear-IsScreen, move-IsScreen,
  addch-IsScreen,
}
use routercenter_old.Vt100.Keeps.{write-keeps}
use routercenter_old.Vt100.Write.{write}

-- On a screen at least 8 columns wide and 1 row high, whatever chars are written, escape sequences
-- complete or not, leave a screen of the same size, each row full, with the cursor at most one
-- column or one row behind the last one.
pub write-IsScreen :
    (w h : ℕ) (chs : List ℕ) (t : Terminal)
    → 8 ≤ w
    → 1 ≤ h
    → IsScreen w h t
    → IsScreen w h (write chs t)
unfolding scroll
write-IsScreen w h chs t wide high =
    write-keeps (IsScreen w h) (λ a n xs u s. s) (λ r c u s. move-IsScreen w h wide high r c u s.1)
      (λ u s. (s.0, scroll-IsShape w h wide high u s.1)) (clrtoeol-IsScreen w h wide high)
      (clrtobot-IsScreen w h wide high) (λ u s. clear-IsScreen w h wide high u s.1)
      (addch-IsScreen w h wide high) chs t

replicate-HasWidth {ℓ} : {A : Type ℓ} (n w : ℕ) (v : A) → HasWidth w (replicate n (replicate w v))
replicate-HasWidth zero w v = tt
replicate-HasWidth (suc n) w v = (length-replicate w v, replicate-HasWidth n w v)

-- A new terminal has the screen it is made with.
pub new-IsScreen : (w h : ℕ) → 8 ≤ w → 1 ≤ h → IsScreen w h (new w h)
unfolding new
new-IsScreen w h wide high = clear-IsScreen w h wide high (unfilled w h) (
  (refl, refl),
  (
    (length-replicate h (replicate w 0), replicate-HasWidth h w 0),
    (length-replicate h (replicate w normal), replicate-HasWidth h w normal),
  ),
)
