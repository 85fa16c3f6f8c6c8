-- ===== src/DialogLayout/Bounds.antt =====
-- plugin/src/DialogLayout.h: the client that the dialog units make covers the pixels they were made of.
use notepadpp_sync.Prelude.{ℕ, ◌+◌, ◌*◌, ◌/◌, ◌≤◌, ◌≡◌, refl, ◌&&◌, some, leb, arith, ap}
use notepadpp_sync.Integers.{int_max}
use notepadpp_sync.DialogLayout.{
  checked, to_dlg_x, to_dlg_y, from_dlg_x, from_dlg_y, clamp, DialogSize, client_x, client_y,
  frame_fits,
}

checked_fits : (n : ℕ) → n ≤ int_max → checked n ≡ some n
unfolding checked
checked_fits n h = ground arith

pub client_x_fits :
    (w : ℕ) → w ≤ 536870898 → (x : ℕ) × (client_x w ≡ some x) × (w ≤ x) × (x ≤ w + 13)
unfolding client_x to_dlg_x from_dlg_x clamp
client_x_fits w h = (
  ((w * 4 + 5) / 6 + 8) * 6 / 4,
  rw
      (
        client_x,
        to_dlg_x,
        clamp,
        checked_fits (w * 4 + 5) (omega arith),
        from_dlg_x,
        checked_fits (((w * 4 + 5) / 6 + 8) * 6) (omega arith),
      )
      refl,
  omega arith,
  omega arith,
)

pub client_y_fits :
    (h : ℕ) → h ≤ 268435441 → (y : ℕ) × (client_y h ≡ some y) × (h ≤ y) × (y ≤ h + 14)
unfolding client_y to_dlg_y from_dlg_y clamp
client_y_fits h b = (
  ((h * 8 + 12) / 13 + 8) * 13 / 8,
  rw
      (
        client_y,
        to_dlg_y,
        clamp,
        checked_fits (h * 8 + 12) (omega arith),
        from_dlg_y,
        checked_fits (((h * 8 + 12) / 13 + 8) * 13) (omega arith),
      )
      refl,
  omega arith,
  omega arith,
)

-- For a frame of at most 536870898 by 268435441 pixels no `int` overflows, the client that the dialog units make is
-- at most 13 pixels wider and 14 higher than the frame and never smaller, and `frameFits` tells just whether the controls end
-- inside the frame.
pub frame_fits_iff :
    (d : DialogSize)
    → d.pixel_w ≤ 536870898
    → d.pixel_h ≤ 268435441
    → (x : ℕ) × (y : ℕ) × (client_x d.pixel_w ≡ some x)
      × (client_y d.pixel_h ≡ some y)
      × (d.pixel_w ≤ x)
      × (x ≤ d.pixel_w + 13)
      × (d.pixel_h ≤ y)
      × (y ≤ d.pixel_h + 14)
      × (frame_fits d ≡ some (leb d.content_right d.pixel_w && leb d.content_bottom d.pixel_h))
unfolding frame_fits
frame_fits_iff d hw hh =
    let (x, ex, lx, ux) = client_x_fits d.pixel_w hw in
    let (y, ey, ly, uy) = client_y_fits d.pixel_h hh in
    (x, y, ex, ey, lx, ux, ly, uy, rw (frame_fits, ex, ey) (ap some (grind arith)))
