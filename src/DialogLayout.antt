-- ===== src/DialogLayout.antt =====
-- plugin/src/DialogLayout.h: the sizes of the dialogs. An `int` that would pass its largest value is `none`;
-- a wide string is the list of its code units before the 0. Sizes that `frameFits` is given and dialog units
-- are not negative.
pub mod Bounds
mod Tests
use notepadpp_sync.Integers.{ℤ, pos, negsuc, int_max}
use notepadpp_sync.Prelude.{
  ℕ, zero, suc, ◌+◌, ◌-◌, ◌*◌, ◌/◌, Bool, true, false, ◌&&◌, Option, none, some, List, [], ◌∷◌, leb,
  ltb, if◌then◌else◌, length, Bytes,
}

unfoldable pub checked : ℕ → Option ℕ
checked n = if leb n int_max then some n else none

abbrev pub base_x : ℕ
base_x = 6

abbrev pub base_y : ℕ
base_y = 13

abbrev pub pad_x : ℕ
pad_x = 8

abbrev pub pad_y : ℕ
pad_y = 8

abbrev pub char_px : ℕ
char_px = 9

abbrev pub push_chrome_px : ℕ
push_chrome_px = 32

abbrev pub check_chrome_px : ℕ
check_chrome_px = 24

abbrev pub min_push_px : ℕ
min_push_px = 88

-- `textChars`
unfoldable pub text_chars : Bytes → ℕ
text_chars [] = 0
text_chars (c ∷ s) = text_chars s + 1

-- `isAscii`
unfoldable pub is_ascii : Bytes → Bool
is_ascii [] = true
is_ascii (c ∷ s) = let rest = is_ascii s in if ltb 127 c then false else rest

-- `if (pixelW < 0) pixelW = 0;`
unfoldable pub clamp : ℤ → ℕ
clamp (pos n) = n
clamp (negsuc n) = 0

-- The sum before the division is the largest number on the way, but for sums below the padding.
unfoldable pub to_dlg_x : ℤ → Option ℕ
unfolding clamp
to_dlg_x pixel_w = elim (checked (clamp pixel_w * 4 + (base_x - 1))) [
  | none ↦ none
  | some n ↦ some (n / base_x + pad_x)
]

unfoldable pub to_dlg_y : ℤ → Option ℕ
unfolding clamp
to_dlg_y pixel_h = elim (checked (clamp pixel_h * 8 + (base_y - 1))) [
  | none ↦ none
  | some n ↦ some (n / base_y + pad_y)
]

unfoldable pub from_dlg_x : ℕ → Option ℕ
from_dlg_x dlu = elim (checked (dlu * base_x)) [ none ↦ none | some n ↦ some (n / 4) ]

unfoldable pub from_dlg_y : ℕ → Option ℕ
from_dlg_y dlu = elim (checked (dlu * base_y)) [ none ↦ none | some n ↦ some (n / 8) ]

-- `pushButtonPx`, `checkBoxPx` and `labelPx`
unfoldable pub push_button_px : Bytes → Option ℕ
push_button_px text = elim (checked (text_chars text * char_px + push_chrome_px)) [
  | none ↦ none
  | some w ↦ some (if ltb w min_push_px then min_push_px else w)
]

unfoldable pub check_box_px : Bytes → Option ℕ
check_box_px text = checked (text_chars text * char_px + check_chrome_px)

unfoldable pub label_px : Bytes → Option ℕ
label_px text = checked (text_chars text * char_px + 4)

-- `legacyClientPx` of a width that is not negative.
unfoldable pub legacy_client_px : ℕ → Option ℕ
legacy_client_px pixel_w = elim (checked (pixel_w / 2 * base_x)) [
  | none ↦ none
  | some n ↦ some (n / 4)
]

-- `DialogSize`
pub record DialogSize : Type 0 where
  pub pixel_w : ℕ
  pub pixel_h : ℕ
  pub content_right : ℕ
  pub content_bottom : ℕ

-- `fromDlgX(toDlgX(w))` and `fromDlgY(toDlgY(h))`
unfoldable pub client_x : ℕ → Option ℕ
client_x w = elim (to_dlg_x (pos w)) [ none ↦ none | some dlu ↦ from_dlg_x dlu ]

unfoldable pub client_y : ℕ → Option ℕ
client_y h = elim (to_dlg_y (pos h)) [ none ↦ none | some dlu ↦ from_dlg_y dlu ]

-- `frameFits`
unfoldable pub frame_fits : DialogSize → Option Bool
frame_fits d = elim (client_x d.pixel_w) [
  | none ↦ none
  | some x ↦ elim (client_y d.pixel_h) [
    | none ↦ none
    | some y ↦ some (
        leb d.content_right d.pixel_w
        && (leb d.content_bottom d.pixel_h
            && (leb d.pixel_w x
                && (leb d.pixel_h y && (leb d.content_right x && leb d.content_bottom y)))))
  ]
]
