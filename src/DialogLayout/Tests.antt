-- ===== src/DialogLayout/Tests.antt =====
-- plugin/src/DialogLayout.h: the widths of some controls and of an old frame.
use notepadpp_sync.Prelude.{◌≡◌, refl, some, codes}
use notepadpp_sync.DialogLayout.{
  push_button_px, check_box_px, legacy_client_px, text_chars, checked,
}

remove_selected_test : push_button_px (codes "Remove Selected") ≡ some 167
unfolding push_button_px text_chars checked
remove_selected_test = refl

create_account_test : check_box_px (codes "Create a new account (instead of signing in)") ≡ some 420
unfolding check_box_px text_chars checked
create_account_test = refl

legacy_test : legacy_client_px 640 ≡ some 480
unfolding legacy_client_px checked
legacy_test = refl
