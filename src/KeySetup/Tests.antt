-- ===== src/KeySetup/Tests.antt =====
-- plugin/src/core/KeySetup.cpp on concrete codes.
use notepadpp_sync.Prelude.{◌≡◌, refl, some, Bytes, codes, contains}
use notepadpp_sync.KeySetup.{
  pairing_alphabet, upper_letter, collect, hyphenate, normalize_pairing_code,
}

abbrev typed : Bytes
typed = codes "abcd efgh"

abbrev shown : Bytes
shown = codes "ABCD-EFGH"

typed_test : normalize_pairing_code typed ≡ some shown
unfolding normalize_pairing_code collect hyphenate upper_letter pairing_alphabet contains
typed_test = refl
