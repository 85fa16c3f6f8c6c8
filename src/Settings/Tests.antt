-- ===== src/Settings/Tests.antt =====
-- plugin/src/Settings.cpp: settings that are saved and loaded.
use notepadpp_sync.Prelude.{
  ◌≡◌, refl, subst, Bool, true, false, Option, none, some, List, [], ◌∷◌, arith, if◌then◌else◌,
  Bytes, codes, str_eq, cmp,
}
use mathlib.Core.Option.{some-injective}
use notepadpp_sync.Integers.{ℤ, pos}
use notepadpp_sync.Settings.{
  Settings, Value, is_bool, is_int, is_text, is_texts, JsonObject, loaded, not_loaded, Disk, Saved,
  resolve_backend_url, load, members, put_all, json_of, replace_file, save,
}
use notepadpp_sync.Settings.RoundTrip.{Fits, IsJson, CanBeWritten, load-save}

abbrev Object : Type 0
Object = List (Bytes × Value)

member : Bytes → Object → Option Value
member key [] = none
member key ((k, v) ∷ j) = let rest = member key j in if str_eq key k then some v else rest

get_bool : Value → Option Bool
get_bool (is_bool b) = some b
get_bool _ = none

get_int : Value → Option ℤ
get_int (is_int n) = some n
get_int _ = none

get_text : Value → Option Bytes
get_text (is_text s) = some s
get_text _ = none

get_texts : Value → Option (List Bytes)
get_texts (is_texts ss) = some ss
get_texts _ = none

abbrev writer : JsonObject Object
writer = record {
  empty = [];
  is_object = λ j. true;
  put = λ key v j. (key, v) ∷ j;
  at = member;
  to_bool = get_bool;
  to_int = get_int;
  to_long = get_int;
  to_text = get_text;
  to_texts = get_texts;
  dump = λ j. some (codes "settings");
  parse = λ text. none;
}

abbrev mine : Settings
mine = record {
  start_sync_automatically = true;
  pause_sync = false;
  sync_interval_fallback_sec = pos 60;
  web_socket_enabled = true;
  notifications_enabled = false;
  max_file_bytes = pos 1000;
  session_mode = pos 1;
  sync_unsaved_notes = false;
  device_name = codes "desk";
  device_id = codes "d";
  account_id = codes "a";
  backend_url = codes "http://localhost:8080";
  debug_logging = false;
  version_retention = pos 30;
  database_location = [];
  sync_roots = codes "N" ∷ [];
  sync_files = [];
  extra_ignore_patterns = codes "*.bak" ∷ [];
}

abbrev lib : JsonObject Object
lib = record writer {
  parse = λ text. if str_eq text [] then none else some (json_of writer (λ s. s) (λ s. s) mine);
}

lib-IsJson : IsJson lib
unfolding member get_bool get_int get_text get_texts
lib-IsJson = record {
  object_put = λ k v j. refl;
  at_empty = λ key. refl;
  at_put = λ key k v j. refl;
  bool_back = λ b. refl;
  int_back = λ n h. refl;
  long_back = λ n h. refl;
  text_back = λ s. refl;
  texts_back = λ ss. refl;
}

abbrev good_disk : Disk
good_disk = record { opens = true; written = λ text. text; moves = true }

abbrev full_disk : Disk
full_disk = record { opens = true; written = λ text. []; moves = true }

abbrev good_save : Saved
good_save = record { returned = true; file = some (codes "settings") }

load-save_example :
    load lib (λ s. s) (λ s. s) (some (codes "settings"))
    ≡ loaded
        (record mine { backend_url = resolve_backend_url (codes "http://localhost:8080") true })
unfolding save replace_file CanBeWritten Fits str_eq cmp json_of put_all members
load-save_example =
    load-save lib lib-IsJson (λ s. s) (λ s. s) mine good_disk none good_save
      (omega arith, omega arith, omega arith, omega arith, refl, (λ e. e), (refl, tt), tt)
      (λ text. refl)
      (λ text e.
        subst (λ t. lib.parse t ≡ some (json_of lib (λ s. s) (λ s. s) mine)) (some-injective _ _ e)
          refl)
      refl refl

-- On a full disk `save` returns true, and the settings that were there are gone.
full_disk_test :
    (save lib (λ s. s) (λ s. s) full_disk mine (some (codes "settings"))
      ≡ some (record { returned = true; file = some [] }))
    × (load lib (λ s. s) (λ s. s) (some []) ≡ not_loaded)
unfolding save replace_file load str_eq cmp json_of put_all members
full_disk_test = (refl, refl)
