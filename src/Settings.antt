-- ===== src/Settings.antt =====
-- plugin/src/Settings.h and Settings.cpp: `Settings`, and `SettingsStore::load` and `save`. The JSON library and the
-- conversions of strings are arguments.
pub mod RoundTrip
mod Tests
use notepadpp_sync.Prelude.{
  ℕ, Bool, true, false, not, ◌||◌, Option, none, some, List, [], ◌∷◌, if◌then◌else◌, Bytes, codes,
  map, str_eq,
}
use notepadpp_sync.Integers.{ℤ, pos}

-- `kDefaultBackendUrl`
abbrev pub default_backend_url : Bytes
default_backend_url = codes "https://sync.berkkarabacak.com"

-- `resolveBackendUrl`
unfoldable pub resolve_backend_url : Bytes → Bool → Bytes
resolve_backend_url stored key_present =
    if not key_present || (str_eq stored [] || str_eq stored (codes "https://sync.example.com"))
    then default_backend_url
    else stored

-- The session mode is the number of its enumerator, as `load` casts any number to one.
pub record Settings : Type 0 where
  pub start_sync_automatically : Bool
  pub pause_sync : Bool
  pub sync_interval_fallback_sec : ℤ
  pub web_socket_enabled : Bool
  pub notifications_enabled : Bool
  pub max_file_bytes : ℤ
  pub session_mode : ℤ
  pub sync_unsaved_notes : Bool
  pub device_name : Bytes
  pub device_id : Bytes
  pub account_id : Bytes
  pub backend_url : Bytes
  pub debug_logging : Bool
  pub version_retention : ℤ
  pub database_location : Bytes
  pub sync_roots : List Bytes
  pub sync_files : List Bytes
  pub extra_ignore_patterns : List Bytes

-- The values that `save` writes; what else a JSON text may hold is `is_other`.
pub data Value : Type 0 where
  is_bool : Bool → Value
  is_int : ℤ → Value
  is_text : Bytes → Value
  is_texts : List Bytes → Value
  is_other : Bytes → Value

-- A JSON value: whether it is an object, `j[key] = value`, `j.find(key)`, `get` for a type, where it does not
-- throw, and the text.
pub record JsonObject (J : Type 0) : Type 0 where
  pub empty : J
  pub is_object : J → Bool
  pub put : Bytes → Value → J → J
  pub at : Bytes → J → Option Value
  pub to_bool : Value → Option Bool
  pub to_int : Value → Option ℤ
  pub to_long : Value → Option ℤ
  pub to_text : Value → Option Bytes
  pub to_texts : Value → Option (List Bytes)
  pub dump : J → Option Bytes
  pub parse : Bytes → Option J

-- What `load` ends with: false, an exception, or the settings.
pub data LoadResult : Type 0 where
  not_loaded load_throws : LoadResult
  loaded : Settings → LoadResult

-- The disk at a call of `save`: whether the temporary file opens, how much of a text gets into it, and whether
-- it can be moved into place.
pub record Disk : Type 0 where
  pub opens : Bool
  pub written : Bytes → Bytes
  pub moves : Bool

-- What `save` returns, and the file behind it.
pub record Saved : Type 0 where
  pub returned : Bool
  pub file : Option Bytes

-- A value that may have thrown, handed on.
unfoldable pub taking : {A : Type 0} → Option A → (A → LoadResult) → LoadResult
taking none f = load_throws
taking (some a) f = f a

module _ {J : Type 0} (lib : JsonObject J) (utf8_to_wide wide_to_utf8 : Bytes → Bytes) where
  -- `j.value(key, otherwise)`; `none` where it throws.
  unfoldable pub value_or : {A : Type 0} → (Value → Option A) → Bytes → A → J → Option A
  value_or get key otherwise j = elim (lib.at key j) [ none ↦ some otherwise | some v ↦ get v ]

  unfoldable pub contains_key : Bytes → J → Bool
  contains_key key j = elim (lib.at key j) [ none ↦ false | some v ↦ true ]

  unfoldable pub wide_location : Bytes → Bytes
  wide_location s = if str_eq s [] then [] else utf8_to_wide s

  -- The settings of what was read, from the first to the last.
  unfoldable pub settings_of :
      Bool
      → Option Bool
      → Option Bool
      → Option ℤ
      → Option Bool
      → Option Bool
      → Option ℤ
      → Option ℤ
      → Option Bool
      → Option Bytes
      → Option Bytes
      → Option Bytes
      → Option Bytes
      → Option Bool
      → Option ℤ
      → Option Bytes
      → Option (List Bytes)
      → Option (List Bytes)
      → Option (List Bytes)
      → LoadResult
  settings_of has_url v0 v1 v2 v3 v4 v5 v6 v7 v8 v9 v10 v11 v12 v13 v14 v15 v16 v17 =
      taking v0 (λ x0. taking v1 (λ x1. taking v2 (λ x2. taking v3 (λ x3. taking v4 (λ x4.
        taking v5 (λ x5. taking v6 (λ x6. taking v7 (λ x7. taking v8 (λ x8. taking v9 (λ x9.
          taking v10 (λ x10. taking v11 (λ x11. taking v12 (λ x12. taking v13 (λ x13.
            taking v14 (λ x14. taking v15 (λ x15. taking v16 (λ x16. taking v17 (λ x17.
              loaded (record {
                start_sync_automatically = x0;
                pause_sync = x1;
                sync_interval_fallback_sec = x2;
                web_socket_enabled = x3;
                notifications_enabled = x4;
                max_file_bytes = x5;
                session_mode = x6;
                sync_unsaved_notes = x7;
                device_name = x8;
                device_id = x9;
                account_id = x10;
                backend_url = resolve_backend_url (if has_url then x11 else []) has_url;
                debug_logging = x12;
                version_retention = x13;
                database_location = wide_location x14;
                sync_roots = map utf8_to_wide x15;
                sync_files = map utf8_to_wide x16;
                extra_ignore_patterns = x17;
              })))))))))))))))))))

  -- The members of an object.
  unfoldable pub load_members : J → LoadResult
  load_members j =
      settings_of (contains_key (codes "backend_url") j)
        (value_or lib.to_bool (codes "start_sync_automatically") true j)
        (value_or lib.to_bool (codes "pause_sync") false j)
        (value_or lib.to_int (codes "sync_interval_fallback_sec") (pos 30) j)
        (value_or lib.to_bool (codes "websocket_enabled") true j)
        (value_or lib.to_bool (codes "notifications_enabled") true j)
        (value_or lib.to_long (codes "max_file_bytes") (pos 104857600) j)
        (value_or lib.to_int (codes "session_mode") (pos 0) j)
        (value_or lib.to_bool (codes "sync_unsaved_notes") false j)
        (value_or lib.to_text (codes "device_name") [] j)
        (value_or lib.to_text (codes "device_id") [] j)
        (value_or lib.to_text (codes "account_id") [] j)
        (value_or lib.to_text (codes "backend_url") [] j)
        (value_or lib.to_bool (codes "debug_logging") false j)
        (value_or lib.to_int (codes "version_retention") (pos 30) j)
        (value_or lib.to_text (codes "database_location") [] j)
        (value_or lib.to_texts (codes "sync_roots") [] j)
        (value_or lib.to_texts (codes "sync_files") [] j)
        (value_or lib.to_texts (codes "ignore_patterns") [] j)

  -- `load`, from the parsed text on: `value` throws on what is no object.
  unfoldable pub load_json : J → LoadResult
  load_json j = if lib.is_object j then load_members j else load_throws

  -- `load`, on the file; there may be none.
  unfoldable pub load : Option Bytes → LoadResult
  load none = not_loaded
  load (some text) = elim (lib.parse text) [ none ↦ not_loaded | some j ↦ load_json j ]

  -- The members in the order in which `save` writes them.
  unfoldable pub members : Settings → List (Bytes × Value)
  members s =
      (codes "start_sync_automatically", is_bool s.start_sync_automatically)
      ∷ (codes "pause_sync", is_bool s.pause_sync)
      ∷ (codes "sync_interval_fallback_sec", is_int s.sync_interval_fallback_sec)
      ∷ (codes "websocket_enabled", is_bool s.web_socket_enabled)
      ∷ (codes "notifications_enabled", is_bool s.notifications_enabled)
      ∷ (codes "max_file_bytes", is_int s.max_file_bytes)
      ∷ (codes "session_mode", is_int s.session_mode)
      ∷ (codes "sync_unsaved_notes", is_bool s.sync_unsaved_notes)
      ∷ (codes "device_name", is_text s.device_name)
      ∷ (codes "device_id", is_text s.device_id)
      ∷ (codes "account_id", is_text s.account_id)
      ∷ (codes "backend_url", is_text s.backend_url)
      ∷ (codes "debug_logging", is_bool s.debug_logging)
      ∷ (codes "version_retention", is_int s.version_retention)
      ∷ (codes "database_location", is_text (wide_to_utf8 s.database_location))
      ∷ (codes "sync_roots", is_texts (map wide_to_utf8 s.sync_roots))
      ∷ (codes "sync_files", is_texts (map wide_to_utf8 s.sync_files))
      ∷ (codes "ignore_patterns", is_texts s.extra_ignore_patterns)
      ∷ []

  unfoldable pub put_all : List (Bytes × Value) → J → J
  put_all [] j = j
  put_all ((key, value) ∷ ms) j = put_all ms (lib.put key value j)

  unfoldable pub json_of : Settings → J
  json_of s = put_all (members s) lib.empty

  -- What the temporary file and the move make of a text; nothing looks at whether it was written in full.
  unfoldable pub replace_file : Disk → Bytes → Option Bytes → Saved
  replace_file disk text file =
      if disk.moves
      then record { returned = true; file = some (disk.written text) }
      else record { returned = false; file = file }

  -- `save`; `none` where `dump` throws.
  unfoldable pub save : Disk → Settings → Option Bytes → Option Saved
  save disk s file =
      let replaced : Option Saved = elim (lib.dump (json_of s)) [
        | none ↦ none
        | some text ↦ some (replace_file disk text file)
      ] in
      if disk.opens then replaced else some (record { returned = false; file = file })
