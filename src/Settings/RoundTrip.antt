-- ===== src/Settings/RoundTrip.antt =====
-- plugin/src/Settings.cpp: `load` reads what `save` wrote.
use notepadpp_sync.Prelude.{
  ◌≡◌, refl, sym, ap, ◌∙◌, ℕ, ◌≤◌, Bool, true, false, Option, none, some, List, [], ◌∷◌, arith,
  if◌then◌else◌, Bytes, codes, map, str_eq, cmp, str_eq_iff, All, Bool-cases, inl, inr,
}
use notepadpp_sync.Integers.{ℤ, pos, negsuc, int_max}
use notepadpp_sync.VersionVector.Json.{val_max}
use notepadpp_sync.Settings.{
  Settings, Value, is_bool, is_int, is_text, is_texts, JsonObject, loaded, Disk, Saved,
  resolve_backend_url, taking, value_or, contains_key, wide_location, settings_of, load_members,
  load_json, load, members, put_all, json_of, replace_file, save,
}

-- A number that fits into `int`, or with the largest `int64_t` into that.
unfoldable pub Fits : ℕ → ℤ → Type 0
Fits largest (pos n) = n ≤ largest
Fits largest (negsuc n) = n ≤ largest

-- What the source relies on in the JSON library.
pub record IsJson {J : Type 0} (lib : JsonObject J) : Type 0 where
  pub object_put : (k : Bytes) (v : Value) (j : J) → lib.is_object (lib.put k v j) ≡ true
  pub at_empty : (key : Bytes) → lib.at key lib.empty ≡ none
  pub at_put :
      (key k : Bytes) (v : Value) (j : J)
      → lib.at key (lib.put k v j) ≡ (if str_eq key k then some v else lib.at key j)
  pub bool_back : (b : Bool) → lib.to_bool (is_bool b) ≡ some b
  pub int_back : (n : ℤ) → Fits int_max n → lib.to_int (is_int n) ≡ some n
  pub long_back : (n : ℤ) → Fits val_max n → lib.to_long (is_int n) ≡ some n
  pub text_back : (s : Bytes) → lib.to_text (is_text s) ≡ some s
  pub texts_back : (ss : List Bytes) → lib.to_texts (is_texts ss) ≡ some ss

module _ {J : Type 0} (lib : JsonObject J) (law : IsJson lib)
    (utf8_to_wide wide_to_utf8 : Bytes → Bytes) where
  -- The last member of a name.
  last_of : Bytes → List (Bytes × Value) → Option Value → Option Value
  last_of key [] o = o
  last_of key ((k, v) ∷ ms) o = last_of key ms (if str_eq key k then some v else o)

  at-put_all :
      (key : Bytes) (ms : List (Bytes × Value)) (j : J)
      → lib.at key (put_all lib utf8_to_wide wide_to_utf8 ms j) ≡ last_of key ms (lib.at key j)
  unfolding put_all last_of
  at-put_all key [] j = refl
  at-put_all key ((k, v) ∷ ms) j =
      at-put_all key ms (lib.put k v j) ∙ ap (last_of key ms) (law.at_put key k v j)

  at-json_of :
      (key : Bytes) (s : Settings)
      → lib.at key (json_of lib utf8_to_wide wide_to_utf8 s)
        ≡ last_of key (members lib utf8_to_wide wide_to_utf8 s) none
  unfolding json_of
  at-json_of key s =
      at-put_all key (members lib utf8_to_wide wide_to_utf8 s) lib.empty
      ∙ ap (last_of key (members lib utf8_to_wide wide_to_utf8 s)) (law.at_empty key)

  -- A member of one type that is read back.
  value_or-found :
      {A : Type 0} (get : Value → Option A) (key : Bytes) (otherwise a : A) (v : Value)
      (s : Settings)
      → last_of key (members lib utf8_to_wide wide_to_utf8 s) none ≡ some v
      → get v ≡ some a
      → value_or lib utf8_to_wide wide_to_utf8 get key otherwise
          (json_of lib utf8_to_wide wide_to_utf8 s)
        ≡ some a
  unfolding value_or
  value_or-found get key otherwise a v s e h = rw (value_or, at-json_of key s, e) h

  contains_key-found :
      (key : Bytes) (v : Value) (s : Settings)
      → last_of key (members lib utf8_to_wide wide_to_utf8 s) none ≡ some v
      → contains_key lib utf8_to_wide wide_to_utf8 key (json_of lib utf8_to_wide wide_to_utf8 s)
        ≡ true
  unfolding contains_key
  contains_key-found key v s e = rw (contains_key, at-json_of key s, e) refl

  map-Reads :
      (ws : List Bytes)
      → All (λ w. utf8_to_wide (wide_to_utf8 w) ≡ w) ws
      → map utf8_to_wide (map wide_to_utf8 ws) ≡ ws
  map-Reads [] h = refl
  map-Reads (w ∷ ws) (e, h) = λ i. e i ∷ map-Reads ws h i

  wide_location-Reads :
      (w : Bytes)
      → utf8_to_wide (wide_to_utf8 w) ≡ w
      → (wide_to_utf8 w ≡ [] → w ≡ [])
      → wide_location lib utf8_to_wide wide_to_utf8 (wide_to_utf8 w) ≡ w
  unfolding wide_location
  wide_location-Reads w e h = elim (Bool-cases (str_eq (wide_to_utf8 w) [])) [
    | inl q ↦ rw q (sym (h ((str_eq_iff (wide_to_utf8 w) []).0 q)))
    | inr q ↦ rw q e
  ]

  -- What a `save` that returned true left behind.
  saved_file :
      (o : Option Bytes) (disk : Disk) (file : Option Bytes) (saved : Saved)
      → (let replaced : Option Saved = elim o [
        | none ↦ none
        | some text ↦ some (replace_file lib utf8_to_wide wide_to_utf8 disk text file)
      ] in
          if disk.opens then replaced else some (record { returned = false; file = file }))
        ≡ some saved
      → saved.returned ≡ true
      → (text : Bytes) × (o ≡ some text) × (saved.file ≡ some (disk.written text))
  unfolding replace_file
  saved_file none disk file saved e ok = ground arith
  saved_file (some text) disk file saved e ok = (text, refl, ground arith)

  module _ (s : Settings) where
    -- The numbers fit their types, and the wide strings can be written as UTF-8 and read again.
    unfoldable pub CanBeWritten : Type 0
    CanBeWritten =
        Fits int_max s.sync_interval_fallback_sec
        × Fits val_max s.max_file_bytes
        × Fits int_max s.session_mode
        × Fits int_max s.version_retention
        × (utf8_to_wide (wide_to_utf8 s.database_location) ≡ s.database_location)
        × (wide_to_utf8 s.database_location ≡ [] → s.database_location ≡ [])
        × All (λ w. utf8_to_wide (wide_to_utf8 w) ≡ w) s.sync_roots
        × All (λ w. utf8_to_wide (wide_to_utf8 w) ≡ w) s.sync_files

    load_members-json_of :
        CanBeWritten
        → load_members lib utf8_to_wide wide_to_utf8 (json_of lib utf8_to_wide wide_to_utf8 s)
          ≡ loaded (record s { backend_url = resolve_backend_url s.backend_url true })
    unfolding load_members settings_of taking CanBeWritten last_of members str_eq cmp
    load_members-json_of (interval, bytes, mode, retention, location, filled, roots, files) =
        let r0 =
          value_or-found lib.to_bool (codes "start_sync_automatically") true
            s.start_sync_automatically (is_bool s.start_sync_automatically) s refl
            (law.bool_back s.start_sync_automatically) in
        let r1 =
          value_or-found lib.to_bool (codes "pause_sync") false s.pause_sync (is_bool s.pause_sync)
            s refl (law.bool_back s.pause_sync) in
        let r2 =
          value_or-found lib.to_int (codes "sync_interval_fallback_sec") (pos 30)
            s.sync_interval_fallback_sec (is_int s.sync_interval_fallback_sec) s refl
            (law.int_back s.sync_interval_fallback_sec interval) in
        let r3 =
          value_or-found lib.to_bool (codes "websocket_enabled") true s.web_socket_enabled
            (is_bool s.web_socket_enabled) s refl (law.bool_back s.web_socket_enabled) in
        let r4 =
          value_or-found lib.to_bool (codes "notifications_enabled") true s.notifications_enabled
            (is_bool s.notifications_enabled) s refl (law.bool_back s.notifications_enabled) in
        let r5 =
          value_or-found lib.to_long (codes "max_file_bytes") (pos 104857600) s.max_file_bytes
            (is_int s.max_file_bytes) s refl (law.long_back s.max_file_bytes bytes) in
        let r6 =
          value_or-found lib.to_int (codes "session_mode") (pos 0) s.session_mode
            (is_int s.session_mode) s refl (law.int_back s.session_mode mode) in
        let r7 =
          value_or-found lib.to_bool (codes "sync_unsaved_notes") false s.sync_unsaved_notes
            (is_bool s.sync_unsaved_notes) s refl (law.bool_back s.sync_unsaved_notes) in
        let r8 =
          value_or-found lib.to_text (codes "device_name") [] s.device_name (is_text s.device_name)
            s refl (law.text_back s.device_name) in
        let r9 =
          value_or-found lib.to_text (codes "device_id") [] s.device_id (is_text s.device_id) s refl
            (law.text_back s.device_id) in
        let r10 =
          value_or-found lib.to_text (codes "account_id") [] s.account_id (is_text s.account_id) s
            refl (law.text_back s.account_id) in
        let r11 =
          value_or-found lib.to_text (codes "backend_url") [] s.backend_url (is_text s.backend_url)
            s refl (law.text_back s.backend_url) in
        let r12 =
          value_or-found lib.to_bool (codes "debug_logging") false s.debug_logging
            (is_bool s.debug_logging) s refl (law.bool_back s.debug_logging) in
        let r13 =
          value_or-found lib.to_int (codes "version_retention") (pos 30) s.version_retention
            (is_int s.version_retention) s refl (law.int_back s.version_retention retention) in
        let r14 =
          value_or-found lib.to_text (codes "database_location") []
            (wide_to_utf8 s.database_location) (is_text (wide_to_utf8 s.database_location)) s refl
            (law.text_back (wide_to_utf8 s.database_location)) in
        let r15 =
          value_or-found lib.to_texts (codes "sync_roots") [] (map wide_to_utf8 s.sync_roots)
            (is_texts (map wide_to_utf8 s.sync_roots)) s refl
            (law.texts_back (map wide_to_utf8 s.sync_roots)) in
        let r16 =
          value_or-found lib.to_texts (codes "sync_files") [] (map wide_to_utf8 s.sync_files)
            (is_texts (map wide_to_utf8 s.sync_files)) s refl
            (law.texts_back (map wide_to_utf8 s.sync_files)) in
        let r17 =
          value_or-found lib.to_texts (codes "ignore_patterns") [] s.extra_ignore_patterns
            (is_texts s.extra_ignore_patterns) s refl (law.texts_back s.extra_ignore_patterns) in
        let url = contains_key-found (codes "backend_url") (is_text s.backend_url) s refl in
        (λ i.
          settings_of lib utf8_to_wide wide_to_utf8 (url i) (r0 i) (r1 i) (r2 i) (r3 i) (r4 i)
            (r5 i) (r6 i) (r7 i) (r8 i) (r9 i) (r10 i) (r11 i) (r12 i) (r13 i) (r14 i) (r15 i)
            (r16 i) (r17 i))
        ∙ (λ i. loaded (record s {
          backend_url = resolve_backend_url s.backend_url true;
          database_location = wide_location-Reads s.database_location location filled i;
          sync_roots = map-Reads s.sync_roots roots i;
          sync_files = map-Reads s.sync_files files i;
        }))

    json_of-object : lib.is_object (json_of lib utf8_to_wide wide_to_utf8 s) ≡ true
    unfolding json_of put_all members
    json_of-object = law.object_put _ _ _

    load_json-json_of :
        CanBeWritten
        → load_json lib utf8_to_wide wide_to_utf8 (json_of lib utf8_to_wide wide_to_utf8 s)
          ≡ loaded (record s { backend_url = resolve_backend_url s.backend_url true })
    unfolding load_json
    load_json-json_of w = rw (load_json, json_of-object) (load_members-json_of w)

    -- Where `save` returns true and the disk kept the whole text, `load` reads the same settings from the file,
    -- but for an address of the server that is empty or the retired one, for which it gives the default; the
    -- numbers fit their types and the wide strings can be written as UTF-8.
    pub load-save :
        (disk : Disk) (file : Option Bytes) (saved : Saved)
        → CanBeWritten
        → ((text : Bytes) → disk.written text ≡ text)
        → ((text : Bytes)
            → lib.dump (json_of lib utf8_to_wide wide_to_utf8 s) ≡ some text
            → lib.parse text ≡ some (json_of lib utf8_to_wide wide_to_utf8 s))
        → save lib utf8_to_wide wide_to_utf8 disk s file ≡ some saved
        → saved.returned ≡ true
        → load lib utf8_to_wide wide_to_utf8 saved.file
          ≡ loaded (record s { backend_url = resolve_backend_url s.backend_url true })
    unfolding save load replace_file
    load-save disk file saved w whole parse_dump e ok =
        let (text, dumped, kept) =
          saved_file (lib.dump (json_of lib utf8_to_wide wide_to_utf8 s)) disk file saved e ok in
        rw (kept, load, whole text, parse_dump text dumped) (load_json-json_of w)
