-- ===== src/Plugin/Tests.antt =====
-- plugin/src/PluginDefinition.cpp on some notifications.
use notepadpp_sync.Prelude.{
  ◌≡◌, refl, Bool, true, false, none, some, List, [], ◌∷◌, codes, str_eq, cmp,
}
use notepadpp_sync.LocalDb.{LocalDb, select_row}
use notepadpp_sync.Secrets.{load_secret}
use notepadpp_sync.SyncEngine.{Env}
use notepadpp_sync.Plugin.{
  Plugin, World, Notification, ready, shutdown, file_saved, file_opened, buffer_activated,
  stored_tokens, init, start, started_plugin, start_engine, plugin_be_notified, new_engine,
  plugin_init, notify_all,
}

abbrev quiet_env : Env
quiet_env = record {
  towlower = λ c. c;
  utf8_to_wide = λ s. s;
  wide_to_utf8 = λ s. s;
  sha256_hex = λ s. s;
  gcm_open = λ key nonce ct aad tag. none;
  parse_path = λ s. some (some s);
  ignored = λ s d. false;
  read_file = λ p. none;
  exists = λ p. false;
  write_ok = λ p d. true;
  master_key = [];
  now = 0;
}

abbrev no_rows : LocalDb
no_rows = record {
  meta = [];
  sync_roots = [];
  files = [];
  pending_ops = [];
  next_id = 1;
  conflicts = [];
}

abbrev world : Bool → World
world opens = record {
  env = quiet_env;
  db_opens = opens;
  secrets = (codes "access_token", codes "a") ∷ (codes "refresh_token", codes "r") ∷ [];
  web_socket_enabled = true;
  pause_sync = false;
  clock = 5;
}

abbrev day : List (World × Notification)
day =
    (world true, file_opened (codes "N"))
    ∷ (world true, ready)
    ∷ (world true, file_saved (codes "N"))
    ∷ (world true, ready)
    ∷ (world true, shutdown)
    ∷ (world true, buffer_activated (codes "N"))
    ∷ []

-- Without a database the plugin crashes as soon as Notepad++ is ready.
crash_test : notify_all ((world false, ready) ∷ []) (plugin_init no_rows) ≡ none
unfolding notify_all plugin_be_notified start_engine started_plugin start init plugin_init
    new_engine
crash_test = refl

-- The tokens are there where both secrets are.
signed_in_test : stored_tokens (world true) ≡ record { access = codes "a"; refresh = codes "r" }
unfolding stored_tokens load_secret select_row str_eq cmp
signed_in_test = refl
