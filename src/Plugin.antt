-- ===== src/Plugin.antt =====
-- plugin/src/PluginDefinition.cpp: `pluginInit`, `pluginBeNotified`, `startEngine` and `pluginCleanup`, with
-- `init`, `start` and `stop` of plugin/src/SyncEngine.cpp. The dialogs, the log and the status line are left out.
pub mod Lifecycle
mod Tests
use notepadpp_sync.Prelude.{
  ℕ, suc, ◌+◌, Bool, true, false, not, ◌&&◌, ◌||◌, Option, none, some, List, [], ◌∷◌, if◌then◌else◌,
  Bytes, codes, map, str_eq,
}
use notepadpp_sync.Crypto.Base64.{base64_url_output}
use notepadpp_sync.LocalDb.{LocalDb, list_sync_roots}
use notepadpp_sync.Secrets.{Secrets, load_secret}
use notepadpp_sync.SyncEngine.{Env}
use notepadpp_sync.SyncEngine.Events.{on_file_saved}
use notepadpp_sync.SyncEngine.Notices.{on_file_opened}

-- The tokens of the API client.
pub record Tokens : Type 0 where
  pub access : Bytes
  pub refresh : Bytes

-- `SyncEngine`: whether the API client is there and its tokens, the key, whether the loops run, the folders that
-- are watched, and whether the channel was started.
pub record Engine : Type 0 where
  pub api : Option Tokens
  pub master_key : Bytes
  pub running : Bool
  pub watched : List Bytes
  pub has_channel : Bool
  pub engine_db : LocalDb

-- The plugin's globals, and how often the first-run wizard was shown.
pub record Plugin : Type 0 where
  pub engine : Option Engine
  pub started : Bool
  pub wizards : ℕ

-- What the plugin is given: whether the database opens, the secrets, two settings, and the rest.
pub record World : Type 0 where
  pub env : Env
  pub db_opens : Bool
  pub secrets : Secrets
  pub web_socket_enabled : Bool
  pub pause_sync : Bool
  pub clock : ℕ

pub data Notification : Type 0 where
  ready shutdown other : Notification
  file_saved file_opened buffer_activated : Bytes → Notification

unfoldable pub has_tokens : Tokens → Bool
has_tokens t = not (str_eq t.refresh [])

unfoldable pub is_signed_in : Engine → Bool
is_signed_in e = elim e.api [ none ↦ false | some t ↦ has_tokens t ]

module _ (w : World) where
  -- The tokens that `init` finds; both secrets are needed.
  unfoldable pub stored_tokens : Tokens
  stored_tokens = elim (load_secret (codes "access_token") w.secrets) [
    | none ↦ record { access = []; refresh = [] }
    | some a ↦ elim (load_secret (codes "refresh_token") w.secrets) [
      | none ↦ record { access = []; refresh = [] }
      | some r ↦ record { access = a; refresh = r }
    ]
  ]

  -- The key that `init` finds; of a secret that is no base64url, what stands before the first bad
  -- character is kept.
  unfoldable pub stored_key : Bytes
  stored_key = elim (load_secret (codes "master_key") w.secrets) [
    | none ↦ []
    | some text ↦ base64_url_output text
  ]

  -- `init`
  unfoldable pub init : Engine → Engine
  init e = if w.db_opens then record e { api = some stored_tokens; master_key = stored_key } else e

  -- `start`; `none` is a call on a null pointer. What the
  -- threads that it starts do, and an exception in one of them, is left out.
  unfoldable pub start : Engine → Option Engine
  start e = if e.running then some e else elim e.api [
    | none ↦ none
    | some t ↦ some (record e {
      running = true;
      watched = map (λ (id, path). path) (list_sync_roots e.engine_db);
      has_channel = e.has_channel || (w.web_socket_enabled && has_tokens t);
    })
  ]

  -- `startEngine`, from `init` on.
  unfoldable pub started_plugin : Plugin → Option Engine → Option Plugin
  started_plugin p none = none
  started_plugin p (some e) = some (record {
    engine = some e;
    started = true;
    wizards = if is_signed_in e then p.wizards else suc p.wizards;
  })

  -- `startEngine`
  unfoldable pub start_engine : Plugin → Option Plugin
  start_engine p =
      let begun : Option Plugin = elim p.engine [
        | none ↦ none
        | some e ↦ started_plugin p (start (init e))
      ] in
      if p.started then some p else begun

  -- `pluginCleanup`: the engine stops and is destroyed.
  unfoldable pub plugin_cleanup : Plugin → Plugin
  plugin_cleanup p = record p { engine = none }

  -- A change of the database of an engine that is there, for a path that is not empty.
  unfoldable pub with_engine : (Engine → Engine) → Bytes → Plugin → Plugin
  with_engine f path p = elim p.engine [
    | none ↦ p
    | some e ↦ if str_eq path [] then p else record p { engine = some (f e) }
  ]

  unfoldable pub engine_saved : Bytes → Engine → Engine
  engine_saved path e = record e {
    engine_db = on_file_saved w.env (not w.pause_sync && is_signed_in e) w.clock path e.engine_db;
  }

  unfoldable pub engine_opened : Bytes → Engine → Engine
  engine_opened path e = record e {
    engine_db = on_file_opened w.env (is_signed_in e) path e.engine_db;
  }

  -- `pluginBeNotified`; `none` where a method is called on a null pointer.
  unfoldable pub plugin_be_notified : Notification → Plugin → Option Plugin
  plugin_be_notified ready p = start_engine p
  plugin_be_notified shutdown p = some (plugin_cleanup p)
  plugin_be_notified (file_saved path) p = some (with_engine (engine_saved path) path p)
  plugin_be_notified (file_opened path) p = some (with_engine (engine_opened path) path p)
  plugin_be_notified (buffer_activated path) p = some (with_engine (engine_opened path) path p)
  plugin_be_notified other p = some p

-- The engine and the plugin behind `pluginInit`, with a database that is there already.
unfoldable pub new_engine : LocalDb → Engine
new_engine db = record {
  api = none;
  master_key = [];
  running = false;
  watched = [];
  has_channel = false;
  engine_db = db;
}

unfoldable pub plugin_init : LocalDb → Plugin
plugin_init db = record { engine = some (new_engine db); started = false; wizards = 0 }

-- Notifications in turn, each with the world at its time.
unfoldable pub notify_all : List (World × Notification) → Plugin → Option Plugin
notify_all [] p = some p
notify_all ((w, n) ∷ ns) p = elim (plugin_be_notified w n p) [
  | none ↦ none
  | some q ↦ notify_all ns q
]
