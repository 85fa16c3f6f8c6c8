-- ===== src/Plugin/Lifecycle.antt =====
-- plugin/src/PluginDefinition.cpp: the plugin over the notifications that Notepad++ sends it.
use notepadpp_sync.Prelude.{
  ◌≡◌, Bool, true, false, not, ◌&&◌, ◌||◌, map, none, some, List, [], ◌∷◌, All,
}
use notepadpp_sync.LocalDb.{LocalDb, list_sync_roots}
use notepadpp_sync.Plugin.{
  Engine, Plugin, World, Notification, ready, shutdown, other, file_saved, file_opened,
  buffer_activated, has_tokens, stored_tokens, stored_key,
}

-- Notepad++ reports that it is ready before it reports that it shuts down.
unfoldable pub InOrder : List (World × Notification) → Type 0
InOrder [] = Unit
InOrder ((w, ready) ∷ ns) = Unit
InOrder ((w, shutdown) ∷ ns) = ⊥
InOrder ((w, other) ∷ ns) = InOrder ns
InOrder ((w, file_saved path) ∷ ns) = InOrder ns
InOrder ((w, file_opened path) ∷ ns) = InOrder ns
InOrder ((w, buffer_activated path) ∷ ns) = InOrder ns

-- The database opens whenever the plugin is notified.
abbrev pub Opens : List (World × Notification) → Type 0
Opens ns = All (λ (w, n). w.db_opens ≡ true) ns

unfoldable pub has_api : Engine → Bool
has_api e = elim e.api [ none ↦ false | some t ↦ true ]

-- The engine is there and was not started.
unfoldable pub is_fresh : Plugin → Bool
is_fresh p = elim p.engine [ none ↦ false | some e ↦ not p.started && not e.running ]

-- The plugin was started, and its engine is gone, or runs with its API client.
unfoldable pub is_running : Plugin → Bool
is_running p = elim p.engine [ none ↦ p.started | some e ↦ p.started && (e.running && has_api e) ]

abbrev running_engine : World → Engine → Engine
running_engine w e = record {
  api = some (stored_tokens w);
  master_key = stored_key w;
  running = true;
  watched = map (λ (id, path). path) (list_sync_roots e.engine_db);
  has_channel = e.has_channel || (w.web_socket_enabled && has_tokens (stored_tokens w));
  engine_db = e.engine_db;
}
