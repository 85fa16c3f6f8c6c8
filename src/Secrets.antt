-- ===== src/Secrets.antt =====
-- plugin/src/Settings.cpp: the secrets of `SettingsStore`. DPAPI and the disk are taken by what they are
-- documented to do: what was protected is read back. `saves` tells for which names a write succeeds.
pub mod Laws
use notepadpp_sync.Prelude.{
  Bool, true, false, Option, none, some, List, [], ◌∷◌, if◌then◌else◌, Bytes, str_eq,
}
use notepadpp_sync.LocalDb.{upsert, select_row, delete_rows}

abbrev pub Secrets : Type 0
Secrets = List (Bytes × Bytes)

abbrev pub named : Bytes → Bytes × Bytes → Bool
named name (n, _) = str_eq n name

-- `saveSecret`: what it returns, and the secrets behind it.
unfoldable pub save_secret : (Bytes → Bool) → Bytes → Bytes → Secrets → Bool × Secrets
save_secret saves name value secrets =
    let stored = upsert (named name) (λ (n, _). (n, value)) (name, value) secrets in
    if saves name then (true, stored) else (false, secrets)

-- `loadSecret`: the value where it returns true.
unfoldable pub load_secret : Bytes → Secrets → Option Bytes
load_secret name secrets = elim (select_row (named name) secrets) [
  | none ↦ none
  | some (_, value) ↦ some value
]

-- `deleteSecret`: what it returns, and the secrets behind it. `deletes` tells for which names the file can be deleted or
-- is not there.
unfoldable pub delete_secret : (Bytes → Bool) → Bytes → Secrets → Bool × Secrets
delete_secret deletes name secrets =
    let left = delete_rows (named name) secrets in
    if deletes name then (true, left) else (false, secrets)
