-- ===== src/SyncEngine.antt =====
-- plugin/src/SyncEngine.h and SyncEngine.cpp: how a file of the server gets to the disk. The settings, the
-- disk, the ignore rules, the JSON library, SHA-256 and AES-GCM are arguments; what the code does to the
-- disk and to the user interface is a list of effects in their order.
pub mod Paths
pub mod Apply
pub mod Safety
pub mod Synced
pub mod Pull
pub mod Rules
pub mod Notices
pub mod Roots
pub mod Scanner
pub mod Events
pub mod Deletes
pub mod Upload
pub mod UploadFile
pub mod Conflicts
pub mod UploadCases
pub mod Uploads
pub mod Worker
pub mod Fates
pub mod Progress
pub mod Drain
pub mod Resolve
pub mod Resolved
pub mod Keys
pub mod Pairing
pub mod Recovery
pub mod Account
pub mod Payload
mod Tests
mod UploadTests
mod QueueTests
mod KeyTests
mod WatchTests
use notepadpp_sync.Prelude.{if◌then◌else◌, ℕ, Bool, Option, List, Bytes}
use notepadpp_sync.LocalDb.{LocalDb}

-- What the engine is given. `read_file` and `exists` are the disk at the call, `write_ok` tells whether
-- `writeFileAtomic` succeeds, `parse_path` reads the metadata: `none` where it is no JSON text, else "relative_path", the
-- empty string where it is missing, or `none` where `value` throws, on no object or a member that is no text.
pub record Env : Type 0 where
  pub towlower : ℕ → ℕ
  pub utf8_to_wide : Bytes → Bytes
  pub wide_to_utf8 : Bytes → Bytes
  pub sha256_hex : Bytes → Bytes
  pub gcm_open : Bytes → Bytes → Bytes → Bytes → Bytes → Option Bytes
  pub parse_path : Bytes → Option (Option Bytes)
  pub ignored : Bytes → Bool → Bool
  pub read_file : Bytes → Option Bytes
  pub exists : Bytes → Bool
  pub write_ok : Bytes → Bytes → Bool
  pub master_key : Bytes
  pub now : ℕ

-- The body of the answer of `getFile`; the vector is its text.
pub record FileBody : Type 0 where
  pub version : ℕ
  pub is_deleted : Bool
  pub encrypted_metadata : Bytes
  pub encrypted_content : Bytes
  pub content_hash : Bytes
  pub vector_json : Bytes

-- `ApiResponse` of `getFile`: no transport, a status other than 200, or a body.
pub data Answer : Type 0 where
  unreachable refused : Answer
  fetched : FileBody → Answer

-- `backupReplaced`, `DeleteFileW`, the directories above a path, `writeFileAtomic`, the callback
-- `onRemoteFileApplied`. `write_fails` is a call of `writeFileAtomic` that changes nothing, unnoticed.
pub data Effect : Type 0 where
  backup remove make_dirs notify write_fails : Bytes → Effect
  write : Bytes → Bytes → Effect

-- `writeFileAtomic` where nothing asks what it returned.
abbrev pub written : Env → Bytes → Bytes → Effect
written env path text = if env.write_ok path text then write path text else write_fails path

-- What `applyRemoteFile` leaves. The shadow copies lie in the plugin's own folder, by key.
pub record Outcome : Type 0 where
  pub ok : Bool
  pub error_out : Bytes
  pub online : Bool
  pub db : LocalDb
  pub effects : List Effect
  pub shadows : List (Bytes × Bytes)
