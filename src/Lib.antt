-- ===== src/Lib.antt =====
-- Notepad++ Sync: the client of an end-to-end encrypted file synchroniser, a plugin of Notepad++ in
-- C++. A saved file is encrypted and uploaded with a vector of counters by device; changes of other
-- devices are pulled, checked, and written below a root of the user; edits that diverge are merged by
-- lines, and kept side by side where lines overlap.
--
-- A string is the list of its bytes and a wide string the list of its code units, both over the native
-- numbers. Code outside the repository (Windows, CNG, SQLite, the C++ library) is an argument of the
-- definitions that use it, or is modelled by what the source relies on. Which file models which part:
--
--   VersionVector (plugin/src/core/VersionVector.cpp): a `std::map` is an association list in the order
--     of its keys. get, bump, merge, dominates, equal and concurrent; VersionVector/Json has toJson and
--     fromJson. A counter that would pass the largest `int64_t`, which C++ leaves undefined, makes the
--     result `none`.
--   PathUtil (plugin/src/core/PathUtil.cpp): normalizeRelative, isInsideRoot and joinInsideRoot;
--     PathUtil/Segments splits what joinInsideRoot puts behind the root. `towlower` and the conversion
--     to UTF-16 are arguments.
--   Merge (plugin/src/core/Merge.cpp): Merge/Diff has diffLines with its table, Merge/Region the sweep
--     over the edits of both sides, Merge splitLines and merge. Merge/Spec is the relation that a merge
--     of three texts by lines is to satisfy.
--   Crypto (plugin/src/core/Crypto.cpp): Crypto/Base64 has base64url, Crypto/Envelope encrypt, decrypt
--     and the wrapping of keys, Crypto/Recovery the recovery key. AES-GCM is an argument.
--   KeySetup (plugin/src/core/KeySetup.cpp): pairing codes and the payload that carries a master key to
--     another device, with PBKDF2, AES-GCM and JSON as arguments.
--   LocalDb (plugin/src/LocalDb.cpp): the tables as lists of rows, with the documented effect of each
--     SQL statement on texts without a NUL; LocalDb/Texts has upsertFile and getFile for any texts,
--     which are cut at a NUL. A statement that fails is not modelled.
--   SyncEngine (plugin/src/SyncEngine.cpp): SyncEngine/Paths has absPathForRel and the key of a remote
--     file, SyncEngine/Apply applyRemoteFile, whose effects on the disk are a list, SyncEngine/Pull
--     pullChanges, SyncEngine/Events what a saved file and an event of the folder watcher put into the
--     queue, SyncEngine/Deletes deleteRemote, SyncEngine/Payload buildFilePayload, SyncEngine/Upload
--     handleConflict, SyncEngine/UploadFile uploadFile, SyncEngine/Resolve resolveConflict,
--     SyncEngine/Worker processPendingOp and a pass of workerLoop, SyncEngine/Keys the master key, its
--     recovery key and pairing, SyncEngine/Account sign-in and sign-out, SyncEngine/Rules the ignore
--     rules of all roots, SyncEngine/Roots the roots that a user adds and removes, SyncEngine/Scanner a
--     pass of scannerLoop over a disk, SyncEngine/Notices onFileOpened, onWsEvent and the device list.
--     The disk, the server, the settings, JSON, SHA-256, random bytes and AES-GCM are arguments.
--   Settings (plugin/src/Settings.h and Settings.cpp): resolveBackendUrl, load and save, with the JSON
--     library as an interface whose laws Settings/RoundTrip names.
--   Secrets (plugin/src/Settings.cpp): saveSecret, loadSecret and deleteSecret on a list of names and
--     values.
--   ApiClient (plugin/src/ApiClient.cpp): ApiClient/Url has parseUrl, ApiClient/Headers headerValue,
--     ApiClient/Requests request with the refresh of the tokens, ApiClient/Requests/Endpoints the calls
--     of the protocol, ApiClient/Requests/Persistence the callback by which the engine keeps new
--     tokens, ApiClient/Channel the loop of the WebSocket client over the attempts it makes. WinHTTP is
--     two functions of the requests sent before; a call that throws has no outcome. The engine takes
--     what these calls answer as arguments.
--   FolderWatcher (plugin/src/FolderWatcher.cpp): pump over the passes of its loop;
--     FolderWatcher/Queued hands its events to onFsEvent.
--   Plugin (plugin/src/PluginDefinition.cpp, with init and start of plugin/src/SyncEngine.cpp): what
--     the plugin does when Notepad++ notifies it, each notification with the state of the world at its
--     time; Plugin/Lifecycle follows it over any notifications.
--   Integers: how the C++ library reads integers.
--   DialogLayout (plugin/src/DialogLayout.h): the conversion of pixels to dialog units and back, with
--     the `int` that would overflow as a failure.
--   IgnoreRules (plugin/src/core/IgnoreRules.cpp): parse, ignored, matchRule; IgnoreRules/Glob has
--     globMatch, whose saved star is the record Star.
--
-- Fuel: the digits of a number n are written in at most n rounds; the parser reads a byte in each
-- round, so the length of the text is enough; a round of the sweep, and each round of the growth of a
-- region but the last, takes an edit, so the number of edits is enough; the loop of globMatch has a
-- bound for the rounds behind each star, and is shown to return; the scanner's loop over the folders
-- has fuel, as a disk may have cycles, and more than the number of folders below a root is enough. The
-- theorems about these functions state results, which an exhausted fuel would not give.
--
-- Not modelled: the rest of the sync engine, threads and locks, WinHTTP, the handles of the folder
-- watcher, dialogs, the server and the installer.
pub mod ApiClient
pub mod Crypto
pub mod DialogLayout
pub mod FolderWatcher
pub mod IgnoreRules
pub mod Integers
pub mod KeySetup
pub mod LocalDb
pub mod Merge
pub mod PathUtil
pub mod Plugin
pub mod Prelude
pub mod Secrets
pub mod Settings
pub mod SyncEngine
pub mod VersionVector
