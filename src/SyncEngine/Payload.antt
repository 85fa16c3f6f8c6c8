-- ===== src/SyncEngine/Payload.antt =====
-- plugin/src/SyncEngine.cpp: `buildFilePayload`, and what an upload is given and answers.
use notepadpp_sync.Prelude.{
  ℕ, ◌+◌, ◌/◌, ◌%◌, Option, none, some, [], ◌∷◌, ◌++◌, if◌then◌else◌, length, take, get_or, Bytes,
  codes, str_eq,
}
use notepadpp_sync.Crypto.Base64.{base64_url_encode}
use notepadpp_sync.Crypto.Envelope.{encrypt}
use notepadpp_sync.VersionVector.{VersionVector, bump}
use notepadpp_sync.VersionVector.Json.{to_json, to_string}
use notepadpp_sync.LocalDb.{LocalFileState}
use notepadpp_sync.SyncEngine.{Env}

-- The body that `createFile` and `updateFile` send. `version_vector` is the text of its JSON value.
pub record Payload : Type 0 where
  pub file_id : Bytes
  pub encrypted_metadata : Bytes
  pub encrypted_content : Bytes
  pub content_hash : Bytes
  pub base_version : ℕ
  pub version_vector : Bytes
  pub size : ℕ
  pub modified_at : Bytes
  pub idempotency_key : Bytes

-- What an upload is given besides: AES-GCM, the random bytes of its three draws, `{"relative_path": p}`
-- as the JSON library prints it, and a text as the library prints what it parsed from it; `none` where the
-- library throws.
pub record Draws : Type 0 where
  pub gcm_seal : Bytes → Bytes → Bytes → Bytes → Option (Bytes × Bytes)
  pub content_nonce : Bytes
  pub metadata_nonce : Bytes
  pub uuid_bytes : Bytes
  pub dump_path : Bytes → Option Bytes
  pub reprint : Bytes → Option Bytes
  pub device_id : Bytes

-- `%02x`
unfoldable pub hex_digit : ℕ → ℕ
hex_digit n = get_or (codes "0123456789abcdef") n 0

unfoldable pub hex_bytes : Bytes → Bytes
unfolding hex_digit
hex_bytes [] = []
hex_bytes (b ∷ s) = hex_digit (b / 16) ∷ hex_digit (b % 16) ∷ hex_bytes s

-- The text of the 16 random bytes, with the version in byte 6 and the variant in byte 8.
unfoldable pub uuid_text : Bytes → Bytes
uuid_text u =
    let at = λ (i : ℕ). get_or u i 0 in
    hex_bytes (at 0 ∷ at 1 ∷ at 2 ∷ at 3 ∷ [])
    ++ b'-'
      ∷ (hex_bytes (at 4 ∷ at 5 ∷ [])
          ++ b'-'
            ∷ (hex_bytes ((at 6 % 16 + 0x40) ∷ at 7 ∷ [])
                ++ b'-'
                  ∷ (hex_bytes ((at 8 % 64 + 0x80) ∷ at 9 ∷ [])
                      ++ b'-' ∷ hex_bytes (at 10 ∷ at 11 ∷ at 12 ∷ at 13 ∷ at 14 ∷ at 15 ∷ []))))

-- The id that the file has, or a new one.
unfoldable pub payload_id : Option LocalFileState → Bytes → Bytes
payload_id none uuid = uuid_text uuid
payload_id (some st) uuid = if str_eq st.file_id [] then uuid_text uuid else st.file_id

module _ (env : Env) (draws : Draws) (key plaintext : Bytes) (base : ℕ) (vv : VersionVector)
    (st : Option LocalFileState) where
  -- The object, from its parts.
  abbrev pub payload_of : Bytes → Bytes → Bytes → Payload
  payload_of enc_content enc_meta vector = record {
    file_id = payload_id st draws.uuid_bytes;
    encrypted_metadata = base64_url_encode enc_meta;
    encrypted_content = base64_url_encode enc_content;
    content_hash = env.sha256_hex enc_content;
    base_version = base;
    version_vector = vector;
    size = length enc_content;
    modified_at = [];
    idempotency_key =
        take 36 (env.sha256_hex (key ++ (to_string base ++ env.sha256_hex plaintext)));
  }

  -- `out.bump(deviceId())` and its JSON value.
  unfoldable pub payload_vector : Option Bytes
  payload_vector = elim (bump vv draws.device_id) [
    | none ↦ none
    | some out ↦ draws.reprint (to_json out)
  ]

  unfoldable pub payload_meta : Option Bytes
  payload_meta = elim (draws.dump_path key) [
    | none ↦ none
    | some text ↦ encrypt draws.gcm_seal env.master_key draws.metadata_nonce text (codes "metadata")
  ]

  -- `buildFilePayload`, where `st` is the stored state of the key; `none` where it throws.
  unfoldable pub build_file_payload : Option Payload
  build_file_payload =
      elim (encrypt draws.gcm_seal env.master_key draws.content_nonce plaintext (codes "file")) [
        | none ↦ none
        | some enc_content ↦ elim payload_meta [
          | none ↦ none
          | some enc_meta ↦ elim payload_vector [
            | none ↦ none
            | some vector ↦ some (payload_of enc_content enc_meta vector)
          ]
        ]
      ]
