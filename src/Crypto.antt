-- ===== src/Crypto.antt =====
-- plugin/src/core/Crypto.h and Crypto.cpp: the text forms of keys and blobs, and the envelope around a
-- ciphertext. Windows CNG (AES-GCM, PBKDF2, random bytes) is a parameter.
pub mod Base64
pub mod RoundTrip
pub mod Envelope
pub mod Opening
pub mod Recovery
mod Tests
