-- ===== src/ApiClient.antt =====
-- plugin/src/ApiClient.h and ApiClient.cpp: the client of the protocol. WinHTTP, the JSON library and the
-- conversion to UTF-16 are arguments; the answers of a server may depend on all it was sent before.
pub mod Url
pub mod Headers
pub mod Requests
pub mod Channel
mod Tests
