-- ===== src/Headers.antt =====
-- http/http_headers.h and http/http_headers.cpp: the headers of a message.
pub mod Table
pub mod Lookup
pub mod Store
pub mod Parse
mod Examples
