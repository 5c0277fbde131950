-- ===== src/Ssl.antt =====
-- src/network/ssl_conn.cc: `SSLConnection`. Transfer has `SendData` and `ReceiveData`, Setup the
-- rest.
pub mod Transfer
pub mod Records
pub mod Send
pub mod Receive
pub mod Channel
pub mod OpenSsl
pub mod Setup
pub mod Handles
pub mod Lifetime
