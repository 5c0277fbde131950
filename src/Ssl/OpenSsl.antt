-- ===== src/Ssl/OpenSsl.antt =====
-- What src/network/ssl_conn.cc uses of OpenSSL, and the object of include/network/ssl_conn.h.
use Prim.Native.String.{String}
use my_codebase.Base.{ℕ, Bool, Option}
use my_codebase.Posix.{Posix, Address}

-- `TLS_server_method()` and `TLS_client_method()`.
pub data Method : Type 0 where
  tls_server_method tls_client_method : Method

-- A pointer is `none` where it is NULL; `false` is a result that the code takes for a failure. A
-- result of `SSL_shutdown` or `SSL_read` is `none` where it is negative.
pub record OpenSsl (os : Posix) : Type 1 where
  pub Context : Type 0
  pub Session : Type 0
  pub ssl_ctx_new : Method → os.World → Option Context × os.World
  pub ssl_ctx_set_auto_retry : Option Context → os.World → os.World
  pub ssl_ctx_set_verify_peer : Option Context → os.World → os.World
  pub ssl_ctx_load_verify_locations : Option Context → String → os.World → Bool × os.World
  pub ssl_ctx_use_certificate_file : Option Context → String → os.World → Bool × os.World
  pub ssl_ctx_use_private_key_file : Option Context → String → os.World → Bool × os.World
  pub ssl_ctx_check_private_key : Option Context → os.World → Bool × os.World
  pub ssl_ctx_free : Option Context → os.World → os.World
  pub ssl_new : Option Context → os.World → Option Session × os.World
  pub ssl_set_fd : Option Session → Option ℕ → os.World → Bool × os.World
  pub ssl_get_fd : Option Session → os.World → Option ℕ
  pub ssl_connect : Option Session → os.World → Bool × os.World
  pub ssl_accept : Option Session → os.World → Bool × os.World
  pub ssl_shutdown : Option Session → os.World → Option ℕ × os.World
  pub ssl_get_shutdown : Option Session → os.World → ℕ
  pub ssl_read : Option Session → ℕ → os.World → Option ℕ × os.World
  pub ssl_get_error : Option Session → Option ℕ → os.World → ℕ
  pub ssl_free : Option Session → os.World → os.World

-- The object; `socket_addr` is where it connects to or what it is bound to.
pub record SslConnection (Context : Type 0) : Type 0 where
  pub socket_addr : Address
  pub server_ip : String
  pub port : ℕ
  pub ssl_ctx : Option Context
  pub listen_fd : Option ℕ
