-- ===== src/Ssl/Handles.antt =====
-- Which calls of src/network/ssl_conn.cc allocate, and which release.
use Prim.Native.String.{String}
use my_codebase.Base.{ℕ, ◌≡◌, true, List, ◌∷◌, Option, none, some}
use my_codebase.Posix.{Posix, Address, SocketKind}
use my_codebase.Ssl.OpenSsl.{OpenSsl, Method}

-- A descriptor, a session or a context that has to be released.
pub data Handle (Context Session : Type 0) : Type 0 where
  descriptor : ℕ → Handle Context Session
  session : Session → Handle Context Session
  context : Context → Handle Context Session

-- A call that failed has allocated nothing.
abbrev pub hold : {A H : Type 0} → (A → H) → Option A → List H → List H
hold handle none hs = hs
hold handle (some a) hs = handle a ∷ hs

-- `held` is what has been allocated and not released, the latest first. The releasing calls take
-- back the latest, and the others but those that allocate leave it.
pub record Holds (os : Posix) (tls : OpenSsl os) : Type 0 where
  pub held : os.World → List (Handle tls.Context tls.Session)
  pub socket_holds :
      (k : SocketKind) (w : os.World)
      → held (os.socket k w).1 ≡ hold descriptor (os.socket k w).0 (held w)
  pub accept_holds :
      (fd : Option ℕ) (w : os.World)
      → held (os.accept fd w).1 ≡ hold descriptor (os.accept fd w).0.0 (held w)
  pub ctx_new_holds :
      (m : Method) (w : os.World)
      → held (tls.ssl_ctx_new m w).1 ≡ hold context (tls.ssl_ctx_new m w).0 (held w)
  pub new_holds :
      (c : Option tls.Context) (w : os.World)
      → held (tls.ssl_new c w).1 ≡ hold session (tls.ssl_new c w).0 (held w)
  pub close_releases :
      (fd : Option ℕ) (hs : List (Handle tls.Context tls.Session)) (w : os.World)
      → held w ≡ hold descriptor fd hs
      → held (os.close fd w) ≡ hs
  pub free_releases :
      (s : Option tls.Session) (hs : List (Handle tls.Context tls.Session)) (w : os.World)
      → held w ≡ hold session s hs
      → held (tls.ssl_free s w) ≡ hs
  pub ctx_free_releases :
      (c : Option tls.Context) (hs : List (Handle tls.Context tls.Session)) (w : os.World)
      → held w ≡ hold context c hs
      → held (tls.ssl_ctx_free c w) ≡ hs
  pub reuseaddr_keeps :
      (fd : Option ℕ) (w : os.World) → held (os.setsockopt_reuseaddr fd w).1 ≡ held w
  pub bind_keeps : (fd : Option ℕ) (a : Address) (w : os.World) → held (os.bind fd a w).1 ≡ held w
  pub listen_keeps : (fd : Option ℕ) (n : ℕ) (w : os.World) → held (os.listen fd n w).1 ≡ held w
  pub connect_keeps :
      (fd : Option ℕ) (a : Address) (w : os.World) → held (os.connect fd a w).1 ≡ held w
  pub auto_retry_keeps :
      (c : Option tls.Context) (w : os.World) → held (tls.ssl_ctx_set_auto_retry c w) ≡ held w
  pub verify_peer_keeps :
      (c : Option tls.Context) (w : os.World) → held (tls.ssl_ctx_set_verify_peer c w) ≡ held w
  pub load_keeps :
      (c : Option tls.Context) (f : String) (w : os.World)
      → held (tls.ssl_ctx_load_verify_locations c f w).1 ≡ held w
  pub certificate_keeps :
      (c : Option tls.Context) (f : String) (w : os.World)
      → held (tls.ssl_ctx_use_certificate_file c f w).1 ≡ held w
  pub private_key_keeps :
      (c : Option tls.Context) (f : String) (w : os.World)
      → held (tls.ssl_ctx_use_private_key_file c f w).1 ≡ held w
  pub check_keeps :
      (c : Option tls.Context) (w : os.World) → held (tls.ssl_ctx_check_private_key c w).1 ≡ held w
  pub set_fd_keeps :
      (s : Option tls.Session) (fd : Option ℕ) (w : os.World)
      → held (tls.ssl_set_fd s fd w).1 ≡ held w
  pub ssl_connect_keeps :
      (s : Option tls.Session) (w : os.World) → held (tls.ssl_connect s w).1 ≡ held w
  pub ssl_accept_keeps :
      (s : Option tls.Session) (w : os.World) → held (tls.ssl_accept s w).1 ≡ held w
  pub shutdown_keeps :
      (s : Option tls.Session) (w : os.World) → held (tls.ssl_shutdown s w).1 ≡ held w
  pub read_keeps :
      (s : Option tls.Session) (n : ℕ) (w : os.World) → held (tls.ssl_read s n w).1 ≡ held w
  -- `SSL_get_fd` names the descriptor that `SSL_set_fd` has tied to the session, also after the
  -- handshake
  pub get_fd_set :
      (s : Option tls.Session) (fd : Option ℕ) (w : os.World)
      → (tls.ssl_set_fd s fd w).0 ≡ true
      → tls.ssl_get_fd s (tls.ssl_set_fd s fd w).1 ≡ fd
  pub get_fd_accept :
      (s : Option tls.Session) (w : os.World)
      → tls.ssl_get_fd s (tls.ssl_accept s w).1 ≡ tls.ssl_get_fd s w
