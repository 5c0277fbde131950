-- ===== src/Ssl/Lifetime.antt =====
-- What the methods of `SSLConnection` allocate, the others release.
use Prim.Native.String.{String}
use my_codebase.Base.{
  ℕ, ◌≡◌, ◌∙◌, ◌==◌, true, Bool-cases, Option-cases, inl, inr, List, Option, some,
}
use my_codebase.Process.{Done, ◌>>=◌, Leaves, leaves, ends, Leaves-bind, Leaves-exit_unless}
use my_codebase.Posix.{Posix, stream, htons}
use my_codebase.Ssl.Handles.{Handle, descriptor, session, context, hold, Holds}
use my_codebase.Ssl.OpenSsl.{OpenSsl, SslConnection, tls_server_method, tls_client_method}
use my_codebase.Ssl.Setup.{
  Chosen, in_server_side, in_client_side, start_server, start_client, start_side,
  new_ssl_connection, delete_ssl_connection, connect_ssl, ca_cert, or_negative, listen_ssl, finish,
  clear_accepted_client_sd,
}

module _ (os : Posix) (tls : OpenSsl os) (law : Holds os tls) where
  open law use {
    held, socket_holds, accept_holds, ctx_new_holds, new_holds, close_releases, free_releases,
    ctx_free_releases, reuseaddr_keeps, bind_keeps, listen_keeps, connect_keeps, auto_retry_keeps,
    verify_peer_keeps, load_keeps, certificate_keeps, private_key_keeps, check_keeps, set_fd_keeps,
    ssl_connect_keeps, ssl_accept_keeps, shutdown_keeps, read_keeps, get_fd_set, get_fd_accept,
  }

  -- A session that is open behind what was held before.
  abbrev IsOpened :
      List (Handle tls.Context tls.Session) → Option ℕ × Option tls.Session → os.World → Type 0
  IsOpened hs p w = held w ≡ hold session p.1 (hold descriptor p.0 hs)

  connect_ssl-IsOpened :
      (c : SslConnection tls.Context) (w : os.World)
      → Leaves (IsOpened (held w)) (connect_ssl os tls c w)
  unfolding connect_ssl
  connect_ssl-IsOpened c w =
      let (fd, w₁) = os.socket stream w in
      let w₂ = (os.connect fd c.socket_addr w₁).1 in
      let (ssl, w₃) = tls.ssl_new c.ssl_ctx w₂ in
      let w₄ = (tls.ssl_set_fd ssl fd w₃).1 in
      let opened : IsOpened (held w) (fd, ssl) (tls.ssl_connect ssl w₄).1 =
        rw (ssl_connect_keeps, set_fd_keeps, new_holds, connect_keeps, socket_holds) in
      search (Leaves-exit_unless, leaves, opened)

  finish_releases :
      (p : Option ℕ × Option tls.Session) (hs : List (Handle tls.Context tls.Session))
      (w : os.World)
      → IsOpened hs p w
      → Leaves (λ _ w'. held w' ≡ hs) (finish os tls p w)
  unfolding finish
  finish_releases (fd, ssl) hs w e =
      let w₁ = (tls.ssl_shutdown ssl w).1 in
      let w₂ = (tls.ssl_read ssl 4 w₁).1 in
      let w₃ = (tls.ssl_shutdown ssl w₂).1 in
      let opened : IsOpened hs (fd, ssl) w₃ = rw (shutdown_keeps, read_keeps, shutdown_keeps) e in
      let closed : held (os.close fd (tls.ssl_free ssl w₃)) ≡ hs =
        close_releases fd hs _ (free_releases ssl _ w₃ opened) in
      search (Leaves-exit_unless, leaves, closed)

  -- The session of an accepted client knows its descriptor.
  abbrev Accepted :
      List (Handle tls.Context tls.Session) → Option ℕ × Option tls.Session → os.World → Type 0
  Accepted hs p w = IsOpened hs p w × (tls.ssl_get_fd p.1 w ≡ p.0)

  listen_ssl-Accepted :
      (c : SslConnection tls.Context) (w : os.World)
      → Leaves (Accepted (held w)) (listen_ssl os tls c w)
  unfolding listen_ssl or_negative
  listen_ssl-Accepted c w = elim (Option-cases (os.accept c.listen_fd w).0.0) [
    | inl failed ↦ rw failed (ends _)
    | inr (fd, e) ↦
        let w₁ = (os.accept c.listen_fd w).1 in
        let (ssl, w₂) = tls.ssl_new c.ssl_ctx w₁ in
        let w₃ = (tls.ssl_set_fd ssl (some fd) w₂).1 in
        let opened : IsOpened (held w) (some fd, ssl) (tls.ssl_accept ssl w₃).1 =
          rw (ssl_accept_keeps, set_fd_keeps, new_holds, accept_holds, e) in
        let tied : (tls.ssl_set_fd ssl (some fd) w₂).0 ≡ true
            → Accepted (held w) (some fd, ssl) (tls.ssl_accept ssl w₃).1 =
          λ ok. (opened, get_fd_accept ssl w₃ ∙ get_fd_set ssl (some fd) w₂ ok) in
        rw e (search (Leaves-exit_unless, leaves, tied))
  ]

  clear_releases :
      (p : Option ℕ × Option tls.Session) (hs : List (Handle tls.Context tls.Session))
      (w : os.World)
      → Accepted hs p w
      → Leaves (λ _ w'. held w' ≡ hs) (clear_accepted_client_sd os tls p.1 w)
  unfolding clear_accepted_client_sd
  clear_releases (fd, ssl) hs w (opened, tied) =
      rw tied (leaves _ _ (close_releases fd hs _ (free_releases ssl _ w opened)))

  -- The first `switch` of the constructor.
  abbrev Starts : List (Handle tls.Context tls.Session) → Chosen os tls → os.World → Type 0
  Starts hs side w = held w ≡ hold context side.ctx hs

  start_server-Starts :
      (fd : Option ℕ) (port : ℕ) (w : os.World)
      → Leaves (Starts (held w)) (start_server os tls fd port w)
  unfolding start_server
  start_server-Starts fd port w =
      let (ctx, w₁) = tls.ssl_ctx_new tls_server_method w in
      let w₂ = tls.ssl_ctx_set_auto_retry ctx w₁ in
      let w₃ = (os.setsockopt_reuseaddr fd w₂).1 in
      let w₄ = (os.bind fd (record { sin_family = 2; sin_port = htons port; s_addr = 0 }) w₃).1 in
      let started : held (os.listen fd 10 w₄).1 ≡ hold context ctx (held w) =
        rw (listen_keeps, bind_keeps, reuseaddr_keeps, auto_retry_keeps, ctx_new_holds) in
      search (Leaves-exit_unless, leaves, started)

  start_side-Starts :
      (type : ℕ) (fd : Option ℕ) (ip : String) (port : ℕ) (w : os.World)
      → Leaves (Starts (held w)) (start_side os tls type fd ip port w)
  unfolding start_side start_client
  start_side-Starts type fd ip port w = elim (Bool-cases (type == in_server_side)) [
    | inl server ↦ rw server (start_server-Starts fd port w)
    | inr other ↦ elim (Bool-cases (type == in_client_side)) [
      | inl client ↦ rw (other, client) (leaves _ _ (ctx_new_holds tls_client_method w))
      | inr wrong ↦ rw (other, wrong) (ends w)
    ]
  ]

  -- A connection object behind what was held before.
  abbrev Built :
      List (Handle tls.Context tls.Session) → SslConnection tls.Context → os.World → Type 0
  Built hs c w = held w ≡ hold context c.ssl_ctx (hold descriptor c.listen_fd hs)

  new_ssl_connection-Built :
      (ip : String) (port type : ℕ) (w : os.World)
      → Leaves (Built (held w)) (new_ssl_connection os tls ip port type w)
  unfolding new_ssl_connection
  new_ssl_connection-Built ip port type w =
      let (fd, w₁) = os.socket stream w in
      Leaves-bind (Built (held w)) (Starts (held w₁)) _ (start_side os tls type fd ip port w₁)
        (start_side-Starts type fd ip port w₁)
        (λ side w₂ started.
          let w₃ = tls.ssl_ctx_set_verify_peer side.ctx w₂ in
          let w₄ = (tls.ssl_ctx_load_verify_locations side.ctx ca_cert w₃).1 in
          let w₅ = (tls.ssl_ctx_use_certificate_file side.ctx side.crt_file w₄).1 in
          let w₆ = (tls.ssl_ctx_use_private_key_file side.ctx side.key_file w₅).1 in
          let w₇ = (tls.ssl_ctx_check_private_key side.ctx w₆).1 in
          let built : held w₇ ≡ hold context side.ctx (hold descriptor fd (held w)) = rw (
            check_keeps, private_key_keeps, certificate_keeps, load_keeps, verify_peer_keeps,
            started, socket_holds,
          ) in
          search (Leaves-exit_unless, leaves, built))

  delete_releases :
      (c : SslConnection tls.Context) (hs : List (Handle tls.Context tls.Session)) (w : os.World)
      → Built hs c w
      → Leaves (λ _ w'. held w' ≡ hs) (delete_ssl_connection os tls c w)
  unfolding delete_ssl_connection
  delete_releases c hs w built =
      leaves _ _ (close_releases c.listen_fd hs _ (ctx_free_releases c.ssl_ctx _ w built))

-- For a kernel and an OpenSSL whose calls hand out and take back descriptors, sessions and
-- contexts as they document: if the constructor and the destructor return, if `ConnectSSL` and
-- `Finish` return, or if `ListenSSL` and `ClearAcceptedClientSd` return, all that the first
-- allocated has been released and nothing else.
pub ssl_connection_releases :
    (os : Posix) (tls : OpenSsl os) (law : Holds os tls) (ip : String) (port type : ℕ)
    (c : SslConnection tls.Context) (w : os.World)
    → Leaves
        (λ _ w'. law.held w' ≡ law.held w)
        ((new_ssl_connection os tls ip port type >>= delete_ssl_connection os tls) w)
      × Leaves (λ _ w'. law.held w' ≡ law.held w) ((connect_ssl os tls c >>= finish os tls) w)
      × Leaves
          (λ _ w'. law.held w' ≡ law.held w)
          ((listen_ssl os tls c >>= λ p. clear_accepted_client_sd os tls p.1) w)
ssl_connection_releases os tls law ip port type c w =
    let hs = law.held w in
    let back : Done → os.World → Type 0 = λ _ w'. law.held w' ≡ hs in
    (
      Leaves-bind back (Built os tls law hs) _ _
          (new_ssl_connection-Built os tls law ip port type w)
          (λ d w' built. delete_releases os tls law d hs w' built),
      Leaves-bind back (IsOpened os tls law hs) _ _ (connect_ssl-IsOpened os tls law c w)
          (λ p w' opened. finish_releases os tls law p hs w' opened),
      Leaves-bind back (Accepted os tls law hs) _ _ (listen_ssl-Accepted os tls law c w)
          (λ p w' accepted. clear_releases os tls law p hs w' accepted),
    )
