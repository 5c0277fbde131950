-- ===== src/Ssl/Setup.antt =====
-- The constructor and destructor of `SSLConnection`, `ConnectSSL`, `ListenSSL`, `Finish` and
-- `ClearAcceptedClientSd`.
use Prim.Native.String.{String}
use my_codebase.Base.{ℕ, ◌==◌, bit_and, if◌then◌else◌, Bool, false, Option, none, some}
use my_codebase.Process.{Program, Done, ◌>>=◌, ◌>>◌, pure, exit, call, run, exit_unless}
use my_codebase.Posix.{Posix, stream, af_inet, htons}
use my_codebase.Ssl.OpenSsl.{OpenSsl, SslConnection, tls_server_method, tls_client_method}

-- include/const_var.h
abbrev pub in_server_side : ℕ
in_server_side = 0

abbrev pub in_client_side : ℕ
in_client_side = 1

abbrev server_cert : String
server_cert = "../key/server/server.crt"

abbrev server_key : String
server_key = "../key/server/server.key"

abbrev client_cert : String
client_cert = "../key/client/client.crt"

abbrev client_key : String
client_key = "../key/client/client.key"

abbrev pub ca_cert : String
ca_cert = "../key/ca/ca.crt"

-- `ret == n`
abbrev pub equals : Option ℕ → ℕ → Bool
equals none n = false
equals (some m) n = m == n

module _ (os : Posix) (tls : OpenSsl os) where
  -- What the first `switch` of the constructor leaves in its variables.
  pub record Chosen : Type 0 where
    pub ctx : Option tls.Context
    pub key_file : String
    pub crt_file : String
    pub address : ℕ

  unfoldable pub start_server : Option ℕ → ℕ → Program os.World Chosen
  start_server fd port = do
    ctx ← call (tls.ssl_ctx_new tls_server_method)
    run (tls.ssl_ctx_set_auto_retry ctx)
    exit_unless (← call (os.setsockopt_reuseaddr fd))
    exit_unless
        (← call (os.bind fd (record { sin_family = af_inet; sin_port = htons port; s_addr = 0 })))
    exit_unless (← call (os.listen fd 10))
    pure (record { ctx = ctx; key_file = server_key; crt_file = server_cert; address = 0 })

  unfoldable pub start_client : String → Program os.World Chosen
  start_client ip = do
    ctx ← call (tls.ssl_ctx_new tls_client_method)
    pure (record {
      ctx = ctx;
      key_file = client_key;
      crt_file = client_cert;
      address = os.inet_addr ip;
    })

  unfoldable pub start_side : ℕ → Option ℕ → String → ℕ → Program os.World Chosen
  start_side type fd ip port =
      if type == in_server_side
      then start_server fd port
      else if type == in_client_side
      then start_client ip
      else exit

  -- `SSLConnection(ip, port, type)`
  unfoldable pub new_ssl_connection : String → ℕ → ℕ → Program os.World (SslConnection tls.Context)
  new_ssl_connection ip port type = do
    listen_fd ← call (os.socket stream)
    side ← start_side type listen_fd ip port
    run (tls.ssl_ctx_set_verify_peer side.ctx)
    exit_unless (← call (tls.ssl_ctx_load_verify_locations side.ctx ca_cert))
    exit_unless (← call (tls.ssl_ctx_use_certificate_file side.ctx side.crt_file))
    exit_unless (← call (tls.ssl_ctx_use_private_key_file side.ctx side.key_file))
    exit_unless (← call (tls.ssl_ctx_check_private_key side.ctx))
    pure (record {
      socket_addr = record { sin_family = af_inet; sin_port = htons port; s_addr = side.address };
      server_ip = ip;
      port = port;
      ssl_ctx = side.ctx;
      listen_fd = listen_fd;
    })

  -- `~SSLConnection()`
  unfoldable pub delete_ssl_connection : SslConnection tls.Context → Program os.World Done
  delete_ssl_connection c = do run (tls.ssl_ctx_free c.ssl_ctx); run (os.close c.listen_fd)

  unfoldable pub connect_ssl :
      SslConnection tls.Context → Program os.World (Option ℕ × Option tls.Session)
  connect_ssl c = do
    socket_fd ← call (os.socket stream)
    exit_unless (← call (os.connect socket_fd c.socket_addr))
    ssl_ptr ← call (tls.ssl_new c.ssl_ctx)
    exit_unless (← call (tls.ssl_set_fd ssl_ptr socket_fd))
    exit_unless (← call (tls.ssl_connect ssl_ptr))
    pure (socket_fd, ssl_ptr)

  -- `socket_fd < 0`
  unfoldable pub or_negative : Option ℕ → Program os.World ℕ
  or_negative none = exit
  or_negative (some fd) = pure fd

  unfoldable pub listen_ssl :
      SslConnection tls.Context → Program os.World (Option ℕ × Option tls.Session)
  listen_ssl c = do
    accepted ← call (os.accept c.listen_fd)
    socket_fd ← or_negative accepted.0
    ssl_ptr ← call (tls.ssl_new c.ssl_ctx)
    exit_unless (← call (tls.ssl_set_fd ssl_ptr (some socket_fd)))
    exit_unless (← call (tls.ssl_accept ssl_ptr))
    pure (some socket_fd, ssl_ptr)

  unfoldable pub finish : Option ℕ × Option tls.Session → Program os.World Done
  finish (fd, ssl) = do
    ret ← call (tls.ssl_shutdown ssl)
    exit_unless (equals ret 0)
    flags ← call (λ w. (tls.ssl_get_shutdown ssl w, w))
    exit_unless (bit_and flags 1 == 1)
    ret_stat ← call (tls.ssl_read ssl 4)
    error ← call (λ w. (tls.ssl_get_error ssl ret_stat w, w))
    exit_unless (error == 6)
    tmp ← call (tls.ssl_shutdown ssl)
    exit_unless (equals tmp 1)
    run (tls.ssl_free ssl)
    run (os.close fd)

  unfoldable pub clear_accepted_client_sd : Option tls.Session → Program os.World Done
  clear_accepted_client_sd ssl = do
    sd ← call (λ w. (tls.ssl_get_fd ssl w, w))
    run (tls.ssl_free ssl)
    run (os.close sd)
