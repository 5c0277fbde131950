-- ===== src/Tests/Network.antt =====
-- The theorems on SSLConnection, on a small kernel and a small OpenSSL.
use my_codebase.Base.{
  ℕ, suc, ◌≤◌, ◌≡◌, refl, ap, true, false, List, [], ◌∷◌, ◌++◌, length, take, drop, append-nil,
  Option, none, some, arith,
}
use my_codebase.Process.{returned, ◌>>=◌, done, Leaves}
use my_codebase.Posix.{Posix}
use my_codebase.Ssl.Transfer.{
  Connection, send_data, receive_data, send_data_loop, receive_data_loop, unless_failed,
  unless_ended, report, after_msg_size,
}
use my_codebase.Memory.{u32_bytes, of_bytes}
use my_codebase.Ssl.Records.{
  no_records, more_records, put_back, Wrote, writes, Arrived, arrives, read_fails, IsConnection,
  nothing,
}
use my_codebase.Ssl.Channel.{Op, put_message, take_message, run_calls, Refines, run_calls-Refines}
use my_codebase.Ssl.OpenSsl.{OpenSsl, SslConnection}
use my_codebase.Ssl.Setup.{
  new_ssl_connection, delete_ssl_connection, connect_ssl, finish, listen_ssl,
  clear_accepted_client_sd,
}
use my_codebase.Ssl.Lifetime.{ssl_connection_releases}
use my_codebase.Ssl.Handles.{Handle, descriptor, session, context, hold, Holds}

-- A connection that keeps each write as one record.
abbrev pipe_read : ℕ → List (List ℕ) → Option (List ℕ) × List (List ℕ)
pipe_read n [] = (none, [])
pipe_read n (r ∷ rs) = (some (take n r), put_back (drop n r) rs)

abbrev pipe : Connection
pipe = record {
  World = List (List ℕ);
  write = λ bytes w. (some (length bytes), w ++ (bytes ∷ []));
  read = pipe_read;
  is_zero_return = λ w. true;
  shutdown = λ w. w;
}

pipe_writes :
    (bytes : List ℕ) (w : List (List ℕ))
    → 1 ≤ length bytes
    → Wrote pipe (λ w'. w') bytes w (pipe.write bytes w)
pipe_writes bytes w pos =
    writes (bytes ∷ []) (w ++ (bytes ∷ [])) (more_records bytes [] pos no_records)
      (append-nil bytes) (λ h. refl) refl

pipe_reads : (n : ℕ) (w : List (List ℕ)) → 1 ≤ n → Arrived pipe (λ w'. w') n w (pipe.read n w)
pipe_reads n [] pos = read_fails []
pipe_reads n (r ∷ rs) pos = arrives r rs (put_back (drop n r) rs) refl refl

abbrev pipe-IsConnection : IsConnection pipe
pipe-IsConnection = record { records = λ w. w; write_law = pipe_writes; read_law = pipe_reads }

abbrev calls : List Op
calls = put_message (7 ∷ 8 ∷ []) ∷ put_message [] ∷ take_message ∷ take_message ∷ take_message ∷ []

run_calls_example : Refines pipe pipe-IsConnection [] calls (run_calls pipe calls [])
run_calls_example =
    run_calls-Refines pipe pipe-IsConnection calls [] [] (omega arith) (nothing [] refl)

-- The third `ReceiveData` finds nothing.
run_calls_stops : run_calls pipe calls [] ≡ some (false, (7 ∷ 8 ∷ []) ∷ [] ∷ [], [])
unfolding run_calls send_data receive_data send_data_loop receive_data_loop unless_failed
    unless_ended report after_msg_size u32_bytes of_bytes
run_calls_stops = refl

-- What is held, the descriptor that is tied to the session, and how often `SSL_shutdown` was called.
abbrev Toy : Type 0
Toy = List (Handle ℕ ℕ) × (Option ℕ × ℕ)

abbrev drop_latest : {A : Type 0} → Option A → Toy → Toy
drop_latest none w = w
drop_latest (some a) w = (drop 1 w.0, w.1)

abbrev kernel : Posix
kernel = record {
  World = Toy;
  socket = λ k w. (some (length w.0), (descriptor (length w.0) ∷ w.0, w.1));
  setsockopt_reuseaddr = λ fd w. (true, w);
  bind = λ fd a w. (true, w);
  listen = λ fd n w. (true, w);
  connect = λ fd a w. (true, w);
  accept = λ fd w. (
    (some (length w.0), record { sin_family = 2; sin_port = 0; s_addr = 0 }),
    (descriptor (length w.0) ∷ w.0, w.1),
  );
  close = drop_latest;
  inet_addr = λ ip. 0;
  inet_pton = λ ip. some 0;
}

abbrev openssl : OpenSsl kernel
openssl = record {
  Context = ℕ;
  Session = ℕ;
  ssl_ctx_new = λ m w. (some 1, (context 1 ∷ w.0, w.1));
  ssl_ctx_set_auto_retry = λ c w. w;
  ssl_ctx_set_verify_peer = λ c w. w;
  ssl_ctx_load_verify_locations = λ c f w. (true, w);
  ssl_ctx_use_certificate_file = λ c f w. (true, w);
  ssl_ctx_use_private_key_file = λ c f w. (true, w);
  ssl_ctx_check_private_key = λ c w. (true, w);
  ssl_ctx_free = drop_latest;
  ssl_new = λ c w. (some 2, (session 2 ∷ w.0, w.1));
  ssl_set_fd = λ s fd w. (true, (w.0, (fd, w.1.1)));
  ssl_get_fd = λ s w. w.1.0;
  ssl_connect = λ s w. (true, w);
  ssl_accept = λ s w. (true, w);
  ssl_shutdown = λ s w. (some w.1.1, (w.0, (w.1.0, suc w.1.1)));
  ssl_get_shutdown = λ s w. 1;
  ssl_read = λ s n w. (some 0, w);
  ssl_get_error = λ s r w. 6;
  ssl_free = drop_latest;
}

drops_latest :
    {A : Type 0} (handle : A → Handle ℕ ℕ) (a : Option A) (hs : List (Handle ℕ ℕ)) (w : Toy)
    → w.0 ≡ hold handle a hs
    → (drop_latest a w).0 ≡ hs
drops_latest handle none hs w e = e
drops_latest handle (some a) hs w e = ap (λ t. drop 1 t) e

abbrev openssl-Holds : Holds kernel openssl
openssl-Holds = record {
  held = λ w. w.0;
  socket_holds = λ k w. refl;
  accept_holds = λ fd w. refl;
  ctx_new_holds = λ m w. refl;
  new_holds = λ c w. refl;
  close_releases = drops_latest (λ n. descriptor n);
  free_releases = drops_latest (λ n. session n);
  ctx_free_releases = drops_latest (λ n. context n);
  reuseaddr_keeps = λ fd w. refl;
  bind_keeps = λ fd a w. refl;
  listen_keeps = λ fd n w. refl;
  connect_keeps = λ fd a w. refl;
  auto_retry_keeps = λ c w. refl;
  verify_peer_keeps = λ c w. refl;
  load_keeps = λ c f w. refl;
  certificate_keeps = λ c f w. refl;
  private_key_keeps = λ c f w. refl;
  check_keeps = λ c w. refl;
  set_fd_keeps = λ s fd w. refl;
  ssl_connect_keeps = λ s w. refl;
  ssl_accept_keeps = λ s w. refl;
  shutdown_keeps = λ s w. refl;
  read_keeps = λ s n w. refl;
  get_fd_set = λ s fd w ok. refl;
  get_fd_accept = λ s w. refl;
}

abbrev client : SslConnection ℕ
client = record {
  socket_addr = record { sin_family = 2; sin_port = 0; s_addr = 0 };
  server_ip = "";
  port = 443;
  ssl_ctx = some 1;
  listen_fd = some 0;
}

abbrev begun : Toy
begun = (context 1 ∷ descriptor 0 ∷ [], (none, 0))

ssl_connection_example :
    Leaves
      (λ _ w'. w'.0 ≡ begun.0)
      ((new_ssl_connection kernel openssl "" 443 0 >>= delete_ssl_connection kernel openssl) begun)
    × Leaves
        (λ _ w'. w'.0 ≡ begun.0)
        ((connect_ssl kernel openssl client >>= finish kernel openssl) begun)
    × Leaves
        (λ _ w'. w'.0 ≡ begun.0)
        ((listen_ssl kernel openssl client >>= λ p. clear_accepted_client_sd kernel openssl p.1)
          begun)
ssl_connection_example = ssl_connection_releases kernel openssl openssl-Holds "" 443 0 client begun

-- The session does come to its end.
finish_returns :
    ((connect_ssl kernel openssl client >>= finish kernel openssl) begun).0 ≡ returned done
unfolding connect_ssl finish
finish_returns = refl
