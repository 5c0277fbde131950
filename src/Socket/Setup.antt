-- ===== src/Socket/Setup.antt =====
-- The constructors of `Socket`, `Init`, `Listen` and `Finish`.
use Prim.Native.String.{String}
use my_codebase.Base.{
  ℕ, zero, suc, ◌==◌, ◌≡◌, refl, if◌then◌else◌, Option, none, some, Option-cases, inl, inr,
}
use my_codebase.Process.{
  Program, Done, ◌>>=◌, ◌>>◌, pure, exit, call, run, exit_unless, or_exit, Leaves, leaves, ends,
}
use my_codebase.Posix.{Posix, Address, stream, datagram, af_inet, htons}

abbrev pub server_tcp : ℕ
server_tcp = 0

abbrev pub client_tcp : ℕ
client_tcp = 1

abbrev pub server_udp : ℕ
server_udp = 2

abbrev pub client_udp : ℕ
client_udp = 3

-- `SOMAXCONN` of the system headers.
abbrev pub somaxconn : ℕ
somaxconn = 4096

-- The object.
pub record SocketState : Type 0 where
  pub fd : Option ℕ
  pub addr : Address

-- `Socket(fd, addr)`
unfoldable pub socket_of : Option ℕ → Address → SocketState
socket_of fd addr = record { fd = fd; addr = addr }

-- The address that `Init` builds, with the IPv4 address in `s_addr`.
unfoldable pub address_of : ℕ → ℕ → Address
address_of port s_addr = record { sin_family = af_inet; sin_port = htons port; s_addr = s_addr }

module _ (os : Posix) where
  unfoldable pub init_server_tcp : ℕ → Program os.World SocketState
  init_server_tcp port = do
    fd ← call (os.socket stream)
    exit_unless (← call (os.bind fd (address_of port 0)))
    exit_unless (← call (os.listen fd somaxconn))
    pure (socket_of fd (address_of port 0))

  unfoldable pub init_client_tcp : String → ℕ → Program os.World SocketState
  init_client_tcp ip port = do
    fd ← call (os.socket stream)
    s_addr ← or_exit (os.inet_pton ip)
    exit_unless (← call (os.connect fd (address_of port s_addr)))
    pure (socket_of fd (address_of port s_addr))

  unfoldable pub init_server_udp : String → ℕ → Program os.World SocketState
  init_server_udp ip port = do
    fd ← call (os.socket datagram)
    s_addr ← or_exit (os.inet_pton ip)
    exit_unless (← call (os.bind fd (address_of port s_addr)))
    pure (socket_of fd (address_of port s_addr))

  -- `inet_pton` without a test: an address that it cannot read leaves the 0 of `memset`.
  unfoldable pub pton_or_zero : Option ℕ → ℕ
  pton_or_zero none = 0
  pton_or_zero (some s_addr) = s_addr

  unfoldable pub init_client_udp : String → ℕ → Program os.World SocketState
  init_client_udp ip port = do
    fd ← call (os.socket datagram)
    exit_unless (← call (os.connect fd (address_of port (pton_or_zero (os.inet_pton ip)))))
    pure (socket_of fd (address_of port (pton_or_zero (os.inet_pton ip))))

  -- `Init(type, ip, port)`, which `Socket(type, ip, port)` calls.
  unfoldable pub init_socket : ℕ → String → ℕ → Program os.World SocketState
  init_socket type ip port =
      if type == server_tcp
      then init_server_tcp port
      else if type == client_tcp
      then init_client_tcp ip port
      else if type == server_udp
      then init_server_udp ip port
      else if type == client_udp
      then init_client_udp ip port
      else exit

  unfoldable pub finish_socket : SocketState → Program os.World Done
  finish_socket s = run (os.close s.fd)

  -- `clientFd > 0`
  unfoldable pub or_not_positive : Option ℕ → Program os.World ℕ
  or_not_positive none = exit
  or_not_positive (some zero) = exit
  or_not_positive (some (suc fd)) = pure (suc fd)

  unfoldable pub listen_socket : SocketState → Program os.World SocketState
  listen_socket s = do
    accepted ← call (os.accept s.fd)
    client_fd ← or_not_positive accepted.0
    pure (socket_of (some client_fd) accepted.1)

  -- Descriptor 0, which the kernel may hand out, is taken for a failure.
  abbrev IsAccepted : SocketState → Type 0
  IsAccepted s = (n : ℕ) × (s.fd ≡ some (suc n))

  pub listen_socket-IsAccepted :
      (s : SocketState) (w : os.World) → Leaves (λ c _. IsAccepted c) (listen_socket s w)
  unfolding listen_socket or_not_positive socket_of
  listen_socket-IsAccepted s w = elim (Option-cases (os.accept s.fd w).0.0) [
    | inl none_left ↦ rw none_left (ends _)
    | inr (zero, e) ↦ rw e (ends _)
    | inr (suc n, e) ↦ rw e (leaves _ _ (n, refl))
  ]
