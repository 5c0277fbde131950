-- ===== src/Posix.antt =====
-- What src/network uses of the kernel: the calls on sockets and IPv4 addresses.
use Prim.Native.String.{String}
use my_codebase.Base.{ℕ, ◌+◌, ◌*◌, ◌/◌, ◌%◌, Bool, Option}

-- `SOCK_STREAM` and `SOCK_DGRAM`.
pub data SocketKind : Type 0 where
  stream datagram : SocketKind

-- `sockaddr_in`, after `memset` to 0.
pub record Address : Type 0 where
  pub sin_family : ℕ
  pub sin_port : ℕ
  pub s_addr : ℕ

abbrev pub af_inet : ℕ
af_inet = 2

-- `htons`, on a machine that stores the lowest byte first.
abbrev pub htons : ℕ → ℕ
htons n = n % 256 * 256 + n / 256 % 256

-- A descriptor is `none` where the C code has -1; `false` is the failure of a call. `accept`
-- delivers the address of the client.
pub record Posix : Type 1 where
  pub World : Type 0
  pub socket : SocketKind → World → Option ℕ × World
  pub setsockopt_reuseaddr : Option ℕ → World → Bool × World
  pub bind : Option ℕ → Address → World → Bool × World
  pub listen : Option ℕ → ℕ → World → Bool × World
  pub connect : Option ℕ → Address → World → Bool × World
  pub accept : Option ℕ → World → (Option ℕ × Address) × World
  pub close : Option ℕ → World → World
  pub inet_addr : String → ℕ
  pub inet_pton : String → Option ℕ
