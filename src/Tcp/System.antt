-- ===== src/Tcp/System.antt =====
-- The system that src/tcp_client.cc and src/tcp_server.cc call: each call takes the state `W` of the
-- system to a result and the next state. The calls are parameters; what the code relies on is stated
-- with the theorems.
use spw_rmap.Base.{ℕ, List, Option}

-- A signed number of microseconds: `pos n`, and `negsuc n` for -(n + 1).
pub data ℤ : Type 0 where
  pos : ℕ → ℤ
  negsuc : ℕ → ℤ

-- The value that a system call returns, or the errno behind a negative result.
pub data Called (A : Type 0) : Type 0 where
  value : A → Called A
  failed : ℕ → Called A

-- The options that the program sets by setsockopt.
pub data SockOpt : Type 0 where
  tcp_nodelay reuse_addr reuse_port : SockOpt
  send_timeout : ℕ → ℕ → SockOpt

-- The result of getaddrinfo: places in a list of addresses, or a code, with errno where the code is
-- EAI_SYSTEM.
pub data AddrInfo : Type 0 where
  addresses : List ℕ → AddrInfo
  gai_error : ℕ → AddrInfo
  gai_system : ℕ → AddrInfo

abbrev pub SysCall : Type 0 → Type 0 → Type 0
SysCall W A = W → Called A × W

-- A descriptor is a natural number, and -1 is `none`; the calls that the program may make with -1
-- take both. `poll` gives its result and `revents`, and `recv` the bytes that it wrote.
pub record System (W : Type 0) : Type 0 where
  pub eintr : ℕ
  pub eagain : ℕ
  pub ewouldblock : ℕ
  pub einprogress : ℕ
  pub etimedout : ℕ
  pub eai_system : ℕ
  pub o_nonblock : ℕ
  pub fd_cloexec : ℕ
  pub pollout : ℕ
  pub poll_failures : ℕ
  pub close : ℕ → SysCall W (Unit {0})
  pub get_file_flags : ℕ → SysCall W ℕ
  pub set_file_flags : ℕ → ℕ → SysCall W (Unit {0})
  pub get_fd_flags : ℕ → SysCall W ℕ
  pub set_fd_flags : ℕ → ℕ → SysCall W (Unit {0})
  pub getaddrinfo : W → AddrInfo × W
  pub socket : ℕ → SysCall W ℕ
  pub connect : ℕ → ℕ → SysCall W (Unit {0})
  pub bind : ℕ → ℕ → SysCall W (Unit {0})
  pub listen : ℕ → SysCall W (Unit {0})
  pub accept : ℕ → SysCall W ℕ
  pub poll : ℕ → ℕ → SysCall W (ℕ × ℕ)
  pub getsockopt_error : ℕ → SysCall W ℕ
  pub setsockopt : Option ℕ → SockOpt → SysCall W (Unit {0})
  pub send : Option ℕ → List ℕ → SysCall W ℕ
  pub recv : Option ℕ → ℕ → SysCall W (List ℕ)
  pub shutdown : ℕ → SysCall W (Unit {0})
