-- ===== src/Rmap/Results.antt =====
-- `std::expected` over `std::error_code`. `fault` is no value of the program: an access outside a
-- span, or a failed `assert`.
use spw_rmap.Base.{ℕ}
use spw_rmap.Rmap.Packets.{Status}

-- The members of `std::errc` that the library makes.
pub data Errc : Type 0 where
  no_buffer_space invalid_argument not_connected bad_message : Errc
  resource_unavailable_try_again timed_out operation_canceled connection_aborted : Errc
  io_error already_connected bad_file_descriptor : Errc

-- An error code of `std::errc`, of the parser's category (error_code.hh), of the system or
-- the generic category (`errno`), or of `getaddrinfo`.
pub data ErrorCode : Type 0 where
  errc : Errc → ErrorCode
  parser_status : Status → ErrorCode
  system : ℕ → ErrorCode
  generic : ℕ → ErrorCode
  gai : ℕ → ErrorCode

pub data Result {ℓ} (A : Type ℓ) : Type ℓ where
  ok : A → Result A
  err : ErrorCode → Result A
  fault : Result A

infixl 5 ◌>>=◌
abbrev pub ◌>>=◌ {ℓ κ} : {A : Type ℓ} {B : Type κ} → Result A → (A → Result B) → Result B
ok a >>= f = f a
err e >>= f = err e
fault >>= f = fault
