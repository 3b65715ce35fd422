-- ===== src/Tcp/Steps.antt =====
-- The steps of the functions of src/tcp_client.cc and src/tcp_server.cc over the state of the
-- system: a result that may fail, and loops that call again after EINTR.
use spw_rmap.Base.{ℕ, zero, suc, Bool, ◌||◌, Option, none, some, ◌==◌, if◌then◌else◌}
use spw_rmap.Rmap.{Result, ok, err, fault, Errc, ErrorCode}
use spw_rmap.Tcp.System.{Called, value, failed, SysCall, System}

-- `none` is the end of the fuel.
abbrev pub M : Type 0 → Type 0 → Type 0
M W A = W → Option (Result A × W)

abbrev pub followed : {W A B : Type 0} → Option (Result A × W) → (A → M W B) → Option (Result B × W)
followed none f = none
followed (some (ok a, w)) f = f a w
followed (some (err e, w)) f = some (err e, w)
followed (some (fault, w)) f = some (fault, w)

infixl 5 ◌>>=◌ ◌>>◌
abbrev pub ◌>>=◌ : {W A B : Type 0} → M W A → (A → M W B) → M W B
◌>>=◌ m f w = followed (m w) f

abbrev pub ◌>>◌ : {W B : Type 0} → M W (Unit {0}) → M W B → M W B
m >> k = m >>= λ _. k

abbrev pub pure : {W A : Type 0} → A → M W A
pure a w = some (ok a, w)

abbrev pub fail : {W A : Type 0} → ErrorCode → M W A
fail e w = some (err e, w)

abbrev pub returned : {W A : Type 0} → Called A × W → Option (Result A × W)
returned (value a, w) = some (ok a, w)
returned (failed e, w) = some (err (ErrorCode.system e), w)

-- A call whose failure is the function's, with errno in the system category.
abbrev pub check : {W A : Type 0} → SysCall W A → M W A
check call w = returned (call w)

-- A call whose result is not looked at.
abbrev pub ignore : {W A : Type 0} → SysCall W A → M W (Unit {0})
ignore call w = some (ok tt, (call w).1)

abbrev pub when : {W : Type 0} → Bool → M W (Unit {0}) → M W (Unit {0})
when b m = if b then m else pure tt

-- A destructor's call at the end of its scope, whatever the result is.
abbrev pub with_result :
    {W A : Type 0} → Result A → Option (Result (Unit {0}) × W) → Option (Result A × W)
with_result x none = none
with_result x (some (_, w)) = some (x, w)

abbrev pub at_end : {W A : Type 0} → Option (Result A × W) → M W (Unit {0}) → Option (Result A × W)
at_end none m = none
at_end (some (x, w)) m = with_result x (m w)

-- `do { r = call(); } while (r < 0 && errno == EINTR);`
abbrev pub retried :
    {W A : Type 0} → ℕ → Called A × W → (W → Option (Called A × W)) → Option (Called A × W)
retried eintr (value a, w) again = some (value a, w)
retried eintr (failed e, w) again = if e == eintr then again w else some (failed e, w)

unfoldable pub retry : {W A : Type 0} → ℕ → ℕ → SysCall W A → W → Option (Called A × W)
retry eintr zero call w = none
retry eintr (suc rounds) call w = retried eintr (call w) (retry eintr rounds call)

-- A result that is not looked at.
abbrev pub whatever : {W A : Type 0} → Option (Called A × W) → Option (Result (Unit {0}) × W)
whatever none = none
whatever (some (_, w)) = some (ok tt, w)

-- close_retry_ of an open descriptor.
unfoldable pub close_retry : {W : Type 0} → System W → ℕ → ℕ → M W (Unit {0})
close_retry sys rounds fd w = whatever (retry sys.eintr rounds (sys.close fd) w)

abbrev pub close_fd : {W : Type 0} → System W → ℕ → Option ℕ → M W (Unit {0})
close_fd sys rounds none = pure tt
close_fd sys rounds (some fd) = close_retry sys rounds fd

-- A failed send or recv that is not called again.
abbrev pub transfer_error : {W : Type 0} → System W → ℕ → ErrorCode
transfer_error sys e =
    if e == sys.eagain || e == sys.ewouldblock
    then ErrorCode.errc Errc.timed_out
    else ErrorCode.system e
