-- ===== src/Node/Receive.antt =====
-- recvExact_, ignoreNBytes_ and recvAndParseOnePacket_ of SpwRmapTCPNodeImpl
-- (include/spw_rmap/internal/spw_rmap_tcp_node_impl.hh), over a backend with state `S`.
pub mod Exact
pub mod Spans
pub mod Header
pub mod Rounds
pub mod Frames
pub mod Exchange
pub mod Overflow
pub mod Takes
pub mod Steps
pub mod Ends
use spw_rmap.Base.{
  ℕ, zero, suc, ◌+◌, ◌-◌, ◌%◌, ◌^◌, ◌≤◌, ◌<◌, ◌≡◌, Bool, true, false, ◌||◌, ◌&&◌, not, Option, none,
  some, List, [], ◌∷◌, ◌++◌, length, get_or, take, drop, replicate, ltb, ◌==◌, if◌then◌else◌,
}
use spw_rmap.Rmap.{Packet, Status, success, Result, ok, err, fault, Errc, ErrorCode}
use spw_rmap.Parser.Dispatch.{parse}
use spw_rmap.Node.Frame.{calculate_data_length}
use spw_rmap.Node.Send.{BufferPolicy, fixed, auto_resize, resize}
use spw_rmap.Node.Link.{
  RecvSome, Received, Receiver, Outcome, spent, done, M, ◌>>=◌, ◌>>◌, pure, lift, fail_if, fault_if,
  write_at,
}

-- What one round of recvExact_ does with what recvSome gave, with `n + 1` bytes left behind `got`. A
-- count above the size of the span would leave the span.
unfoldable pub after_recv :
    {S : Type 0} → Result (List ℕ) → S → ℕ → List ℕ → (ℕ → List ℕ → S → Received S) → Received S
after_recv fault s n got next = (fault, got, s)
after_recv (err e) s n got next = (err e, got, s)
after_recv (ok []) s n got next = (ok 0, got, s)
after_recv (ok (b ∷ bs)) s n got next =
    if ltb n (length bs) then (fault, got, s) else next (n - length bs) (got ++ b ∷ bs) s

-- What the type byte of a frame says: the last bytes of a packet, bytes to skip, more bytes of a
-- packet, a time code.
pub data FrameKind : Type 0 where
  last skipped more time_code : FrameKind

unfoldable pub frame_kind : ℕ → Option FrameKind
frame_kind b =
    if b == 0x00
    then some last
    else if b == 0x01
    then some skipped
    else if b == 0x02
    then some more
    else if b == 0x31 || b == 0x30
    then some time_code
    else none

-- The test of bytes 2 to 11 of a time code's header.
unfoldable pub is_time_code_header : List ℕ → Bool
is_time_code_header header =
    get_or header 2 0 == 0x00
    && get_or header 3 0 == 0x00
    && get_or header 4 0 == 0x00
    && get_or header 5 0 == 0x00
    && get_or header 6 0 == 0x00
    && get_or header 7 0 == 0x00
    && get_or header 8 0 == 0x00
    && get_or header 9 0 == 0x00
    && get_or header 10 0 == 0x00
    && get_or header 11 0 == 0x02

-- A resize of recv_buf_ for `n` more bytes behind `total`. The size of the new buffer is a size_t.
unfoldable pub grow : {S : Type 0} → BufferPolicy → ℕ → ℕ → M S ℕ
grow fixed total n = done (err (ErrorCode.errc Errc.no_buffer_space))
grow auto_resize total n = λ r.
    let buf = resize ((total + n) % 2 ^ 64) r.recv_buf in
    (do fault_if (ltb (length buf) total); pure total) (record r { recv_buf = buf })

-- The place of recv_buffer in recv_buf_ once it has room for `n` bytes. It was `pos`, behind the
-- `total` bytes of the packet so far.
unfoldable pub reserve : {S : Type 0} → ℕ → ℕ → ℕ → M S ℕ
reserve total pos n r =
    if ltb (length r.recv_buf - pos) n then grow r.buffer_policy total n r else done (ok pos) r

unfoldable pub parsed : {S : Type 0} → Option (Status × Packet) → ℕ → M S ℕ
parsed none total r = done fault r
parsed (some (success, k)) total r = done (ok total) (record r { packet = k })
parsed (some (s, k)) total r = done (err (ErrorCode.parser_status s)) (record r { packet = k })

-- The packet parser on the first `total` bytes of recv_buf_.
unfoldable pub parse_received : {S : Type 0} → ℕ → M S ℕ
parse_received total r =
    (do
      fault_if (ltb (length r.recv_buf) total)
      parsed (parse (take total r.recv_buf) r.packet) total)
      r

-- The header of a frame behind its reading: its kind, and its length in range.
unfoldable pub check_kind : {S : Type 0} → Option FrameKind → List ℕ → M S (FrameKind × ℕ)
check_kind none header = done (err (ErrorCode.errc Errc.bad_message))
check_kind (some kind) header = do
  fail_if (not (get_or header 1 0 == 0x00)) Errc.bad_message
  n ← lift (calculate_data_length header)
  fail_if (n == 0) Errc.bad_message
  pure (kind, n)

unfoldable pub check_header : {S : Type 0} → List ℕ → M S (FrameKind × ℕ)
check_header header = check_kind (frame_kind (get_or header 0 0)) header

module _ {S : Type 0} (recv_some : RecvSome S) where
  -- The loop of recvExact_ over a span of `total` bytes, with `n` bytes of it left behind the bytes
  -- `got`.
  unfoldable pub recv_loop : ℕ → ℕ → ℕ → List ℕ → S → Received S
  recv_loop total zero n got s = (fault, got, s)
  recv_loop total (suc rounds) zero got s = (ok total, got, s)
  recv_loop total (suc rounds) (suc n) got s =
      after_recv (recv_some (suc n) s).0 (recv_some (suc n) s).1 n got (recv_loop total rounds)

  unfoldable pub recv_exact : Bool → ℕ → S → Received S
  recv_exact connected n s =
      if connected
      then recv_loop n (suc n) n [] s
      else (err (ErrorCode.errc Errc.not_connected), [], s)

  -- recvExact_ into a local array of `n` zeros: the count and the array.
  unfoldable pub recv_local : ℕ → M S (ℕ × List ℕ)
  recv_local n r =
      let (x, bytes, s) = recv_exact r.connected n r.stream in
      (do count ← lift x; pure (count, write_at 0 bytes (replicate n 0))) (record r { stream = s })

  -- recvExact_ into `n` bytes of recv_buf_ from place `off` on.
  unfoldable pub recv_span : ℕ → ℕ → M S ℕ
  recv_span off n r =
      let (x, bytes, s) = recv_exact r.connected n r.stream in
      (do
        fault_if (ltb (length r.recv_buf) (off + n))
        λ r'. done x (record r' { recv_buf = write_at off bytes r.recv_buf; stream = s }))
        r

  -- recvSome into ignore_buffer.
  unfoldable pub recv_ignored : M S (List ℕ)
  recv_ignored r = done (recv_some 16 r.stream).0 (record r { stream = (recv_some 16 r.stream).1 })

  unfoldable pub ignore_rest : ℕ → M S (Unit {0})
  ignore_rest n = if n == 0 then pure tt else (do _ ← recv_local n; pure tt)

  -- The loop of ignoreNBytes_ while more than 16 bytes are left, and the rest behind it.
  unfoldable pub ignore_loop : ℕ → ℕ → M S (Unit {0})
  ignore_loop zero n r = spent
  ignore_loop (suc rounds) n r =
      if ltb 16 n
      then (do
        bytes ← recv_ignored
        fault_if (ltb 16 (length bytes))
        fail_if (length bytes == 0) Errc.connection_aborted
        ignore_loop rounds (n - length bytes))
          r
      else ignore_rest n r

  -- Each round takes a byte or ends.
  unfoldable pub ignore_bytes : ℕ → M S ℕ
  ignore_bytes n r =
      (do fail_if (not r.connected) Errc.not_connected; ignore_loop (suc n) n; pure n) r

  -- A frame of each kind behind its header, with `total` bytes of the packet received and recv_buffer
  -- at place `at`. A skipped frame starts a new call, with nothing received.
  unfoldable pub handle_frame : (ℕ → ℕ → M S ℕ) → FrameKind → List ℕ → ℕ → ℕ → ℕ → M S ℕ
  handle_frame next last header n total at = do got ← recv_span at n; parse_received (total + got)
  handle_frame next skipped header n total at = do _ ← ignore_bytes n; next 0 0
  handle_frame next more header n total at = do got ← recv_span at n; next (total + got) (at + n)
  handle_frame next time_code header n total at = do
    fail_if (not (is_time_code_header header)) Errc.bad_message
    (_, code) ← recv_local 2
    fail_if (not (get_or code 1 0 == 0x00)) Errc.bad_message
    next total at

  -- A round behind the reading of its header; no bytes are the end of the stream.
  unfoldable pub after_header : (ℕ → ℕ → M S ℕ) → ℕ → ℕ → ℕ × List ℕ → M S ℕ
  after_header next total pos (zero, header) = pure 0
  after_header next total pos (suc _, header) = do
    (kind, n) ← check_header header
    at ← reserve total pos n
    handle_frame next kind header n total at

  -- The loop over frames.
  unfoldable pub receive_frames : ℕ → ℕ → ℕ → M S ℕ
  receive_frames zero total pos = λ r. spent
  receive_frames (suc rounds) total pos = do
    header ← recv_local 12
    after_header (receive_frames rounds) total pos header

  -- recvAndParseOnePacket_, for as many frames as `rounds` says.
  unfoldable pub receive_packet : ℕ → M S ℕ
  receive_packet rounds r =
      (do fail_if (not r.connected) Errc.not_connected; receive_frames rounds 0 0) r
