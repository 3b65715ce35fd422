-- ===== src/Parser/Dispatch/Total.antt =====
-- PacketParser::parse on any span.
use spw_rmap.Base.{
  ℕ, suc, ◌+◌, ◌≤◌, ◌≡◌, ◌≢◌, ◌↔◌, refl, List, [], ◌∷◌, ◌++◌, Bool, true, false, Option, none, some,
  inl, inr, length, ltb, if◌then◌else◌, length-append, drop-append, take-append, take_all,
  get_elem?-append, arith,
}
use spw_rmap.Rmap.{Packet, PacketType, Status, incomplete_packet}
use spw_rmap.Parser.Monad.{returned, byte_at, get_elem?-byte_at}
use spw_rmap.Parser.Commands.{parse_read_packet, parse_write_packet}
use spw_rmap.Parser.Replies.{parse_read_reply_packet, parse_write_reply_packet}
use spw_rmap.Parser.Commands.Total.{
  read_result, write_result, parse_read_packet-eq, parse_write_packet-eq,
}
use spw_rmap.Parser.Replies.Total.{
  read_reply_result, write_reply_result, parse_read_reply_packet-eq, parse_write_reply_packet-eq,
}
use spw_rmap.Parser.Dispatch.{skip_path, dispatch, tail_call, is_command, is_write, parse}
use spw_rmap.Parser.Dispatch.Path.{IsPath, Split-IsPath, skip_path-Split, skip_path-IsPath}

-- What `parse` returns of a packet `q` behind a path, by the two bits of its instruction.
unfoldable pub dispatch_result : Bool → Bool → List ℕ → List ℕ → Packet → Status × Packet
dispatch_result false false path q k =
    read_reply_result q (record k { type = PacketType.read_reply; reply_address = path })
dispatch_result false true path q k =
    write_reply_result q (record k { type = PacketType.write_reply; reply_address = path })
dispatch_result true false path q k =
    read_result q (record k { type = PacketType.read; target_space_wire_address = path })
dispatch_result true true path q k =
    write_result q (record k { type = PacketType.write; target_space_wire_address = path })

tail_call-eq :
    (f : Packet → Option (Status × Packet)) (h : ℕ) (k : Packet) {r : Status × Packet}
    → f k ≡ some r
    → tail_call f h k ≡ returned r.0 r.1
tail_call-eq f h k {r = (s, k')} e = rw (e, tail_call)

dispatch-eq :
    (c w : Bool) (path q : List ℕ) (h : ℕ) (k : Packet)
    → dispatch c w path q h k
      ≡ returned (dispatch_result c w path q k).0 (dispatch_result c w path q k).1
unfolding dispatch dispatch_result
dispatch-eq false false path q h k =
    let k' : Packet = record k { type = PacketType.read_reply; reply_address = path } in
    tail_call-eq (parse_read_reply_packet q) h k' (parse_read_reply_packet-eq q k')
dispatch-eq false true path q h k =
    let k' : Packet = record k { type = PacketType.write_reply; reply_address = path } in
    tail_call-eq (parse_write_reply_packet q) h k' (parse_write_reply_packet-eq q k')
dispatch-eq true false path q h k =
    let k' : Packet = record k { type = PacketType.read; target_space_wire_address = path } in
    tail_call-eq (parse_read_packet q) h k' (parse_read_packet-eq q k')
dispatch-eq true true path q h k =
    let k' : Packet = record k { type = PacketType.write; target_space_wire_address = path } in
    tail_call-eq (parse_write_packet q) h k' (parse_write_packet-eq q k')

abbrev pub packet_result : List ℕ → List ℕ → Packet → Status × Packet
packet_result path q k =
    if ltb (length q) 4
    then (incomplete_packet, k)
    else dispatch_result (is_command (byte_at q 2)) (is_write (byte_at q 2)) path q
        (record k { instruction = byte_at q 2 })

pub parse_behind_path :
    (path rest : List ℕ) (first : ℕ) (k : Packet)
    → IsPath path
    → 0x20 ≤ first
    → parse (path ++ first ∷ rest) k ≡ some (packet_result path (first ∷ rest) k)
unfolding parse
parse_behind_path path rest first k hp hf = ground (
  arith,
  skip_path-Split p path rest first (suc (length p)) 0 k hp hf refl,
  length-append path q,
  get_elem?-append path q 2 (length path + 2) refl,
  get_elem?-byte_at q 2,
  take-append path q,
  drop-append path q,
  take_all q,
  dispatch-eq (is_command (byte_at q 2)) (is_write (byte_at q 2)) path q (length path)
      (record k { instruction = byte_at q 2 }),
)
  where
    q : List ℕ
    q = first ∷ rest

    p : List ℕ
    p = path ++ q

parse-IsPath :
    (b : ℕ) (rest : List ℕ) (k : Packet)
    → IsPath (b ∷ rest)
    → parse (b ∷ rest) k ≡ some (incomplete_packet, k)
unfolding parse
parse-IsPath b rest k h =
    ground (arith, skip_path-IsPath (b ∷ rest) rest b (suc (length (b ∷ rest))) 0 k h refl)

parse-nil : (k : Packet) → parse [] k ≡ none
unfolding parse skip_path
parse-nil k = refl

some_not_none : {o : Option (Status × Packet)} {r : Status × Packet} → o ≡ some r → o ≢ none
some_not_none e n = cc

parse-cons : (b : ℕ) (p : List ℕ) (k : Packet) → parse (b ∷ p) k ≢ none
parse-cons b p k = elim (Split-IsPath (b ∷ p)) [
  | inl h ↦ some_not_none (parse-IsPath b p k h)
  | inr s ↦
      rw s.joined
        (some_not_none (parse_behind_path s.path s.rest s.first k s.on_path s.first_large))
]

-- `parse` reads outside its span exactly when the span is empty.
pub parse-none_iff : (p : List ℕ) (k : Packet) → (parse p k ≡ none) ↔ (p ≡ [])
parse-none_iff [] k = ((λ _. refl), (λ _. parse-nil k))
parse-none_iff (b ∷ p) k = ((λ e. absurd (parse-cons b p k e)), (λ e. cc))
