-- ===== src/Builder/Cursor.antt =====
-- Writing a packet byte by byte, as the builders of src/packet_builder.cc do with `out[head++] = b`.
-- The span `out` is `written ++ room`, and `head` is the length of `written`.
use spw_rmap.Base.{
  ℕ, zero, suc, ◌+◌, ◌≤◌, ◌≡◌, refl, ◌∙◌, List, [], ◌∷◌, ◌++◌, append_assoc, append-nil, length,
  drop, length-append, length-drop, drop-append, replicate, arith,
}
use spw_rmap.Rmap.{Result, ok, fault, ◌>>=◌}
use spw_rmap.Crc.{calc_crc}

pub record Cursor : Type 0 where
  pub written : List ℕ
  pub room : List ℕ

abbrev pub Writer : Type 0
Writer = Cursor → Result Cursor

infixr 5 ◌>>◌
abbrev pub ◌>>◌ : Writer → Writer → Writer
◌>>◌ m n c = m c >>= n

put_in : ℕ → List ℕ → List ℕ → Result Cursor
put_in b w [] = fault
put_in b w (_ ∷ room) = ok (record { written = w ++ b ∷ []; room = room })

-- `out[head++] = b`, which faults behind the end of the span.
unfoldable pub put : ℕ → Writer
unfolding put_in
put b c = put_in b c.written c.room

-- `for (const auto& byte : bytes) { out[head++] = byte; }`
unfoldable pub put_all : List ℕ → Writer
put_all [] c = ok c
put_all (b ∷ bs) c = put b c >>= put_all bs

-- `for (size_t i = 0; i < n; ++i) { out[head++] = 0x00; }`
unfoldable pub put_zeros : ℕ → Writer
put_zeros zero c = ok c
put_zeros (suc n) c = put 0x00 c >>= put_zeros n

-- The CRC over `out.subspan(from, head - from)`, written.
unfoldable pub put_crc : ℕ → Writer
put_crc from c = put (calc_crc (drop from c.written) 0x00) c

-- A whole builder: from the start of the span, `head` is returned, and the span after the call.
unfoldable pub run : Writer → List ℕ → Result (ℕ × List ℕ)
run m out = do
  c ← m (record { written = []; room = out })
  ok (length c.written, c.written ++ c.room)

-- With room for `bs`, the step writes exactly `bs`, from any state.
pub record Writes (m : Writer) (bs : List ℕ) : Type 0 where
  pub runs :
      (w room : List ℕ)
      → length bs ≤ length room
      → m (record { written = w; room = room })
        ≡ ok (record { written = w ++ bs; room = drop (length bs) room })

pub put-lem :
    (b : ℕ) (w room : List ℕ)
    → 1 ≤ length room
    → put b (record { written = w; room = room })
      ≡ ok (record { written = w ++ b ∷ []; room = drop 1 room })
unfolding put
put-lem b w [] h = absurd (omega arith)
put-lem b w (_ ∷ room) h = refl

pub Writes-put : {b : ℕ} → Writes (put b) (b ∷ [])
Writes-put {b} = record { runs = put-lem b }

pub Writes-nothing : Writes ok []
Writes-nothing = record { runs = λ w room h. rw (append-nil w) }

drop-drop : (n m : ℕ) (xs : List ℕ) → drop m (drop n xs) ≡ drop (n + m) xs
drop-drop zero m xs = let e : 0 + m ≡ m = omega arith in rw e
drop-drop (suc n) zero [] = let e : suc n + 0 ≡ suc n = omega arith in rw e
drop-drop (suc n) (suc m) [] = let e : suc n + suc m ≡ suc (n + suc m) = omega arith in rw e
drop-drop (suc n) m (x ∷ xs) =
    let e : suc n + m ≡ suc (n + m) = omega arith in rw e (drop-drop n m xs)

pub Writes->> :
    {m n : Writer} {bs cs : List ℕ} → Writes m bs → Writes n cs → Writes (m >> n) (bs ++ cs)
Writes->> {m} {n} {bs} {cs} p q = record { runs = both }
  where
    both :
        (w room : List ℕ)
        → length (bs ++ cs) ≤ length room
        → (m >> n) (record { written = w; room = room })
          ≡ ok (record { written = w ++ (bs ++ cs); room = drop (length (bs ++ cs)) room })
    both w room h =
        let l = length-append bs cs in
        rw (p.runs w room (omega arith), ◌>>=◌)
          (q.runs (w ++ bs) (drop (length bs) room) (omega (arith, length-drop (length bs) room))
            ∙ rw (append_assoc w bs cs, drop-drop (length bs) (length cs) room, l))

-- A list of such steps, in the order of the bytes.
pub Writes-cons : {b : ℕ} {m : Writer} {bs : List ℕ} → Writes m bs → Writes (put b >> m) (b ∷ bs)
Writes-cons p = Writes->> Writes-put p

pub Writes-put_all : (bs : List ℕ) → Writes (put_all bs) bs
unfolding put_all
Writes-put_all [] = Writes-nothing
Writes-put_all (b ∷ bs) = Writes-cons (Writes-put_all bs)

pub Writes-put_zeros : (n : ℕ) → Writes (put_zeros n) (replicate n 0)
unfolding put_zeros
Writes-put_zeros zero = Writes-nothing
Writes-put_zeros (suc n) = Writes-cons (Writes-put_zeros n)

-- With room for `bs`, the step writes exactly `bs` from the start of the span.
pub record Fills (m : Writer) (bs : List ℕ) : Type 0 where
  pub runs :
      (room : List ℕ)
      → length bs ≤ length room
      → m (record { written = []; room = room })
        ≡ ok (record { written = bs; room = drop (length bs) room })

pub Fills->> :
    {m n : Writer} {bs cs : List ℕ} → Fills m bs → Writes n cs → Fills (m >> n) (bs ++ cs)
Fills->> {m} {n} {bs} {cs} p q = record { runs = both }
  where
    both :
        (room : List ℕ)
        → length (bs ++ cs) ≤ length room
        → (m >> n) (record { written = []; room = room })
          ≡ ok (record { written = bs ++ cs; room = drop (length (bs ++ cs)) room })
    both room h =
        let l = length-append bs cs in
        rw (p.runs room (omega arith), ◌>>=◌)
          (q.runs bs (drop (length bs) room) (omega (arith, length-drop (length bs) room))
            ∙ rw (drop-drop (length bs) (length cs) room, l))

-- The CRC that follows a header behind a path `t` covers the header alone.
pub Fills-crc :
    {m : Writer} (t h : List ℕ)
    → Writes m (t ++ h)
    → Fills (m >> put_crc (length t)) (t ++ (h ++ calc_crc h 0 ∷ []))
unfolding put_crc
Fills-crc {m} t h p = record { runs = both }
  where
    both :
        (room : List ℕ)
        → length (t ++ (h ++ calc_crc h 0 ∷ [])) ≤ length room
        → (m >> put_crc (length t)) (record { written = []; room = room })
          ≡ ok (record {
            written = t ++ (h ++ calc_crc h 0 ∷ []);
            room = drop (length (t ++ (h ++ calc_crc h 0 ∷ []))) room;
          })
    both room k =
        let c = calc_crc h 0 ∷ [] in
        let l = length-append (t ++ h) c in
        let k' : length (t ++ h) + 1 ≤ length room = rw (← append_assoc t h c, l) at k in
        rw (p.runs [] room (omega arith), ◌>>=◌, drop-append t h, ← append_assoc t h c)
          (put-lem (calc_crc h 0) (t ++ h) (drop (length (t ++ h)) room)
              (omega (arith, length-drop (length (t ++ h)) room))
            ∙ rw (drop-drop (length (t ++ h)) 1 room, l))

pub run-eq :
    {m : Writer} {bs : List ℕ}
    → Fills m bs
    → (out : List ℕ) → length bs ≤ length out
    → run m out ≡ ok (length bs, bs ++ drop (length bs) out)
unfolding run
run-eq {m} {bs} p out h = rw (p.runs out h)
