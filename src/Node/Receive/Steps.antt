-- ===== src/Node/Receive/Steps.antt =====
-- The steps of receiving end on a stream that ends.
use spw_rmap.Base.{
  ℕ, zero, suc, ◌+◌, ◌-◌, ◌%◌, ◌^◌, ◌≤◌, ◌<◌, ◌≡◌, refl, sym, subst, inl, inr, Bool, true, false,
  not, Option, none, some, List, take, [], ◌∷◌, length, ltb, ◌==◌, get_or, if◌then◌else◌,
  Bool-cases, ltb→lt, arith,
}
use spw_rmap.Rmap.{Packet, Status, success, Result, ok, err, fault, Errc}
use spw_rmap.Parser.Dispatch.{parse}
use spw_rmap.Node.Frame.{calculate_data_length}
use spw_rmap.Node.Send.{BufferPolicy, fixed, auto_resize, resize}
use spw_rmap.Node.Link.{
  RecvSome, Receiver, Outcome, done, followed, M, ◌>>=◌, ◌>>◌, pure, fail_if, fault_if,
}
use spw_rmap.Node.Receive.{
  FrameKind, frame_kind, recv_exact, recv_local, recv_span, recv_ignored, ignore_rest, ignore_loop,
  ignore_bytes, grow, reserve, parsed, parse_received, check_kind, check_header,
}
use spw_rmap.Node.Receive.Takes.{EndsDry, recv_some-fewer, recv_exact-Shrinks}

module _ {S : Type 0} (recv_some : RecvSome S) (pending : S → List ℕ)
    (i : EndsDry recv_some pending) where
  abbrev pub left : S → ℕ
  left s = length (pending s)

  -- A call that ends with at most `b` bytes left.
  abbrev pub Ends : {A : Type 0} → ℕ → Outcome S A → Type 0
  Ends {A} b o = (x : Result A) × (r : Receiver S) × (o ≡ done x r) × (left r.stream ≤ b)

  pub followed-Ends :
      {A B : Type 0} (b : ℕ) (o : Outcome S A) (f : A → M S B)
      → Ends b o
      → ((a : A) (r : Receiver S) → left r.stream ≤ b → Ends b (f a r))
      → Ends b (followed o f)
  followed-Ends {A} b o f (x, r, e, l) h = subst (λ y. Ends b (followed y f)) (sym e) (by_result x)
    where
      by_result : (x : Result A) → Ends b (followed (done x r) f)
      by_result (ok a) = h a r l
      by_result (err c) = (_, r, refl, l)
      by_result fault = (_, r, refl, l)

  pub fail_if-Ends :
      (t : Bool) (e : Errc) (r : Receiver S) (b : ℕ) → left r.stream ≤ b → Ends b (fail_if t e r)
  fail_if-Ends true e r b l = (_, r, refl, l)
  fail_if-Ends false e r b l = (_, r, refl, l)

  pub fault_if-Ends :
      (t : Bool) (r : Receiver S) (b : ℕ) → left r.stream ≤ b → Ends b (fault_if t r)
  fault_if-Ends true r b l = (_, r, refl, l)
  fault_if-Ends false r b l = (_, r, refl, l)

  pub done-Ends :
      {A : Type 0} (x : Result A) (r : Receiver S) (b : ℕ) → left r.stream ≤ b → Ends b (done x r)
  done-Ends x r b l = (x, r, refl, l)

  pub recv_local-Ends :
      (n : ℕ) (r : Receiver S) (b : ℕ) → left r.stream ≤ b → Ends b (recv_local recv_some n r)
  unfolding recv_local
  recv_local-Ends n r b l =
      let (fewer, _) = recv_exact-Shrinks recv_some pending i r.connected n r.stream in
      followed-Ends b _ _
        (done-Ends (recv_exact recv_some r.connected n r.stream).0 _ b (omega arith))
        (λ a r' l'. done-Ends _ r' b l')

  pub recv_span-Ends :
      (off n : ℕ) (r : Receiver S) (b : ℕ)
      → left r.stream ≤ b
      → Ends b (recv_span recv_some off n r)
  unfolding recv_span
  recv_span-Ends off n r b l =
      let (fewer, _) = recv_exact-Shrinks recv_some pending i r.connected n r.stream in
      followed-Ends b _ _ (fault_if-Ends (ltb (length r.recv_buf) (off + n)) r b l)
        (λ a r' l'. done-Ends _ _ b (omega arith))

  ignored-Ends :
      (rounds n b : ℕ) (bytes : List ℕ) (r : Receiver S)
      → ((m : ℕ) (r' : Receiver S)
          → m < rounds
          → left r'.stream ≤ b
          → Ends b (ignore_loop recv_some rounds m r'))
      → 0 < n
      → n ≤ rounds
      → left r.stream ≤ b
      → Ends b (
          (fail_if (length bytes == 0) Errc.connection_aborted
              >> ignore_loop recv_some rounds (n - length bytes))
            r)
  ignored-Ends rounds n b [] r later h k l = done-Ends _ r b l
  ignored-Ends rounds n b (y ∷ ys) r later h k l =
      let next : M S (Unit {0}) = ignore_loop recv_some rounds (n - length (y ∷ ys)) in
      let some_bytes : length (y ∷ ys) == 0 ≡ false = ground arith in
      subst (λ t. Ends b ((fail_if t Errc.connection_aborted >> next) r)) (sym some_bytes)
        (later (n - length (y ∷ ys)) r (omega arith) l)

  ignore_loop-Ends :
      (rounds n : ℕ) (r : Receiver S) (b : ℕ)
      → n < rounds
      → left r.stream ≤ b
      → Ends b (ignore_loop recv_some rounds n r)
  unfolding ignore_loop ignore_rest recv_ignored
  ignore_loop-Ends zero n r b h l = absurd (omega arith)
  ignore_loop-Ends (suc rounds) n r b h l = elim (Bool-cases (ltb 16 n)) [
    | inl e ↦
        let r1 : Receiver S = record r { stream = (recv_some 16 r.stream).1 } in
        rw e (
          followed-Ends b (recv_ignored recv_some r)
            (λ bytes.
              fault_if (ltb 16 (length bytes))
              >> (fail_if (length bytes == 0) Errc.connection_aborted
                  >> ignore_loop recv_some rounds (n - length bytes)))
            (done-Ends _ r1 b (omega (arith, recv_some-fewer recv_some pending i 15 r.stream)))
            (λ bytes r' l'.
              followed-Ends b (fault_if (ltb 16 (length bytes)) r') _ (fault_if-Ends _ r' b l')
                (λ _ r2 l2.
                  ignored-Ends rounds n b bytes r2
                    (λ m r3 lt l3. ignore_loop-Ends rounds m r3 b lt l3)
                    (omega (arith, ltb→lt _ _ e)) (omega arith) l2)))
    | inr e ↦ rw e (rest-Ends (n == 0))
  ]
    where
      rest-Ends :
          (t : Bool) → Ends b ((if t then pure tt else (do _ ← recv_local recv_some n; pure tt)) r)
      rest-Ends true = done-Ends _ r b l
      rest-Ends false =
          followed-Ends b (recv_local recv_some n r) _ (recv_local-Ends n r b l)
            (λ _ r' l'. done-Ends _ r' b l')

  pub reserve-Ends :
      (total pos n : ℕ) (r : Receiver S) (b : ℕ)
      → left r.stream ≤ b
      → Ends b (reserve total pos n r)
  unfolding reserve grow
  reserve-Ends total pos n r b l = elim (Bool-cases (ltb (length r.recv_buf - pos) n)) [
    | inl e ↦ rw e (grow-Ends r.buffer_policy)
    | inr e ↦ rw e (done-Ends _ r b l)
  ]
    where
      grow-Ends : (p : BufferPolicy) → Ends b (grow p total n r)
      grow-Ends fixed = done-Ends _ r b l
      grow-Ends auto_resize =
          let buf = resize ((total + n) % 2 ^ 64) r.recv_buf in
          let r1 : Receiver S = record r { recv_buf = buf } in
          followed-Ends b _ _ (fault_if-Ends (ltb (length buf) total) r1 b l)
            (λ _ r' l'. done-Ends _ r' b l')

  pub parse_received-Ends :
      (total : ℕ) (r : Receiver S) (b : ℕ) → left r.stream ≤ b → Ends b (parse_received total r)
  unfolding parse_received parsed
  parse_received-Ends total r b l =
      followed-Ends b _ _ (fault_if-Ends (ltb (length r.recv_buf) total) r b l)
        (λ a r' l'. parsed-Ends (parse (take total r.recv_buf) r.packet) r' l')
    where
      parsed-Ends :
          (o : Option (Status × Packet)) (r' : Receiver S)
          → left r'.stream ≤ b
          → Ends b (parsed o total r')
      parsed-Ends none r' l' = done-Ends _ r' b l'
      parsed-Ends (some (success, k)) r' l' = done-Ends _ _ b l'
      parsed-Ends (some (s, k)) r' l' = done-Ends _ _ b l'

  pub check_header-Ends :
      (header : List ℕ) (r : Receiver S) (b : ℕ)
      → left r.stream ≤ b
      → Ends b (check_header header r)
  unfolding check_header check_kind
  check_header-Ends header r b l = kind-Ends (frame_kind (get_or header 0 0))
    where
      kind-Ends : (o : Option FrameKind) → Ends b (check_kind o header r)
      kind-Ends none = done-Ends _ r b l
      kind-Ends (some kind) =
          followed-Ends b _ _
            (fail_if-Ends (not (get_or header 1 0 == 0x00)) Errc.bad_message r b l)
            (λ _ r1 l1.
              followed-Ends b _ _ (done-Ends (calculate_data_length header) r1 b l1) (λ n r2 l2.
                followed-Ends b _ _ (fail_if-Ends (n == 0) Errc.bad_message r2 b l2)
                  (λ _ r3 l3. done-Ends _ r3 b l3)))

  pub ignore_bytes-Ends :
      (n : ℕ) (r : Receiver S) (b : ℕ) → left r.stream ≤ b → Ends b (ignore_bytes recv_some n r)
  unfolding ignore_bytes
  ignore_bytes-Ends n r b l =
      followed-Ends b _ _ (fail_if-Ends (not r.connected) Errc.not_connected r b l) (λ _ r1 l1.
        followed-Ends b (ignore_loop recv_some (suc n) n r1) _
          (ignore_loop-Ends (suc n) n r1 b (omega arith) l1) (λ _ r2 l2. done-Ends _ r2 b l2))
