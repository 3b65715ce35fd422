-- ===== src/Node/Receive/Exact.antt =====
-- The loop of recvExact_: it ends, and on a stream it fills its span with the next bytes.
use spw_rmap.Base.{
  ℕ, zero, suc, ◌+◌, ◌-◌, ◌≤◌, ◌<◌, ◌≡◌, ◌≢◌, refl, ◌⊎◌, inl, inr, ap, ◌∙◌, sym, subst, le→ltb,
  true, List, [], ◌∷◌, ◌++◌, length, length-append, append_assoc, append-nil, arith,
}
use spw_rmap.Rmap.{Result, ok, err, ErrorCode}
use spw_rmap.Node.Link.{RecvSome, Received}
use spw_rmap.Node.Receive.{after_recv, recv_loop, recv_exact}

module _ {S : Type 0} (s : S) (n : ℕ) (got : List ℕ) (next : ℕ → List ℕ → S → Received S) where
  pub after_recv-err : (e : ErrorCode) → after_recv (err e) s n got next ≡ (err e, got, s)
  unfolding after_recv
  after_recv-err e = refl

  pub after_recv-nil : after_recv (ok []) s n got next ≡ (ok 0, got, s)
  unfolding after_recv
  after_recv-nil = refl

  after_recv-cons :
      (b : ℕ) (bs : List ℕ)
      → length bs ≤ n
      → after_recv (ok (b ∷ bs)) s n got next ≡ next (n - length bs) (got ++ b ∷ bs) s
  unfolding after_recv
  after_recv-cons b bs l = rw (le→ltb _ _ l) refl

-- recvSome gives an error, or at most as many bytes as it was asked for.
abbrev pub Delivers : {S : Type 0} → RecvSome S → Type 0
Delivers {S} recv_some =
    (m : ℕ) (s : S)
    → ((e : ErrorCode) × ((recv_some m s).0 ≡ err e))
      ⊎ ((bytes : List ℕ) × ((recv_some m s).0 ≡ ok bytes) × (length bytes ≤ m))

-- recvSome takes bytes off the front of a stream: `pending` are the bytes that are still to come, and
-- while there are some a call gives one at least.
pub record IsStream {S : Type 0} (recv_some : RecvSome S) (pending : S → List ℕ) : Type 0 where
  pub gives :
      (n : ℕ) (s : S)
      → pending s ≢ []
      → (b : ℕ) × (bs : List ℕ) × ((recv_some (suc n) s).0 ≡ ok (b ∷ bs))
        × (length bs ≤ n)
        × (pending s ≡ b ∷ bs ++ pending (recv_some (suc n) s).1)

-- At most `n` bytes, and an error, the end of the stream, or all `n`.
abbrev pub ExactResult : {S : Type 0} → ℕ → Received S → Type 0
ExactResult n x =
    (length x.1 ≤ n)
    × (((e : ErrorCode) × (x.0 ≡ err e)) ⊎ ((x.0 ≡ ok 0) ⊎ ((x.0 ≡ ok n) × (length x.1 ≡ n))))

-- Of two ways to cut a list the shorter front begins the longer one.
split_front :
    (xs ys ps bs : List ℕ)
    → xs ++ ys ≡ ps ++ bs
    → length ps ≤ length xs
    → (mid : List ℕ) × (xs ≡ ps ++ mid) × (bs ≡ mid ++ ys)
split_front xs ys [] bs e l = (xs, refl, sym e)
split_front [] ys (a ∷ ps) bs e l = absurd (omega arith)
split_front (x ∷ xs) ys (a ∷ ps) bs e l =
    let (mid, f, g) = split_front xs ys ps bs (cc) (omega arith) in (mid, cc, g)

module _ {S : Type 0} (recv_some : RecvSome S) (total : ℕ) where
  recv_loop-ExactResult :
      (rounds n : ℕ) (got : List ℕ) (s : S)
      → Delivers recv_some
      → n < rounds
      → length got + n ≡ total
      → ExactResult total (recv_loop recv_some total rounds n got s)
  unfolding recv_loop
  recv_loop-ExactResult zero n got s d h t = absurd (omega arith)
  recv_loop-ExactResult (suc rounds) zero got s d h t = (omega arith, inr (inr (refl, omega arith)))
  recv_loop-ExactResult (suc rounds) (suc n) got s d h t = elim (d (suc n) s) [
    | inl (e, q) ↦
        subst (ExactResult total) (sym (ap next q ∙ after_recv-err _ n got _ e))
          (omega arith, inl (e, refl))
    | inr (bytes, q, l) ↦ subst (ExactResult total) (sym (ap next q)) (
        received bytes l
          λ m got' lt t'. recv_loop-ExactResult rounds m got' (recv_some (suc n) s).1 d lt t')
  ]
    where
      next : Result (List ℕ) → Received S
      next r = after_recv r (recv_some (suc n) s).1 n got (recv_loop recv_some total rounds)

      received :
          (bytes : List ℕ)
          → length bytes ≤ suc n
          → ((m : ℕ) (got' : List ℕ)
              → m < rounds
              → length got' + m ≡ total
              → ExactResult total (recv_loop recv_some total rounds m got' (recv_some (suc n) s).1))
          → ExactResult total (next (ok bytes))
      received [] l later =
          subst (ExactResult total)
            (sym (after_recv-nil (recv_some (suc n) s).1 n got (recv_loop recv_some total rounds)))
            (omega arith, inr (inl refl))
      received (b ∷ bs) l later =
          subst (ExactResult total)
            (sym (
              after_recv-cons (recv_some (suc n) s).1 n got (recv_loop recv_some total rounds) b bs
                (omega arith)))
            (later (n - length bs) (got ++ b ∷ bs) (omega arith)
              (omega (arith, length-append got (b ∷ bs))))

  -- A round that takes bytes.
  pub recv_loop-cons :
      (rounds n b : ℕ) (bs got : List ℕ) (s : S)
      → (recv_some (suc n) s).0 ≡ ok (b ∷ bs)
      → length bs ≤ n
      → recv_loop recv_some total (suc rounds) (suc n) got s
        ≡ recv_loop recv_some total rounds (n - length bs) (got ++ b ∷ bs) (recv_some (suc n) s).1
  unfolding recv_loop
  recv_loop-cons rounds n b bs got s q l =
      let next : ℕ → List ℕ → S → Received S = recv_loop recv_some total rounds in
      ap (λ z. after_recv z (recv_some (suc n) s).1 n got next) q
      ∙ after_recv-cons (recv_some (suc n) s).1 n got next b bs l

  -- The next bytes of a stream, when it has enough.
  recv_loop-IsStream :
      (pending : S → List ℕ) (rounds : ℕ) (xs rest got : List ℕ) (s : S)
      → IsStream recv_some pending
      → length xs < rounds
      → pending s ≡ xs ++ rest
      → (s' : S) × (recv_loop recv_some total rounds (length xs) got s ≡ (ok total, got ++ xs, s'))
        × (pending s' ≡ rest)
  unfolding recv_loop
  recv_loop-IsStream pending zero xs rest got s i h e = absurd (omega arith)
  recv_loop-IsStream pending (suc rounds) [] rest got s i h e =
      (s, ap (λ g. (ok total, g, s)) (sym (append-nil got)), e)
  recv_loop-IsStream pending (suc rounds) (x ∷ xs) rest got s i h e =
      let (b, bs, q, l, p) =
        i.gives (length xs) s (λ z. let k : x ∷ xs ++ rest ≡ [] = sym e ∙ z in cc) in
      let s1 = (recv_some (suc (length xs)) s).1 in
      let (mid, f, g) = split_front (x ∷ xs) rest (b ∷ bs) (pending s1) (sym e ∙ p) (omega arith) in
      let size : length mid ≡ length xs - length bs =
        omega (arith, ap length f, length-append (b ∷ bs) mid) in
      let (s', r, k) =
        recv_loop-IsStream pending rounds mid rest (got ++ b ∷ bs) s1 i (omega arith) g in
      (
        s',
        whole (x ∷ xs) (b ∷ bs) mid s1 s'
            (recv_loop-cons rounds (length xs) b bs got s q l
              ∙ ap (λ m. recv_loop recv_some total rounds m (got ++ b ∷ bs) s1) (omega arith))
            f (omega arith) r,
        k,
      )
    where
      whole :
          (ys front mid : List ℕ) (s1 s' : S)
          → recv_loop recv_some total (suc rounds) (suc (length xs)) got s
            ≡ recv_loop recv_some total rounds (length ys - length front) (got ++ front) s1
          → ys ≡ front ++ mid
          → length mid ≡ length ys - length front
          → recv_loop recv_some total rounds (length mid) (got ++ front) s1
            ≡ (ok total, got ++ front ++ mid, s')
          → recv_loop recv_some total (suc rounds) (suc (length xs)) got s
            ≡ (ok total, got ++ ys, s')
      whole ys front mid s1 s' e f size r =
          e
          ∙ ap (λ m. recv_loop recv_some total rounds m (got ++ front) s1) (sym size)
          ∙ r
          ∙ rw (f, append_assoc got front mid) refl

-- On a stream with enough bytes recvExact_ fills its span with the next ones.
pub recv_exact-IsStream :
    {S : Type 0} (recv_some : RecvSome S) (pending : S → List ℕ) (xs rest : List ℕ) (s : S)
    → IsStream recv_some pending
    → pending s ≡ xs ++ rest
    → (s' : S) × (recv_exact recv_some true (length xs) s ≡ (ok (length xs), xs, s'))
      × (pending s' ≡ rest)
unfolding recv_exact
recv_exact-IsStream recv_some pending xs rest s i e =
    recv_loop-IsStream recv_some (length xs) pending (suc (length xs)) xs rest [] s i (omega arith)
      e

-- recvExact_ ends: when recvSome gives an error or at most as many bytes as it was asked for, at
-- most `n` bytes are written, and the result is an error, 0 at the end of the stream, or `n` with
-- exactly `n` bytes written.
pub recv_exact-ExactResult :
    {S : Type 0} (recv_some : RecvSome S) (n : ℕ) (s : S)
    → Delivers recv_some
    → ExactResult n (recv_exact recv_some true n s)
unfolding recv_exact
recv_exact-ExactResult recv_some n s d =
    recv_loop-ExactResult recv_some n (suc n) n [] s d (omega arith) (omega arith)
