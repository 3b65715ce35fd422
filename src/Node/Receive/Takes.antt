-- ===== src/Node/Receive/Takes.antt =====
-- What recvSome and recvExact_ take from a stream that ends.
use spw_rmap.Base.{
  ℕ, zero, suc, ◌-◌, ◌≤◌, ◌<◌, ◌≡◌, refl, sym, ap, ◌∙◌, subst, ◌⊎◌, inl, inr, Bool, true, false,
  List, [], ◌∷◌, ◌++◌, length, length-append, arith,
}
use spw_rmap.Rmap.{Result, ok, err, ErrorCode}
use spw_rmap.Node.Link.{RecvSome, Received}
use spw_rmap.Node.Receive.{after_recv, recv_loop, recv_exact}
use spw_rmap.Node.Receive.Exact.{IsStream, after_recv-err, after_recv-nil, recv_loop-cons}

-- A stream that ends: behind its last byte recvSome gives no bytes or an error.
pub record EndsDry {S : Type 0} (recv_some : RecvSome S) (pending : S → List ℕ) : Type 0 where
  pub stream : IsStream recv_some pending
  pub dry :
      (n : ℕ) (s : S)
      → pending s ≡ []
      → (((recv_some (suc n) s).0 ≡ ok []) ⊎ ((e : ErrorCode) × ((recv_some (suc n) s).0 ≡ err e)))
        × (pending (recv_some (suc n) s).1 ≡ [])

module _ {S : Type 0} (recv_some : RecvSome S) (pending : S → List ℕ)
    (i : EndsDry recv_some pending) where
  abbrev pub left : S → ℕ
  left s = length (pending s)

  -- What one call of recvSome does.
  abbrev Takes : ℕ → S → Type 0
  Takes n s =
      ((((recv_some (suc n) s).0 ≡ ok []) ⊎ ((e : ErrorCode) × ((recv_some (suc n) s).0 ≡ err e)))
        × (left (recv_some (suc n) s).1 ≤ left s))
      ⊎ ((b : ℕ) × (bs : List ℕ) × ((recv_some (suc n) s).0 ≡ ok (b ∷ bs))
          × (length bs ≤ n)
          × (left (recv_some (suc n) s).1 < left s))

  recv_some-Takes : (n : ℕ) (s : S) → Takes n s
  recv_some-Takes n s = takes (pending s) refl
    where
      takes : (ps : List ℕ) → pending s ≡ ps → Takes n s
      takes [] e = let (x, dry) = i.dry n s e in inl (x, omega (arith, ap length e, ap length dry))
      takes (p ∷ ps) e =
          let (b, bs, q, l, f) = i.stream.gives n s (λ z. let k : p ∷ ps ≡ [] = sym e ∙ z in cc) in
          inr (
            b,
            bs,
            q,
            l,
            omega (arith, ap length f, length-append (b ∷ bs) (pending (recv_some (suc n) s).1)),
          )

  pub recv_some-fewer : (n : ℕ) (s : S) → left (recv_some (suc n) s).1 ≤ left s
  recv_some-fewer n s = elim (recv_some-Takes n s) [
    | inl (_, l) ↦ l
    | inr (_, _, _, _, l) ↦ omega arith
  ]

  -- No bytes come back; and where `n` bytes are read, some were taken.
  abbrev pub Shrinks : ℕ → S → Received S → Type 0
  Shrinks n s x =
      (left x.2 ≤ left s)
      × ((n ≡ 0) ⊎ (((e : ErrorCode) × (x.0 ≡ err e)) ⊎ ((x.0 ≡ ok 0) ⊎ (left x.2 < left s))))

  recv_loop-Shrinks :
      (total rounds n : ℕ) (got : List ℕ) (s : S)
      → n < rounds
      → Shrinks n s (recv_loop recv_some total rounds n got s)
  unfolding recv_loop
  recv_loop-Shrinks total zero n got s h = absurd (omega arith)
  recv_loop-Shrinks total (suc rounds) zero got s h = (omega arith, inl refl)
  recv_loop-Shrinks total (suc rounds) (suc n) got s h = elim (recv_some-Takes n s) [
    | inl (inl q, l) ↦
        subst (Shrinks (suc n) s) (sym (ap next q ∙ after_recv-nil _ n got _))
          (l, inr (inr (inl refl)))
    | inl (inr (e, q), l) ↦
        subst (Shrinks (suc n) s) (sym (ap next q ∙ after_recv-err _ n got _ e))
          (l, inr (inl (e, refl)))
    | inr (b, bs, q, l, lt) ↦
        let (le, _) =
          recv_loop-Shrinks total rounds (n - length bs) (got ++ b ∷ bs) (recv_some (suc n) s).1
            (omega arith) in
        subst (Shrinks (suc n) s) (sym (recv_loop-cons recv_some total rounds n b bs got s q l))
          (omega arith, inr (inr (inr (omega arith))))
  ]
    where
      next : Result (List ℕ) → Received S
      next r = after_recv r (recv_some (suc n) s).1 n got (recv_loop recv_some total rounds)

  pub recv_exact-Shrinks :
      (connected : Bool) (n : ℕ) (s : S) → Shrinks n s (recv_exact recv_some connected n s)
  unfolding recv_exact
  recv_exact-Shrinks true n s = recv_loop-Shrinks n (suc n) n [] s (omega arith)
  recv_exact-Shrinks false n s = (omega arith, inr (inl (_, refl)))
