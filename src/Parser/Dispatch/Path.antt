-- ===== src/Parser/Dispatch/Path.antt =====
-- The path in front of a packet: the bytes below 0x20 up to the first that is not.
use spw_rmap.Base.{
  ℕ, zero, suc, ◌+◌, ◌≤◌, ◌<◌, ◌≡◌, refl, ap, ◌⊎◌, inl, inr, List, [], ◌∷◌, ◌++◌, some, length,
  get_elem?, drop, ltb, true, false, All, length-append, Bool-cases, tests, arith,
}
use spw_rmap.Rmap.{Packet, incomplete_packet}
use spw_rmap.Parser.Monad.{go, returned}
use spw_rmap.Parser.Dispatch.{skip_path}

abbrev pub IsPath : List ℕ → Type 0
IsPath = All (λ b. b < 0x20)

-- A span is a path, or a path, a first byte behind it, and the rest.
pub record Split (p : List ℕ) : Type 0 where
  pub path : List ℕ
  pub first : ℕ
  pub rest : List ℕ
  pub joined : p ≡ path ++ first ∷ rest
  pub on_path : IsPath path
  pub first_large : 0x20 ≤ first

pub Split-IsPath : (p : List ℕ) → IsPath p ⊎ Split p
Split-IsPath [] = inl tt
Split-IsPath (b ∷ p) = add (Bool-cases (ltb b 0x20)) (Split-IsPath p)
  where
    add :
        ((ltb b 0x20 ≡ true) ⊎ (ltb b 0x20 ≡ false))
        → IsPath p ⊎ Split p
        → IsPath (b ∷ p) ⊎ Split (b ∷ p)
    add (inl e) (inl h) = inl (omega tests, h)
    add (inl e) (inr s) = inr (record {
      path = b ∷ s.path;
      first = s.first;
      rest = s.rest;
      joined = ap (◌∷◌ b) s.joined;
      on_path = (omega tests, s.on_path);
      first_large = s.first_large;
    })
    add (inr e) r = inr (record {
      path = [];
      first = b;
      rest = p;
      joined = refl;
      on_path = tt;
      first_large = omega tests;
    })

record DropCons (p : List ℕ) (h x : ℕ) (xs : List ℕ) : Type 0 where
  inside : length p ≡ suc (h + length xs)
  element : get_elem? p h ≡ some x
  beyond : drop (h + 1) p ≡ xs

drop-cons : (p : List ℕ) (h x : ℕ) (xs : List ℕ) → drop h p ≡ x ∷ xs → DropCons p h x xs
drop-cons [] zero x xs e = cc
drop-cons [] (suc h) x xs e = cc
drop-cons (y ∷ p) zero x xs e = record {
  inside = omega (arith, ap length e);
  element = cc;
  beyond = cc;
}
drop-cons (y ∷ p) (suc h) x xs e =
    let r = drop-cons p h x xs e in
    let n : suc h + 1 ≡ suc (h + 1) = omega arith in
    record { inside = omega (arith, r.inside); element = r.element; beyond = rw n r.beyond }

-- The loop stops at the first byte that is not on the path.
pub skip_path-Split :
    (p path rest : List ℕ) (first rounds h : ℕ) (k : Packet)
    → IsPath path
    → 0x20 ≤ first
    → drop h p ≡ path ++ first ∷ rest
    → length path < rounds
    → skip_path p rounds h k ≡ go tt (h + length path) k
unfolding skip_path
skip_path-Split p path rest first zero h k hp hf e lt = absurd (omega arith)
skip_path-Split p [] rest first (suc rounds) h k hp hf e lt =
    ground (arith, (drop-cons p h first rest e).element)
skip_path-Split p (b ∷ path) rest first (suc rounds) h k hp hf e lt =
    let d = drop-cons p h b (path ++ first ∷ rest) e in
    ground (
      arith,
      d.element,
      d.inside,
      length-append path (first ∷ rest),
      skip_path-Split p path rest first rounds (h + 1) k hp.1 hf d.beyond,
    )

-- A span that is all path is refused as incomplete.
pub skip_path-IsPath :
    (p rest : List ℕ) (b rounds h : ℕ) (k : Packet)
    → IsPath (b ∷ rest)
    → drop h p ≡ b ∷ rest
    → length rest < rounds
    → skip_path p rounds h k ≡ returned incomplete_packet k
unfolding skip_path
skip_path-IsPath p rest b zero h k hp e lt = absurd (omega arith)
skip_path-IsPath p [] b (suc rounds) h k hp e lt =
    let d = drop-cons p h b [] e in ground (arith, d.element, d.inside)
skip_path-IsPath p (c ∷ rest) b (suc rounds) h k hp e lt =
    let d = drop-cons p h b (c ∷ rest) e in
    ground (arith, d.element, d.inside, skip_path-IsPath p rest c rounds (h + 1) k hp.1 d.beyond)
