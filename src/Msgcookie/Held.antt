-- ===== src/Msgcookie/Held.antt =====
-- What the chain holds under a cookie string and a type, and at an address.
use libfaim.Prelude.{
  ℕ, ◌≡◌, refl, ap, ap₂, List, [], ◌∷◌, arith, keep, Bool, true, not, Bool-cases, inl, inr,
}
use mathlib.Core.List.{head?, tail}
use libfaim.Msgcookie.{
  Msgcookie, same_bytes, matches, is_at, checkcookie, uncachecookie, cookie_free,
}

abbrev pub held : List Msgcookie → List ℕ → ℕ → List Msgcookie
held list ck type = keep (matches ck type) list

same_bytes→eq : (a b : List ℕ) → same_bytes a b ≡ true → a ≡ b
unfolding same_bytes
same_bytes→eq [] [] h = refl
same_bytes→eq [] (b ∷ bs) h = cc
same_bytes→eq (a ∷ as') [] h = cc
same_bytes→eq (a ∷ as') (b ∷ bs) h = ap₂ ◌∷◌ (ground arith) (same_bytes→eq as' bs (ground arith))

pub same_bytes_refl : (a : List ℕ) → same_bytes a a ≡ true
unfolding same_bytes
same_bytes_refl [] = refl
same_bytes_refl (a ∷ as') = ground (arith, same_bytes_refl as')

-- A cookie answers to one string and type only.
pub matches_unique :
    (c : Msgcookie) (ck ck' : List ℕ) (type type' : ℕ)
    → matches ck type c ≡ true
    → matches ck' type' c ≡ true
    → (ck ≡ ck') × (type ≡ type')
matches_unique c ck ck' type type' h k =
    ground (arith, same_bytes→eq c.cookie ck, same_bytes→eq c.cookie ck')

pub checkcookie-head :
    (list : List Msgcookie) (ck : List ℕ) (type : ℕ)
    → checkcookie list ck type ≡ head? (held list ck type)
unfolding checkcookie
checkcookie-head [] ck type = refl
checkcookie-head (c ∷ list) ck type = ground (arith, checkcookie-head list ck type)

pub uncachecookie-head :
    (list : List Msgcookie) (ck : List ℕ) (type : ℕ)
    → ((uncachecookie list ck type).0 ≡ head? (held list ck type))
      × (held (uncachecookie list ck type).1 ck type ≡ tail (held list ck type))
unfolding uncachecookie
uncachecookie-head [] ck type = (refl, refl)
uncachecookie-head (c ∷ list) ck type = ground (arith, uncachecookie-head list ck type)

-- The two names differ.
abbrev pub Differ : List ℕ → ℕ → List ℕ → ℕ → Type 0
Differ ck type ck' type' = (ck ≡ ck') × (type ≡ type') → ⊥

pub uncachecookie-other :
    (list : List Msgcookie) (ck ck' : List ℕ) (type type' : ℕ)
    → Differ ck type ck' type'
    → held (uncachecookie list ck type).1 ck' type' ≡ held list ck' type'
unfolding uncachecookie
uncachecookie-other [] ck ck' type type' d = refl
uncachecookie-other (c ∷ list) ck ck' type type' d =
    ground (arith, uncachecookie-other list ck ck' type type' d, matches_unique c ck ck' type type')

-- `aim_cookie_free` drops whatever is at the address.
pub keep-cookie_free :
    (p : Msgcookie → Bool) (list : List Msgcookie) (c : Msgcookie)
    → keep p (cookie_free list c) ≡ keep (λ x. not (is_at c.addr x)) (keep p list)
unfolding cookie_free
keep-cookie_free p [] c = refl
keep-cookie_free p (x ∷ list) c = elim (Bool-cases (is_at c.addr x)) [
  | inl here ↦ elim (Bool-cases (p x)) [
    | inl yes' ↦ rw (here, yes') (rw here (keep-cookie_free p list c))
    | inr no' ↦ rw (here, no') (keep-cookie_free p list c)
  ]
  | inr away ↦ elim (Bool-cases (p x)) [
    | inl yes' ↦ rw (away, yes') (rw away (ap (λ t. x ∷ t) (keep-cookie_free p list c)))
    | inr no' ↦ rw (away, no') (keep-cookie_free p list c)
  ]
]
