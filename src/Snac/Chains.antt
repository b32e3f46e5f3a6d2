-- ===== src/Snac/Chains.antt =====
-- The walks of snac.c along one chain of the table.
use libfaim.Prelude.{
  ℕ, ◌≡◌, refl, List, [], ◌∷◌, arith, keep, ◌==◌, Bool, not, Bool-cases, if◌then◌else◌, inl, inr,
}
use mathlib.Core.List.{head?, tail}
use libfaim.Prelude.Int.{ℤ}
use libfaim.Snac.{Snac, unlink, clean_chain, is_old}

abbrev pub of_id : ℕ → Snac → Bool
of_id id s = s.id == id

abbrev pub is_young : ℕ → ℤ → Snac → Bool
is_young now maxage s = not (is_old now maxage s)

pub unlink-head : (id : ℕ) (xs : List Snac) → (unlink id xs).0 ≡ head? (keep (of_id id) xs)
unfolding unlink
unlink-head id [] = refl
unlink-head id (x ∷ xs) = ground (arith, unlink-head id xs)

pub keep-unlink :
    (id j : ℕ) (xs : List Snac)
    → keep (of_id j) (unlink id xs).1
      ≡ (if id == j then tail (keep (of_id j) xs) else keep (of_id j) xs)
unfolding unlink
keep-unlink id j [] = ground arith
keep-unlink id j (x ∷ xs) = ground (arith, keep-unlink id j xs)

pub clean_chain-keep :
    (now : ℕ) (maxage : ℤ) (xs : List Snac)
    → clean_chain now maxage xs ≡ keep (is_young now maxage) xs
unfolding clean_chain
clean_chain-keep now maxage [] = refl
clean_chain-keep now maxage (x ∷ xs) = elim (Bool-cases (is_old now maxage x)) [
  | inl old ↦ rw (old, clean_chain-keep now maxage xs)
  | inr young ↦ rw (young, clean_chain-keep now maxage xs)
]
