-- ===== src/Util/Items.antt =====
-- The items of a delimited list.
use libfaim.Prelude.{
  ℕ, zero, suc, ◌+◌, ◌-◌, ◌≤◌, ◌<◌, ◌≡◌, refl, ap, ◌∙◌, none, some, List, [], ◌∷◌, ◌==◌,
  if◌then◌else◌, length, take, get_or, arith, Bool-cases, Option-cases, inl, inr,
}
use libfaim.Util.{after_chr, itemcnt_loop, itemcnt, seek, itemidx}

cons_first : ℕ → List (List ℕ) → List (List ℕ)
cons_first c [] = (c ∷ []) ∷ []
cons_first c (x ∷ xs) = (c ∷ x) ∷ xs

-- The pieces of a string between its delimiters.
pub items : ℕ → List ℕ → List (List ℕ)
items dl [] = [] ∷ []
items dl (c ∷ cs) = let rest = items dl cs in if c == dl then [] ∷ rest else cons_first c rest

after_chr-length :
    (str : List ℕ) (dl : ℕ) {r : List ℕ} → after_chr str dl ≡ some r → length r < length str
unfolding after_chr
after_chr-length [] dl e = absurd (nothing e)
  where
    nothing : {r : List ℕ} → none ≡ some r → ⊥
    nothing e = cc
after_chr-length (c ∷ cs) dl {r} e = elim (Bool-cases (c == dl)) [
  | inl h ↦ omega (arith, ap length (same (rw h at e)))
  | inr h ↦
      let e' : after_chr cs dl ≡ some r = rw h at e in omega (arith, after_chr-length cs dl e')
]
  where
    same : {x y : List ℕ} → some x ≡ some y → x ≡ y
    same e = cc

items_one : (str : List ℕ) (dl : ℕ) → after_chr str dl ≡ none → items dl str ≡ str ∷ []
unfolding after_chr items cons_first
items_one [] dl e = refl
items_one (c ∷ cs) dl e = ground (arith, items_one cs dl)

items_more :
    (str : List ℕ) (dl : ℕ) {r : List ℕ}
    → after_chr str dl ≡ some r
    → items dl str ≡ take (length str - length r - 1) str ∷ items dl r
unfolding after_chr items cons_first
items_more [] dl e = absurd (nothing e)
  where
    nothing : {r : List ℕ} → none ≡ some r → ⊥
    nothing e = cc
items_more (c ∷ cs) dl {r} e = elim (Bool-cases (c == dl)) [
  | inl h ↦
      let same : cs ≡ r = injected (rw h at e) in
      rw h (rw same (ap (λ n. take n (c ∷ r) ∷ items dl r) (none_left r)))
  | inr h ↦
      let e' : after_chr cs dl ≡ some r = rw h at e in
      rw h (
        rw (items_more cs dl e')
          (ap (λ n. take n (c ∷ cs) ∷ items dl r) (one_more cs r (after_chr-length cs dl e'))))
]
  where
    injected : {x y : List ℕ} → some x ≡ some y → x ≡ y
    injected e = cc

    none_left : (r : List ℕ) → 0 ≡ suc (length r) - length r - 1
    none_left r = omega arith

    one_more :
        (cs r : List ℕ)
        → length r < length cs
        → suc (length cs - length r - 1) ≡ suc (length cs) - length r - 1
    one_more cs r h = omega arith

-- `aimutil_itemidx` gives the item with the index, from 0 on, and the empty string behind the last.
pub itemidx-get_or :
    (str : List ℕ) (index dl : ℕ) → itemidx str index dl ≡ get_or (items dl str) index []
unfolding itemidx seek
itemidx-get_or str zero dl = elim (Option-cases (after_chr str dl)) [
  | inl e ↦ rw (e, itemidx) (rw (items_one str dl e) refl)
  | inr (r, e) ↦ rw (e, itemidx) (rw (items_more str dl e) refl)
]
itemidx-get_or str (suc index) dl = elim (Option-cases (after_chr str dl)) [
  | inl e ↦ rw (e, itemidx) (rw (items_one str dl e) refl)
  | inr (r, e) ↦ rw (e, itemidx) (rw (items_more str dl e) (itemidx-get_or r index dl))
]

itemcnt_loop-items :
    (fuel count dl : ℕ) (str : List ℕ)
    → length str ≤ fuel
    → itemcnt_loop fuel count (after_chr str dl) dl + 1 ≡ count + length (items dl str)
unfolding itemcnt_loop
itemcnt_loop-items zero count dl str h = elim (Option-cases (after_chr str dl)) [
  | inl e ↦ rw (e, items_one str dl e) refl
  | inr (r, e) ↦ absurd (omega (arith, after_chr-length str dl e))
]
itemcnt_loop-items (suc fuel) count dl str h = elim (Option-cases (after_chr str dl)) [
  | inl e ↦ rw (e, items_one str dl e) refl
  | inr (r, e) ↦
      rw (e, items_more str dl e)
        (itemcnt_loop-items fuel (count + 1) dl r (omega (arith, after_chr-length str dl e))
          ∙ omega arith)
]

-- `aimutil_itemcnt` is the number of items.
itemcnt-items : (str : List ℕ) (dl : ℕ) → itemcnt str dl ≡ length (items dl str)
unfolding itemcnt
itemcnt-items str dl = omega (arith, itemcnt_loop-items (length str) 1 dl str (omega arith))
