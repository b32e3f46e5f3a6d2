-- ===== src/Tlv/Lookup.antt =====
-- aim_gettlv and the accessors over it.
use libfaim.Prelude.{
  ℕ, zero, suc, ◌+◌, ◌≡◌, refl, List, [], ◌∷◌, some, arith, length, keep, get_elem?, ltb, ◌==◌,
  Bool, if◌then◌else◌,
}
use libfaim.Bstream.Words.{get8_at, get16_at, get32_at}
use libfaim.Tlv.{Tlv, ok, fault, gettlv_from, gettlv, gettlv8, gettlv16, gettlv32}

abbrev pub of_type : ℕ → Tlv → Bool
of_type t x = x.type == t

gettlv_from-get_elem? :
    (xs : List Tlv) (t n i k : ℕ)
    → n ≡ i + suc k
    → gettlv_from xs t n i ≡ get_elem? (keep (of_type t) xs) k
unfolding gettlv_from
gettlv_from-get_elem? [] t n i k e = refl
gettlv_from-get_elem? (x ∷ xs) t n i zero e = ground (arith, gettlv_from-get_elem? xs t n i zero)
gettlv_from-get_elem? (x ∷ xs) t n i (suc k) e =
    ground (arith, gettlv_from-get_elem? xs t n i (suc k), gettlv_from-get_elem? xs t n (i + 1) k)

-- Counting from 1, the n-th element of a type is found, in the order of the chain; NULL if there are
-- fewer.
pub gettlv-get_elem? :
    (list : List Tlv) (t n : ℕ) → gettlv list t (suc n) ≡ get_elem? (keep (of_type t) list) n
unfolding gettlv
gettlv-get_elem? list t n = gettlv_from-get_elem? list t (suc n) 0 n (omega arith)

-- The index 0 finds the first element of the chain, whatever its type.
gettlv-zero : (x : Tlv) (list : List Tlv) (t : ℕ) → gettlv (x ∷ list) t 0 ≡ some x
unfolding gettlv gettlv_from
gettlv-zero x list t = ground arith

-- An element that is there but holds fewer bytes than the number takes is read past its end, by each
-- of the three accessors; with enough bytes each returns the number at the start of the value.
pub gettlv_numbers :
    (list : List Tlv) (t n : ℕ) (tlv : Tlv)
    → gettlv list t n ≡ some tlv
    → (gettlv8 list t n ≡ (if ltb (length tlv.value) 1 then fault else ok (get8_at tlv.value 0)))
      × (gettlv16 list t n
          ≡ (if ltb (length tlv.value) 2 then fault else ok (get16_at tlv.value 0)))
      × (gettlv32 list t n
          ≡ (if ltb (length tlv.value) 4 then fault else ok (get32_at tlv.value 0)))
unfolding gettlv8 gettlv16 gettlv32
gettlv_numbers list t n tlv e = (rw e, rw e, rw e)
