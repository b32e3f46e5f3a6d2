-- ===== src/Tlv/Build.antt =====
-- aim_addtlvtochain_*: what they append.
use libfaim.Prelude.{
  ℕ, suc, ◌<◌, ◌≡◌, refl, ap, sym, ◌∙◌, List, [], ◌∷◌, ◌++◌, some, arith, length, length-append,
  keep, get_elem?, le→ltb, ◌==◌, ==-refl, Bool-cases, inl, inr, All, take, take-append, append-nil,
  u8, u16, u32, ne→==,
}
use libfaim.Prelude.Alloc.{Allocator, Request}
use libfaim.Bstream.{init, curpos}
use libfaim.Bstream.View.{cursor, init-cursor}
use libfaim.Bstream.Words.{be8, be16, be32, get8_at, get16_at, get32_at}
use libfaim.Tlv.{
  Tlv, IsTlv, ok, gettlv, gettlv8, gettlv16, gettlv32, sizetlvchain, writetlvchain,
  addtlvtochain_raw, addtlvtochain8, addtlvtochain16, addtlvtochain32, addtlvtochain_frozentlvlist,
}
use libfaim.Tlv.Encoding.{chain_bytes, length-chain_bytes}
use libfaim.Tlv.Write.{writetlvchain-cursor}
use libfaim.Tlv.Read.{Grants}
use libfaim.Tlv.Lookup.{of_type, gettlv-get_elem?, gettlv_numbers}

abbrev pub element : ℕ → List ℕ → Tlv
element t v = record { type = t; len = length v; value = v }

whole : (v : List ℕ) → take (length v) v ≡ v
whole v = rw append-nil at (take-append (length v) v [] refl)

module _ (malloc : Allocator) (grants : Grants malloc) (list : List Tlv) (t : ℕ) where
  -- With memory granted the element is appended, and its length is returned.
  addtlvtochain_raw-append :
      (v : List ℕ)
      → addtlvtochain_raw malloc list t (length v) v ≡ ok (length v, list ++ element t v ∷ [])
  unfolding addtlvtochain_raw
  addtlvtochain_raw-append [] = rw (grants Request.tlvlist, grants Request.tlv)
  addtlvtochain_raw-append (x ∷ v) =
      rw (grants Request.tlvlist, grants Request.tlv, ne→== (suc (length v)) 0 (omega arith))
        (rw (
          grants (Request.bytes (suc (length v))),
          le→ltb (suc (length v)) (suc (length v)) (omega arith),
          whole v,
        ))

  -- The same where the value is the front of a buffer.
  pub addtlvtochain_raw-front :
      (xs ys : List ℕ)
      → addtlvtochain_raw malloc list t (length xs) (xs ++ ys)
        ≡ ok (length xs, list ++ element t xs ∷ [])
  unfolding addtlvtochain_raw
  addtlvtochain_raw-front [] ys = rw (grants Request.tlvlist, grants Request.tlv)
  addtlvtochain_raw-front (x ∷ xs) ys =
      rw (grants Request.tlvlist, grants Request.tlv, ne→== (suc (length xs)) 0 (omega arith))
        (rw (
          grants (Request.bytes (suc (length xs))),
          le→ltb (suc (length (xs ++ ys))) (suc (length xs)) (omega (arith, length-append xs ys)),
          take-append (length xs) xs ys refl,
        ))

  pub addtlvtochain16-append :
      (v : ℕ) → addtlvtochain16 malloc list t v ≡ ok (2, list ++ element t (be16 v) ∷ [])
  unfolding addtlvtochain16 be16
  addtlvtochain16-append v = unfold be16 in addtlvtochain_raw-append (be16 v)

  pub addtlvtochain32-append :
      (v : ℕ) → addtlvtochain32 malloc list t v ≡ ok (4, list ++ element t (be32 v) ∷ [])
  unfolding addtlvtochain32 be32
  addtlvtochain32-append v = unfold be32 in addtlvtochain_raw-append (be32 v)

keep-append :
    (list : List Tlv) (t : ℕ) (v : List ℕ)
    → keep (of_type t) list ≡ []
    → keep (of_type t) (list ++ element t v ∷ []) ≡ element t v ∷ []
keep-append [] t v h = rw (==-refl t)
keep-append (x ∷ list) t v h = elim (Bool-cases (x.type == t)) [
  | inl same ↦ let k = rw same at h in cc
  | inr other ↦ rw other (keep-append list t v (rw other at h))
]

-- The element that was appended is the first of its type.
gettlv-append :
    (list : List Tlv) (t : ℕ) (v : List ℕ)
    → keep (of_type t) list ≡ []
    → gettlv (list ++ element t v ∷ []) t 1 ≡ some (element t v)
gettlv-append list t v h =
    gettlv-get_elem? (list ++ element t v ∷ []) t 0
    ∙ ap (λ (x : List Tlv). get_elem? x 0) (keep-append list t v h)

module _ (v : ℕ) where
  at_be8 : get8_at (be8 v) 0 ≡ u8 v
  unfolding get8_at be8
  at_be8 = omega arith

  at_be16 : get16_at (be16 v) 0 ≡ u16 v
  unfolding get16_at be16
  at_be16 = omega arith

  at_be32 : get32_at (be32 v) 0 ≡ u32 v
  unfolding get32_at be32
  at_be32 = omega arith

-- With memory granted, a number that is appended to a chain without an element of its type is found
-- there, modulo the width, by the accessor of the width that it was appended with.
pub addtlvtochain-gettlv :
    (malloc : Allocator) (list : List Tlv) (t v : ℕ)
    → Grants malloc
    → keep (of_type t) list ≡ []
    → (addtlvtochain8 malloc list t v ≡ ok (1, list ++ element t (be8 v) ∷ []))
      × (gettlv8 (list ++ element t (be8 v) ∷ []) t 1 ≡ ok (u8 v))
      × (addtlvtochain16 malloc list t v ≡ ok (2, list ++ element t (be16 v) ∷ []))
      × (gettlv16 (list ++ element t (be16 v) ∷ []) t 1 ≡ ok (u16 v))
      × (addtlvtochain32 malloc list t v ≡ ok (4, list ++ element t (be32 v) ∷ []))
      × (gettlv32 (list ++ element t (be32 v) ∷ []) t 1 ≡ ok (u32 v))
addtlvtochain-gettlv malloc list t v grants h = (
  unfold addtlvtochain8 be8 in addtlvtochain_raw-append malloc grants list t (be8 v),
  (gettlv_numbers _ t 1 _ (gettlv-append list t (be8 v) h)).0
      ∙ unfold be8 in ap ok (unfold be8 in at_be8 v),
  addtlvtochain16-append malloc grants list t v,
  (gettlv_numbers _ t 1 _ (gettlv-append list t (be16 v) h)).1
      ∙ unfold be16 in ap ok (unfold be16 in at_be16 v),
  addtlvtochain32-append malloc grants list t v,
  (gettlv_numbers _ t 1 _ (gettlv-append list t (be32 v) h)).2
      ∙ unfold be32 in ap ok (unfold be32 in at_be32 v),
)

-- The inner chain fills the block.
frozen :
    (fresh : List ℕ) (tl : List Tlv)
    → All IsTlv tl
    → length fresh ≡ sizetlvchain tl
    → sizetlvchain tl < 65536
    → writetlvchain (init fresh (sizetlvchain tl)) tl ≡ (1, cursor (chain_bytes tl) [] [])
frozen fresh tl w e small =
    ap (λ x. writetlvchain x tl) (init-cursor fresh (sizetlvchain tl) (sym e) small)
    ∙ writetlvchain-cursor tl [] fresh [] [] w e (omega arith)

-- With memory granted, a well-formed inner chain of at most 65535 bytes is frozen into one element
-- whose value is exactly its encoding, whatever the fresh block held; the size is returned.
pub addtlvtochain_frozentlvlist_lem :
    (malloc : Allocator) (fresh : List ℕ) (list : List Tlv) (type : ℕ) (tl : List Tlv)
    → Grants malloc
    → All IsTlv tl
    → length fresh ≡ sizetlvchain tl
    → 0 < sizetlvchain tl
    → sizetlvchain tl < 65536
    → addtlvtochain_frozentlvlist malloc fresh list type tl
      ≡ ok (sizetlvchain tl, list ++ element type (chain_bytes tl) ∷ [])
unfolding addtlvtochain_frozentlvlist curpos
addtlvtochain_frozentlvlist_lem malloc fresh list type tl grants w e pos small =
    rw
      (
        ne→== (sizetlvchain tl) 0 (omega arith),
        grants (Request.bytes (sizetlvchain tl)),
        frozen fresh tl w e small,
      )
      (rw (append-nil, narrow, addtlvtochain_raw-append malloc grants list type (chain_bytes tl)))
  where
    narrow : u16 (length (chain_bytes tl)) ≡ length (chain_bytes tl)
    narrow = omega (arith, length-chain_bytes tl w)
