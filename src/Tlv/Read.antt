-- ===== src/Tlv/Read.antt =====
-- aim_readtlvchain: which inputs it reads, rejects, and never finishes.
use libfaim.Prelude.{
  ℕ, zero, suc, ◌+◌, ◌-◌, ◌<◌, ◌≡◌, refl, ap, sym, ◌∙◌, List, [], ◌∷◌, ◌++◌, arith, length,
  length-append, append_assoc, append-nil, All, ltb, lt→ltb, le→ltb, ◌==◌, Bool-cases, inl, inr,
  ==→eq, true, false, IsU16, Bool, ◌||◌, if◌then◌else◌, ap₂,
}
use mathlib.Core.List.{reverse, reverse_aux}
use native.Mathlib.Nat.{zero-add, suc-add}
use libfaim.Prelude.Alloc.{Allocator, Request}
use libfaim.Bstream.{Bstream, empty}
use libfaim.Bstream.View.{cursor, empty-cursor}
use libfaim.Bstream.Words.{be16}
use libfaim.Bstream.Reads.{get16-cursor, get16_short, getraw-cursor}
use libfaim.Tlv.{
  Tlv, IsTlv, Round, stop, item, done, out_of_fuel, read_value, read_one, readtlv_loop,
  readtlvchain,
}
use libfaim.Tlv.Encoding.{
  tlv_bytes, chain_bytes, length-be16, length-tlv_bytes, tlv_bytes-append, pre-append,
}

-- Every request is granted.
abbrev pub Grants : Allocator → Type 0
Grants malloc = (q : Request) → malloc q ≡ true

Tlv-eq : {s t : Tlv} → s.type ≡ t.type → s.len ≡ t.len → s.value ≡ t.value → s ≡ t
Tlv-eq p q r = λ i. record { type = p i; len = q i; value = r i }

nil_of_length : (xs : List ℕ) → 0 ≡ length xs → [] ≡ xs
nil_of_length [] h = refl
nil_of_length (x ∷ xs) h = absurd (omega arith)

-- The rounds of the loop, by what stands in the stream.
readtlv_loop_item :
    (malloc : Allocator) (fuel : ℕ) (bs : Bstream) {bs' : Bstream} {t : Tlv} (list : List Tlv)
    → 0 < empty bs
    → read_one malloc bs ≡ item t bs'
    → readtlv_loop malloc (suc fuel) bs list ≡ readtlv_loop malloc fuel bs' (t ∷ list)
unfolding readtlv_loop
readtlv_loop_item malloc fuel bs list h e = rw (lt→ltb 0 (empty bs) h, readtlv_loop) (rw e)

readtlv_loop_stop :
    (malloc : Allocator) (fuel : ℕ) (bs : Bstream) {bs' : Bstream} (list : List Tlv)
    → 0 < empty bs
    → read_one malloc bs ≡ stop bs'
    → readtlv_loop malloc (suc fuel) bs list ≡ done [] bs'
unfolding readtlv_loop
readtlv_loop_stop malloc fuel bs list h e = rw (lt→ltb 0 (empty bs) h, readtlv_loop) (rw e)

readtlv_loop_end :
    (malloc : Allocator) (fuel : ℕ) (bs : Bstream) (list : List Tlv)
    → empty bs ≡ 0
    → readtlv_loop malloc (suc fuel) bs list ≡ done list bs
unfolding readtlv_loop
readtlv_loop_end malloc fuel bs list h = rw (h, readtlv_loop)

module _ (malloc : Allocator) (grants : Grants malloc) (post : List ℕ) where
  -- The header of an element, however long the value is said to be.
  read_one-header :
      (type len : ℕ) (pre xs : List ℕ)
      → IsU16 type
      → IsU16 len
      → length pre + 4 + length xs < 65536
      → read_one malloc (cursor pre (be16 type ++ (be16 len ++ xs)) post) ≡ (
          let b2 = cursor ((pre ++ be16 type) ++ be16 len) xs post in
          if ltb (length xs) len then stop b2 else read_value malloc type len b2)
  unfolding read_one
  read_one-header type len pre xs ht hl fits =
      rw
        (get16-cursor pre (be16 len ++ xs) post type ht
          (omega (arith, length-append (be16 len) xs, length-be16 len)))
        (rw
          (get16-cursor (pre ++ be16 type) xs post len hl
            (omega (arith, length-append pre (be16 type), length-be16 type)))
          (rw
            (
              empty-cursor ((pre ++ be16 type) ++ be16 len) xs post,
              grants Request.tlvlist,
              grants Request.tlv,
            )
            (or-false (ltb (length xs) len) _ _)))
    where
      or-false :
          (b : Bool) (x y : Round) → (if b || false || false then x else y) ≡ (if b then x else y)
      or-false true x y = refl
      or-false false x y = refl

  read_value-cursor :
      (t : Tlv) (pre r : List ℕ)
      → IsTlv t
      → length pre + t.len + length r < 65536
      → read_value malloc t.type t.len (cursor pre (t.value ++ r) post)
        ≡ item t (cursor (pre ++ t.value) r post)
  unfolding read_value
  read_value-cursor t pre r w fits = elim (Bool-cases (t.len == 0)) [
    | inl z ↦
        let e : [] ≡ t.value = nil_of_length t.value (omega (arith, ==→eq _ _ z, w.len_lem)) in
        rw z (ap₂ item (Tlv-eq refl (omega (arith, ==→eq _ _ z)) e) (rw (← e, append-nil)))
    | inr nz ↦
        let e =
          getraw-cursor pre t.value r post (omega (arith, w.len_lem)) malloc t.len (sym w.len_lem)
            (grants (Request.bytes t.len)) in
        rw nz (rw e (rw e))
  ]

  read_one-cursor :
      (t : Tlv) (pre r : List ℕ)
      → IsTlv t
      → length pre + 4 + t.len + length r < 65536
      → read_one malloc (cursor pre (tlv_bytes t ++ r) post)
        ≡ item t (cursor (pre ++ tlv_bytes t) r post)
  read_one-cursor t pre r w fits =
      rw
        (
          tlv_bytes-append t r,
          read_one-header t.type t.len pre (t.value ++ r) w.type_u16 w.len_u16
              (omega (arith, length-append t.value r, w.len_lem)),
          le→ltb (length (t.value ++ r)) t.len (omega (arith, length-append t.value r, w.len_lem)),
        )
        (read_value-cursor t ((pre ++ be16 t.type) ++ be16 t.len) r w (
            omega (
              arith,
              length-append pre (be16 t.type),
              length-be16 t.type,
              length-append (pre ++ be16 t.type) (be16 t.len),
              length-be16 t.len,
            ))
          ∙ ap (λ x. item t (cursor x r post)) (pre-append pre t))

  -- The loop reads a whole chain, and then stands at what follows it.
  readtlv_loop-chain :
      (ts : List Tlv) (fuel : ℕ) (pre r : List ℕ) (list : List Tlv)
      → All IsTlv ts
      → length pre + length (chain_bytes ts) + length r < 65536
      → readtlv_loop malloc (length ts + fuel) (cursor pre (chain_bytes ts ++ r) post) list
        ≡ readtlv_loop malloc fuel (cursor (pre ++ chain_bytes ts) r post) (reverse_aux ts list)
  readtlv_loop-chain [] fuel pre r list w fits = rw (zero-add, append-nil)
  readtlv_loop-chain (t ∷ ts) fuel pre r list w fits =
      let fits' : length pre + 4 + t.len + length (chain_bytes ts ++ r) < 65536 = omega (
        arith,
        length-append (tlv_bytes t) (chain_bytes ts),
        length-tlv_bytes t w.0,
        length-append (chain_bytes ts) r,
      ) in
      let more : 0 < empty (cursor pre (tlv_bytes t ++ (chain_bytes ts ++ r)) post) = omega (
        arith,
        empty-cursor pre (tlv_bytes t ++ (chain_bytes ts ++ r)) post,
        length-append (tlv_bytes t) (chain_bytes ts ++ r),
        length-tlv_bytes t w.0,
      ) in
      rw (suc-add, append_assoc (tlv_bytes t) (chain_bytes ts) r)
        (readtlv_loop_item malloc (length ts + fuel) _ list more
            (read_one-cursor t pre (chain_bytes ts ++ r) w.0 fits')
          ∙ readtlv_loop-chain ts fuel (pre ++ tlv_bytes t) r (t ∷ list) w.1 (
              omega (
                arith,
                length-append pre (tlv_bytes t),
                length-append (tlv_bytes t) (chain_bytes ts),
              ))
          ∙ ap (λ x. readtlv_loop malloc fuel (cursor x r post) (reverse_aux ts (t ∷ list)))
              (append_assoc pre (tlv_bytes t) (chain_bytes ts)))

  -- With one byte left the readers return 0 and do not move.
  read_one_stuck :
      (bs : Bstream)
      → empty bs ≡ 1
      → read_one malloc bs ≡ item (record { type = 0; len = 0; value = [] }) bs
  unfolding read_one read_value
  read_one_stuck bs h =
      let e = get16_short bs (omega arith) in
      rw e
        (rw e (rw (le→ltb (empty bs) 0 (omega arith), grants Request.tlvlist, grants Request.tlv)))

  readtlv_loop_stuck :
      (fuel : ℕ) (bs : Bstream) (list : List Tlv)
      → empty bs ≡ 1
      → readtlv_loop malloc fuel bs list ≡ out_of_fuel
  readtlv_loop_stuck zero bs list h = unfold readtlv_loop in refl
  readtlv_loop_stuck (suc fuel) bs list h =
      readtlv_loop_item malloc fuel bs list (omega arith) (read_one_stuck bs h)
      ∙ readtlv_loop_stuck fuel bs _ h

  -- Fuel that ends before the chain does, or within what follows it.
  readtlv_loop-chain_stuck :
      (ts : List Tlv) (fuel : ℕ) (pre : List ℕ) (b : ℕ) (list : List Tlv)
      → All IsTlv ts
      → length pre + length (chain_bytes ts) + 1 < 65536
      → readtlv_loop malloc fuel (cursor pre (chain_bytes ts ++ (b ∷ [])) post) list ≡ out_of_fuel
  readtlv_loop-chain_stuck [] fuel pre b list w fits =
      readtlv_loop_stuck fuel _ list (empty-cursor pre (b ∷ []) post)
  readtlv_loop-chain_stuck (t ∷ ts) zero pre b list w fits = unfold readtlv_loop in refl
  readtlv_loop-chain_stuck (t ∷ ts) (suc fuel) pre b list w fits =
      let l : length (chain_bytes ts ++ (b ∷ [])) ≡ length (chain_bytes ts) + 1 =
        length-append (chain_bytes ts) (b ∷ []) in
      let l' : length (tlv_bytes t ++ chain_bytes ts) ≡ 4 + t.len + length (chain_bytes ts) =
        omega (arith, length-append (tlv_bytes t) (chain_bytes ts), length-tlv_bytes t w.0) in
      rw (append_assoc (tlv_bytes t) (chain_bytes ts) (b ∷ [])) (
        readtlv_loop_item malloc fuel _ list
          (omega (
            arith,
            empty-cursor pre (tlv_bytes t ++ (chain_bytes ts ++ (b ∷ []))) post,
            length-append (tlv_bytes t) (chain_bytes ts ++ (b ∷ [])),
            length-tlv_bytes t w.0,
          ))
          (read_one-cursor t pre (chain_bytes ts ++ (b ∷ [])) w.0 (omega arith))
        ∙ readtlv_loop-chain_stuck ts fuel (pre ++ tlv_bytes t) b (t ∷ list) w.1
            (omega (arith, length-append pre (tlv_bytes t), length-tlv_bytes t w.0)))

module _ (malloc : Allocator) (grants : Grants malloc) (pre post : List ℕ) (ts : List Tlv)
    (w : All IsTlv ts) (fuel : ℕ) where
  -- A valid stream whose unread part is the bytes of a well-formed chain is read to its end, with
  -- memory granted and more rounds allowed than the chain has elements. The result is the chain in
  -- reverse order.
  pub readtlvchain-chain :
      length pre + length (chain_bytes ts) < 65536
      → length ts < fuel
      → readtlvchain malloc fuel (cursor pre (chain_bytes ts) post)
        ≡ done (reverse ts) (cursor (pre ++ chain_bytes ts) [] post)
  unfolding readtlvchain
  readtlvchain-chain fits enough =
      let k : ℕ = fuel - length ts - 1 in
      let e : fuel ≡ length ts + suc k = omega arith in
      ap₂ (λ f x. readtlv_loop malloc f (cursor pre x post) []) e
        (sym (append-nil (chain_bytes ts)))
      ∙ readtlv_loop-chain malloc grants post ts (suc k) pre [] [] w (omega arith)
      ∙ readtlv_loop_end malloc k (cursor (pre ++ chain_bytes ts) [] post) (reverse ts)
          (empty-cursor (pre ++ chain_bytes ts) [] post)

  -- An element that claims more bytes than are left makes the whole chain be dropped: the result is
  -- NULL, though the elements before it were sound.
  pub readtlvchain_short :
      (type len : ℕ) (xs : List ℕ)
      → IsU16 type
      → IsU16 len
      → length xs < len
      → length pre + length (chain_bytes ts) + 4 + length xs < 65536
      → length ts < fuel
      → readtlvchain malloc fuel
          (cursor pre (chain_bytes ts ++ (be16 type ++ (be16 len ++ xs))) post)
        ≡ done [] (cursor (((pre ++ chain_bytes ts) ++ be16 type) ++ be16 len) xs post)
  unfolding readtlvchain
  readtlvchain_short type len xs ht hl short fits enough =
      let k : ℕ = fuel - length ts - 1 in
      let e : fuel ≡ length ts + suc k = omega arith in
      let l : length (be16 type ++ (be16 len ++ xs)) ≡ 4 + length xs = omega (
        arith,
        length-append (be16 type) (be16 len ++ xs),
        length-append (be16 len) xs,
        length-be16 type,
        length-be16 len,
      ) in
      ap
        (λ f.
          readtlv_loop malloc f
            (cursor pre (chain_bytes ts ++ (be16 type ++ (be16 len ++ xs))) post) [])
        e
      ∙ readtlv_loop-chain malloc grants post ts (suc k) pre (be16 type ++ (be16 len ++ xs)) [] w
          (omega arith)
      ∙ readtlv_loop_stop malloc k _ (reverse ts)
          (omega (arith, empty-cursor (pre ++ chain_bytes ts) (be16 type ++ (be16 len ++ xs)) post))
          (read_one-header malloc grants post type len (pre ++ chain_bytes ts) xs ht hl
              (omega (arith, length-append pre (chain_bytes ts)))
            ∙ rw (lt→ltb (length xs) len short))

  -- One byte behind a well-formed chain, with memory granted: no number of rounds ends the loop, which
  -- adds empty elements for ever.
  pub readtlvchain_stuck :
      (b : ℕ)
      → length pre + length (chain_bytes ts) + 1 < 65536
      → readtlvchain malloc fuel (cursor pre (chain_bytes ts ++ (b ∷ [])) post) ≡ out_of_fuel
  unfolding readtlvchain
  readtlvchain_stuck b fits = readtlv_loop-chain_stuck malloc grants post ts fuel pre b [] w fits
