-- ===== src/Tlv/Write.antt =====
-- aim_writetlvchain: what it stores.
use libfaim.Prelude.{
  ℕ, ◌+◌, ◌<◌, ◌≡◌, refl, ap, sym, ◌∙◌, List, [], ◌∷◌, ◌++◌, arith, length, take, drop,
  length-append, length-take, length-drop, append_assoc, append-nil, take-append-drop, All, ltb,
  le→ltb, ◌==◌, Bool-cases, inl, inr, ==→eq, ltb→le, if◌then◌else◌,
}
use libfaim.Bstream.{Bstream, IsValid, empty, putraw}
use libfaim.Bstream.View.{cursor, empty-cursor, split, front, rest, back}
use libfaim.Bstream.Words.{be16}
use libfaim.Bstream.Writes.{put16-cursor, putraw-cursor}
use libfaim.Tlv.{Tlv, IsTlv, sizetlvchain, put_tlv, put_tlvs, writetlvchain}
use libfaim.Tlv.Encoding.{tlv_bytes, chain_bytes, length-be16, length-tlv_bytes, pre-append}

-- A list of `m + n` elements, split after the first `m`.
record Parts (xs : List ℕ) (m : ℕ) (n : ℕ) : Type 0 where
  left : List ℕ
  right : List ℕ
  shape : xs ≡ left ++ right
  left_len : length left ≡ m
  right_len : length right ≡ n

parts : (xs : List ℕ) (m n : ℕ) → length xs ≡ m + n → Parts xs m n
parts xs m n h = record {
  left = take m xs;
  right = drop m xs;
  shape = sym (take-append-drop m xs);
  left_len = omega (arith, length-take m xs);
  right_len = omega (arith, length-drop m xs);
}

nil_of_length : (xs : List ℕ) → length xs ≡ 0 → xs ≡ []
nil_of_length [] h = refl
nil_of_length (x ∷ xs) h = absurd (omega arith)

module _ (t : Tlv) (w : IsTlv t) (post : List ℕ) where
  put_value :
      (pre old r : List ℕ)
      → length old ≡ t.len
      → length pre + t.len + length r < 65536
      → (if t.len == 0
          then cursor pre (old ++ r) post
          else (putraw (cursor pre (old ++ r) post) t.value t.len).1)
        ≡ cursor (pre ++ t.value) r post
  put_value pre old r e fits = elim (Bool-cases (t.len == 0)) [
    | inl z ↦ rw (
      z,
      nil_of_length old (omega (arith, ==→eq _ _ z)),
      nil_of_length t.value (omega (arith, ==→eq _ _ z, w.len_lem)),
      append-nil,
    )
    | inr nz ↦ rw nz (rw (putraw-cursor pre old r post t.value t.len (sym w.len_lem) e fits))
  ]

  put_tlv-cursor :
      (pre old r : List ℕ)
      → length old ≡ 4 + t.len
      → length pre + 4 + t.len + length r < 65536
      → put_tlv (cursor pre (old ++ r) post) t ≡ cursor (pre ++ tlv_bytes t) r post
  unfolding put_tlv
  put_tlv-cursor pre old r e fits =
      let a = parts old 2 (2 + t.len) (omega arith) in
      let b = parts a.right 2 t.len (omega arith) in
      rw
        (
          a.shape,
          append_assoc a.left a.right r,
          b.shape,
          append_assoc b.left b.right r,
          put16-cursor pre a.left (b.left ++ (b.right ++ r)) post t.type a.left_len
              (omega (arith, length-append b.left (b.right ++ r), length-append b.right r)),
        )
        (rw
          (put16-cursor (pre ++ be16 t.type) b.left (b.right ++ r) post t.len b.left_len (
            omega (
              arith,
              length-append pre (be16 t.type),
              length-be16 t.type,
              length-append b.right r,
            )))
          (put_value ((pre ++ be16 t.type) ++ be16 t.len) b.right r b.right_len (
              omega (
                arith,
                length-append pre (be16 t.type),
                length-be16 t.type,
                length-append (pre ++ be16 t.type) (be16 t.len),
                length-be16 t.len,
              ))
            ∙ ap (λ x. cursor x r post) (pre-append pre t)))

put_tlvs-cursor :
    (ts : List Tlv) (pre old r post : List ℕ)
    → All IsTlv ts
    → length old ≡ sizetlvchain ts
    → length pre + sizetlvchain ts + length r < 65536
    → put_tlvs (cursor pre (old ++ r) post) ts ≡ cursor (pre ++ chain_bytes ts) r post
unfolding put_tlvs sizetlvchain
put_tlvs-cursor [] pre old r post w e fits = rw (nil_of_length old e, append-nil)
put_tlvs-cursor (t ∷ ts) pre old r post w e fits =
    let a = parts old (4 + t.len) (sizetlvchain ts) (omega arith) in
    rw
      (
        a.shape,
        append_assoc a.left a.right r,
        put_tlv-cursor t w.0 post pre a.left (a.right ++ r) a.left_len
            (omega (arith, length-append a.right r)),
      )
      (put_tlvs-cursor ts (pre ++ tlv_bytes t) a.right r post w.1 a.right_len
          (omega (arith, length-append pre (tlv_bytes t), length-tlv_bytes t w.0))
        ∙ ap (λ x. cursor x r post) (append_assoc pre (tlv_bytes t) (chain_bytes ts)))

pub writetlvchain-cursor :
    (ts : List Tlv) (pre old r post : List ℕ)
    → All IsTlv ts
    → length old ≡ sizetlvchain ts
    → length pre + sizetlvchain ts + length r < 65536
    → writetlvchain (cursor pre (old ++ r) post) ts ≡ (1, cursor (pre ++ chain_bytes ts) r post)
unfolding writetlvchain
writetlvchain-cursor ts pre old r post w e fits =
    rw
      (le→ltb (empty (cursor pre (old ++ r) post)) (sizetlvchain ts)
        (omega (arith, empty-cursor pre (old ++ r) post, length-append old r)))
      (ap (λ x. (1, x)) (put_tlvs-cursor ts pre old r post w e fits))

-- Without room for the whole chain nothing is written, and 0 is returned. With room, on a valid
-- stream, 1 is returned; what stood before the offset is followed by exactly the bytes of the chain,
-- and the rest of the room and the memory behind the limit are untouched.
pub writetlvchain_lem :
    (bs : Bstream) (ts : List Tlv)
    → IsValid bs
    → All IsTlv ts
    → writetlvchain bs ts ≡ (
        if ltb (empty bs) (sizetlvchain ts)
        then (0, bs)
        else (1, cursor (front bs ++ chain_bytes ts) (drop (sizetlvchain ts) (rest bs)) (back bs)))
writetlvchain_lem bs ts v w = elim (Bool-cases (ltb (empty bs) (sizetlvchain ts))) [
  | inl full ↦ rw full (unfold writetlvchain in rw full)
  | inr room ↦
      let s = split bs (sizetlvchain ts) v (ltb→le _ _ room) in
      rw room (
        ap (λ x. writetlvchain x ts) s.shape
        ∙ unfold split in writetlvchain-cursor ts s.pre s.old s.r s.post w s.width s.fits)
]
