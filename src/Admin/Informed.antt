-- ===== src/Admin/Informed.antt =====
-- What the client hears of a frame of infochange, and the frames that it never ends with.
use libfaim.Prelude.{
  ℕ, zero, suc, ◌+◌, ◌<◌, ◌≡◌, refl, ap, Bool-cases, inl, inr, sym, ◌∙◌, some, List, [], ◌∷◌, ◌++◌,
  arith, length, length-append, append_assoc, append-nil, All, IsU16, ◌==◌, ne→==, if◌then◌else◌,
}
use libfaim.Prelude.Alloc.{Allocator, Request}
use libfaim.Prelude.Int.{pos}
use libfaim.Bstream.{Bstream, empty, getraw, getstr}
use libfaim.Bstream.View.{cursor, empty-cursor}
use libfaim.Bstream.Words.{be16}
use libfaim.Bstream.Reads.{get16-cursor, get16_short, getraw-cursor, getstr-cursor}
use libfaim.Session.{Handler}
use libfaim.Rxhandlers.{Modsnac}
use libfaim.Tlv.{Tlv, IsTlv}
use libfaim.Tlv.Encoding.{
  tlv_bytes, chain_bytes, length-be16, length-tlv_bytes, tlv_bytes-append, pre-append,
}
use libfaim.Tlv.Read.{Grants}
use libfaim.Parsing.{answered, unending, Client}
use libfaim.Admin.{Informing, is_str, inform, inform_elements, infochange}

-- A piece of information: the permissions and the elements.
pub record Info : Type 0 where
  pub perms : ℕ
  pub tlvs : List Tlv

pub record IsInfo (i : Info) : Type 0 where
  pub perms_u16 : IsU16 i.perms
  pub count_u16 : IsU16 (length i.tlvs)
  pub tlvs_fit : All IsTlv i.tlvs

abbrev pub info_bytes : Info → List ℕ
info_bytes i = be16 i.perms ++ (be16 (length i.tlvs) ++ chain_bytes i.tlvs)

abbrev pub infos_bytes : List Info → List ℕ
infos_bytes [] = []
infos_bytes (i ∷ is) = info_bytes i ++ infos_bytes is

-- What the client is told of an element; a string has its NUL.
abbrev pub told : Modsnac → (perms : ℕ) → Tlv → Informing
told snac perms t = record {
  change = snac.subtype == 0x0005;
  perms = perms;
  type = t.type;
  len = t.len;
  val = some (if is_str t.type then t.value ++ 0 ∷ [] else t.value);
  str = is_str t.type;
}

module _ {S : Type 0} (malloc : Allocator) (handlers : List Handler) (snac : Modsnac)
    (client : Client Informing S) where
  abbrev tell_tlvs : (perms : ℕ) → List Tlv → S → S
  tell_tlvs perms [] s = s
  tell_tlvs perms (t ∷ ts) s =
      tell_tlvs perms ts (inform malloc handlers snac client (told snac perms t) s)

  -- The calls of the client, in the order of the elements.
  abbrev pub tell_infos : List Info → S → S
  tell_infos [] s = s
  tell_infos (i ∷ is) s = tell_infos is (tell_tlvs i.perms i.tlvs s)

module _ {S : Type 0} (malloc : Allocator) (grants : Grants malloc) (handlers : List Handler)
    (snac : Modsnac) (client : Client Informing S) (post : List ℕ) where
  value-cursor :
      (t : Tlv) (pre r : List ℕ)
      → IsTlv t
      → length pre + t.len + length r < 65536
      → (if is_str t.type
          then getstr malloc (cursor pre (t.value ++ r) post) t.len
          else getraw malloc (cursor pre (t.value ++ r) post) t.len)
        ≡ (
          some (if is_str t.type then t.value ++ 0 ∷ [] else t.value),
          cursor (pre ++ t.value) r post,
        )
  value-cursor t pre r w fits =
      let room : length pre + length t.value + length r < 65536 = omega (arith, w.len_lem, fits) in
      let e = sym w.len_lem in
      elim (Bool-cases (is_str t.type)) [
        | inl h ↦ rw h (
            getstr-cursor pre t.value r post room malloc t.len e
              (grants (Request.bytes (t.len + 1))))
        | inr h ↦
            rw h
              (getraw-cursor pre t.value r post room malloc t.len e (grants (Request.bytes t.len)))
      ]

  elements-cursor :
      (perms : ℕ) (ts : List Tlv) (pre r : List ℕ) (s : S)
      → All IsTlv ts
      → length pre + length (chain_bytes ts) + length r < 65536
      → inform_elements malloc handlers snac client perms
          (length ts)
          (cursor pre (chain_bytes ts ++ r) post)
          s
        ≡ (cursor (pre ++ chain_bytes ts) r post, tell_tlvs malloc handlers snac client perms ts s)
  unfolding inform_elements
  elements-cursor perms [] pre r s w fits = ap (λ p. (cursor p r post, s)) (sym (append-nil pre))
  elements-cursor perms (t ∷ ts) pre r s w fits =
      let xs = chain_bytes ts ++ r in
      let shape : chain_bytes (t ∷ ts) ++ r ≡ be16 t.type ++ (be16 t.len ++ (t.value ++ xs)) =
        append_assoc (tlv_bytes t) (chain_bytes ts) r ∙ tlv_bytes-append t xs in
      let lt = length-tlv_bytes t w.0 in
      let l1 = length-append (tlv_bytes t) (chain_bytes ts) in
      let l2 = length-append (chain_bytes ts) r in
      let l3 = length-append t.value xs in
      let l4 = length-append (be16 t.len) (t.value ++ xs) in
      let la = length-be16 t.type in
      let ln = length-be16 t.len in
      let p1 = length-append pre (be16 t.type) in
      let p2 = length-append (pre ++ be16 t.type) (be16 t.len) in
      let lv = w.0.len_lem in
      let g1 =
        get16-cursor pre (be16 t.len ++ (t.value ++ xs)) post t.type w.0.type_u16
          (omega (arith, fits, lt, l1, l2, l3, l4, la, ln, lv)) in
      let g2 =
        get16-cursor (pre ++ be16 t.type) (t.value ++ xs) post t.len w.0.len_u16
          (omega (arith, fits, lt, l1, l2, l3, la, lv, p1)) in
      let g3 =
        value-cursor t ((pre ++ be16 t.type) ++ be16 t.len) xs w.0
          (omega (arith, fits, lt, l1, l2, la, ln, lv, p1, p2)) in
      let full =
        ne→== (empty (cursor pre (be16 t.type ++ (be16 t.len ++ (t.value ++ xs))) post)) 0 (
          omega (
            arith,
            empty-cursor pre (be16 t.type ++ (be16 t.len ++ (t.value ++ xs))) post,
            length-append (be16 t.type) (be16 t.len ++ (t.value ++ xs)),
            la,
          )) in
      rw shape (
        rw (full, inform_elements)
          (rw (g1, inform_elements)
            (rw (g2, inform_elements)
              (rw (g3, inform_elements)
                (rw (pre-append pre t) (
                  elements-cursor perms ts (pre ++ tlv_bytes t) r
                    (inform malloc handlers snac client (told snac perms t) s) w.1
                    (omega (arith, fits, lt, l1, length-append pre (tlv_bytes t)))
                  ∙ ap
                      (λ p.
                        (cursor p r post, tell_tlvs malloc handlers snac client perms (t ∷ ts) s))
                      (append_assoc pre (tlv_bytes t) (chain_bytes ts))))))))

  -- One piece of information.
  infochange-info :
      (rounds : ℕ) (i : Info) (pre r : List ℕ) (s : S)
      → IsInfo i
      → length pre + length (info_bytes i) + length r < 65536
      → infochange malloc handlers snac client (suc rounds) (cursor pre (info_bytes i ++ r) post) s
        ≡ infochange malloc handlers snac client rounds
            (cursor (pre ++ info_bytes i) r post)
            (tell_tlvs malloc handlers snac client i.perms i.tlvs s)
  unfolding infochange
  infochange-info rounds i pre r s w fits =
      let n = length i.tlvs in
      let cs = chain_bytes i.tlvs in
      let xs = be16 n ++ (cs ++ r) in
      let shape : info_bytes i ++ r ≡ be16 i.perms ++ xs = simp append_assoc in
      let behind : ((pre ++ be16 i.perms) ++ be16 n) ++ cs ≡ pre ++ info_bytes i =
        simp append_assoc in
      let l1 = length-append (be16 i.perms) (be16 n ++ cs) in
      let l2 = length-append (be16 n) cs in
      let l3 = length-append cs r in
      let l4 = length-append (be16 n) (cs ++ r) in
      let la = length-be16 i.perms in
      let ln = length-be16 n in
      let p1 = length-append pre (be16 i.perms) in
      let p2 = length-append (pre ++ be16 i.perms) (be16 n) in
      let full = ne→== (empty (cursor pre (be16 i.perms ++ xs) post)) 0 (
        omega (
          arith,
          empty-cursor pre (be16 i.perms ++ xs) post,
          length-append (be16 i.perms) xs,
          la,
        )) in
      let g1 =
        get16-cursor pre xs post i.perms w.perms_u16
          (omega (arith, fits, l1, l2, l3, l4, la, ln)) in
      let g2 =
        get16-cursor (pre ++ be16 i.perms) (cs ++ r) post n w.count_u16
          (omega (arith, fits, l1, l2, l3, la, ln, p1)) in
      let g3 =
        elements-cursor i.perms i.tlvs ((pre ++ be16 i.perms) ++ be16 n) r s w.tlvs_fit
          (omega (arith, fits, l1, l2, la, ln, p1, p2)) in
      ap (λ b. infochange malloc handlers snac client (suc rounds) (cursor pre b post) s) shape
      ∙ rw (full, infochange)
          (rw (g1, infochange)
            (rw (g2, infochange)
              (rw (g3, infochange)
                (ap
                  (λ p.
                    infochange malloc handlers snac client rounds (cursor p r post)
                      (tell_tlvs malloc handlers snac client i.perms i.tlvs s))
                  behind))))

  -- One byte that is left is not read.
  infochange-byte :
      (rounds : ℕ) (bs : Bstream) (s : S)
      → empty bs ≡ 1
      → infochange malloc handlers snac client rounds bs s ≡ unending
  unfolding infochange inform_elements
  infochange-byte zero bs s h = refl
  infochange-byte (suc rounds) bs s h =
      let full = ne→== (empty bs) 0 (omega (arith, h)) in
      let kept = get16_short bs (omega (arith, h)) in
      rw (full, infochange)
        (rw (kept, infochange) (rw (kept, infochange) (infochange-byte rounds bs s h)))

  infochange-all :
      (rounds : ℕ) (is : List Info) (pre : List ℕ) (s : S)
      → length is < rounds
      → All IsInfo is
      → length pre + length (infos_bytes is) < 65536
      → infochange malloc handlers snac client rounds (cursor pre (infos_bytes is) post) s
        ≡ answered (pos 1) (tell_infos malloc handlers snac client is s)
  unfolding infochange
  infochange-all zero is pre s enough w fits = absurd (omega arith)
  infochange-all (suc rounds) [] pre s enough w fits =
      rw (empty-cursor pre [] post, infochange) refl
  infochange-all (suc rounds) (i ∷ is) pre s enough w fits =
      let l1 = length-append (info_bytes i) (infos_bytes is) in
      infochange-info rounds i pre (infos_bytes is) s w.0 (omega (arith, fits, l1))
      ∙ infochange-all rounds is (pre ++ info_bytes i)
          (tell_tlvs malloc handlers snac client i.perms i.tlvs s) (omega (arith, enough)) w.1
          (omega (arith, fits, l1, length-append pre (info_bytes i)))

  infochange-odd :
      (rounds : ℕ) (is : List Info) (pre : List ℕ) (x : ℕ) (s : S)
      → All IsInfo is
      → length pre + length (infos_bytes is) + 1 < 65536
      → infochange malloc handlers snac client rounds (cursor pre (infos_bytes is ++ x ∷ []) post) s
        ≡ unending
  infochange-odd rounds [] pre x s w fits =
      infochange-byte rounds (cursor pre (x ∷ []) post) s (empty-cursor pre (x ∷ []) post)
  infochange-odd zero (i ∷ is) pre x s w fits = unfold infochange in refl
  infochange-odd (suc rounds) (i ∷ is) pre x s w fits =
      let l1 = length-append (info_bytes i) (infos_bytes is) in
      let l2 = length-append (infos_bytes is) (x ∷ []) in
      ap (λ b. infochange malloc handlers snac client (suc rounds) (cursor pre b post) s)
        (append_assoc (info_bytes i) (infos_bytes is) (x ∷ []))
      ∙ infochange-info rounds i pre (infos_bytes is ++ x ∷ []) s w.0 (omega (arith, fits, l1, l2))
      ∙ infochange-odd rounds is (pre ++ info_bytes i) x
          (tell_tlvs malloc handlers snac client i.perms i.tlvs s) w.1
          (omega (arith, fits, l1, length-append pre (info_bytes i)))

  -- With memory granted, of a frame that holds any number of well-formed pieces of information the
  -- client is told each element, in their order, a string with a NUL behind it, and the result is 1, with
  -- more rounds allowed than there are pieces. But with one more byte behind them no number of rounds
  -- ends the loop.
  pub infochange_lem :
      (enough rounds : ℕ) (is : List Info) (pre : List ℕ) (x : ℕ) (s : S)
      → length is < enough
      → All IsInfo is
      → length pre + length (infos_bytes is) + 1 < 65536
      → (infochange malloc handlers snac client enough (cursor pre (infos_bytes is) post) s
          ≡ answered (pos 1) (tell_infos malloc handlers snac client is s))
        × (infochange malloc handlers snac client rounds
              (cursor pre (infos_bytes is ++ x ∷ []) post)
              s
            ≡ unending)
  infochange_lem enough rounds is pre x s more w fits =
      (infochange-all enough is pre s more w (omega arith), infochange-odd rounds is pre x s w fits)
