-- ===== src/Ssi/Entries.antt =====
-- One stored item on the wire, and the item that it is read to.
use libfaim.Prelude.{
  ℕ, ◌+◌, ◌≤◌, ◌<◌, ◌≡◌, refl, ap, ap₂, sym, ◌∙◌, Bool-cases, inl, inr, false, none, some, List, [],
  ◌∷◌, ◌++◌, arith, length, drop, drop-append, length-append, append_assoc, append-nil, All, IsU16,
  ◌==◌, ne→==, ==→eq, ltb, le→ltb, if◌then◌else◌,
}
use libfaim.Prelude.Alloc.{Allocator, Request}
use libfaim.Bstream.{init}
use libfaim.Bstream.View.{cursor, init-front}
use libfaim.Bstream.Words.{be16}
use libfaim.Bstream.Reads.{get16-cursor, getstr-cursor, advance-cursor}
use libfaim.Tlv.{Tlv, IsTlv, readtlvchain}
use libfaim.Tlv.Encoding.{tlv_bytes, chain_bytes, length-be16, length-tlv_bytes}
use libfaim.Tlv.Read.{Grants, readtlvchain-chain}
use mathlib.Core.List.{reverse}
use libfaim.Ssi.{SsiItem, moved, read_name, read_data, with_data, read_item}

-- An item as the server stores it.
pub record Entry : Type 0 where
  pub name : List ℕ
  pub gid : ℕ
  pub bid : ℕ
  pub type : ℕ
  pub tlvs : List Tlv

pub record IsEntry (fuel : ℕ) (e : Entry) : Type 0 where
  pub name_len : IsU16 (length e.name)
  pub gid_u16 : IsU16 e.gid
  pub bid_u16 : IsU16 e.bid
  pub type_u16 : IsU16 e.type
  pub tlvs_fit : All IsTlv e.tlvs
  pub tlvs_few : length e.tlvs < fuel
  pub tlvs_len : IsU16 (length (chain_bytes e.tlvs))

abbrev pub entry_bytes : Entry → List ℕ
entry_bytes e =
    be16 (length e.name)
    ++ (e.name
        ++ (be16 e.gid
            ++ (be16 e.bid
                ++ (be16 e.type ++ (be16 (length (chain_bytes e.tlvs)) ++ chain_bytes e.tlvs)))))

abbrev pub entries_bytes : List Entry → List ℕ
entries_bytes [] = []
entries_bytes (e ∷ es) = entry_bytes e ++ entries_bytes es

-- The item that the client is given: no name or a string with its NUL, and the chain in reverse.
abbrev pub told_item : Entry → SsiItem
told_item e = record {
  name = if length e.name == 0 then none else some (e.name ++ 0 ∷ []);
  gid = e.gid;
  bid = e.bid;
  type = e.type;
  data_chain = reverse e.tlvs;
}

abbrev pub told_items : List Entry → List SsiItem
told_items [] = []
told_items (e ∷ es) = told_item e ∷ told_items es

nil_len : {A : Type 0} (xs : List A) → length xs ≡ 0 → xs ≡ []
nil_len [] h = refl
nil_len (x ∷ xs) h = absurd (omega (arith, h))

pub entry-len :
    (e : Entry) → length (entry_bytes e) ≡ 10 + length e.name + length (chain_bytes e.tlvs)
entry-len e =
    let cs = chain_bytes e.tlvs in
    let y5 = be16 (length cs) ++ cs in
    let y4 = be16 e.type ++ y5 in
    let y3 = be16 e.bid ++ y4 in
    let y2 = be16 e.gid ++ y3 in
    omega (
      arith,
      length-append (be16 (length e.name)) (e.name ++ y2),
      length-append e.name y2,
      length-append (be16 e.gid) y3,
      length-append (be16 e.bid) y4,
      length-append (be16 e.type) y5,
      length-append (be16 (length cs)) cs,
      length-be16 (length e.name),
      length-be16 e.gid,
      length-be16 e.bid,
      length-be16 e.type,
      length-be16 (length cs),
    )

module _ (malloc : Allocator) (grants : Grants malloc) (post : List ℕ) where
  read_name-cursor :
      (name pre r : List ℕ)
      → IsU16 (length name)
      → length pre + 2 + length name + length r < 65536
      → read_name malloc (cursor pre (be16 (length name) ++ (name ++ r)) post) ≡ (
        if length name == 0 then none else some (name ++ 0 ∷ []),
        cursor ((pre ++ be16 (length name)) ++ name) r post,
      )
  unfolding read_name
  read_name-cursor name pre r h fits =
      let g =
        get16-cursor pre (name ++ r) post (length name) h
          (omega (arith, fits, length-append name r)) in
      rw (g, read_name)
        (elim (Bool-cases (length name == 0)) [
          | inl z ↦ rw z (
              let b = pre ++ be16 (length name) in
              let none_left : name ≡ [] = nil_len name (==→eq (length name) 0 z) in
              ap₂ (λ p x. (none, cursor p x post))
                (sym (append-nil b) ∙ ap (λ x. b ++ x) (sym none_left))
                (ap (λ x. x ++ r) none_left))
          | inr nz ↦ rw nz (
              getstr-cursor (pre ++ be16 (length name)) name r post
                (omega
                  (arith, fits, length-append pre (be16 (length name)), length-be16 (length name)))
                malloc (length name) refl (grants (Request.bytes (length name + 1))))
        ])

  read_data-cursor :
      (fuel : ℕ) (ts : List Tlv) (pre r : List ℕ)
      → All IsTlv ts
      → length ts < fuel
      → length pre + length (chain_bytes ts) + length r < 65536
      → read_data malloc fuel (length (chain_bytes ts)) (cursor pre (chain_bytes ts ++ r) post)
        ≡ moved (reverse ts) (cursor (pre ++ chain_bytes ts) r post)
  unfolding read_data
  read_data-cursor fuel [] pre r w enough fits =
      ap (λ p. moved [] (cursor p r post)) (sym (append-nil pre))
  read_data-cursor fuel (t ∷ ts) pre r w enough fits =
      let cs = chain_bytes (t ∷ ts) in
      let n = length cs in
      let some_bytes : 4 ≤ n =
        omega (arith, length-append (tlv_bytes t) (chain_bytes ts), length-tlv_bytes t w.0) in
      let memory : drop (length pre) (pre ++ ((cs ++ r) ++ post)) ≡ cs ++ (r ++ post) =
        drop-append (length pre) pre ((cs ++ r) ++ post) refl ∙ append_assoc cs r post in
      let enough_memory : ltb (length (drop (length pre) (pre ++ ((cs ++ r) ++ post)))) n ≡ false =
        ap (λ m. ltb (length m) n) memory
        ∙ le→ltb (length (cs ++ (r ++ post))) n (omega (arith, length-append cs (r ++ post))) in
      let inner = init-front cs (r ++ post) (omega (arith, fits)) in
      let chain =
        ap (λ m. readtlvchain malloc fuel (init m n)) memory
        ∙ ap (readtlvchain malloc fuel) inner
        ∙ readtlvchain-chain malloc grants [] (r ++ post) (t ∷ ts) w fuel (omega (arith, fits))
            enough in
      rw (ne→== n 0 (omega (arith, some_bytes)), read_data)
        (rw (enough_memory, read_data)
          (rw (chain, read_data)
            (ap (moved (reverse (t ∷ ts))) (advance-cursor pre cs r post fits))))

  pub read_item-cursor :
      (fuel : ℕ) (e : Entry) (pre r : List ℕ)
      → IsEntry fuel e
      → length pre + length (entry_bytes e) + length r < 65536
      → read_item malloc fuel (cursor pre (entry_bytes e ++ r) post)
        ≡ moved (told_item e) (cursor (pre ++ entry_bytes e) r post)
  unfolding read_item with_data
  read_item-cursor fuel e pre r w fits =
      let cs = chain_bytes e.tlvs in
      let a = be16 (length e.name) in
      let n = be16 (length cs) in
      let x4 = n ++ (cs ++ r) in
      let x3 = be16 e.type ++ x4 in
      let x2 = be16 e.bid ++ x3 in
      let x1 = be16 e.gid ++ x2 in
      let p1 = (pre ++ a) ++ e.name in
      let p2 = p1 ++ be16 e.gid in
      let p3 = p2 ++ be16 e.bid in
      let p4 = p3 ++ be16 e.type in
      let p5 = p4 ++ n in
      let shape : entry_bytes e ++ r ≡ a ++ (e.name ++ x1) = simp append_assoc in
      let behind : p5 ++ cs ≡ pre ++ entry_bytes e = simp append_assoc in
      let whole : length (entry_bytes e) ≡ 10 + length e.name + length cs = entry-len e in
      let lx4 : length x4 ≡ 2 + length cs + length r =
        omega (arith, length-append n (cs ++ r), length-append cs r, length-be16 (length cs)) in
      let lx3 : length x3 ≡ 4 + length cs + length r =
        omega (arith, lx4, length-append (be16 e.type) x4, length-be16 e.type) in
      let lx2 : length x2 ≡ 6 + length cs + length r =
        omega (arith, lx3, length-append (be16 e.bid) x3, length-be16 e.bid) in
      let lx1 : length x1 ≡ 8 + length cs + length r =
        omega (arith, lx2, length-append (be16 e.gid) x2, length-be16 e.gid) in
      let lp1 : length p1 ≡ length pre + 2 + length e.name = omega (
        arith,
        length-append (pre ++ a) e.name,
        length-append pre a,
        length-be16 (length e.name),
      ) in
      let lp2 : length p2 ≡ length p1 + 2 =
        omega (arith, length-append p1 (be16 e.gid), length-be16 e.gid) in
      let lp3 : length p3 ≡ length p1 + 4 =
        omega (arith, lp2, length-append p2 (be16 e.bid), length-be16 e.bid) in
      let lp4 : length p4 ≡ length p1 + 6 =
        omega (arith, lp3, length-append p3 (be16 e.type), length-be16 e.type) in
      let lp5 : length p5 ≡ length p1 + 8 =
        omega (arith, lp4, length-append p4 n, length-be16 (length cs)) in
      let g0 = read_name-cursor e.name pre x1 w.name_len (omega (arith, fits, whole, lx1)) in
      let g1 = get16-cursor p1 x2 post e.gid w.gid_u16 (omega (arith, fits, whole, lx2, lp1)) in
      let g2 =
        get16-cursor p2 x3 post e.bid w.bid_u16 (omega (arith, fits, whole, lx3, lp1, lp2)) in
      let g3 =
        get16-cursor p3 x4 post e.type w.type_u16 (omega (arith, fits, whole, lx4, lp1, lp3)) in
      let g4 =
        get16-cursor p4 (cs ++ r) post (length cs) w.tlvs_len
          (omega (arith, fits, whole, length-append cs r, lp1, lp4)) in
      let g5 =
        read_data-cursor fuel e.tlvs p5 r w.tlvs_fit w.tlvs_few
          (omega (arith, fits, whole, lp1, lp5)) in
      ap (λ b. read_item malloc fuel (cursor pre b post)) shape
      ∙ rw (g0, read_item)
          (rw (g1, read_item)
            (rw (g2, read_item)
              (rw (g3, read_item)
                (rw (g4, read_item)
                  (rw (g5, read_item) (ap (λ p. moved (told_item e) (cursor p r post)) behind))))))
