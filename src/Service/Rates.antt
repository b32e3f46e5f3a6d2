-- ===== src/Service/Rates.antt =====
-- The rate parameters: what the reading makes of the server's bytes.
use libfaim.Prelude.{
  ℕ, ◌+◌, ◌≤◌, ◌<◌, ◌≡◌, ◌≢◌, refl, ap, ap₂, sym, ◌∙◌, some, List, [], ◌∷◌, ◌++◌, arith, length,
  length-append, append_assoc, append-nil, All, IsU16, IsU32, le→ltb, ne→==, ==-refl,
}
use libfaim.Prelude.Alloc.{Allocator, Request}
use libfaim.Bstream.{get16}
use libfaim.Bstream.View.{cursor}
use libfaim.Bstream.Words.{be16, be32}
use libfaim.Bstream.Reads.{get16-cursor, get32-cursor, copy_out-cursor}
use libfaim.Tlv.Encoding.{length-be16}
use libfaim.Tlv.Read.{Grants}
use libfaim.Service.{
  Rateclass, rc_addclass, rc_findclass, rc_addpair, set_class, read_class, read_classes, read_pairs,
}

-- The bytes of a class's parameters, of the pairs of a class, and of the whole.
abbrev pub class_bytes : Rateclass → List ℕ
class_bytes rc =
    be16 rc.classid
    ++ (be32 rc.windowsize
        ++ (be32 rc.clear
            ++ (be32 rc.alert
                ++ (be32 rc.limit
                    ++ (be32 rc.disconnect ++ (be32 rc.current ++ (be32 rc.max ++ rc.unknown)))))))

abbrev pub classes_bytes : List Rateclass → List ℕ
classes_bytes [] = []
classes_bytes (rc ∷ rest) = class_bytes rc ++ classes_bytes rest

abbrev pub pairs_bytes : List (ℕ × ℕ) → List ℕ
pairs_bytes [] = []
pairs_bytes (p ∷ ps) = be16 p.0 ++ (be16 p.1 ++ pairs_bytes ps)

abbrev pub members_bytes : List Rateclass → List ℕ
members_bytes [] = []
members_bytes (rc ∷ rest) =
    be16 rc.classid ++ (be16 (length rc.members) ++ (pairs_bytes rc.members ++ members_bytes rest))

abbrev pub rates_bytes : List Rateclass → List ℕ
rates_bytes cls = be16 (length cls) ++ (classes_bytes cls ++ members_bytes cls)

-- A class whose fields fit the wire.
pub record IsClass (rc : Rateclass) : Type 0 where
  pub classid_u16 : IsU16 rc.classid
  pub windowsize_u32 : IsU32 rc.windowsize
  pub clear_u32 : IsU32 rc.clear
  pub alert_u32 : IsU32 rc.alert
  pub limit_u32 : IsU32 rc.limit
  pub disconnect_u32 : IsU32 rc.disconnect
  pub current_u32 : IsU32 rc.current
  pub max_u32 : IsU32 rc.max
  pub unknown_len : length rc.unknown ≡ 5
  pub members_len : IsU16 (length rc.members)
  pub members_u16 : All (λ p. IsU16 p.0 × IsU16 p.1) rc.members

-- No two classes share an id.
abbrev pub Others : List Rateclass → Rateclass → Type 0
Others cls rc = All (λ d. d.classid ≢ rc.classid) cls

abbrev pub AreDistinct : List Rateclass → Type 0
AreDistinct [] = Unit {0}
AreDistinct (rc ∷ rest) = All (λ d. rc.classid ≢ d.classid) rest × AreDistinct rest

abbrev pub bare : List Rateclass → List Rateclass
bare [] = []
bare (rc ∷ rest) = record rc { members = [] } ∷ bare rest

length-be32 : (v : ℕ) → length (be32 v) ≡ 4
unfolding be32
length-be32 v = refl

length-class_bytes : (rc : Rateclass) → IsClass rc → length (class_bytes rc) ≡ 35
unfolding be16 be32
length-class_bytes rc w = omega (arith, w.unknown_len)

read_class-cursor :
    (version : ℕ) (rc : Rateclass) (pre r post : List ℕ)
    → 3 ≤ version
    → IsClass rc
    → length pre + 35 + length r < 65536
    → read_class version (cursor pre (class_bytes rc ++ r) post)
      ≡ (record rc { members = [] }, cursor (pre ++ class_bytes rc) r post)
unfolding read_class
read_class-cursor version rc pre r post new w fits =
    let x9 = rc.unknown ++ r in
    let x8 = be32 rc.max ++ x9 in
    let x7 = be32 rc.current ++ x8 in
    let x6 = be32 rc.disconnect ++ x7 in
    let x5 = be32 rc.limit ++ x6 in
    let x4 = be32 rc.alert ++ x5 in
    let x3 = be32 rc.clear ++ x4 in
    let x2 = be32 rc.windowsize ++ x3 in
    let p1 = pre ++ be16 rc.classid in
    let l1 : length p1 ≡ length pre + 2 =
      omega (arith, length-append pre (be16 rc.classid), length-be16 rc.classid) in
    let p2 = p1 ++ be32 rc.windowsize in
    let l2 : length p2 ≡ length pre + 6 =
      omega (arith, l1, length-append p1 (be32 rc.windowsize), length-be32 rc.windowsize) in
    let p3 = p2 ++ be32 rc.clear in
    let l3 : length p3 ≡ length pre + 10 =
      omega (arith, l2, length-append p2 (be32 rc.clear), length-be32 rc.clear) in
    let p4 = p3 ++ be32 rc.alert in
    let l4 : length p4 ≡ length pre + 14 =
      omega (arith, l3, length-append p3 (be32 rc.alert), length-be32 rc.alert) in
    let p5 = p4 ++ be32 rc.limit in
    let l5 : length p5 ≡ length pre + 18 =
      omega (arith, l4, length-append p4 (be32 rc.limit), length-be32 rc.limit) in
    let p6 = p5 ++ be32 rc.disconnect in
    let l6 : length p6 ≡ length pre + 22 =
      omega (arith, l5, length-append p5 (be32 rc.disconnect), length-be32 rc.disconnect) in
    let p7 = p6 ++ be32 rc.current in
    let l7 : length p7 ≡ length pre + 26 =
      omega (arith, l6, length-append p6 (be32 rc.current), length-be32 rc.current) in
    let p8 = p7 ++ be32 rc.max in
    let l8 : length p8 ≡ length pre + 30 =
      omega (arith, l7, length-append p7 (be32 rc.max), length-be32 rc.max) in
    let m9 : length x9 ≡ 5 + length r = omega (arith, length-append rc.unknown r, w.unknown_len) in
    let m8 : length x8 ≡ 9 + length r =
      omega (arith, m9, length-append (be32 rc.max) x9, length-be32 rc.max) in
    let m7 : length x7 ≡ 13 + length r =
      omega (arith, m8, length-append (be32 rc.current) x8, length-be32 rc.current) in
    let m6 : length x6 ≡ 17 + length r =
      omega (arith, m7, length-append (be32 rc.disconnect) x7, length-be32 rc.disconnect) in
    let m5 : length x5 ≡ 21 + length r =
      omega (arith, m6, length-append (be32 rc.limit) x6, length-be32 rc.limit) in
    let m4 : length x4 ≡ 25 + length r =
      omega (arith, m5, length-append (be32 rc.alert) x5, length-be32 rc.alert) in
    let m3 : length x3 ≡ 29 + length r =
      omega (arith, m4, length-append (be32 rc.clear) x4, length-be32 rc.clear) in
    let m2 : length x2 ≡ 33 + length r =
      omega (arith, m3, length-append (be32 rc.windowsize) x3, length-be32 rc.windowsize) in
    let shape : class_bytes rc ++ r ≡ be16 rc.classid ++ x2 = simp append_assoc in
    let behind : p8 ++ rc.unknown ≡ pre ++ class_bytes rc = simp append_assoc in
    let g1 =
      ap get16 (ap (λ b. cursor pre b post) shape)
      ∙ get16-cursor pre x2 post rc.classid w.classid_u16 (omega (arith, m2, fits)) in
    let g2 = get32-cursor p1 x3 post rc.windowsize w.windowsize_u32 (omega (arith, l1, m3, fits)) in
    let g3 = get32-cursor p2 x4 post rc.clear w.clear_u32 (omega (arith, l2, m4, fits)) in
    let g4 = get32-cursor p3 x5 post rc.alert w.alert_u32 (omega (arith, l3, m5, fits)) in
    let g5 = get32-cursor p4 x6 post rc.limit w.limit_u32 (omega (arith, l4, m6, fits)) in
    let g6 = get32-cursor p5 x7 post rc.disconnect w.disconnect_u32 (omega (arith, l5, m7, fits)) in
    let g7 = get32-cursor p6 x8 post rc.current w.current_u32 (omega (arith, l6, m8, fits)) in
    let g8 = get32-cursor p7 x9 post rc.max w.max_u32 (omega (arith, l7, m9, fits)) in
    let g9 =
      copy_out-cursor p8 rc.unknown r post (omega (arith, l8, w.unknown_len, fits)) 5
        (sym w.unknown_len) in
    let is_new = le→ltb version 3 new in
    rw g1 (
      rw g2 (
        rw g3 (
          rw g4 (
            rw g5 (
              rw g6 (
                rw g7 (
                  rw g8 (
                    rw g9 (
                      rw is_new
                        (ap (λ t. (record rc { members = [] }, cursor t r post)) behind))))))))))

set_class-append :
    (before rest : List Rateclass) (rc : Rateclass) (f : Rateclass → Rateclass)
    → set_class (length before) f (before ++ rc ∷ rest) ≡ before ++ f rc ∷ rest
unfolding set_class
set_class-append [] rest rc f = refl
set_class-append (d ∷ before) rest rc f = ap (λ t. d ∷ t) (set_class-append before rest rc f)

pub rc_findclass-append :
    (before rest : List Rateclass) (rc : Rateclass)
    → Others before rc
    → rc_findclass (before ++ rc ∷ rest) rc.classid ≡ some (length before)
unfolding rc_findclass
rc_findclass-append [] rest rc h = rw (==-refl rc.classid, rc_findclass) refl
rc_findclass-append (d ∷ before) rest rc h =
    rw (ne→== d.classid rc.classid h.0, rc_findclass)
      (rw (rc_findclass-append before rest rc h.1) refl)

module _ (malloc : Allocator) (grants : Grants malloc) where
  pub read_classes-cursor :
      (version : ℕ) (cls : List Rateclass) (rates : List Rateclass) (pre r post : List ℕ)
      → 3 ≤ version
      → All IsClass cls
      → length pre + length (classes_bytes cls) + length r < 65536
      → read_classes malloc version (length cls) (cursor pre (classes_bytes cls ++ r) post) rates
        ≡ (rates ++ bare cls, cursor (pre ++ classes_bytes cls) r post)
  unfolding read_classes rc_addclass
  read_classes-cursor version [] rates pre r post new w fits =
      ap₂ (λ (a : List Rateclass) b. (a, cursor b r post)) (sym (append-nil rates))
        (sym (append-nil pre))
  read_classes-cursor version (rc ∷ cls) rates pre r post new w fits =
      let x = class_bytes rc in
      let xs = classes_bytes cls in
      let lx = length-class_bytes rc w.0 in
      let la = length-append x xs in
      let one =
        ap (λ b. read_class version (cursor pre b post)) (append_assoc x xs r)
        ∙ read_class-cursor version rc pre (xs ++ r) post new w.0
            (omega (arith, fits, la, lx, length-append xs r)) in
      let bare_rc : Rateclass = record rc { members = [] } in
      rw (one, read_classes)
        (rw (grants Request.rateclass) (
          read_classes-cursor version cls (rates ++ bare_rc ∷ []) (pre ++ x) r post new w.1
            (omega (arith, fits, la, length-append pre x))
          ∙ ap₂ (λ (a : List Rateclass) b. (a, cursor b r post))
              (append_assoc rates (bare_rc ∷ []) (bare cls)) (append_assoc pre x xs)))

  pub read_pairs-cursor :
      (ps : List (ℕ × ℕ)) (before rest : List Rateclass) (rc : Rateclass) (pre r post : List ℕ)
      → All (λ p. IsU16 p.0 × IsU16 p.1) ps
      → length pre + length (pairs_bytes ps) + length r < 65536
      → read_pairs malloc
          (some (length before))
          (length ps)
          (cursor pre (pairs_bytes ps ++ r) post)
          (before ++ rc ∷ rest)
        ≡ (
          before ++ record rc { members = rc.members ++ ps } ∷ rest,
          cursor (pre ++ pairs_bytes ps) r post,
        )
  unfolding read_pairs rc_addpair
  read_pairs-cursor [] before rest rc pre r post h fits =
      ap₂ (λ (m : List (ℕ × ℕ)) b. (before ++ record rc { members = m } ∷ rest, cursor b r post))
        (sym (append-nil rc.members)) (sym (append-nil pre))
  read_pairs-cursor (p ∷ ps) before rest rc pre r post h fits =
      let a = be16 p.0 in
      let b = be16 p.1 in
      let xs = pairs_bytes ps in
      let la = length-be16 p.0 in
      let lb = length-be16 p.1 in
      let l1 = length-append a (b ++ xs) in
      let l2 = length-append b xs in
      let l3 = length-append xs r in
      let shape : pairs_bytes (p ∷ ps) ++ r ≡ a ++ (b ++ (xs ++ r)) = simp append_assoc in
      let behind : ((pre ++ a) ++ b) ++ xs ≡ pre ++ pairs_bytes (p ∷ ps) = simp append_assoc in
      let g1 =
        ap get16 (ap (λ t. cursor pre t post) shape)
        ∙ get16-cursor pre (b ++ (xs ++ r)) post p.0 h.0.0
            (omega (arith, fits, l1, l2, l3, la, lb, length-append b (xs ++ r))) in
      let g2 =
        get16-cursor (pre ++ a) (xs ++ r) post p.1 h.0.1
          (omega (arith, fits, l1, l2, l3, la, lb, length-append pre a)) in
      let rc' : Rateclass = record rc { members = rc.members ++ p ∷ [] } in
      rw (g1, read_pairs)
        (rw (g2, read_pairs)
          (rw (set_class-append before rest rc (rc_addpair malloc p.0 p.1)) (
            rw (grants Request.snacpair) (
              read_pairs-cursor ps before rest rc' ((pre ++ a) ++ b) r post h.1 (
                omega
                  (arith, fits, l1, l2, la, lb, length-append pre a, length-append (pre ++ a) b))
              ∙ ap₂
                  (λ (m : List (ℕ × ℕ)) t.
                    (before ++ record rc { members = m } ∷ rest, cursor t r post))
                  (append_assoc rc.members (p ∷ []) ps) behind))))
