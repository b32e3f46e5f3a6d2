-- ===== src/Ssi/Items.antt =====
-- A stored list on the wire, and what the client is told of it.
use libfaim.Prelude.{
  ℕ, zero, suc, ◌+◌, ◌<◌, ◌≡◌, refl, ap, sym, ◌∙◌, List, [], ◌∷◌, ◌++◌, arith, length,
  length-append, append_assoc, append-nil, All, IsU16, IsU32, lt→ltb, le→ltb,
}
use libfaim.Prelude.Alloc.{Allocator, Request}
use libfaim.Prelude.Int.{pos}
use libfaim.Bstream.{empty, get32}
use libfaim.Bstream.View.{cursor, empty-cursor}
use libfaim.Bstream.Words.{be8, be16, be32}
use libfaim.Bstream.Reads.{get8-cursor, get16-cursor, get32-cursor}
use libfaim.Flap.{length-be8}
use libfaim.Session.{Handler}
use libfaim.Rxhandlers.{Modsnac}
use libfaim.Tlv.Encoding.{length-be16}
use libfaim.Tlv.Read.{Grants}
use libfaim.Parsing.{Client, tell}
use libfaim.Ssi.{SsiItem, moved, in_front, read_items, parsedata}
use libfaim.Ssi.Entries.{
  Entry, IsEntry, entry_bytes, entries_bytes, told_items, entry-len, read_item-cursor,
}

module _ (malloc : Allocator) (grants : Grants malloc) (post : List ℕ) where
  read_items-cursor :
      (fuel rounds : ℕ) (es : List Entry) (pre r : List ℕ)
      → length es < rounds
      → All (IsEntry fuel) es
      → length r ≡ 4
      → length pre + length (entries_bytes es) + 4 < 65536
      → read_items malloc fuel rounds (cursor pre (entries_bytes es ++ r) post)
        ≡ moved (told_items es) (cursor (pre ++ entries_bytes es) r post)
  unfolding read_items in_front
  read_items-cursor fuel zero es pre r enough w lr fits = absurd (omega arith)
  read_items-cursor fuel (suc rounds) [] pre r enough w lr fits =
      rw
        (
          le→ltb 4 (empty (cursor pre r post)) (omega (arith, empty-cursor pre r post, lr)),
          read_items,
        )
        (ap (λ p. moved [] (cursor p r post)) (sym (append-nil pre)))
  read_items-cursor fuel (suc rounds) (e ∷ es) pre r enough w lr fits =
      let xs = entries_bytes es ++ r in
      let l1 = length-append (entry_bytes e) (entries_bytes es) in
      let l2 = length-append (entries_bytes es) r in
      let more = lt→ltb 4 (empty (cursor pre (entry_bytes e ++ xs) post)) (
        omega (
          arith,
          empty-cursor pre (entry_bytes e ++ xs) post,
          length-append (entry_bytes e) xs,
          entry-len e,
        )) in
      let g =
        read_item-cursor malloc grants post fuel e pre xs w.0 (omega (arith, fits, l1, l2, lr)) in
      let rest =
        read_items-cursor fuel rounds es (pre ++ entry_bytes e) r (omega (arith, enough)) w.1 lr
          (omega (arith, fits, l1, length-append pre (entry_bytes e))) in
      ap (λ b. read_items malloc fuel (suc rounds) (cursor pre b post))
        (append_assoc (entry_bytes e) (entries_bytes es) r)
      ∙ rw (more, read_items)
          (rw (grants Request.ssi_item, read_items)
            (rw (g, read_items)
              (rw (rest, read_items)
                (ap (λ p. moved (told_items (e ∷ es)) (cursor p r post))
                  (append_assoc pre (entry_bytes e) (entries_bytes es))))))

-- The whole payload.
abbrev pub list_bytes : (fmtver itemcount : ℕ) → List Entry → (stamp : ℕ) → List ℕ
list_bytes fmtver itemcount es stamp =
    be8 fmtver ++ (be16 itemcount ++ (entries_bytes es ++ be32 stamp))

-- With memory granted, a payload with any list of well-formed items, more rounds than items and fuel for
-- the longest chain: what the client is told is the format, the count that the frame claims, the stamp,
-- and every item in its order, with its name as a string with a NUL, or without one if it is empty, and
-- its chain in reverse.
pub parsedata_lem :
    {S : Type 0} (malloc : Allocator) (grants : Grants malloc) (fuel rounds : ℕ)
    (handlers : List Handler) (snac : Modsnac) (client : Client (ℕ × ℕ × ℕ × List SsiItem) S)
    (fmtver itemcount stamp : ℕ) (es : List Entry) (pre post : List ℕ) (s : S)
    → fmtver < 256
    → IsU16 itemcount
    → IsU32 stamp
    → length es < rounds
    → All (IsEntry fuel) es
    → length pre + length (entries_bytes es) + 7 < 65536
    → parsedata malloc fuel rounds handlers snac client
        (cursor pre (list_bytes fmtver itemcount es stamp) post)
        s
      ≡ tell handlers snac client (pos 0) (fmtver, itemcount, stamp, told_items es) s
unfolding parsedata
parsedata_lem malloc grants fuel rounds handlers snac client fmtver itemcount stamp es pre post s hf
      hc hs enough w fits =
    let r = be32 stamp in
    let xs = entries_bytes es ++ r in
    let lr : length r ≡ 4 = unfold be32 in refl in
    let l1 = length-append (entries_bytes es) r in
    let p1 = pre ++ be8 fmtver in
    let p2 = p1 ++ be16 itemcount in
    let lp1 : length p1 ≡ length pre + 1 =
      omega (arith, length-append pre (be8 fmtver), length-be8 fmtver) in
    let lp2 : length p2 ≡ length pre + 3 =
      omega (arith, lp1, length-append p1 (be16 itemcount), length-be16 itemcount) in
    let lx : length (be16 itemcount ++ xs) ≡ 2 + length (entries_bytes es) + 4 =
      omega (arith, lr, l1, length-append (be16 itemcount) xs, length-be16 itemcount) in
    let g1 = get8-cursor pre (be16 itemcount ++ xs) post fmtver hf (omega (arith, fits, lx)) in
    let g2 = get16-cursor p1 xs post itemcount hc (omega (arith, fits, l1, lr, lp1)) in
    let g3 =
      read_items-cursor malloc grants post fuel rounds es p2 r enough w lr
        (omega (arith, fits, lp2)) in
    let g4 =
      ap (λ x. get32 (cursor (p2 ++ entries_bytes es) x post)) (sym (append-nil r))
      ∙ get32-cursor (p2 ++ entries_bytes es) [] post stamp hs
          (omega (arith, fits, lp2, length-append p2 (entries_bytes es))) in
    rw (g1, parsedata)
      (rw (g2, parsedata) (rw (g3, parsedata) (rw (g4, parsedata) (rw g1 (rw g2 refl)))))
