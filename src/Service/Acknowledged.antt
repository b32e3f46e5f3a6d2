-- ===== src/Service/Acknowledged.antt =====
-- The whole of the rate parameters, and their acknowledgement.
use libfaim.Prelude.{
  ℕ, ◌+◌, ◌*◌, ◌≤◌, ◌<◌, ◌≡◌, ◌≢◌, refl, ap, ap₂, sym, ◌∙◌, false, Option, none, some, List, [],
  ◌∷◌, ◌++◌, arith, length, drop, drop-drop, length-drop, length-append, append_assoc, append-nil,
  All, All-append, IsU16,
}
use libfaim.Prelude.Alloc.{Allocator}
use libfaim.Bstream.{Bstream, get16}
use libfaim.Bstream.View.{cursor}
use libfaim.Bstream.Words.{be16}
use libfaim.Bstream.Reads.{get16-cursor}
use libfaim.Bstream.Room.{put16-room}
use libfaim.Os.{Os}
use libfaim.Session.{Conn, Frame, Session, queuebased, conn_at, is_rendezvous}
use libfaim.Rxhandlers.{callhandler}
use libfaim.Connection.{Whole}
use libfaim.Requests.Room.{Fills, requested, request-queued}
use libfaim.Tlv.Encoding.{length-be16}
use libfaim.Tlv.Read.{Grants}
use libfaim.Service.{
  Rateclass, read_members, read_rates, put_words, classids, rates_addparam, acknowledge, rateresp,
}
use libfaim.Service.Groups.{words}
use libfaim.Service.Rates.{
  classes_bytes, pairs_bytes, members_bytes, rates_bytes, IsClass, Others, AreDistinct, bare,
  rc_findclass-append, read_classes-cursor, read_pairs-cursor,
}

fresh-snoc :
    (before cls : List Rateclass) (rc : Rateclass)
    → All (Others before) cls
    → All (λ d. rc.classid ≢ d.classid) cls
    → All (Others (before ++ rc ∷ [])) cls
fresh-snoc before [] rc h k = tt
fresh-snoc before (c ∷ cls) rc h k = (
  All-append (λ d. d.classid ≢ c.classid) before (rc ∷ []) h.0 (k.0, tt),
  fresh-snoc before cls rc h.1 k.1,
)

fresh-nil : (cls : List Rateclass) → All (Others []) cls
fresh-nil [] = tt
fresh-nil (c ∷ cls) = (tt, fresh-nil cls)

module _ (malloc : Allocator) (grants : Grants malloc) where
  read_members-cursor :
      (cls before : List Rateclass) (pre r post : List ℕ)
      → All IsClass cls
      → AreDistinct cls
      → All (Others before) cls
      → length pre + length (members_bytes cls) + length r < 65536
      → read_members malloc
          (length cls)
          (cursor pre (members_bytes cls ++ r) post)
          (before ++ bare cls)
        ≡ (before ++ cls, cursor (pre ++ members_bytes cls) r post)
  unfolding read_members
  read_members-cursor [] before pre r post w d h fits =
      ap (λ b. (before ++ [], cursor b r post)) (sym (append-nil pre))
  read_members-cursor (rc ∷ cls) before pre r post w d h fits =
      let a = be16 rc.classid in
      let n = be16 (length rc.members) in
      let ps = pairs_bytes rc.members in
      let xs = members_bytes cls in
      let wf = w.0 in
      let la = length-be16 rc.classid in
      let ln = length-be16 (length rc.members) in
      let l1 = length-append a (n ++ (ps ++ xs)) in
      let l2 = length-append n (ps ++ xs) in
      let l3 = length-append ps xs in
      let y = ps ++ (xs ++ r) in
      let ly = length-append ps (xs ++ r) in
      let lz = length-append xs r in
      let shape : members_bytes (rc ∷ cls) ++ r ≡ a ++ (n ++ y) = simp append_assoc in
      let behind : (((pre ++ a) ++ n) ++ ps) ++ xs ≡ pre ++ members_bytes (rc ∷ cls) =
        simp append_assoc in
      let p1 = length-append pre a in
      let p2 = length-append (pre ++ a) n in
      let p3 = length-append ((pre ++ a) ++ n) ps in
      let g1 =
        ap get16 (ap (λ t. cursor pre t post) shape)
        ∙ get16-cursor pre (n ++ y) post rc.classid wf.classid_u16
            (omega (arith, fits, l1, l2, l3, la, ln, ly, lz, length-append n y)) in
      let g2 =
        get16-cursor (pre ++ a) y post (length rc.members) wf.members_len
          (omega (arith, fits, l1, l2, l3, la, ln, ly, lz, p1)) in
      let bare_rc : Rateclass = record rc { members = [] } in
      let found = rc_findclass-append before (bare cls) bare_rc h.0 in
      let pairs =
        read_pairs-cursor malloc grants rc.members before (bare cls) bare_rc ((pre ++ a) ++ n)
          (xs ++ r) post wf.members_u16 (omega (arith, fits, l1, l2, l3, la, ln, lz, p1, p2)) in
      rw (g1, read_members)
        (rw (g2, read_members)
          (rw found (
            rw (pairs, read_members)
              (ap
                  (read_members malloc (length cls)
                    (cursor (((pre ++ a) ++ n) ++ ps) (xs ++ r) post))
                  (sym (append_assoc before (rc ∷ []) (bare cls)))
                ∙ read_members-cursor cls (before ++ rc ∷ []) (((pre ++ a) ++ n) ++ ps) r post w.1
                    d.1 (fresh-snoc before cls rc h.1 d.0)
                    (omega (arith, fits, l1, l2, l3, la, ln, p1, p2, p3))
                ∙ ap₂ (λ (m : List Rateclass) t. (m, cursor t r post))
                    (append_assoc before (rc ∷ []) cls) behind))))

  -- The whole payload is read to the classes with their members.
  read_rates-cursor :
      (version : ℕ) (cls : List Rateclass) (pre r post : List ℕ)
      → 3 ≤ version
      → IsU16 (length cls)
      → All IsClass cls
      → AreDistinct cls
      → length pre + length (rates_bytes cls) + length r < 65536
      → read_rates malloc version (cursor pre (rates_bytes cls ++ r) post) []
        ≡ (cls, cursor (pre ++ rates_bytes cls) r post)
  unfolding read_rates
  read_rates-cursor version cls pre r post new few w d fits =
      let n = be16 (length cls) in
      let cs = classes_bytes cls in
      let ms = members_bytes cls in
      let ln = length-be16 (length cls) in
      let l1 = length-append n (cs ++ ms) in
      let l2 = length-append cs ms in
      let l3 = length-append cs (ms ++ r) in
      let l4 = length-append ms r in
      let p1 = length-append pre n in
      let p2 = length-append (pre ++ n) cs in
      let shape : rates_bytes cls ++ r ≡ n ++ (cs ++ (ms ++ r)) = simp append_assoc in
      let behind : ((pre ++ n) ++ cs) ++ ms ≡ pre ++ rates_bytes cls = simp append_assoc in
      let g1 =
        ap get16 (ap (λ t. cursor pre t post) shape)
        ∙ get16-cursor pre (cs ++ (ms ++ r)) post (length cls) few
            (omega (arith, fits, l1, l2, l3, l4, ln)) in
      let g2 =
        read_classes-cursor malloc grants version cls [] (pre ++ n) (ms ++ r) post new w
          (omega (arith, fits, l1, l2, l4, ln, p1)) in
      rw (g1, read_rates)
        (rw (g2, read_rates)
          (read_members-cursor cls [] ((pre ++ n) ++ cs) r post w d (fresh-nil cls)
              (omega (arith, fits, l1, l2, ln, p1, p2))
            ∙ ap (λ t. (cls, cursor t r post)) behind))

put_words-Fills : (xs : List ℕ) → Fills (λ bs. some (put_words xs bs)) (words xs)
unfolding put_words
put_words-Fills [] pre r le fits = ap (λ t. some (cursor t r [])) (sym (append-nil pre))
put_words-Fills (x ∷ xs) pre r le fits =
    let v = be16 x in
    let lv = length-be16 x in
    let lx = length-append v (words xs) in
    let d = length-drop 2 r in
    let both : 2 + length (words xs) ≡ length (v ++ words xs) = omega (arith, lx, lv) in
    ap (λ b. some (put_words xs b)) (put16-room pre r [] fits x (omega (arith, lx, lv)))
    ∙ put_words-Fills xs (pre ++ v) (drop 2 r) (omega (arith, lx, lv, d))
        (omega (arith, lx, lv, d, length-append pre v))
    ∙ ap (λ t. some (cursor t (drop (length (words xs)) (drop 2 r)) []))
        (append_assoc pre v (words xs))
    ∙ ap (λ t. some (cursor (pre ++ (v ++ words xs)) t []))
        (drop-drop (length (words xs)) 2 r ∙ ap (λ n. drop n r) both)

length-words-classids : (cls : List Rateclass) → length (words (classids cls)) ≡ 2 * length cls
unfolding be16
length-words-classids [] = refl
length-words-classids (rc ∷ cls) = omega (arith, length-words-classids cls)

-- What is done after the acknowledgement: the client hears of the end of the setting up, if it wants.
abbrev pub then_client :
    {S : Type 0}
    → (ℕ → Whole → S → Option (Whole × S))
    → Conn
    → List Rateclass
    → Whole
    → S
    → Option (List Rateclass × Whole × S)
then_client client conn cls w s = elim (callhandler conn.handlerlist 0xffff 0x0006) [
  | none ↦ some (cls, w, s)
  | some f ↦ elim (client f w s) [ none ↦ none | some (w', s') ↦ some (cls, w', s') ]
]

-- With memory, on a FLAP connection of the session without rates and with the queue-based function, and
-- a module of version 3 or later: the rate parameters of up to 251 classes with distinct ids are read to
-- exactly these classes, in their order and each with its pairs; they are acknowledged by a queued frame
-- with the ids in the same order, whose SNAC is remembered; and the client's handler for the end of the
-- connection's setting up is called on that, if there is one.
pub rateresp_lem :
    {S : Type 0} (os : Os S) (malloc : Allocator) (grants : Grants malloc) (ulong : ℕ)
    (block fresh : ℕ → List ℕ) (len_block : (n : ℕ) → length (block n) ≡ n)
    (user_enqueue : ℕ → Session → Frame → S → Option (Session × S)) (w : Whole) (conn : Conn)
    (s : S) (there : conn_at w.core.connlist conn.addr ≡ some conn)
    (kind : is_rendezvous conn ≡ false) (mode : w.core.tx_enqueue ≡ queuebased)
    (client : ℕ → Whole → S → Option (Whole × S)) (version : ℕ) (cls : List Rateclass)
    (pre r post : List ℕ)
    → 3 ≤ version
    → length cls ≤ 251
    → All IsClass cls
    → AreDistinct cls
    → length pre + length (rates_bytes cls) + length r < 65536
    → (left : List ℕ) × (rateresp os malloc ulong block fresh user_enqueue version client conn []
          (cursor pre (rates_bytes cls ++ r) post)
          w
          s
        ≡ then_client client conn cls
            (requested os malloc ulong w conn s 1 8 [] (words (classids cls)) left)
            s)
unfolding rateresp acknowledge rates_addparam
rateresp_lem os malloc grants ulong block fresh len_block user_enqueue w conn s there kind mode
      client version cls pre r post new few classes distinct fits =
    let read =
      read_rates-cursor malloc grants version cls pre r post new (omega (arith, few)) classes
        distinct fits in
    let (left, queued, room) =
      request-queued os malloc grants ulong block fresh len_block user_enqueue w conn s there kind
        mode 1 8 512 [] (λ bs. some (put_words (classids cls) bs)) (words (classids cls))
        (omega (arith, length-words-classids cls, few)) (omega arith)
        (put_words-Fills (classids cls)) in
    (
      left,
      ap
            (λ (p : List Rateclass × Bstream).
              acknowledge os malloc ulong block fresh user_enqueue client conn p.0 w s)
            read
          ∙ rw (queued, acknowledge) refl,
    )
