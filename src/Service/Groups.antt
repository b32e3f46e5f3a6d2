-- ===== src/Service/Groups.antt =====
-- The server's families, and the versions that the library answers with.
use libfaim.Prelude.{
  ℕ, zero, suc, ◌+◌, ◌*◌, ◌≤◌, ◌<◌, ◌≡◌, refl, ap, sym, ◌∙◌, true, false, Option, none, some, List,
  [], ◌∷◌, ◌++◌, arith, length, drop, length-drop, length-append, append_assoc, append-nil,
  drop-drop, All, IsU16, ne→==, ==-refl,
}
use libfaim.Prelude.Alloc.{Allocator, Request}
use libfaim.Bstream.{Bstream, empty, get16, put16}
use libfaim.Bstream.View.{cursor, empty-cursor}
use libfaim.Bstream.Words.{be16}
use libfaim.Bstream.Reads.{get16-cursor}
use libfaim.Bstream.Room.{put16-room}
use libfaim.Os.{Os}
use libfaim.Session.{Conn, Frame, Session, queuebased, conn_at, set_conn, is_rendezvous}
use libfaim.Session.Conns.{conn_at-update}
use libfaim.Rxhandlers.{Module, findmodulebygroup}
use libfaim.Connection.{Whole, addgroup}
use libfaim.Requests.Room.{Fills, requested, request-queued}
use libfaim.Tlv.Encoding.{length-be16}
use libfaim.Tlv.Read.{Grants}
use libfaim.Service.{read_groups, put_version, put_versions, setversions, hostonline}

abbrev pub words : List ℕ → List ℕ
words [] = []
words (x ∷ xs) = be16 x ++ words xs

-- Each new group stands in front.
abbrev pub onto : List ℕ → List ℕ → List ℕ
onto [] groups = groups
onto (f ∷ fs) groups = onto fs (f ∷ groups)

length-onto : (fs groups : List ℕ) → length (onto fs groups) ≡ length fs + length groups
length-onto [] groups = omega arith
length-onto (f ∷ fs) groups = omega (arith, length-onto fs (f ∷ groups))

-- The family and the version of each group's module.
abbrev version_of : Option Module → List ℕ
version_of none = []
version_of (some m) = be16 m.family ++ be16 m.version

abbrev pub version_bytes : List Module → List ℕ → List ℕ
version_bytes mods [] = []
version_bytes mods (sg ∷ next) = version_of (findmodulebygroup mods sg) ++ version_bytes mods next

length-version_of : (o : Option Module) → length (version_of o) ≤ 4
unfolding be16
length-version_of none = omega arith
length-version_of (some m) = omega arith

length-version_bytes :
    (mods : List Module) (groups : List ℕ) → length (version_bytes mods groups) ≤ 4 * length groups
length-version_bytes mods [] = omega arith
length-version_bytes mods (sg ∷ next) =
    let v = version_of (findmodulebygroup mods sg) in
    omega (
      arith,
      length-version_bytes mods next,
      length-version_of (findmodulebygroup mods sg),
      length-append v (version_bytes mods next),
    )

put_version-room :
    (o : Option Module) (pre r : List ℕ)
    → length (version_of o) ≤ length r
    → length pre + length r < 65536
    → put_version (cursor pre r []) o
      ≡ cursor (pre ++ version_of o) (drop (length (version_of o)) r) []
unfolding put_version
put_version-room none pre r le fits = ap (λ t. cursor t r []) (sym (append-nil pre))
put_version-room (some m) pre r le fits =
    let f = be16 m.family in
    let v = be16 m.version in
    let lf = length-be16 m.family in
    let lv = length-be16 m.version in
    let ly = length-append f v in
    let d1 = length-drop 2 r in
    let four : 2 + 2 ≡ length (f ++ v) = omega (arith, ly, lf, lv) in
    ap (λ b. (put16 b m.version).1) (put16-room pre r [] fits m.family (omega (arith, ly, lf, lv)))
    ∙ put16-room (pre ++ f) (drop 2 r) [] (omega (arith, length-append pre f, lf, d1, ly, lv))
        m.version (omega (arith, d1, ly, lf, lv))
    ∙ ap (λ t. cursor t (drop 2 (drop 2 r)) []) (append_assoc pre f v)
    ∙ ap (λ d. cursor (pre ++ (f ++ v)) d []) (drop-drop 2 2 r ∙ ap (λ n. drop n r) four)

put_versions-Fills :
    (mods : List Module) (groups : List ℕ)
    → Fills (λ bs. some (put_versions mods groups bs)) (version_bytes mods groups)
unfolding put_versions
put_versions-Fills mods [] pre r le fits = ap (λ t. some (cursor t r [])) (sym (append-nil pre))
put_versions-Fills mods (sg ∷ next) pre r le fits =
    let o = findmodulebygroup mods sg in
    let v = version_of o in
    let rest = version_bytes mods next in
    let lx = length-append v rest in
    let d = length-drop (length v) r in
    let both : length v + length rest ≡ length (v ++ rest) = omega (arith, lx) in
    ap (λ b. some (put_versions mods next b)) (put_version-room o pre r (omega (arith, lx)) fits)
    ∙ put_versions-Fills mods next (pre ++ v) (drop (length v) r) (omega (arith, lx, d))
        (omega (arith, d, lx, length-append pre v))
    ∙ ap (λ t. some (cursor t (drop (length rest) (drop (length v) r)) []))
        (append_assoc pre v rest)
    ∙ ap (λ t. some (cursor (pre ++ (v ++ rest)) t []))
        (drop-drop (length rest) (length v) r ∙ ap (λ n. drop n r) both)

-- The number of bytes of `n` words.
double : ℕ → ℕ
double zero = zero
double (suc n) = suc (suc (double n))

double-words : (fs : List ℕ) → length (words fs) ≡ double (length fs)
unfolding double be16
double-words [] = refl
double-words (f ∷ fs) = ap (λ n. suc (suc n)) (double-words fs)

module _ (malloc : Allocator) (grants : Grants malloc) where
  read_groups-step :
      (room g : ℕ) (bs bs' : Bstream) (conn : Conn)
      → 0 < empty bs
      → get16 bs ≡ (g, bs')
      → read_groups malloc (suc (suc room)) bs conn
        ≡ read_groups malloc room bs' (record conn { groups = g ∷ conn.groups })
  unfolding read_groups addgroup
  read_groups-step room g bs bs' conn more got =
      rw (ne→== (empty bs) 0 (omega (arith, more)), read_groups)
        (rw (got, grants Request.snacgroup) refl)

  read_groups-even :
      (fs pre post : List ℕ) (conn : Conn)
      → All IsU16 fs
      → length pre + length (words fs) < 65536
      → read_groups malloc (double (length fs)) (cursor pre (words fs) post) conn
        ≡ some (record conn { groups = onto fs conn.groups })
  unfolding double
  read_groups-even [] pre post conn h fits =
      unfold read_groups in rw (empty-cursor pre [] post) refl
  read_groups-even (f ∷ fs) pre post conn h fits =
      let lf = length-be16 f in
      let lw = length-append (be16 f) (words fs) in
      read_groups-step (double (length fs)) f (cursor pre (words (f ∷ fs)) post)
        (cursor (pre ++ be16 f) (words fs) post) conn
        (omega (arith, empty-cursor pre (words (f ∷ fs)) post, lw, lf))
        (get16-cursor pre (words fs) post f h.0 (omega (arith, fits, lw, lf)))
      ∙ read_groups-even fs (pre ++ be16 f) post (record conn { groups = f ∷ conn.groups }) h.1
          (omega (arith, fits, lw, lf, length-append pre (be16 f)))

  read_groups-odd :
      (fs pre post : List ℕ) (x : ℕ) (conn : Conn)
      → All IsU16 fs
      → length pre + length (words fs) + 1 < 65536
      → read_groups malloc (suc (double (length fs))) (cursor pre (words fs ++ x ∷ []) post) conn
        ≡ none
  unfolding double
  read_groups-odd [] pre post x conn h fits =
      unfold read_groups in rw (empty-cursor pre (x ∷ []) post) refl
  read_groups-odd (f ∷ fs) pre post x conn h fits =
      let lf = length-be16 f in
      let xs = words fs ++ x ∷ [] in
      let lx = length-append (words fs) (x ∷ []) in
      let lw = length-append (be16 f) (words fs) in
      ap (λ b. read_groups malloc (suc (suc (suc (double (length fs))))) (cursor pre b post) conn)
        (append_assoc (be16 f) (words fs) (x ∷ []))
      ∙ read_groups-step (suc (double (length fs))) f (cursor pre (be16 f ++ xs) post)
          (cursor (pre ++ be16 f) xs post) conn
          (omega (arith, empty-cursor pre (be16 f ++ xs) post, length-append (be16 f) xs, lf))
          (get16-cursor pre xs post f h.0 (omega (arith, fits, lx, lw, lf)))
      ∙ read_groups-odd fs (pre ++ be16 f) post x (record conn { groups = f ∷ conn.groups }) h.1
          (omega (arith, fits, lw, lf, length-append pre (be16 f)))

module _ {S : Type 0} (os : Os S) (malloc : Allocator) (grants : Grants malloc) (ulong : ℕ)
    (block fresh : ℕ → List ℕ) (len_block : (n : ℕ) → length (block n) ≡ n)
    (user_enqueue : ℕ → Session → Frame → S → Option (Session × S)) (w : Whole) (conn : Conn)
    (s : S) (there : conn_at w.core.connlist conn.addr ≡ some conn)
    (kind : is_rendezvous conn ≡ false) (mode : w.core.tx_enqueue ≡ queuebased)
    (fs pre post : List ℕ) (small : All IsU16 fs)
    (fits : length pre + length (words fs) < 65536) where
  abbrev with_them : Conn → Conn
  with_them c = record c { groups = onto fs conn.groups }

  abbrev with_groups : Conn
  with_groups = record conn { groups = onto fs conn.groups }

  -- With memory, on a FLAP connection of the session and with the queue-based function: the families of
  -- a Host Online frame, up to 285 with those that the connection has, become groups of the connection,
  -- the last in front; and the answer that is queued, and remembered as a SNAC without content, names
  -- the family and the version of every registered module among the groups, in their order. But of a
  -- frame with an odd number of bytes, however many families it names and the connection has (its stream
  -- has a 16-bit length), the handler writes past the block that it asked for.
  pub hostonline_lem :
      (x : ℕ) (gs : List ℕ)
      → All IsU16 gs
      → length pre + length (words gs) + 1 < 65536
      → length fs + length conn.groups ≤ 285
      → ((left : List ℕ) × (hostonline os malloc ulong block fresh user_enqueue conn.addr
              (cursor pre (words fs) post)
              w
              s
            ≡ some (
              true,
              requested os malloc ulong
                  (record w { core = set_conn w.core conn.addr with_them })
                  with_groups
                  s
                  1
                  0x17
                  []
                  (version_bytes w.modlist (onto fs conn.groups))
                  left,
              s,
            )))
        × (hostonline os malloc ulong block fresh user_enqueue conn.addr
              (cursor pre (words gs ++ x ∷ []) post)
              w
              s
            ≡ none)
  unfolding hostonline setversions
  hostonline_lem x gs small_gs fits_gs few =
      let w' : Whole = record w { core = set_conn w.core conn.addr with_them } in
      let bytes = version_bytes w.modlist (onto fs conn.groups) in
      let short : length bytes ≤ 1140 = omega (
        arith,
        length-version_bytes w.modlist (onto fs conn.groups),
        length-onto fs conn.groups,
        few,
      ) in
      let there' : conn_at w'.core.connlist conn.addr ≡ some with_groups =
        conn_at-update conn.addr conn.addr with_them w.core.connlist (λ c. refl)
        ∙ rw (==-refl conn.addr) (rw there refl) in
      let (left, queued, room) =
        request-queued os malloc grants ulong block fresh len_block user_enqueue w' with_groups s
          there' kind mode 1 0x17 1152 []
          (λ bs. some (put_versions w.modlist (onto fs conn.groups) bs)) bytes
          (omega (arith, short)) (omega arith)
          (put_versions-Fills w.modlist (onto fs conn.groups)) in
      let even : empty (cursor pre (words fs) post) ≡ double (length fs) =
        empty-cursor pre (words fs) post ∙ double-words fs in
      let odd : empty (cursor pre (words gs ++ x ∷ []) post) ≡ suc (double (length gs)) = omega (
        arith,
        empty-cursor pre (words gs ++ x ∷ []) post,
        double-words gs,
        length-append (words gs) (x ∷ []),
      ) in
      let read = read_groups-even malloc grants fs pre post conn small fits in
      let torn = read_groups-odd malloc grants gs pre post x conn small_gs fits_gs in
      (
        (
          left,
          rw (grants (Request.bytes (empty (cursor pre (words fs) post))), there, hostonline)
              (rw even (rw read (rw queued refl))),
        ),
        rw
            (
              grants (Request.bytes (empty (cursor pre (words gs ++ x ∷ []) post))),
              there,
              hostonline,
            )
            (rw odd (rw torn refl)),
      )
