-- ===== src/Txqueue/Frames.antt =====
-- sendframe_flap: what a FLAP frame becomes on the line.
use libfaim.Prelude.{
  ℕ, ◌+◌, ◌≤◌, ◌<◌, ◌≡◌, refl, ap, sym, ◌∙◌, true, Option, List, [], ◌++◌, ◌==◌, ◌⊎◌, inl, inr,
  arith, length, take, drop, append-nil, append_assoc, length-append, length-take, length-drop,
  take-append-drop, if◌then◌else◌, Bool-cases, ==→eq,
}
use libfaim.Prelude.Alloc.{Allocator, Request}
use libfaim.Prelude.Int.{pos}
use libfaim.Bstream.{Bstream, rewind, curpos, put8, put16, putbs}
use libfaim.Bstream.View.{cursor, init-cursor, rewind-cursor}
use libfaim.Bstream.Words.{be8, be16}
use libfaim.Bstream.Writes.{put8-cursor, put16-cursor, putbs-cursor}
use libfaim.Os.{Os, Sends}
use libfaim.Flap.{flap_header, flap_bytes, length-flap_header, length-be8, length-be16}
use libfaim.Session.{Conn, Frame, update}
use libfaim.Txqueue.{Ret, fine, minus_errno, bstream_send, finish, is_short, sendframe_flap}
use libfaim.Txqueue.Send.{Carried, bstream_send-Carried}

-- Writers on a stream with room enough, whatever stands there.
put8_next :
    (pre old : List ℕ) (v : ℕ)
    → 1 ≤ length old
    → length pre + length old < 65536
    → (put8 (cursor pre old []) v).1 ≡ cursor (pre ++ be8 v) (drop 1 old) []
put8_next pre old v h fits =
    ap (λ o. (put8 (cursor pre o []) v).1) (sym (take-append-drop 1 old))
    ∙ ap (λ r. r.1)
        (put8-cursor pre (take 1 old) (drop 1 old) [] v (omega (arith, length-take 1 old))
          (omega (arith, length-drop 1 old)))

put16_next :
    (pre old : List ℕ) (v : ℕ)
    → 2 ≤ length old
    → length pre + length old < 65536
    → (put16 (cursor pre old []) v).1 ≡ cursor (pre ++ be16 v) (drop 2 old) []
put16_next pre old v h fits =
    ap (λ o. (put16 (cursor pre o []) v).1) (sym (take-append-drop 2 old))
    ∙ ap (λ r. r.1)
        (put16-cursor pre (take 2 old) (drop 2 old) [] v (omega (arith, length-take 2 old))
          (omega (arith, length-drop 2 old)))

module _ (type seqnum : ℕ) (payload : List ℕ) where
  -- The header that is written before the payload.
  header : Bstream → Bstream
  header b0 =
      let b1 = (put8 b0 0x2a).1 in
      let b2 = (put8 b1 type).1 in let b3 = (put16 b2 seqnum).1 in (put16 b3 (length payload)).1

  header-cursor :
      (f : List ℕ)
      → length f ≡ 6 + length payload
      → length f < 65536
      → header (cursor [] f [])
        ≡ cursor (flap_header type seqnum (length payload)) (drop 2 (drop 2 (drop 1 (drop 1 f)))) []
  unfolding header
  header-cursor f e fits =
      let n = length payload in
      let p1 = be8 0x2a in
      let p2 = p1 ++ be8 type in
      let p3 = p2 ++ be16 seqnum in
      let f1 = drop 1 f in
      let f2 = drop 1 f1 in
      let f3 = drop 2 f2 in
      let m2 : length p2 ≡ 2 =
        length-append p1 (be8 type) ∙ omega (arith, length-be8 type, length-be8 0x2a) in
      let m3 : length p3 ≡ 4 = length-append p2 (be16 seqnum) ∙ omega (arith, length-be16 seqnum) in
      let d1 = length-drop 1 f in
      let d2 = length-drop 1 f1 in
      let d3 = length-drop 2 f2 in
      ap (λ b. (put16 (put16 (put8 b type).1 seqnum).1 n).1)
        (put8_next [] f 0x2a (omega arith) (omega arith))
      ∙ ap (λ b. (put16 (put16 b seqnum).1 n).1)
          (put8_next p1 f1 type (omega arith) (omega (arith, length-be8 0x2a)))
      ∙ ap (λ b. (put16 b n).1) (put16_next p2 f2 seqnum (omega arith) (omega arith))
      ∙ put16_next p3 f3 n (omega arith) (omega arith)
      ∙ ap (λ x. cursor x (drop 2 f3) [])
          (append_assoc p2 (be16 seqnum) (be16 n)
            ∙ append_assoc p1 (be8 type) (be16 seqnum ++ be16 n))

  -- The payload is copied behind the header, and the frame's stream is where it was.
  copy :
      (o r post : List ℕ)
      → length o ≡ length payload
      → length payload + 6 < 65536
      → length payload + length r < 65536
      → putbs
          (cursor (flap_header type seqnum (length payload)) o [])
          (rewind (cursor payload r post))
          (length payload)
        ≡ (length payload, cursor (flap_bytes type seqnum payload) [] [], cursor payload r post)
  copy o r post e fits fits' =
      let h = flap_header type seqnum (length payload) in
      ap (λ b. putbs (cursor h o []) b (length payload)) (rewind-cursor payload r post)
      ∙ ap (λ x. putbs (cursor h x []) (cursor [] (payload ++ r) post) (length payload))
          (sym (append-nil o))
      ∙ putbs-cursor h o [] [] payload (length payload) [] r post refl e
          (omega (arith, length-flap_header type seqnum (length payload))) (omega arith)

-- What has become of a frame and its connection, and of the line: a number of the frame's bytes is out,
-- and success is told only if all of them are.
pub record IsSent {S : Type 0} (os : Os S) (fd : ℕ) (o : Ret × Frame × List Conn × S)
    (conns : List Conn) (fr : Frame) (c : Conn) (bytes : List ℕ) (s : S) : Type 0 where
  pub count : ℕ
  pub line : os.written fd o.3 ≡ os.written fd s ++ take count bytes
  pub told : ((o.0 ≡ fine) × (count ≡ length bytes)) ⊎ (o.0 ≡ minus_errno)
  pub frame : o.1 ≡ record fr { handled = true }
  pub active : o.2 ≡ update c.addr (λ x. record x { lastactivity = os.time o.3 }) conns

module _ {S : Type 0} (os : Os S) (laws : Sends os) (fd : ℕ) (malloc : Allocator)
    (grants : (q : Request) → malloc q ≡ true) (fresh : ℕ → List ℕ)
    (block : (n : ℕ) → length (fresh n) ≡ n) (conns : List Conn) where
  finished :
      (c : Conn) (fr : Frame) (bytes : List ℕ) (s : S) (r : Option ℕ × Bstream × S)
      → Carried os laws fd r bytes s
      → IsSent os fd
          (finish os conns fr fr.content c.addr
            (if is_short r.0 (length bytes) then minus_errno else fine)
            r.2)
          conns
          fr
          c
          bytes
          s
  unfolding finish
  finished c fr bytes s r w = elim w.told [
    | inl t ↦ rw t (elim (Bool-cases (w.count == length bytes)) [
      | inl e ↦ rw e (record {
        count = w.count;
        line = w.line;
        told = inl (refl, ==→eq w.count (length bytes) e);
        frame = refl;
        active = refl;
      })
      | inr e ↦
          rw e (record {
            count = w.count;
            line = w.line;
            told = inr refl;
            frame = refl;
            active = refl;
          })
    ])
    | inr t ↦
        rw t
          (record { count = w.count; line = w.line; told = inr refl; frame = refl; active = refl })
  ]

  -- A FLAP frame for an open descriptor whose payload, of at most 65529 bytes, has been put into its
  -- stream: what goes out is
  -- the header 0x2a, channel, sequence number and length, and the payload, or a front part of these if
  -- send(2) refuses the rest; the result is 0 only if all went out. The frame is handled, its stream is
  -- as it was, and the connection's activity is stamped. Memory is granted.
  pub sendframe_flap-IsSent :
      (c : Conn) (fr : Frame) (type seqnum : ℕ) (payload r post : List ℕ) (s : S)
      → c.fd ≡ pos fd
      → fr.content ≡ cursor payload r post
      → length payload + length r < 65536
      → length payload ≤ 65529
      → IsSent os fd
          (sendframe_flap os malloc fresh conns fr type seqnum c s)
          conns
          fr
          c
          (flap_bytes type seqnum payload)
          s
  unfolding sendframe_flap curpos header
  sendframe_flap-IsSent c fr type seqnum payload r post s ef ec room small =
      let n = length payload in
      let f = fresh (6 + n) ++ [] in
      let lf : length f ≡ 6 + n = length-append (fresh (6 + n)) [] ∙ omega (arith, block (6 + n)) in
      let f4 = drop 2 (drop 2 (drop 1 (drop 1 f))) in
      let l4 : length f4 ≡ n = omega (
        arith,
        length-drop 1 f,
        length-drop 1 (drop 1 f),
        length-drop 2 (drop 1 (drop 1 f)),
        length-drop 2 (drop 2 (drop 1 (drop 1 f))),
      ) in
      let bytes = flap_bytes type seqnum payload in
      let lb : length bytes ≡ 6 + n =
        length-append (flap_header type seqnum n) payload
        ∙ omega (arith, length-flap_header type seqnum n) in
      let written =
        ap (λ b. putbs b (rewind (cursor payload r post)) n)
          (header-cursor type seqnum payload f lf (omega arith))
        ∙ copy type seqnum payload f4 r post l4 (omega arith) room in
      let out : rewind (cursor bytes [] []) ≡ cursor [] bytes [] =
        rewind-cursor bytes [] [] ∙ ap (λ x. cursor [] x []) (append-nil bytes) in
      rw
        (
          ec,
          grants (Request.bytes (6 + n)),
          init-cursor (fresh (6 + n)) (6 + n) (sym (block (6 + n))) (omega arith),
          written,
          out,
          ef,
        )
        (finished (record c { fd = pos fd }) (record fr { content = cursor payload r post }) bytes s
          (bstream_send os (cursor [] bytes []) (pos fd) (length bytes) s)
          (bstream_send-Carried os laws fd bytes s (omega arith)))
