-- ===== src/Rxqueue/Command.antt =====
-- aim_get_command on a connection that speaks FLAP.
use libfaim.Prelude.{
  ℕ, suc, ◌+◌, ◌<◌, ◌≡◌, refl, ap, sym, ◌∙◌, Bool, true, false, some, List, [], ◌∷◌, ◌++◌, ◌==◌,
  arith, length, append-nil, append_assoc, length-append, le→ltb, ne→==, IsU16, ◌||◌,
}
use libfaim.Prelude.Alloc.{Allocator, Request}
use libfaim.Prelude.Int.{ℤ, pos, negsuc}
use libfaim.Bstream.{Bstream, init, rewind, get8, get16}
use libfaim.Bstream.View.{cursor, init-cursor, rewind-cursor}
use libfaim.Bstream.Words.{be8, be16}
use libfaim.Bstream.Reads.{get8-cursor, get16-cursor}
use libfaim.Os.{Os, Receives}
use libfaim.Flap.{flap_header, flap_bytes, length-flap_header, length-be8, length-be16}
use libfaim.Session.{
  Conn, Frame, Header, flap, Session, set_conn, closed, is_closed, is_below_three, fd_number,
  in_progress, is_rendezvous, conn_type_rendezvous, conn_type_rendezvous_out,
}
use libfaim.Rxqueue.{bstream_recv, drop_conn, enqueue, get_payload, get_flap, get_command}
use libfaim.Rxqueue.Recv.{bstream_recv_all, bstream_recv_short}

-- The header, once its six bytes are in.
read_header :
    (type seqnum n : ℕ)
    → type < 256
    → IsU16 seqnum
    → IsU16 n
    → (let (start, h1) = get8 (rewind (cursor (flap_header type seqnum n) [] [])) in
        let (t, h2) = get8 h1 in
        let (q, h3) = get16 h2 in (start ≡ 0x2a) × (t ≡ type) × (q ≡ seqnum) × ((get16 h3).0 ≡ n))
read_header type seqnum n ht hs hn =
    let l2 : length (be16 n) ≡ 2 = length-be16 n in
    let l4 : length (be16 seqnum ++ be16 n) ≡ 4 =
      length-append (be16 seqnum) (be16 n) ∙ omega (arith, length-be16 seqnum) in
    let l5 : length (be8 type ++ (be16 seqnum ++ be16 n)) ≡ 5 =
      length-append (be8 type) (be16 seqnum ++ be16 n) ∙ omega (arith, length-be8 type) in
    let p1 = be8 0x2a in
    let p2 = p1 ++ be8 type in
    let p4 = p2 ++ be16 seqnum in
    let m2 : length p2 ≡ 2 =
      length-append p1 (be8 type) ∙ omega (arith, length-be8 type, length-be8 0x2a) in
    let m4 : length p4 ≡ 4 = length-append p2 (be16 seqnum) ∙ omega (arith, length-be16 seqnum) in
    let start : rewind (cursor (flap_header type seqnum n) [] [])
        ≡ cursor [] (flap_header type seqnum n) [] =
      rewind-cursor (flap_header type seqnum n) [] []
      ∙ ap (λ x. cursor [] x []) (append-nil (flap_header type seqnum n)) in
    let last : get16 (cursor p4 (be16 n) []) ≡ (n, cursor (p4 ++ be16 n) [] []) =
      ap (λ x. get16 (cursor p4 x [])) (sym (append-nil (be16 n)))
      ∙ get16-cursor p4 [] [] n hn (omega arith) in
    rw
      (
        start,
        get8-cursor [] (be8 type ++ (be16 seqnum ++ be16 n)) [] 0x2a (omega arith) (omega arith),
        get8-cursor p1 (be16 seqnum ++ be16 n) [] type ht (omega (arith, length-be8 0x2a)),
        get16-cursor p2 (be16 n) [] seqnum hs (omega arith),
        last,
      )
      (refl, refl, refl, refl)

-- The connection speaks FLAP and can be read.
pub record IsOpen (c : Conn) : Type 0 where
  pub open_fd : is_closed c ≡ false
  pub real_fd : is_below_three c ≡ false
  pub connected : in_progress c ≡ false
  pub speaks_flap : is_rendezvous c ≡ false

abbrev pub stream_of : List ℕ → Bstream
stream_of xs = record { buf = xs; len = length xs; offset = 0 }

-- The frame that the queue receives.
abbrev pub arrived : Conn → (type seqnum : ℕ) → List ℕ → Frame
arrived conn type seqnum payload = record {
  hdr = flap type seqnum;
  content = stream_of payload;
  handled = false;
  nofree = false;
  conn = some conn.addr;
}

module _ {S : Type 0} (os : Os S) (laws : Receives os) (malloc : Allocator)
    (grants : (q : Request) → malloc q ≡ true) (fresh : ℕ → List ℕ)
    (block : (n : ℕ) → length (fresh n) ≡ n) (sess : Session) (conn : Conn) where
  -- A read that succeeds: the stream is at its end, and the world is that after the read.
  record Fetched (n : ℕ) (xs more : List ℕ) (s : S) : Type 0 where
    world : S
    result :
        bstream_recv os (init (fresh n) n) (fd_number conn) n s ≡ (some n, cursor xs [] [], world)
    after : os.pending (fd_number conn) world ≡ more

  fetch :
      (n : ℕ) (xs more : List ℕ) (s : S)
      → os.pending (fd_number conn) s ≡ xs ++ more
      → length xs ≡ n
      → 0 < n
      → n < 65536
      → Fetched n xs more s
  fetch n xs more s e l nonempty small =
      let k =
        bstream_recv_all os laws (fd_number conn) (fresh n) xs more n s e l (block n) nonempty
          small in
      record {
        world = (bstream_recv os (cursor [] (fresh n ++ []) []) (fd_number conn) n s).2;
        result =
            ap (λ b. bstream_recv os b (fd_number conn) n s)
              (init-cursor (fresh n) n (sym (block n)) small)
            ∙ (λ i. (
              k.0 i,
              k.1 i,
              (bstream_recv os (cursor [] (fresh n ++ []) []) (fd_number conn) n s).2,
            ));
        after = k.2;
      }

  -- The frame goes into the queue, and the socket is left at what follows the payload.
  record Queued (r : ℤ × Session × S) (hdr : Header) (payload more : List ℕ) : Type 0 where
    pub world : S
    pub result : r ≡ enqueue os sess conn hdr (cursor payload [] []) world
    pub after : os.pending (fd_number conn) world ≡ more

  get_payload_all :
      (hdr : Header) (payload more : List ℕ) (s : S)
      → os.pending (fd_number conn) s ≡ payload ++ more
      → length payload < 65536
      → Queued (get_payload os malloc fresh sess conn hdr (length payload) s) hdr payload more
  unfolding get_payload init
  get_payload_all hdr [] more s e small = record { world = s; result = refl; after = e }
  get_payload_all hdr (x ∷ payload) more s e small =
      let n = suc (length payload) in
      let f = fetch n (x ∷ payload) more s e refl (omega arith) small in
      record {
        world = f.world;
        result =
            rw (ne→== n 0 (omega arith), grants (Request.bytes n))
              (rw f.result (rw (le→ltb n n (omega arith))));
        after = f.after;
      }

  get_flap_all :
      (type seqnum : ℕ) (payload more : List ℕ) (s : S)
      → type < 256
      → IsU16 seqnum
      → length payload < 65536
      → os.pending (fd_number conn) s ≡ flap_bytes type seqnum payload ++ more
      → Queued (get_flap os malloc fresh sess conn s) (flap type seqnum) payload more
  unfolding get_flap
  get_flap_all type seqnum payload more s ht hs small e =
      let n = length payload in
      let f =
        fetch 6 (flap_header type seqnum n) (payload ++ more) s
          (e ∙ append_assoc (flap_header type seqnum n) payload more)
          (length-flap_header type seqnum n) (omega arith) (omega arith) in
      let h = read_header type seqnum n ht hs small in
      let g = get_payload_all (flap type seqnum) payload more f.world f.after small in
      record {
        world = g.world;
        result = rw f.result (rw (h.0, h.1, h.2, h.3, grants Request.frame) g.result);
        after = g.after;
      }

  rewound : (payload : List ℕ) → rewind (cursor payload [] []) ≡ stream_of payload
  rewound payload =
      rewind-cursor payload [] []
      ∙ rw (append-nil payload) (
          rw (append-nil payload)
            (λ i. record { buf = payload; len = len_path payload i; offset = 0 }))
    where
      len_path : (xs : List ℕ) → 0 + length xs ≡ length xs
      len_path xs = omega arith

  or-false : (a b : Bool) → (a || b) ≡ false → (a ≡ false) × (b ≡ false)
  or-false true b h = cc
  or-false false b h = (refl, h)

  module _ (complete rendezvous : Session → Conn → S → ℤ × Session × S) (o : IsOpen conn) where
    on_flap :
        (s : S)
        → get_command os malloc fresh complete rendezvous sess conn s
          ≡ get_flap os malloc fresh sess conn s
    unfolding get_command
    on_flap s =
        let k =
          or-false (conn.type == conn_type_rendezvous) (conn.type == conn_type_rendezvous_out)
            o.speaks_flap in
        rw (o.open_fd, o.real_fd, o.connected) (rw (k.0, k.1))

    -- On an open FLAP connection whose peer has sent a frame, with memory granted: the frame, its channel,
    -- sequence number and payload, is at the end of the incoming queue, unhandled, with its stream at
    -- the start; the outgoing queue is as it was; the result is 0, and what the peer sent after the
    -- frame is still in the socket, however recv(2) cuts the bytes.
    pub get_command_flap :
        (type seqnum : ℕ) (payload more : List ℕ) (s : S)
        → type < 256
        → IsU16 seqnum
        → length payload < 65536
        → os.pending (fd_number conn) s ≡ flap_bytes type seqnum payload ++ more
        → (let r = get_command os malloc fresh complete rendezvous sess conn s in
            (r.0 ≡ pos 0)
            × (r.1.queue_incoming ≡ sess.queue_incoming ++ arrived conn type seqnum payload ∷ [])
            × (r.1.queue_outgoing ≡ sess.queue_outgoing)
            × (os.pending (fd_number conn) r.2 ≡ more))
    unfolding enqueue
    get_command_flap type seqnum payload more s ht hs small e =
        let q = get_flap_all type seqnum payload more s ht hs small e in
        rw (on_flap s, q.result, rewound payload) (refl, refl, refl, q.after)

    -- A peer that goes away within the header: the connection is closed, -1 is returned, and no frame
    -- enters the queue.
    pub get_command_short :
        (s : S)
        → length (os.pending (fd_number conn) s) < 6
        → (let r = get_command os malloc fresh complete rendezvous sess conn s in
            (r.0 ≡ negsuc 0) × (r.1 ≡ set_conn sess conn.addr closed))
    unfolding get_flap drop_conn
    get_command_short s h =
        let k = bstream_recv_short os laws (fd_number conn) (fresh 6) 6 s h (block 6) in
        rw (on_flap s, init-cursor (fresh 6) 6 (sym (block 6)) (omega arith)) (rw k (refl, refl))
