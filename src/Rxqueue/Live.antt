-- ===== src/Rxqueue/Live.antt =====
-- aim_get_command leaves the session live.
use libfaim.Prelude.{ℕ, refl, not, ◌==◌, List, [], elim-if}
use libfaim.Prelude.Alloc.{Allocator, Request}
use libfaim.Prelude.Int.{ℤ}
use libfaim.Bstream.{Bstream, init, rewind, get8, get16}
use libfaim.Os.{Os}
use libfaim.Session.{Conn, Header, flap, Session, closed, fd_number}
use libfaim.Session.Conns.{IsThere, update-Retains, IsLive, set_conn-IsLive, received-IsLive}
use libfaim.Rxqueue.{bstream_recv, is_less, drop_conn, enqueue, get_payload, get_flap}

module _ {S : Type 0} (os : Os S) (sess : Session) (conn : Conn)
    (there : IsThere sess.connlist conn.addr) (live : IsLive sess) where
  abbrev LiveAfter : ℤ × Session × S → Type 0
  LiveAfter r = IsLive r.1

  enqueue-IsLive :
      (hdr : Header) (content : Bstream) (s : S) → LiveAfter (enqueue os sess conn hdr content s)
  unfolding enqueue
  enqueue-IsLive hdr content s =
      received-IsLive _ _
        (λ w.
          (conn.addr, refl, update-Retains conn.addr _ sess.connlist (λ c. refl) conn.addr there))
        (set_conn-IsLive sess conn.addr _ (λ c. refl) live)

  drop_conn-IsLive : (s : S) → LiveAfter (drop_conn os sess conn s)
  unfolding drop_conn
  drop_conn-IsLive s = set_conn-IsLive sess conn.addr closed (λ c. refl) live

  module _ (malloc : Allocator) (fresh : ℕ → List ℕ) where
    get_payload-IsLive :
        (hdr : Header) (payloadlen : ℕ) (s : S)
        → LiveAfter (get_payload os malloc fresh sess conn hdr payloadlen s)
    unfolding get_payload
    get_payload-IsLive hdr payloadlen s =
        let r =
          bstream_recv os (init (fresh payloadlen) payloadlen) (fd_number conn) payloadlen s in
        elim-if LiveAfter (payloadlen == 0) _ _ (λ e. enqueue-IsLive hdr (init [] 0) s)
          (λ e.
            elim-if LiveAfter (not (malloc (Request.bytes payloadlen))) _ _ (λ e. live)
              (λ e.
                elim-if LiveAfter (is_less r.0 payloadlen) _ _ (λ e. drop_conn-IsLive r.2)
                  (λ e. enqueue-IsLive hdr r.1 r.2)))

    pub get_flap-IsLive : (s : S) → LiveAfter (get_flap os malloc fresh sess conn s)
    unfolding get_flap
    get_flap-IsLive s =
        let r = bstream_recv os (init (fresh 6) 6) (fd_number conn) 6 s in
        let (start, h1) = get8 (rewind r.1) in
        let (type, h2) = get8 h1 in
        let (seqnum, h3) = get16 h2 in
        let (payloadlen, h4) = get16 h3 in
        elim-if LiveAfter (is_less r.0 6) _ _ (λ e. drop_conn-IsLive r.2)
          (λ e.
            elim-if LiveAfter (not (start == 0x2a)) _ _ (λ e. drop_conn-IsLive r.2)
              (λ e.
                elim-if LiveAfter (not (malloc Request.frame)) _ _ (λ e. live)
                  (λ e. get_payload-IsLive (flap type seqnum) payloadlen r.2)))
