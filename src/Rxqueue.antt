-- ===== src/Rxqueue.antt =====
-- src/rxqueue.c: from the socket to the queue of incoming frames. The FLAP path of aim_get_command is
-- here; `complete` is aim_conn_completeconnect of conn.c and `rendezvous` aim_get_command_rendezvous of
-- ft.c, which it calls for connections that do not speak FLAP yet, or not at all.
pub mod Purge
pub mod Recv
pub mod Command
pub mod Live
mod Tests
use libfaim.Prelude.{
  ℕ, zero, suc, ◌+◌, ◌-◌, ◌≡◌, Bool, true, false, not, ◌&&◌, Option, none, some, List, [], ◌∷◌,
  ◌++◌, ltb, ◌==◌, if◌then◌else◌, length, replicate, memcpy, u16,
}
use libfaim.Prelude.Alloc.{Allocator, Request}
use libfaim.Prelude.Int.{ℤ, pos, negsuc}
use libfaim.Bstream.{Bstream, init, empty, rewind, get8, get16}
use libfaim.Os.{Os}
use libfaim.Session.{
  Conn, Frame, Header, flap, oft, Session, set_conn, closed, is_closed, is_below_three, fd_number,
  in_progress, conn_type_rendezvous, conn_type_rendezvous_out,
}

-- What `aim_recv` has put into the buffer when it returns the count, or -1.
pub data Received : Type 0 where
  received failed : List ℕ → Received
  out_of_fuel : Received

-- `aim_bstream_recv(bs, fd, n) < n`
abbrev pub is_less : Option ℕ → ℕ → Bool
is_less none n = true
is_less (some k) n = ltb k n

module _ {S : Type 0} (os : Os S) where
  -- The loop of `aim_recv`, with `left` bytes to come.
  pub recv_loop : ℕ → ℕ → ℕ → List ℕ → S → Received × S
  recv_loop fd zero left cur s = (if left == 0 then received cur else out_of_fuel, s)
  recv_loop fd (suc fuel) left cur s = elim (left == 0) [
    | true ↦ (received cur, s)
    | false ↦
        let (xs, s') = os.recv fd left s in
        elim (length xs == 0) [
          | true ↦ (failed cur, s')
          | false ↦ recv_loop fd fuel (left - length xs) (cur ++ xs) s'
        ]
  ]

  -- Each round takes a byte at least, so `count` rounds are enough.
  pub recv : ℕ → ℕ → S → Received × S
  recv fd count s = recv_loop fd count count [] s

  -- What a read leaves in a stream: `none` is -1; what a failed read has stored stays in the buffer.
  pub store : Bstream → Received × S → Option ℕ × Bstream × S
  store bs (received xs, s) = (
    some (length xs),
    record bs { buf = memcpy bs.buf bs.offset xs; offset = u16 (bs.offset + length xs) },
    s,
  )
  store bs (failed xs, s) = (none, record bs { buf = memcpy bs.buf bs.offset xs }, s)
  store bs (out_of_fuel, s) = (none, bs, s)

  -- The room is compared as a `size_t`: where the offset is past the limit it is taken as a huge one,
  -- and nothing is cut off.
  pub bstream_recv : Bstream → ℕ → ℕ → S → Option ℕ × Bstream × S
  bstream_recv bs fd wanted s =
      let count =
        if not (ltb bs.len bs.offset) && ltb (empty bs) wanted then empty bs else wanted in
      if count == 0 then (some 0, bs, s) else store bs (recv fd count s)

  -- The connection is closed and -1 returned.
  pub drop_conn : Session → Conn → S → ℤ × Session × S
  drop_conn sess conn s = (negsuc 0, set_conn sess conn.addr closed, os.close (fd_number conn) s)

  -- The new frame goes to the end of the queue.
  pub enqueue : Session → Conn → Header → Bstream → S → ℤ × Session × S
  enqueue sess conn hdr content s = (
    pos 0,
    record (set_conn sess conn.addr (λ c. record c { lastactivity = os.time s })) {
      queue_incoming =
          sess.queue_incoming
          ++ record {
            hdr = hdr;
            content = rewind content;
            handled = false;
            nofree = false;
            conn = some conn.addr;
          }
            ∷ [];
    },
    s,
  )

  module _ (malloc : Allocator) (fresh : ℕ → List ℕ) where
    -- The payload, after the header; `fresh n` is what a new block of `n` bytes holds.
    pub get_payload : Session → Conn → Header → ℕ → S → ℤ × Session × S
    get_payload sess conn hdr payloadlen s =
        if payloadlen == 0
        then enqueue sess conn hdr (init [] 0) s
        else if not (malloc (Request.bytes payloadlen))
        then (negsuc 0, sess, s)
        else let (red, content, s') =
            bstream_recv (init (fresh payloadlen) payloadlen) (fd_number conn) payloadlen s in
          if is_less red payloadlen
          then drop_conn sess conn s'
          else enqueue sess conn hdr content s'

    -- A FLAP frame: six bytes of header and the payload.
    pub get_flap : Session → Conn → S → ℤ × Session × S
    get_flap sess conn s =
        let (red, h0, s1) = bstream_recv (init (fresh 6) 6) (fd_number conn) 6 s in
        let (start, h1) = get8 (rewind h0) in
        let (type, h2) = get8 h1 in
        let (seqnum, h3) = get16 h2 in
        let (payloadlen, h4) = get16 h3 in
        if is_less red 6
        then drop_conn sess conn s1
        else if not (start == 0x2a)
        then drop_conn sess conn s1
        else if not (malloc Request.frame)
        then (negsuc 0, sess, s1)
        else get_payload sess conn (flap type seqnum) payloadlen s1

    module _ (complete rendezvous : Session → Conn → S → ℤ × Session × S) where
      pub get_command : Session → Conn → S → ℤ × Session × S
      get_command sess conn s =
          if is_closed conn
          then (negsuc 0, sess, s)
          else if is_below_three conn
          then (pos 0, sess, s)
          else if in_progress conn
          then complete sess conn s
          else if conn.type == conn_type_rendezvous
          then rendezvous sess conn s
          else if conn.type == conn_type_rendezvous_out
          then (pos 0, sess, s)
          else get_flap sess conn s

-- Handled frames leave the queue, those marked `nofree` too.
pub purge : List Frame → List Frame
purge [] = []
purge (cur ∷ next) = let left = purge next in if cur.handled then left else cur ∷ left

unfoldable pub purge_rxqueue : Session → Session
purge_rxqueue sess = record sess { queue_incoming = purge sess.queue_incoming }

-- `currx->conn == conn`
abbrev pub is_on : ℕ → Frame → Bool
is_on a f = elim f.conn [ none ↦ false | some b ↦ b == a ]

unfoldable pub clean_frames : ℕ → List Frame → List Frame
clean_frames a [] = []
clean_frames a (cur ∷ next) =
    (if not cur.handled && is_on a cur then record cur { handled = true } else cur)
    ∷ clean_frames a next

unfoldable pub rxqueue_cleanbyconn : Session → ℕ → Session
rxqueue_cleanbyconn sess a = record sess { queue_incoming = clean_frames a sess.queue_incoming }
