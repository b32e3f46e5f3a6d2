-- ===== src/Requests/Room.antt =====
-- Requests whose frame has more room than their payload takes.
use libfaim.Prelude.{
  ℕ, ◌+◌, ◌-◌, ◌≤◌, ◌<◌, ◌≡◌, refl, ap, ◌∙◌, true, false, some, List, [], ◌++◌, arith, length, drop,
  length-drop, u16, Option,
}
use libfaim.Prelude.Alloc.{Allocator, Request}
use libfaim.Bstream.{Bstream, init}
use libfaim.Bstream.View.{cursor}
use libfaim.Os.{Os}
use libfaim.Session.{Conn, Frame, Session, queuebased, conn_at, is_rendezvous}
use libfaim.Snac.{cachesnac, putsnac}
use libfaim.Txqueue.Enqueue.{next_session}
use libfaim.Connection.{Whole}
use libfaim.Requests.{zero_ret, submit, request_as}
use libfaim.Requests.Payload.{
  snac_header, putsnac-cursor, length-snac_header, tx_new-request, init-cursor, request_frame,
  tx_enqueue-queued,
}

-- A body that writes these bytes at the front of the room and leaves the rest.
abbrev pub Fills : (Bstream → Option Bstream) → List ℕ → Type 0
Fills body xs =
    (pre r : List ℕ)
    → length xs ≤ length r
    → length pre + length r < 65536
    → body (cursor pre r []) ≡ some (cursor (pre ++ xs) (drop (length xs) r) [])

-- What a request leaves: its SNAC is remembered, and the frame is the last of the queue; `left` is the
-- room behind the payload.
abbrev pub requested :
    {S : Type 0}
    → Os S
    → Allocator
    → (ulong : ℕ) → Whole
    → Conn
    → S
    → (family subtype : ℕ) → (content xs left : List ℕ) → Whole
requested os malloc ulong w conn s family subtype content xs left = record w {
  core = next_session w.core conn.addr (u16 (conn.seqnum + 1)) 2 (
      request_frame conn (
        cursor
          (snac_header family subtype 0
              (cachesnac malloc ulong (os.time s) w.snacs family subtype 0 content).0
            ++ xs)
          left []));
  snacs = (cachesnac malloc ulong (os.time s) w.snacs family subtype 0 content).1;
}

module _ {S : Type 0} (os : Os S) (malloc : Allocator) (grants : (q : Request) → malloc q ≡ true)
    (ulong : ℕ) (block fresh : ℕ → List ℕ) (len_block : (n : ℕ) → length (block n) ≡ n)
    (user_enqueue : ℕ → Session → Frame → S → Option (Session × S)) (w : Whole) (conn : Conn)
    (s : S) (there : conn_at w.core.connlist conn.addr ≡ some conn)
    (kind : is_rendezvous conn ≡ false) (mode : w.core.tx_enqueue ≡ queuebased) where
  pub request-queued :
      (family subtype size : ℕ) (content : List ℕ) (body : Bstream → Option Bstream) (xs : List ℕ)
      → 10 + length xs ≤ size
      → size < 65536
      → Fills body xs
      → (left : List ℕ) × (request_as os malloc ulong block fresh user_enqueue family subtype family
            subtype size content body w conn s
          ≡ some (zero_ret, requested os malloc ulong w conn s family subtype content xs left, s))
        × (length left ≡ size - 10 - length xs)
  unfolding request_as submit
  request-queued family subtype size content body xs le lt fills =
      let id = (cachesnac malloc ulong (os.time s) w.snacs family subtype 0 content).0 in
      let made = tx_new-request malloc (block size) conn size grants kind (omega arith) in
      let (rest, put, room) =
        putsnac-cursor (block size) family subtype 0 id (omega (arith, len_block size))
          (omega (arith, len_block size)) in
      let header =
        ap (λ b. (putsnac b family subtype 0 id).1)
          (init-cursor (block size) size (len_block size) lt)
        ∙ put in
      let left = drop (length xs) rest in
      let written : body (putsnac (init (block size) size) family subtype 0 id).1
          ≡ some (cursor (snac_header family subtype 0 id ++ xs) left []) =
        ap body header
        ∙ fills (snac_header family subtype 0 id) rest (omega (arith, room, len_block size))
            (omega (arith, room, len_block size, length-snac_header family subtype 0 id)) in
      (
        left,
        rw (made, request_as)
            (rw written (
              rw
                (
                  tx_enqueue-queued os malloc grants ulong block fresh len_block user_enqueue w conn
                      s there kind mode
                      (request_frame conn (cursor (snac_header family subtype 0 id ++ xs) left [])),
                  submit,
                )
                refl)),
        omega (arith, length-drop (length xs) rest, room, len_block size),
      )
