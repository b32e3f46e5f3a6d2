-- ===== src/Rxqueue/Tests.antt =====
-- The incoming queue on one FLAP connection.
use libfaim.Prelude.{◌≡◌, refl, true, [], ◌∷◌, arith, replicate, length-replicate}
use libfaim.Prelude.Alloc.{Allocator}
use libfaim.Prelude.Int.{ℤ, pos, negsuc}
use libfaim.Bstream.Words.{be8, be16}
use libfaim.Session.{Conn, Session, queuebased, set_conn, closed}
use libfaim.Os.Wire.{Wire, wire, wire-Receives}
use libfaim.Rxqueue.{get_command}
use libfaim.Rxqueue.Command.{IsOpen, arrived, get_command_flap, get_command_short}

abbrev always : Allocator
always q = true

abbrev bos : Conn
bos = record {
  addr = 0x1000;
  fd = pos 5;
  type = 2;
  subtype = 0;
  seqnum = 7;
  status = 1;
  lastactivity = 0;
  forcedlatency = 0;
  handlerlist = [];
  groups = [];
}

abbrev session : Session
session = record {
  connlist = bos ∷ [];
  queue_outgoing = [];
  queue_incoming = [];
  tx_enqueue = queuebased;
}

bos-IsOpen : IsOpen bos
bos-IsOpen = record { open_fd = refl; real_fd = refl; connected = refl; speaks_flap = refl }

-- A peer that has sent a frame of five bytes on channel 2, and two bytes more.
abbrev peer : Wire
peer = record {
  incoming = 0x2a ∷ 2 ∷ 0 ∷ 9 ∷ 0 ∷ 5 ∷ 1 ∷ 2 ∷ 3 ∷ 4 ∷ 5 ∷ 0x2a ∷ 4 ∷ [];
  outgoing = [];
  clock = 99;
}

abbrev not_called : Session → Conn → Wire → ℤ × Session × Wire
not_called sess conn s = (pos 0, sess, s)

get_command_flap_example :
    let r =
      get_command wire always (λ n. replicate n 0xff) not_called not_called session bos peer in
    (r.0 ≡ pos 0)
    × (r.1.queue_incoming ≡ arrived bos 2 9 (1 ∷ 2 ∷ 3 ∷ 4 ∷ 5 ∷ []) ∷ [])
    × (r.1.queue_outgoing ≡ [])
    × (r.2.incoming ≡ 0x2a ∷ 4 ∷ [])
unfolding be8 be16
get_command_flap_example =
    get_command_flap wire wire-Receives always (λ q. refl) (λ n. replicate n 0xff)
      (λ n. length-replicate n 0xff) session bos not_called not_called bos-IsOpen 2 9
      (1 ∷ 2 ∷ 3 ∷ 4 ∷ 5 ∷ []) (0x2a ∷ 4 ∷ []) peer (omega arith) (omega arith) (omega arith) refl

-- The peer goes away after three bytes.
get_command_short_example :
    let r =
      get_command wire always
        (λ n. replicate n 0xff)
        not_called
        not_called
        session
        bos
        (record { incoming = 0x2a ∷ 2 ∷ 0 ∷ []; outgoing = []; clock = 99 }) in
    (r.0 ≡ negsuc 0) × (r.1 ≡ set_conn session 0x1000 closed)
get_command_short_example =
    get_command_short wire wire-Receives always (λ q. refl) (λ n. replicate n 0xff)
      (λ n. length-replicate n 0xff) session bos not_called not_called bos-IsOpen
      (record { incoming = 0x2a ∷ 2 ∷ 0 ∷ []; outgoing = []; clock = 99 }) (omega arith)
