-- ===== src/Txqueue/Tests.antt =====
-- The outgoing queue on small examples.
use libfaim.Prelude.{
  All, ℕ, ◌≡◌, refl, true, false, List, [], ◌∷◌, ◌++◌, arith, none, some, replicate,
  length-replicate,
}
use libfaim.Prelude.Alloc.{Allocator}
use libfaim.Prelude.Int.{ℤ, pos}
use libfaim.Bstream.{init, empty, curpos, setpos, rewind, skip, emit, put8, put16, putbs}
use libfaim.Bstream.Words.{be8, be16}
use libfaim.Session.{Conn, Frame, flap, Session, queuebased, conn_at}
use libfaim.Os.Wire.{Wire, wire, wire-Receives, wire-Sends}
use libfaim.Flap.{flap_bytes}
use libfaim.Rxqueue.{get_command}
use libfaim.Rxqueue.Command.{IsOpen, arrived}
use libfaim.Txqueue.{
  Ret, fine, framing_oft, tx_new, sendframe_flap, purgequeue, cleanqueue, setenqueue, send_on,
  send_loop, send, advance_sent, flushqueue, bstream_send, finish,
}
use libfaim.Session.Conns.{IsLive}
use libfaim.Txqueue.Flushed.{Grants, WaitsToConnect, flushqueue-IsLive}
use libfaim.Txqueue.Frames.{IsSent, sendframe_flap-IsSent}
use libfaim.Txqueue.Roundtrip.{get_command-sendframe_flap}
use libfaim.Txqueue.Enqueue.{Enqueued, enqueue_all-numbered, purgequeue-cleanqueue}

abbrev always : Allocator
always q = true

abbrev noise : ℕ → List ℕ
noise n = replicate n 0xff

abbrev bos : Conn
bos = record {
  addr = 0x1000;
  fd = pos 5;
  type = 2;
  subtype = 0;
  seqnum = 0xffff;
  status = 1;
  lastactivity = 0;
  forcedlatency = 0;
  handlerlist = [];
  groups = [];
}

bos-IsOpen : IsOpen bos
bos-IsOpen = record { open_fd = refl; real_fd = refl; connected = refl; speaks_flap = refl }

-- A frame of three bytes in a payload of four.
abbrev request : Frame
request = record {
  hdr = flap 2 9;
  content = record { buf = 1 ∷ 2 ∷ 3 ∷ 4 ∷ []; len = 4; offset = 3 };
  handled = false;
  nofree = false;
  conn = some 0x1000;
}

abbrev session : Session
session = record {
  connlist = bos ∷ [];
  queue_outgoing =
      record request { handled = true } ∷ request ∷ record request { conn = some 0x2000 } ∷ [];
  queue_incoming = [];
  tx_enqueue = queuebased;
}

abbrev quiet : Wire
quiet = record { incoming = []; outgoing = []; clock = 50 }

-- The other side, with what was sent and a byte more.
abbrev peer : Wire
peer = record {
  incoming = 0x2a ∷ 2 ∷ 0 ∷ 9 ∷ 0 ∷ 3 ∷ 1 ∷ 2 ∷ 3 ∷ 0x2a ∷ [];
  outgoing = [];
  clock = 51;
}

tx_new_wrong : tx_new always (noise 4) bos framing_oft 1 4 ≡ none
unfolding tx_new
tx_new_wrong = refl

setenqueue_user : setenqueue session 2 none ≡ none
unfolding setenqueue
setenqueue_user = refl

sendframe_flap-IsSent_example :
    IsSent wire 5
      (sendframe_flap wire always noise (bos ∷ []) request 2 9 bos quiet)
      (bos ∷ [])
      request
      bos
      (flap_bytes 2 9 (1 ∷ 2 ∷ 3 ∷ []))
      quiet
sendframe_flap-IsSent_example =
    sendframe_flap-IsSent wire wire-Sends 5 always (λ q. refl) noise (λ n. length-replicate n 0xff)
      (bos ∷ []) bos request 2 9 (1 ∷ 2 ∷ 3 ∷ []) (4 ∷ []) [] quiet refl refl (omega arith)
      (omega arith)

abbrev not_called : Session → Conn → Wire → ℤ × Session × Wire
not_called sess conn s = (pos 0, sess, s)

abbrev sent_request : Ret × Frame × List Conn × Wire
sent_request = sendframe_flap wire always noise (bos ∷ []) request 2 9 bos quiet

sent_request-fine : sent_request.0 ≡ fine
unfolding sendframe_flap init empty curpos setpos rewind skip emit put8 put16 putbs be8 be16 send_on
    send_loop send advance_sent bstream_send finish
sent_request-fine = refl

sent_request-line : peer.incoming ≡ sent_request.3.outgoing ++ 0x2a ∷ []
unfolding sendframe_flap init empty curpos setpos rewind skip emit put8 put16 putbs be8 be16 send_on
    send_loop send advance_sent bstream_send finish
sent_request-line = refl

get_command-sendframe_flap_example :
    let t = get_command wire always noise not_called not_called session bos peer in
    (t.0 ≡ pos 0)
    × (t.1.queue_incoming ≡ arrived bos 2 9 (1 ∷ 2 ∷ 3 ∷ []) ∷ [])
    × (t.2.incoming ≡ 0x2a ∷ [])
get_command-sendframe_flap_example =
    get_command-sendframe_flap wire wire-Sends 5 always (λ q. refl) noise
      (λ n. length-replicate n 0xff) wire wire-Receives session bos bos-IsOpen not_called not_called
      (bos ∷ []) bos request 2 9 (1 ∷ 2 ∷ 3 ∷ []) (4 ∷ []) [] (0x2a ∷ []) quiet peer refl refl
      (omega arith) (omega arith) (omega arith) (omega arith) refl sent_request-fine
      sent_request-line

-- The counter comes round between the two frames.
enqueue_all-numbered_example : Enqueued session 0x1000 0xffff bos ((2, request) ∷ (2, request) ∷ [])
unfolding conn_at
enqueue_all-numbered_example =
    enqueue_all-numbered session 0x1000 bos ((2, request) ∷ (2, request) ∷ []) refl (omega arith)

purgequeue-cleanqueue_example :
    purgequeue (cleanqueue session 0x1000)
    ≡ record session { queue_outgoing = record request { conn = some 0x2000 } ∷ [] }
purgequeue-cleanqueue_example = purgequeue-cleanqueue session 0x1000

-- Two frames, the second for a connection that is being connected.
abbrev chat : Conn
chat = record bos { addr = 0x2000; fd = pos 6; type = 0xe; status = 0x100 }

abbrev two_conns : Session
two_conns = record {
  connlist = chat ∷ bos ∷ [];
  queue_outgoing = request ∷ record request { conn = some 0x2000 } ∷ [];
  queue_incoming = [];
  tx_enqueue = queuebased;
}

two_conns-IsLive : IsLive two_conns
unfolding conn_at
two_conns-IsLive = record {
  distinct = (refl, (refl, tt));
  incoming = tt;
  outgoing = (λ w. (0x1000, refl, (bos, refl)), (λ w. (0x2000, refl, (chat, refl)), tt));
}

flushqueue-IsLive_example :
    (sess' : Session) × (s' : Wire) × (flushqueue wire always noise two_conns quiet
      ≡ some (sess', s'))
    × IsLive sess'
    × (Grants always → All (WaitsToConnect two_conns.connlist) sess'.queue_outgoing)
flushqueue-IsLive_example = flushqueue-IsLive wire always noise two_conns quiet two_conns-IsLive
