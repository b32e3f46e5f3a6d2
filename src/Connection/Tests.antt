-- ===== src/Connection/Tests.antt =====
-- A session with two connections, and one that lives through some steps.
use libfaim.Prelude.{
  ℕ, ◌≡◌, ◌≢◌, refl, true, false, none, some, List, [], ◌∷◌, ◌%◌, arith, map, keep, All, replicate,
}
use libfaim.Prelude.Alloc.{Allocator}
use libfaim.Prelude.Int.{pos}
use libfaim.Bstream.{init}
use libfaim.Os.Wire.{Wire, wire}
use libfaim.Session.{Conn, Frame, flap, Session, queuebased, conn_at, set_conn}
use libfaim.Session.Conns.{IsLive}
use libfaim.Rxqueue.{purge_rxqueue}
use libfaim.Txqueue.{flushqueue, purgequeue}
use libfaim.Connection.{Whole, conn_kill, conn_init, conn_getnext, connrst, connrst_loop}
use libfaim.Connection.Kill.{conn_kill-IsLive}
use libfaim.Connection.Startup.{
  session_init, session_kill, has_xorlogin, lacks_handler, session_init-IsLive, session_kill-empty,
}
use libfaim.Connection.Reach.{Reach, initialised, opened, changed, killed, Reach-IsLive}

abbrev always : Allocator
always q = true

abbrev no_cookie : Conn → List ℕ
no_cookie c = replicate 8 0

-- What freeing makes of the world.
abbrev left_alone : Conn → Wire → Wire
left_alone c s = s

abbrev shut_down : ℕ → Wire → Wire
shut_down f s = s

abbrev quiet : Wire
quiet = record { incoming = []; outgoing = []; clock = 99 }

abbrev conn_of : ℕ → ℕ → ℕ → Conn
conn_of a n type = record {
  addr = a;
  fd = pos n;
  type = type;
  subtype = 0;
  seqnum = 7;
  status = 1;
  lastactivity = 0;
  forcedlatency = 0;
  handlerlist = [];
  groups = [];
}

abbrev frame_on : ℕ → Frame
frame_on a = record {
  hdr = flap 2 8;
  content = init (1 ∷ 2 ∷ 3 ∷ []) 3;
  handled = false;
  nofree = false;
  conn = some a;
}

-- The BOS connection and one for chat, with a frame on each in both queues.
abbrev busy : Session
busy = record {
  connlist = conn_of 0x1000 5 2 ∷ conn_of 0x2000 6 0xe ∷ [];
  queue_outgoing = frame_on 0x2000 ∷ frame_on 0x1000 ∷ [];
  queue_incoming = frame_on 0x1000 ∷ frame_on 0x2000 ∷ [];
  tx_enqueue = queuebased;
}

busy-IsLive : IsLive busy
unfolding conn_at
busy-IsLive = record {
  distinct = (refl, (refl, tt));
  incoming = (
    λ w. (0x1000, refl, (conn_of 0x1000 5 2, refl)),
    (λ w. (0x2000, refl, (conn_of 0x2000 6 0xe, refl)), tt),
  );
  outgoing = (
    λ w. (0x2000, refl, (conn_of 0x2000 6 0xe, refl)),
    (λ w. (0x1000, refl, (conn_of 0x1000 5 2, refl)), tt),
  );
}

abbrev whole : Whole
whole = record {
  core = busy;
  snacs = record {
    snac_hash =
        (record { id = 16; family = 4; type = 6; flags = 0; content = 1 ∷ []; issuetime = 40 } ∷ [])
        ∷ []
        ∷ [];
    snacid_next = 17;
  };
  msgcookies = [];
  modlist = [];
  flags = 1;
  debug = 0;
}

conn_kill-IsLive_example :
    let sess =
      (conn_kill wire no_cookie left_alone left_alone left_alone whole 0x1000 quiet).0.core in
    IsLive sess
    × (conn_at sess.connlist 0x1000 ≡ none)
    × ((b : ℕ) → 0x1000 ≢ b → conn_at sess.connlist b ≡ conn_at busy.connlist b)
    × ((purge_rxqueue sess).queue_incoming ≡ frame_on 0x2000 ∷ [])
    × ((purgequeue sess).queue_outgoing ≡ frame_on 0x2000 ∷ [])
unfolding conn_at
conn_kill-IsLive_example =
    conn_kill-IsLive wire no_cookie left_alone left_alone left_alone whole 0x1000
      (conn_of 0x1000 5 2) quiet busy-IsLive refl refl

session_kill-empty_example :
    let w' =
      (session_kill wire no_cookie left_alone left_alone left_alone shut_down
        (λ i. 50)
        whole
        quiet).0 in
    (w'.core.connlist ≡ [])
    × ((purge_rxqueue w'.core).queue_incoming ≡ [])
    × ((purgequeue w'.core).queue_outgoing ≡ [])
    × (w'.modlist ≡ [])
    × All (λ ch. ch ≡ []) w'.snacs.snac_hash
session_kill-empty_example =
    session_kill-empty wire no_cookie left_alone left_alone left_alone shut_down (λ i. 50) whole
      quiet busy-IsLive (((λ i. omega arith), tt), (tt, tt))

session_init-IsLive_example :
    let w =
      (session_init wire no_cookie left_alone left_alone left_alone shut_down always 4 1 quiet).0 in
    IsLive w.core
    × (w.core.connlist ≡ [])
    × (map (λ m. m.family) w.modlist
        ≡ 0x17 ∷ 0x15 ∷ 0x13 ∷ 0xe ∷ 0xd ∷ 0xc ∷ 0xb ∷ 0xa ∷ 9 ∷ 8 ∷ 7 ∷ 6 ∷ 5 ∷ 4 ∷ 3 ∷ 2 ∷ 1
          ∷ 0xffff ∷ [])
    × (map (λ m. m.family) (keep lacks_handler w.modlist) ≡ 0xc ∷ 6 ∷ [])
    × (has_xorlogin 4 ≡ false → w.flags % 2 ≡ 1)
session_init-IsLive_example =
    session_init-IsLive wire no_cookie left_alone left_alone left_alone shut_down always 4 1 quiet
      refl

-- A session that is initialised; a connection is opened, connected and killed.
abbrev started : Whole × Wire
started = session_init wire no_cookie left_alone left_alone left_alone shut_down always 0 0 quiet

abbrev with_conn : Whole
with_conn = record started.0 {
  core = record started.0.core { connlist = conn_init 0x1000 ∷ started.0.core.connlist };
}

abbrev connected : Whole
connected = record with_conn {
  core = set_conn with_conn.core 0x1000 (λ c. record c { fd = pos 5; type = 2 });
}

abbrev life : Whole × Wire
life = conn_kill wire no_cookie left_alone left_alone left_alone connected 0x1000 started.1

life-Reach :
    Reach wire no_cookie left_alone left_alone left_alone shut_down always
      (λ n. replicate n 0xff)
      life.0
      life.1
unfolding session_init connrst connrst_loop conn_at conn_getnext
life-Reach =
    killed
      (changed (opened (initialised 0 0 quiet) 0x1000 (conn_init 0x1000) with_conn.core refl refl)
        0x1000 (λ c. record c { fd = pos 5; type = 2 }) (λ c. refl))
      0x1000

Reach-IsLive_example :
    IsLive life.0.core
    × ((r : Session × Wire) × (flushqueue wire always (λ n. replicate n 0xff) life.0.core life.1
          ≡ some r))
Reach-IsLive_example =
    Reach-IsLive wire no_cookie left_alone left_alone left_alone shut_down always
      (λ n. replicate n 0xff) life.0 life.1 life-Reach
