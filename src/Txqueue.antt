-- ===== src/Txqueue.antt =====
-- src/txqueue.c: frames on their way out. Frames are made, stamped with a sequence number, put into the
-- queue or sent at once, and written to the socket. `none` as the result of an operation on the session
-- is a fault: the source would follow a NULL or dangling connection pointer there.
pub mod Send
pub mod Frames
pub mod Enqueue
pub mod Roundtrip
pub mod Kept
pub mod Flushed
mod Tests
use libfaim.Prelude.{
  ℕ, zero, suc, ◌+◌, ◌-◌, ◌≡◌, Bool, true, false, not, ◌&&◌, ◌||◌, Option, none, some, List, [],
  ◌∷◌, ◌++◌, ltb, leb, ◌==◌, if◌then◌else◌, length, drop, u16, bytes_at,
}
use libfaim.Prelude.Alloc.{Allocator, Request}
use libfaim.Prelude.Int.{ℤ, pos, negsuc}
use libfaim.Bstream.{Bstream, init, empty, curpos, rewind, put8, put16, putraw, putbs}
use libfaim.Os.{Os}
use libfaim.Session.{
  Conn, Frame, Header, flap, oft, Session, TxEnqueue, queuebased, immediate, user, conn_at, update,
  is_rendezvous, in_progress, conn_type_bos,
}

-- AIM_FRAMETYPE_FLAP and AIM_FRAMETYPE_OFT
pub data Framing : Type 0 where
  framing_flap framing_oft : Framing

abbrev pub is_oft : Framing → Bool
is_oft framing_flap = false
is_oft framing_oft = true

-- A frame of the right kind for its connection, or NULL; `block` is what the payload's memory holds.
unfoldable pub tx_new : Allocator → List ℕ → Conn → Framing → ℕ → ℕ → Option Frame
tx_new malloc block conn framing chan datalen =
    let wrong_kind = if is_rendezvous conn then not (is_oft framing) else is_oft framing in
    if wrong_kind || not (malloc Request.frame)
    then none
    else if ltb 0 datalen && not (malloc (Request.bytes datalen))
    then none
    else some (record {
      hdr = elim framing [
        | framing_flap ↦ flap chan 0
        | framing_oft ↦ oft chan (0 ∷ 0 ∷ 0 ∷ 0 ∷ []) 0 []
      ];
      content =
          if ltb 0 datalen then init block datalen else record { buf = []; len = 0; offset = 0 };
      handled = false;
      nofree = false;
      conn = some conn.addr;
    })

-- `++conn->seqnum`, 16 bits wide.
unfoldable pub next_txseqnum : List Conn → ℕ → Option (ℕ × List Conn)
next_txseqnum conns a = elim (conn_at conns a) [
  | none ↦ none
  | some c ↦
      let ret = u16 (c.seqnum + 1) in some (ret, update a (λ x. record x { seqnum = ret }) conns)
]

-- The first connection of the type that is not being connected.
unfoldable pub getconn_type : List Conn → ℕ → Option ℕ
getconn_type [] type = none
getconn_type (cur ∷ next) type =
    if cur.type == type && not (in_progress cur) then some cur.addr else getconn_type next type

-- A FLAP frame gets the next number of its connection, an OFT frame stays as it is.
unfoldable pub stamp : List Conn → Frame → Option (Frame × List Conn)
stamp conns fr = elim fr.hdr [
  | oft type magic hdr2len hdr2 ↦ some (fr, conns)
  | flap type seqnum ↦ elim fr.conn [
    | none ↦ none
    | some a ↦ elim (next_txseqnum conns a) [
      | none ↦ none
      | some (ret, conns') ↦ some (record fr { hdr = flap type ret }, conns')
    ]
  ]
]

-- A frame without a connection goes to the BOS connection, if there is one.
unfoldable pub with_conn : List Conn → Frame → Frame
with_conn conns fr = elim fr.conn [
  | none ↦ record fr { conn = getconn_type conns conn_type_bos }
  | some a ↦ fr
]

unfoldable pub enqueue_queuebased : Session → Frame → Option Session
enqueue_queuebased sess fr = elim (stamp sess.connlist (with_conn sess.connlist fr)) [
  | none ↦ none
  | some (fr', conns) ↦ some (record sess {
    connlist = conns;
    queue_outgoing = sess.queue_outgoing ++ record fr' { handled = false } ∷ [];
  })
]

-- What `aim_send` tells: the bytes that went out, or -1.
pub data Sent : Type 0 where
  sent : ℕ → Sent
  failed out_of_fuel : Sent

-- What a frame's sending returns: 0, -ENOMEM, -errno or -1.
pub data Ret : Type 0 where
  fine enomem minus_errno minus_one : Ret

-- `aim_bstream_send(bs, conn, n) != n`
abbrev pub is_short : Option ℕ → ℕ → Bool
is_short none n = true
is_short (some k) n = not (k == n)

module _ {S : Type 0} (os : Os S) where
  -- send(2) on a connection's descriptor; a negative one is refused.
  pub send_on : ℤ → List ℕ → S → Option ℕ × S
  send_on (pos fd) xs s = os.send fd xs s
  send_on (negsuc k) xs s = (none, s)

  -- The loop of `aim_send`, with `xs` left to go and `cur` bytes gone.
  pub send_loop : ℤ → ℕ → ℕ → List ℕ → S → Sent × S
  send_loop fd zero cur xs s = (if length xs == 0 then sent cur else out_of_fuel, s)
  send_loop fd (suc fuel) cur xs s = elim (length xs == 0) [
    | true ↦ (sent cur, s)
    | false ↦
        let (ret, s') = send_on fd xs s in
        elim ret [
          | none ↦ (failed, s')
          | some n ↦ elim (n == 0) [
            | true ↦ (sent cur, s')
            | false ↦ send_loop fd fuel (cur + n) (drop n xs) s'
          ]
        ]
  ]

  -- Each round takes a byte at least, so as many rounds as bytes are enough.
  pub send : ℤ → List ℕ → S → Sent × S
  send fd xs s = send_loop fd (length xs) 0 xs s

  -- A result of -1 is added to the offset too.
  pub advance_sent : Bstream → Sent × S → Option ℕ × Bstream × S
  advance_sent bs (sent n, s) = (some n, record bs { offset = u16 (bs.offset + n) }, s)
  advance_sent bs (failed, s) = (none, record bs { offset = u16 (bs.offset + 65535) }, s)
  advance_sent bs (out_of_fuel, s) = (none, bs, s)

  pub bstream_send : Bstream → ℤ → ℕ → S → Option ℕ × Bstream × S
  bstream_send bs fd wanted s =
      let count =
        if not (ltb bs.len bs.offset) && ltb (empty bs) wanted then empty bs else wanted in
      if count == 0
      then (some 0, bs, s)
      else advance_sent bs (send fd (bytes_at bs.buf bs.offset count) s)

  -- A frame that was sent is handled, and its connection was active.
  pub finish : List Conn → Frame → Bstream → ℕ → Ret → S → Ret × Frame × List Conn × S
  finish conns fr content a err s = (
    err,
    record fr { handled = true; content = content },
    update a (λ c. record c { lastactivity = os.time s }) conns,
    s,
  )

  module _ (malloc : Allocator) (fresh : ℕ → List ℕ) where
    -- `c` is the connection at the address that the frame holds.
    pub sendframe_flap :
        List Conn → Frame → (type seqnum : ℕ) → Conn → S → Ret × Frame × List Conn × S
    sendframe_flap conns fr type seqnum c s =
        let payloadlen = curpos fr.content in
        if not (malloc (Request.bytes (6 + payloadlen)))
        then (enomem, fr, conns, s)
        else let b0 = init (fresh (6 + payloadlen)) (6 + payloadlen) in
          let b1 = (put8 b0 0x2a).1 in
          let b2 = (put8 b1 type).1 in
          let b3 = (put16 b2 seqnum).1 in
          let b4 = (put16 b3 payloadlen).1 in
          let (copied, b5, content) = putbs b4 (rewind fr.content) payloadlen in
          let obslen = curpos b5 in
          let (wrote, b6, s') = bstream_send (rewind b5) c.fd obslen s in
          finish conns fr content c.addr (if is_short wrote obslen then minus_errno else fine) s'

    -- The payload follows the header if there is one and the header went out.
    pub sendframe_oft :
        List Conn
        → Frame
        → (type : ℕ) (magic : List ℕ) (hdr2len : ℕ) (hdr2 : List ℕ) → Conn
        → S
        → Ret × Frame × List Conn × S
    sendframe_oft conns fr type magic hdr2len hdr2 c s =
        let hbslen = 8 + hdr2len in
        if not (malloc (Request.bytes hbslen))
        then (minus_one, fr, conns, s)
        else let b0 = init (fresh hbslen) hbslen in
          let b1 = (putraw b0 magic 4).1 in
          let b2 = (put16 b1 (hdr2len + 8)).1 in
          let b3 = (put16 b2 type).1 in
          let b4 = (putraw b3 hdr2 hdr2len).1 in
          let (wrote, b5, s') = bstream_send (rewind b4) c.fd hbslen s in
          let len = curpos fr.content in
          let (wrote', content, s'') = bstream_send (rewind fr.content) c.fd len s' in
          if is_short wrote hbslen
          then finish conns fr fr.content c.addr minus_errno s'
          else if len == 0
          then finish conns fr fr.content c.addr fine s'
          else finish conns fr content c.addr (if is_short wrote' len then minus_errno else fine)
              s''

    pub sendframe : List Conn → Frame → S → Option (Ret × Frame × List Conn × S)
    sendframe conns fr s = elim fr.conn [
      | none ↦ none
      | some a ↦ elim (conn_at conns a) [
        | none ↦ none
        | some c ↦ elim fr.hdr [
          | flap type seqnum ↦ some (sendframe_flap conns fr type seqnum c s)
          | oft type magic hdr2len hdr2 ↦ some (sendframe_oft conns fr type magic hdr2len hdr2 c s)
        ]
      ]
    ]

    -- The frame is destroyed when it has been sent, and also if it has no connection.
    pub enqueue_immediate : Session → Frame → S → Option (Session × S)
    enqueue_immediate sess fr s = elim fr.conn [
      | none ↦ some (sess, s)
      | some a ↦ elim (stamp sess.connlist fr) [
        | none ↦ none
        | some (fr', conns) ↦ elim (sendframe conns (record fr' { handled = false }) s) [
          | none ↦ none
          | some (ret, fr'', conns', s') ↦ some (record sess { connlist = conns' }, s')
        ]
      ]
    ]

    -- The wait before a frame: until its connection has been quiet for its latency.
    pub force_latency : Conn → S → S
    force_latency c s =
        let due = c.lastactivity + c.forcedlatency in
        if leb (os.time s) due then os.sleep (due - os.time s) s else s

    -- The walk of `aim_tx_flushqueue` over the queue.
    pub flush : List Conn → List Frame → S → Option (List Frame × List Conn × S)
    flush conns [] s = some ([], conns, s)
    flush conns (cur ∷ next) s = elim cur.handled [
      | true ↦ elim (flush conns next s) [
        | none ↦ none
        | some (left, conns', s') ↦ some (cur ∷ left, conns', s')
      ]
      | false ↦ elim cur.conn [
        | none ↦ none
        | some a ↦ elim (conn_at conns a) [
          | none ↦ none
          | some c ↦ elim (in_progress c) [
            | true ↦ elim (flush conns next s) [
              | none ↦ none
              | some (left, conns', s') ↦ some (cur ∷ left, conns', s')
            ]
            | false ↦ elim (sendframe conns cur (force_latency c s)) [
              | none ↦ none
              | some (ret, cur', conns', s') ↦ elim (flush conns' next s') [
                | none ↦ none
                | some (left, conns'', s'') ↦ some (cur' ∷ left, conns'', s'')
              ]
            ]
          ]
        ]
      ]
    ]

-- Frames that are handled leave the queue.
pub purge_sent : List Frame → List Frame
purge_sent [] = []
purge_sent (cur ∷ next) = let left = purge_sent next in if cur.handled then left else cur ∷ left

unfoldable pub purgequeue : Session → Session
purgequeue sess = record sess { queue_outgoing = purge_sent sess.queue_outgoing }

pub flushqueue : {S : Type 0} → Os S → Allocator → (ℕ → List ℕ) → Session → S → Option (Session × S)
flushqueue os malloc fresh sess s =
    elim (flush os malloc fresh sess.connlist sess.queue_outgoing s) [
      | none ↦ none
      | some (frames, conns, s') ↦
          some (purgequeue (record sess { queue_outgoing = frames; connlist = conns }), s')
    ]

-- `cur->conn == conn`
abbrev pub goes_to : ℕ → Frame → Bool
goes_to a f = elim f.conn [ none ↦ false | some b ↦ b == a ]

unfoldable pub mark_sent : ℕ → List Frame → List Frame
mark_sent a [] = []
mark_sent a (cur ∷ next) =
    (if goes_to a cur then record cur { handled = true } else cur) ∷ mark_sent a next

unfoldable pub cleanqueue : Session → ℕ → Session
cleanqueue sess a = record sess { queue_outgoing = mark_sent a sess.queue_outgoing }

-- AIM_TX_QUEUED, AIM_TX_IMMEDIATE and AIM_TX_USER; `none` is -EINVAL, `func` may be NULL.
pub setenqueue : Session → ℕ → Option ℕ → Option Session
setenqueue sess what func =
    if what == 0
    then some (record sess { tx_enqueue = queuebased })
    else if what == 1
    then some (record sess { tx_enqueue = immediate })
    else if what == 2
    then elim func [ none ↦ none | some f ↦ some (record sess { tx_enqueue = user f }) ]
    else none

-- Whether the frame's connection is being connected.
unfoldable pub must_wait : List Conn → Frame → Option Bool
must_wait conns fr = elim fr.conn [
  | none ↦ some false
  | some a ↦ elim (conn_at conns a) [ none ↦ none | some c ↦ some (in_progress c) ]
]

abbrev beside : {S : Type 0} → Option Session → S → Option (Session × S)
beside none s = none
beside (some sess) s = some (sess, s)

-- `user_enqueue` is what the client's own functions do.
unfoldable pub tx_enqueue :
    {S : Type 0}
    → Os S
    → Allocator
    → (ℕ → List ℕ)
    → (ℕ → Session → Frame → S → Option (Session × S))
    → Session
    → Frame
    → S
    → Option (Session × S)
tx_enqueue os malloc fresh user_enqueue sess fr s =
    let queued = beside (enqueue_queuebased sess fr) s in
    elim (must_wait sess.connlist fr) [
      | none ↦ none
      | some true ↦ queued
      | some false ↦ elim sess.tx_enqueue [
        | queuebased ↦ queued
        | immediate ↦ enqueue_immediate os malloc fresh sess fr s
        | user f ↦ user_enqueue f sess fr s
      ]
    ]
