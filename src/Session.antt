-- ===== src/Session.antt =====
-- include/aim.h, aim_conn_t, aim_frame_t and the part of aim_session_t that holds the connections and
-- the two queues. A connection is a heap object, known by its address; frames point to it by that.
pub mod Conns
use libfaim.Prelude.{
  ℕ, ◌+◌, ◌-◌, ◌*◌, ◌/◌, ◌%◌, ◌≡◌, Bool, true, false, ◌&&◌, ◌||◌, not, Option, none, some, List, [],
  ◌∷◌, ltb, ◌==◌, if◌then◌else◌, map,
}
use libfaim.Prelude.Int.{ℤ, pos, negsuc}
use libfaim.Bstream.{Bstream}

-- aim_rxcblist_s; a handler function is known by a number.
pub record Handler : Type 0 where
  pub family : ℕ
  pub type : ℕ
  pub handler : ℕ
  pub flags : ℕ

-- `groups` is the list behind `inside`.
pub record Conn : Type 0 where
  pub addr : ℕ
  pub fd : ℤ
  pub type : ℕ
  pub subtype : ℕ
  pub seqnum : ℕ
  pub status : ℕ
  pub lastactivity : ℕ
  pub forcedlatency : ℕ
  pub handlerlist : List Handler
  pub groups : List ℕ

-- The union of frame headers: `hdrtype` is AIM_FRAMETYPE_FLAP or AIM_FRAMETYPE_OFT.
pub data Header : Type 0 where
  flap : (type seqnum : ℕ) → Header
  oft : (type : ℕ) (magic : List ℕ) (hdr2len : ℕ) (hdr2 : List ℕ) → Header

-- `content` is the payload stream `data`; `conn` is NULL or the address of a connection.
pub record Frame : Type 0 where
  pub hdr : Header
  pub content : Bstream
  pub handled : Bool
  pub nofree : Bool
  pub conn : Option ℕ

-- `sess->tx_enqueue`; a client's own function is known by a number.
pub data TxEnqueue : Type 0 where
  queuebased immediate : TxEnqueue
  user : ℕ → TxEnqueue

pub record Session : Type 0 where
  pub connlist : List Conn
  pub queue_outgoing : List Frame
  pub queue_incoming : List Frame
  pub tx_enqueue : TxEnqueue

-- AIM_CONN_TYPE_*
abbrev pub conn_type_auth : ℕ
conn_type_auth = 0x0007

abbrev pub conn_type_bos : ℕ
conn_type_bos = 0x0002

abbrev pub conn_type_chat : ℕ
conn_type_chat = 0x000e

abbrev pub conn_type_rendezvous : ℕ
conn_type_rendezvous = 0x0101

abbrev pub conn_type_rendezvous_out : ℕ
conn_type_rendezvous_out = 0x0102

-- `status & AIM_CONN_STATUS_INPROGRESS`, which is bit 8
abbrev pub in_progress : Conn → Bool
in_progress c = c.status / 256 % 2 == 1

abbrev pub is_rendezvous : Conn → Bool
is_rendezvous c = c.type == conn_type_rendezvous || c.type == conn_type_rendezvous_out

-- `fd == -1`, `fd < 3` and the descriptor's number
abbrev pub is_closed : Conn → Bool
is_closed c = elim c.fd [ pos n ↦ false | negsuc k ↦ k == 0 ]

abbrev pub is_below_three : Conn → Bool
is_below_three c = elim c.fd [ pos n ↦ ltb n 3 | negsuc k ↦ true ]

abbrev pub fd_number : Conn → ℕ
fd_number c = elim c.fd [ pos n ↦ n | negsuc k ↦ 0 ]

-- The object at an address; `none` where there is none, so that reading it is a fault.
unfoldable pub conn_at : List Conn → ℕ → Option Conn
conn_at [] a = none
conn_at (c ∷ cs) a = if c.addr == a then some c else conn_at cs a

-- An assignment to fields of the object at an address.
unfoldable pub update : ℕ → (Conn → Conn) → List Conn → List Conn
update a f [] = []
update a f (c ∷ cs) = (if c.addr == a then f c else c) ∷ update a f cs

abbrev pub set_conn : Session → ℕ → (Conn → Conn) → Session
set_conn sess a f = record sess { connlist = update a f sess.connlist }

-- `aim_conn_close` on a connection that is not a rendezvous: the descriptor is closed and forgotten,
-- the handlers are dropped.
abbrev pub closed : Conn → Conn
closed c = record c { fd = negsuc 0; handlerlist = [] }
