-- ===== src/Connection.antt =====
-- src/conn.c: the connections of a session, from their allocation to their end, and the session's own
-- beginning and end; with aim_conn_close_rend and aim_conn_kill_rend of src/ft.c and aim_conn_kill_chat
-- of src/chat.c, which closing and killing call. A connection is known by its address. `Whole` joins the
-- parts of aim_session_t.
pub mod Unlink
pub mod Kill
pub mod Reach
pub mod Startup
pub mod Wait
mod Tests
use libfaim.Prelude.{
  ℕ, suc, ◌+◌, ◌-◌, ◌*◌, ◌/◌, ◌%◌, Bool, true, false, not, ◌&&◌, ◌||◌, Option, none, some, List, [],
  ◌∷◌, ltb, ◌==◌, if◌then◌else◌,
}
use libfaim.Prelude.Alloc.{Allocator, Request}
use libfaim.Prelude.Int.{ℤ, pos, negsuc}
use libfaim.Os.{Os}
use libfaim.Session.{
  Conn, Session, conn_type_rendezvous, conn_type_chat, is_closed, is_below_three, fd_number,
  in_progress, set_conn, conn_at,
}
use libfaim.Snac.{SnacCache}
use libfaim.Msgcookie.{Msgcookie, uncachecookie, cookie_free}
use libfaim.Rxqueue.{rxqueue_cleanbyconn}
use libfaim.Txqueue.{cleanqueue}
use libfaim.Rxhandlers.{Module, clonehandlers}

-- aim_session_t. `core` holds the connections and the queues.
pub record Whole : Type 0 where
  pub core : Session
  pub snacs : SnacCache
  pub msgcookies : List Msgcookie
  pub modlist : List Module
  pub flags : ℕ
  pub debug : ℕ

-- The session of a connection is always the one at hand. The new group stands in front.
unfoldable pub addgroup : Allocator → ℕ → Conn → Conn
addgroup malloc group conn =
    if malloc Request.snacgroup then record conn { groups = group ∷ conn.groups } else conn

abbrev pub has_group : ℕ → List ℕ → Bool
has_group group [] = false
has_group group (sg ∷ next) = sg == group || has_group group next

pub findbygroup : List Conn → ℕ → Option ℕ
findbygroup [] group = none
findbygroup (cur ∷ next) group =
    if has_group group cur.groups then some cur.addr else findbygroup next group

-- What a new structure holds; `(fu16_t)-1` is 65535.
pub conn_init : ℕ → Conn
conn_init fresh = record {
  addr = fresh;
  fd = negsuc 0;
  type = 65535;
  subtype = 65535;
  seqnum = 0;
  status = 0;
  lastactivity = 0;
  forcedlatency = 0;
  handlerlist = [];
  groups = [];
}

-- `fresh` is the address that malloc returns. The new connection is put in front.
pub conn_getnext : Allocator → ℕ → Session → Option (Conn × Session)
conn_getnext malloc fresh sess =
    if not (malloc Request.conn) || not (malloc Request.conn_inside)
    then none
    else some (conn_init fresh, record sess { connlist = conn_init fresh ∷ sess.connlist })

-- An assignment to the fields of the new connection, which is the first.
pub set_first : Conn → Session → Session
set_first conn sess = elim sess.connlist [
  | [] ↦ sess
  | old ∷ next ↦ record sess { connlist = conn ∷ next }
]

-- Everything but the address, the status and the groups is the parent's.
pub cloneconn : (malloc calloc : Allocator) → ℕ → Session → Conn → Option (Conn × Session)
cloneconn malloc calloc fresh sess src = elim (conn_getnext malloc fresh sess) [
  | none ↦ none
  | some (conn, sess') ↦
      let conn' = record conn {
        fd = src.fd;
        type = src.type;
        subtype = src.subtype;
        seqnum = src.seqnum;
        lastactivity = src.lastactivity;
        forcedlatency = src.forcedlatency;
        handlerlist = clonehandlers calloc [] src.handlerlist;
      } in
      some (conn', set_first conn' sess')
]

-- `aim_newconn` without a destination.
pub newconn_null : Allocator → ℕ → Session → ℕ → Option (Conn × Session)
newconn_null malloc fresh sess type = elim (conn_getnext malloc fresh sess) [
  | none ↦ none
  | some (conn, sess') ↦
      let conn' = record conn { type = type; fd = negsuc 0; status = 0 } in
      some (conn', set_first conn' sess')
]

pub getconn_type_all : List Conn → ℕ → Option ℕ
getconn_type_all [] type = none
getconn_type_all (cur ∷ next) type =
    if cur.type == type then some cur.addr else getconn_type_all next type

abbrev pub same_fd : ℤ → ℤ → Bool
same_fd (pos a) (pos b) = a == b
same_fd (pos a) (negsuc b) = false
same_fd (negsuc a) (pos b) = false
same_fd (negsuc a) (negsuc b) = a == b

pub getconn_fd : List Conn → ℤ → Option ℕ
getconn_fd [] fd = none
getconn_fd (cur ∷ next) fd = if same_fd cur.fd fd then some cur.addr else getconn_fd next fd

-- `j` is the greatest so far; a negative descriptor is never greater.
pub maxfd_from : ℕ → List Conn → ℕ
maxfd_from j [] = j
maxfd_from j (cur ∷ next) = maxfd_from (if ltb j (fd_number cur) then fd_number cur else j) next

pub conngetmaxfd : Session → ℕ
conngetmaxfd sess = maxfd_from 0 sess.connlist

pub conn_in_sess : List Conn → ℕ → Bool
conn_in_sess [] a = false
conn_in_sess (cur ∷ next) a = cur.addr == a || conn_in_sess next a

pub setlatency : ℕ → Conn → Conn
setlatency newval conn = record conn { forcedlatency = newval; lastactivity = 0 }

pub isconnecting : Conn → Bool
isconnecting conn = in_progress conn

-- The walk by which `aim_conn_kill` unlinks.
pub unlink_conn : ℕ → List Conn → Option Conn × List Conn
unlink_conn a [] = (none, [])
unlink_conn a (cur ∷ next) =
    let (found, left) = unlink_conn a next in
    if cur.addr == a then (some cur, next) else (found, cur ∷ left)

-- aim_uncachecookie and then aim_cookie_free, which does nothing for NULL.
pub drop_cookie : List Msgcookie → List ℕ → ℕ → List Msgcookie
drop_cookie cookies ck type =
    let (found, left) = uncachecookie cookies ck type in
    elim found [ none ↦ left | some c ↦ cookie_free left c ]

module _ {S : Type 0} (os : Os S) (cookie_of : Conn → List ℕ) where
  -- `cookie_of` reads the cookie behind `priv` or `internal`. AIM_COOKIETYPE_OFTSEND, OFTGET and OFTIM.
  pub close_rend : List Msgcookie → Conn → List Msgcookie
  close_rend cookies conn =
      if not (conn.type == conn_type_rendezvous)
      then cookies
      else if conn.subtype == 3
      then drop_cookie cookies (cookie_of conn) 0x12
      else if conn.subtype == 2
      then drop_cookie cookies (cookie_of conn) 0x11
      else if conn.subtype == 1
      then drop_cookie cookies (cookie_of conn) 0x10
      else cookies

  pub conn_close : List Msgcookie → Conn → S → Conn × List Msgcookie × S
  conn_close cookies conn s = (
    record conn { fd = negsuc 0; handlerlist = [] },
    close_rend cookies conn,
    if is_below_three conn then s else os.close (fd_number conn) s,
  )

module _ {S : Type 0} (os : Os S) (cookie_of : Conn → List ℕ)
    (free_internal free_priv free_name : Conn → S → S) where
  -- free(3) of what `internal` and `priv` of a connection and the name behind `priv` point to, which does
  -- nothing for NULL, is a change of the world.
  kill_rend : Conn → S → S
  kill_rend conn s =
      if not (conn.type == conn_type_rendezvous)
      then s
      else if conn.subtype == 3
      then free_internal conn s
      else if conn.subtype == 2
      then free_internal conn s
      else if conn.subtype == 1
      then free_internal conn s
      else s

  kill_chat : Conn → S → S
  kill_chat conn s = free_priv conn (free_name conn s)

  kill_inner : Conn → S → S
  kill_inner conn s =
      if conn.type == conn_type_rendezvous
      then kill_rend conn s
      else if conn.type == conn_type_chat
      then kill_chat conn s
      else s

  -- What is left of the session. The memory of the connection itself and behind `inside` goes last.
  pub connkill_real : Whole → Conn → S → Whole × S
  connkill_real w deadconn s =
      let core = cleanqueue (rxqueue_cleanbyconn w.core deadconn.addr) deadconn.addr in
      let (conn, cookies, s') = conn_close os cookie_of w.msgcookies deadconn s in
      if is_closed deadconn
      then (record w { core = core }, kill_inner deadconn (free_priv deadconn s))
      else (record w { core = core; msgcookies = cookies }, kill_inner conn (free_priv conn s'))

  pub conn_kill : Whole → ℕ → S → Whole × S
  conn_kill w a s =
      let (found, left) = unlink_conn a w.core.connlist in
      elim found [
        | none ↦ (w, s)
        | some cur ↦ connkill_real (record w { core = record w.core { connlist = left } }) cur s
      ]

  -- Each connection of the list is closed, and then killed.
  pub connrst_loop : Whole → List Conn → S → Whole × S
  connrst_loop w [] s = (w, s)
  connrst_loop w (cur ∷ next) s =
      let (cur', cookies, s') = conn_close os cookie_of w.msgcookies cur s in
      let (w', s'') = connkill_real (record w { msgcookies = cookies }) cur' s' in
      connrst_loop w' next s''

  pub connrst : Whole → S → Whole × S
  connrst w s =
      let (w', s') = connrst_loop w w.core.connlist s in
      (record w' { core = record w'.core { connlist = [] } }, s')

  pub logoff : Whole → S → Whole × S
  logoff w s = connrst w s
