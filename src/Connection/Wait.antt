-- ===== src/Connection/Wait.antt =====
-- aim_select, aim_conn_completeconnect and aim_flap_nop. `poll` is select(2), given the number of
-- descriptors and the sets that are waited for; a set is the list of its descriptors.
use libfaim.Prelude.{
  ℕ, ◌+◌, ◌-◌, Bool, true, false, not, ◌&&◌, ◌||◌, Option, none, some, List, [], ◌∷◌, ltb, ◌==◌,
  if◌then◌else◌,
}
use libfaim.Prelude.Alloc.{Allocator}
use libfaim.Prelude.Int.{ℤ, pos, negsuc}
use libfaim.Os.{Os}
use libfaim.Session.{Conn, Frame, Session, set_conn, closed, is_closed, in_progress, fd_number}
use libfaim.Rxhandlers.{callhandler}
use libfaim.Txqueue.{framing_flap, tx_new, tx_enqueue, flushqueue}
use libfaim.Connection.{Whole, conn_close}

-- The sets that select(2) leaves, when it returns 1 or more; or its 0, -1 with EINTR, and -1.
pub data Polled : Type 0 where
  ready : (fds wfds : List ℕ) → Polled
  timed_out interrupted failed : Polled

abbrev pub has_fd : List ℕ → ℕ → Bool
has_fd [] fd = false
has_fd (x ∷ xs) fd = x == fd || has_fd xs fd

-- The first walk of `aim_select`: a dead connection ends it.
pub data Scan : Type 0 where
  dead : ℕ → Scan
  sets : (maxfd : ℕ) (fds wfds : List ℕ) → Scan

pub scan : ℕ → List ℕ → List ℕ → List Conn → Scan
scan maxfd fds wfds [] = sets maxfd fds wfds
scan maxfd fds wfds (cur ∷ next) =
    let fd = fd_number cur in
    let rest =
      scan (if ltb maxfd fd then fd else maxfd) (fd ∷ fds)
        (if in_progress cur then fd ∷ wfds else wfds) next in
    if is_closed cur then dead cur.addr else rest

-- The second walk: the first connection that is ready.
pub first_ready : List ℕ → List ℕ → List Conn → Option ℕ
first_ready fds wfds [] = none
first_ready fds wfds (cur ∷ next) =
    if has_fd fds (fd_number cur) || in_progress cur && has_fd wfds (fd_number cur)
    then some cur.addr
    else first_ready fds wfds next

abbrev is_empty : {A : Type 0} → List A → Bool
is_empty [] = true
is_empty (x ∷ xs) = false

-- What select(2) has said, as the status and the connection.
pub answer : List Conn → Polled → ℤ × Option ℕ
answer conns (ready fds wfds) = elim (first_ready fds wfds conns) [
  | none ↦ (pos 0, none)
  | some a ↦ (pos 2, some a)
]
answer conns timed_out = (pos 0, none)
answer conns interrupted = (pos 0, none)
answer conns failed = (negsuc 0, none)

module _ {S : Type 0} (poll : ℕ → List ℕ → List ℕ → S → Polled × S) where
  -- The status and the connection that is returned.
  pub select : Session → S → (ℤ × Option ℕ) × S
  select sess s =
      if is_empty sess.connlist then ((negsuc 0, none), s) else elim (scan 0 [] [] sess.connlist) [
        | dead a ↦ ((pos 2, some a), s)
        | sets maxfd fds wfds ↦
            if is_empty wfds && not (is_empty sess.queue_outgoing)
            then ((pos 1, none), s)
            else let (said, s') = poll (maxfd + 1) fds wfds s in (answer sess.connlist said, s')
      ]

  -- `so_error` is getsockopt(2) for SO_ERROR, or errno where that fails; `userfunc` calls a client's
  -- function. `none` is a fault of the flushing.
  module _ (os : Os S) (cookie_of : Conn → List ℕ) (malloc : Allocator) (fresh : ℕ → List ℕ)
      (so_error : ℕ → S → ℕ × S) (userfunc : ℕ → Session → ℕ → S → Session × S) where
    -- The connection is closed and -1 returned.
    pub give_up : Whole → Conn → S → ℤ × Whole × S
    give_up w conn s =
        let (conn', cookies, s') = conn_close os cookie_of w.msgcookies conn s in
        (negsuc 0, record w { core = set_conn w.core conn.addr closed; msgcookies = cookies }, s')

    pub finish_connect : Whole → Conn → S → Option (ℤ × Whole × S)
    finish_connect w conn s =
        let sess = set_conn w.core conn.addr (λ c. record c { status = c.status - 256 }) in
        let called : Session × S = elim (callhandler conn.handlerlist 0xffff 4) [
          | none ↦ (sess, s)
          | some f ↦ userfunc f sess conn.addr s
        ] in
        let (sess', s') = called in
        elim (flushqueue os malloc fresh sess' s') [
          | none ↦ none
          | some (sess'', s'') ↦ some (pos 0, record w { core = sess'' }, s'')
        ]

    -- The error is ETIMEDOUT, which is not 0, where neither set holds the descriptor.
    pub completeconnect : Whole → Conn → S → Option (ℤ × Whole × S)
    completeconnect w conn s =
        if is_closed conn || not (in_progress conn)
        then some (negsuc 0, w, s)
        else let fd = fd_number conn in
          let (said, s') = poll (fd + 1) (fd ∷ []) (fd ∷ []) s in
          let (error, s'') = so_error fd s' in
          elim said [
            | timed_out ↦ some (pos 0, w, s')
            | interrupted ↦ some (give_up w conn s')
            | failed ↦ some (give_up w conn s')
            | ready fds wfds ↦
                if not (has_fd fds fd || has_fd wfds fd)
                then some (give_up w conn s')
                else if not (error == 0)
                then some (give_up w conn s'')
                else finish_connect w conn s''
          ]

-- The result is 0, or -ENOMEM; `block` is what the frame's memory holds.
pub flap_nop :
    {S : Type 0}
    → Os S
    → Allocator
    → (ℕ → List ℕ)
    → (ℕ → Session → Frame → S → Option (Session × S))
    → Session
    → Conn
    → S
    → Option (Bool × Session × S)
flap_nop os malloc fresh user_enqueue sess conn s = elim (tx_new malloc [] conn framing_flap 5 0) [
  | none ↦ some (false, sess, s)
  | some fr ↦ elim (tx_enqueue os malloc fresh user_enqueue sess fr s) [
    | none ↦ none
    | some (sess', s') ↦ some (true, sess', s')
  ]
]
