-- ===== src/Connection/Reach.antt =====
-- Every session that the library's operations lead to.
use libfaim.Prelude.{
  ℕ, ◌+◌, u16, ◌≡◌, refl, ap, sym, ◌∙◌, subst, not, ◌||◌, none, some, List, ◌∷◌, ◌==◌, All,
  All-append, All-keep, All-map, Bool-cases, Option-cases, inl, inr, none-some, some-eq,
}
use libfaim.Prelude.Alloc.{Allocator, Request}
use libfaim.Os.{Os}
use libfaim.Session.{Conn, Frame, Session, conn_at, update, set_conn}
use libfaim.Session.Conns.{
  KeepsAddr, IsLinked, Retains, IsLinked-Retains, update-Retains, IsLive, set_conn-IsLive,
  conn_at-addr,
}
use libfaim.Rxqueue.{get_flap, purge_rxqueue}
use libfaim.Rxqueue.Live.{get_flap-IsLive}
use libfaim.Connection.Startup.{session_init, initialised-IsLive}
use libfaim.Rxqueue.Purge.{purge_lem}
use libfaim.Txqueue.{flushqueue, enqueue_queuebased}
use libfaim.Txqueue.Flushed.{flushqueue-IsLive}
use libfaim.Txqueue.Enqueue.{next_session, stamped, flap_for, enqueue_one}
use libfaim.Connection.{Whole, conn_getnext, conn_init, conn_kill, logoff}
use libfaim.Connection.Unlink.{unlink_conn-found}
use libfaim.Connection.Kill.{killed-IsWithout, logoff-IsLive}

-- A new connection at an address that is not taken.
added-Retains : (c : Conn) (cs : List Conn) → conn_at cs c.addr ≡ none → Retains cs (c ∷ cs)
unfolding conn_at
added-Retains c cs free b (x, e) = elim (Bool-cases (c.addr == b)) [
  | inl h ↦ (c, rw h refl)
  | inr h ↦ (x, rw h e)
]

added-IsLive :
    (sess : Session) (c : Conn)
    → conn_at sess.connlist c.addr ≡ none
    → IsLive sess
    → IsLive (record sess { connlist = c ∷ sess.connlist })
added-IsLive sess c free live =
    let r =
      IsLinked-Retains sess.connlist (c ∷ sess.connlist) (added-Retains c sess.connlist free) in
    record {
      distinct = (free, live.distinct);
      incoming = All-map r sess.queue_incoming live.incoming;
      outgoing = All-map r sess.queue_outgoing live.outgoing;
    }

purged-IsLive : (sess : Session) → IsLive sess → IsLive (purge_rxqueue sess)
unfolding purge_rxqueue
purged-IsLive sess live = record {
  distinct = live.distinct;
  incoming =
      subst (All (IsLinked sess.connlist)) (sym (purge_lem sess.queue_incoming))
        (All-keep (IsLinked sess.connlist) (λ f. not f.handled) sess.queue_incoming live.incoming);
  outgoing = live.outgoing;
}

-- A FLAP frame of a connection, in the outgoing queue.
queued-IsLive :
    (sess : Session) (a type : ℕ) (fr : Frame) (c : Conn)
    → conn_at sess.connlist a ≡ some c
    → IsLive sess
    → IsLive (next_session sess a (u16 (c.seqnum + 1)) type fr)
queued-IsLive sess a type fr c e live =
    let n = u16 (c.seqnum + 1) in
    let cs' = update a (stamped n) sess.connlist in
    let k = set_conn-IsLive sess a (stamped n) (λ x. refl) live in
    record {
      distinct = k.distinct;
      incoming = k.incoming;
      outgoing =
          All-append (IsLinked cs') sess.queue_outgoing _ k.outgoing
            (λ w. (a, refl, update-Retains a (stamped n) sess.connlist (λ x. refl) a (c, e)), tt);
    }

-- The steps of a session's life: frames come from the sockets by `get_flap` and go out by the queue and
-- its flushing; a step on a connection's own fields is any that keeps its address.
module _ {S : Type 0} (os : Os S) (cookie_of : Conn → List ℕ)
    (free_internal free_priv free_name : Conn → S → S) (run : ℕ → S → S) (malloc : Allocator)
    (fresh_bytes : ℕ → List ℕ) where
  pub data Reach : Whole → S → Type 0 where
    initialised :
        (flags debuglevel : ℕ) (s : S)
        → Reach
            (session_init os cookie_of free_internal free_priv free_name run malloc flags debuglevel
              s).0
            (session_init os cookie_of free_internal free_priv free_name run malloc flags debuglevel
              s).1
    opened :
        {w : Whole} {s : S}
        → Reach w s
        → (fresh : ℕ) (c : Conn) (sess : Session) → conn_at w.core.connlist fresh ≡ none
        → conn_getnext malloc fresh w.core ≡ some (c, sess)
        → Reach (record w { core = sess }) s
    changed :
        {w : Whole} {s : S}
        → Reach w s
        → (a : ℕ) (f : Conn → Conn) → KeepsAddr f
        → Reach (record w { core = set_conn w.core a f }) s
    received :
        {w : Whole} {s : S}
        → Reach w s
        → (a : ℕ) (c : Conn) → conn_at w.core.connlist a ≡ some c
        → Reach
            (record w { core = (get_flap os malloc fresh_bytes w.core c s).1 })
            (get_flap os malloc fresh_bytes w.core c s).2
    queued :
        {w : Whole} {s : S}
        → Reach w s
        → (a type : ℕ) (fr : Frame) (c : Conn) (sess : Session) → conn_at w.core.connlist a ≡ some c
        → enqueue_queuebased w.core (flap_for a type fr) ≡ some sess
        → Reach (record w { core = sess }) s
    flushed :
        {w : Whole} {s : S}
        → Reach w s
        → (sess : Session) (s' : S) → flushqueue os malloc fresh_bytes w.core s ≡ some (sess, s')
        → Reach (record w { core = sess }) s'
    purged : {w : Whole} {s : S} → Reach w s → Reach (record w { core = purge_rxqueue w.core }) s
    killed :
        {w : Whole} {s : S}
        → Reach w s
        → (a : ℕ)
        → Reach
            (conn_kill os cookie_of free_internal free_priv free_name w a s).0
            (conn_kill os cookie_of free_internal free_priv free_name w a s).1
    logged_off :
        {w : Whole} {s : S}
        → Reach w s
        → Reach
            (logoff os cookie_of free_internal free_priv free_name w s).0
            (logoff os cookie_of free_internal free_priv free_name w s).1

  opened-IsLive :
      (fresh : ℕ) (sess : Session) (c : Conn) (sess' : Session)
      → conn_at sess.connlist fresh ≡ none
      → conn_getnext malloc fresh sess ≡ some (c, sess')
      → IsLive sess
      → IsLive sess'
  unfolding conn_getnext conn_init
  opened-IsLive fresh sess c sess' free e live =
      elim (Bool-cases (not (malloc Request.conn) || not (malloc Request.conn_inside))) [
        | inl m ↦ let e' : none ≡ some (c, sess') = rw m at e in absurd (none-some e')
        | inr m ↦
            let e' : some
                  (conn_init fresh, record sess { connlist = conn_init fresh ∷ sess.connlist })
                ≡ some (c, sess') =
              rw m at e in
            subst IsLive (ap (λ p. p.1) (some-eq e'))
              (added-IsLive sess (conn_init fresh) free live)
      ]

  killed-IsLive :
      (w : Whole) (a : ℕ) (s : S)
      → IsLive w.core
      → IsLive (conn_kill os cookie_of free_internal free_priv free_name w a s).0.core
  unfolding conn_kill
  killed-IsLive w a s live = elim (Option-cases (conn_at w.core.connlist a)) [
    | inl e ↦ rw (unlink_conn-found a w.core.connlist ∙ e, conn_kill) live
    | inr (c, e) ↦
        (killed-IsWithout os cookie_of free_internal free_priv free_name w a c s live e).0
  ]

  stays-IsLive : {w : Whole} {s : S} → Reach w s → IsLive w.core
  unfolding conn_getnext
  stays-IsLive (initialised flags debuglevel s) =
      initialised-IsLive os cookie_of free_internal free_priv free_name run malloc flags debuglevel
        s
  stays-IsLive (opened {w = w} r fresh c sess free e) =
      opened-IsLive fresh w.core c sess free e (stays-IsLive r)
  stays-IsLive (changed {w = w} r a f k) = set_conn-IsLive w.core a f k (stays-IsLive r)
  stays-IsLive (received {w = w} {s = s} r a c e) =
      get_flap-IsLive os w.core c
        (
          c,
          subst (λ x. conn_at w.core.connlist x ≡ some c) (sym (conn_at-addr w.core.connlist a e))
              e,
        )
        (stays-IsLive r) malloc fresh_bytes s
  stays-IsLive (queued {w = w} r a type fr c sess there e) =
      subst IsLive (some-eq (sym (enqueue_one w.core a type fr there) ∙ e))
        (queued-IsLive w.core a type fr c there (stays-IsLive r))
  stays-IsLive (flushed {w = w} {s = s} r sess s' e) =
      let (sess'', s'', q, live, held) =
        flushqueue-IsLive os malloc fresh_bytes w.core s (stays-IsLive r) in
      subst IsLive (ap (λ p. p.0) (some-eq (sym q ∙ e))) live
  stays-IsLive (purged {w = w} r) = purged-IsLive w.core (stays-IsLive r)
  stays-IsLive (killed {w = w} {s = s} r a) = killed-IsLive w a s (stays-IsLive r)
  stays-IsLive (logged_off {w = w} {s = s} r) =
      logoff-IsLive os cookie_of free_internal free_priv free_name w s (stays-IsLive r)

  -- In every session that these steps lead to from its initialisation, the connections have addresses of
  -- their own and every frame that waits in a queue points to one of them; so flushing the outgoing
  -- queue follows no dangling pointer.
  pub Reach-IsLive :
      (w : Whole) (s : S)
      → Reach w s
      → IsLive w.core × ((r : Session × S) × (flushqueue os malloc fresh_bytes w.core s ≡ some r))
  Reach-IsLive w s r =
      let live = stays-IsLive r in
      let (sess', s', q, live', held) = flushqueue-IsLive os malloc fresh_bytes w.core s live in
      (live, ((sess', s'), q))
