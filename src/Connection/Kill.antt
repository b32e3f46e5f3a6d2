-- ===== src/Connection/Kill.antt =====
-- aim_conn_kill and aim_logoff.
use libfaim.Prelude.{
  ℕ, ◌≡◌, ◌≢◌, refl, ap, sym, ◌∙◌, subst, Bool, true, false, not, ◌&&◌, none, some, List, [], ◌∷◌,
  ◌==◌, if◌then◌else◌, All, keep, Bool-cases, inl, inr, none-some, true-false, ==→ne, ==-refl,
  ne→==,
}
use libfaim.Os.{Os}
use libfaim.Session.{Conn, Frame, Session, conn_at, is_closed, conn_type_chat}
use libfaim.Rxqueue.{is_on, clean_frames, rxqueue_cleanbyconn, purge_rxqueue}
use libfaim.Txqueue.{goes_to, mark_sent, cleanqueue, purgequeue}
use libfaim.Connection.{
  Whole, unlink_conn, conn_close, connkill_real, conn_kill, connrst_loop, connrst, logoff,
}
use libfaim.Session.Conns.{IsThere, IsLinked, AreDistinct, IsLive, conn_at-addr}
use libfaim.Connection.Unlink.{unlink_conn-found, unlink_conn-left, unlink_conn-AreDistinct}
use libfaim.Rxqueue.Purge.{purge_rxqueue-cleanbyconn, purge_lem}
use libfaim.Txqueue.Enqueue.{purge_sent_lem, purgequeue-cleanqueue}

-- Where the connections but one stay, what waits after a cleaning for that one stays linked.
module _ (a : ℕ) (cs cs' : List Conn)
    (others : (b : ℕ) → (a == b) ≡ false → IsThere cs b → IsThere cs' b) where
  stays-IsLinked : (f : Frame) → is_on a f ≡ false → IsLinked cs f → IsLinked cs' f
  stays-IsLinked f off l waits =
      let (b, e, t) = l waits in
      let n : (b == a) ≡ false =
        sym (ap (λ o. elim o [ none ↦ false | some x ↦ x == a ]) e) ∙ off in
      (b, e, others b (ne→== a b (λ q. ==→ne b a n (sym q))) t)

  clean_frames-IsLinked :
      (fs : List Frame) → All (IsLinked cs) fs → All (IsLinked cs') (clean_frames a fs)
  unfolding clean_frames
  clean_frames-IsLinked [] h = tt
  clean_frames-IsLinked (f ∷ fs) (h, hs) =
      (cleaned (not f.handled && is_on a f) refl, clean_frames-IsLinked fs hs)
    where
      cleaned :
          (b : Bool)
          → (not f.handled && is_on a f) ≡ b
          → IsLinked cs' (if b then record f { handled = true } else f)
      cleaned true e waits = absurd (true-false waits)
      cleaned false e waits =
          stays-IsLinked f (sym (ap (λ x. not x && is_on a f) waits) ∙ e) h waits

  mark_sent-IsLinked :
      (fs : List Frame) → All (IsLinked cs) fs → All (IsLinked cs') (mark_sent a fs)
  unfolding mark_sent
  mark_sent-IsLinked [] h = tt
  mark_sent-IsLinked (f ∷ fs) (h, hs) = (
    elim (Bool-cases (goes_to a f)) [
      | inl o ↦ rw o (λ waits. absurd (true-false waits))
      | inr o ↦ rw o (stays-IsLinked f o h)
    ],
    mark_sent-IsLinked fs hs,
  )

-- A session without a connection, and its frames handled.
abbrev without : Session → ℕ → Session
without sess a =
    cleanqueue (rxqueue_cleanbyconn (record sess { connlist = (unlink_conn a sess.connlist).1 }) a)
      a

abbrev IsWithout : Session → ℕ → Session → Type 0
IsWithout old a sess =
    IsLive sess
    × (conn_at sess.connlist a ≡ none)
    × ((b : ℕ) → a ≢ b → conn_at sess.connlist b ≡ conn_at old.connlist b)
    × ((purge_rxqueue sess).queue_incoming
        ≡ keep (λ f. not (is_on a f)) (keep (λ f. not f.handled) old.queue_incoming))
    × ((purgequeue sess).queue_outgoing
        ≡ keep (λ f. not (goes_to a f)) (keep (λ f. not f.handled) old.queue_outgoing))

left-IsThere :
    (a : ℕ) (cs : List Conn)
    → AreDistinct cs
    → (b : ℕ) → (a == b) ≡ false
    → IsThere cs b
    → IsThere (unlink_conn a cs).1 b
left-IsThere a cs d b n (c, e) = (c, unlink_conn-left a b cs d ∙ rw n e)

without-IsWithout : (sess : Session) (a : ℕ) → IsLive sess → IsWithout sess a (without sess a)
unfolding cleanqueue rxqueue_cleanbyconn purge_rxqueue purgequeue
without-IsWithout sess a live = (
  record {
    distinct = unlink_conn-AreDistinct a sess.connlist live.distinct;
    incoming =
        clean_frames-IsLinked a sess.connlist (unlink_conn a sess.connlist).1
          (left-IsThere a sess.connlist live.distinct) sess.queue_incoming live.incoming;
    outgoing =
        mark_sent-IsLinked a sess.connlist (unlink_conn a sess.connlist).1
          (left-IsThere a sess.connlist live.distinct) sess.queue_outgoing live.outgoing;
  },
  unlink_conn-left a a sess.connlist live.distinct ∙ rw (==-refl a) refl,
  λ b n. unlink_conn-left a b sess.connlist live.distinct ∙ rw (ne→== a b n) refl,
  ap (λ x. x.queue_incoming) (purge_rxqueue-cleanbyconn sess a),
  ap (λ x. x.queue_outgoing) (purgequeue-cleanqueue (record sess { connlist = [] }) a),
)

-- Where there is no connection, no frame waits.
none_waits : (fs : List Frame) → All (IsLinked []) fs → keep (λ f. not f.handled) fs ≡ []
unfolding conn_at
none_waits [] h = refl
none_waits (f ∷ fs) (h, hs) = elim (Bool-cases f.handled) [
  | inl t ↦ rw t (none_waits fs hs)
  | inr t ↦ (let (a, e, t2) = h t in absurd (none-some t2.1))
]

module _ {S : Type 0} (os : Os S) (cookie_of : Conn → List ℕ)
    (free_internal free_priv free_name : Conn → S → S) where
  connkill_real-core :
      (w : Whole) (c : Conn) (s : S)
      → (connkill_real os cookie_of free_internal free_priv free_name w c s).0.core
        ≡ cleanqueue (rxqueue_cleanbyconn w.core c.addr) c.addr
  unfolding connkill_real
  connkill_real-core w c s = elim (Bool-cases (is_closed c)) [
    | inl h ↦ rw h refl
    | inr h ↦ rw h refl
  ]

  conn_kill-core :
      (w : Whole) (a : ℕ) (c : Conn) (s : S)
      → conn_at w.core.connlist a ≡ some c
      → (conn_kill os cookie_of free_internal free_priv free_name w a s).0.core ≡ without w.core a
  unfolding conn_kill
  conn_kill-core w a c s e =
      rw (unlink_conn-found a w.core.connlist ∙ e, conn_kill)
        (connkill_real-core _ c s
          ∙ ap
              (λ x.
                cleanqueue
                  (rxqueue_cleanbyconn
                    (record w.core { connlist = (unlink_conn a w.core.connlist).1 }) x)
                  x)
              (conn_at-addr w.core.connlist a e))

  pub killed-IsWithout :
      (w : Whole) (a : ℕ) (c : Conn) (s : S)
      → IsLive w.core
      → conn_at w.core.connlist a ≡ some c
      → IsWithout w.core a (conn_kill os cookie_of free_internal free_priv free_name w a s).0.core
  killed-IsWithout w a c s live e =
      subst (IsWithout w.core a) (sym (conn_kill-core w a c s e)) (without-IsWithout w.core a live)

  -- Killing a connection that is not for chat, of a session where the addresses are distinct and every
  -- waiting frame of either queue points to a connection: the session stays so, the connection is gone
  -- and all others are as they were; and of either queue a purge leaves exactly the waiting frames of
  -- the other connections, in their order.
  pub conn_kill-IsLive :
      (w : Whole) (a : ℕ) (c : Conn) (s : S)
      → IsLive w.core
      → conn_at w.core.connlist a ≡ some c
      → (c.type == conn_type_chat) ≡ false
      → let sess = (conn_kill os cookie_of free_internal free_priv free_name w a s).0.core in
        IsLive sess
        × (conn_at sess.connlist a ≡ none)
        × ((b : ℕ) → a ≢ b → conn_at sess.connlist b ≡ conn_at w.core.connlist b)
        × ((purge_rxqueue sess).queue_incoming
            ≡ keep (λ f. not (is_on a f)) (keep (λ f. not f.handled) w.core.queue_incoming))
        × ((purgequeue sess).queue_outgoing
            ≡ keep (λ f. not (goes_to a f)) (keep (λ f. not f.handled) w.core.queue_outgoing))
  conn_kill-IsLive w a c s live e not_chat = killed-IsWithout w a c s live e

  -- The rest of the list, once its first connection is gone.
  rest-IsThere :
      (c : Conn) (cs : List Conn) (b : ℕ)
      → (c.addr == b) ≡ false
      → IsThere (c ∷ cs) b
      → IsThere cs b
  unfolding conn_at
  rest-IsThere c cs b n (x, e) = (x, (rw n at e))

  abbrev AllLinked : List Conn → Session → Type 0
  AllLinked cs sess = All (IsLinked cs) sess.queue_incoming × All (IsLinked cs) sess.queue_outgoing

  connrst_loop-AllLinked :
      (cs : List Conn) (w : Whole) (s : S)
      → AllLinked cs w.core
      → AllLinked [] (connrst_loop os cookie_of free_internal free_priv free_name w cs s).0.core
  unfolding connrst_loop conn_close cleanqueue rxqueue_cleanbyconn
  connrst_loop-AllLinked [] w s h = h
  connrst_loop-AllLinked (cur ∷ next) w s (i, o) =
      let c = conn_close os cookie_of w.msgcookies cur s in
      let r =
        connkill_real os cookie_of free_internal free_priv free_name (record w { msgcookies = c.1 })
          c.0 c.2 in
      connrst_loop-AllLinked next r.0 r.1 (
        subst (AllLinked next) (sym (connkill_real-core (record w { msgcookies = c.1 }) c.0 c.2)) (
          clean_frames-IsLinked cur.addr (cur ∷ next) next (rest-IsThere cur next)
              w.core.queue_incoming i,
          mark_sent-IsLinked cur.addr (cur ∷ next) next (rest-IsThere cur next)
              w.core.queue_outgoing o,
        ))

  -- Logging off a session where every waiting frame of either queue points to a connection: no
  -- connection is left, and once both queues are purged they are empty.
  pub logoff-empty :
      (w : Whole) (s : S)
      → IsLive w.core
      → let sess = (logoff os cookie_of free_internal free_priv free_name w s).0.core in
        (sess.connlist ≡ [])
        × ((purge_rxqueue sess).queue_incoming ≡ [])
        × ((purgequeue sess).queue_outgoing ≡ [])
  unfolding logoff connrst purge_rxqueue purgequeue
  logoff-empty w s live =
      let sess =
        (connrst_loop os cookie_of free_internal free_priv free_name w w.core.connlist s).0.core in
      let (i, o) = connrst_loop-AllLinked w.core.connlist w s (live.incoming, live.outgoing) in
      (
        refl,
        purge_lem sess.queue_incoming ∙ none_waits sess.queue_incoming i,
        purge_sent_lem sess.queue_outgoing ∙ none_waits sess.queue_outgoing o,
      )

  connrst_loop-snacs :
      (cs : List Conn) (w : Whole) (s : S)
      → (connrst_loop os cookie_of free_internal free_priv free_name w cs s).0.snacs ≡ w.snacs
  unfolding connrst_loop connkill_real
  connrst_loop-snacs [] w s = refl
  connrst_loop-snacs (cur ∷ next) w s =
      let c = conn_close os cookie_of w.msgcookies cur s in
      let r =
        connkill_real os cookie_of free_internal free_priv free_name (record w { msgcookies = c.1 })
          c.0 c.2 in
      let same : r.0.snacs ≡ w.snacs = elim (Bool-cases (is_closed c.0)) [
        | inl h ↦ rw h refl
        | inr h ↦ rw h refl
      ] in
      connrst_loop-snacs next r.0 r.1 ∙ same

  pub logoff-snacs :
      (w : Whole) (s : S)
      → (logoff os cookie_of free_internal free_priv free_name w s).0.snacs ≡ w.snacs
  unfolding logoff connrst
  logoff-snacs w s = connrst_loop-snacs w.core.connlist w s

  pub logoff-IsLive :
      (w : Whole) (s : S)
      → IsLive w.core
      → IsLive (logoff os cookie_of free_internal free_priv free_name w s).0.core
  unfolding logoff connrst
  logoff-IsLive w s live =
      let (i, o) = connrst_loop-AllLinked w.core.connlist w s (live.incoming, live.outgoing) in
      record { distinct = tt; incoming = i; outgoing = o }
