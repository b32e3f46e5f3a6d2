-- ===== src/Txqueue/Enqueue.antt =====
-- The outgoing queue: the numbers that frames get, and what leaves the queue.
use libfaim.Prelude.{
  ℕ, ◌+◌, ◌≡◌, refl, ap, sym, ◌∙◌, Bool, false, not, Option, none, some, List, [], ◌∷◌, ◌++◌, arith,
  keep, length, u16, IsU16, append_assoc, append-nil, ==-refl,
}
use libfaim.Session.{Conn, Frame, flap, Session, conn_at, update}
use libfaim.Session.Conns.{conn_at-update}
use libfaim.Txqueue.{
  next_txseqnum, stamp, with_conn, enqueue_queuebased, purge_sent, purgequeue, goes_to, mark_sent,
  cleanqueue,
}

abbrev pub is_waiting : Frame → Bool
is_waiting f = not f.handled

abbrev pub is_elsewhere : ℕ → Frame → Bool
is_elsewhere a f = not (goes_to a f)

pub purge_sent_lem : (fs : List Frame) → purge_sent fs ≡ keep is_waiting fs
unfolding purge_sent
purge_sent_lem [] = refl
purge_sent_lem (f ∷ fs) = ground (arith, purge_sent_lem fs)

keep-mark_sent :
    (a : ℕ) (fs : List Frame)
    → keep is_waiting (mark_sent a fs) ≡ keep (is_elsewhere a) (keep is_waiting fs)
unfolding mark_sent
keep-mark_sent a [] = refl
keep-mark_sent a (f ∷ fs) = ground (arith, keep-mark_sent a fs)

-- After `aim_tx_cleanqueue` for a dying connection and a purge the outgoing queue holds, in their
-- order, the unsent frames of the other connections and nothing else; all else is as it was.
pub purgequeue-cleanqueue :
    (sess : Session) (a : ℕ)
    → purgequeue (cleanqueue sess a)
      ≡ record sess { queue_outgoing = keep (is_elsewhere a) (keep is_waiting sess.queue_outgoing) }
unfolding purgequeue cleanqueue
purgequeue-cleanqueue sess a =
    ap (λ q. record sess { queue_outgoing = q })
      (purge_sent_lem (mark_sent a sess.queue_outgoing) ∙ keep-mark_sent a sess.queue_outgoing)

-- A FLAP frame for the connection at an address.
abbrev pub flap_for : ℕ → (type : ℕ) → Frame → Frame
flap_for a type fr = record fr { hdr = flap type 0; conn = some a }

-- Frames, one after the other, through the queue-based function.
pub enqueue_all : Session → ℕ → List (ℕ × Frame) → Option Session
enqueue_all sess a [] = some sess
enqueue_all sess a ((type, fr) ∷ fs) = elim (enqueue_queuebased sess (flap_for a type fr)) [
  | none ↦ none
  | some sess' ↦ enqueue_all sess' a fs
]

-- The same frames with the numbers after `n`, as 16-bit words.
pub numbered : ℕ → ℕ → List (ℕ × Frame) → List Frame
numbered a n [] = []
numbered a n ((type, fr) ∷ fs) =
    record fr { hdr = flap type (u16 (n + 1)); conn = some a; handled = false }
    ∷ numbered a (n + 1) fs

-- What frames that were put into the queue have left.
pub record Enqueued (sess : Session) (a n : ℕ) (c : Conn) (fs : List (ℕ × Frame)) : Type 0 where
  pub after : Session
  pub returned : enqueue_all sess a fs ≡ some after
  pub queue : after.queue_outgoing ≡ sess.queue_outgoing ++ numbered a n fs
  pub counter : conn_at after.connlist a ≡ some (record c { seqnum = u16 (n + length fs) })

abbrev pub stamped : ℕ → Conn → Conn
stamped k c = record c { seqnum = k }

-- One frame.
abbrev pub next_session : Session → ℕ → ℕ → ℕ → Frame → Session
next_session sess a k type fr = record sess {
  connlist = update a (stamped k) sess.connlist;
  queue_outgoing =
      sess.queue_outgoing ++ record fr { hdr = flap type k; conn = some a; handled = false } ∷ [];
}

pub enqueue_one :
    (sess : Session) (a type : ℕ) (fr : Frame) {c : Conn}
    → conn_at sess.connlist a ≡ some c
    → enqueue_queuebased sess (flap_for a type fr)
      ≡ some (next_session sess a (u16 (c.seqnum + 1)) type fr)
unfolding enqueue_queuebased stamp with_conn next_txseqnum
enqueue_one sess a type fr e = rw (e, enqueue_queuebased) refl

enqueue_from :
    (sess : Session) (a n : ℕ) (c : Conn) (fs : List (ℕ × Frame))
    → conn_at sess.connlist a ≡ some c
    → c.seqnum ≡ u16 n
    → Enqueued sess a n c fs
unfolding enqueue_all numbered
enqueue_from sess a n c [] e q = record {
  after = sess;
  returned = refl;
  queue = sym (append-nil sess.queue_outgoing);
  counter = e ∙ ap (λ k. some (record c { seqnum = k })) (q ∙ omega arith);
}
enqueue_from sess a n c ((type, fr) ∷ fs) e q =
    let k : u16 (c.seqnum + 1) ≡ u16 (n + 1) = omega arith in
    let sess' = next_session sess a (u16 (n + 1)) type fr in
    let there : conn_at sess'.connlist a ≡ some (stamped (u16 (n + 1)) c) =
      conn_at-update a a (stamped (u16 (n + 1))) sess.connlist (λ x. refl)
      ∙ rw (==-refl a, e) refl in
    let ih = enqueue_from sess' a (n + 1) (stamped (u16 (n + 1)) c) fs there refl in
    record {
      after = ih.after;
      returned =
          rw
            (
              enqueue_one sess a type fr e ∙ ap (λ m. some (next_session sess a m type fr)) k,
              enqueue_all,
            )
            ih.returned;
      queue = ih.queue ∙ append_assoc sess.queue_outgoing _ _;
      counter = ih.counter ∙ ap (λ m. some (record c { seqnum = m })) (omega arith);
    }

-- Frames for one connection that go through the queue-based function one after the other: none is
-- lost, they are at the end of the outgoing queue in their order, unsent, with consecutive sequence
-- numbers modulo 2^16 that start after the connection's, and the connection's counter is the last one.
pub enqueue_all-numbered :
    (sess : Session) (a : ℕ) (c : Conn) (fs : List (ℕ × Frame))
    → conn_at sess.connlist a ≡ some c
    → IsU16 c.seqnum
    → Enqueued sess a c.seqnum c fs
enqueue_all-numbered sess a c fs e u = enqueue_from sess a c.seqnum c fs e (omega arith)
