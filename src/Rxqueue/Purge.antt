-- ===== src/Rxqueue/Purge.antt =====
-- aim_purge_rxqueue and aim_rxqueue_cleanbyconn.
use libfaim.Prelude.{ℕ, ◌≡◌, refl, ap, ◌∙◌, Bool, not, List, [], ◌∷◌, arith, keep}
use libfaim.Session.{Frame, Session}
use libfaim.Rxqueue.{purge, purge_rxqueue, is_on, clean_frames, rxqueue_cleanbyconn}

abbrev pub is_waiting : Frame → Bool
is_waiting f = not f.handled

abbrev is_elsewhere : ℕ → Frame → Bool
is_elsewhere a f = not (is_on a f)

pub purge_lem : (fs : List Frame) → purge fs ≡ keep is_waiting fs
unfolding purge
purge_lem [] = refl
purge_lem (f ∷ fs) = ground (arith, purge_lem fs)

keep-clean_frames :
    (a : ℕ) (fs : List Frame)
    → keep is_waiting (clean_frames a fs) ≡ keep (is_elsewhere a) (keep is_waiting fs)
unfolding clean_frames
keep-clean_frames a [] = refl
keep-clean_frames a (f ∷ fs) = ground (arith, keep-clean_frames a fs)

-- After `aim_rxqueue_cleanbyconn` and a purge the queue holds, in their order, the unhandled frames of
-- the other connections and nothing else; the connections and the outgoing queue are as they were.
pub purge_rxqueue-cleanbyconn :
    (sess : Session) (a : ℕ)
    → purge_rxqueue (rxqueue_cleanbyconn sess a)
      ≡ record sess { queue_incoming = keep (is_elsewhere a) (keep is_waiting sess.queue_incoming) }
unfolding purge_rxqueue rxqueue_cleanbyconn
purge_rxqueue-cleanbyconn sess a =
    ap (λ q. record sess { queue_incoming = q })
      (purge_lem (clean_frames a sess.queue_incoming) ∙ keep-clean_frames a sess.queue_incoming)
