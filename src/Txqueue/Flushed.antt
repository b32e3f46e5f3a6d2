-- ===== src/Txqueue/Flushed.antt =====
-- aim_tx_flushqueue: it follows no dangling pointer, and what it leaves.
use mathlib.Core.Option
use libfaim.Prelude.{
  elim-Bool, elim-Option, ℕ, ◌≡◌, refl, ap, sym, ◌∙◌, subst, true, false, not, Option, none, some,
  List, [], ◌∷◌, All, All-keep, All-map, some-eq, keep, Bool-cases, inl, inr, none-some, true-false,
}
use libfaim.Prelude.Alloc.{Allocator, Request}
use libfaim.Os.{Os}
use libfaim.Session.{Conn, Frame, Session, conn_at, in_progress}
use libfaim.Session.Conns.{IsLinked, IsLinked-Retains, IsLive}
use libfaim.Txqueue.{Ret, force_latency, flush, flushqueue, purgequeue}
use libfaim.Txqueue.Enqueue.{purge_sent_lem}
use libfaim.Txqueue.Kept.{
  connecting, Stays, Stays-refl, Stays-trans, Stays-Retains, IsSentFrom, sendframe-some,
}

abbrev pub Grants : Allocator → Type 0
Grants malloc = (q : Request) → malloc q ≡ true

-- A frame that waits, waits for its connection to be connected.
abbrev pub IsHeldUp : List Conn → Frame → Type 0
IsHeldUp conns f =
    f.handled ≡ false → (a : ℕ) × (f.conn ≡ some a) × (connecting conns a ≡ some true)

-- An unhandled frame of a connection that is being connected.
abbrev pub WaitsToConnect : List Conn → Frame → Type 0
WaitsToConnect conns f =
    (f.handled ≡ false) × (a : ℕ) × (f.conn ≡ some a) × (connecting conns a ≡ some true)

-- What the walk over the frames leaves.
record IsFlushed {S : Type 0} (malloc : Allocator) (conns : List Conn) (frames : List Frame)
    (r : List Frame × List Conn × S) : Type 0 where
  stays : Stays conns r.1
  linked : (base : List Conn) → All (IsLinked base) frames → All (IsLinked base) r.0
  left : Grants malloc → All (IsHeldUp conns) r.0

abbrev IsSafe :
    {S : Type 0} → Allocator → List Conn → List Frame → Option (List Frame × List Conn × S) → Type 0
IsSafe malloc conns frames none = ⊥
IsSafe malloc conns frames (some r) = IsFlushed malloc conns frames r

IsHeldUp-Stays :
    (conns conns' : List Conn)
    → Stays conns conns'
    → (f : Frame) → IsHeldUp conns' f
    → IsHeldUp conns f
IsHeldUp-Stays conns conns' k f h waits =
    let (a, e, p) = h waits in (a, e, sym (k.same_progress a) ∙ p)

-- A frame before the rest of the queue.
flushed_behind :
    {S : Type 0} (malloc : Allocator) (conns conns' : List Conn) (cur cur' : Frame)
    (next : List Frame)
    → Stays conns conns'
    → ((base : List Conn) → IsLinked base cur → IsLinked base cur')
    → (Grants malloc → IsHeldUp conns cur')
    → (o : Option (List Frame × List Conn × S)) → IsSafe malloc conns' next o
    → IsSafe malloc conns
        (cur ∷ next)
        (elim o [ none ↦ none | some (left, conns'', s'') ↦ some (cur' ∷ left, conns'', s'') ])
flushed_behind malloc conns conns' cur cur' next k l d none h = absurd h
flushed_behind malloc conns conns' cur cur' next k l d (some r) h = record {
  stays = Stays-trans conns conns' r.1 k h.stays;
  linked = λ base a. (l base a.0, h.linked base a.1);
  left = λ g. (d g, All-map (IsHeldUp-Stays conns conns' k) r.0 (h.left g));
}

sent-IsLinked :
    {S : Type 0} (malloc : Allocator) (conns : List Conn) (cur : Frame)
    (r : Ret × Frame × List Conn × S)
    → IsSentFrom malloc conns cur r
    → (base : List Conn) → IsLinked base cur
    → IsLinked base r.1
sent-IsLinked malloc conns cur r k base l waits = elim (Bool-cases cur.handled) [
  | inl h ↦ absurd (true-false (sym (k.still_handled h) ∙ waits))
  | inr h ↦ let (a, e, t) = l h in (a, k.same_conn ∙ e, t)
]

module _ {S : Type 0} (os : Os S) (malloc : Allocator) (fresh : ℕ → List ℕ) where
  flush-IsSafe :
      (conns : List Conn) (frames : List Frame) (s : S)
      → All (IsLinked conns) frames
      → IsSafe malloc conns frames (flush os malloc fresh conns frames s)
  unfolding flush
  flush-IsSafe conns [] s ls = record {
    stays = Stays-refl conns;
    linked = λ base a. a;
    left = λ g. tt;
  }
  flush-IsSafe conns (cur ∷ next) s (l, ls) =
      let P = IsSafe {S = S} malloc conns (cur ∷ next) in
      let kept = λ (d : IsHeldUp conns cur).
        flushed_behind malloc conns conns cur cur next (Stays-refl conns) (λ base l. l) (λ g. d)
          (flush os malloc fresh conns next s) (flush-IsSafe conns next s ls) in
      elim-Bool P cur.handled _ _ (λ h. kept (λ waits. absurd (true-false (sym h ∙ waits))))
        (λ h.
          let (b, eb, (x, ex)) = l h in
          elim-Option P cur.conn none _ (λ e. absurd (none-some (sym e ∙ eb)))
            (λ a e.
              elim-Option P (conn_at conns a) none _
                (λ n. absurd (none-some (sym n ∙ ap (conn_at conns) (some-eq (sym e ∙ eb)) ∙ ex)))
                (λ c e'.
                  elim-Bool P (in_progress c) _ _
                    (λ p. kept (λ waits.
                      (a, e, ap (Option.map (λ c. in_progress c)) e' ∙ ap (λ y. some y) p)))
                    (λ p.
                      let (r, q, k) =
                        sendframe-some os malloc fresh conns cur (force_latency os malloc fresh c s)
                          a c e e' in
                      rw q (
                        flushed_behind malloc conns r.2 cur r.1 next k.conns_stay
                          (sent-IsLinked malloc conns cur r k)
                          (λ g w. absurd (true-false (sym (k.sent_handled g) ∙ w)))
                          (flush os malloc fresh r.2 next r.3)
                          (flush-IsSafe r.2 next r.3 (
                            All-map
                              (IsLinked-Retains conns r.2 (Stays-Retains conns r.2 k.conns_stay))
                              next ls)))))))

  -- The session after a walk.
  flushed_session :
      (sess : Session) (r : List Frame × List Conn × S)
      → IsLive sess
      → IsFlushed malloc sess.connlist sess.queue_outgoing r
      → let sess' = purgequeue (record sess { queue_outgoing = r.0; connlist = r.1 }) in
        IsLive sess' × (Grants malloc → All (WaitsToConnect sess.connlist) sess'.queue_outgoing)
  unfolding purgequeue
  flushed_session sess r live k =
      let retains = Stays-Retains sess.connlist r.1 k.stays in
      let purged = purge_sent_lem r.0 in
      (
        record {
          distinct = k.stays.distinct live.distinct;
          incoming =
              All-map (IsLinked-Retains sess.connlist r.1 retains) sess.queue_incoming
                live.incoming;
          outgoing = subst (All (IsLinked r.1)) (sym purged) (
              All-keep (IsLinked r.1) (λ f. not f.handled) r.0
                (k.linked r.1 (
                  All-map (IsLinked-Retains sess.connlist r.1 retains) sess.queue_outgoing
                    live.outgoing)));
        },
        λ g. subst (All _) (sym purged) (waiting r.0 (k.left g)),
      )
    where
      waiting :
          (fs : List Frame)
          → All (IsHeldUp sess.connlist) fs
          → All (WaitsToConnect sess.connlist) (keep (λ f. not f.handled) fs)
      waiting [] h = tt
      waiting (f ∷ fs) (h, hs) = elim (Bool-cases f.handled) [
        | inl t ↦ rw t (waiting fs hs)
        | inr t ↦ let (a, e, c) = h t in rw t ((refl, a, e, c), waiting fs hs)
      ]

  -- Flushing a session where every waiting frame of either queue points to a connection: no dangling
  -- pointer is followed, the session stays so, and with memory the frames that are left in the queue are
  -- those of connections that are still being connected.
  pub flushqueue-IsLive :
      (sess : Session) (s : S)
      → IsLive sess
      → (sess' : Session) × (s' : S) × (flushqueue os malloc fresh sess s ≡ some (sess', s'))
        × IsLive sess'
        × (Grants malloc → All (WaitsToConnect sess.connlist) sess'.queue_outgoing)
  unfolding flushqueue
  flushqueue-IsLive sess s live =
      walked (flush os malloc fresh sess.connlist sess.queue_outgoing s) refl
        (flush-IsSafe sess.connlist sess.queue_outgoing s live.outgoing)
    where
      walked :
          (o : Option (List Frame × List Conn × S))
          → flush os malloc fresh sess.connlist sess.queue_outgoing s ≡ o
          → IsSafe malloc sess.connlist sess.queue_outgoing o
          → (sess' : Session) × (s' : S) × (flushqueue os malloc fresh sess s ≡ some (sess', s'))
            × IsLive sess'
            × (Grants malloc → All (WaitsToConnect sess.connlist) sess'.queue_outgoing)
      walked none e h = absurd h
      walked (some r) e h =
          let (live', held) = flushed_session sess r live h in
          (_, r.2, rw (e, flushqueue) refl, live', held)
