-- ===== src/Rxhandlers/Dispatch/Nulls.antt =====
-- aim_rxdispatch on a SNAC of a module without a handler.
use libfaim.Prelude.{
  ℕ, suc, ◌≤◌, ◌≡◌, refl, ap, true, false, some, none, List, [], ◌∷◌, ◌++◌, All, get_elem?, le→ltb,
}
use libfaim.Prelude.Alloc.{Allocator}
use libfaim.Bstream.{empty, get16}
use libfaim.Session.{Conn, Frame, flap, Session, conn_at, is_rendezvous}
use libfaim.Rxhandlers.{Module, Modsnac, Calls}
use libfaim.Rxhandlers.Dispatch.{
  crashed, is_passed_over, ask, consumesnac, by_channel, dispatch_one, dispatch_loop, rxdispatch,
}

module _ {S : Type 0} (calls : Calls S) (front behind : List Module) (m : Module)
    (null : m.snachandler ≡ none) where
  ask_null :
      (mods ms : List Module) (i : ℕ) (snac : Modsnac) (sess : Session) (s : S)
      → All (λ x. is_passed_over snac.family x ≡ true) ms
      → is_passed_over snac.family m ≡ false
      → ask calls mods (ms ++ m ∷ behind) i snac sess s ≡ crashed
  unfolding ask
  ask_null mods [] i snac sess s passed taken = rw (taken, ask) (rw null refl)
  ask_null mods (x ∷ ms) i snac sess s (p, ps) taken =
      rw (p, ask) (ask_null mods ms i snac sess s ps taken)

  -- An unhandled SNAC frame at the head of the queue, on a connection that is not a rendezvous, with a
  -- whole header. Where the first module that its family concerns has no handler, the dispatch calls a
  -- NULL pointer.
  pub rxdispatch_null :
      (malloc : Allocator) (tlv_rounds rounds : ℕ) (sess : Session) (fr : Frame) (rest : List Frame)
      (s : S) (a seqnum : ℕ) (conn : Conn)
      → sess.queue_incoming ≡ fr ∷ rest
      → fr.handled ≡ false
      → fr.hdr ≡ flap 2 seqnum
      → fr.conn ≡ some a
      → conn_at sess.connlist a ≡ some conn
      → is_rendezvous conn ≡ false
      → 10 ≤ empty fr.content
      → All (λ x. is_passed_over (get16 fr.content).0 x ≡ true) front
      → is_passed_over (get16 fr.content).0 m ≡ false
      → rxdispatch calls (front ++ m ∷ behind) malloc tlv_rounds (suc rounds) sess s ≡ crashed
  unfolding rxdispatch dispatch_loop dispatch_one by_channel consumesnac
  rxdispatch_null malloc tlv_rounds rounds sess fr rest s a seqnum conn q h hd c e r whole passed
        taken =
      let mods = front ++ m ∷ behind in
      let snac : consumesnac calls mods 0 fr sess s ≡ crashed =
        rw (le→ltb (empty fr.content) 10 whole) (ask_null mods front 0 _ _ s passed taken) in
      let one : dispatch_one calls mods malloc tlv_rounds 0 fr sess s ≡ crashed =
        simp (c, e, hd, r, snac, dispatch_one, by_channel) in
      rw (ap (λ x. get_elem? x 0) q, rxdispatch, dispatch_loop) (rw h (rw one refl))
