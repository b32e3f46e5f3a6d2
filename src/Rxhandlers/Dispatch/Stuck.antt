-- ===== src/Rxhandlers/Dispatch/Stuck.antt =====
-- aim_rxdispatch on a negotiation frame that a peer has malformed.
use libfaim.Prelude.{
  ℕ, suc, ◌+◌, ◌<◌, ◌≡◌, refl, ap, ◌∙◌, false, some, List, [], ◌∷◌, ◌++◌, ◌==◌, arith, length, All,
  length-append, ne→==, get_elem?,
}
use libfaim.Prelude.Alloc.{Allocator}
use libfaim.Bstream.{empty}
use libfaim.Bstream.View.{cursor, empty-cursor}
use libfaim.Tlv.{Tlv, IsTlv, readtlvchain}
use libfaim.Tlv.Encoding.{chain_bytes}
use libfaim.Tlv.Read.{Grants, readtlvchain_stuck}
use libfaim.Session.{Conn, Frame, flap, Session, conn_at, conn_type_auth, is_rendezvous}
use libfaim.Rxhandlers.{Module, Calls}
use libfaim.Rxhandlers.Dispatch.{
  hung, negchan_middle, by_channel, dispatch_one, dispatch_loop, rxdispatch,
}

module _ {S : Type 0} (calls : Calls S) (mods : List Module) (malloc : Allocator)
    (grants : Grants malloc) (tlv_rounds rounds : ℕ) (sess : Session) (fr : Frame)
    (rest : List Frame) (s : S) where
  -- An unhandled frame at the head of the queue, on the negotiation channel of a connection that is
  -- neither the authorizer's nor a rendezvous, whose payload is any well-formed TLV chain followed by a
  -- single byte: with memory granted the dispatch never ends, however many rounds it is given. No frame
  -- behind it is ever handled.
  pub rxdispatch_stuck :
      (a seqnum : ℕ) (conn : Conn) (pre post : List ℕ) (ts : List Tlv) (b : ℕ)
      → sess.queue_incoming ≡ fr ∷ rest
      → fr.handled ≡ false
      → fr.hdr ≡ flap 4 seqnum
      → fr.conn ≡ some a
      → conn_at sess.connlist a ≡ some conn
      → is_rendezvous conn ≡ false
      → (conn.type == conn_type_auth) ≡ false
      → fr.content ≡ cursor pre (chain_bytes ts ++ (b ∷ [])) post
      → All IsTlv ts
      → length pre + length (chain_bytes ts) + 1 < 65536
      → rxdispatch calls mods malloc tlv_rounds (suc rounds) sess s ≡ hung
  unfolding rxdispatch dispatch_loop dispatch_one by_channel negchan_middle
  rxdispatch_stuck a seqnum conn pre post ts b q h hd c e r t content w fits =
      let bytes = chain_bytes ts ++ (b ∷ []) in
      let full : (empty fr.content == 0) ≡ false =
        ap (λ x. empty x == 0) content
        ∙ ap (λ n. n == 0) (empty-cursor pre bytes post)
        ∙ ne→== (length bytes) 0 (omega (arith, length-append (chain_bytes ts) (b ∷ []))) in
      let stuck =
        ap (readtlvchain malloc tlv_rounds) content
        ∙ readtlvchain_stuck malloc grants pre post ts w tlv_rounds b fits in
      let negchan : negchan_middle calls mods malloc tlv_rounds 0 fr conn sess s ≡ hung =
        rw (full, negchan_middle) (rw t (rw stuck refl)) in
      let one : dispatch_one calls mods malloc tlv_rounds 0 fr sess s ≡ hung =
        simp (c, e, hd, r, negchan, dispatch_one, by_channel) in
      rw (ap (λ x. get_elem? x 0) q, rxdispatch, dispatch_loop) (rw h (rw one refl))
