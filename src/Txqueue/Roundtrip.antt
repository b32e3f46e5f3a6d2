-- ===== src/Txqueue/Roundtrip.antt =====
-- From one library's sendframe_flap to another's aim_get_command.
use libfaim.Prelude.{
  ℕ, ◌+◌, ◌≤◌, ◌<◌, ◌≡◌, ap, sym, ◌∙◌, List, [], ◌∷◌, ◌++◌, inl, inr, arith, length, take, IsU16,
  true,
}
use libfaim.Prelude.Alloc.{Allocator, Request}
use libfaim.Prelude.Int.{ℤ, pos}
use libfaim.Bstream.View.{cursor}
use libfaim.Os.{Os, Sends, Receives}
use libfaim.Flap.{flap_bytes}
use libfaim.Session.{Conn, Frame, Session, fd_number}
use libfaim.Rxqueue.{get_command}
use libfaim.Rxqueue.Command.{IsOpen, arrived, get_command_flap}
use libfaim.Txqueue.{fine, minus_errno, sendframe_flap}
use libfaim.Txqueue.Send.{take_all}
use libfaim.Txqueue.Frames.{sendframe_flap-IsSent}

module _ {S : Type 0} (os : Os S) (laws : Sends os) (fd : ℕ) (malloc : Allocator)
    (grants : (q : Request) → malloc q ≡ true) (fresh : ℕ → List ℕ)
    (block : (n : ℕ) → length (fresh n) ≡ n) {S' : Type 0} (os' : Os S') (laws' : Receives os')
    (sess : Session) (conn : Conn) (o : IsOpen conn)
    (complete rendezvous : Session → Conn → S' → ℤ × Session × S') where
  -- A FLAP frame with a payload of at most 65529 bytes, sent on a line that was empty, with result 0:
  -- where all that is on the line, and more, is what another side has to receive, that side's
  -- `aim_get_command` puts exactly the frame, with its channel, sequence number and payload, at the end
  -- of its queue, returns 0 and leaves the rest. Memory is granted on both sides.
  pub get_command-sendframe_flap :
      (conns : List Conn) (c : Conn) (fr : Frame) (type seqnum : ℕ) (payload r post more : List ℕ)
      (s : S) (s' : S')
      → c.fd ≡ pos fd
      → fr.content ≡ cursor payload r post
      → length payload + length r < 65536
      → length payload ≤ 65529
      → type < 256
      → IsU16 seqnum
      → os.written fd s ≡ []
      → (sendframe_flap os malloc fresh conns fr type seqnum c s).0 ≡ fine
      → os'.pending (fd_number conn) s'
        ≡ os.written fd (sendframe_flap os malloc fresh conns fr type seqnum c s).3 ++ more
      → (let t = get_command os' malloc fresh complete rendezvous sess conn s' in
          (t.0 ≡ pos 0)
          × (t.1.queue_incoming ≡ sess.queue_incoming ++ arrived conn type seqnum payload ∷ [])
          × (os'.pending (fd_number conn) t.2 ≡ more))
  get_command-sendframe_flap conns c fr type seqnum payload r post more s s' ef ec room small ht hs
        new ok line =
      let w =
        sendframe_flap-IsSent os laws fd malloc grants fresh block conns c fr type seqnum payload r
          post s ef ec room small in
      let bytes = flap_bytes type seqnum payload in
      let all : os.written fd (sendframe_flap os malloc fresh conns fr type seqnum c s).3 ≡ bytes =
        elim w.told [
          | inl t ↦
              w.line
              ∙ ap (λ l. l ++ take w.count bytes) new
              ∙ ap (λ k. take k bytes) t.1
              ∙ take_all bytes
          | inr t ↦ absurd (no_error (sym ok ∙ t))
        ] in
      let g =
        get_command_flap os' laws' malloc grants fresh block sess conn complete rendezvous o type
          seqnum payload more s' ht hs (omega arith) (line ∙ ap (λ l. l ++ more) all) in
      (g.0, g.1, g.3)
    where
      no_error : fine ≡ minus_errno → ⊥
      no_error e = cc
