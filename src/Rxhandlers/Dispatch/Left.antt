-- ===== src/Rxhandlers/Dispatch/Left.antt =====
-- aim_rxdispatch: what is left of the incoming queue.
use libfaim.Prelude.{
  ℕ, zero, suc, ◌+◌, ◌≤◌, ◌<◌, ◌≡◌, refl, ap, sym, subst, ◌∙◌, true, false, some, List, [], ◌∷◌,
  ◌==◌, arith, length, get_elem?, keep, All, Bool-cases, Option-cases, inl, inr, ==→eq, ==→ne,
}
use libfaim.Prelude.Alloc.{Allocator}
use libfaim.Session.{Frame, Session}
use libfaim.Rxqueue.{purge_rxqueue}
use libfaim.Rxqueue.Purge.{purge_lem, is_waiting}
use libfaim.Rxhandlers.{Module, Calls}
use libfaim.Rxhandlers.Dispatch.{
  crashed, hung, Dispatched, finished, out_of_rounds, dispatch_one, dispatch_loop, rxdispatch,
}
use libfaim.Rxhandlers.Dispatch.Tame.{is_control, AreTame}
use libfaim.Rxhandlers.Dispatch.OneFrame.{dispatch_one-Ends, IsServed}
use libfaim.Rxhandlers.Dispatch.Settled.{
  HaveConns, ServedFrom, is_settled, SettledTo, HasNegotiation, LoopEnds, get_elem?-lt,
  get_elem?-past, some_eq, round-LoopEnds,
}

-- What a dispatch of the session comes to: it ends, and only frames on the version and negotiation
-- channels, which their handlers did not take, are left; or a negotiation frame breaks it.
abbrev pub Leaves : {S : Type 0} → Session → Dispatched S → Type 0
Leaves sess (finished sess' s') =
    All (λ f. (f.handled ≡ false) × (is_control f.hdr ≡ true)) sess'.queue_incoming
Leaves sess crashed = HasNegotiation sess
Leaves sess hung = HasNegotiation sess
Leaves sess out_of_rounds = ⊥

All-keep :
    (q : List Frame)
    → ((j : ℕ) (f : Frame) → get_elem? q j ≡ some f → is_settled f ≡ true)
    → All (λ f. (f.handled ≡ false) × (is_control f.hdr ≡ true)) (keep is_waiting q)
All-keep [] h = tt
All-keep (x ∷ q) h = elim (Bool-cases x.handled) [
  | inl d ↦ rw d (All-keep q (λ j. h (suc j)))
  | inr d ↦
      let c : is_control x.hdr ≡ true = rw d at (h 0 x refl) in
      rw d ((refl, c), All-keep q (λ j. h (suc j)))
]

module _ {S : Type 0} (calls : Calls S) (tame : AreTame calls) (mods : List Module)
    (served_ffff : IsServed mods 0xffff) (served_17 : IsServed mods 0x17) (malloc : Allocator)
    (tlv_rounds : ℕ) where
  dispatch_loop-LoopEnds :
      (rounds i : ℕ) (sess : Session) (s : S)
      → i ≤ length sess.queue_incoming
      → length sess.queue_incoming < i + rounds
      → HaveConns sess
      → ServedFrom mods i sess
      → SettledTo i sess
      → LoopEnds sess (dispatch_loop calls mods malloc tlv_rounds rounds i sess s)
  unfolding dispatch_loop
  dispatch_loop-LoopEnds zero i sess s le lt conns served before = absurd (omega arith)
  dispatch_loop-LoopEnds (suc rounds) i sess s le lt conns served before =
      elim (Option-cases (get_elem? sess.queue_incoming i)) [
        | inl e ↦
            rw (e, dispatch_loop)
              (λ j f e'.
                before j f
                  (omega (
                    arith,
                    get_elem?-lt sess.queue_incoming j e',
                    get_elem?-past sess.queue_incoming i e,
                  ))
                  e')
        | inr (fr, e) ↦
            let inside : i < length sess.queue_incoming = get_elem?-lt sess.queue_incoming i e in
            elim (Bool-cases fr.handled) [
              | inl d ↦
                  rw (e, dispatch_loop)
                    (rw d (
                      dispatch_loop-LoopEnds rounds (i + 1) sess s (omega arith) (omega arith) conns
                        (λ j f l. served j f (omega (arith, l)))
                        (λ j f l e'. elim (Bool-cases (j == i)) [
                          | inl k ↦
                              let same : fr ≡ f = some_eq (
                                sym e
                                ∙ ap (get_elem? sess.queue_incoming) (sym (==→eq j i k))
                                ∙ e') in
                              rw (← same) (rw d refl)
                          | inr k ↦ before j f (omega (arith, ==→ne j i k)) e'
                        ])))
              | inr d ↦
                  rw (e, dispatch_loop)
                    (rw d (
                      round-LoopEnds mods i fr sess e d conns served before
                        (dispatch_loop calls mods malloc tlv_rounds rounds (i + 1))
                        (λ sess' s' l c v b.
                          dispatch_loop-LoopEnds rounds (i + 1) sess' s' (omega arith) (omega arith)
                            c v b)
                        (dispatch_one calls mods malloc tlv_rounds i fr sess s)
                        (dispatch_one-Ends calls tame mods served_ffff served_17 malloc tlv_rounds i
                          fr sess s (conns i fr e d) (served i fr (omega arith) e d))))
            ]
      ]

  -- Where every waiting frame's connection exists, every module that is asked about the families 0xffff
  -- and 0x17 or about the family of a waiting SNAC has a handler, the handlers leave the queue's other
  -- frames and the connections alone, and more rounds are allowed than there are frames: the dispatch
  -- ends, whatever the handlers answer, and after it the queue holds unhandled frames of the version and
  -- negotiation channels only, so no SNAC; unless a frame on the negotiation channel is queued, which
  -- alone can make it hang or fault.
  pub rxdispatch-Leaves :
      (rounds : ℕ) (sess : Session) (s : S)
      → length sess.queue_incoming < rounds
      → HaveConns sess
      → ServedFrom mods 0 sess
      → Leaves sess (rxdispatch calls mods malloc tlv_rounds rounds sess s)
  unfolding rxdispatch purge_rxqueue
  rxdispatch-Leaves rounds sess s lt conns served =
      purged (dispatch_loop calls mods malloc tlv_rounds rounds 0 sess s) (
        dispatch_loop-LoopEnds rounds 0 sess s (omega arith) (omega arith) conns served
          (λ j f l e. absurd (omega arith)))
    where
      purged :
          (d : Dispatched S)
          → LoopEnds sess d
          → Leaves sess (elim d [
            | crashed ↦ crashed
            | hung ↦ hung
            | out_of_rounds ↦ out_of_rounds
            | finished sess' s' ↦ finished (purge_rxqueue sess') s'
          ])
      purged crashed l = l
      purged hung l = l
      purged out_of_rounds l = l
      purged (finished sess' s') l =
          subst (All (λ f. (f.handled ≡ false) × (is_control f.hdr ≡ true)))
            (sym (purge_lem sess'.queue_incoming)) (All-keep sess'.queue_incoming l)
