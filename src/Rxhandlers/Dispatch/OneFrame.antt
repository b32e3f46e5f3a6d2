-- ===== src/Rxhandlers/Dispatch/OneFrame.antt =====
-- aim_rxdispatch: the handling of one frame.
use libfaim.Prelude.{
  false, All, ℕ, ◌≡◌, refl, sym, subst, Bool, true, ◌||◌, some, List, [], ◌∷◌, ◌==◌, if◌then◌else◌,
  arith, Bool-cases, Option-cases, inl, inr, ◌⊎◌, ==→eq, ltb,
}
use libfaim.Prelude.Alloc.{Allocator}
use libfaim.Bstream.{empty, get16}
use libfaim.Tlv.{
  Tlv, Outcome, done, out_of_fuel, readtlvchain, gettlv16, gettlv_str, Result, ok, fault,
}
use libfaim.Session.{
  Conn, Frame, Header, flap, oft, Session, conn_at, conn_type_auth, conn_type_rendezvous,
  conn_type_rendezvous_out,
}
use libfaim.Rxhandlers.{Module, Modsnac, Calls, callhandler, set_frame}
use libfaim.Rxhandlers.Dispatch.{
  Ending, went, crashed, hung, is_passed_over, ask, consumenonsnac, consumesnac,
  callhandler_noparam, connerr, negchan_middle, by_channel, dispatch_one, last_chance,
}
use libfaim.Rxhandlers.Dispatch.Tame.{
  is_control, is_negotiation, is_snac, Keeps, AreTame, Keeps-refl, Keeps-trans, Keeps-set_frame,
}

-- An ending that leaves a frame with the header handled, but for control channels, and goes wrong
-- on a negotiation frame only.
abbrev pub Ends : {S : Type 0} → ℕ → Session → Header → Ending S → Type 0
Ends i sess h (went b sess' s') = Keeps i sess sess' × ((b || is_control h) ≡ true)
Ends i sess h crashed = is_negotiation h ≡ true
Ends i sess h hung = is_negotiation h ≡ true

Result-cases : {A : Type 0} (r : Result A) → (r ≡ fault) ⊎ ((a : A) × (r ≡ ok a))
Result-cases fault = inl refl
Result-cases (ok a) = inr (a, refl)

-- The frame's connection is there.
abbrev pub HasConn : Session → Frame → Type 0
HasConn sess f = (a : ℕ) × (c : Conn) × (f.conn ≡ some a) × (conn_at sess.connlist a ≡ some c)

-- Every module that is asked about a family has a handler.
abbrev pub IsServed : List Module → ℕ → Type 0
IsServed mods family =
    All (λ m. is_passed_over family m ≡ false → (f : ℕ) × (m.snachandler ≡ some f)) mods

-- Handlers alone did the work.
abbrev OnlyKeeps : {S : Type 0} → ℕ → Session → Ending S → Type 0
OnlyKeeps i sess (went b sess' s') = Keeps i sess sess'
OnlyKeeps i sess crashed = ⊥
OnlyKeeps i sess hung = ⊥

OnlyKeeps-trans :
    {S : Type 0} {i : ℕ} {a b : Session} (e : Ending S)
    → Keeps i a b
    → OnlyKeeps i b e
    → OnlyKeeps i a e
OnlyKeeps-trans (went t sess' s') k l = Keeps-trans k l
OnlyKeeps-trans crashed k l = l
OnlyKeeps-trans hung k l = l

module _ {S : Type 0} (calls : Calls S) (tame : AreTame calls) (mods : List Module)
    (served_ffff : IsServed mods 0xffff) (served_17 : IsServed mods 0x17) where
  ask-OnlyKeeps :
      (ms : List Module) (i : ℕ) (snac : Modsnac) (sess : Session) (s : S)
      → IsServed ms snac.family
      → OnlyKeeps i sess (ask calls mods ms i snac sess s)
  unfolding ask
  ask-OnlyKeeps [] i snac sess s hs = Keeps-refl i sess
  ask-OnlyKeeps (cur ∷ next) i snac sess s (h0, hs) =
      elim (Bool-cases (is_passed_over snac.family cur)) [
        | inl h ↦ rw (h, ask) (ask-OnlyKeeps next i snac sess s hs)
        | inr h ↦
            let (f, has) = h0 h in
            let r = calls.snachandler f sess i snac s in
            let k = tame.snac_tame f sess i snac s in
            elim (Bool-cases r.0) [
              | inl t ↦ rw (h, ask) (rw has (rw t k))
              | inr t ↦
                  rw (h, ask)
                    (rw has (
                      rw t (
                        OnlyKeeps-trans (ask calls mods next i snac r.1 r.2) k
                          (ask-OnlyKeeps next i snac r.1 r.2 hs))))
            ]
      ]

  consumesnac-OnlyKeeps :
      (i : ℕ) (fr : Frame) (sess : Session) (s : S)
      → IsServed mods (get16 fr.content).0
      → OnlyKeeps i sess (consumesnac calls mods i fr sess s)
  unfolding consumesnac
  consumesnac-OnlyKeeps i fr sess s served = elim (Bool-cases (ltb (empty fr.content) 10)) [
    | inl h ↦ rw h (Keeps-refl i sess)
    | inr h ↦ rw h (
        OnlyKeeps-trans _ (Keeps-set_frame sess i _ (λ f. refl) (λ f. refl) (λ f d. d))
          (ask-OnlyKeeps mods i _ _ s served))
  ]

  -- What is only kept is an ending of any header if the frame is handled in the end.
  last_chance-Ends :
      (i : ℕ) (sess : Session) (s : S) (h : Header)
      → Ends i sess h (last_chance calls mods i sess s)
  unfolding last_chance consumenonsnac
  last_chance-Ends i sess s h = handled _ (ask-OnlyKeeps mods i _ sess s served_ffff)
    where
      handled :
          (e : Ending S)
          → OnlyKeeps i sess e
          → Ends i sess h (elim e [
            | crashed ↦ crashed
            | hung ↦ hung
            | went taken sess' s' ↦ went true sess' s'
          ])
      handled (went b sess' s') k = (k, refl)
      handled crashed k = absurd k
      handled hung k = absurd k

  Ends-trans :
      {i : ℕ} {a b : Session} (h : Header) (e : Ending S)
      → Keeps i a b
      → Ends i b h e
      → Ends i a h e
  Ends-trans h (went t sess' s') k l = (Keeps-trans k l.0, l.1)
  Ends-trans h crashed k l = l
  Ends-trans h hung k l = l

  callhandler_noparam-Keeps :
      (i : ℕ) (conn : Conn) (family type : ℕ) (sess : Session) (s : S)
      → Keeps i sess (callhandler_noparam calls mods i conn family type sess s).1
  unfolding callhandler_noparam
  callhandler_noparam-Keeps i conn family type sess s =
      elim (Option-cases (callhandler conn.handlerlist family type)) [
        | inl e ↦ rw (e, callhandler_noparam) (Keeps-refl i sess)
        | inr (f, e) ↦ rw (e, callhandler_noparam) (tame.callback_tame f sess i s)
      ]

  or_true : (b : Bool) → (b || true) ≡ true
  or_true b = ground arith

  module _ (malloc : Allocator) where
    connerr-Ends :
        (i : ℕ) (conn : Conn) (list : List Tlv) (sess : Session) (s : S) (seqnum : ℕ)
        → Ends i sess (flap 4 seqnum) (connerr calls mods malloc i conn list sess s)
    unfolding connerr
    connerr-Ends i conn list sess s seqnum = elim (Result-cases (gettlv16 list 0x0009 1)) [
      | inl e ↦ rw (e, connerr) refl
      | inr (code, e) ↦ elim (Result-cases (gettlv_str malloc list 0x000b 1)) [
        | inl m ↦ rw (e, connerr) (rw m refl)
        | inr (msg, m) ↦ elim (Option-cases (callhandler conn.handlerlist 0xffff 3)) [
          | inl u ↦ rw (e, connerr) (rw m (rw u (Keeps-refl i sess, refl)))
          | inr (f, u) ↦
              rw (e, connerr) (rw m (rw u (tame.connerr_tame f sess i code msg s, or_true _)))
        ]
      ]
    ]

    module _ (tlv_rounds : ℕ) where
      negchan_middle-Ends :
          (i : ℕ) (fr : Frame) (conn : Conn) (sess : Session) (s : S) (seqnum : ℕ)
          → Ends i sess
              (flap 4 seqnum)
              (negchan_middle calls mods malloc tlv_rounds i fr conn sess s)
      unfolding negchan_middle consumenonsnac
      negchan_middle-Ends i fr conn sess s seqnum = elim (Bool-cases (empty fr.content == 0)) [
        | inl e ↦ rw (e, negchan_middle) (Keeps-refl i sess, refl)
        | inr e ↦ elim (Bool-cases (conn.type == conn_type_auth)) [
          | inl a ↦
              rw (e, negchan_middle) (rw a (asked_auth _ (ask-OnlyKeeps mods i _ sess s served_17)))
          | inr a ↦
              rw (e, negchan_middle) (rw a (read_chain (readtlvchain malloc tlv_rounds fr.content)))
        ]
      ]
        where
          read_chain :
              (o : Outcome)
              → Ends i sess (flap 4 seqnum) (elim o [
                | out_of_fuel ↦ hung
                | done list bs ↦
                    connerr calls mods malloc i conn list
                      (set_frame sess i (λ f. record f { content = bs }))
                      s
              ])
          read_chain out_of_fuel = refl
          read_chain (done list bs) =
              Ends-trans (flap 4 seqnum) _
                (Keeps-set_frame sess i _ (λ f. refl) (λ f. refl) (λ f d. d))
                (connerr-Ends i conn list _ s seqnum)

          asked_auth : (e : Ending S) → OnlyKeeps i sess e → Ends i sess (flap 4 seqnum) e
          asked_auth (went b sess' s') k = (k, or_true b)
          asked_auth crashed k = absurd k
          asked_auth hung k = absurd k

      by_channel-Ends :
          (type i : ℕ) (fr : Frame) (conn : Conn) (sess : Session) (s : S) (seqnum : ℕ)
          → ((type == 2) ≡ true → IsServed mods (get16 fr.content).0)
          → Ends i sess
              (flap type seqnum)
              (by_channel calls mods malloc tlv_rounds type i fr conn sess s)
      unfolding by_channel consumenonsnac
      by_channel-Ends type i fr conn sess s seqnum served = elim (Bool-cases (type == 1)) [
        | inl one ↦ rw one (callhandler_noparam-Keeps i conn 0xffff 5 sess s, (rw one (or_true _)))
        | inr not_one ↦ elim (Bool-cases (type == 2)) [
          | inl two ↦ rw (not_one, two) (of_snac _ (consumesnac-OnlyKeeps i fr sess s (served two)))
          | inr not_two ↦ elim (Bool-cases (type == 4)) [
            | inl four ↦
                rw (not_one, not_two, four)
                  (subst
                    (λ t.
                      Ends i sess (flap t seqnum)
                        (negchan_middle calls mods malloc tlv_rounds i fr conn sess s))
                    (sym (==→eq type 4 four)) (negchan_middle-Ends i fr conn sess s seqnum))
            | inr not_four ↦
                rw (not_one, not_two, not_four) (last_chance-Ends i sess s (flap type seqnum))
          ]
        ]
      ]
        where
          of_snac :
              (e : Ending S)
              → OnlyKeeps i sess e
              → Ends i sess (flap type seqnum) (elim e [
                | crashed ↦ crashed
                | hung ↦ hung
                | went b sess' s' ↦ elim b [
                  | true ↦ went true sess' s'
                  | false ↦ last_chance calls mods i sess' s'
                ]
              ])
          of_snac (went true sess' s') k = (k, refl)
          of_snac (went false sess' s') k =
              Ends-trans (flap type seqnum) _ k (last_chance-Ends i sess' s' (flap type seqnum))
          of_snac crashed k = absurd k
          of_snac hung k = absurd k

      pub dispatch_one-Ends :
          (i : ℕ) (fr : Frame) (sess : Session) (s : S)
          → HasConn sess fr
          → (is_snac fr.hdr ≡ true → IsServed mods (get16 fr.content).0)
          → Ends i sess fr.hdr (dispatch_one calls mods malloc tlv_rounds i fr sess s)
      unfolding dispatch_one
      dispatch_one-Ends i fr sess s (a, conn, e, c) served =
          rw (e, dispatch_one) (rw c (by_header fr.hdr served))
        where
          by_header :
              (h : Header)
              → (is_snac h ≡ true → IsServed mods (get16 fr.content).0)
              → Ends i sess h (elim h [
                | oft type magic hdr2len hdr2 ↦ went true sess s
                | flap type seqnum ↦
                    if conn.type == conn_type_rendezvous || conn.type == conn_type_rendezvous_out
                    then went true sess s
                    else by_channel calls mods malloc tlv_rounds type i fr conn sess s
              ])
          by_header (oft type magic hdr2len hdr2) is_served = (Keeps-refl i sess, refl)
          by_header (flap type seqnum) is_served =
              elim (Bool-cases
                (conn.type == conn_type_rendezvous || conn.type == conn_type_rendezvous_out)) [
                  | inl r ↦ rw r (Keeps-refl i sess, refl)
                  | inr r ↦ rw r (by_channel-Ends type i fr conn sess s seqnum is_served)
                ]
