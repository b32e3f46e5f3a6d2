-- ===== src/Rxhandlers/Dispatch.antt =====
-- aim_rxdispatch: each frame of the incoming queue to the handlers of its channel.
pub mod Tame
pub mod OneFrame
pub mod Settled
pub mod Left
pub mod Stuck
pub mod Nulls
use libfaim.Prelude.{
  ℕ, zero, suc, ◌+◌, ◌%◌, Bool, true, false, not, ◌&&◌, ◌||◌, Option, none, some, List, [], ◌∷◌,
  ltb, ◌==◌, if◌then◌else◌, get_elem?,
}
use libfaim.Prelude.Alloc.{Allocator}
use libfaim.Bstream.{Bstream, empty, get8, get16, get32}
use libfaim.Tlv.{
  Tlv, Outcome, done, out_of_fuel, readtlvchain, gettlv, gettlv16, gettlv_str, Result, ok, fault,
}
use libfaim.Session.{
  Conn, Frame, Header, flap, oft, Session, conn_at, conn_type_auth, conn_type_rendezvous,
  conn_type_rendezvous_out,
}
use libfaim.Rxqueue.{purge_rxqueue}
use libfaim.Rxhandlers.{Module, Modsnac, Calls, callhandler, set_frame}

-- `!(flags & AIM_MODFLAG_MULTIFAMILY) && family != snac.family`
abbrev pub is_passed_over : ℕ → Module → Bool
is_passed_over family m = not (m.flags % 2 == 1) && not (m.family == family)

-- How the handling of a frame ends: with what is stored in `handled`, at a fault, or never.
pub data Ending (S : Type 0) : Type 0 where
  went : Bool → Session → S → Ending S
  crashed hung : Ending S

pub data Dispatched (S : Type 0) : Type 0 where
  finished : Session → S → Dispatched S
  crashed hung out_of_rounds : Dispatched S

-- `bleck`: a SNAC's family and subtype are read for a message. The result is 1.
pub bleck_reads : Header → Bstream → Bstream
bleck_reads (flap type seqnum) bs = if type == 2 then (get16 (get16 bs).1).1 else bs
bleck_reads (oft type magic hdr2len hdr2) bs = bs

-- `aim_parse_unknown`: the stream is read to its end.
pub parse_unknown : ℕ → Bstream → Bstream
parse_unknown zero bs = bs
parse_unknown (suc fuel) bs =
    let rest = parse_unknown fuel (get8 bs).1 in if empty bs == 0 then bs else rest

module _ {S : Type 0} (calls : Calls S) (mods : List Module) where
  -- The modules are asked in order until one takes the SNAC; one without a handler is a NULL call.
  pub ask : List Module → ℕ → Modsnac → Session → S → Ending S
  ask [] i snac sess s = went false sess s
  ask (cur ∷ next) i snac sess s = elim (is_passed_over snac.family cur) [
    | true ↦ ask next i snac sess s
    | false ↦ elim cur.snachandler [
      | none ↦ crashed
      | some f ↦
          let (taken, sess', s') = calls.snachandler f sess i snac s in
          elim taken [ true ↦ went true sess' s' | false ↦ ask next i snac sess' s' ]
    ]
  ]

  pub consumenonsnac : ℕ → (family subtype : ℕ) → Session → S → Ending S
  consumenonsnac i family subtype sess s =
      ask mods i (record { family = family; subtype = subtype; flags = 0; id = 0 }) sess s

  -- `fr` is the frame at `i`; its stream stands behind the header when the modules are asked.
  pub consumesnac : ℕ → Frame → Session → S → Ending S
  consumesnac i fr sess s =
      let (family, b1) = get16 fr.content in
      let (subtype, b2) = get16 b1 in
      let (flags, b3) = get16 b2 in
      let (id, b4) = get32 b3 in
      if ltb (empty fr.content) 10
      then went false sess s
      else ask mods i (record { family = family; subtype = subtype; flags = flags; id = id })
          (set_frame sess i (λ f. record f { content = b4 })) s

  -- The misc module's last chance on a frame, which is then handled.
  pub last_chance : ℕ → Session → S → Ending S
  last_chance i sess s = elim (consumenonsnac i 0xffff 0xffff sess s) [
    | crashed ↦ crashed
    | hung ↦ hung
    | went taken sess' s' ↦ went true sess' s'
  ]

  abbrev handled_by : Bool × Session × S → Ending S
  handled_by r = went r.0 r.1 r.2

  pub callhandler_noparam : ℕ → Conn → (family type : ℕ) → Session → S → Bool × Session × S
  callhandler_noparam i conn family type sess s = elim (callhandler conn.handlerlist family type) [
    | none ↦ (true, sess, s)
    | some userfunc ↦ calls.callback userfunc sess i s
  ]

  module _ (malloc : Allocator) where
    -- The chain of a negotiation frame, once it is read.
    pub connerr : ℕ → Conn → List Tlv → Session → S → Ending S
    connerr i conn list sess s = elim (gettlv16 list 0x0009 1) [
      | fault ↦ crashed
      | ok code ↦ elim (gettlv_str malloc list 0x000b 1) [
        | fault ↦ crashed
        | ok msg ↦ elim (callhandler conn.handlerlist 0xffff 3) [
          | none ↦ went true sess s
          | some userfunc ↦ handled_by (calls.connerr userfunc sess i code msg s)
        ]
      ]
    ]

    module _ (tlv_rounds : ℕ) where
      pub negchan_middle : ℕ → Frame → Conn → Session → S → Ending S
      negchan_middle i fr conn sess s = elim (empty fr.content == 0) [
        | true ↦ went true sess s
        | false ↦ elim (conn.type == conn_type_auth) [
          | true ↦ consumenonsnac i 0x0017 0x0003 sess s
          | false ↦ elim (readtlvchain malloc tlv_rounds fr.content) [
            | out_of_fuel ↦ hung
            | done list bs ↦
                connerr i conn list (set_frame sess i (λ f. record f { content = bs })) s
          ]
        ]
      ]

      -- A FLAP frame, by its channel.
      pub by_channel : ℕ → ℕ → Frame → Conn → Session → S → Ending S
      by_channel type i fr conn sess s =
          if type == 1
          then handled_by (callhandler_noparam i conn 0xffff 5 sess s)
          else if type == 2
          then (elim (consumesnac i fr sess s) [
            | crashed ↦ crashed
            | hung ↦ hung
            | went b sess' s' ↦ elim b [
              | true ↦ went true sess' s'
              | false ↦ last_chance i sess' s'
            ]
          ])
          else if type == 4
          then negchan_middle i fr conn sess s
          else last_chance i sess s

      -- A frame that does not fit its connection is only marked.
      pub dispatch_one : ℕ → Frame → Session → S → Ending S
      dispatch_one i fr sess s = elim fr.conn [
        | none ↦ crashed
        | some a ↦ elim (conn_at sess.connlist a) [
          | none ↦ crashed
          | some conn ↦ elim fr.hdr [
            | oft type magic hdr2len hdr2 ↦ went true sess s
            | flap type seqnum ↦
                if conn.type == conn_type_rendezvous || conn.type == conn_type_rendezvous_out
                then went true sess s
                else by_channel type i fr conn sess s
          ]
        ]
      ]

      -- The walk over the queue, from place `i` on; what the handlers append is reached too.
      pub dispatch_loop : ℕ → ℕ → Session → S → Dispatched S
      dispatch_loop zero i sess s = out_of_rounds
      dispatch_loop (suc rounds) i sess s = elim (get_elem? sess.queue_incoming i) [
        | none ↦ finished sess s
        | some cur ↦ elim cur.handled [
          | true ↦ dispatch_loop rounds (i + 1) sess s
          | false ↦ elim (dispatch_one i cur sess s) [
            | crashed ↦ crashed
            | hung ↦ hung
            | went b sess' s' ↦
                dispatch_loop rounds (i + 1) (set_frame sess' i (λ f. record f { handled = b })) s'
          ]
        ]
      ]

      pub rxdispatch : ℕ → Session → S → Dispatched S
      rxdispatch rounds sess s = elim (dispatch_loop rounds 0 sess s) [
        | crashed ↦ crashed
        | hung ↦ hung
        | out_of_rounds ↦ out_of_rounds
        | finished sess' s' ↦ finished (purge_rxqueue sess') s'
      ]
