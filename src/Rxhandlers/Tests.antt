-- ===== src/Rxhandlers/Tests.antt =====
-- Modules, handlers and a dispatch on one FLAP connection.
use libfaim.Prelude.{
  map, Option, ◌==◌, not, subst, ◌∙◌, true-false, none-some, ℕ, zero, suc, ap, ◌≡◌, refl, true,
  false, none, some, List, [], ◌∷◌, ◌++◌, sym, arith, All, length,
}
use libfaim.Prelude.Alloc.{Allocator}
use libfaim.Prelude.Int.{pos}
use libfaim.Bstream.{get16, init, empty, skip}
use libfaim.Bstream.View.{cursor}
use libfaim.Bstream.Words.{be16, get16_at}
use libfaim.Tlv.{Tlv}
use libfaim.Tlv.Encoding.{chain_bytes}
use libfaim.Session.{Conn, Frame, Handler, Header, flap, Session, queuebased, conn_at}
use libfaim.Rxhandlers.{
  Module, Calls, findmodule, registermodule, same_name, callhandler_rec, clonehandlers, bleck,
}
use libfaim.Rxhandlers.Registry.{register_all, register_all-found}
use libfaim.Rxhandlers.Handlers.{
  Added, add_all, IsAllowed, callhandler_rec-first, add_all-clonehandlers,
}
use libfaim.Families.{
  auth_modfirst, icq_modfirst, ssi_modfirst, chat_modfirst, chatnav_modfirst, translate_modfirst,
}
use libfaim.Rxhandlers.Dispatch.Nulls.{rxdispatch_null}
use libfaim.Rxhandlers.Dispatch.{hung, crashed, rxdispatch}
use libfaim.Rxhandlers.Dispatch.Tame.{is_snac, AreTame, Keeps-refl}
use libfaim.Rxhandlers.Dispatch.Settled.{HaveConns, ServedFrom, some_eq}
use libfaim.Rxhandlers.Dispatch.Left.{Leaves, rxdispatch-Leaves}
use libfaim.Rxhandlers.Dispatch.OneFrame.{IsServed}
use libfaim.Connection.Startup.{modfirsts}
use libfaim.Rxhandlers.Dispatch.Stuck.{rxdispatch_stuck}

abbrev always : Allocator
always q = true

abbrev message : Added
message = record { family = 4; type = 7; newhandler = some 11; flags = 0 }

abbrev fallback : Added
fallback = record { family = 4; type = 0xffff; newhandler = none; flags = 0 }

-- The rate reply of family 1, which may not be hooked.
abbrev rates : Added
rates = record { family = 1; type = 7; newhandler = some 12; flags = 0 }

abbrev hooks : List Added
hooks = fallback ∷ rates ∷ message ∷ []

add_all-clonehandlers_example :
    All IsAllowed (add_all always [] hooks)
    × (clonehandlers always [] (add_all always [] hooks) ≡ add_all always [] hooks)
add_all-clonehandlers_example = add_all-clonehandlers always always hooks refl

abbrev handlers : List Handler
handlers =
    record { family = 1; type = 9; handler = 10; flags = 0 }
    ∷ record { family = 4; type = 0xffff; handler = bleck; flags = 0 }
    ∷ record { family = 4; type = 7; handler = 11; flags = 0 }
    ∷ []

callhandler_rec-first_example : callhandler_rec 2 handlers 4 9 ≡ some (some bleck)
callhandler_rec-first_example = callhandler_rec-first 2 handlers 4 9 (omega arith)

abbrev im_module : Module
im_module = record {
  family = 4;
  version = 1;
  toolid = 0x110;
  toolversion = 0x629;
  flags = 0;
  name = 0x6d ∷ 0x73 ∷ 0x67 ∷ [];
  snachandler = some 21;
  shutdown = none;
}

abbrev misc_module : Module
misc_module = record {
  family = 0xffff;
  version = 0;
  toolid = 0;
  toolversion = 0;
  flags = 1;
  name = 0x6d ∷ 0x69 ∷ 0x73 ∷ 0x63 ∷ [];
  snachandler = some 20;
  shutdown = some 5;
}

register_all-found_example :
    let mods =
      (register_all {S = ℕ} always
        (λ f s. s)
        []
        (some misc_module ∷ some im_module ∷ some misc_module ∷ [])
        0).0 in
    All (λ m. findmodule mods m.name ≡ some m) mods
register_all-found_example =
    register_all-found {S = ℕ} always (λ f s. s)
      (some misc_module ∷ some im_module ∷ some misc_module ∷ []) 0

-- Handlers that count their calls; the modules' take what is of family 4.
abbrev counting : Calls ℕ
counting = record {
  snachandler = λ k sess i snac s. (true, sess, suc s);
  callback = λ k sess i s. (false, sess, suc s);
  connerr = λ k sess i code msg s. (true, sess, suc s);
}

counting-AreTame : AreTame counting
counting-AreTame = record {
  snac_tame = λ k sess i snac s. Keeps-refl i sess;
  callback_tame = λ k sess i s. Keeps-refl i sess;
  connerr_tame = λ k sess i code msg s. Keeps-refl i sess;
}

abbrev bos : Conn
bos = record {
  addr = 0x1000;
  fd = pos 5;
  type = 2;
  subtype = 0;
  seqnum = 7;
  status = 1;
  lastactivity = 0;
  forcedlatency = 0;
  handlerlist = record { family = 0xffff; type = 5; handler = 30; flags = 0 } ∷ [];
  groups = [];
}

abbrev frame_of : Header → List ℕ → Frame
frame_of hdr content = record {
  hdr = hdr;
  content = init content (length content);
  handled = false;
  nofree = false;
  conn = some 0x1000;
}

-- An incoming message, then a version frame, whose handler says zero.
abbrev snac_frame : Frame
snac_frame = frame_of (flap 2 8) (0 ∷ 4 ∷ 0 ∷ 7 ∷ 0 ∷ 0 ∷ 0 ∷ 0 ∷ 0 ∷ 9 ∷ [])

abbrev version_frame : Frame
version_frame = frame_of (flap 1 9) (0 ∷ 0 ∷ 0 ∷ 1 ∷ [])

abbrev session : List Frame → Session
session q = record {
  connlist = bos ∷ [];
  queue_outgoing = [];
  queue_incoming = q;
  tx_enqueue = queuebased;
}

abbrev queue : List Frame
queue = snac_frame ∷ version_frame ∷ []

queue-HaveConns : HaveConns (session queue)
unfolding conn_at
queue-HaveConns zero f e w =
    (0x1000, bos, sym (ap (λ o. elim o [ none ↦ none | some x ↦ x.conn ]) e), refl)
queue-HaveConns (suc zero) f e w =
    (0x1000, bos, sym (ap (λ o. elim o [ none ↦ none | some x ↦ x.conn ]) e), refl)
queue-HaveConns (suc (suc j)) f e w = absurd (no_more e)
  where
    no_more : {A : Type 0} {x : A} → none ≡ some x → ⊥
    no_more e = cc

-- The modules that a session registers.
abbrev registered : List Module
registered = (register_all {S = ℕ} always (λ f s. s) [] modfirsts 0).0

-- Two of them have no handler.
registered-IsServed :
    (family : ℕ) → (0xc == family) ≡ false → (6 == family) ≡ false → IsServed registered family
unfolding registermodule findmodule same_name
registered-IsServed family c six = (
  (λ n. (0x17, refl)),
  (
    (λ n. (0x15, refl)),
    (
      (λ n. (0x13, refl)),
      (
        (λ n. (0xe, refl)),
        (
          (λ n. (0xd, refl)),
          (
            (λ n. absurd (true-false (sym (ap not c) ∙ n))),
            (
              (λ n. (0xb, refl)),
              (
                (λ n. (0xa, refl)),
                (
                  (λ n. (0x9, refl)),
                  (
                    (λ n. (0x8, refl)),
                    (
                      (λ n. (0x7, refl)),
                      (
                        (λ n. absurd (true-false (sym (ap not six) ∙ n))),
                        (
                          (λ n. (0x5, refl)),
                          (
                            (λ n. (0x4, refl)),
                            (
                              (λ n. (0x3, refl)),
                              (
                                (λ n. (0x2, refl)),
                                ((λ n. (0x1, refl)), ((λ n. (0xffff, refl)), tt)),
                              ),
                            ),
                          ),
                        ),
                      ),
                    ),
                  ),
                ),
              ),
            ),
          ),
        ),
      ),
    ),
  ),
)

queue-ServedFrom : ServedFrom registered 0 (session queue)
unfolding get16 get16_at empty init skip
queue-ServedFrom zero f le e w snac =
    let same : snac_frame ≡ f = some_eq e in
    subst (λ x. IsServed registered (get16 x.content).0) same (registered-IsServed 4 refl refl)
queue-ServedFrom (suc zero) f le e w snac =
    absurd
      (true-false (sym snac ∙ sym (ap (λ o. elim o [ none ↦ false | some x ↦ is_snac x.hdr ]) e)))
queue-ServedFrom (suc (suc j)) f le e w snac = absurd (none-some e)

rxdispatch-Leaves_example :
    Leaves (session queue) (rxdispatch counting registered always 9 3 (session queue) 0)
rxdispatch-Leaves_example =
    rxdispatch-Leaves counting counting-AreTame registered (registered-IsServed 0xffff refl refl)
      (registered-IsServed 0x17 refl refl) always 9 3 (session queue) 0 (omega arith)
      queue-HaveConns queue-ServedFrom

-- A negotiation frame with a flag and a stray byte.
abbrev flag : Tlv
flag = record { type = 0x4a; len = 0; value = [] }

abbrev stray : Frame
stray = record version_frame {
  hdr = flap 4 10;
  content = cursor [] (chain_bytes (flag ∷ []) ++ (7 ∷ [])) [];
}

rxdispatch_stuck_example :
    rxdispatch counting (misc_module ∷ []) always 1000 1000 (session (stray ∷ version_frame ∷ [])) 0
    ≡ hung
unfolding conn_at be16
rxdispatch_stuck_example =
    rxdispatch_stuck counting (misc_module ∷ []) always (λ q. refl) 1000 999
      (session (stray ∷ version_frame ∷ [])) stray (version_frame ∷ []) 0 0x1000 10 bos [] []
      (flag ∷ []) 7 refl refl refl refl refl refl refl refl
      (record { type_u16 = omega arith; len_u16 = omega arith; len_lem = refl }, tt) (omega arith)

-- A SNAC of family 0xc, behind the modules that are asked before translate's.
abbrev module_of : Option Module → Module
module_of none = misc_module
module_of (some m) = m

abbrev asked_first : List Module
asked_first =
    map module_of
      (auth_modfirst ∷ icq_modfirst ∷ ssi_modfirst ∷ chat_modfirst ∷ chatnav_modfirst ∷ [])

abbrev translate_frame : Frame
translate_frame = frame_of (flap 2 8) (0 ∷ 0xc ∷ 0 ∷ 3 ∷ 0 ∷ 0 ∷ 0 ∷ 0 ∷ 0 ∷ 9 ∷ [])

rxdispatch_null_example :
    rxdispatch counting
      (asked_first ++ module_of translate_modfirst ∷ misc_module ∷ [])
      always
      9
      3
      (session (translate_frame ∷ []))
      0
    ≡ crashed
unfolding conn_at get16 get16_at empty init skip
rxdispatch_null_example =
    rxdispatch_null counting asked_first (misc_module ∷ []) (module_of translate_modfirst) refl
      always 9 2 (session (translate_frame ∷ [])) translate_frame [] 0 0x1000 8 bos refl refl refl
      refl refl refl (omega arith) (refl, (refl, (refl, (refl, (refl, tt))))) refl
