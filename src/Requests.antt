-- ===== src/Requests.antt =====
-- src/misc.c and the short requests of src/bos.c, buddylist.c, admin.c, search.c, service.c, ssi.c,
-- adverts.c, chatnav.c and im.c: a frame is made, its SNAC is remembered, the payload is written, and the frame
-- goes to the outgoing queue. Strings are lists of bytes without the NUL; `block n` is what a frame's
-- memory holds. `none` is a fault.
pub mod Payload
pub mod Room
mod Tests
use libfaim.Prelude.{
  ℕ, ◌+◌, ◌%◌, Bool, true, false, Option, none, some, List, [], ◌∷◌, ◌++◌, ◌==◌, if◌then◌else◌,
  length,
}
use libfaim.Prelude.Alloc.{Allocator}
use libfaim.Bstream.{Bstream, put8, put16, put32, putraw}
use libfaim.Os.{Os}
use libfaim.Session.{Conn, Frame, Session, conn_at}
use libfaim.Tlv.{Tlv, ok, fault, addtlvtochain_raw, writetlvchain}
use libfaim.Snac.{cachesnac, putsnac}
use libfaim.Txqueue.{framing_flap, tx_new, tx_enqueue}
use libfaim.Connection.{Whole, findbygroup}

-- 0, -ENOMEM and -EINVAL
pub data Status : Type 0 where
  zero_ret enomem einval : Status

-- A name behind its length.
pub put_name : Bstream → List ℕ → Bstream
put_name bs sn = (putraw (put8 bs (length sn)).1 sn (length sn)).1

-- Elements that are added to a chain, one after the other.
pub add_tlvs : Allocator → List Tlv → List (ℕ × List ℕ) → Option (List Tlv)
add_tlvs malloc list [] = some list
add_tlvs malloc list ((t, v) ∷ rest) = elim (addtlvtochain_raw malloc list t (length v) v) [
  | fault ↦ none
  | ok (n, list') ↦ add_tlvs malloc list' rest
]

module _ {S : Type 0} (os : Os S) (malloc : Allocator) (ulong : ℕ) (block fresh : ℕ → List ℕ)
    (user_enqueue : ℕ → Session → Frame → S → Option (Session × S)) where
  abbrev pub Made : Type 0
  Made = Option (Status × Whole × S)

  -- The frame goes to the queue, with its payload written.
  pub submit : Whole → Frame → Bstream → S → Made
  submit w fr bs s =
      elim (tx_enqueue os malloc fresh user_enqueue w.core (record fr { content = bs }) s) [
        | none ↦ none
        | some (sess, s') ↦ some (zero_ret, record w { core = sess }, s')
      ]

  -- The steps of a request: `cached_family` and `cached_subtype` name the SNAC in the cache, with
  -- `content`; `body` writes what follows the SNAC's header.
  pub request_as :
      (cached_family cached_subtype family subtype size : ℕ)
      → List ℕ
      → (Bstream → Option Bstream)
      → Whole
      → Conn
      → S
      → Made
  request_as cached_family cached_subtype family subtype size content body w conn s =
      elim (tx_new malloc (block size) conn framing_flap 2 size) [
        | none ↦ some (enomem, w, s)
        | some fr ↦
            let (snacid, snacs) =
              cachesnac malloc ulong (os.time s) w.snacs cached_family cached_subtype 0 content in
            elim (body (putsnac fr.content family subtype 0 snacid).1) [
              | none ↦ none
              | some bs ↦ submit (record w { snacs = snacs }) fr bs s
            ]
      ]

  abbrev pub request :
      (family subtype size : ℕ) → List ℕ → (Bstream → Option Bstream) → Whole → Conn → S → Made
  request family subtype size content body w conn s =
      request_as family subtype family subtype size content body w conn s

  -- The SNAC is not remembered; its id is 0.
  pub genericreq_n : (family subtype : ℕ) → Whole → Conn → S → Made
  genericreq_n family subtype w conn s = elim (tx_new malloc (block 10) conn framing_flap 2 10) [
    | none ↦ some (enomem, w, s)
    | some fr ↦ submit w fr (putsnac fr.content family subtype 0 0).1 s
  ]

  pub genericreq_n_snacid : (family subtype : ℕ) → Whole → Conn → S → Made
  genericreq_n_snacid family subtype w conn s =
      request family subtype 10 [] (λ bs. some bs) w conn s

  pub genericreq_l : (family subtype : ℕ) → Option ℕ → Whole → Conn → S → Made
  genericreq_l family subtype none w conn s = genericreq_n family subtype w conn s
  genericreq_l family subtype (some longdata) w conn s =
      request family subtype 14 [] (λ bs. some (put32 bs longdata).1) w conn s

  pub genericreq_s : (family subtype : ℕ) → Option ℕ → Whole → Conn → S → Made
  genericreq_s family subtype none w conn s = genericreq_n family subtype w conn s
  genericreq_s family subtype (some shortdata) w conn s =
      request family subtype 12 [] (λ bs. some (put16 bs shortdata).1) w conn s

  pub bos_reqrights : Whole → Conn → S → Made
  bos_reqrights w conn s = genericreq_n 0x0009 0x0002 w conn s

  pub bos_setgroupperm : ℕ → Whole → Conn → S → Made
  bos_setgroupperm mask w conn s = genericreq_l 0x0009 0x0004 (some mask) w conn s

  pub bos_reqbuddyrights : Whole → Conn → S → Made
  bos_reqbuddyrights w conn s = genericreq_n 0x0003 0x0002 w conn s

  pub bos_reqlocaterights : Whole → Conn → S → Made
  bos_reqlocaterights w conn s = genericreq_n 0x0002 0x0002 w conn s

  pub ads_requestads : Whole → Conn → S → Made
  ads_requestads w conn s = genericreq_n 0x0005 0x0002 w conn s

  pub reqrates : Whole → Conn → S → Made
  reqrates w conn s = genericreq_n 0x0001 0x0006 w conn s

  pub reqpersonalinfo : Whole → Conn → S → Made
  reqpersonalinfo w conn s = genericreq_n 0x0001 0x000e w conn s

  pub bos_setprivacyflags : ℕ → Whole → Conn → S → Made
  bos_setprivacyflags flags w conn s = genericreq_l 0x0001 0x0014 (some flags) w conn s

  pub reqservice : ℕ → Whole → Conn → S → Made
  reqservice serviceid w conn s = genericreq_s 0x0001 0x0004 (some serviceid) w conn s

  pub bos_setidle : ℕ → Whole → Conn → S → Made
  bos_setidle idletime w conn s = genericreq_l 0x0001 0x0011 (some idletime) w conn s

  pub chatnav_reqrights : Whole → Conn → S → Made
  chatnav_reqrights w conn s = genericreq_n_snacid 0x000d 0x0002 w conn s

  pub nop : Whole → Conn → S → Made
  nop w conn s = genericreq_n 0x0001 0x0016 w conn s

  pub ssi_reqrights : Whole → Conn → S → Made
  ssi_reqrights w conn s = genericreq_n 0x0013 0x0002 w conn s

  pub ssi_enable : Whole → Conn → S → Made
  ssi_enable w conn s = genericreq_n 0x0013 0x0007 w conn s

  pub ssi_modbegin : Whole → Conn → S → Made
  ssi_modbegin w conn s = genericreq_n 0x0013 0x0011 w conn s

  pub ssi_modend : Whole → Conn → S → Made
  ssi_modend w conn s = genericreq_n 0x0013 0x0012 w conn s

  -- The connection is the first that has the group.
  pub reqicbmparams : Whole → S → Made
  reqicbmparams w s = elim (findbygroup w.core.connlist 0x0004) [
    | none ↦ some (einval, w, s)
    | some a ↦ elim (conn_at w.core.connlist a) [
      | none ↦ none
      | some conn ↦ genericreq_n 0x0004 0x0004 w conn s
    ]
  ]

  -- AIM_WARN_ANON is bit 0.
  pub send_warning : List ℕ → ℕ → Whole → Conn → S → Made
  send_warning destsn flags w conn s =
      request 0x0004 0x0008 (length destsn + 13) (destsn ++ 0 ∷ [])
        (λ bs. some (put_name (put16 bs (flags % 2)).1 destsn)) w conn s

  pub add_buddy : List ℕ → Whole → Conn → S → Made
  add_buddy sn w conn s =
      if length sn == 0
      then some (einval, w, s)
      else request 0x0003 0x0004 (10 + 1 + length sn) (sn ++ 0 ∷ []) (λ bs. some (put_name bs sn)) w
          conn s

  pub remove_buddy : List ℕ → Whole → Conn → S → Made
  remove_buddy sn w conn s =
      if length sn == 0
      then some (einval, w, s)
      else request 0x0003 0x0005 (10 + 1 + length sn) (sn ++ 0 ∷ []) (λ bs. some (put_name bs sn)) w
          conn s

  pub usersearch_address : List ℕ → Whole → Conn → S → Made
  usersearch_address address w conn s =
      request 0x000a 0x0002 (10 + length address) (address ++ 0 ∷ [])
        (λ bs. some (putraw bs address (length address)).1) w conn s

  pub admin_reqconfirm : Whole → Conn → S → Made
  admin_reqconfirm w conn s = genericreq_n 0x0007 0x0006 w conn s

  -- The SNAC is remembered under another family than it is sent with.
  pub admin_getinfo : ℕ → Whole → Conn → S → Made
  admin_getinfo info w conn s =
      request_as 0x0002 0x0002 0x0007 0x0002 14 [] (λ bs. some (put16 (put16 bs info).1 0x0000).1) w
        conn s

  -- A request of family 7 whose payload is a chain.
  pub admin_change : ℕ → List (ℕ × List ℕ) → Whole → Conn → S → Made
  admin_change size tlvs w conn s =
      request 0x0007 0x0004 size []
        (λ bs. elim (add_tlvs malloc [] tlvs) [
          | none ↦ none
          | some tl ↦ some (writetlvchain bs tl).1
        ])
        w conn s

  pub admin_changepasswd : (newpw curpw : List ℕ) → Whole → Conn → S → Made
  admin_changepasswd newpw curpw w conn s =
      admin_change (10 + 4 + length curpw + 4 + length newpw)
        ((0x0002, newpw) ∷ (0x0012, curpw) ∷ []) w conn s

  pub admin_setemail : List ℕ → Whole → Conn → S → Made
  admin_setemail newemail w conn s =
      admin_change (10 + 2 + 2 + length newemail) ((0x0011, newemail) ∷ []) w conn s

  pub admin_setnick : List ℕ → Whole → Conn → S → Made
  admin_setnick newnick w conn s =
      admin_change (10 + 2 + 2 + length newnick) ((0x0001, newnick) ∷ []) w conn s
