-- ===== src/Admin.antt =====
-- src/admin.c, infochange: the answers to the requests for the account's information and for its change.
-- The client's function is called for each element; what it returns is not looked at.
pub mod Informed
mod Tests
use libfaim.Prelude.{
  ℕ, zero, suc, ◌+◌, Bool, true, false, ◌||◌, Option, none, some, List, ◌==◌, if◌then◌else◌,
}
use libfaim.Prelude.Alloc.{Allocator}
use libfaim.Prelude.Int.{pos}
use libfaim.Bstream.{Bstream, empty, get16, getraw, getstr}
use libfaim.Session.{Handler}
use libfaim.Rxhandlers.{Modsnac, callhandler}
use libfaim.Parsing.{Answer, answered, unending, Client}

-- What the client's function is given.
pub record Informing : Type 0 where
  pub change : Bool
  pub perms : ℕ
  pub type : ℕ
  pub len : ℕ
  pub val : Option (List ℕ)
  pub str : Bool

-- `(type == 0x0011) || (type == 0x0004)`
unfoldable pub is_str : (type : ℕ) → Bool
is_str type = (type == 0x0011) || (type == 0x0004)

module _ {S : Type 0} (malloc : Allocator) (handlers : List Handler) (snac : Modsnac)
    (client : Client Informing S) where
  pub inform : Informing → S → S
  inform args s = elim (callhandler handlers snac.family snac.subtype) [
    | none ↦ s
    | some f ↦ (client f args s).1
  ]

  -- The inner loop.
  inform_elements : (perms tlvcount : ℕ) → Bstream → S → Bstream × S
  inform_elements perms zero bs s = (bs, s)
  inform_elements perms (suc tlvcount) bs s = elim (empty bs == 0) [
    | true ↦ (bs, s)
    | false ↦
        let (type, b1) = get16 bs in
        let (len, b2) = get16 b1 in
        let (val, b3) = if is_str type then getstr malloc b2 len else getraw malloc b2 len in
        inform_elements perms tlvcount b3 (
          inform
            (record {
              change = snac.subtype == 0x0005;
              perms = perms;
              type = type;
              len = len;
              val = val;
              str = is_str type;
            })
            s)
  ]

  pub infochange : (rounds : ℕ) → Bstream → S → Answer S
  infochange zero bs s = unending
  infochange (suc rounds) bs s = elim (empty bs == 0) [
    | true ↦ answered (pos 1) s
    | false ↦
        let (perms, b1) = get16 bs in
        let (tlvcount, b2) = get16 b1 in
        let (bs', s') = inform_elements perms tlvcount b2 s in infochange rounds bs' s'
  ]
