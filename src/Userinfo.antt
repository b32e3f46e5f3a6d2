-- ===== src/Userinfo.antt =====
-- src/info.c: aim_userinfo_t, aim_extractuserinfo with dumptlv, aim_putuserinfo and
-- aim_userinfo_hascap, and aim_addtlvtochain_userinfo of src/tlv.c. The flags of `present` are given by
-- the numbers of their bits: 0 flags, 1 member since, 2 online since, 3 idle time, 4 ICQ status,
-- 5 ICQ address, 6 ICQ data, 7 capabilities, 8 session length, 9 creation time.
mod Profile
pub mod Fields
pub mod Chain
pub mod Added
pub mod Written
pub mod RoundTrip
mod Tests
use libfaim.Prelude.{
  ℕ, zero, suc, ◌+◌, ◌/◌, ◌%◌, Bool, true, false, ◌||◌, Option, none, some, List, [], ◌∷◌, ltb,
  ◌==◌, if◌then◌else◌, has_bit, set_bit, u8, memcpy, replicate, length,
}
use libfaim.Prelude.Int.{ℤ, pos, negsuc}
use libfaim.Prelude.Alloc.{Allocator}
use libfaim.Bstream.{
  Bstream, init, curpos, setpos, get8, get16, get32, copy_out, put8, put16, putraw,
}
use libfaim.Tlv.{
  Tlv, Result, ok, fault, addtlvtochain_raw, addtlvtochain16, addtlvtochain32, counttlvchain,
  writetlvchain,
}
use libfaim.Caps.{getcap, addtlvtochain_caps}

-- `sn` is the field of 33 bytes.
pub record Userinfo : Type 0 where
  pub sn : List ℕ
  pub warnlevel : ℕ
  pub idletime : ℕ
  pub flags : ℕ
  pub createtime : ℕ
  pub membersince : ℕ
  pub onlinesince : ℕ
  pub sessionlen : ℕ
  pub capabilities : ℕ
  pub icq_status : ℕ
  pub icq_ipaddr : ℕ
  pub icq_crap : List ℕ
  pub present : ℕ

-- What `memset` leaves.
abbrev pub cleared : Userinfo
cleared = record {
  sn = replicate 33 0;
  warnlevel = 0;
  idletime = 0;
  flags = 0;
  createtime = 0;
  membersince = 0;
  onlinesince = 0;
  sessionlen = 0;
  capabilities = 0;
  icq_status = 0;
  icq_ipaddr = 0;
  icq_crap = replicate 37 0;
  present = 0;
}

-- The bytes before the first NUL, which `strlen` counts.
unfoldable pub c_string : List ℕ → List ℕ
c_string [] = []
c_string (x ∷ xs) = if x == 0 then [] else x ∷ c_string xs

-- -1 where the capabilities are not known.
userinfo_hascap : Userinfo → (cap : ℕ) → ℤ
userinfo_hascap ui cap =
    if has_bit 7 ui.present
    then (if has_bit cap ui.capabilities then pos 1 else pos 0)
    else negsuc 0

-- The bytes that dumptlv prints; its `len` is 8 bits wide.
dump_bytes : ℕ → Bstream → Bstream
dump_bytes zero bs = bs
dump_bytes (suc n) bs = dump_bytes n (get8 bs).1

-- A number that has been read is stored.
got : ℕ × Bstream → (ℕ → Userinfo) → Option (Userinfo × Bstream)
got (v, bs) f = some (f v, bs)

read_crap : Bstream → Userinfo → Option (Userinfo × Bstream)
read_crap bs info =
    let (n, crap, b) = copy_out bs 0x25 in
    some
      (record info { icq_crap = memcpy info.icq_crap 0 crap; present = set_bit 6 info.present }, b)

read_caps : Option (ℕ × Bstream) → Userinfo → Option (Userinfo × Bstream)
read_caps none info = none
read_caps (some (caps, b)) info =
    some (record info { capabilities = caps; present = set_bit 7 info.present }, b)

-- The value of one element. `none` is a fault in `getcap`.
pub read_field : Allocator → (type len : ℕ) → Bstream → Userinfo → Option (Userinfo × Bstream)
unfolding got
read_field malloc type len bs info =
    if type == 0x0001
    then got (get16 bs) (λ v. record info { flags = v; present = set_bit 0 info.present })
    else if type == 0x0002
    then got (get32 bs) (λ v. record info { createtime = v; present = set_bit 9 info.present })
    else if type == 0x0003
    then got (get32 bs) (λ v. record info { onlinesince = v; present = set_bit 2 info.present })
    else if type == 0x0004
    then got (get16 bs) (λ v. record info { idletime = v; present = set_bit 3 info.present })
    else if type == 0x0005
    then got (get32 bs) (λ v. record info { membersince = v; present = set_bit 1 info.present })
    else if type == 0x0006
    then got (get16 (get16 bs).1)
        (λ v. record info { icq_status = v; present = set_bit 4 info.present })
    else if type == 0x000a
    then got (get32 bs) (λ v. record info { icq_ipaddr = v; present = set_bit 5 info.present })
    else if type == 0x000c
    then read_crap bs info
    else if type == 0x000d
    then read_caps (getcap malloc bs len) info
    else if type == 0x000e
    then some (info, bs)
    else if (type == 0x000f) || (type == 0x0010)
    then got (get32 bs) (λ v. record info { sessionlen = v; present = set_bit 8 info.present })
    else if (type == 0x001d) || (type == 0x001e)
    then some (info, bs)
    else some (info, dump_bytes (u8 len) bs)

-- A position past the end is not taken, and the stream stays where reading the value left it.
pub read_fields : Allocator → (tlvcnt : ℕ) → Bstream → Userinfo → Option (Userinfo × Bstream)
read_fields malloc zero bs info = some (info, bs)
read_fields malloc (suc n) bs info =
    let (type, b1) = get16 bs in
    let (len, b2) = get16 b1 in
    let endpos = curpos b2 + len in
    elim (read_field malloc type len b2 info) [
      | none ↦ none
      | some (info', b3) ↦ read_fields malloc n (setpos b3 (pos endpos)).1 info'
    ]

-- `none` is a fault: a screen name that overflows its field, which is not looked at in the source, or a
-- fault of an element.
pub extractuserinfo : Allocator → Bstream → Option (Userinfo × Bstream)
extractuserinfo malloc bs =
    let (snlen, b1) = get8 bs in
    let (n, name, b2) = copy_out b1 snlen in
    let (warnlevel, b3) = get16 b2 in
    let (tlvcnt, b4) = get16 b3 in
    if ltb 33 (length name)
    then none
    else read_fields malloc tlvcnt b4
        (record cleared { sn = memcpy cleared.sn 0 name; warnlevel = warnlevel })

-- One conditional addition to the chain.
add_if : Bool → (List Tlv → Result (ℕ × List Tlv)) → Result (List Tlv) → Result (List Tlv)
add_if b add fault = fault
add_if false add (ok list) = ok list
add_if true add (ok list) = elim (add list) [ fault ↦ fault | ok (n, list') ↦ ok list' ]

-- The chain of the elements. ICQ_OSCAR_SUPPORT is not defined, and the elements that hang on it are
-- left out. `fresh` is what the stack of addtlvtochain_caps holds.
pub user_chain : Allocator → (fresh : List ℕ) → Userinfo → Result (List Tlv)
user_chain malloc fresh info =
    let c1 =
      add_if (has_bit 0 info.present) (λ l. addtlvtochain16 malloc l 0x0001 info.flags) (ok []) in
    let c2 =
      add_if (has_bit 1 info.present) (λ l. addtlvtochain32 malloc l 0x0002 info.membersince) c1 in
    let c3 =
      add_if (has_bit 2 info.present) (λ l. addtlvtochain32 malloc l 0x0003 info.onlinesince) c2 in
    let c4 =
      add_if (has_bit 3 info.present) (λ l. addtlvtochain16 malloc l 0x0004 info.idletime) c3 in
    let c5 =
      add_if (has_bit 7 info.present)
        (λ l. addtlvtochain_caps malloc fresh l 0x000d info.capabilities) c4 in
    add_if (has_bit 8 info.present)
      (λ l.
        addtlvtochain32 malloc l (if has_bit 2 info.flags then 0x0010 else 0x000f) info.sessionlen)
      c5

pub putuserinfo : Allocator → (fresh : List ℕ) → Bstream → Userinfo → Result Bstream
putuserinfo malloc fresh bs info =
    let name = c_string info.sn in
    let b1 = (put8 bs (length name)).1 in
    let b2 = (putraw b1 name (length name)).1 in
    let b3 = (put16 b2 info.warnlevel).1 in
    elim (user_chain malloc fresh info) [
      | fault ↦ fault
      | ok list ↦ ok (writetlvchain (put16 b3 (counttlvchain list)).1 list).1
    ]

-- `block` is what the 1024 bytes on the stack hold.
addtlvtochain_userinfo :
    Allocator → (fresh block : List ℕ) → List Tlv → (type : ℕ) → Userinfo → Result (ℕ × List Tlv)
addtlvtochain_userinfo malloc fresh block list type ui =
    elim (putuserinfo malloc fresh (init block 1024) ui) [
      | fault ↦ fault
      | ok bs ↦ addtlvtochain_raw malloc list type (curpos bs) bs.buf
    ]
