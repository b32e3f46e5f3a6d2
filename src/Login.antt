-- ===== src/Login.antt =====
-- src/auth.c: the login at the authorizer, with a SNAC and the MD5 of the password or, for ICQ, with the
-- password masked by a table. MD5 is src/md5.c, a copy of another library: `md5` is the digest of the
-- pieces that are appended. A string is the list of its bytes, which ends before the first NUL.
pub mod Password
pub mod Response
mod Tests
use Prim.Native.Nat.{bit_xor}
use libfaim.Prelude.{
  ℕ, zero, suc, ◌+◌, ◌-◌, ◌/◌, ◌%◌, Bool, true, false, not, ◌&&◌, Option, none, some, List, [], ◌∷◌,
  ◌++◌, ltb, leb, ◌==◌, if◌then◌else◌, length, has_bit, set_bit,
}
use libfaim.Prelude.Alloc.{Allocator, Request}
use libfaim.Prelude.Int.{ℤ, pos}
use libfaim.Bstream.{Bstream, put32, get16, getstr}
use libfaim.Bstream.Words.{be16, be32}
use libfaim.Os.{Os}
use libfaim.Session.{Conn, Frame, Session, Handler}
use libfaim.Tlv.{Tlv, Result, ok, fault, gettlv, writetlvchain}
use libfaim.Userinfo.{c_string}
use libfaim.Txqueue.{framing_flap, tx_new}
use libfaim.Rxhandlers.{Modsnac, callhandler}
use libfaim.Connection.{Whole}
use libfaim.Requests.{Status, zero_ret, enomem, einval, Made, submit, request, add_tlvs}
use libfaim.Parsing.{
  Answer, answered, crashed, unending, Client, tell, with_chain, or_crash, number16, number32,
  string, ◌>>=◌,
}

-- The v2.1 table.
abbrev pub encoding_table : List ℕ
encoding_table =
    0xf3 ∷ 0x26 ∷ 0x81 ∷ 0xc4 ∷ 0x39 ∷ 0x86 ∷ 0xdb ∷ 0x92 ∷ 0x71 ∷ 0xa3 ∷ 0xb9 ∷ 0xe6 ∷ 0x53 ∷ 0x7a
    ∷ 0x95 ∷ 0x7c ∷ []

-- The loop over the password. `none` is a read past the end of the table.
pub encode_with : (table password : List ℕ) → Option (List ℕ)
encode_with table [] = some []
encode_with [] (x ∷ xs) = none
encode_with (t ∷ ts) (x ∷ xs) = elim (encode_with ts xs) [
  | none ↦ none
  | some ys ↦ some (bit_xor x t ∷ ys)
]

pub encode_password : (password : List ℕ) → Option (List ℕ)
encode_password password = encode_with encoding_table (c_string password)

-- "AOL Instant Messenger (SM)"
abbrev md5_string : List ℕ
md5_string =
    b'A' ∷ b'O' ∷ b'L' ∷ b' ' ∷ b'I' ∷ b'n' ∷ b's' ∷ b't' ∷ b'a' ∷ b'n' ∷ b't' ∷ b' ' ∷ b'M' ∷ b'e'
    ∷ b's' ∷ b's' ∷ b'e' ∷ b'n' ∷ b'g' ∷ b'e' ∷ b'r' ∷ b' ' ∷ b'(' ∷ b'S' ∷ b'M' ∷ b')' ∷ []

encode_password_md5 : (md5 : List (List ℕ) → List ℕ) → (password key : List ℕ) → List ℕ
encode_password_md5 md5 password key = md5 (key ∷ password ∷ md5_string ∷ [])

-- client_info_s
pub record ClientInfo : Type 0 where
  pub clientstring : Option (List ℕ)
  pub clientid : ℕ
  pub major : ℕ
  pub minor : ℕ
  pub point : ℕ
  pub build : ℕ
  pub country : List ℕ
  pub lang : List ℕ

begins_with_digit : List ℕ → Bool
begins_with_digit [] = false
begins_with_digit (c ∷ cs) = leb b'0' c && leb c b'9'

-- "ICQ Inc. - Product of ICQ (TM) 2000b.4.65.1.3281.85"
abbrev clientstr : List ℕ
clientstr =
    b'I' ∷ b'C' ∷ b'Q' ∷ b' ' ∷ b'I' ∷ b'n' ∷ b'c' ∷ b'.' ∷ b' ' ∷ b'-' ∷ b' ' ∷ b'P' ∷ b'r' ∷ b'o'
    ∷ b'd' ∷ b'u' ∷ b'c' ∷ b't' ∷ b' ' ∷ b'o' ∷ b'f' ∷ b' ' ∷ b'I' ∷ b'C' ∷ b'Q' ∷ b' ' ∷ b'('
    ∷ b'T' ∷ b'M' ∷ b')' ∷ b' ' ∷ b'2' ∷ b'0' ∷ b'0' ∷ b'0' ∷ b'b' ∷ b'.' ∷ b'4' ∷ b'.' ∷ b'6'
    ∷ b'5' ∷ b'.' ∷ b'1' ∷ b'.' ∷ b'3' ∷ b'2' ∷ b'8' ∷ b'1' ∷ b'.' ∷ b'8' ∷ b'5' ∷ []

abbrev xor_tlvs : (sn masked : List ℕ) → List (ℕ × List ℕ)
xor_tlvs sn masked =
    (0x0001, sn)
    ∷ (0x0002, masked)
    ∷ (0x0003, clientstr)
    ∷ (0x0016, be16 0x010a)
    ∷ (0x0017, be16 0x0004)
    ∷ (0x0018, be16 0x0041)
    ∷ (0x0019, be16 0x0001)
    ∷ (0x001a, be16 0x0cd1)
    ∷ (0x0014, be32 0x00000055)
    ∷ (0x000f, b'e' ∷ b'n' ∷ [])
    ∷ (0x000e, b'u' ∷ b's' ∷ [])
    ∷ []

abbrev client_string_tlv : Option (List ℕ) → List (ℕ × List ℕ)
client_string_tlv none = []
client_string_tlv (some xs) = (0x0003, xs) ∷ []

abbrev login_tlvs : (sn digest : List ℕ) → ClientInfo → List (ℕ × List ℕ)
login_tlvs sn digest ci =
    ((0x0001, sn) ∷ (0x0025, digest) ∷ [])
    ++ (client_string_tlv ci.clientstring
        ++ ((0x0016, be16 ci.clientid)
            ∷ (0x0017, be16 ci.major)
            ∷ (0x0018, be16 ci.minor)
            ∷ (0x0019, be16 ci.point)
            ∷ (0x001a, be16 ci.build)
            ∷ (0x000e, ci.country)
            ∷ (0x000f, ci.lang)
            ∷ []))

module _ {S : Type 0} (os : Os S) (malloc : Allocator) (ulong : ℕ) (block fresh : ℕ → List ℕ)
    (user_enqueue : ℕ → Session → Frame → S → Option (Session × S)) where
  -- The elements added one after the other, and the chain written.
  put_tlvs_of : List (ℕ × List ℕ) → Bstream → Option Bstream
  put_tlvs_of tlvs bs = elim (add_tlvs malloc [] tlvs) [
    | none ↦ none
    | some tl ↦ some (writetlvchain bs tl).1
  ]

  -- A frame of the first channel, which begins with the FLAP version and carries no SNAC.
  login_frame :
      (size : ℕ) → (Bstream → Option Bstream) → Whole → Conn → S → Option (Status × Whole × S)
  login_frame size body w conn s = elim (tx_new malloc (block size) conn framing_flap 1 size) [
    | none ↦ some (enomem, w, s)
    | some fr ↦ elim (body (put32 fr.content 0x00000001).1) [
      | none ↦ none
      | some bs ↦ submit os malloc ulong block fresh user_enqueue w fr bs s
    ]
  ]

  -- The cookie has 256 bytes.
  sendcookie : List ℕ → Whole → Conn → S → Option (Status × Whole × S)
  sendcookie chipsahoy w conn s =
      login_frame (4 + 2 + 2 + 0x100) (put_tlvs_of ((0x0006, chipsahoy) ∷ [])) w conn s

  sendflapver : Whole → Conn → S → Option (Status × Whole × S)
  sendflapver w conn s = login_frame 4 (λ bs. some bs) w conn s

  -- The client is given an empty key, with the flags turned to XOR login. `client` is what its handler
  -- does. The result is 0.
  goddamnicq :
      (client : ℕ → Whole → S → Option (Whole × S)) → Whole → Conn → S → Option (Status × Whole × S)
  goddamnicq client w conn s =
      let flags = set_bit 1 (if has_bit 0 w.flags then w.flags - 1 else w.flags) in
      let w' = record w { flags = flags } in
      elim (callhandler conn.handlerlist 0x0017 0x0007) [
        | none ↦ some (zero_ret, w', s)
        | some f ↦ elim (client f w' s) [ none ↦ none | some (w'', s') ↦ some (zero_ret, w'', s') ]
      ]

  -- Names that begin with a digit are ICQ's. What comes of the version frame is not looked at.
  request_login :
      (client : ℕ → Whole → S → Option (Whole × S))
      → (sn : List ℕ) → Whole
      → Conn
      → S
      → Option (Status × Whole × S)
  request_login client sn w conn s =
      if begins_with_digit sn
      then goddamnicq client w conn s
      else elim (sendflapver (record w { flags = set_bit 0 w.flags }) conn s) [
        | none ↦ none
        | some (st, w', s') ↦
            request os malloc ulong block fresh user_enqueue 0x0017 0x0006 (10 + 2 + 2 + length sn)
              [] (put_tlvs_of ((0x0001, sn) ∷ [])) w' conn s'
      ]

  -- The key and the client's information are ignored.
  goddamnicq2 : (sn password : List ℕ) → Whole → Conn → S → Option (Status × Whole × S)
  goddamnicq2 sn password w conn s =
      if not (malloc (Request.bytes (length password)))
      then some (enomem, w, s)
      else login_frame 1152
          (λ bs. elim (encode_password password) [
            | none ↦ none
            | some masked ↦ put_tlvs_of (xor_tlvs sn masked) bs
          ])
          w conn s

  -- AIM_SESS_FLAGS_XORLOGIN is bit 1. `ci` may be NULL.
  send_login :
      (md5 : List (List ℕ) → List ℕ)
      → (sn password : List ℕ) → Option ClientInfo
      → (key : List ℕ) → Whole
      → Conn
      → S
      → Option (Status × Whole × S)
  send_login md5 sn password none key w conn s = some (einval, w, s)
  send_login md5 sn password (some ci) key w conn s =
      if has_bit 1 w.flags
      then goddamnicq2 sn password w conn s
      else request os malloc ulong block fresh user_enqueue 0x0017 0x0002 1152 []
          (put_tlvs_of (login_tlvs sn (encode_password_md5 md5 password key) ci)) w conn s
