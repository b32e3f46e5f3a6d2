-- ===== src/Login/Response.antt =====
-- src/auth.c, parse, keyparse and snachandler: the authorizer's answers.
use libfaim.Prelude.{ℕ, Option, none, some, List, ◌++◌, ◌==◌, if◌then◌else◌, take, replicate}
use libfaim.Prelude.Alloc.{Allocator}
use libfaim.Prelude.Int.{pos}
use libfaim.Bstream.{Bstream, get16, getstr}
use libfaim.Session.{Handler}
use libfaim.Tlv.{Tlv, Result, ok, gettlv}
use libfaim.Rxhandlers.{Modsnac}
use libfaim.Userinfo.{c_string}
use libfaim.Parsing.{
  Answer, answered, Client, tell, with_chain, or_crash, number16, number32, string, value_of, ◌>>=◌,
}

-- A released or a coming version of the server's own client.
pub record Latest : Type 0 where
  pub build : ℕ
  pub url : Option (List ℕ)
  pub info : Option (List ℕ)
  pub name : Option (List ℕ)

-- aim_authresp_info
pub record AuthrespInfo : Type 0 where
  pub sn : Option (List ℕ)
  pub errorcode : ℕ
  pub errorurl : Option (List ℕ)
  pub regstatus : ℕ
  pub email : Option (List ℕ)
  pub bosip : Option (List ℕ)
  pub cookie : Option (List ℕ)
  pub latestrelease : Latest
  pub latestbeta : Latest

read_latest : Allocator → List Tlv → (build url info name : ℕ) → Result Latest
read_latest malloc list tb tu ti tn = do
  build ← number32 list tb
  url ← string malloc list tu
  info ← string malloc list ti
  name ← string malloc list tn
  ok (record { build = build; url = url; info = info; name = name })

read_authresp : Allocator → List Tlv → Result AuthrespInfo
unfolding read_latest
read_authresp malloc list = do
  sn ← string malloc list 0x0001
  errorcode ← number16 list 0x0008
  errorurl ← string malloc list 0x0004
  bosip ← string malloc list 0x0005
  email ← string malloc list 0x0011
  regstatus ← number16 list 0x0013
  beta ← read_latest malloc list 0x0040 0x0041 0x0042 0x0043
  release ← read_latest malloc list 0x0044 0x0045 0x0046 0x0047
  ok (record {
    sn = sn;
    errorcode = errorcode;
    errorurl = errorurl;
    regstatus = regstatus;
    email = email;
    bosip = bosip;
    cookie = value_of (gettlv list 0x0006 1);
    latestrelease = release;
    latestbeta = beta;
  })

-- The session's field of 33 bytes: cleared, and filled by strncpy where there is a name.
sn_field : Option (List ℕ) → List ℕ
sn_field none = replicate 33 0
sn_field (some sn) = take 33 (c_string sn ++ replicate 33 0)

-- The state is the session's own name with the world. Without a SNAC the handler is that of 0x17/3.
parse :
    {S : Type 0}
    → Allocator
    → (fuel : ℕ) → List Handler
    → Option Modsnac
    → Client AuthrespInfo (List ℕ × S)
    → Bstream
    → S
    → Answer (List ℕ × S)
parse malloc fuel handlers snac client bs s = with_chain malloc fuel bs (λ list.
    or_crash (read_authresp malloc list) (λ info.
      tell handlers
        (elim snac [
          | none ↦ record { family = 0x0017; subtype = 0x0003; flags = 0; id = 0 }
          | some m ↦ m
        ])
        client (pos 0) info (sn_field info.sn, s)))

-- The key may be NULL. Without a handler the result is 1.
keyparse :
    {S : Type 0}
    → Allocator
    → List Handler
    → Modsnac
    → Client (Option (List ℕ)) S
    → Bstream
    → S
    → Answer S
keyparse malloc handlers snac client bs s =
    let (keylen, b1) = get16 bs in
    let (keystr, b2) = getstr malloc b1 keylen in tell handlers snac client (pos 1) keystr s

-- The two handlers by the subtype.
auth_snachandler :
    {S : Type 0}
    → Allocator
    → (fuel : ℕ) → List Handler
    → Modsnac
    → Client AuthrespInfo (List ℕ × S)
    → Client (Option (List ℕ)) (List ℕ × S)
    → Bstream
    → List ℕ × S
    → Answer (List ℕ × S)
auth_snachandler malloc fuel handlers snac on_response on_key bs (sn, s) =
    if snac.subtype == 0x0003
    then parse malloc fuel handlers (some snac) on_response bs s
    else if snac.subtype == 0x0007
    then keyparse malloc handlers snac on_key bs (sn, s)
    else answered (pos 0) (sn, s)
