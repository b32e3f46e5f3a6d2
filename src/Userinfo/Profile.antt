-- ===== src/Userinfo/Profile.antt =====
-- src/info.c, aim_getinfo and userinfo, which parses the answer to it, and the requests that tell of a
-- buddy: aim_sendbuddyoncoming, aim_sendbuddyoffgoing and aim_0002_000b.
use libfaim.Prelude.{
  ℕ, ◌+◌, not, ◌||◌, Option, none, some, List, [], ◌++◌, ◌==◌, if◌then◌else◌, length, take,
  replicate, set_bit,
}
use libfaim.Prelude.Alloc.{Allocator}
use libfaim.Prelude.Int.{pos}
use libfaim.Bstream.{Bstream, init, put16}
use libfaim.Os.{Os}
use libfaim.Session.{Conn, Frame, Session, Handler}
use libfaim.Snac.{SnacCache, remsnac}
use libfaim.Rxhandlers.{Modsnac}
use libfaim.Connection.{Whole}
use libfaim.Requests.{Status, request, put_name}
use libfaim.Tlv.{Tlv, Result, ok, fault, gettlv}
use libfaim.Caps.{getcap}
use libfaim.Parsing.{Answer, answered, crashed, Client, tell, with_chain, or_crash, string, ◌>>=◌}
use libfaim.Userinfo.{Userinfo, c_string, extractuserinfo, putuserinfo}

-- `strncpy` to the field of 33 bytes.
info_sn : List ℕ → List ℕ
info_sn sn = take 33 (c_string sn ++ replicate 33 0)

-- How the compiler lays out aim_priv_inforeq is a parameter: `pack` makes its bytes.
module _ {S : Type 0} (os : Os S) (malloc : Allocator) (ulong : ℕ) (block fresh : ℕ → List ℕ)
    (user_enqueue : ℕ → Session → Frame → S → Option (Session × S)) where
  getinfo :
      (pack : List ℕ → ℕ → List ℕ)
      → (sn : List ℕ) → (infotype : ℕ) → Whole
      → Conn
      → S
      → Option (Status × Whole × S)
  getinfo pack sn infotype w conn s =
      request os malloc ulong block fresh user_enqueue 0x0002 0x0005 (12 + 1 + length sn)
        (pack (info_sn sn) infotype) (λ bs. some (put_name (put16 bs infotype).1 sn)) w conn s

  -- `stack` is what the stack of addtlvtochain_caps holds.
  sendbuddyoncoming : (stack : List ℕ) → Userinfo → Whole → Conn → S → Option (Status × Whole × S)
  sendbuddyoncoming stack info w conn s =
      request os malloc ulong block fresh user_enqueue 0x0003 0x000b 1152 []
        (λ bs. elim (putuserinfo malloc stack bs info) [ fault ↦ none | ok bs' ↦ some bs' ]) w conn
        s

  sendbuddyoffgoing : (sn : List ℕ) → Whole → Conn → S → Option (Status × Whole × S)
  sendbuddyoffgoing sn w conn s =
      request os malloc ulong block fresh user_enqueue 0x0003 0x000c (10 + 1 + length sn) []
        (λ bs. some (put_name bs sn)) w conn s

  locate_000b : (sn : List ℕ) → Whole → Conn → S → Option (Status × Whole × S)
  locate_000b sn w conn s =
      request os malloc ulong block fresh user_enqueue 0x0002 0x000b (10 + 1 + length sn) []
        (λ bs. some (put_name bs sn)) w conn s

-- The encoding and the text: of the profile (1) or of the away message (3).
texts : Allocator → (infotype : ℕ) → List Tlv → Result (Option (List ℕ) × Option (List ℕ))
texts malloc infotype list =
    if infotype == 0x0001
    then (do a ← string malloc list 0x0001; b ← string malloc list 0x0002; ok (a, b))
    else if infotype == 0x0003
    then (do a ← string malloc list 0x0003; b ← string malloc list 0x0004; ok (a, b))
    else ok (none, none)

-- The capabilities (4), which are then all that is marked as present.
asked_caps : Allocator → (infotype : ℕ) → List Tlv → Userinfo → Result Userinfo
asked_caps malloc infotype list info =
    if not (infotype == 0x0004) then ok info else elim (gettlv list 0x0005 1) [
      | none ↦ ok info
      | some ct ↦ elim (getcap malloc (init ct.value ct.len) ct.len) [
        | none ↦ fault
        | some (caps, cbs) ↦ ok (record info { capabilities = caps; present = set_bit 7 0 })
      ]
    ]

module _ {S : Type 0} (malloc : Allocator) (fuel : ℕ) (handlers : List Handler) (snac : Modsnac)
    (client : Client (Userinfo × ℕ × Option (List ℕ) × Option (List ℕ)) S) where
  answer_info : (infotype : ℕ) → Bstream → S → Answer S
  answer_info infotype bs s = elim (extractuserinfo malloc bs) [
    | none ↦ crashed
    | some (info, bs') ↦ with_chain malloc fuel bs' (λ list.
        or_crash
          (do
            (encoding, text) ← texts malloc infotype list
            info' ← asked_caps malloc infotype list info
            ok (info', infotype, encoding, text))
          (λ args. tell handlers snac client (pos 0) args s))
  ]

-- The request is taken from the cache; without its data, or with an unknown type, nothing is read. The
-- state is the cache with the world, and `infotype_of` reads the type from the bytes of the request.
userinfo :
    {S : Type 0}
    → Allocator
    → (fuel : ℕ) → (infotype_of : List ℕ → ℕ) → List Handler
    → Modsnac
    → Client (Userinfo × ℕ × Option (List ℕ) × Option (List ℕ)) (SnacCache × S)
    → Bstream
    → SnacCache × S
    → Answer (SnacCache × S)
userinfo malloc fuel infotype_of handlers snac client bs (cache, s) =
    let (origsnac, cache') = remsnac cache snac.id in
    elim origsnac [
      | none ↦ answered (pos 0) (cache', s)
      | some q ↦
          let t = infotype_of q.content in
          if (length q.content == 0) || not ((t == 0x0001) || (t == 0x0003) || (t == 0x0004))
          then answered (pos 0) (cache', s)
          else answer_info malloc fuel handlers snac client t bs (cache', s)
    ]
