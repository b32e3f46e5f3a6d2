-- ===== src/Directory.antt =====
-- src/misc.c: the requests that set what others find about the user: aim_bos_setprofile,
-- aim_setdirectoryinfo and aim_setuserinterests, and aim_bos_setbuddylist. Their frames are as long as
-- what they hold. A string that may be NULL is an Option.
use libfaim.Prelude.{
  ℕ, ◌+◌, true, false, not, Option, none, some, List, [], ◌∷◌, ◌++◌, ◌==◌, if◌then◌else◌, length,
}
use libfaim.Prelude.Alloc.{Allocator, Request}
use libfaim.Bstream.{Bstream}
use libfaim.Bstream.Words.{be16}
use libfaim.Os.{Os}
use libfaim.Session.{Conn, Frame, Session}
use libfaim.Snac.{cachesnac, putsnac}
use libfaim.Txqueue.{framing_flap, tx_new}
use libfaim.Connection.{Whole}
use libfaim.Requests.{Status, enomem, einval, request, submit, put_name, add_tlvs}
use libfaim.Tlv.{Tlv, ok, fault, sizetlvchain, writetlvchain}
use libfaim.Caps.{addtlvtochain_caps}

abbrev ended : List ℕ → List (List ℕ) → List (List ℕ)
ended [] rest = rest
ended (x ∷ xs) rest = (x ∷ xs) ∷ rest

-- `strtok`: the longest parts without the delimiter that are not empty. `cur` is what of the current
-- part has been read.
tokens : (dl : ℕ) → (cur : List ℕ) → List ℕ → List (List ℕ)
tokens dl cur [] = ended cur []
tokens dl cur (x ∷ xs) = elim (x == dl) [
  | true ↦ ended cur (tokens dl [] xs)
  | false ↦ tokens dl (cur ++ x ∷ []) xs
]

-- The bytes that the names take.
names_len : List (List ℕ) → ℕ
names_len [] = 0
names_len (n ∷ ns) = 1 + length n + names_len ns

put_names : List (List ℕ) → Bstream → Bstream
put_names [] bs = bs
put_names (n ∷ ns) bs = put_names ns (put_name bs n)

-- "text/aolrtf; charset=\"us-ascii\""
abbrev defencoding : List ℕ
defencoding =
    b't' ∷ b'e' ∷ b'x' ∷ b't' ∷ b'/' ∷ b'a' ∷ b'o' ∷ b'l' ∷ b'r' ∷ b't' ∷ b'f' ∷ b';' ∷ b' ' ∷ b'c'
    ∷ b'h' ∷ b'a' ∷ b'r' ∷ b's' ∷ b'e' ∷ b't' ∷ b'=' ∷ 0x22 ∷ b'u' ∷ b's' ∷ b'-' ∷ b'a' ∷ b's'
    ∷ b'c' ∷ b'i' ∷ b'i' ∷ 0x22 ∷ []

-- An element that is there only if its string is.
abbrev if_given : (type : ℕ) → Option (List ℕ) → List (ℕ × List ℕ)
if_given type none = []
if_given type (some v) = (type, v) ∷ []

abbrev profile_tlvs : Option (List ℕ) → List (ℕ × List ℕ)
profile_tlvs none = []
profile_tlvs (some profile) = (0x0001, defencoding) ∷ (0x0002, profile) ∷ []

-- An empty message ends the absence.
abbrev away_tlvs : Option (List ℕ) → List (ℕ × List ℕ)
away_tlvs none = []
away_tlvs (some []) = (0x0004, []) ∷ []
away_tlvs (some (x ∷ xs)) = (0x0003, defencoding) ∷ (0x0004, x ∷ xs) ∷ []

pub record DirectoryEntry : Type 0 where
  pub first : Option (List ℕ)
  pub middle : Option (List ℕ)
  pub last : Option (List ℕ)
  pub maiden : Option (List ℕ)
  pub nickname : Option (List ℕ)
  pub street : Option (List ℕ)
  pub city : Option (List ℕ)
  pub state : Option (List ℕ)
  pub zip : Option (List ℕ)

-- The country is not sent.
directory_tlvs : DirectoryEntry → (privacy : ℕ) → List (ℕ × List ℕ)
directory_tlvs e privacy =
    (0x000a, be16 privacy)
    ∷ (if_given 0x0001 e.first
        ++ (if_given 0x0002 e.last
            ++ (if_given 0x0003 e.middle
                ++ (if_given 0x0004 e.maiden
                    ++ (if_given 0x0007 e.state
                        ++ (if_given 0x0008 e.city
                            ++ (if_given 0x000c e.nickname
                                ++ (if_given 0x000d e.zip ++ if_given 0x0021 e.street))))))))

interest_tlvs : List (Option (List ℕ)) → List (ℕ × List ℕ)
interest_tlvs [] = []
interest_tlvs (i ∷ is) = if_given 0x000b i ++ interest_tlvs is

module _ {S : Type 0} (os : Os S) (malloc : Allocator) (ulong : ℕ) (block fresh : ℕ → List ℕ)
    (user_enqueue : ℕ → Session → Frame → S → Option (Session × S)) where
  -- The buddies are given in one string, of which `strdup` makes a copy.
  bos_setbuddylist : (buddy_list : List ℕ) → Whole → Conn → S → Option (Status × Whole × S)
  bos_setbuddylist buddy_list w conn s =
      let names = tokens b'&' [] buddy_list in
      if not (malloc (Request.bytes (length buddy_list + 1)))
      then some (einval, w, s)
      else request os malloc ulong block fresh user_enqueue 0x0003 0x0004 (10 + names_len names) []
          (λ bs. some (put_names names bs)) w conn s

  -- A request of family 2 that holds a chain.
  chain_request : (subtype : ℕ) → List Tlv → Whole → Conn → S → Option (Status × Whole × S)
  chain_request subtype tl w conn s =
      request os malloc ulong block fresh user_enqueue 0x0002 subtype (10 + sizetlvchain tl) []
        (λ bs. some (writetlvchain bs tl).1) w conn s

  -- `stack` is what the stack of addtlvtochain_caps holds.
  bos_setprofile :
      (stack : List ℕ)
      → (profile awaymsg : Option (List ℕ)) → (caps : ℕ) → Whole
      → Conn
      → S
      → Option (Status × Whole × S)
  bos_setprofile stack profile awaymsg caps w conn s =
      elim (add_tlvs malloc [] (profile_tlvs profile ++ away_tlvs awaymsg)) [
        | none ↦ none
        | some tl ↦ elim (addtlvtochain_caps malloc stack tl 0x0005 caps) [
          | fault ↦ none
          | ok (n, tl') ↦ chain_request 0x0004 tl' w conn s
        ]
      ]

  setdirectoryinfo : DirectoryEntry → (privacy : ℕ) → Whole → Conn → S → Option (Status × Whole × S)
  setdirectoryinfo e privacy w conn s = elim (add_tlvs malloc [] (directory_tlvs e privacy)) [
    | none ↦ none
    | some tl ↦ chain_request 0x0009 tl w conn s
  ]

  -- The SNAC that is remembered is not the one whose id is sent: that is 0. There are five interests.
  setuserinterests :
      (interests : List (Option (List ℕ)))
      → (privacy : ℕ) → Whole
      → Conn
      → S
      → Option (Status × Whole × S)
  setuserinterests interests privacy w conn s =
      elim (add_tlvs malloc [] ((0x000a, be16 privacy) ∷ interest_tlvs interests)) [
        | none ↦ none
        | some tl ↦
            let size = 10 + sizetlvchain tl in
            elim (tx_new malloc (block size) conn framing_flap 2 size) [
              | none ↦ some (enomem, w, s)
              | some fr ↦
                  let (snacid, snacs) =
                    cachesnac malloc ulong (os.time s) w.snacs 0x0002 0x000f 0 [] in
                  let bs = (putsnac fr.content 0x0002 0x000f 0 0).1 in
                  submit os malloc ulong block fresh user_enqueue (record w { snacs = snacs }) fr
                    (writetlvchain bs tl).1 s
            ]
      ]
