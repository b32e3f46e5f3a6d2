-- ===== src/Notices.antt =====
-- The parsers that read a few values and hand them to the client: of src/bos.c, buddylist.c, popups.c,
-- stats.c, admin.c, info.c, search.c, misc.c, service.c and im.c. Each is given the handlers of the
-- frame's connection, the SNAC, what the client's function does, and the payload.
use libfaim.Prelude.{
  ℕ, zero, suc, ◌+◌, true, false, Option, none, some, List, [], ◌∷◌, ◌++◌, ◌==◌, if◌then◌else◌,
  take, replicate,
}
use libfaim.Prelude.Alloc.{Allocator}
use libfaim.Prelude.Int.{pos}
use libfaim.Bstream.{Bstream, empty, get16, get32}
use libfaim.Session.{Handler}
use libfaim.Snac.{Snac, SnacCache, remsnac}
use libfaim.Tlv.{Tlv, Result, ok, fault, gettlv, gettlv_str, counttlvchain}
use libfaim.Rxhandlers.{Modsnac}
use libfaim.Userinfo.{Userinfo, cleared, extractuserinfo, c_string}
use libfaim.Parsing.{
  Answer, answered, crashed, Client, tell, with_chain, or_crash, number16, string, value_of, ◌>>=◌,
}

-- What was remembered with a request, or NULL.
abbrev content_of : Option Snac → Option (List ℕ)
content_of none = none
content_of (some s) = some s.content

-- The groups are read over.
skip_groups : ℕ → Bstream → Bstream
skip_groups zero bs = bs
skip_groups (suc n) bs = skip_groups n (get16 bs).1

string_at : Allocator → List Tlv → ℕ → Result (Option (List ℕ))
string_at malloc list n = gettlv_str malloc list 0x0001 n

-- The names of type 1, from the one after the `j` that are there; each takes a place of 33 bytes, of
-- which strncpy fills 32. The last byte is not written: `fresh` is what it holds.
found_names : Allocator → (fresh : ℕ → ℕ) → List Tlv → (left j : ℕ) → List ℕ → Result (ℕ × List ℕ)
found_names malloc fresh list zero j buf = elim (string_at malloc list (j + 1)) [
  | fault ↦ fault
  | ok o ↦ ok (j, buf)
]
found_names malloc fresh list (suc left) j buf = elim (string_at malloc list (j + 1)) [
  | fault ↦ fault
  | ok none ↦ ok (j, buf)
  | ok (some cur) ↦
      found_names malloc fresh list left (j + 1)
        (buf ++ (take 32 (c_string cur ++ replicate 32 0) ++ fresh j ∷ []))
]

module _ {S : Type 0} (malloc : Allocator) (fuel : ℕ) (handlers : List Handler)
    (snac : Modsnac) where
  -- Two limits of a chain.
  limits : (t1 t2 : ℕ) → Client (ℕ × ℕ) S → Bstream → S → Answer S
  limits t1 t2 client bs s = with_chain malloc fuel bs (λ list.
      or_crash (do a ← number16 list t1; b ← number16 list t2; ok (a, b))
        (λ args. tell handlers snac client (pos 0) args s))

  bos_rights : Client (ℕ × ℕ) S → Bstream → S → Answer S
  bos_rights client bs s = limits 0x0001 0x0002 client bs s

  buddylist_rights : Client (ℕ × ℕ) S → Bstream → S → Answer S
  buddylist_rights client bs s = limits 0x0001 0x0002 client bs s

  locate_rights : Client ℕ S → Bstream → S → Answer S
  locate_rights client bs s = with_chain malloc fuel bs (λ list.
      or_crash (number16 list 0x0001) (λ maxsiglen. tell handlers snac client (pos 0) maxsiglen s))

  -- A buddy's information, and nothing else.
  told_user : Client Userinfo S → Bstream → S → Answer S
  told_user client bs s = elim (extractuserinfo malloc bs) [
    | none ↦ crashed
    | some (info, bs') ↦ tell handlers snac client (pos 0) info s
  ]

  buddychange : Client Userinfo S → Bstream → S → Answer S
  buddychange client bs s = told_user client bs s

  selfinfo : Client Userinfo S → Bstream → S → Answer S
  selfinfo client bs s = told_user client bs s

  -- The information is there only if bytes are left.
  evilnotify : Client (ℕ × Userinfo) S → Bstream → S → Answer S
  evilnotify client bs s =
      let (newevil, b1) = get16 bs in
      elim (empty b1 == 0) [
        | true ↦ tell handlers snac client (pos 0) (newevil, cleared) s
        | false ↦ elim (extractuserinfo malloc b1) [
          | none ↦ crashed
          | some (info, b2) ↦ tell handlers snac client (pos 0) (newevil, info) s
        ]
      ]

  parsepopup : Client (Option (List ℕ) × Option (List ℕ) × ℕ × ℕ × ℕ) S → Bstream → S → Answer S
  parsepopup client bs s = with_chain malloc fuel bs (λ list.
      or_crash
        (do
          msg ← string malloc list 0x0001
          url ← string malloc list 0x0002
          width ← number16 list 0x0003
          height ← number16 list 0x0004
          delay ← number16 list 0x0005
          ok (msg, url, width, height, delay))
        (λ args. tell handlers snac client (pos 0) args s))

  -- One word.
  told_word : Client ℕ S → Bstream → S → Answer S
  told_word client bs s = tell handlers snac client (pos 0) (get16 bs).0 s

  accountconfirm : Client ℕ S → Bstream → S → Answer S
  accountconfirm client bs s = told_word client bs s

  reportinterval : Client ℕ S → Bstream → S → Answer S
  reportinterval client bs s = told_word client bs s

  -- Nothing is read.
  serverpause : Client (Option ℕ) S → S → Answer S
  serverpause client s = tell handlers snac client (pos 0) none s

  serverresume : Client (Option ℕ) S → S → Answer S
  serverresume client s = tell handlers snac client (pos 0) none s

  ssi_parserights : Client (Option ℕ) S → S → Answer S
  ssi_parserights client s = tell handlers snac client (pos 0) none s

  ssi_parsedataunchanged : Client (Option ℕ) S → S → Answer S
  ssi_parsedataunchanged client s = tell handlers snac client (pos 0) none s

  -- The code, the class, and the seven numbers of it.
  ratechange : Client (ℕ × ℕ × ℕ × ℕ × ℕ × ℕ × ℕ × ℕ × ℕ) S → Bstream → S → Answer S
  ratechange client bs s =
      let (code, b1) = get16 bs in
      let (rateclass, b2) = get16 b1 in
      let (windowsize, b3) = get32 b2 in
      let (clear, b4) = get32 b3 in
      let (alert, b5) = get32 b4 in
      let (limit, b6) = get32 b5 in
      let (disconnect, b7) = get32 b6 in
      let (currentavg, b8) = get32 b7 in
      let (maxavg, b9) = get32 b8 in
      tell handlers snac client (pos 0)
        (code, rateclass, windowsize, clear, alert, limit, disconnect, currentavg, maxavg) s

  migrate : Client (Option (List ℕ) × Option (List ℕ)) S → Bstream → S → Answer S
  migrate client bs s =
      let (groupcount, b1) = get16 bs in
      with_chain malloc fuel (skip_groups groupcount b1) (λ list.
        or_crash (string malloc list 0x0005)
          (λ ip. tell handlers snac client (pos 0) (ip, value_of (gettlv list 0x0006 1)) s))

  motd : Client (ℕ × Option (List ℕ)) S → Bstream → S → Answer S
  motd client bs s =
      let (id, b1) = get16 bs in
      with_chain malloc fuel b1 (λ list.
        or_crash (string malloc list 0x000b) (λ msg. tell handlers snac client (pos 0) (id, msg) s))

  memrequest : Client (ℕ × ℕ × Option (List ℕ)) S → Bstream → S → Answer S
  memrequest client bs s =
      let (offset, b1) = get32 bs in
      let (len, b2) = get32 b1 in
      with_chain malloc fuel b2 (λ list.
        or_crash (string malloc list 0x0001)
          (λ modname. tell handlers snac client (pos 0) (offset, len, modname) s))

  -- The SNAC that is answered is taken from the cache; the state is the cache with the world.
  generror :
      Client (ℕ × Option (List ℕ)) (SnacCache × S)
      → Bstream
      → SnacCache × S
      → Answer (SnacCache × S)
  generror client bs (cache, s) =
      let (snac2, cache') = remsnac cache snac.id in
      let error = if empty bs == 0 then 0 else (get16 bs).0 in
      tell handlers snac client (pos 0) (error, content_of snac2) (cache', s)

  search_error : Client (List ℕ) (SnacCache × S) → SnacCache × S → Answer (SnacCache × S)
  search_error client (cache, s) =
      let (snac2, cache') = remsnac cache snac.id in
      elim snac2 [
        | none ↦ answered (pos 0) (cache', s)
        | some q ↦ tell handlers snac client (pos 0) q.content (cache', s)
      ]

  search_reply :
      (fresh : ℕ → ℕ)
      → Client (Option (List ℕ) × ℕ × List ℕ) (SnacCache × S)
      → Bstream
      → SnacCache × S
      → Answer (SnacCache × S)
  search_reply fresh client bs (cache, s) =
      let (snac2, cache') = remsnac cache snac.id in
      with_chain malloc fuel bs (λ list.
        or_crash (found_names malloc fresh list (counttlvchain list) 0 []) (λ found.
          tell handlers snac client (pos 0) (content_of snac2, found.0, found.1) (cache', s)))
