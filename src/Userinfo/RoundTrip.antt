-- ===== src/Userinfo/RoundTrip.antt =====
-- aim_extractuserinfo after aim_putuserinfo.
use libfaim.Prelude.{
  ℕ, zero, suc, ◌+◌, ◌-◌, ◌≤◌, ◌≡◌, refl, ap, sym, ◌∙◌, Bool, true, false, not, ◌&&◌, some, List,
  [], ◌∷◌, ◌++◌, arith, length, length-append, append_assoc, replicate, length-replicate, memcpy,
  memcpy-append, le→ltb, if◌then◌else◌, has_bit, set_bit, ◌==◌,
}
use libfaim.Prelude.Alloc.{Allocator}
use libfaim.Bstream.{Bstream, init, rewind, get8}
use libfaim.Bstream.View.{cursor, rewind-cursor}
use libfaim.Bstream.Words.{be8, be16}
use libfaim.Bstream.Reads.{get8-cursor, get16-cursor, copy_out-cursor}
use libfaim.Tlv.{ok}
use libfaim.Tlv.Encoding.{chain_bytes, length-be16}
use libfaim.Tlv.Read.{Grants}
use libfaim.Userinfo.{Userinfo, cleared, read_fields, extractuserinfo, putuserinfo}
use libfaim.Userinfo.Chain.{chain, effects, length-chain, read_fields-chain, InRange, user_parts}
use libfaim.Userinfo.Written.{
  IsName, name_field, user_bytes, length-user_list, putuserinfo-written, length-be8,
}

abbrev mark : Bool → ℕ → ℕ → ℕ
mark b k n = if b then set_bit k n else n

abbrev sent_if : Bool → ℕ → ℕ
sent_if b v = if b then v else 0

-- What of a record arrives: the fields that are marked as present, but the time since which the user is
-- a member arrives as the creation time, and of ICQ nothing does.
abbrev pub carried : Userinfo → Userinfo
carried info =
    let p = info.present in
    record {
      sn = info.sn;
      warnlevel = info.warnlevel;
      idletime = sent_if (has_bit 3 p) info.idletime;
      flags = sent_if (has_bit 0 p) info.flags;
      createtime = sent_if (has_bit 1 p) info.membersince;
      membersince = 0;
      onlinesince = sent_if (has_bit 2 p) info.onlinesince;
      sessionlen = sent_if (has_bit 8 p) info.sessionlen;
      capabilities = sent_if (has_bit 7 p && not (info.capabilities == 0)) info.capabilities;
      icq_status = 0;
      icq_ipaddr = 0;
      icq_crap = replicate 37 0;
      present = mark (has_bit 8 p) 8 (
          mark (has_bit 7 p && not (info.capabilities == 0)) 7 (
            mark (has_bit 3 p) 3
              (mark (has_bit 2 p) 2 (mark (has_bit 1 p) 9 (mark (has_bit 0 p) 0 0)))));
    }

-- Conditional updates of a field and of the marks, and what they come to.
module _ (b : Bool) (v k : ℕ) (i : Userinfo) where
  abbrev set_flags : Userinfo
  set_flags = if b then record i { flags = v; present = set_bit k i.present } else i

  abbrev flags_set : Userinfo
  flags_set = record i { flags = if b then v else i.flags; present = mark b k i.present }

  abbrev set_createtime : Userinfo
  set_createtime = if b then record i { createtime = v; present = set_bit k i.present } else i

  abbrev createtime_set : Userinfo
  createtime_set = record i {
    createtime = if b then v else i.createtime;
    present = mark b k i.present;
  }

  abbrev set_onlinesince : Userinfo
  set_onlinesince = if b then record i { onlinesince = v; present = set_bit k i.present } else i

  abbrev onlinesince_set : Userinfo
  onlinesince_set = record i {
    onlinesince = if b then v else i.onlinesince;
    present = mark b k i.present;
  }

  abbrev set_idletime : Userinfo
  set_idletime = if b then record i { idletime = v; present = set_bit k i.present } else i

  abbrev idletime_set : Userinfo
  idletime_set = record i { idletime = if b then v else i.idletime; present = mark b k i.present }

  abbrev set_capabilities : Userinfo
  set_capabilities = if b then record i { capabilities = v; present = set_bit k i.present } else i

  abbrev capabilities_set : Userinfo
  capabilities_set = record i {
    capabilities = if b then v else i.capabilities;
    present = mark b k i.present;
  }

  abbrev set_sessionlen : Userinfo
  set_sessionlen = if b then record i { sessionlen = v; present = set_bit k i.present } else i

  abbrev sessionlen_set : Userinfo
  sessionlen_set = record i {
    sessionlen = if b then v else i.sessionlen;
    present = mark b k i.present;
  }

module _ (v k : ℕ) (i : Userinfo) where
  set_flags_lem : (b : Bool) → set_flags b v k i ≡ flags_set b v k i
  set_flags_lem true = refl
  set_flags_lem false = refl

  set_createtime_lem : (b : Bool) → set_createtime b v k i ≡ createtime_set b v k i
  set_createtime_lem true = refl
  set_createtime_lem false = refl

  set_onlinesince_lem : (b : Bool) → set_onlinesince b v k i ≡ onlinesince_set b v k i
  set_onlinesince_lem true = refl
  set_onlinesince_lem false = refl

  set_idletime_lem : (b : Bool) → set_idletime b v k i ≡ idletime_set b v k i
  set_idletime_lem true = refl
  set_idletime_lem false = refl

  set_capabilities_lem : (b : Bool) → set_capabilities b v k i ≡ capabilities_set b v k i
  set_capabilities_lem true = refl
  set_capabilities_lem false = refl

  set_sessionlen_lem : (b : Bool) → set_sessionlen b v k i ≡ sessionlen_set b v k i
  set_sessionlen_lem true = refl
  set_sessionlen_lem false = refl

effects-carried :
    (malloc : Allocator) (grants : Grants malloc) (info : Userinfo) (w : InRange info)
    → effects
        (user_parts malloc grants info w)
        (record cleared { sn = info.sn; warnlevel = info.warnlevel })
      ≡ carried info
effects-carried malloc grants info w =
    let p = info.present in
    let cs = has_bit 7 p && not (info.capabilities == 0) in
    let i0 : Userinfo = record cleared { sn = info.sn; warnlevel = info.warnlevel } in
    let i1 = flags_set (has_bit 0 p) info.flags 0 i0 in
    let i2 = createtime_set (has_bit 1 p) info.membersince 9 i1 in
    let i3 = onlinesince_set (has_bit 2 p) info.onlinesince 2 i2 in
    let i4 = idletime_set (has_bit 3 p) info.idletime 3 i3 in
    let i5 = capabilities_set (cs) info.capabilities 7 i4 in
    let i6 = sessionlen_set (has_bit 8 p) info.sessionlen 8 i5 in
    ap
      (λ (i : Userinfo). set_sessionlen (has_bit 8 p) info.sessionlen 8 (
        set_capabilities (cs) info.capabilities 7 (
          set_idletime (has_bit 3 p) info.idletime 3 (
            set_onlinesince (has_bit 2 p) info.onlinesince 2
              (set_createtime (has_bit 1 p) info.membersince 9 (i))))))
      (set_flags_lem info.flags 0 i0 (has_bit 0 p))
    ∙ ap
        (λ (i : Userinfo). set_sessionlen (has_bit 8 p) info.sessionlen 8 (
          set_capabilities (cs) info.capabilities 7 (
            set_idletime (has_bit 3 p) info.idletime 3
              (set_onlinesince (has_bit 2 p) info.onlinesince 2 (i)))))
        (set_createtime_lem info.membersince 9 i1 (has_bit 1 p))
    ∙ ap
        (λ (i : Userinfo). set_sessionlen (has_bit 8 p) info.sessionlen 8 (
          set_capabilities (cs) info.capabilities 7
            (set_idletime (has_bit 3 p) info.idletime 3 (i))))
        (set_onlinesince_lem info.onlinesince 2 i2 (has_bit 2 p))
    ∙ ap
        (λ (i : Userinfo).
          set_sessionlen (has_bit 8 p) info.sessionlen 8
            (set_capabilities (cs) info.capabilities 7 (i)))
        (set_idletime_lem info.idletime 3 i3 (has_bit 3 p))
    ∙ ap (λ (i : Userinfo). set_sessionlen (has_bit 8 p) info.sessionlen 8 (i))
        (set_capabilities_lem info.capabilities 7 i4 (cs))
    ∙ ap (λ (i : Userinfo). i) (set_sessionlen_lem info.sessionlen 8 i5 (has_bit 8 p))

-- The name is copied to the front of its field.
zeros : ℕ → List ℕ
zeros k = replicate k 0

zeros-append : (k m n : ℕ) → n ≡ k + m → replicate n 0 ≡ zeros k ++ zeros m
unfolding zeros
zeros-append zero m n e = ap zeros (omega (arith, e))
zeros-append (suc k) m zero e = absurd (omega (arith, e))
zeros-append (suc k) m (suc n) e = ap (λ t. 0 ∷ t) (zeros-append k m n (omega (arith, e)))

memcpy-name : (name : List ℕ) → length name ≤ 32 → memcpy (replicate 33 0) 0 name ≡ name_field name
unfolding zeros
memcpy-name name h =
    let n = length name in
    ap (λ t. memcpy t 0 name) (zeros-append n (33 - n) 33 (omega arith))
    ∙ memcpy-append 0 [] (zeros n) name (zeros (33 - n)) refl (length-replicate n 0)

-- The bytes that were written, read from the start.
extract-written :
    (malloc : Allocator) (grants : Grants malloc) (info : Userinfo) (w : InRange info)
    (name : List ℕ) (is_name : IsName name) (sn : info.sn ≡ name_field name) (r : List ℕ)
    → length (chain_bytes (chain (user_parts malloc grants info w))) ≤ 296
    → length r ≤ 1024
    → extractuserinfo malloc (
        cursor []
          (user_bytes name info.warnlevel (chain (user_parts malloc grants info w)) ++ r)
          [])
      ≡ some (
        carried info,
        cursor (user_bytes name info.warnlevel (chain (user_parts malloc grants info w))) r [],
      )
unfolding extractuserinfo
extract-written malloc grants info w name is_name sn r small room =
    let ps = user_parts malloc grants info w in
    let n = length name in
    let ts = chain ps in
    let cb = chain_bytes ts in
    let p1 = be8 n in
    let p2 = p1 ++ name in
    let p3 = p2 ++ be16 info.warnlevel in
    let p4 = p3 ++ be16 (length ts) in
    let lp2 : length p2 ≡ n + 1 = omega (arith, length-append p1 name, length-be8 n) in
    let lp3 : length p3 ≡ n + 3 =
      omega (arith, lp2, length-append p2 (be16 info.warnlevel), length-be16 info.warnlevel) in
    let lp4 : length p4 ≡ n + 5 =
      omega (arith, lp3, length-append p3 (be16 (length ts)), length-be16 (length ts)) in
    let x4 = cb ++ r in
    let x3 = be16 (length ts) ++ x4 in
    let x2 = be16 info.warnlevel ++ x3 in
    let x1 = name ++ x2 in
    let m4 : length x4 ≤ 1320 = omega (arith, length-append cb r) in
    let m3 : length x3 ≤ 1322 =
      omega (arith, length-append (be16 (length ts)) x4, length-be16 (length ts)) in
    let m2 : length x2 ≤ 1324 =
      omega (arith, length-append (be16 info.warnlevel) x3, length-be16 info.warnlevel) in
    let m1 : length x1 ≤ 1356 = omega (arith, length-append name x2, is_name.short) in
    let shape : user_bytes name info.warnlevel ts ++ r ≡ p1 ++ x1 =
      append_assoc p4 cb r
      ∙ append_assoc p3 (be16 (length ts)) x4
      ∙ append_assoc p2 (be16 info.warnlevel) x3
      ∙ append_assoc p1 name x2 in
    let count : length ts ≤ 6 = length-chain ps in
    let g1 =
      ap get8 (ap (λ x. cursor [] x []) shape)
      ∙ get8-cursor [] x1 [] n (omega (arith, is_name.short)) (omega arith) in
    let g2 = copy_out-cursor p1 name x2 [] (omega (arith, length-be8 n, is_name.short)) n refl in
    let g3 =
      get16-cursor p2 x3 [] info.warnlevel w.warnlevel_u16 (omega (arith, lp2, is_name.short)) in
    let g4 =
      get16-cursor p3 x4 [] (length ts) (omega (arith, count))
        (omega (arith, lp3, is_name.short)) in
    let g5 =
      read_fields-chain ps p4 r [] (record cleared { sn = info.sn; warnlevel = info.warnlevel })
        (omega (arith, lp4, is_name.short)) in
    rw (g1, extractuserinfo)
      (rw (g2, extractuserinfo)
        (rw (g3, extractuserinfo)
          (rw (g4, extractuserinfo)
            (rw (le→ltb 33 n (omega (arith, is_name.short))) (
              ap
                (λ (s : List ℕ).
                  read_fields malloc (length ts) (cursor p4 x4 [])
                    (record cleared { sn = s; warnlevel = info.warnlevel }))
                (memcpy-name name is_name.short ∙ sym sn)
              ∙ g5
              ∙ ap (λ (i : Userinfo). some (i, cursor (p4 ++ cb) r []))
                  (effects-carried malloc grants info w))))))

-- With memory granted, a record whose numbers fit their widths on the wire, whose capabilities are
-- known ones with blocks of at most 256 bytes, and whose name fits its field: `aim_putuserinfo` writes
-- it into a buffer of 1024 bytes, and `aim_extractuserinfo` reads back from there the name, the warning
-- level, and every other field that is marked as present and is neither the creation time nor of ICQ,
-- with its mark. But `membersince` comes back as `createtime`, and an empty set of capabilities not at
-- all. The stream stands where the writing left it.
pub extractuserinfo-putuserinfo :
    (malloc : Allocator) (grants : Grants malloc) (fresh block : List ℕ) (info : Userinfo)
    (w : InRange info) (name : List ℕ)
    → length fresh ≡ 256
    → length block ≡ 1024
    → IsName name
    → info.sn ≡ name_field name
    → (bs : Bstream) × (putuserinfo malloc fresh (init block 1024) info ≡ ok bs)
      × (extractuserinfo malloc (rewind bs) ≡ some (carried info, bs))
extractuserinfo-putuserinfo malloc grants fresh block info w name ef eb is_name sn =
    let (r, put, room) =
      putuserinfo-written malloc grants fresh ef info w name is_name sn block eb in
    let xs = user_bytes name info.warnlevel (chain (user_parts malloc grants info w)) in
    (
      cursor xs r [],
      put,
      ap (extractuserinfo malloc) (rewind-cursor xs r [])
          ∙ extract-written malloc grants info w name is_name sn r
              (length-user_list malloc grants fresh ef info w name is_name sn) room,
    )
