-- ===== src/Userinfo/Written.antt =====
-- The bytes that aim_putuserinfo writes.
use libfaim.Prelude.{
  zero, suc, ℕ, ◌+◌, ◌-◌, ◌≤◌, ◌<◌, ◌≡◌, refl, ap, sym, ◌∙◌, List, [], ◌∷◌, ◌++◌, arith, length,
  take, drop, length-take, length-drop, take-append-drop, append-nil, length-append, All, replicate,
  ne→==,
}
use libfaim.Prelude.Alloc.{Allocator}
use libfaim.Bstream.{init, put8, put16, putraw}
use libfaim.Bstream.View.{cursor, init-cursor}
use libfaim.Bstream.Words.{be8, be16, be32}
use libfaim.Bstream.Room.{put8-room, put16-room, putraw-room}
use libfaim.Tlv.{Tlv, ok, sizetlvchain, writetlvchain}
use libfaim.Tlv.Encoding.{chain_bytes, length-chain_bytes, length-be16}
use libfaim.Tlv.Read.{Grants}
use libfaim.Tlv.Write.{writetlvchain-cursor}
use libfaim.Userinfo.{Userinfo, c_string, putuserinfo}
use libfaim.Userinfo.Chain.{
  chain, chain-IsTlv, sizetlvchain-chain, counttlvchain-length, InRange, user_parts,
}
use libfaim.Userinfo.Added.{user_chain_lem}

-- A screen name in its field: no NUL within, and at least one behind.
pub record IsName (name : List ℕ) : Type 0 where
  pub short : length name ≤ 32
  pub no_nul : All (λ b. 0 < b) name

abbrev pub name_field : List ℕ → List ℕ
name_field name = name ++ replicate (33 - length name) 0

c_string-replicate : (k : ℕ) → c_string (replicate k 0) ≡ []
unfolding c_string
c_string-replicate zero = refl
c_string-replicate (suc k) = refl

c_string-name :
    (name : List ℕ) (k : ℕ) → All (λ b. 0 < b) name → c_string (name ++ replicate k 0) ≡ name
unfolding c_string
c_string-name [] k h = c_string-replicate k
c_string-name (x ∷ name) k h =
    rw (ne→== x 0 (omega (arith, h.0))) (ap (λ t. x ∷ t) (c_string-name name k h.1))

abbrev pub user_bytes : List ℕ → (warnlevel : ℕ) → List Tlv → List ℕ
user_bytes name warnlevel ts =
    (((be8 (length name) ++ name) ++ be16 warnlevel) ++ be16 (length ts)) ++ chain_bytes ts

pub length-be8 : (v : ℕ) → length (be8 v) ≡ 1
unfolding be8
length-be8 v = refl

module _ (malloc : Allocator) (grants : Grants malloc) (fresh : List ℕ)
    (fresh_len : length fresh ≡ 256) (info : Userinfo) (w : InRange info) (name : List ℕ)
    (is_name : IsName name) (sn : info.sn ≡ name_field name) where
  abbrev pub user_list : List Tlv
  user_list = chain (user_parts malloc grants info w)

  pub length-user_list : length (chain_bytes user_list) ≤ 296
  unfolding be16 be32
  length-user_list = omega (
    arith,
    length-chain_bytes user_list (chain-IsTlv (user_parts malloc grants info w)),
    sizetlvchain-chain (user_parts malloc grants info w),
    w.capabilities_fit,
  )

  pub putuserinfo-written :
      (block : List ℕ)
      → length block ≡ 1024
      → (r : List ℕ) × (putuserinfo malloc fresh (init block 1024) info
          ≡ ok (cursor (user_bytes name info.warnlevel user_list) r []))
        × (length r ≤ 1024)
  unfolding putuserinfo
  putuserinfo-written block e =
      let n = length name in
      let ts = user_list in
      let is_chain = chain-IsTlv (user_parts malloc grants info w) in
      let size = sizetlvchain ts in
      let lb = length-chain_bytes ts is_chain in
      let small = length-user_list in
      let str : c_string info.sn ≡ name =
        ap c_string sn ∙ c_string-name name (33 - n) is_name.no_nul in
      let p1 = be8 n in
      let p2 = p1 ++ name in
      let p3 = p2 ++ be16 info.warnlevel in
      let p4 = p3 ++ be16 (length ts) in
      let l2 : length p2 ≡ n + 1 = omega (arith, length-append p1 name, length-be8 n) in
      let l3 : length p3 ≡ n + 3 =
        omega (arith, l2, length-append p2 (be16 info.warnlevel), length-be16 info.warnlevel) in
      let l4 : length p4 ≡ n + 5 =
        omega (arith, l3, length-append p3 (be16 (length ts)), length-be16 (length ts)) in
      let o1 = drop 1 block in
      let o2 = drop n o1 in
      let o3 = drop 2 o2 in
      let o4 = drop 2 o3 in
      let k1 : length o1 ≡ 1023 = omega (arith, length-drop 1 block, e) in
      let k2 : length o2 ≡ 1023 - n = omega (arith, length-drop n o1, k1) in
      let k3 : length o3 ≡ 1021 - n = omega (arith, length-drop 2 o2, k2) in
      let k4 : length o4 ≡ 1019 - n = omega (arith, length-drop 2 o3, k3, is_name.short) in
      let start : init block 1024 ≡ cursor [] block [] =
        init-cursor block 1024 (sym e) (omega arith)
        ∙ ap (λ t. cursor [] t []) (append-nil block) in
      let b1 =
        ap (λ b. (put8 b n).1) start
        ∙ put8-room [] block [] (omega (arith, e)) n (omega (arith, e)) in
      let b2 =
        ap (λ b. (putraw b name n).1) b1
        ∙ putraw-room p1 o1 [] (omega (arith, length-be8 n, k1)) name
            (omega (arith, k1, is_name.short)) in
      let b3 =
        ap (λ b. (put16 b info.warnlevel).1) b2
        ∙ put16-room p2 o2 [] (omega (arith, l2, k2, is_name.short)) info.warnlevel
            (omega (arith, k2, is_name.short)) in
      let b4 =
        ap (λ b. (put16 b (length ts)).1) b3
        ∙ put16-room p3 o3 [] (omega (arith, l3, k3, is_name.short)) (length ts)
            (omega (arith, k3, is_name.short)) in
      let b5 : (writetlvchain (cursor p4 o4 []) ts).1
          ≡ cursor (p4 ++ chain_bytes ts) (drop size o4) [] =
        ap (λ o. (writetlvchain (cursor p4 o []) ts).1) (sym (take-append-drop size o4))
        ∙ ap (λ t. t.1)
            (writetlvchain-cursor ts p4 (take size o4) (drop size o4) [] is_chain
              (omega (arith, length-take size o4, k4, lb, small, is_name.short))
              (omega (arith, l4, length-drop size o4, k4, lb, small, is_name.short))) in
      (
        drop size o4,
        rw (user_chain_lem malloc grants fresh fresh_len info w, putuserinfo)
            (rw str
              (rw (counttlvchain-length ts) (ap ok (ap (λ b. (writetlvchain b ts).1) b4 ∙ b5)))),
        omega (arith, length-drop size o4, k4),
      )
