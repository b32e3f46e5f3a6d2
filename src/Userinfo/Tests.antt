-- ===== src/Userinfo/Tests.antt =====
-- A buddy's information, written and read.
use libfaim.Prelude.{
  ℕ, ◌≡◌, arith, refl, true, List, [], ◌∷◌, some, replicate, length, length-replicate, has_bit,
}
use libfaim.Prelude.Alloc.{Allocator}
use libfaim.Bstream.{Bstream, init, rewind}
use libfaim.Tlv.{ok}
use libfaim.Caps.{aim_caps}
use libfaim.Caps.Blocks.{blocks}
use libfaim.Userinfo.{Userinfo, cleared, extractuserinfo, putuserinfo}
use libfaim.Userinfo.Chain.{InRange}
use libfaim.Userinfo.Written.{IsName, name_field}
use libfaim.Userinfo.RoundTrip.{carried, extractuserinfo-putuserinfo}

abbrev always : Allocator
always q = true

abbrev al : List ℕ
al = 0x61 ∷ 0x6c ∷ []

-- Flags, member since and capabilities: bits 0, 1 and 7.
abbrev buddy : Userinfo
buddy = record cleared {
  sn = name_field al;
  warnlevel = 10;
  flags = 0x10;
  membersince = 1000000;
  capabilities = 0x801;
  present = 0x83;
}

two_blocks : length (blocks aim_caps 0x801) ≡ 32
unfolding aim_caps has_bit
two_blocks = refl

buddy-InRange : InRange buddy
buddy-InRange = record {
  warnlevel_u16 = omega arith;
  flags_u16 = omega arith;
  membersince_u32 = omega arith;
  onlinesince_u32 = omega arith;
  idletime_u16 = omega arith;
  sessionlen_u32 = omega arith;
  capabilities_known = omega arith;
  capabilities_fit = omega (arith, two_blocks);
}

al-IsName : IsName al
al-IsName = record { short = omega arith; no_nul = (omega arith, (omega arith, tt)) }

extractuserinfo-putuserinfo_example :
    (bs : Bstream) × (putuserinfo always (replicate 256 7) (init (replicate 1024 9) 1024) buddy
      ≡ ok bs)
    × (extractuserinfo always (rewind bs) ≡ some (carried buddy, bs))
extractuserinfo-putuserinfo_example =
    extractuserinfo-putuserinfo always (λ q. refl) (replicate 256 7) (replicate 1024 9) buddy
      buddy-InRange al (length-replicate {A = ℕ} 256 7) (length-replicate {A = ℕ} 1024 9) al-IsName
      refl

-- The date arrives as another date.
carried_since : (carried buddy).createtime ≡ 1000000
unfolding has_bit
carried_since = refl
