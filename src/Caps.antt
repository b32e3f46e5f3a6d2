-- ===== src/Caps.antt =====
-- src/info.c, aim_caps, aim_getcap and aim_putcap, and aim_addtlvtochain_caps of src/tlv.c: the
-- capabilities of a client, as flags of a word and as blocks of 16 bytes on the wire. A flag of
-- include/aim.h is given by the number of its bit.
pub mod Blocks
pub mod RoundTrip
mod Tests
use libfaim.Prelude.{
  ℕ, zero, suc, ◌+◌, ◌/◌, Bool, true, false, ◌&&◌, Option, none, some, List, [], ◌∷◌, ◌==◌,
  if◌then◌else◌, has_bit, set_bit,
}
use libfaim.Prelude.Alloc.{Allocator}
use libfaim.Bstream.{Bstream, init, empty, curpos, getraw, putraw}
use libfaim.Tlv.{Tlv, Result, ok, addtlvtochain_raw}

pub record Cap : Type 0 where
  pub flag : ℕ
  pub clsid : List ℕ

-- Most of the blocks differ in their fourth byte only.
abbrev short_cap : ℕ → List ℕ
short_cap b =
    0x09 ∷ 0x46 ∷ 0x13 ∷ b ∷ 0x4c ∷ 0x7f ∷ 0x11 ∷ 0xd1 ∷ 0x82 ∷ 0x22 ∷ 0x44 ∷ 0x45 ∷ 0x53 ∷ 0x54 ∷ 0
    ∷ 0 ∷ []

-- The table without its last entry, AIM_CAPS_LAST.
unfoldable pub aim_caps : List Cap
aim_caps =
    record {
      flag = 3;
      clsid =
          0x74 ∷ 0x8f ∷ 0x24 ∷ 0x20 ∷ 0x62 ∷ 0x87 ∷ 0x11 ∷ 0xd1 ∷ 0x82 ∷ 0x22 ∷ 0x44 ∷ 0x45 ∷ 0x53
          ∷ 0x54 ∷ 0 ∷ 0 ∷ [];
    }
    ∷ record { flag = 1; clsid = short_cap 0x41 }
    ∷ record { flag = 5; clsid = short_cap 0x43 }
    ∷ record { flag = 10; clsid = short_cap 0x44 }
    ∷ record { flag = 2; clsid = short_cap 0x45 }
    ∷ record { flag = 0; clsid = short_cap 0x46 }
    ∷ record { flag = 7; clsid = short_cap 0x47 }
    ∷ record { flag = 4; clsid = short_cap 0x48 }
    ∷ record { flag = 14; clsid = short_cap 0x49 }
    ∷ record { flag = 6; clsid = short_cap 0x4a }
    ∷ record {
      flag = 9;
      clsid =
          0x09 ∷ 0x46 ∷ 0x13 ∷ 0x4a ∷ 0x4c ∷ 0x7f ∷ 0x11 ∷ 0xd1 ∷ 0x22 ∷ 0x82 ∷ 0x44 ∷ 0x45 ∷ 0x53
          ∷ 0x54 ∷ 0 ∷ 0 ∷ [];
    }
    ∷ record { flag = 8; clsid = short_cap 0x4b }
    ∷ record {
      flag = 12;
      clsid =
          0x97 ∷ 0xb1 ∷ 0x27 ∷ 0x51 ∷ 0x24 ∷ 0x3c ∷ 0x43 ∷ 0x34 ∷ 0xad ∷ 0x22 ∷ 0xd6 ∷ 0xab ∷ 0xf7
          ∷ 0x3f ∷ 0x14 ∷ 0x92 ∷ [];
    }
    ∷ record {
      flag = 15;
      clsid =
          0x2e ∷ 0x7a ∷ 0x64 ∷ 0x75 ∷ 0xfa ∷ 0xdf ∷ 0x4d ∷ 0xc8 ∷ 0x88 ∷ 0x6f ∷ 0xea ∷ 0x35 ∷ 0x95
          ∷ 0xfd ∷ 0xb6 ∷ 0xdf ∷ [];
    }
    ∷ record {
      flag = 13;
      clsid = 0 ∷ 0 ∷ 0 ∷ 0 ∷ 0 ∷ 0 ∷ 0 ∷ 0 ∷ 0 ∷ 0 ∷ 0 ∷ 0 ∷ 0 ∷ 0 ∷ 0 ∷ 0 ∷ [];
    }
    ∷ record {
      flag = 16;
      clsid =
          0xf2 ∷ 0xe7 ∷ 0xc7 ∷ 0xf4 ∷ 0xfe ∷ 0xad ∷ 0x4d ∷ 0xfb ∷ 0xb2 ∷ 0x35 ∷ 0x36 ∷ 0x79 ∷ 0x8b
          ∷ 0xdf ∷ 0 ∷ 0 ∷ [];
    }
    ∷ record {
      flag = 11;
      clsid =
          0xaa ∷ 0x4a ∷ 0x32 ∷ 0xb5 ∷ 0xf8 ∷ 0x84 ∷ 0x48 ∷ 0xc6 ∷ 0xa3 ∷ 0xd7 ∷ 0x8c ∷ 0x50 ∷ 0x97
          ∷ 0x19 ∷ 0xfd ∷ 0x5b ∷ [];
    }
    ∷ []

-- `memcmp(...) == 0`
same_block : List ℕ → List ℕ → Bool
same_block [] ys = true
same_block (x ∷ xs) [] = false
same_block (x ∷ xs) (y ∷ ys) = (x == y) && same_block xs ys

-- The flag of the first entry with this block.
identify : List Cap → List ℕ → Option ℕ
identify [] cap = none
identify (e ∷ es) cap = if same_block e.clsid cap then some e.flag else identify es cap

-- `none` is the fault of comparing with a NULL, where a block could not be read.
getcap_loop : Allocator → (rounds : ℕ) → Bstream → (flags : ℕ) → Option (ℕ × Bstream)
getcap_loop malloc zero bs flags = some (flags, bs)
getcap_loop malloc (suc n) bs flags = elim (empty bs == 0) [
  | true ↦ some (flags, bs)
  | false ↦
      let (ob, bs') = getraw malloc bs 0x10 in
      elim ob [
        | none ↦ none
        | some cap ↦ elim (identify aim_caps cap) [
          | none ↦ getcap_loop malloc n bs' flags
          | some k ↦ getcap_loop malloc n bs' (set_bit k flags)
        ]
      ]
]

-- The offset grows by 16 until it reaches `len`.
pub getcap : Allocator → Bstream → (len : ℕ) → Option (ℕ × Bstream)
getcap malloc bs len = getcap_loop malloc ((len + 15) / 16) bs 0

putcap_loop : List Cap → Bstream → (caps : ℕ) → Bstream
putcap_loop [] bs caps = bs
putcap_loop (e ∷ es) bs caps = elim (empty bs == 0) [
  | true ↦ bs
  | false ↦ putcap_loop es (if has_bit e.flag caps then (putraw bs e.clsid 0x10).1 else bs) caps
]

pub putcap : Bstream → (caps : ℕ) → Bstream
unfolding putcap_loop aim_caps
putcap bs caps = putcap_loop aim_caps bs caps

-- `fresh` is what the 256 bytes on the stack hold.
pub addtlvtochain_caps :
    Allocator → (fresh : List ℕ) → List Tlv → (t caps : ℕ) → Result (ℕ × List Tlv)
addtlvtochain_caps malloc fresh list t caps =
    if caps == 0
    then ok (0, list)
    else let bs = putcap (init fresh 256) caps in addtlvtochain_raw malloc list t (curpos bs) bs.buf
