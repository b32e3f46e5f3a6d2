-- ===== src/Util/Tests.antt =====
-- Lists of items and screen names.
use libfaim.Prelude.{ℕ, ◌-◌, ◌≡◌, refl, ◌&&◌, List, [], ◌∷◌, leb, if◌then◌else◌, arith, get_or}
use libfaim.Util.{sncmp, sncmp_loop, snlen, itemcnt, itemidx, itemcnt_loop, after_chr, seek}
use libfaim.Util.Items.{items, itemidx-get_or}
use libfaim.Util.Names.{folded, sncmp_sound, sncmp_complete}

-- toupper(3) in the C locale.
abbrev upper : ℕ → ℕ
upper c = if leb 97 c && leb c 122 then c - 32 else c

-- "Al Bo", "a lbo" and "albo "
abbrev spaced : List ℕ
spaced = 0x41 ∷ 0x6c ∷ 0x20 ∷ 0x42 ∷ 0x6f ∷ []

abbrev small : List ℕ
small = 0x61 ∷ 0x20 ∷ 0x6c ∷ 0x62 ∷ 0x6f ∷ []

abbrev trailing : List ℕ
trailing = 0x61 ∷ 0x6c ∷ 0x62 ∷ 0x6f ∷ 0x20 ∷ []

-- A space at the end makes a difference.
sncmp-trailing : sncmp upper small trailing ≡ 1
unfolding sncmp sncmp_loop snlen
sncmp-trailing = refl

small-same : sncmp upper spaced small ≡ 0
unfolding sncmp sncmp_loop snlen
small-same = refl

sncmp_sound_example : folded upper spaced ≡ folded upper small
sncmp_sound_example = sncmp_sound upper spaced small small-same

sncmp_complete_example : sncmp upper small spaced ≡ 0
unfolding folded
sncmp_complete_example = sncmp_complete upper small spaced (omega arith) (omega arith) refl

-- "a,bc,"
abbrev listed : List ℕ
listed = 0x61 ∷ 0x2c ∷ 0x62 ∷ 0x63 ∷ 0x2c ∷ []

itemidx-get_or_example : itemidx listed 1 0x2c ≡ get_or (items 0x2c listed) 1 []
itemidx-get_or_example = itemidx-get_or listed 1 0x2c

itemidx_second : itemidx listed 1 0x2c ≡ 0x62 ∷ 0x63 ∷ []
unfolding itemidx seek after_chr
itemidx_second = refl

itemcnt_three : itemcnt listed 0x2c ≡ 3
unfolding itemcnt itemcnt_loop after_chr
itemcnt_three = refl
