-- ===== src/Util.antt =====
-- src/util.c: delimited lists in strings and the comparison of screen names. A string is the list of its
-- bytes before the NUL; `toupper` is the C library's, a parameter.
pub mod Items
pub mod Names
mod Tests
use libfaim.Prelude.{
  ℕ, zero, suc, ◌+◌, ◌-◌, ◌≡◌, Bool, true, false, not, ◌&&◌, ◌||◌, Option, none, some, List, [],
  ◌∷◌, ltb, ◌==◌, if◌then◌else◌, length, take,
}

-- strchr(3): what stands behind the first delimiter.
pub after_chr : List ℕ → ℕ → Option (List ℕ)
after_chr [] dl = none
after_chr (c ∷ cs) dl = if c == dl then some cs else after_chr cs dl

-- `curCount` delimiters have been passed, one at least in each round.
pub itemcnt_loop : ℕ → ℕ → Option (List ℕ) → ℕ → ℕ
itemcnt_loop fuel count none dl = count
itemcnt_loop zero count (some rest) dl = count
itemcnt_loop (suc fuel) count (some rest) dl = itemcnt_loop fuel (count + 1) (after_chr rest dl) dl

pub itemcnt : List ℕ → ℕ → ℕ
itemcnt str dl = itemcnt_loop (length str) 1 (after_chr str dl) dl

-- `last` after `index` rounds, unless the delimiters run out first.
pub seek : ℕ → List ℕ → ℕ → Option (List ℕ)
seek zero last dl = some last
seek (suc index) last dl = elim (after_chr last dl) [ none ↦ none | some rest ↦ seek index rest dl ]

pub itemidx : List ℕ → ℕ → ℕ → List ℕ
itemidx str index dl = elim (seek index str dl) [
  | none ↦ []
  | some last ↦ elim (after_chr last dl) [
    | none ↦ last
    | some rest ↦ take (length last - length rest - 1) last
  ]
]

pub snlen : List ℕ → ℕ
snlen [] = 0
snlen (c ∷ sn) = let n = snlen sn in if not (c == 0x20) then n + 1 else n

-- The loop of `aim_sncmp`, which moves on in one of the names at least, and the test behind it.
pub sncmp_loop : (ℕ → ℕ) → ℕ → List ℕ → List ℕ → ℕ
sncmp_loop toupper fuel [] [] = 0
sncmp_loop toupper fuel [] (b ∷ sn2) = 1
sncmp_loop toupper fuel (a ∷ sn1) [] = 1
sncmp_loop toupper zero (a ∷ sn1) (b ∷ sn2) = 1
sncmp_loop toupper (suc fuel) (a ∷ sn1) (b ∷ sn2) =
    let rest1 = if a == 0x20 || not (b == 0x20) then sn1 else a ∷ sn1 in
    let rest2 = if b == 0x20 || not (a == 0x20) then sn2 else b ∷ sn2 in
    let rest = sncmp_loop toupper fuel rest1 rest2 in
    if a == 0x20 || b == 0x20 then rest else if not (toupper a == toupper b) then 1 else rest

-- As many rounds as both names have characters are enough.
pub sncmp : (ℕ → ℕ) → List ℕ → List ℕ → ℕ
sncmp toupper sn1 sn2 =
    if not (snlen sn1 == snlen sn2) then 1 else sncmp_loop toupper (length sn1 + length sn2) sn1 sn2
