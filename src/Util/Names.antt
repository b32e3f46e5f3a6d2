-- ===== src/Util/Names.antt =====
-- aim_sncmp: which screen names are the same.
use libfaim.Prelude.{
  ℕ, zero, suc, ◌+◌, ◌≤◌, ◌≡◌, ◌≢◌, refl, ap, ap₂, sym, ◌∙◌, true, List, [], ◌∷◌, ◌==◌,
  if◌then◌else◌, length, arith, Bool-cases, inl, inr, ==→eq, ==-refl, ne→==,
}
use libfaim.Util.{snlen, sncmp_loop, sncmp}

-- A name without its spaces and in one case.
unfoldable pub folded : (ℕ → ℕ) → List ℕ → List ℕ
folded toupper [] = []
folded toupper (c ∷ sn) =
    let rest = folded toupper sn in if c == 0x20 then rest else toupper c ∷ rest

length-folded : (toupper : ℕ → ℕ) (sn : List ℕ) → length (folded toupper sn) ≡ snlen sn
unfolding folded snlen
length-folded toupper [] = refl
length-folded toupper (c ∷ sn) = ground (arith, length-folded toupper sn)

sncmp_loop-folded :
    (toupper : ℕ → ℕ) (fuel : ℕ) (sn1 sn2 : List ℕ)
    → sncmp_loop toupper fuel sn1 sn2 ≡ 0
    → folded toupper sn1 ≡ folded toupper sn2
unfolding sncmp_loop folded
sncmp_loop-folded toupper fuel [] [] h = refl
sncmp_loop-folded toupper fuel [] (b ∷ sn2) h = absurd (omega (arith, h))
sncmp_loop-folded toupper fuel (a ∷ sn1) [] h = absurd (omega (arith, h))
sncmp_loop-folded toupper zero (a ∷ sn1) (b ∷ sn2) h = absurd (omega (arith, h))
sncmp_loop-folded toupper (suc fuel) (a ∷ sn1) (b ∷ sn2) h = elim (Bool-cases (a == 0x20)) [
  | inl p ↦ elim (Bool-cases (b == 0x20)) [
    | inl q ↦ rw (p, q) (sncmp_loop-folded toupper fuel sn1 sn2 (rw (p, q) at h))
    | inr q ↦ rw p (sncmp_loop-folded toupper fuel sn1 (b ∷ sn2) (rw (p, q) at h))
  ]
  | inr p ↦ elim (Bool-cases (b == 0x20)) [
    | inl q ↦ rw q (sncmp_loop-folded toupper fuel (a ∷ sn1) sn2 (rw (p, q) at h))
    | inr q ↦ elim (Bool-cases (toupper a == toupper b)) [
      | inl u ↦
          rw (p, q)
            (ap₂ ◌∷◌ (==→eq (toupper a) (toupper b) u)
              (sncmp_loop-folded toupper fuel sn1 sn2 (rw (p, q) at (rw u at h))))
      | inr u ↦ let wrong : 1 ≡ 0 = rw (p, q) at (rw u at h) in absurd (omega (arith, wrong))
    ]
  ]
]

-- Two names for which `aim_sncmp` returns 0 are the same but for case and spaces.
pub sncmp_sound :
    (toupper : ℕ → ℕ) (sn1 sn2 : List ℕ)
    → sncmp toupper sn1 sn2 ≡ 0
    → folded toupper sn1 ≡ folded toupper sn2
unfolding sncmp
sncmp_sound toupper sn1 sn2 h = elim (Bool-cases (snlen sn1 == snlen sn2)) [
  | inl e ↦ sncmp_loop-folded toupper (length sn1 + length sn2) sn1 sn2 (rw e at h)
  | inr e ↦ let wrong : 1 ≡ 0 = rw e at h in absurd (omega (arith, wrong))
]

-- A name that does not end with a space.
abbrev pub IsTrimmed : List ℕ → Type 0
IsTrimmed [] = Unit {0}
IsTrimmed (c ∷ []) = c ≢ 0x20
IsTrimmed (c ∷ d ∷ sn) = IsTrimmed (d ∷ sn)

IsTrimmed-rest : (c : ℕ) (sn : List ℕ) → IsTrimmed (c ∷ sn) → IsTrimmed sn
IsTrimmed-rest c [] t = tt
IsTrimmed-rest c (d ∷ sn) t = t

-- Such a name has something besides spaces.
length-folded_trimmed :
    (toupper : ℕ → ℕ) (c : ℕ) (sn : List ℕ)
    → IsTrimmed (c ∷ sn)
    → 1 ≤ length (folded toupper (c ∷ sn))
unfolding folded
length-folded_trimmed toupper c [] t = rw (ne→== c 0x20 t) (omega arith)
length-folded_trimmed toupper c (d ∷ sn) t = elim (Bool-cases (c == 0x20)) [
  | inl e ↦ rw e (length-folded_trimmed toupper d sn t)
  | inr e ↦ rw e (omega arith)
]

tail_eq : {x y : ℕ} {xs ys : List ℕ} → x ∷ xs ≡ y ∷ ys → xs ≡ ys
tail_eq e = cc

head_eq : {x y : ℕ} {xs ys : List ℕ} → x ∷ xs ≡ y ∷ ys → x ≡ y
head_eq e = cc

eq→== : (x y : ℕ) → x ≡ y → (x == y) ≡ true
eq→== x y e = ap (λ t. x == t) (sym e) ∙ ==-refl x

sncmp_loop-same :
    (toupper : ℕ → ℕ) (fuel : ℕ) (sn1 sn2 : List ℕ)
    → IsTrimmed sn1
    → IsTrimmed sn2
    → length sn1 + length sn2 ≤ fuel
    → folded toupper sn1 ≡ folded toupper sn2
    → sncmp_loop toupper fuel sn1 sn2 ≡ 0
unfolding sncmp_loop folded
sncmp_loop-same toupper fuel [] [] t1 t2 f h = refl
sncmp_loop-same toupper fuel [] (b ∷ sn2) t1 t2 f h =
    absurd (omega (arith, ap length h, length-folded_trimmed toupper b sn2 t2))
sncmp_loop-same toupper fuel (a ∷ sn1) [] t1 t2 f h =
    absurd (omega (arith, ap length h, length-folded_trimmed toupper a sn1 t1))
sncmp_loop-same toupper zero (a ∷ sn1) (b ∷ sn2) t1 t2 f h = absurd (omega arith)
sncmp_loop-same toupper (suc fuel) (a ∷ sn1) (b ∷ sn2) t1 t2 f h =
    let t1' = IsTrimmed-rest a sn1 t1 in
    let t2' = IsTrimmed-rest b sn2 t2 in
    elim (Bool-cases (a == 0x20)) [
      | inl p ↦ elim (Bool-cases (b == 0x20)) [
        | inl q ↦
            rw (p, q) (sncmp_loop-same toupper fuel sn1 sn2 t1' t2' (omega arith) (rw (p, q) at h))
        | inr q ↦
            rw (p, q) (sncmp_loop-same toupper fuel sn1 (b ∷ sn2) t1' t2 (omega arith) (rw p at h))
      ]
      | inr p ↦ elim (Bool-cases (b == 0x20)) [
        | inl q ↦
            rw (p, q) (sncmp_loop-same toupper fuel (a ∷ sn1) sn2 t1 t2' (omega arith) (rw q at h))
        | inr q ↦
            let k : toupper a ∷ folded toupper sn1 ≡ toupper b ∷ folded toupper sn2 =
              rw (p, q) at h in
            rw (p, q)
              (rw (eq→== (toupper a) (toupper b) (head_eq k))
                (sncmp_loop-same toupper fuel sn1 sn2 t1' t2' (omega arith) (tail_eq k)))
      ]
    ]

-- Two names that are the same but for case and spaces, neither of which ends with a space, are equal
-- for `aim_sncmp`: it returns 0, wherever the other spaces are.
pub sncmp_complete :
    (toupper : ℕ → ℕ) (sn1 sn2 : List ℕ)
    → IsTrimmed sn1
    → IsTrimmed sn2
    → folded toupper sn1 ≡ folded toupper sn2
    → sncmp toupper sn1 sn2 ≡ 0
unfolding sncmp
sncmp_complete toupper sn1 sn2 t1 t2 h =
    rw
      (eq→== (snlen sn1) (snlen sn2)
        (sym (length-folded toupper sn1) ∙ ap length h ∙ length-folded toupper sn2))
      (sncmp_loop-same toupper (length sn1 + length sn2) sn1 sn2 t1 t2 (omega arith) h)
