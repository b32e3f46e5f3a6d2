-- ===== src/Login/Password.antt =====
-- The masking of the password.
use Prim.Native.Nat.{bit_xor}
use libfaim.Prelude.{
  ℕ, zero, suc, ◌+◌, ◌-◌, false, sym, ◌∙◌, if◌then◌else◌, true-false, ◌≤◌, ◌<◌, ◌≡◌, refl, ap, Bool,
  true, none, some, List, [], ◌∷◌, arith, length, All, IsByte, ◌==◌, ==→eq, Bool-cases, inl, inr,
  ◌⊎◌, ltb, ltb→lt, ltb→le, take, ne→==,
}
use libfaim.Userinfo.{c_string}
use libfaim.Login.{encoding_table, encode_with, encode_password}

if_true : (b c : Bool) → (if b then c else false) ≡ true → (b ≡ true) × (c ≡ true)
if_true true c h = (refl, h)
if_true false c h = absurd (true-false (sym h))

-- Whether a function leaves every number below a limit as it is.
leaves : (f : ℕ → ℕ) → (limit : ℕ) → Bool
leaves f zero = true
leaves f (suc k) = if f k == k then leaves f k else false

-- `k` numbers lie between the number and the limit.
leaves-eq : (f : ℕ → ℕ) (x k : ℕ) → leaves f (suc (k + x)) ≡ true → f x ≡ x
unfolding leaves
leaves-eq f x zero h =
    let e : suc x ≡ suc (0 + x) = omega arith in
    ==→eq (f x) x (if_true (f x == x) (leaves f x) (ap (leaves f) e ∙ h)).0
leaves-eq f x (suc k) h =
    let n = k + x in
    let e : suc (suc n) ≡ suc (suc k + x) = omega arith in
    let down = if_true (f (suc n) == suc n) (leaves f (suc n)) (ap (leaves f) e ∙ h) in
    leaves-eq f x k down.1

masked_twice : (t x : ℕ) → ℕ
masked_twice t x = bit_xor (bit_xor x t) t

-- A mask that is taken off by masking again.
abbrev IsMask : ℕ → Type 0
IsMask t = leaves (masked_twice t) 256 ≡ true

table-IsMask : All IsMask encoding_table
unfolding leaves masked_twice
table-IsMask = (
  refl,
  (
    refl,
    (
      refl,
      (
        refl,
        (
          refl,
          (
            refl,
            (refl, (refl, (refl, (refl, (refl, (refl, (refl, (refl, (refl, (refl, tt)))))))))),
          ),
        ),
      ),
    ),
  ),
)

unmask : (x t : ℕ) → IsMask t → IsByte x → bit_xor (bit_xor x t) t ≡ x
unfolding masked_twice
unmask x t m h =
    leaves-eq (masked_twice t) x (255 - x) (ap (leaves (masked_twice t)) (omega (arith, h)) ∙ m)

encode_with-twice :
    (table password : List ℕ)
    → All IsMask table
    → All IsByte password
    → length password ≤ length table
    → (masked : List ℕ) × (encode_with table password ≡ some masked)
      × (length masked ≡ length password)
      × (encode_with table masked ≡ some password)
      × (encode_with table (c_string masked) ≡ some (take (length (c_string masked)) password))
unfolding encode_with c_string
encode_with-twice table [] m h le = ([], refl, refl, refl, refl)
encode_with-twice [] (x ∷ xs) m h le = absurd (omega arith)
encode_with-twice (t ∷ ts) (x ∷ xs) m h le =
    let (ys, e, l, back, string) = encode_with-twice ts xs m.1 h.1 (omega arith) in
    let same = unmask x t m.0 h.0 in
    (
      bit_xor x t ∷ ys,
      rw e refl,
      omega (arith, l),
      rw back (ap (λ y. some (y ∷ xs)) same),
      elim (Bool-cases (bit_xor x t == 0)) [
        | inl nul ↦ rw nul refl
        | inr byte ↦ rw byte (rw string (ap (λ y. some (y ∷ take (length (c_string ys)) xs)) same))
      ],
    )

encode_with_long :
    (table password : List ℕ) → length table < length password → encode_with table password ≡ none
unfolding encode_with
encode_with_long table [] lt = absurd (omega arith)
encode_with_long [] (x ∷ xs) lt = refl
encode_with_long (t ∷ ts) (x ∷ xs) lt = rw (encode_with_long ts xs (omega arith)) refl

c_string-whole : (xs : List ℕ) → All (λ b. 0 < b) xs → c_string xs ≡ xs
unfolding c_string
c_string-whole [] h = refl
c_string-whole (x ∷ xs) h =
    rw (ne→== x 0 (omega (arith, h.0))) (ap (λ t. x ∷ t) (c_string-whole xs h.1))

-- A password of bytes that are not NUL either has at most 16 of them, and then it is masked to as many
-- bytes, and the mask over all of these gives the password back, while the function itself, which takes
-- them for a string, gives back the password only as far as the first NUL among them; or the loop reads
-- past the end of its table.
pub encode_password-encode_password :
    (password : List ℕ)
    → All IsByte password
    → All (λ b. 0 < b) password
    → ((masked : List ℕ) × (length password ≤ 16)
        × (encode_password password ≡ some masked)
        × (length masked ≡ length password)
        × (encode_with encoding_table masked ≡ some password)
        × (encode_password masked ≡ some (take (length (c_string masked)) password)))
      ⊎ ((16 < length password) × (encode_password password ≡ none))
unfolding encode_password
encode_password-encode_password password h no_nul = elim (Bool-cases (ltb 16 (length password))) [
  | inl long ↦
      let lt = ltb→lt _ _ long in
      inr (lt, rw (c_string-whole password no_nul) (encode_with_long encoding_table password lt))
  | inr short ↦
      let le = ltb→le _ _ short in
      let (masked, e, l, back, string) =
        encode_with-twice encoding_table password table-IsMask h le in
      inl (masked, le, rw (c_string-whole password no_nul) e, l, back, string)
]
