-- ===== src/Login/Tests.antt =====
-- The masking of a short password, whose fifth byte is masked to a NUL.
use libfaim.Prelude.{ℕ, ◌≡◌, refl, ◌≤◌, ◌<◌, ◌⊎◌, arith, none, some, List, [], ◌∷◌, length, take}
use libfaim.Userinfo.{c_string}
use libfaim.Login.{encoding_table, encode_with, encode_password}
use libfaim.Login.Password.{encode_password-encode_password}

-- "12349a"
abbrev pw : List ℕ
pw = b'1' ∷ b'2' ∷ b'3' ∷ b'4' ∷ b'9' ∷ b'a' ∷ []

-- The function takes the mask for a string of four bytes.
cut_test :
    encode_password (0xc2 ∷ 0x14 ∷ 0xb2 ∷ 0xf0 ∷ 0 ∷ 0xe7 ∷ [])
    ≡ some (b'1' ∷ b'2' ∷ b'3' ∷ b'4' ∷ [])
unfolding encode_password encode_with c_string
cut_test = refl

encode_password-encode_password_example :
    ((masked : List ℕ) × (length pw ≤ 16)
      × (encode_password pw ≡ some masked)
      × (length masked ≡ length pw)
      × (encode_with encoding_table masked ≡ some pw)
      × (encode_password masked ≡ some (take (length (c_string masked)) pw)))
    ⊎ ((16 < length pw) × (encode_password pw ≡ none))
encode_password-encode_password_example =
    encode_password-encode_password pw
      (omega arith, (omega arith, (omega arith, (omega arith, (omega arith, (omega arith, tt))))))
      (omega arith, (omega arith, (omega arith, (omega arith, (omega arith, (omega arith, tt))))))
