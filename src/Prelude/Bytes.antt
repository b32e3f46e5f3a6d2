-- ===== src/Prelude/Bytes.antt =====
-- Machine words as native numbers, and the memory behind a `fu8_t *` as a list of bytes.
use Prim.Native.Nat.{ℕ, ◌+◌, ◌%◌, ◌<◌}
use mathlib.Core.Path.{◌≡◌, refl, ap, sym, ◌∙◌}
use mathlib.Core.List.{List, [], ◌∷◌, ◌++◌, append_assoc}
use native.Mathlib.Omega.{arith}
use libfaim.Prelude.Lists.{
  length, set, take, drop, All, length-append, length-set, set-append, All-set, drop-append,
  take-append,
}

-- `fu8_t` and `fu16_t` conversions, and what four bytes hold of a number.
abbrev pub u8 : ℕ → ℕ
u8 n = n % 256

abbrev pub u16 : ℕ → ℕ
u16 n = n % 65536

abbrev pub u32 : ℕ → ℕ
u32 n = n % 4294967296

abbrev pub IsByte : ℕ → Type 0
IsByte b = b < 256

abbrev pub IsU16 : ℕ → Type 0
IsU16 n = n < 65536

abbrev pub IsU32 : ℕ → Type 0
IsU32 n = n < 4294967296

-- `memcpy(buf + i, src, len)` with `src` of `len` bytes.
abbrev pub memcpy : List ℕ → ℕ → List ℕ → List ℕ
memcpy buf i [] = buf
memcpy buf i (x ∷ xs) = memcpy (set buf i x) (i + 1) xs

-- The `n` bytes from `buf + i` on.
abbrev pub bytes_at : List ℕ → ℕ → ℕ → List ℕ
bytes_at buf i n = take n (drop i buf)

-- A copy over as many bytes as it brings replaces exactly those.
pub memcpy-append :
    (i : ℕ) (pre old src post : List ℕ)
    → i ≡ length pre
    → length old ≡ length src
    → memcpy (pre ++ (old ++ post)) i src ≡ pre ++ (src ++ post)
memcpy-append i pre [] [] post e h = refl
memcpy-append i pre [] (y ∷ src) post e h = absurd (omega arith)
memcpy-append i pre (x ∷ old) [] post e h = absurd (omega arith)
memcpy-append i pre (x ∷ old) (y ∷ src) post e h =
    ap (λ t. memcpy t (i + 1) src) (set-append i pre x y (old ++ post) e)
    ∙ ap (λ t. memcpy t (i + 1) src) (sym (append_assoc pre (y ∷ []) (old ++ post)))
    ∙ memcpy-append (i + 1) (pre ++ (y ∷ [])) old src post
        (omega (arith, length-append pre (y ∷ []))) (omega arith)
    ∙ append_assoc pre (y ∷ []) (src ++ post)

pub length-memcpy : (buf : List ℕ) (i : ℕ) (src : List ℕ) → length (memcpy buf i src) ≡ length buf
length-memcpy buf i [] = refl
length-memcpy buf i (x ∷ xs) = length-memcpy (set buf i x) (i + 1) xs ∙ length-set buf i x

pub memcpy-bytes :
    (buf : List ℕ) (i : ℕ) (src : List ℕ)
    → All IsByte buf
    → All IsByte src
    → All IsByte (memcpy buf i src)
memcpy-bytes buf i [] h k = h
memcpy-bytes buf i (x ∷ xs) h k =
    memcpy-bytes (set buf i x) (i + 1) xs (All-set IsByte buf i x h k.0) k.1

pub bytes_at-append :
    (i n : ℕ) (pre xs post : List ℕ)
    → i ≡ length pre
    → n ≡ length xs
    → bytes_at (pre ++ (xs ++ post)) i n ≡ xs
bytes_at-append i n pre xs post e h =
    ap (λ t. take n t) (drop-append i pre (xs ++ post) e) ∙ take-append n xs post h
