-- ===== src/Bstream/Words.antt =====
-- include/aim.h, aimutil_get* and aimutil_put*: how numbers lie in memory. A `put` macro stores its
-- bytes one after the other, so it is given by the list of them.
use libfaim.Prelude.{
  ℕ, ◌+◌, ◌*◌, ◌/◌, ◌<◌, ◌≡◌, List, [], ◌∷◌, u8, get_or, IsU16, IsU32, arith, length, ◌++◌,
  get_or-append,
}

unfoldable pub get8_at : List ℕ → ℕ → ℕ
get8_at buf i = u8 (get_or buf i 0)

unfoldable pub get16_at : List ℕ → ℕ → ℕ
get16_at buf i = u8 (get_or buf i 0) * 256 + u8 (get_or buf (i + 1) 0)

unfoldable pub get32_at : List ℕ → ℕ → ℕ
get32_at buf i =
    u8 (get_or buf i 0) * 16777216
    + u8 (get_or buf (i + 1) 0) * 65536
    + u8 (get_or buf (i + 2) 0) * 256
    + u8 (get_or buf (i + 3) 0)

pub getle16_at : List ℕ → ℕ → ℕ
getle16_at buf i = u8 (get_or buf i 0) + u8 (get_or buf (i + 1) 0) * 256

pub getle32_at : List ℕ → ℕ → ℕ
getle32_at buf i =
    u8 (get_or buf i 0)
    + u8 (get_or buf (i + 1) 0) * 256
    + u8 (get_or buf (i + 2) 0) * 65536
    + u8 (get_or buf (i + 3) 0) * 16777216

unfoldable pub be8 : ℕ → List ℕ
be8 v = u8 v ∷ []

unfoldable pub be16 : ℕ → List ℕ
be16 v = u8 (v / 256) ∷ u8 v ∷ []

unfoldable pub be32 : ℕ → List ℕ
be32 v = u8 (v / 16777216) ∷ u8 (v / 65536) ∷ u8 (v / 256) ∷ u8 v ∷ []

unfoldable pub le16 : ℕ → List ℕ
le16 v = u8 v ∷ u8 (v / 256) ∷ []

unfoldable pub le32 : ℕ → List ℕ
le32 v = u8 v ∷ u8 (v / 256) ∷ u8 (v / 65536) ∷ u8 (v / 16777216) ∷ []

-- Each reader gives back, at its index, what the writer of its width put there.
module _ (i : ℕ) (pre post : List ℕ) (v : ℕ) (e : i ≡ length pre) where
  pub get8_at-be8 : v < 256 → get8_at (pre ++ (be8 v ++ post)) i ≡ v
  unfolding get8_at be8
  get8_at-be8 h = omega (arith, get_or-append i 0 pre (be8 v ++ post) 0)

  pub get16_at-be16 : IsU16 v → get16_at (pre ++ (be16 v ++ post)) i ≡ v
  unfolding get16_at be16
  get16_at-be16 h = omega (
    arith,
    get_or-append i 0 pre (be16 v ++ post) 0,
    get_or-append (i + 1) 1 pre (be16 v ++ post) 0,
  )

  pub get32_at-be32 : IsU32 v → get32_at (pre ++ (be32 v ++ post)) i ≡ v
  unfolding get32_at be32
  get32_at-be32 h = omega (
    arith,
    get_or-append i 0 pre (be32 v ++ post) 0,
    get_or-append (i + 1) 1 pre (be32 v ++ post) 0,
    get_or-append (i + 2) 2 pre (be32 v ++ post) 0,
    get_or-append (i + 3) 3 pre (be32 v ++ post) 0,
  )

  pub getle16_at-le16 : IsU16 v → getle16_at (pre ++ (le16 v ++ post)) i ≡ v
  unfolding getle16_at le16
  getle16_at-le16 h = omega (
    arith,
    get_or-append i 0 pre (le16 v ++ post) 0,
    get_or-append (i + 1) 1 pre (le16 v ++ post) 0,
  )

  pub getle32_at-le32 : IsU32 v → getle32_at (pre ++ (le32 v ++ post)) i ≡ v
  unfolding getle32_at le32
  getle32_at-le32 h = omega (
    arith,
    get_or-append i 0 pre (le32 v ++ post) 0,
    get_or-append (i + 1) 1 pre (le32 v ++ post) 0,
    get_or-append (i + 2) 2 pre (le32 v ++ post) 0,
    get_or-append (i + 3) 3 pre (le32 v ++ post) 0,
  )
