-- ===== src/Bstream/Reads.antt =====
-- What the readers of a stream return, on both branches.
use libfaim.Prelude.{
  ℕ, ◌+◌, ◌-◌, ◌<◌, ◌≡◌, refl, List, [], ◌∷◌, ◌++◌, arith, length, IsU16, IsU32, length-append,
  append_assoc, ltb, lt→ltb, le→ltb, none, some, true, false, bytes_at-append, ◌⊎◌, inl, inr,
}
use libfaim.Prelude.Alloc.{Allocator, Request}
use libfaim.Prelude.Int.{pos}
use libfaim.Bstream.{
  advance, Bstream, empty, get8, get16, get32, getle16, getle32, copy_out, getraw, getstr,
}
use libfaim.Bstream.Words.{
  be8, be16, be32, le16, le32, get8_at-be8, get16_at-be16, get32_at-be32, getle16_at-le16,
  getle32_at-le32,
}
use libfaim.Bstream.View.{cursor, empty-cursor, skip-cursor}

-- On a stream that is too short a reader returns 0 and does not move.
get8_short : (bs : Bstream) → empty bs < 1 → get8 bs ≡ (0, bs)
unfolding get8
get8_short bs h = rw (lt→ltb (empty bs) 1 h)

pub get16_short : (bs : Bstream) → empty bs < 2 → get16 bs ≡ (0, bs)
unfolding get16
get16_short bs h = rw (lt→ltb (empty bs) 2 h)

get32_short : (bs : Bstream) → empty bs < 4 → get32 bs ≡ (0, bs)
unfolding get32
get32_short bs h = rw (lt→ltb (empty bs) 4 h)

room :
    (pre xs r post : List ℕ) (n : ℕ)
    → n ≡ length xs
    → ltb (empty (cursor pre (xs ++ r) post)) n ≡ false
room pre xs r post n e =
    le→ltb (empty (cursor pre (xs ++ r) post)) n
      (omega (arith, empty-cursor pre (xs ++ r) post, length-append xs r))

-- The value lies right before the offset that the reader leaves.
behind : (pre xs : List ℕ) (n : ℕ) → n ≡ length xs → length (pre ++ xs) - n ≡ length pre
behind pre xs n e = omega (arith, length-append pre xs)

module _ (pre r post : List ℕ) (v : ℕ) where
  pub get8-cursor :
      v < 256
      → length pre + 1 + length r < 65536
      → get8 (cursor pre (be8 v ++ r) post) ≡ (v, cursor (pre ++ be8 v) r post)
  unfolding get8
  get8-cursor h fits = rw (room pre (be8 v) r post 1 (unfold be8 in refl)) (
      rw (
        skip-cursor pre (be8 v) r post 1 (unfold be8 in refl) (unfold be8 in fits),
        append_assoc pre (be8 v) (r ++ post),
        get8_at-be8 (length (pre ++ be8 v) - 1) pre (r ++ post) v
            (behind pre (be8 v) 1 (unfold be8 in refl)) h,
      ))

  pub get16-cursor :
      IsU16 v
      → length pre + 2 + length r < 65536
      → get16 (cursor pre (be16 v ++ r) post) ≡ (v, cursor (pre ++ be16 v) r post)
  unfolding get16
  get16-cursor h fits = rw (room pre (be16 v) r post 2 (unfold be16 in refl)) (
      rw (
        skip-cursor pre (be16 v) r post 2 (unfold be16 in refl) (unfold be16 in fits),
        append_assoc pre (be16 v) (r ++ post),
        get16_at-be16 (length (pre ++ be16 v) - 2) pre (r ++ post) v
            (behind pre (be16 v) 2 (unfold be16 in refl)) h,
      ))

  pub get32-cursor :
      IsU32 v
      → length pre + 4 + length r < 65536
      → get32 (cursor pre (be32 v ++ r) post) ≡ (v, cursor (pre ++ be32 v) r post)
  unfolding get32
  get32-cursor h fits = rw (room pre (be32 v) r post 4 (unfold be32 in refl)) (
      rw (
        skip-cursor pre (be32 v) r post 4 (unfold be32 in refl) (unfold be32 in fits),
        append_assoc pre (be32 v) (r ++ post),
        get32_at-be32 (length (pre ++ be32 v) - 4) pre (r ++ post) v
            (behind pre (be32 v) 4 (unfold be32 in refl)) h,
      ))

  pub getle16-cursor :
      IsU16 v
      → length pre + 2 + length r < 65536
      → getle16 (cursor pre (le16 v ++ r) post) ≡ (v, cursor (pre ++ le16 v) r post)
  unfolding getle16
  getle16-cursor h fits = rw (room pre (le16 v) r post 2 (unfold le16 in refl)) (
      rw (
        skip-cursor pre (le16 v) r post 2 (unfold le16 in refl) (unfold le16 in fits),
        append_assoc pre (le16 v) (r ++ post),
        getle16_at-le16 (length (pre ++ le16 v) - 2) pre (r ++ post) v
            (behind pre (le16 v) 2 (unfold le16 in refl)) h,
      ))

  pub getle32-cursor :
      IsU32 v
      → length pre + 4 + length r < 65536
      → getle32 (cursor pre (le32 v ++ r) post) ≡ (v, cursor (pre ++ le32 v) r post)
  unfolding getle32
  getle32-cursor h fits = rw (room pre (le32 v) r post 4 (unfold le32 in refl)) (
      rw (
        skip-cursor pre (le32 v) r post 4 (unfold le32 in refl) (unfold le32 in fits),
        append_assoc pre (le32 v) (r ++ post),
        getle32_at-le32 (length (pre ++ le32 v) - 4) pre (r ++ post) v
            (behind pre (le32 v) 4 (unfold le32 in refl)) h,
      ))

module _ (pre xs r post : List ℕ) (fits : length pre + length xs + length r < 65536) where
  pub copy_out-cursor :
      (n : ℕ)
      → n ≡ length xs
      → copy_out (cursor pre (xs ++ r) post) n ≡ (n, xs, cursor (pre ++ xs) r post)
  unfolding copy_out
  copy_out-cursor n e = rw (room pre xs r post n e) (
      rw (
        skip-cursor pre xs r post n e fits,
        append_assoc xs r post,
        bytes_at-append (length pre) n pre xs (r ++ post) refl e,
      ))

  pub advance-cursor :
      (advance (cursor pre (xs ++ r) post) (pos (length xs))).1 ≡ cursor (pre ++ xs) r post
  unfolding advance
  advance-cursor =
      rw (room pre xs r post (length xs) refl) (skip-cursor pre xs r post (length xs) refl fits)

  module _ (malloc : Allocator) (n : ℕ) (e : n ≡ length xs) where
    pub getraw-cursor :
        malloc (Request.bytes n) ≡ true
        → getraw malloc (cursor pre (xs ++ r) post) n ≡ (some xs, cursor (pre ++ xs) r post)
    unfolding getraw
    getraw-cursor granted = rw granted (rw (copy_out-cursor n e) (rw (le→ltb n n (omega arith))))

    pub getstr-cursor :
        malloc (Request.bytes (n + 1)) ≡ true
        → getstr malloc (cursor pre (xs ++ r) post) n
          ≡ (some (xs ++ 0 ∷ []), cursor (pre ++ xs) r post)
    unfolding getstr
    getstr-cursor granted = rw granted (rw (copy_out-cursor n e) (rw (le→ltb n n (omega arith))))

-- Too short a stream, or a refused allocation: NULL, and the stream has not moved.
getraw_fails :
    (malloc : Allocator) (bs : Bstream) (n : ℕ)
    → (malloc (Request.bytes n) ≡ false) ⊎ (empty bs < n)
    → getraw malloc bs n ≡ (none, bs)
unfolding getraw copy_out
getraw_fails malloc bs n (inl refused) = rw refused
getraw_fails malloc bs n (inr short) = ground (arith, lt→ltb (empty bs) n short)
