-- ===== src/Bstream/Writes.antt =====
-- What the writers of a stream store, on both branches.
use libfaim.Prelude.{
  ℕ, ◌+◌, ◌<◌, ◌≡◌, refl, ap, List, [], ◌++◌, arith, length, take, length-append, append_assoc,
  append-nil, ltb, lt→ltb, le→ltb, false, take-append, bytes_at-append, memcpy, u16,
}
use libfaim.Bstream.{Bstream, empty, emit, put8, put16, put32, putle16, putle32, putraw, putbs}
use libfaim.Bstream.Words.{be8, be16, be32, le16, le32}
use libfaim.Bstream.View.{cursor, empty-cursor, skip-cursor, emit-cursor}

-- A stream without room for the value is left as it is, and 0 is returned.
put8_full : (bs : Bstream) (v : ℕ) → empty bs < 1 → put8 bs v ≡ (0, bs)
unfolding put8
put8_full bs v h = rw (lt→ltb (empty bs) 1 h)

put16_full : (bs : Bstream) (v : ℕ) → empty bs < 2 → put16 bs v ≡ (0, bs)
unfolding put16
put16_full bs v h = rw (lt→ltb (empty bs) 2 h)

put32_full : (bs : Bstream) (v : ℕ) → empty bs < 4 → put32 bs v ≡ (0, bs)
unfolding put32
put32_full bs v h = rw (lt→ltb (empty bs) 4 h)

room :
    (pre old r post : List ℕ) (n : ℕ)
    → length old ≡ n
    → ltb (empty (cursor pre (old ++ r) post)) n ≡ false
room pre old r post n e =
    le→ltb (empty (cursor pre (old ++ r) post)) n
      (omega (arith, empty-cursor pre (old ++ r) post, length-append old r))

module _ (pre old r post : List ℕ) (v : ℕ) where
  pub put8-cursor :
      length old ≡ 1
      → length pre + 1 + length r < 65536
      → put8 (cursor pre (old ++ r) post) v ≡ (1, cursor (pre ++ be8 v) r post)
  unfolding put8
  put8-cursor e fits =
      rw (room pre old r post 1 e)
        (rw (emit-cursor pre old (be8 v) r post (unfold be8 in e) (unfold be8 in fits)))

  pub put16-cursor :
      length old ≡ 2
      → length pre + 2 + length r < 65536
      → put16 (cursor pre (old ++ r) post) v ≡ (2, cursor (pre ++ be16 v) r post)
  unfolding put16
  put16-cursor e fits =
      rw (room pre old r post 2 e)
        (rw (emit-cursor pre old (be16 v) r post (unfold be16 in e) (unfold be16 in fits)))

  pub put32-cursor :
      length old ≡ 4
      → length pre + 4 + length r < 65536
      → put32 (cursor pre (old ++ r) post) v ≡ (1, cursor (pre ++ be32 v) r post)
  unfolding put32
  put32-cursor e fits =
      rw (room pre old r post 4 e)
        (rw (emit-cursor pre old (be32 v) r post (unfold be32 in e) (unfold be32 in fits)))

  pub putle16-cursor :
      length old ≡ 2
      → length pre + 2 + length r < 65536
      → putle16 (cursor pre (old ++ r) post) v ≡ (2, cursor (pre ++ le16 v) r post)
  unfolding putle16
  putle16-cursor e fits =
      rw (room pre old r post 2 e)
        (rw (emit-cursor pre old (le16 v) r post (unfold le16 in e) (unfold le16 in fits)))

  pub putle32-cursor :
      length old ≡ 4
      → length pre + 4 + length r < 65536
      → putle32 (cursor pre (old ++ r) post) v ≡ (1, cursor (pre ++ le32 v) r post)
  unfolding putle32
  putle32-cursor e fits =
      rw (room pre old r post 4 e)
        (rw (emit-cursor pre old (le32 v) r post (unfold le32 in e) (unfold le32 in fits)))

module _ (pre old r post xs : List ℕ) (n : ℕ) where
  pub putraw-cursor :
      n ≡ length xs
      → length old ≡ n
      → length pre + n + length r < 65536
      → putraw (cursor pre (old ++ r) post) xs n ≡ (n, cursor (pre ++ xs) r post)
  unfolding putraw
  putraw-cursor e h fits = rw (room pre old r post n h) (ap (λ t. (n, t)) stored)
    where
      whole : take n xs ≡ xs
      whole = rw append-nil at (take-append n xs [] e)

      stored :
          record (cursor pre (old ++ r) post) {
            buf = memcpy (pre ++ ((old ++ r) ++ post)) (length pre) (take n xs);
            offset = u16 (length pre + n);
          }
          ≡ cursor (pre ++ xs) r post
      stored =
          rw (whole, e) (unfold emit in emit-cursor pre old xs r post (omega arith) (omega arith))

  -- `n` bytes go from one stream to the other, and both move past them.
  pub putbs-cursor :
      (pre' r' post' : List ℕ)
      → n ≡ length xs
      → length old ≡ n
      → length pre + n + length r < 65536
      → length pre' + n + length r' < 65536
      → putbs (cursor pre (old ++ r) post) (cursor pre' (xs ++ r') post') n
        ≡ (n, cursor (pre ++ xs) r post, cursor (pre' ++ xs) r' post')
  unfolding putbs
  putbs-cursor pre' r' post' e h fits fits' =
      rw (room pre' xs r' post' n (omega arith), room pre old r post n h)
        (rw
          (
            skip-cursor pre' xs r' post' n e (omega arith),
            append_assoc xs r' post',
            bytes_at-append (length pre') n pre' xs (r' ++ post') refl e,
          )
          (ap (λ t. (n, t, cursor (pre' ++ xs) r' post')) stored))
    where
      stored :
          record (cursor pre (old ++ r) post) {
            buf = memcpy (pre ++ ((old ++ r) ++ post)) (length pre) xs;
            offset = u16 (length pre + n);
          }
          ≡ cursor (pre ++ xs) r post
      stored = rw e (unfold emit in emit-cursor pre old xs r post (omega arith) (omega arith))
