-- ===== src/Bstream/Room.antt =====
-- The writers on a stream with room to spare: what is written replaces the first bytes of the room.
use libfaim.Prelude.{
  ℕ, ◌+◌, ◌≤◌, ◌<◌, ◌≡◌, refl, ap, sym, ◌∙◌, List, ◌++◌, arith, length, take, drop, length-take,
  length-drop, take-append-drop,
}
use libfaim.Bstream.{put8, put16, put32, putraw}
use libfaim.Bstream.Words.{be8, be16, be32}
use libfaim.Bstream.View.{cursor}
use libfaim.Bstream.Writes.{put8-cursor, put16-cursor, put32-cursor, putraw-cursor}

module _ (pre old post : List ℕ) (fits : length pre + length old < 65536) where
  module _ (v : ℕ) where
    pub put8-room :
        1 ≤ length old → (put8 (cursor pre old post) v).1 ≡ cursor (pre ++ be8 v) (drop 1 old) post
    put8-room h =
        ap (λ o. (put8 (cursor pre o post) v).1) (sym (take-append-drop 1 old))
        ∙ ap (λ t. t.1)
            (put8-cursor pre (take 1 old) (drop 1 old) post v (omega (arith, length-take 1 old))
              (omega (arith, length-drop 1 old)))

    pub put16-room :
        2 ≤ length old
        → (put16 (cursor pre old post) v).1 ≡ cursor (pre ++ be16 v) (drop 2 old) post
    put16-room h =
        ap (λ o. (put16 (cursor pre o post) v).1) (sym (take-append-drop 2 old))
        ∙ ap (λ t. t.1)
            (put16-cursor pre (take 2 old) (drop 2 old) post v (omega (arith, length-take 2 old))
              (omega (arith, length-drop 2 old)))

    put32-room :
        4 ≤ length old
        → (put32 (cursor pre old post) v).1 ≡ cursor (pre ++ be32 v) (drop 4 old) post
    put32-room h =
        ap (λ o. (put32 (cursor pre o post) v).1) (sym (take-append-drop 4 old))
        ∙ ap (λ t. t.1)
            (put32-cursor pre (take 4 old) (drop 4 old) post v (omega (arith, length-take 4 old))
              (omega (arith, length-drop 4 old)))

  pub putraw-room :
      (xs : List ℕ)
      → length xs ≤ length old
      → (putraw (cursor pre old post) xs (length xs)).1
        ≡ cursor (pre ++ xs) (drop (length xs) old) post
  putraw-room xs h =
      let n = length xs in
      ap (λ o. (putraw (cursor pre o post) xs n).1) (sym (take-append-drop n old))
      ∙ ap (λ t. t.1)
          (putraw-cursor pre (take n old) (drop n old) post xs n refl
            (omega (arith, length-take n old))
            (omega (arith, length-take n old, length-drop n old)))
