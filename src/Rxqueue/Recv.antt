-- ===== src/Rxqueue/Recv.antt =====
-- aim_recv and aim_bstream_recv over a socket that keeps recv(2)'s promises.
use libfaim.Prelude.{
  ℕ, zero, suc, ◌+◌, ◌-◌, ◌≤◌, ◌<◌, ◌≡◌, refl, ap, ap₂, sym, ◌∙◌, none, some, List, [], ◌∷◌, ◌++◌,
  ◌==◌, arith, length, drop, append-nil, append_assoc, length-append, length-drop, Bool-cases, inl,
  inr, ==→eq, ==→ne, le→ltb, ne→==,
}
use libfaim.Bstream.{empty, emit}
use libfaim.Bstream.View.{cursor, empty-cursor, emit-cursor}
use libfaim.Os.{Os, Receives}
use libfaim.Rxqueue.{Received, received, failed, recv_loop, recv, store, bstream_recv}

-- Where one list of bytes is read in two ways.
record Overlap (xs more ys p : List ℕ) : Type 0 where
  tail_of : xs ≡ ys ++ drop (length ys) xs
  left : p ≡ drop (length ys) xs ++ more

overlap :
    (xs more ys p : List ℕ) → xs ++ more ≡ ys ++ p → length ys ≤ length xs → Overlap xs more ys p
overlap xs more [] p e h = record { tail_of = refl; left = sym e }
overlap [] more (y ∷ ys) p e h = absurd (omega arith)
overlap (x ∷ xs) more (y ∷ ys) p e h =
    let o = overlap xs more ys p (cc) (omega arith) in
    record { tail_of = ap₂ ◌∷◌ (cc) o.tail_of; left = o.left }

nil_of_length : (xs : List ℕ) → length xs ≡ 0 → xs ≡ []
nil_of_length [] h = refl
nil_of_length (x ∷ xs) h = absurd (omega arith)

module _ {S : Type 0} (os : Os S) (laws : Receives os) (fd : ℕ) where
  module _ (fuel left : ℕ) (cur : List ℕ) (s : S) where
    loop_end : left ≡ 0 → recv_loop os fd (suc fuel) left cur s ≡ (received cur, s)
    unfolding recv_loop
    loop_end z = rw (z, recv_loop)

    loop_dry :
        0 < left
        → length (os.recv fd left s).0 ≡ 0
        → recv_loop os fd (suc fuel) left cur s ≡ (failed cur, (os.recv fd left s).1)
    unfolding recv_loop
    loop_dry h z = rw (ne→== left 0 (omega arith), recv_loop) (rw z)

    loop_more :
        0 < left
        → 0 < length (os.recv fd left s).0
        → recv_loop os fd (suc fuel) left cur s
          ≡ recv_loop os fd fuel
              (left - length (os.recv fd left s).0)
              (cur ++ (os.recv fd left s).0)
              (os.recv fd left s).1
    unfolding recv_loop
    loop_more h k =
        rw (ne→== left 0 (omega arith), recv_loop)
          (rw (ne→== (length (os.recv fd left s).0) 0 (omega arith)))

  recv_loop_all :
      (fuel left : ℕ) (cur xs more : List ℕ) (s : S)
      → os.pending fd s ≡ xs ++ more
      → length xs ≡ left
      → left ≤ fuel
      → ((recv_loop os fd fuel left cur s).0 ≡ received (cur ++ xs))
        × (os.pending fd (recv_loop os fd fuel left cur s).1 ≡ more)
  unfolding recv_loop
  recv_loop_all zero left cur xs more s e l f =
      let z : left ≡ 0 = omega arith in
      let n = nil_of_length xs (omega arith) in rw (z, n) (rw append-nil refl, rw (e, n) refl)
  recv_loop_all (suc fuel) left cur xs more s e l f = elim (Bool-cases (left == 0)) [
    | inl z ↦
        let n = nil_of_length xs (omega (arith, ==→eq left 0 z)) in
        rw (loop_end fuel left cur s (==→eq left 0 z)) (rw (n, append-nil) refl, rw (e, n) refl)
    | inr z ↦
        let ys = (os.recv fd left s).0 in
        let s' = (os.recv fd left s).1 in
        let some_bytes : 0 < length ys =
          laws.recv_some fd left s (omega (arith, ==→ne left 0 z))
            (omega (arith, ap length e, length-append xs more, ==→ne left 0 z)) in
        let o =
          overlap xs more ys (os.pending fd s') (sym e ∙ laws.recv_next fd left s)
            (omega (arith, laws.recv_most fd left s)) in
        let ih =
          recv_loop_all fuel (left - length ys) (cur ++ ys) (drop (length ys) xs) more s' o.left
            (omega (arith, length-drop (length ys) xs)) (omega arith) in
        rw (loop_more fuel left cur s (omega (arith, ==→ne left 0 z)) some_bytes) (
          ih.0
              ∙ ap received
                  (append_assoc cur ys (drop (length ys) xs) ∙ ap (λ t. cur ++ t) (sym o.tail_of)),
          ih.1,
        )
  ]

  -- A stream that ends too early.
  recv_loop_short :
      (fuel left : ℕ) (cur : List ℕ) (s : S)
      → length (os.pending fd s) < left
      → left ≤ fuel
      → (recv_loop os fd fuel left cur s).0 ≡ failed (cur ++ os.pending fd s)
  unfolding recv_loop
  recv_loop_short zero left cur s h f = absurd (omega arith)
  recv_loop_short (suc fuel) left cur s h f =
      let ys = (os.recv fd left s).0 in
      let s' = (os.recv fd left s).1 in
      let next : os.pending fd s ≡ ys ++ os.pending fd s' = laws.recv_next fd left s in
      let l : length (os.pending fd s) ≡ length ys + length (os.pending fd s') =
        ap length next ∙ length-append ys (os.pending fd s') in
      elim (Bool-cases (length ys == 0)) [
        | inl z ↦
            let dry : os.pending fd s ≡ [] =
              nil_of_length (os.pending fd s) (elim (Bool-cases (length (os.pending fd s) == 0)) [
                | inl d ↦ ==→eq (length (os.pending fd s)) 0 d
                | inr d ↦ absurd (
                    omega (
                      arith,
                      ==→eq (length ys) 0 z,
                      laws.recv_some fd left s (omega arith)
                          (omega (arith, ==→ne (length (os.pending fd s)) 0 d)),
                    ))
              ]) in
            rw (loop_dry fuel left cur s (omega arith) (==→eq (length ys) 0 z))
              (rw (dry, append-nil) refl)
        | inr z ↦
            rw (loop_more fuel left cur s (omega arith) (omega (arith, ==→ne (length ys) 0 z))) (
              recv_loop_short fuel (left - length ys) (cur ++ ys) s' (omega arith)
                (omega (arith, ==→ne (length ys) 0 z))
              ∙ ap failed (append_assoc cur ys (os.pending fd s') ∙ ap (λ t. cur ++ t) (sym next)))
      ]

  -- A pair by its first part.
  received_all : (r : Received × S) {x : Received} → r.0 ≡ x → r ≡ (x, r.1)
  received_all r e = λ i. (e i, r.1)

  bstream_recv-store :
      (old : List ℕ) (n : ℕ) (s : S)
      → length old ≡ n
      → 0 < n
      → bstream_recv os (cursor [] (old ++ []) []) fd n s
        ≡ store os (cursor [] (old ++ []) []) (recv os fd n s)
  unfolding bstream_recv
  bstream_recv-store old n s lo pos =
      let room : empty (cursor [] (old ++ []) []) ≡ n =
        empty-cursor [] (old ++ []) [] ∙ length-append old [] ∙ omega arith in
      let inside = cursor [] (old ++ []) [] in
      rw (
        room,
        le→ltb inside.len inside.offset (omega arith),
        le→ltb n n (omega arith),
        ne→== n 0 (omega arith),
      )

  -- With `n` bytes or more on the way, a stream over a buffer of `n` bytes is filled with the first `n`,
  -- however the socket cuts them into pieces; what follows them stays in the socket.
  pub bstream_recv_all :
      (old xs more : List ℕ) (n : ℕ) (s : S)
      → os.pending fd s ≡ xs ++ more
      → length xs ≡ n
      → length old ≡ n
      → 0 < n
      → n < 65536
      → (let r = bstream_recv os (cursor [] (old ++ []) []) fd n s in
          (r.0 ≡ some n) × (r.1 ≡ cursor xs [] []) × (os.pending fd r.2 ≡ more))
  unfolding recv store emit
  bstream_recv_all old xs more n s e lx lo pos small =
      let k = recv_loop_all n n [] xs more s e lx (omega arith) in
      rw (bstream_recv-store old n s lo pos, received_all (recv os fd n s) k.0)
        (ap some lx, emit-cursor [] old xs [] [] (lo ∙ sym lx) (omega arith), k.1)

  -- A socket that dries up before `n` bytes: -1.
  pub bstream_recv_short :
      (old : List ℕ) (n : ℕ) (s : S)
      → length (os.pending fd s) < n
      → length old ≡ n
      → (bstream_recv os (cursor [] (old ++ []) []) fd n s).0 ≡ none
  unfolding recv store
  bstream_recv_short old n s h lo = rw (
    bstream_recv-store old n s lo (omega arith),
    received_all (recv os fd n s) (recv_loop_short n n [] s h (omega arith)),
  )
