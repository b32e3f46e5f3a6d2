-- ===== src/Msgcookie/Cache.antt =====
-- aim_cachecookie and aim_uncachecookie over a chain in which no two cookies share a name.
use libfaim.Prelude.{
  ℕ, ◌≤◌, ◌≡◌, ◌≢◌, refl, ap, ap₂, sym, ◌∙◌, List, [], ◌∷◌, none, some, arith, keep, Bool, true,
  false, not, Bool-cases, Option-cases, inl, inr, ◌⊎◌, ==→eq, ==-refl, ne→==, length, keep_comm,
  length-keep,
}
use mathlib.Core.List.{head?, tail}
use libfaim.Msgcookie.{
  Msgcookie, matches, is_at, checkcookie, uncachecookie, cookie_free, append_front, cachecookie,
}
use libfaim.Msgcookie.Held.{
  held, same_bytes_refl, checkcookie-head, uncachecookie-head, uncachecookie-other,
  keep-cookie_free, Differ, matches_unique,
}

nil_of_head : (xs : List Msgcookie) → head? xs ≡ none → xs ≡ []
nil_of_head [] h = refl
nil_of_head (x ∷ xs) h = cc

nil_of_length : (xs : List Msgcookie) → length xs ≤ 0 → xs ≡ []
nil_of_length [] h = refl
nil_of_length (x ∷ xs) h = absurd (omega arith)

head_keep :
    (p : Msgcookie → Bool) (xs : List Msgcookie) {n : Msgcookie}
    → head? (keep p xs) ≡ some n
    → p n ≡ true
head_keep p [] h = cc
head_keep p (x ∷ xs) h = elim (Bool-cases (p x)) [
  | inl e ↦ let k = rw e at h in ground arith
  | inr e ↦ head_keep p xs (rw e at h)
]

-- The element that a search finds is the only one of a kind that has one element at most.
keep_found :
    (p q : Msgcookie → Bool) (xs : List Msgcookie) {n : Msgcookie}
    → head? (keep p xs) ≡ some n
    → q n ≡ true
    → length (keep q xs) ≤ 1
    → keep q xs ≡ n ∷ []
keep_found p q [] h k l = cc
keep_found p q (x ∷ xs) {n} h k l = elim (Bool-cases (p x)) [
  | inl e ↦
      let h' = rw e at h in
      let same : x ≡ n = cc in
      let there : q x ≡ true = rw same k in
      let l' = rw there at l in rw there (ap₂ ◌∷◌ same (nil_of_length (keep q xs) (omega arith)))
  | inr e ↦
      let h' = rw e at h in
      elim (Bool-cases (q x)) [
        | inl f ↦
            let l' = rw f at l in
            absurd (omega (arith, ap length (keep_found p q xs h' k (omega arith))))
        | inr f ↦ rw f (keep_found p q xs h' k (rw f at l))
      ]
]

keep-not :
    (q : Msgcookie → Bool) (xs : List Msgcookie) → keep q xs ≡ [] → keep (λ x. not (q x)) xs ≡ xs
keep-not q [] h = refl
keep-not q (x ∷ xs) h = elim (Bool-cases (q x)) [
  | inl f ↦ let h' = rw f at h in cc
  | inr f ↦ rw f (ap (λ t. x ∷ t) (keep-not q xs (rw f at h)))
]

-- No two cookies have one name, and no two lie at one address.
pub record IsJar (list : List Msgcookie) : Type 0 where
  pub single : (ck : List ℕ) (type : ℕ) → length (held list ck type) ≤ 1
  pub apart : (a : ℕ) → length (keep (is_at a) list) ≤ 1

matches_self : (c : Msgcookie) → matches c.cookie c.type c ≡ true
matches_self c = rw (==-refl c.type) (same_bytes_refl c.cookie)

module _ (list : List Msgcookie) (j : IsJar list) where
  -- A cookie that a search has found and that is freed was the only one with its name.
  module _ (ck : List ℕ) (type : ℕ) {n : Msgcookie} (e : checkcookie list ck type ≡ some n) where
    found : head? (held list ck type) ≡ some n
    found = sym (checkcookie-head list ck type) ∙ e

    only : keep (is_at n.addr) list ≡ n ∷ []
    only = keep_found (matches ck type) (is_at n.addr) list found (==-refl n.addr) (j.apart n.addr)

    sole : held list ck type ≡ n ∷ []
    sole =
        keep_found (matches ck type) (matches ck type) list found
          (head_keep (matches ck type) list found) (j.single ck type)

    held-freed : held (cookie_free list n) ck type ≡ []
    held-freed = keep-cookie_free (matches ck type) list n ∙ rw (sole, ==-refl n.addr)

    held-freed_other :
        (ck' : List ℕ) (type' : ℕ)
        → Differ ck type ck' type'
        → held (cookie_free list n) ck' type' ≡ held list ck' type'
    held-freed_other ck' type' d =
        keep-cookie_free (matches ck' type') list n
        ∙ keep-not (is_at n.addr) (held list ck' type') (
            keep_comm (is_at n.addr) (matches ck' type') list
            ∙ rw only (unmatched (Bool-cases (matches ck' type' n))))
      where
        unmatched :
            (matches ck' type' n ≡ true) ⊎ (matches ck' type' n ≡ false)
            → keep (matches ck' type') (n ∷ []) ≡ []
        unmatched (inl m) =
            absurd
              (d (matches_unique n ck ck' type type' (head_keep (matches ck type) list found) m))
        unmatched (inr m) = rw m

  -- What is in the chain when the new cookie is put in front.
  record Cleared (now : ℕ) (c : Msgcookie) : Type 0 where
    left : List Msgcookie
    result : cachecookie now list c ≡ append_front now left c
    gone : held left c.cookie c.type ≡ []
    others :
        (ck' : List ℕ) (type' : ℕ)
        → Differ c.cookie c.type ck' type'
        → held left ck' type' ≡ held list ck' type'
    fewer : (p : Msgcookie → Bool) → length (keep p left) ≤ length (keep p list)

  -- The cookie that is passed is not in the chain.
  module _ (now : ℕ) (c : Msgcookie) (new : keep (is_at c.addr) list ≡ []) where
    cleared : Cleared now c
    unfolding cachecookie
    cleared = elim (Option-cases (checkcookie list c.cookie c.type)) [
      | inl e ↦ record {
        left = list;
        result = rw (e, cachecookie);
        gone = nil_of_head _ (sym (checkcookie-head list c.cookie c.type) ∙ e);
        others = λ ck' type' d. refl;
        fewer = λ p. omega arith;
      }
      | inr (n, e) ↦
          let away : n.addr ≢ c.addr = λ same.
            absurd
              (omega (arith, ap length (only c.cookie c.type e), ap length (rw (← same) at new))) in
          record {
            left = cookie_free list n;
            result = rw (e, cachecookie) (rw (ne→== n.addr c.addr away));
            gone = held-freed c.cookie c.type e;
            others = held-freed_other c.cookie c.type e;
            fewer = λ p. rw (keep-cookie_free p list n) (length-keep _ (keep p list));
          }
    ]

    -- A new cookie is put into the chain, stamped with the time, and the result is 0. It is then the
    -- only one with its name: one that was there under that name is gone, not updated. What is held
    -- under any other name stays.
    pub cachecookie-held :
        (ck' : List ℕ) (type' : ℕ)
        → Differ c.cookie c.type ck' type'
        → ((cachecookie now list c).0 ≡ 0)
          × (held (cachecookie now list c).1 c.cookie c.type ≡ record c { addtime = now } ∷ [])
          × (held (cachecookie now list c).1 ck' type' ≡ held list ck' type')
    unfolding append_front
    cachecookie-held ck' type' d =
        let k = cleared in
        rw (k.result) (
          refl,
          rw (matches_self c) (ap (λ t. record c { addtime = now } ∷ t) k.gone),
          other (Bool-cases (matches ck' type' c)) ∙ k.others ck' type' d,
        )
      where
        other :
            (matches ck' type' c ≡ true) ⊎ (matches ck' type' c ≡ false)
            → held (append_front now (cleared).left c).1 ck' type' ≡ held (cleared).left ck' type'
        other (inl m) = absurd (d (matches_unique c c.cookie ck' c.type type' (matches_self c) m))
        other (inr m) = rw m

    -- The chain keeps its form.
    pub cachecookie-IsJar : IsJar (cachecookie now list c).1
    unfolding append_front
    cachecookie-IsJar =
        let k = cleared in
        rw (k.result) (record {
          single = λ ck type. elim (Bool-cases (matches ck type c)) [
            | inl m ↦
                let u = matches_unique c c.cookie ck c.type type (matches_self c) m in
                let g : held k.left ck type ≡ [] = ap₂ (held k.left) (sym u.0) (sym u.1) ∙ k.gone in
                rw (m, g) (omega arith)
            | inr m ↦ rw m (omega (arith, k.fewer (matches ck type), j.single ck type))
          ];
          apart = λ a. elim (Bool-cases (is_at a c)) [
            | inl m ↦
                let same : a ≡ c.addr = sym (==→eq c.addr a m) in
                let none_left : length (keep (is_at a) list) ≡ 0 =
                  ap (λ (x : ℕ). length (keep (is_at x) list)) same ∙ ap length new in
                rw m (omega (arith, k.fewer (is_at a)))
            | inr m ↦ rw m (omega (arith, k.fewer (is_at a), j.apart a))
          ];
        })

-- The cookie that is found is handed out and taken from the chain; nothing is found under its name any
-- more, and what is held under any other name stays.
uncachecookie-held :
    (list : List Msgcookie) (ck ck' : List ℕ) (type type' : ℕ)
    → IsJar list
    → Differ ck type ck' type'
    → ((uncachecookie list ck type).0 ≡ checkcookie list ck type)
      × (checkcookie (uncachecookie list ck type).1 ck type ≡ none)
      × (held (uncachecookie list ck type).1 ck' type' ≡ held list ck' type')
uncachecookie-held list ck ck' type type' j d =
    let u = uncachecookie-head list ck type in
    (
      u.0 ∙ sym (checkcookie-head list ck type),
      checkcookie-head (uncachecookie list ck type).1 ck type
          ∙ rw u.1 (none_behind (held list ck type) (j.single ck type)),
      uncachecookie-other list ck ck' type type' d,
    )
  where
    none_behind : (xs : List Msgcookie) → length xs ≤ 1 → head? (tail xs) ≡ none
    none_behind [] h = refl
    none_behind (x ∷ []) h = refl
    none_behind (x ∷ y ∷ xs) h = absurd (omega arith)
