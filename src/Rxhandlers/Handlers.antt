-- ===== src/Rxhandlers/Handlers.antt =====
-- The client's handlers of a connection.
use libfaim.Prelude.{
  ℕ, zero, suc, ◌≤◌, ◌≡◌, refl, ap, ap₂, sym, ◌∙◌, Bool, true, false, ◌&&◌, Option, none, some,
  List, [], ◌∷◌, ◌++◌, ◌==◌, arith, keep, All, All-append, append-nil, append_assoc, Bool-cases,
  Option-cases, inl, inr, ==→eq,
}
use mathlib.Core.Option
use mathlib.Core.List.{head?}
use libfaim.Prelude.Alloc.{Allocator, Request}
use libfaim.Session.{Handler}
use libfaim.Rxhandlers.{
  checkdisallowed, addhandler, clonehandlers, special_default, find_handler, callhandler_rec,
}

abbrev pub is_for : ℕ → ℕ → Handler → Bool
is_for family type h = h.family == family && h.type == type

-- The first handler for a family and a type.
abbrev pub first_for : List Handler → ℕ → ℕ → Option ℕ
first_for list family type = Option.map (λ h. h.handler) (head? (keep (is_for family type) list))

abbrev pub or_else : Option ℕ → Option ℕ → Option ℕ
or_else none y = y
or_else (some x) y = some x

find_handler-first :
    (list : List Handler) (family type : ℕ)
    → find_handler list family type ≡ first_for list family type
unfolding find_handler
find_handler-first [] family type = refl
find_handler-first (cur ∷ next) family type = ground (arith, find_handler-first next family type)

callhandler_rec-find_handler :
    (fuel : ℕ) (list : List Handler) (family type : ℕ)
    → callhandler_rec (suc (suc fuel)) list family type
      ≡ some (or_else (find_handler list family type) (find_handler list family special_default))
unfolding callhandler_rec
callhandler_rec-find_handler fuel list family type =
    elim (Option-cases (find_handler list family type)) [
      | inr (f, e) ↦ rw (e, callhandler_rec) refl
      | inl e ↦ elim (Bool-cases (type == special_default)) [
        | inl d ↦
            let e' = ap (find_handler list family) (sym (==→eq type special_default d)) ∙ e in
            rw (e, callhandler_rec) (rw d (rw e' refl))
        | inr d ↦ elim (Option-cases (find_handler list family special_default)) [
          | inl e' ↦ rw (e, callhandler_rec) (rw d (rw (e', callhandler_rec) refl))
          | inr (f, e') ↦ rw (e, callhandler_rec) (rw d (rw (e', callhandler_rec) refl))
        ]
      ]
    ]

-- `aim_callhandler` returns after at most one call of itself. It finds the first handler that was added
-- for the family and the type; if there is none the first one for the family's default type; NULL if
-- there is none either.
pub callhandler_rec-first :
    (fuel : ℕ) (list : List Handler) (family type : ℕ)
    → 2 ≤ fuel
    → callhandler_rec fuel list family type
      ≡ some (or_else (first_for list family type) (first_for list family special_default))
callhandler_rec-first zero list family type h = absurd (omega arith)
callhandler_rec-first (suc zero) list family type h = absurd (omega arith)
callhandler_rec-first (suc (suc fuel)) list family type h =
    callhandler_rec-find_handler fuel list family type
    ∙ ap₂ (λ x y. some (or_else x y)) (find_handler-first list family type)
        (find_handler-first list family special_default)

-- A call of `aim_conn_addhandler`.
pub record Added : Type 0 where
  pub family : ℕ
  pub type : ℕ
  pub newhandler : Option ℕ
  pub flags : ℕ

-- The list that calls leave, one after the other.
pub add_all : Allocator → List Handler → List Added → List Handler
add_all calloc list [] = list
add_all calloc list (x ∷ xs) =
    add_all calloc (addhandler calloc list x.family x.type x.newhandler x.flags).1 xs

abbrev pub IsAllowed : Handler → Type 0
IsAllowed h = checkdisallowed h.family h.type ≡ false

addhandler-IsAllowed :
    (calloc : Allocator) (list : List Handler) (family type : ℕ) (f : Option ℕ) (flags : ℕ)
    → All IsAllowed list
    → All IsAllowed (addhandler calloc list family type f flags).1
unfolding addhandler
addhandler-IsAllowed calloc list family type f flags h =
    elim (Bool-cases (checkdisallowed family type)) [
      | inl d ↦ rw d h
      | inr d ↦ elim (Bool-cases (calloc Request.handler)) [
        | inl m ↦ rw (d, m) (All-append IsAllowed list _ h (d, tt))
        | inr m ↦ rw (d, m) h
      ]
    ]

add_all-IsAllowed :
    (calloc : Allocator) (list : List Handler) (xs : List Added)
    → All IsAllowed list
    → All IsAllowed (add_all calloc list xs)
unfolding add_all
add_all-IsAllowed calloc list [] h = h
add_all-IsAllowed calloc list (x ∷ xs) h =
    add_all-IsAllowed calloc (addhandler calloc list x.family x.type x.newhandler x.flags).1 xs
      (addhandler-IsAllowed calloc list x.family x.type x.newhandler x.flags h)

clonehandlers-append :
    (calloc : Allocator) (dest src : List Handler)
    → calloc Request.handler ≡ true
    → All IsAllowed src
    → clonehandlers calloc dest src ≡ dest ++ src
unfolding clonehandlers addhandler
clonehandlers-append calloc dest [] m h = sym (append-nil dest)
clonehandlers-append calloc dest (cur ∷ src) m h =
    rw (h.0, m)
      (clonehandlers-append calloc (dest ++ cur ∷ []) src m h.1 ∙ append_assoc dest (cur ∷ []) src)

-- Whatever a client hooks on a connection, none of the SNACs that the library keeps to itself is
-- hooked, memory or not; and a clone of the connection, with memory, has the same handlers in the same
-- order.
pub add_all-clonehandlers :
    (calloc calloc' : Allocator) (xs : List Added)
    → calloc' Request.handler ≡ true
    → All IsAllowed (add_all calloc [] xs)
      × (clonehandlers calloc' [] (add_all calloc [] xs) ≡ add_all calloc [] xs)
add_all-clonehandlers calloc calloc' xs m =
    let h = add_all-IsAllowed calloc [] xs tt in
    (h, clonehandlers-append calloc' [] (add_all calloc [] xs) m h)
