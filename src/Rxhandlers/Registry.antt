-- ===== src/Rxhandlers/Registry.antt =====
-- The registry of the protocol's modules.
use libfaim.Prelude.{
  All-map, none-some, true-false, ℕ, ◌≡◌, refl, ap, ap₂, sym, ◌∙◌, true, ◌&&◌, Option, none, some,
  List, [], ◌∷◌, ◌==◌, All, Bool-cases, Option-cases, inl, inr, ==→eq, ==-refl,
}
use libfaim.Prelude.Alloc.{Allocator, Request}
use libfaim.Rxhandlers.{Module, same_name, findmodule, registermodule}

-- A call of `aim__registermodule`: what `modfirst` makes of the new module.
abbrev pub register_all :
    {S : Type 0}
    → Allocator
    → (ℕ → S → S)
    → List Module
    → List (Option Module)
    → S
    → List Module × S
register_all malloc run mods [] s = (mods, s)
register_all malloc run mods (first ∷ firsts) s =
    let (ok, mods', s') = registermodule malloc run mods first s in
    register_all malloc run mods' firsts s'

-- No two modules of the list have one name.
abbrev pub AreNamed : List Module → Type 0
AreNamed [] = Unit
AreNamed (m ∷ mods) = (findmodule mods m.name ≡ none) × AreNamed mods

same_name_refl : (n : List ℕ) → same_name n n ≡ true
unfolding same_name
same_name_refl [] = refl
same_name_refl (b ∷ bs) = rw (==-refl b) (same_name_refl bs)

same_name→eq : (a b : List ℕ) → same_name a b ≡ true → a ≡ b
unfolding same_name
same_name→eq [] [] e = refl
same_name→eq [] (b ∷ bs) e = absurd (true-false (sym e))
same_name→eq (a ∷ as') [] e = absurd (true-false (sym e))
same_name→eq (a ∷ as') (b ∷ bs) e = elim (Bool-cases (a == b)) [
  | inl d ↦
      ap₂ ◌∷◌ (==→eq a b d) (same_name→eq as' bs (sym (ap (λ x. x && same_name as' bs) d) ∙ e))
  | inr d ↦ absurd (true-false (sym e ∙ ap (λ x. x && same_name as' bs) d))
]

registermodule-AreNamed :
    {S : Type 0} (malloc : Allocator) (run : ℕ → S → S) (mods : List Module) (first : Option Module)
    (s : S)
    → AreNamed mods
    → AreNamed (registermodule malloc run mods first s).1
unfolding registermodule
registermodule-AreNamed malloc run mods none s h = elim (Bool-cases (malloc Request.module_s)) [
  | inl m ↦ rw m h
  | inr m ↦ rw m h
]
registermodule-AreNamed malloc run mods (some m) s h = elim (Bool-cases (malloc Request.module_s)) [
  | inr d ↦ rw d h
  | inl d ↦ elim (Option-cases (findmodule mods m.name)) [
    | inr (old, e) ↦ rw (d, e) h
    | inl e ↦ rw (d, e) (e, h)
  ]
]

register_all-AreNamed :
    {S : Type 0} (malloc : Allocator) (run : ℕ → S → S) (mods : List Module)
    (firsts : List (Option Module)) (s : S)
    → AreNamed mods
    → AreNamed (register_all malloc run mods firsts s).0
register_all-AreNamed malloc run mods [] s h = h
register_all-AreNamed malloc run mods (first ∷ firsts) s h =
    let r = registermodule malloc run mods first s in
    register_all-AreNamed malloc run r.1 firsts r.2
      (registermodule-AreNamed malloc run mods first s h)

abbrev IsFound : List Module → Module → Type 0
IsFound mods m = findmodule mods m.name ≡ some m

-- A module that is found stays found behind one whose name was not taken.
Found-behind :
    (m : Module) (mods : List Module)
    → findmodule mods m.name ≡ none
    → (x : Module) → IsFound mods x
    → IsFound (m ∷ mods) x
unfolding findmodule
Found-behind m mods none_such x found = elim (Bool-cases (same_name x.name m.name)) [
  | inl d ↦ absurd (
      none-some (sym none_such ∙ sym (ap (findmodule mods) (same_name→eq x.name m.name d)) ∙ found))
  | inr d ↦ rw d found
]

AreNamed-IsFound : (mods : List Module) → AreNamed mods → All (IsFound mods) mods
unfolding findmodule
AreNamed-IsFound [] h = tt
AreNamed-IsFound (m ∷ mods) h = (
  rw (same_name_refl m.name) refl,
  All-map (Found-behind m mods h.0) mods (AreNamed-IsFound mods h.1),
)

-- Whatever modules are registered on a session that has none, in whatever order, with or without
-- memory: looking up the name of a module of the list finds that module itself, so no two modules have
-- one name.
pub register_all-found :
    {S : Type 0} (malloc : Allocator) (run : ℕ → S → S) (firsts : List (Option Module)) (s : S)
    → let mods = (register_all malloc run [] firsts s).0 in
      All (λ m. findmodule mods m.name ≡ some m) mods
register_all-found malloc run firsts s =
    AreNamed-IsFound (register_all malloc run [] firsts s).0
      (register_all-AreNamed malloc run [] firsts s tt)
