-- ===== src/Connection/Unlink.antt =====
-- The list of connections without one of them.
use libfaim.Prelude.{
  ℕ, ◌≡◌, refl, ap, sym, ◌∙◌, Bool, true, false, none, List, [], ◌∷◌, ◌==◌, if◌then◌else◌, arith,
  Bool-cases, inl, inr, ==→eq, ==→ne, ne→==,
}
use libfaim.Session.{Conn, conn_at}
use libfaim.Session.Conns.{AreDistinct}
use libfaim.Connection.{unlink_conn}

pub unlink_conn-found : (a : ℕ) (cs : List Conn) → (unlink_conn a cs).0 ≡ conn_at cs a
unfolding unlink_conn conn_at
unlink_conn-found a [] = refl
unlink_conn-found a (c ∷ cs) = ground (arith, unlink_conn-found a cs)

pub unlink_conn-left :
    (a b : ℕ) (cs : List Conn)
    → AreDistinct cs
    → conn_at (unlink_conn a cs).1 b ≡ (if a == b then none else conn_at cs b)
unfolding unlink_conn conn_at
unlink_conn-left a b [] d = ground arith
unlink_conn-left a b (c ∷ cs) (d, ds) = elim (Bool-cases (c.addr == a)) [
  | inl h ↦ elim (Bool-cases (a == b)) [
    | inl g ↦ rw (h, g) (ap (conn_at cs) (sym (==→eq c.addr a h ∙ ==→eq a b g)) ∙ d)
    | inr g ↦
        let e : (c.addr == b) ≡ false = ap (λ x. x == b) (==→eq c.addr a h) ∙ g in
        rw (h, g) (rw e refl)
  ]
  | inr h ↦ elim (Bool-cases (c.addr == b)) [
    | inl g ↦
        let e : (a == b) ≡ false = ne→== a b (λ q. ==→ne c.addr a h (==→eq c.addr b g ∙ sym q)) in
        rw (h, e) (rw g refl)
    | inr g ↦ rw (h, g) (unlink_conn-left a b cs ds)
  ]
]

pub unlink_conn-AreDistinct :
    (a : ℕ) (cs : List Conn) → AreDistinct cs → AreDistinct (unlink_conn a cs).1
unfolding unlink_conn
unlink_conn-AreDistinct a [] d = tt
unlink_conn-AreDistinct a (c ∷ cs) (d, ds) = elim (Bool-cases (c.addr == a)) [
  | inl h ↦ rw h ds
  | inr h ↦
      rw h (
        unlink_conn-left a c.addr cs ds ∙ none_anyway (a == c.addr),
        unlink_conn-AreDistinct a cs ds,
      )
]
  where
    none_anyway : (b : Bool) → (if b then none else conn_at cs c.addr) ≡ none
    none_anyway true = refl
    none_anyway false = d
