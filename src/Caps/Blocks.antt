-- ===== src/Caps/Blocks.antt =====
-- What aim_putcap writes, and what aim_getcap makes of it.
use libfaim.Prelude.{
  ℕ, zero, suc, ◌+◌, ◌*◌, ◌/◌, ◌<◌, ◌≤◌, ◌≡◌, refl, ap, sym, ◌∙◌, Bool, true, false, ◌&&◌, ◌||◌,
  some, List, [], ◌∷◌, ◌++◌, arith, length, ◌==◌, if◌then◌else◌, has_bit, set_bit, has_bit-set_bit,
  has_bit-bound, bits-eq, Bool-cases, inl, inr, ==→eq, ne→==, All, append_assoc, append-nil,
  length-append, take, drop, length-take, length-drop, take-append-drop,
}
use libfaim.Prelude.Alloc.{Allocator, Request}
use libfaim.Bstream.{empty, putraw}
use libfaim.Bstream.View.{cursor, empty-cursor}
use libfaim.Bstream.Reads.{getraw-cursor}
use libfaim.Bstream.Writes.{putraw-cursor}
use libfaim.Tlv.Read.{Grants}
use libfaim.Caps.{Cap, aim_caps, same_block, identify, getcap_loop, getcap, putcap_loop, putcap}

-- The bytes of the capabilities in `caps`, in the table's order.
abbrev pub blocks : List Cap → ℕ → List ℕ
blocks [] caps = []
blocks (e ∷ es) caps = if has_bit e.flag caps then e.clsid ++ blocks es caps else blocks es caps

abbrev pub count : List Cap → ℕ → ℕ
count [] caps = 0
count (e ∷ es) caps = if has_bit e.flag caps then suc (count es caps) else count es caps

-- The flags of the table that `caps` has.
abbrev collect : List Cap → ℕ → ℕ → ℕ
collect [] caps flags = flags
collect (e ∷ es) caps flags =
    collect es caps (if has_bit e.flag caps then set_bit e.flag flags else flags)

-- An entry that the table identifies by its block.
abbrev IsKnown : Cap → Type 0
IsKnown e = (length e.clsid ≡ 16) × (identify aim_caps e.clsid ≡ some e.flag)

aim_caps-IsKnown : All IsKnown aim_caps
unfolding aim_caps identify same_block
aim_caps-IsKnown = (
  (refl, refl),
  (
    (refl, refl),
    (
      (refl, refl),
      (
        (refl, refl),
        (
          (refl, refl),
          (
            (refl, refl),
            (
              (refl, refl),
              (
                (refl, refl),
                (
                  (refl, refl),
                  (
                    (refl, refl),
                    (
                      (refl, refl),
                      (
                        (refl, refl),
                        (
                          (refl, refl),
                          ((refl, refl), ((refl, refl), ((refl, refl), ((refl, refl), tt)))),
                        ),
                      ),
                    ),
                  ),
                ),
              ),
            ),
          ),
        ),
      ),
    ),
  ),
)

length-blocks :
    (es : List Cap) (caps : ℕ) → All IsKnown es → length (blocks es caps) ≡ 16 * count es caps
length-blocks [] caps w = refl
length-blocks (e ∷ es) caps w = elim (Bool-cases (has_bit e.flag caps)) [
  | inl h ↦
      rw h (omega (arith, length-append e.clsid (blocks es caps), length-blocks es caps w.1, w.0.0))
  | inr h ↦ rw h (length-blocks es caps w.1)
]

nil_of_length : (xs : List ℕ) → length xs ≡ 0 → xs ≡ []
nil_of_length [] h = refl
nil_of_length (x ∷ xs) h = absurd (omega arith)

putcap_loop-cursor :
    (es : List Cap) (caps : ℕ) (pre old r post : List ℕ)
    → All IsKnown es
    → length old ≡ length (blocks es caps)
    → length pre + length old + length r < 65536
    → putcap_loop es (cursor pre (old ++ r) post) caps ≡ cursor (pre ++ blocks es caps) r post
unfolding putcap_loop
putcap_loop-cursor [] caps pre old r post w e fits = rw (nil_of_length old e, append-nil)
putcap_loop-cursor (c ∷ es) caps pre old r post w e fits =
    let len = empty-cursor pre (old ++ r) post in
    elim (Bool-cases (empty (cursor pre (old ++ r) post) == 0)) [
      | inl z ↦
          let o = nil_of_length old (omega (arith, ==→eq _ _ z, len, length-append old r)) in
          let b = nil_of_length (blocks (c ∷ es) caps) (omega (arith, e, ap length o)) in
          rw (z, putcap_loop) (rw (o, b, append-nil))
      | inr nz ↦ elim (Bool-cases (has_bit c.flag caps)) [
        | inr h ↦
            rw (nz, putcap_loop)
              (rw h (putcap_loop-cursor es caps pre old r post w.1 (rw h at e) fits))
        | inl h ↦
            let e' : length old ≡ 16 + length (blocks es caps) =
              (rw h at e) ∙ omega (arith, length-append c.clsid (blocks es caps), w.0.0) in
            let a = take 16 old in
            let b = drop 16 old in
            let la : length a ≡ 16 = omega (arith, length-take 16 old, e') in
            let lb : length b ≡ length (blocks es caps) = omega (arith, length-drop 16 old, e') in
            let shape : cursor pre (old ++ r) post ≡ cursor pre (a ++ (b ++ r)) post =
              ap (λ t. cursor pre t post)
                (ap (λ t. t ++ r) (sym (take-append-drop 16 old)) ∙ append_assoc a b r) in
            let put : (putraw (cursor pre (old ++ r) post) c.clsid 16).1
                ≡ cursor (pre ++ c.clsid) (b ++ r) post =
              ap (λ t. (putraw t c.clsid 16).1) shape
              ∙ ap (λ t. t.1)
                  (putraw-cursor pre a (b ++ r) post c.clsid 16 (sym w.0.0) la
                    (omega (arith, length-append b r, lb, e'))) in
            rw (nz, putcap_loop)
              (rw h (
                rw put (
                  putcap_loop-cursor es caps (pre ++ c.clsid) b r post w.1 lb
                    (omega (arith, length-append pre c.clsid, w.0.0, lb, e'))
                  ∙ ap (λ t. cursor t r post) (append_assoc pre c.clsid (blocks es caps)))))
      ]
    ]

pub putcap-cursor :
    (caps : ℕ) (pre old r post : List ℕ)
    → length old ≡ length (blocks aim_caps caps)
    → length pre + length old + length r < 65536
    → putcap (cursor pre (old ++ r) post) caps ≡ cursor (pre ++ blocks aim_caps caps) r post
unfolding putcap
putcap-cursor caps pre old r post e fits =
    putcap_loop-cursor aim_caps caps pre old r post aim_caps-IsKnown e fits

module _ (malloc : Allocator) (grants : Grants malloc) where
  getcap_loop-cursor :
      (es : List Cap) (caps : ℕ) (pre r post : List ℕ) (flags : ℕ)
      → All IsKnown es
      → length pre + length (blocks es caps) + length r < 65536
      → getcap_loop malloc (count es caps) (cursor pre (blocks es caps ++ r) post) flags
        ≡ some (collect es caps flags, cursor (pre ++ blocks es caps) r post)
  unfolding getcap_loop
  getcap_loop-cursor [] caps pre r post flags w fits =
      ap (λ t. some (flags, cursor t r post)) (sym (append-nil pre))
  getcap_loop-cursor (c ∷ es) caps pre r post flags w fits =
      elim (Bool-cases (has_bit c.flag caps)) [
        | inr h ↦ rw h (getcap_loop-cursor es caps pre r post flags w.1 (rw h at fits))
        | inl h ↦
            let f = rw h at fits in
            let xs = blocks es caps ++ r in
            let lx = length-append c.clsid (blocks es caps) in
            let full : (empty (cursor pre (c.clsid ++ xs) post) == 0) ≡ false = ne→== _ 0 (
              omega
                (arith, empty-cursor pre (c.clsid ++ xs) post, length-append c.clsid xs, w.0.0)) in
            let got =
              getraw-cursor pre c.clsid xs post
                (omega (arith, w.0.0, lx, length-append (blocks es caps) r, f)) malloc 16
                (sym w.0.0) (grants (Request.bytes 16)) in
            rw h (
              rw (append_assoc c.clsid (blocks es caps) r) (
                rw (full, getcap_loop)
                  (rw got (
                    rw (w.0.1) (
                      rw got (
                        getcap_loop-cursor es caps (pre ++ c.clsid) r post (set_bit c.flag flags)
                          w.1 (omega (arith, length-append pre c.clsid, lx, f))
                        ∙ ap (λ t. some (collect es caps (set_bit c.flag flags), cursor t r post))
                            (append_assoc pre c.clsid (blocks es caps))))))))
      ]

has_flag : List Cap → ℕ → Bool
has_flag [] k = false
has_flag (c ∷ es) k = (c.flag == k) || has_flag es k

has_bit-collect :
    (es : List Cap) (k caps flags : ℕ)
    → has_bit k (collect es caps flags) ≡ ((has_flag es k && has_bit k caps) || has_bit k flags)
unfolding has_flag
has_bit-collect [] k caps flags = refl
has_bit-collect (c ∷ es) k caps flags = elim (Bool-cases (c.flag == k)) [
  | inl e ↦
      let same = ap (λ j. has_bit j caps) (==→eq _ _ e) in
      ground (
        arith,
        same,
        has_bit-collect es k caps (set_bit c.flag flags),
        has_bit-collect es k caps flags,
        has_bit-set_bit k c.flag flags,
      )
  | inr e ↦ ground (
    arith,
    has_bit-collect es k caps (set_bit c.flag flags),
    has_bit-collect es k caps flags,
    has_bit-set_bit k c.flag flags,
  )
]

every_flag : (k : ℕ) → k < 17 → has_flag aim_caps k ≡ true
unfolding has_flag aim_caps
every_flag k h = ground arith

and-false : (b : Bool) → (b && false) ≡ false
and-false true = refl
and-false false = refl

has_bit-zero : (k : ℕ) → has_bit k 0 ≡ false
unfolding has_bit
has_bit-zero zero = refl
has_bit-zero (suc k) = has_bit-zero k

-- The table's flags are those of the first 17 bits.
collect_all : (caps : ℕ) → caps < 131072 → collect aim_caps caps 0 ≡ caps
collect_all caps h = bits-eq (collect aim_caps caps 0) caps (λ k.
    elim (Bool-cases (has_bit k caps)) [
      | inl e ↦
          has_bit-collect aim_caps k caps 0 ∙ rw (e, every_flag k (has_bit-bound k 17 caps h e))
      | inr e ↦
          has_bit-collect aim_caps k caps 0
          ∙ rw (e, and-false (has_flag aim_caps k), has_bit-zero k)
    ])

-- What the capabilities' blocks are read to.
pub getcap-blocks :
    (malloc : Allocator)
    → Grants malloc
    → (caps : ℕ) (pre r post : List ℕ) → caps < 131072
    → length pre + length (blocks aim_caps caps) + length r < 65536
    → getcap malloc (cursor pre (blocks aim_caps caps ++ r) post) (length (blocks aim_caps caps))
      ≡ some (caps, cursor (pre ++ blocks aim_caps caps) r post)
unfolding getcap
getcap-blocks malloc grants caps pre r post h fits =
    let n = length-blocks aim_caps caps aim_caps-IsKnown in
    let rounds : (length (blocks aim_caps caps) + 15) / 16 ≡ count aim_caps caps =
      omega (arith, n) in
    rw rounds (
      getcap_loop-cursor malloc grants aim_caps caps pre r post 0 aim_caps-IsKnown fits
      ∙ ap (λ f. some (f, cursor (pre ++ blocks aim_caps caps) r post)) (collect_all caps h))

count-le : (es : List Cap) (caps : ℕ) → count es caps ≤ length es
count-le [] caps = omega arith
count-le (e ∷ es) caps = elim (Bool-cases (has_bit e.flag caps)) [
  | inl h ↦ rw h (omega (arith, count-le es caps))
  | inr h ↦ rw h (omega (arith, count-le es caps))
]

-- All the capabilities together take 17 blocks.
pub length-blocks_all : (caps : ℕ) → length (blocks aim_caps caps) ≤ 272
unfolding aim_caps
length-blocks_all caps =
    let c : count aim_caps caps ≤ 17 = count-le aim_caps caps in
    omega (arith, length-blocks aim_caps caps aim_caps-IsKnown, c)
