-- ===== src/Snac/Invariant.antt =====
-- The life of the table, from `aim_initsnachash` on: ids are not shared while the counter lasts.
use libfaim.Prelude.{
  ℕ, zero, suc, ◌+◌, ◌%◌, ◌≤◌, ◌<◌, ◌≡◌, refl, ap, ◌∙◌, List, [], ◌∷◌, some, arith, keep, ◌==◌,
  Bool, true, false, not, ◌&&◌, Bool-cases, if◌then◌else◌, length, length-set, ==→eq, ==-refl,
  ne→==, inl, inr, replicate, get_or, length-keep,
}
use mathlib.Core.List.{head?, tail}
use native.Mathlib.Nat.{mod-eq_of_lt}
use libfaim.Prelude.Alloc.{Allocator, Request}
use libfaim.Prelude.Int.{ℤ}
use libfaim.Snac.{
  Snac, SnacCache, hash_size, bucket, newsnac, cachesnac, remsnac, clean_chains, cleansnacs,
  initsnachash,
}
use libfaim.Snac.Chains.{of_id}
use libfaim.Snac.Stored.{
  stored, stamped, IsTable, stored-newsnac, stored-remsnac, stored-cleansnacs,
}

module _ (malloc : Allocator) (ulong : ℕ) where
  abbrev pub Granted : Type 0
  Granted = (q : Request) → malloc q ≡ true

  -- What `aim_cachesnac` puts into the table.
  abbrev pub entry : ℕ → ℕ → (family type flags : ℕ) → List ℕ → Snac
  entry now id family type flags content = record {
    id = id;
    family = family;
    type = type;
    flags = flags;
    content = content;
    issuetime = now;
  }

  newsnac-frame :
      (now : ℕ) (c : SnacCache) (s : Snac)
      → Granted
      → ((newsnac malloc now c s).1.snacid_next ≡ c.snacid_next)
        × (length (newsnac malloc now c s).1.snac_hash ≡ length c.snac_hash)
  unfolding newsnac
  newsnac-frame now c s g = rw (g Request.snac) (
    refl,
    length-set c.snac_hash (s.id % hash_size) (stamped now s ∷ bucket c (s.id % hash_size)),
  )

  cachesnac-newsnac :
      (now : ℕ) (c : SnacCache) (family type flags : ℕ) (content : List ℕ)
      → Granted
      → cachesnac malloc ulong now c family type flags content
        ≡ newsnac malloc now
            (record c { snacid_next = (c.snacid_next + 1) % ulong })
            (entry 0 c.snacid_next family type flags content)
  unfolding cachesnac
  cachesnac-newsnac now c family type flags content g =
      rw (g (Request.bytes (length content))) (pass (length content == 0) _ _)
    where
      pass : (b : Bool) (x y : ℕ × SnacCache) → (if not b && false then x else y) ≡ y
      pass true x y = refl
      pass false x y = refl

  -- With memory the id is the counter, which moves on, and the entry is put in front of the SNACs with
  -- that id; those with any other id stay.
  pub stored-cachesnac :
      (now : ℕ) (c : SnacCache) (family type flags : ℕ) (content : List ℕ) (j : ℕ)
      → IsTable c
      → Granted
      → (let r = cachesnac malloc ulong now c family type flags content in
          (r.0 ≡ c.snacid_next)
          × (r.1.snacid_next ≡ (c.snacid_next + 1) % ulong)
          × IsTable r.1
          × (stored r.1 j ≡ (
              if c.snacid_next == j
              then entry now c.snacid_next family type flags content ∷ stored c j
              else stored c j)))
  stored-cachesnac now c family type flags content j t g =
      let c' = record c { snacid_next = (c.snacid_next + 1) % ulong } in
      let s : Snac = entry 0 c.snacid_next family type flags content in
      let k = stored-newsnac malloc now c' s j t (g Request.snac) in
      let f = newsnac-frame now c' s g in
      rw (cachesnac-newsnac now c family type flags content g) (k.0, f.0, f.1 ∙ t, k.1)

  -- A SNAC that is cached is handed out again by its id, with its family, type, flags and data, and the
  -- table then holds for every id what it held before. Memory is granted.
  pub remsnac-cachesnac :
      (now : ℕ) (c : SnacCache) (family type flags : ℕ) (content : List ℕ) (j : ℕ)
      → IsTable c
      → Granted
      → (let r = cachesnac malloc ulong now c family type flags content in
          ((remsnac r.1 r.0).0 ≡ some (entry now c.snacid_next family type flags content))
          × (stored (remsnac r.1 r.0).1 j ≡ stored c j))
  remsnac-cachesnac now c family type flags content j t g =
      let id = c.snacid_next in
      let r = cachesnac malloc ulong now c family type flags content in
      let a = stored-cachesnac now c family type flags content id t g in
      let b = stored-cachesnac now c family type flags content j t g in
      let front : stored r.1 id ≡ entry now id family type flags content ∷ stored c id =
        rw (==-refl id) at a.3 in
      rw a.0 (
        (stored-remsnac r.1 id j a.2).0 ∙ ap head? front,
        (stored-remsnac r.1 id j a.2).1 ∙ elim (Bool-cases (id == j)) [
          | inl e ↦ rw (e, (rw e at b.3))
          | inr e ↦ rw (e, (rw e at b.3))
        ],
      )

length-tail : (xs : List Snac) → length (tail xs) ≤ length xs
length-tail [] = omega arith
length-tail (x ∷ xs) = omega arith

tail-nil : (xs : List Snac) → xs ≡ [] → tail xs ≡ []
tail-nil xs e = rw e

keep-nil : (p : Snac → Bool) (xs : List Snac) → xs ≡ [] → keep p xs ≡ []
keep-nil p xs e = rw e

-- No SNAC waits under an id that is still to be given out, and no two wait under one id.
pub record IsFresh (c : SnacCache) : Type 0 where
  pub table : IsTable c
  pub fresh : (j : ℕ) → c.snacid_next ≤ j → stored c j ≡ []
  pub single : (j : ℕ) → length (stored c j) ≤ 1

-- What a session does to its table, as long as the counter does not come round.
pub data Step (malloc : Allocator) (ulong : ℕ) (c : SnacCache) : SnacCache → Type 0 where
  caches :
      (now family type flags : ℕ) (content : List ℕ)
      → c.snacid_next + 1 < ulong
      → Step malloc ulong c (cachesnac malloc ulong now c family type flags content).1
  replies : (id : ℕ) → Step malloc ulong c (remsnac c id).1
  cleans : (clock : ℕ → ℕ) (maxage : ℤ) → Step malloc ulong c (cleansnacs clock c maxage)

pub data Reach (malloc : Allocator) (ulong : ℕ) (c : SnacCache) : SnacCache → Type 0 where
  here : Reach malloc ulong c c
  next : {d e : SnacCache} → Reach malloc ulong c d → Step malloc ulong d e → Reach malloc ulong c e

length-clean_chains :
    (clock : ℕ → ℕ) (maxage : ℤ) (i : ℕ) (chs : List (List Snac))
    → length (clean_chains clock maxage i chs) ≡ length chs
unfolding clean_chains
length-clean_chains clock maxage i [] = refl
length-clean_chains clock maxage i (ch ∷ chs) =
    ap suc (length-clean_chains clock maxage (i + 1) chs)

remsnac-frame :
    (c : SnacCache) (id : ℕ)
    → ((remsnac c id).1.snacid_next ≡ c.snacid_next)
      × (length (remsnac c id).1.snac_hash ≡ length c.snac_hash)
unfolding remsnac
remsnac-frame c id = (refl, length-set c.snac_hash (id % hash_size) _)

Step-IsFresh :
    {malloc : Allocator} {ulong : ℕ} {c d : SnacCache}
    → Granted malloc ulong
    → Step malloc ulong c d
    → IsFresh c
    → IsFresh d
Step-IsFresh {malloc} {ulong} {c} g (caches now family type flags content h) v =
    let k = λ (j : ℕ). stored-cachesnac malloc ulong now c family type flags content j v.table g in
    record {
      table = (k 0).2;
      fresh = λ j le.
          (k j).3
          ∙ rw (ne→== c.snacid_next j (omega (arith, (k j).1, mod-eq_of_lt h)))
              (v.fresh j (omega (arith, (k j).1, mod-eq_of_lt h)));
      single = λ j. elim (Bool-cases (c.snacid_next == j)) [
        | inl e ↦ rw ((k j).3, e, v.fresh j (omega (arith, ==→eq _ _ e))) (omega arith)
        | inr e ↦ rw ((k j).3, e) (v.single j)
      ];
    }
Step-IsFresh {c} g (replies id) v =
    let k = λ (j : ℕ). (stored-remsnac c id j v.table).1 in
    let f = remsnac-frame c id in
    record {
      table = f.1 ∙ v.table;
      fresh = λ j le. ground (arith, k j, f, v.fresh j, tail-nil (stored c j));
      single = λ j. ground (arith, k j, v.single j, length-tail (stored c j));
    }
Step-IsFresh {c} g (cleans clock maxage) v =
    let k = stored-cleansnacs clock c maxage in
    record {
      table = unfold cleansnacs in (length-clean_chains clock maxage 0 c.snac_hash ∙ v.table);
      fresh = λ j le. k j ∙ keep-nil _ (stored c j) (v.fresh j (unfold cleansnacs in le));
      single = λ j. rw (k j) (omega (arith, length-keep _ (stored c j), v.single j));
    }

get_or-empty : (n k : ℕ) → get_or (replicate {A = List Snac} n []) k [] ≡ []
get_or-empty zero k = refl
get_or-empty (suc n) zero = refl
get_or-empty (suc n) (suc k) = get_or-empty n k

initsnachash-IsFresh : (c : SnacCache) → IsFresh (initsnachash c)
unfolding initsnachash
initsnachash-IsFresh c = record {
  table = refl;
  fresh = λ j le. ap (keep (of_id j)) (get_or-empty hash_size (j % hash_size));
  single = λ j. rw (get_or-empty hash_size (j % hash_size)) (omega arith);
}

-- With memory granted and before the counter comes round, whatever a session that starts with an empty
-- table caches, has answered and cleans out: no SNAC waits under an id that is still to be given out,
-- and no two wait under one id.
pub Reach-IsFresh :
    {malloc : Allocator} {ulong : ℕ} (c : SnacCache) {d : SnacCache}
    → Granted malloc ulong
    → Reach malloc ulong (initsnachash c) d
    → IsFresh d
Reach-IsFresh c g here = initsnachash-IsFresh c
Reach-IsFresh c g (next r st) = Step-IsFresh g st (Reach-IsFresh c g r)
