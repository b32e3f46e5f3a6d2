-- ===== src/Snac/Stored.antt =====
-- The table as what it stands for: for every id the outstanding SNACs with it, newest first.
use libfaim.Prelude.{
  ℕ, zero, suc, ◌+◌, ◌%◌, ◌<◌, ◌≡◌, refl, ap, ◌∙◌, List, [], ◌∷◌, arith, keep, ◌==◌, true,
  if◌then◌else◌, keep_comm, get_or, set, get_or-set, length, Bool, leb,
}
use mathlib.Core.List.{head?, tail}
use libfaim.Prelude.Alloc.{Allocator, Request}
use libfaim.Prelude.Int.{ℤ, pos, negsuc}
use libfaim.Snac.{
  Snac, SnacCache, hash_size, bucket, newsnac, unlink, remsnac, clean_chains, cleansnacs,
}
use libfaim.Snac.Chains.{of_id, is_young, unlink-head, keep-unlink, clean_chain-keep}

abbrev pub stored : SnacCache → ℕ → List Snac
stored c id = keep (of_id id) (bucket c (id % hash_size))

abbrev pub stamped : ℕ → Snac → Snac
stamped now s = record s { issuetime = now }

-- The table has its 16 chains.
abbrev pub IsTable : SnacCache → Type 0
IsTable c = length c.snac_hash ≡ hash_size

-- A chain that is replaced changes only what falls into it.
stored-set :
    (c : SnacCache) (i j : ℕ) (v : List Snac)
    → IsTable c
    → i < hash_size
    → stored (record c { snac_hash = set c.snac_hash i v }) j
      ≡ (if i == j % hash_size then keep (of_id j) v else stored c j)
stored-set c i j v t h =
    ap (keep (of_id j)) (get_or-set c.snac_hash i (j % hash_size) v [] (omega arith)) ∙ ground arith

-- With memory, a new SNAC is put in front of those with its id, stamped with the time, and its id is
-- returned; the SNACs with any other id stay.
pub stored-newsnac :
    (malloc : Allocator) (now : ℕ) (c : SnacCache) (s : Snac) (j : ℕ)
    → IsTable c
    → malloc Request.snac ≡ true
    → ((newsnac malloc now c s).0 ≡ s.id)
      × (stored (newsnac malloc now c s).1 j
          ≡ (if s.id == j then stamped now s ∷ stored c j else stored c j))
unfolding newsnac
stored-newsnac malloc now c s j t granted = (
  rw granted,
  rw granted (
      ground
        (arith, stored-set c (s.id % hash_size) j (stamped now s ∷ bucket c (s.id % hash_size)) t)),
)

-- The newest SNAC with the id is handed out and taken from the table, NULL if there is none; those
-- with any other id stay.
pub stored-remsnac :
    (c : SnacCache) (id j : ℕ)
    → IsTable c
    → ((remsnac c id).0 ≡ head? (stored c id))
      × (stored (remsnac c id).1 j ≡ (if id == j then tail (stored c j) else stored c j))
unfolding remsnac
stored-remsnac c id j t = (
  unlink-head id (bucket c (id % hash_size)),
  ground (
    arith,
    stored-set c (id % hash_size) j (unlink id (bucket c (id % hash_size))).1 t,
    keep-unlink id j (bucket c (id % hash_size)),
  ),
)

clean_chains-get :
    (clock : ℕ → ℕ) (maxage : ℤ) (i k : ℕ) (chs : List (List Snac))
    → get_or (clean_chains clock maxage i chs) k []
      ≡ keep (is_young (clock (i + k)) maxage) (get_or chs k [])
unfolding clean_chains
clean_chains-get clock maxage i k [] = refl
clean_chains-get clock maxage i zero (ch ∷ chs) =
    clean_chain-keep (clock i) maxage ch
    ∙ ap (λ (n : ℕ). keep (is_young (clock n) maxage) ch) (omega arith)
clean_chains-get clock maxage i (suc k) (ch ∷ chs) =
    clean_chains-get clock maxage (i + 1) k chs
    ∙ ap (λ (n : ℕ). keep (is_young (clock n) maxage) (get_or chs k [])) (omega arith)

stored-cleansnacs-young :
    (clock : ℕ → ℕ) (c : SnacCache) (maxage : ℤ) (j : ℕ)
    → stored (cleansnacs clock c maxage) j
      ≡ keep (is_young (clock (j % hash_size)) maxage) (stored c j)
unfolding cleansnacs
stored-cleansnacs-young clock c maxage j =
    ap (keep (of_id j)) (clean_chains-get clock maxage 0 (j % hash_size) c.snac_hash)
    ∙ keep_comm (of_id j) _ (bucket c (j % hash_size))
    ∙ ap (λ (n : ℕ). keep (is_young (clock n) maxage) (stored c j)) (omega arith)

-- The age `now` - `issuetime` is at most `maxage`, as signed numbers.
abbrev pub is_at_most : (now : ℕ) → (maxage : ℤ) → Snac → Bool
is_at_most now (pos maxage) s = leb now (s.issuetime + maxage)
is_at_most now (negsuc k) s = leb (now + (k + 1)) s.issuetime

young-is_at_most :
    (now : ℕ) (maxage : ℤ) (s : Snac) → is_young now maxage s ≡ is_at_most now maxage s
young-is_at_most now (pos m) s = ground arith
young-is_at_most now (negsuc k) s = ground arith

keep-eq :
    {A : Type 0} (p q : A → Bool) (xs : List A) → ((x : A) → p x ≡ q x) → keep p xs ≡ keep q xs
keep-eq p q [] h = refl
keep-eq p q (x ∷ xs) h = rw (h x) (ap (λ t. if q x then x ∷ t else t) (keep-eq p q xs h))

-- Of the SNACs with an id, exactly those stay, in their order, whose age is at most `maxage` at the time
-- when their chain is looked at; the age is the time less the time of issue, and may be negative, as
-- may `maxage`.
pub stored-cleansnacs :
    (clock : ℕ → ℕ) (c : SnacCache) (maxage : ℤ) (j : ℕ)
    → stored (cleansnacs clock c maxage) j
      ≡ keep (is_at_most (clock (j % hash_size)) maxage) (stored c j)
stored-cleansnacs clock c maxage j =
    stored-cleansnacs-young clock c maxage j
    ∙ keep-eq _ _ (stored c j) (young-is_at_most (clock (j % hash_size)) maxage)
