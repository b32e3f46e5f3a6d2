-- ===== src/Snac/Tests.antt =====
-- The cache of SNACs on small examples.
use libfaim.Prelude.{ℕ, ◌≡◌, refl, true, [], ◌∷◌, arith, some, replicate}
use libfaim.Prelude.Alloc.{Allocator}
use libfaim.Prelude.Int.{pos}
use libfaim.Snac.{Snac, SnacCache, hash_size, cachesnac, remsnac, cleansnacs, initsnachash, unlink}
use libfaim.Snac.Stored.{stored, stored-cleansnacs}
use libfaim.Snac.Invariant.{
  IsFresh, entry, Reach, here, next, caches, replies, remsnac-cachesnac, Reach-IsFresh,
}

abbrev always : Allocator
always q = true

abbrev ulong : ℕ
ulong = 4294967296

-- The table of a new session, with the ids from 1 on.
abbrev new_table : SnacCache
new_table = record { snac_hash = replicate hash_size []; snacid_next = 1 }

abbrev request : Snac
request = record { id = 17; family = 4; type = 6; flags = 0; content = 1 ∷ []; issuetime = 0 }

-- The chain of 1 and 17, which fall together.
abbrev busy_table : SnacCache
busy_table = record {
  snac_hash =
      []
      ∷ (record request { issuetime = 30 } ∷ record request { id = 1; issuetime = 20 } ∷ [])
      ∷ replicate 14 [];
  snacid_next = 18;
}

unlink_behind :
    unlink 1 (request ∷ record request { id = 1 } ∷ [])
    ≡ (some (record request { id = 1 }), request ∷ [])
unfolding unlink
unlink_behind = refl

-- At the time 45, what is more than 20 seconds old goes.
stored-cleansnacs_example :
    stored (cleansnacs (λ i. 45) busy_table (pos 20)) 17 ≡ record request { issuetime = 30 } ∷ []
stored-cleansnacs_example = stored-cleansnacs (λ i. 45) busy_table (pos 20) 17

remsnac-cachesnac_example :
    let r = cachesnac always ulong 60 busy_table 4 6 0 (1 ∷ 2 ∷ []) in
    ((remsnac r.1 r.0).0 ≡ some (entry always ulong 60 18 4 6 0 (1 ∷ 2 ∷ [])))
    × (stored (remsnac r.1 r.0).1 17 ≡ record request { issuetime = 30 } ∷ [])
remsnac-cachesnac_example =
    remsnac-cachesnac always ulong 60 busy_table 4 6 0 (1 ∷ 2 ∷ []) 17 refl (λ q. refl)

abbrev life :
    Reach always ulong
      (initsnachash new_table)
      (remsnac (cachesnac always ulong 10 (initsnachash new_table) 4 6 0 []).1 1).1
unfolding initsnachash
life = next (next here (caches 10 4 6 0 [] (omega arith))) (replies 1)

Reach-IsFresh_example :
    IsFresh (remsnac (cachesnac always ulong 10 (initsnachash new_table) 4 6 0 []).1 1).1
Reach-IsFresh_example = Reach-IsFresh new_table (λ q. refl) life
