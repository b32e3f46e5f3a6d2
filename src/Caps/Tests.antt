-- ===== src/Caps/Tests.antt =====
-- Runs of the capabilities' encoding.
use libfaim.Prelude.{ℕ, ◌≡◌, arith, refl, true, some, replicate, length-replicate, has_bit}
use libfaim.Prelude.Alloc.{Allocator}
use libfaim.Bstream.{init, empty, curpos, putraw, rewind}
use libfaim.Caps.{getcap, putcap}
use libfaim.Caps.RoundTrip.{getcap-putcap}

abbrev always : Allocator
always q = true

-- Buddy icons and AIM_CAPS_APINFO.
abbrev two_caps : ℕ
two_caps = 0x00801

two_caps_length : curpos (putcap (init (replicate 272 7) 272) two_caps) ≡ 32
unfolding putcap init curpos empty putraw has_bit
two_caps_length = refl

getcap-putcap_example :
    getcap always
      (rewind (putcap (init (replicate 272 7) 272) two_caps))
      (curpos (putcap (init (replicate 272 7) 272) two_caps))
    ≡ some (two_caps, putcap (init (replicate 272 7) 272) two_caps)
getcap-putcap_example =
    getcap-putcap always two_caps (replicate 272 7) (λ q. refl) (omega arith)
      (length-replicate {A = ℕ} 272 7)
