-- ===== src/Kpc/Legacy/Polling.antt =====
-- The polling of native/kpc_legacy.c: how often the stand-in speaks without being asked.
use ensoniq_eps_16_plus.Base.{
  ℕ, suc, ◌+◌, ◌*◌, ◌^◌, ◌≤◌, ◌<◌, ◌≡◌, arith, Bool, true, false, if◌then◌else◌, List, [], ◌∷◌,
}
use ensoniq_eps_16_plus.Kpc.Legacy.{KpcLegacy, kpc_legacy_service}

-- One call of `kpc_legacy_service`.
pub record Request : Type 0 where
  pub live_mode : Bool
  pub disk_reads : ℕ
  pub executed : ℕ
  pub transport_idle : Bool

abbrev serve : KpcLegacy → Request → Bool × KpcLegacy
serve kpc r = kpc_legacy_service kpc r.live_mode r.disk_reads r.executed r.transport_idle

-- The number of polls that a series of calls starts.
abbrev pub polls : KpcLegacy → List Request → ℕ
polls kpc [] = 0
polls kpc (r ∷ rs) =
    if (serve kpc r).0 then suc (polls (serve kpc r).1 rs) else polls (serve kpc r).1 rs

-- The clock does not run backwards, and stays below `end`.
abbrev InOrder : ℕ → List Request → ℕ → Type 0
InOrder now [] end = now ≤ end
InOrder now (r ∷ rs) end = (now ≤ r.executed) × InOrder r.executed rs end

InOrder-le : (now : ℕ) (rs : List Request) (end : ℕ) → InOrder now rs end → now ≤ end
InOrder-le now [] end h = h
InOrder-le now (r ∷ rs) end h = omega (arith, h.0, InOrder-le r.executed rs end h.1)

serve_step :
    (kpc : KpcLegacy) (r : Request) (now : ℕ)
    → kpc.last_poll_cycle ≤ now
    → now ≤ r.executed
    → r.executed < 2 ^ 64
    → ((serve kpc r).1.poll_cycles ≡ kpc.poll_cycles)
      × ((serve kpc r).1.last_poll_cycle ≤ r.executed)
      × (kpc.last_poll_cycle + (if (serve kpc r).0 then kpc.poll_cycles else 0)
          ≤ (serve kpc r).1.last_poll_cycle)
unfolding kpc_legacy_service
serve_step kpc r now p q w = (ground arith, ground arith, ground arith)

-- Over calls with a clock that does not run backwards and stays below 2^64, from a last poll that
-- is not in the future, n polls take at least n times the configured number of cycles after the
-- last poll before them.
pub polls_apart :
    (rs : List Request) (kpc : KpcLegacy) (now end : ℕ)
    → kpc.last_poll_cycle ≤ now
    → InOrder now rs end
    → end < 2 ^ 64
    → kpc.last_poll_cycle + polls kpc rs * kpc.poll_cycles ≤ end
polls_apart [] kpc now end p h w = omega arith
polls_apart (r ∷ rs) kpc now end p h w =
    let s = serve_step kpc r now p h.0 (omega (arith, InOrder-le r.executed rs end h.1)) in
    go (serve kpc r).0 (polls (serve kpc r).1 rs) (serve kpc r).1.last_poll_cycle s.2
      (rw s.0 at (polls_apart rs (serve kpc r).1 r.executed end s.1 h.1 w))
  where
    go :
        (b : Bool) (n last : ℕ)
        → kpc.last_poll_cycle + (if b then kpc.poll_cycles else 0) ≤ last
        → last + n * kpc.poll_cycles ≤ end
        → kpc.last_poll_cycle + (if b then suc n else n) * kpc.poll_cycles ≤ end
    go true n last p q = omega arith
    go false n last p q = omega arith
