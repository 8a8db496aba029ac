-- ===== src/Base/Switch.antt =====
-- A C `switch` whose cases all leave the function: a table from labels to handlers.
use Prim.Native.Nat.{ℕ}
use mathlib.Core.Bool.{Bool, true, false}
use mathlib.Core.List.{List, [], ◌∷◌}
use ensoniq_eps_16_plus.Base.Tests.{◌==◌, if◌then◌else◌}

module _ {ℓ} {A : Type ℓ} where
  -- The handler of the first label that fits, or the default.
  unfoldable pub switch : ℕ → List (ℕ × A) → A → A
  switch tag [] default = default
  switch tag ((label, handler) ∷ rest) default =
      if tag == label then handler else switch tag rest default

  module _ {κ} (P : A → Type κ) where
    abbrev pub AllHandlers : List (ℕ × A) → Type κ
    AllHandlers [] = Unit
    AllHandlers (e ∷ rest) = P e.1 × AllHandlers rest

    -- What holds of every handler and of the default holds of the switch.
    pub switch-All :
        (tag : ℕ) (table : List (ℕ × A)) (default : A)
        → AllHandlers table
        → P default
        → P (switch tag table default)
    unfolding switch
    switch-All tag [] default h d = d
    switch-All tag ((label, handler) ∷ rest) default h d =
        go (tag == label) (switch-All tag rest default h.1 d)
      where
        go :
            (b : Bool)
            → P (switch tag rest default)
            → P (if b then handler else switch tag rest default)
        go true q = h.0
        go false q = q
