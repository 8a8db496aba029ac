-- ===== src/Base/Arrays.antt =====
-- A C array of fixed size as a function of the index. Every use in the models keeps its indices
-- below the array's size, and the bounds are proved where an index is computed.
use Prim.Native.Nat.{ℕ}
use ensoniq_eps_16_plus.Base.Tests.{◌==◌, if◌then◌else◌}

-- `a[i] = v`
abbrev pub update {ℓ} : {A : Type ℓ} → (ℕ → A) → ℕ → A → ℕ → A
update a i v j = if j == i then v else a j
