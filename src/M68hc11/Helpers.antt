-- ===== src/M68hc11/Helpers.antt =====
-- The helpers of native/m68hc11_core.c keep the widths, the cycle counter and the memory's property.
use ensoniq_eps_16_plus.Base.{ℕ, refl}
use ensoniq_eps_16_plus.M68hc11.Core.{
  Bus, get_d, set_d, read16, fetch8, fetch16, push8, pull8, push16, pull16,
}
use ensoniq_eps_16_plus.M68hc11.Flags.{
  clear_ccr, raise_ccr, set_nzv8, set_nzv16, set_sub8, set_sub16, set_add8, set_add16, load_a,
  load_b,
}
use ensoniq_eps_16_plus.M68hc11.Memory.{jump_by, indexed_x, indexed_y}
use ensoniq_eps_16_plus.M68hc11.Inherent.{zero_flag_of_x}
use ensoniq_eps_16_plus.M68hc11.Effects.{BusKeeps, Silent, Timed, effects}

module _ {M : Type 0} {P : M → Type 0} where
  pub Silent-clear_ccr : (mask : ℕ) → Silent P (clear_ccr mask)
  unfolding clear_ccr
  Silent-clear_ccr mask = search effects depth 20

  pub Silent-raise_ccr : (mask : ℕ) → Silent P (raise_ccr mask)
  unfolding raise_ccr
  Silent-raise_ccr mask = search effects depth 20

  pub Silent-set_nzv8 : (v : ℕ) → Silent P (set_nzv8 v)
  unfolding set_nzv8
  Silent-set_nzv8 v = search effects depth 20

  pub Silent-set_nzv16 : (v : ℕ) → Silent P (set_nzv16 v)
  unfolding set_nzv16
  Silent-set_nzv16 v = search effects depth 20

  pub Silent-set_sub8 : (l r v : ℕ) → Silent P (set_sub8 l r v)
  unfolding set_sub8
  Silent-set_sub8 l r v = search effects depth 20

  pub Silent-set_sub16 : (l r v : ℕ) → Silent P (set_sub16 l r v)
  unfolding set_sub16
  Silent-set_sub16 l r v = search effects depth 20

  pub Silent-set_add8 : (l r v : ℕ) → Silent P (set_add8 l r v)
  unfolding set_add8
  Silent-set_add8 l r v = search effects depth 20

  pub Silent-set_add16 : (l r v : ℕ) → Silent P (set_add16 l r v)
  unfolding set_add16
  Silent-set_add16 l r v = search effects depth 20

  pub Silent-set_d : (v : ℕ) → Silent P (set_d v)
  unfolding set_d
  Silent-set_d v = search effects depth 20

  pub Silent-get_d : Silent P get_d
  unfolding get_d
  Silent-get_d = record { at = λ c w p. (w, p, refl) }

  pub Silent-zero_flag_of_x : Silent P zero_flag_of_x
  unfolding zero_flag_of_x
  Silent-zero_flag_of_x = search (effects, Silent-clear_ccr, Silent-raise_ccr) depth 20

  pub Timed-load_a : (v n : ℕ) → Timed P (load_a v n)
  unfolding load_a set_nzv8
  Timed-load_a v n = search effects depth 20

  pub Timed-load_b : (v n : ℕ) → Timed P (load_b v n)
  unfolding load_b set_nzv8
  Timed-load_b v n = search effects depth 20

module _ {M : Type 0} ⦃bus : Bus M⦄ {P : M → Type 0} (k : BusKeeps bus P) where
  pub Silent-read16 : (address : ℕ) → Silent P (read16 address)
  unfolding read16
  Silent-read16 address = search effects depth 20

  pub Silent-fetch8 : Silent P fetch8
  unfolding fetch8
  Silent-fetch8 = search effects depth 20

  pub Silent-fetch16 : Silent P fetch16
  unfolding fetch16
  Silent-fetch16 = search effects depth 20

  pub Silent-push8 : (v : ℕ) → Silent P (push8 v)
  unfolding push8
  Silent-push8 v = search effects depth 20

  pub Silent-pull8 : Silent P pull8
  unfolding pull8
  Silent-pull8 = search effects depth 20

  pub Silent-push16 : (v : ℕ) → Silent P (push16 v)
  unfolding push16
  Silent-push16 v = search effects depth 20

  pub Silent-pull16 : Silent P pull16
  unfolding pull16
  Silent-pull16 = search effects depth 20

  pub Silent-jump_by : (offset : ℕ) → Silent P (jump_by offset)
  unfolding jump_by
  Silent-jump_by offset = search effects depth 20

  pub Silent-indexed_x : Silent P indexed_x
  unfolding indexed_x
  Silent-indexed_x = search (effects, Silent-fetch8) depth 20

  pub Silent-indexed_y : Silent P indexed_y
  unfolding indexed_y
  Silent-indexed_y = search (effects, Silent-fetch8) depth 20

-- The helpers beside the primitive actions.
pub ruleset helpers = (
  effects, Silent-clear_ccr, Silent-raise_ccr, Silent-set_nzv8, Silent-set_nzv16, Silent-set_sub8,
  Silent-set_sub16, Silent-set_add8, Silent-set_add16, Silent-set_d, Silent-get_d,
  Silent-zero_flag_of_x, Timed-load_a, Timed-load_b, Silent-read16, Silent-fetch8, Silent-fetch16,
  Silent-push8, Silent-pull8, Silent-push16, Silent-pull16, Silent-jump_by, Silent-indexed_x,
  Silent-indexed_y,
)
