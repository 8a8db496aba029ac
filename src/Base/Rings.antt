-- ===== src/Base/Rings.antt =====
-- The bytes of a ring: what stands from an index on, round the end of the array.
use Prim.Native.Nat.{ℕ, zero, suc, ◌+◌, ◌-◌, ◌%◌, ◌≤◌, ◌<◌}
use mathlib.Core.Path.{◌≡◌, refl, ap, ap₂, sym, ◌∙◌}
use mathlib.Core.Logic.{◌≢◌, ◌⊎◌, inl, inr}
use mathlib.Core.List.{List, [], ◌∷◌, ◌++◌}
use native.Mathlib.Nat.{mod-eq_of_lt, mod-eq-sub-mod, mod-add-mod, mod-lt}
use native.Mathlib.Decide.{dec_lt}
use native.Mathlib.Omega.{arith}
use ensoniq_eps_16_plus.Base.Arrays.{update}

-- An index that has gone round at most once.
wrapped :
    (size x : ℕ)
    → x < size + size
    → ((x < size) × (x % size ≡ x)) ⊎ ((size ≤ x) × (x % size ≡ x - size))
wrapped size x h = elim (dec_lt x size) [
  | yes below ↦ inl (below, mod-eq_of_lt below)
  | no above ↦ inr (
    omega (arith, above),
    mod-eq-sub-mod (omega (arith, above)) ∙ mod-eq_of_lt (omega (arith, above)),
  )
]

-- The index of a value, counted from the oldest, starts at the next place for the rest.
next_index :
    (size read n : ℕ)
    → read < size
    → n < size
    → (read + suc n) % size ≡ ((read + 1) % size + n) % size
next_index size read n hr hn =
    ap (λ (k : ℕ). k % size) (omega arith) ∙ sym (mod-add-mod (read + 1) size n)

-- A place in the ring is not the one that its oldest value has.
not_oldest : (size read n : ℕ) → read < size → suc n < size → read ≢ (read + suc n) % size
not_oldest size read n hr hn e = elim (wrapped size (read + suc n) (omega arith)) [
  | inl w ↦ absurd (omega (arith, w.1, e))
  | inr w ↦ absurd (omega (arith, w.1, e))
]

module _ {ℓ} {A : Type ℓ} (size : ℕ) where
  -- The `n` values from index `read` on, oldest first.
  abbrev pub window : (ℕ → A) → ℕ → ℕ → List A
  window a read zero = []
  window a read (suc n) = a read ∷ window a ((read + 1) % size) n

  -- A write past the end of the window extends it by that value.
  pub window-update :
      (a : ℕ → A) (v : A) (n read i : ℕ)
      → read < size
      → n < size
      → i ≡ (read + n) % size
      → window (update a i v) read (suc n) ≡ window a read n ++ v ∷ []
  window-update a v zero read i hr hn e =
      let same : read ≡ i = sym (e ∙ ap (λ (k : ℕ). k % size) (omega arith) ∙ mod-eq_of_lt hr) in
      ap (λ (t : A). t ∷ []) (ground (arith, same))
  window-update a v (suc n) read i hr hn e =
      let other : read ≢ i = λ same. not_oldest size read n hr hn (same ∙ e) in
      ap₂ ◌∷◌ (ground (arith, other)) (
        window-update a v n ((read + 1) % size) i (mod-lt (read + 1) (omega arith)) (omega arith)
          (e ∙ next_index size read n hr (omega arith)))

  pub window_of_ne_zero :
      (a : ℕ → A) (read n : ℕ)
      → n ≢ 0
      → window a read n ≡ a read ∷ window a ((read + 1) % size) (n - 1)
  window_of_ne_zero a read zero p = absurd (p refl)
  window_of_ne_zero a read (suc n) p = ap (λ k. window a read (suc k)) (omega arith)

-- The places of a ring with one value more, or with the oldest taken away.
pub write_next :
    (size read n write : ℕ)
    → read < size
    → n < size
    → write ≡ (read + n) % size
    → (write < size) × ((write + 1) % size ≡ (read + (n + 1)) % size)
write_next size read n write hr hn e = (
  rw e (mod-lt (read + n) (omega arith)),
  rw e (mod-add-mod (read + n) size 1 ∙ ap (λ (k : ℕ). k % size) (omega arith)),
)

pub read_next :
    (size read n write : ℕ)
    → read < size
    → n ≢ 0
    → n ≤ size
    → write ≡ (read + n) % size
    → ((read + 1) % size < size) × (write ≡ ((read + 1) % size + (n - 1)) % size)
read_next size read n write hr some fits e = (
  mod-lt (read + 1) (omega arith),
  e ∙ ap (λ (k : ℕ). k % size) (omega (arith, some)) ∙ sym (mod-add-mod (read + 1) size (n - 1)),
)
