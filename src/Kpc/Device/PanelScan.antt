-- ===== src/Kpc/Device/PanelScan.antt =====
-- A key transition is seen by the matrix scans of the firmware and then ends.
use ensoniq_eps_16_plus.Base.{
  ℕ, suc, ◌≤◌, ◌≡◌, ◌≢◌, ◌⊎◌, inl, inr, refl, arith, Bool, ◌==◌, if◌then◌else◌, List, [], ◌∷◌, ◌++◌,
}
use native.Mathlib.Decide.{ℕ_discrete}
use ensoniq_eps_16_plus.Kpc.Device.Board.{Board}
use ensoniq_eps_16_plus.Kpc.Device.Panel.{
  panel_transfer, kpc_device_panel_transition, phase_1, phase_2,
}
use ensoniq_eps_16_plus.Kpc.Device.Bus.{write_spi_data}

-- The processor's writes to SPI_DATA, in order.
abbrev pub spi_writes : List ℕ → Board → Board
spi_writes [] d = d
spi_writes (v ∷ vs) d = spi_writes vs (write_spi_data d v)

abbrev pub count : ℕ → List ℕ → ℕ
count v [] = 0
count v (w ∷ ws) = if w == v then suc (count v ws) else count v ws

-- The scan command `v` has been seen, and `left` matching scans are to come.
record Scanning (v left : ℕ) (d : Board) : Type 0 where
  phase : d.panel_transition_phase ≡ 1
  remaining : d.panel_transfers_remaining ≡ left
  command : d.panel_scan_command ≡ v

abbrev Ending : Board → Type 0
Ending d =
    (d.panel_transition_phase ≡ 0)
    ⊎ ((d.panel_transition_phase ≡ 2) × (d.panel_transfers_remaining ≡ 1))

spi_writes-append :
    (vs ws : List ℕ) (d : Board) → spi_writes (vs ++ ws) d ≡ spi_writes ws (spi_writes vs d)
spi_writes-append [] ws d = refl
spi_writes-append (v ∷ vs) ws d = spi_writes-append vs ws (write_spi_data d v)

accepted :
    (code : ℕ) (pressed : Bool) (d : Board)
    → code ≤ 0x3f
    → d.panel_transition_phase ≡ 0
    → let d0 = (kpc_device_panel_transition d code pressed).1 in
      (d0.panel_transition_phase ≡ 1)
      × (d0.panel_transfers_remaining ≡ 3)
      × (d0.panel_scan_command ≡ 0)
unfolding kpc_device_panel_transition
accepted code pressed d in_range idle = ground arith

-- What the return line shows during a transfer: the event while the scans are counted, and nothing
-- once the third has been seen.
reported :
    (w : ℕ) (d : Board)
    → ((d.panel_transition_phase ≡ 1)
        → 1 ≤ d.panel_transfers_remaining
        → (write_spi_data d w).spi_transfer_receive_value ≡ d.spi_receive_value)
      × ((d.panel_transition_phase ≡ 2) → (write_spi_data d w).spi_transfer_receive_value ≡ 0)
unfolding write_spi_data panel_transfer phase_1 phase_2
reported w d = (λ p q. ground arith, λ p. ground arith)

module _ (v : ℕ) (not_zero : v ≢ 0) (not_fetch : v ≢ 0xff) where
  first_scan :
      (d : Board)
      → d.panel_transition_phase ≡ 1
      → d.panel_transfers_remaining ≡ 3
      → d.panel_scan_command ≡ 0
      → Scanning v 2 (write_spi_data d v)
  unfolding write_spi_data panel_transfer phase_1
  first_scan d p r c = ground arith

  next_scan :
      (w left : ℕ) (d : Board)
      → left ≡ 1 ⊎ left ≡ 2
      → Scanning v left d
      → (w ≢ v → Scanning v left (write_spi_data d w))
        × (w ≡ v → left ≡ 2 → Scanning v 1 (write_spi_data d w))
        × (w ≡ v → left ≡ 1 → Ending (write_spi_data d w))
  unfolding write_spi_data panel_transfer phase_1
  next_scan w left d l s = (λ p. ground arith, λ p q. ground arith, λ p q. ground arith)

  Ending-stays : (w : ℕ) (d : Board) → Ending d → Ending (write_spi_data d w)
  unfolding write_spi_data panel_transfer phase_2
  Ending-stays w d e = ground arith

  fetch_ends : (d : Board) → Ending d → (write_spi_data d 0xff).panel_transition_phase ≡ 0
  unfolding write_spi_data panel_transfer phase_2
  fetch_ends d e = ground arith

  -- The writes that come after the transition is over, or about to be, leave it so.
  Ending-writes : (ws : List ℕ) (d : Board) → Ending d → Ending (spi_writes ws d)
  Ending-writes [] d e = e
  Ending-writes (w ∷ ws) d e = Ending-writes ws (write_spi_data d w) (Ending-stays w d e)

  Scanning-Ending :
      (ws : List ℕ) (left : ℕ) (d : Board)
      → left ≡ 1 ⊎ left ≡ 2
      → Scanning v left d
      → left ≤ count v ws
      → Ending (spi_writes ws d)
  Scanning-Ending [] left d l s c = absurd (omega arith)
  Scanning-Ending (w ∷ ws) left d l s c =
      let step = next_scan w left d l s in
      let keep = λ (m : left ≤ count v ws) (t : Scanning v left (write_spi_data d w)).
        Scanning-Ending ws left _ l t m in
      elim (ℕ_discrete w v) [
        | yes p ↦ elim l [
          | inl one ↦ Ending-writes ws _ (step.2 p one)
          | inr two ↦ Scanning-Ending ws 1 _ (inl refl) (step.1 p two) (matched p (omega arith) c)
        ]
        | no p ↦ keep (skipped p c) (step.0 p)
      ]
    where
      matched : w ≡ v → 2 ≤ left → left ≤ count v (w ∷ ws) → 1 ≤ count v ws
      matched p l c = ground arith

      skipped : w ≢ v → left ≤ count v (w ∷ ws) → left ≤ count v ws
      skipped p c = ground arith

  -- For a key code of at most 0x3f and an idle panel: after the transition is accepted, a first
  -- scan command v that is neither 0 nor 0xff, any transfers that contain v at least twice
  -- more, and then a transfer of 0xff, the panel is idle again.
  pub transition_ends :
      (code : ℕ) (pressed : Bool) (d : Board) (ws : List ℕ)
      → code ≤ 0x3f
      → d.panel_transition_phase ≡ 0
      → 2 ≤ count v ws
      → let d0 = (kpc_device_panel_transition d code pressed).1 in
        (spi_writes (v ∷ ws ++ 0xff ∷ []) d0).panel_transition_phase ≡ 0
  transition_ends code pressed d ws in_range idle twice =
      let d0 = (kpc_device_panel_transition d code pressed).1 in
      let a = accepted code pressed d in_range idle in
      let s = first_scan d0 a.0 a.1 a.2 in
      rw (spi_writes-append ws (0xff ∷ []) (write_spi_data d0 v))
        (fetch_ends _ (Scanning-Ending ws 2 _ (inr refl) s twice))
