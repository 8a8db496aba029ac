-- ===== src/Kpc/Device/Queues.antt =====
-- The two serial queues refine lists: what `kpc_device_receive` accepts is what the processor reads
-- from SCI_DATA, in order, and what the port starts to send is what `kpc_device_transmit` gives.
use ensoniq_eps_16_plus.Base.{
  ℕ, zero, suc, ◌+◌, ◌-◌, ◌%◌, ◌<◌, ◌≡◌, ◌≢◌, refl, arith, Bool, true, false, ◌==◌, if◌then◌else◌,
  update, Option, none, some, List, [], ◌∷◌, ◌++◌, ap, ap₂,
}
use ensoniq_eps_16_plus.Kpc.Firmware.{length}
use ensoniq_eps_16_plus.Kpc.Device.Board.{Board, queue_size, sci_data}
use ensoniq_eps_16_plus.Kpc.Device.Serial.{
  sci_start_transmit, kpc_device_receive, kpc_device_transmit,
}
use ensoniq_eps_16_plus.Kpc.Device.Bus.{device_read8}
use ensoniq_eps_16_plus.Kpc.Device.Invariant.{IsBoard}

-- The `n` bytes of a ring from index `read` on, oldest first.
abbrev pub window : (ℕ → ℕ) → ℕ → ℕ → List ℕ
window a read zero = []
window a read (suc n) = a read ∷ window a ((read + 1) % queue_size) n

abbrev pub rx_bytes : Board → List ℕ
rx_bytes d = window d.rx d.rx_read d.rx_count

abbrev tx_bytes : Board → List ℕ
tx_bytes d = window d.tx d.tx_read d.tx_count

-- The queue that a client sees: at most `queue_size` bytes, and a full one refuses.
unfoldable pub enqueue : List ℕ → ℕ → Bool × List ℕ
enqueue q v = if length q == queue_size then (false, q) else (true, q ++ v ∷ [])

unfoldable dequeue : List ℕ → Option ℕ × List ℕ
dequeue [] = (none, [])
dequeue (v ∷ q) = (some v, q)

length-window : (a : ℕ → ℕ) (read n : ℕ) → length (window a read n) ≡ n
length-window a read zero = refl
length-window a read (suc n) = ap suc (length-window a ((read + 1) % queue_size) n)

-- A write past the end of the window extends it by that byte.
window-update :
    (a : ℕ → ℕ) (v n read i : ℕ)
    → read < queue_size
    → n < queue_size
    → i ≡ (read + n) % queue_size
    → window (update a i v) read (suc n) ≡ window a read n ++ v ∷ []
window-update a v zero read i hr hn e =
    let same : read ≡ i = omega arith in ap (λ t. t ∷ []) (ground arith)
window-update a v (suc n) read i hr hn e =
    ap₂ ◌∷◌ (ground arith)
      (window-update a v n ((read + 1) % queue_size) i (omega arith) (omega arith) (omega arith))

-- An empty count is an empty window, and any other one begins with the byte at `read`.
window_of_ne_zero :
    (a : ℕ → ℕ) (read n : ℕ)
    → n ≢ 0
    → window a read n ≡ a read ∷ window a ((read + 1) % queue_size) (n - 1)
window_of_ne_zero a read zero p = absurd (p refl)
window_of_ne_zero a read (suc n) p = ap (λ k. window a read (suc k)) (omega arith)

-- On a board in the invariant, kpc_device_receive appends the byte to the list of received bytes
-- and reports success, or, if that holds 4096 bytes, changes nothing in it and reports failure.
pub receive_refines :
    (d : Board) (v : ℕ)
    → IsBoard d
    → let (accepted, d') = kpc_device_receive d v in
      (accepted, rx_bytes d') ≡ enqueue (rx_bytes d) v
unfolding kpc_device_receive enqueue
receive_refines d v h = ground (
  arith,
  length-window d.rx d.rx_read d.rx_count,
  window-update d.rx v d.rx_count d.rx_read d.rx_write,
)

-- What a processor read makes of an empty queue.
abbrev or_zero : Option ℕ → ℕ
or_zero none = 0
or_zero (some v) = v

-- On a board in the invariant, a processor read of SCI_DATA returns the oldest received byte and
-- takes it off the list, and returns 0 from an empty list.
read_sci_data_refines :
    (d : Board)
    → IsBoard d
    → ((device_read8 d sci_data).0 ≡ or_zero (dequeue (rx_bytes d)).0)
      × (rx_bytes (device_read8 d sci_data).1 ≡ (dequeue (rx_bytes d)).1)
unfolding device_read8 dequeue
read_sci_data_refines d h = ground (arith, window_of_ne_zero d.rx d.rx_read d.rx_count)

-- On a board in the invariant, a byte that the serial port starts to send is appended to the list
-- of sent bytes, unless that holds 4096 bytes.
start_transmit_refines :
    (d : Board) (v : ℕ) → IsBoard d → tx_bytes (sci_start_transmit d v) ≡ (enqueue (tx_bytes d) v).1
unfolding sci_start_transmit enqueue
start_transmit_refines d v h = ground (
  arith,
  length-window d.tx d.tx_read d.tx_count,
  window-update d.tx v d.tx_count d.tx_read d.tx_write,
)

-- On a board in the invariant, kpc_device_transmit takes the oldest byte off the list of sent
-- bytes and returns it, and reports failure on an empty list.
transmit_refines :
    (d : Board)
    → IsBoard d
    → let (sent, d') = kpc_device_transmit d in (sent, tx_bytes d') ≡ dequeue (tx_bytes d)
unfolding kpc_device_transmit dequeue
transmit_refines d h = ground (arith, window_of_ne_zero d.tx d.tx_read d.tx_count)
