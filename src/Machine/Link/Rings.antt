-- ===== src/Machine/Link/Rings.antt =====
-- native/rom_probe.c, lines 1254 to 1286, 1420 to 1456 and 1485 to 1491: the rings and wires of the
-- serial controller as lists.
use ensoniq_eps_16_plus.Base.{
  ℕ, suc, ◌+◌, ◌%◌, ◌≤◌, ◌<◌, ◌≡◌, ◌≢◌, refl, sym, ◌∙◌, ap, arith, ◌==◌, true, false, List, [], ◌∷◌,
  ◌++◌, update,
}
use ensoniq_eps_16_plus.Base.Rings.{window, window-update, window_of_ne_zero, write_next, read_next}
use ensoniq_eps_16_plus.Machine.Serial.{Ring, Wire, put_byte, drop_byte, leave_wire, schedule}

pub record IsRing (r : Ring) : Type 0 where
  pub read : r.read < 256
  pub count : r.count ≤ 256
  pub write : r.write ≡ (r.read + r.count) % 256

pub record IsWire (size : ℕ) (w : Wire) : Type 0 where
  pub read : w.read < size
  pub count : w.count ≤ size
  pub write : w.write ≡ (w.read + w.count) % size

abbrev pub received : Ring → List ℕ
received r = window 256 r.bytes r.read r.count

abbrev pub travelling : ℕ → Wire → List ℕ
travelling size w = window size w.bytes w.read w.count

-- A byte into a ring that has room, and the oldest out of one that is not empty.
pub put_byte-IsRing :
    (value : ℕ) (r : Ring)
    → IsRing r
    → r.count < 256
    → IsRing (put_byte value r) × (received (put_byte value r) ≡ received r ++ value ∷ [])
put_byte-IsRing value r h room =
    let next = write_next 256 r.read r.count r.write h.read room h.write in
    let longer : r.count + 1 ≡ suc r.count = omega arith in
    (
      record { read = h.read; count = omega (arith, room); write = next.1 },
      ap (λ (n : ℕ). window 256 (update r.bytes r.write value) r.read n) longer
          ∙ window-update 256 r.bytes value r.count r.read r.write h.read room h.write,
    )

pub drop_byte-IsRing :
    (r : Ring)
    → IsRing r
    → r.count ≢ 0
    → IsRing (drop_byte r) × (received r ≡ r.bytes r.read ∷ received (drop_byte r))
drop_byte-IsRing r h filled =
    let next = read_next 256 r.read r.count r.write h.read filled h.count h.write in
    (
      record { read = next.0; count = omega (arith, h.count); write = next.1 },
      window_of_ne_zero 256 r.bytes r.read r.count filled,
    )

-- The oldest byte leaves a wire, and a byte starts on one that has room.
pub leave_wire-IsWire :
    (size : ℕ) (w : Wire)
    → IsWire size w
    → w.count ≢ 0
    → IsWire size (leave_wire size w)
      × (travelling size w ≡ w.bytes w.read ∷ travelling size (leave_wire size w))
leave_wire-IsWire size w h filled =
    let next = read_next size w.read w.count w.write h.read filled h.count h.write in
    (
      record { read = next.0; count = omega (arith, h.count); write = next.1 },
      window_of_ne_zero size w.bytes w.read w.count filled,
    )

pub schedule-IsWire :
    (size byte_cycles value cycle : ℕ) (w : Wire)
    → IsWire size w
    → w.count < size
    → let sent = schedule size byte_cycles value cycle w in
      (sent.0 ≡ true)
      × IsWire size (sent.1)
      × (travelling size (sent.1) ≡ travelling size w ++ value ∷ [])
      × ((sent.1).count ≡ w.count + 1)
schedule-IsWire size byte_cycles value cycle w h room =
    let next = write_next size w.read w.count w.write h.read room h.write in
    let longer : suc w.count ≡ w.count + 1 = omega arith in
    let bytes =
      ap (λ (n : ℕ). window size (update w.bytes w.write value) w.read n) (sym longer)
      ∙ window-update size w.bytes value w.count w.read w.write h.read room h.write in
    let open_wire : (w.count == size) ≡ false = ground arith in
    rw open_wire
      (refl, record { read = h.read; count = omega (arith, room); write = next.1 }, bytes, refl)

pub schedule-full :
    (size byte_cycles value cycle : ℕ) (w : Wire)
    → w.count ≡ size
    → schedule size byte_cycles value cycle w ≡ (false, w)
schedule-full size byte_cycles value cycle w full = ground (arith, full)
