-- ===== src/Machine/Link/Channel.antt =====
-- native/rom_probe.c, lines 1254 to 1286, 1420 to 1427, 1485 to 1505 and 1529 to 1553: the bytes from
-- the panel to the main machine. The wire and the receiver's ring after it are one list.
use ensoniq_eps_16_plus.Base.{ℕ, ◌<◌, ◌≡◌, ◌⊎◌, ltb, Bool, true, false, ◌&&◌, List, [], ◌∷◌, ◌++◌}
use ensoniq_eps_16_plus.Machine.Serial.{Serial, panel_enqueue, leave_wire, has_arrived}
use ensoniq_eps_16_plus.Machine.Link.Rings.{IsRing, IsWire, received, travelling}

-- The channel of the panel.
pub record IsChannel (s : Serial) : Type 0 where
  pub ring : IsRing s.panel_rx
  pub wire : IsWire 4096 s.panel_wire

-- All bytes that the machine has still to read, oldest first.
abbrev pub pending : Serial → List ℕ
pending s = received s.panel_rx ++ travelling 4096 s.panel_wire

-- A round of the receiver: the oldest byte of the wire goes into the ring.
abbrev taken : Serial → Serial
taken s = record s {
  panel_rx = (panel_enqueue (s.panel_wire.bytes s.panel_wire.read) s.panel_rx).1;
  panel_wire = leave_wire 4096 s.panel_wire;
}

-- No byte that has arrived is left on the wire, unless the ring is full.
abbrev IsServed : ℕ → Serial → Type 0
IsServed cycle s = (has_arrived cycle s.panel_wire && ltb s.panel_rx.count 256) ≡ false

-- The second state has the same bytes to read, and none of them waits without need.
abbrev Serves : ℕ → Serial → Serial → Type 0
Serves cycle s t = IsChannel t × (pending t ≡ pending s) × IsServed cycle t

-- The rest of the service leaves the channel alone.
abbrev SameChannel : Serial → Serial → Type 0
SameChannel s t = (t.panel_rx ≡ s.panel_rx) × (t.panel_wire ≡ s.panel_wire)

-- A read of the receiver: the oldest byte, or 0 when none has arrived.
abbrev pub Received : ℕ → Serial → ℕ × Serial → Type 0
Received cycle s r =
    IsChannel r.1
    × ((pending s ≡ r.0 ∷ pending r.1)
        ⊎ ((r.0 ≡ 0) × (pending r.1 ≡ pending s) × (has_arrived cycle (r.1).panel_wire ≡ false)))

-- What a sender sees.
abbrev pub Sent : ℕ → Serial → Bool × Serial → Type 0
Sent value s r =
    ((s.panel_wire.count < 4096)
      × (r.0 ≡ true)
      × IsChannel r.1
      × (pending r.1 ≡ pending s ++ value ∷ []))
    ⊎ ((s.panel_wire.count ≡ 4096) × (r ≡ (false, s)))
