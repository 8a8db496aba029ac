-- ===== src/Machine/Link/Tests.antt =====
-- Runs of the serial controller.
use ensoniq_eps_16_plus.Base.{true, false, ◌≡◌, refl, arith, [], ◌∷◌}
use ensoniq_eps_16_plus.Machine.Serial.{Serial}
use ensoniq_eps_16_plus.Kpc.Legacy.{kpc_legacy_init}
use ensoniq_eps_16_plus.Kpc.Device.Running.{IsDevice}
use ensoniq_eps_16_plus.Kpc.Device.Tests.{ready, ready-IsDevice}
use ensoniq_eps_16_plus.Machine.Panel.Tests.{blank}
use ensoniq_eps_16_plus.Machine.Link.{Link}
use ensoniq_eps_16_plus.Machine.Link.Physical.{kpc_execution_service}
use ensoniq_eps_16_plus.Machine.Link.Service.{Reaches, kpc_execution_service_lem}
use ensoniq_eps_16_plus.Machine.Link.Channel.{pending}

-- A controller with one byte in the ring, near its end, and one on the wire.
abbrev serial : Serial
serial = record {
  duart_registers = λ reg. 0;
  irq_level = 0;
  tx_a_enabled = false;
  tx_a_ready = true;
  tx_a_ready_cycle = 0;
  tx_b_enabled = true;
  tx_b_ready = true;
  tx_b_ready_cycle = 0;
  rx_a_enabled = true;
  panel_rx = record { bytes = λ i. i; read = 255; write = 0; count = 1 };
  panel_rx_consumed = 0;
  panel_wire = record {
    arrivals = λ i. 5000;
    bytes = λ i. 7;
    read = 4095;
    write = 0;
    count = 1;
    tail_cycle = 5000;
  };
  midi_rx = record { bytes = λ i. 0; read = 0; write = 0; count = 0 };
  midi_rx_consumed = 0;
  midi_wire = record {
    arrivals = λ i. 0;
    bytes = λ i. 0;
    read = 0;
    write = 0;
    count = 0;
    tail_cycle = 0;
  };
  timer_pending = false;
  timer_running = false;
  timer_next_cycle = 0;
  disk_loaded = false;
  disk_change_pending = false;
}

serial-pending : pending serial ≡ 255 ∷ 7 ∷ []
serial-pending = refl

-- A controller after its reset, and a key that waits.
abbrev link : Link
link = record {
  serial = serial;
  panel = blank;
  kpc = kpc_legacy_init;
  kpc_device = ready;
  kpc_firmware_execution = true;
  midi_tx = λ i. 0;
  midi_tx_count = 0;
  panel_tx = λ i. 0;
  panel_tx_count = 0;
  pick_instrument_seen = false;
  file_loaded_seen = false;
  duart_output = 0;
  physical_queue = record { bytes = λ i. 0x81; read = 0; write = 1; count = 1 };
  physical_expected = 0;
  physical_active = false;
  physical_saw_code = false;
  physical_next_cycle = 0;
}

service_example :
    IsDevice (kpc_execution_service 1000 link).kpc_device
    × Reaches 200 link.kpc_device (kpc_execution_service 1000 link).kpc_device
    × ((kpc_execution_service 1000 link).kpc_device.mem.tx_count ≡ 0)
service_example = kpc_execution_service_lem 1000 link (omega arith) ready-IsDevice
