-- ===== src/Machine/Plugin/Tests.antt =====
-- Runs of the plug-in's queues.
use ensoniq_eps_16_plus.Base.{ℕ, ◌-◌, true, false, ◌≡◌, refl, arith}
use ensoniq_eps_16_plus.Machine.Serial.{Serial}
use ensoniq_eps_16_plus.Machine.Plugin.{
  AudioRing, plugin_queue_audio, eps16_probe_machine_drain_audio, eps16_probe_machine_midi,
}
use ensoniq_eps_16_plus.Machine.Plugin.Messages.{message, AllOrNothing, midi_lem}
use ensoniq_eps_16_plus.Machine.Plugin.AudioQueue.{
  IsAudioRing, Queued, waiting, take, drop, audio_queue_refines,
}

abbrev serial : Serial
serial = record {
  duart_registers = λ reg. 0;
  irq_level = 0;
  tx_a_enabled = false;
  tx_a_ready = true;
  tx_a_ready_cycle = 0;
  tx_b_enabled = true;
  tx_b_ready = true;
  tx_b_ready_cycle = 0;
  rx_a_enabled = true;
  panel_rx = record { bytes = λ i. 0; read = 0; write = 0; count = 0 };
  panel_rx_consumed = 0;
  panel_wire = record {
    arrivals = λ i. 0;
    bytes = λ i. 0;
    read = 0;
    write = 0;
    count = 0;
    tail_cycle = 0;
  };
  midi_rx = record { bytes = λ i. 0; read = 0; write = 0; count = 0 };
  midi_rx_consumed = 0;
  midi_wire = record {
    arrivals = λ i. 0;
    bytes = λ i. 0;
    read = 250;
    write = 248;
    count = 254;
    tail_cycle = 0;
  };
  timer_pending = false;
  timer_running = false;
  timer_next_cycle = 0;
  disk_loaded = false;
  disk_change_pending = false;
}

-- A wire with room for two bytes takes no message of three.
midi_example :
    AllOrNothing (message 0x90 60 100) serial (eps16_probe_machine_midi 10 0x90 60 100 serial)
midi_example =
    midi_lem 10 0x90 60 100 serial
      (record { read = omega arith; count = omega arith; write = refl })

-- A full ring, whose oldest frame is 5.
abbrev ring : AudioRing ℕ
ring = record { frames = λ i. i; read = 5; write = 4; drops = 0 }

audio_queue_example :
    let r = eps16_probe_machine_drain_audio 2 ring in
    Queued 9 1023 ring (plugin_queue_audio 9 ring)
    × (r.0 ≡ take 2 (waiting 1023 ring))
    × IsAudioRing (1023 - 2) r.1
    × (waiting (1023 - 2) r.1 ≡ drop 2 (waiting 1023 ring))
audio_queue_example =
    audio_queue_refines 9 2 1023 ring
      (record { read = omega arith; room = omega arith; write = refl })
