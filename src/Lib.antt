-- ===== src/Lib.antt =====
-- A model of the emulator of the Ensoniq EPS-16 Plus: the keypad and display controller with its
-- 68HC11 processor, the stand-in for that controller, disk images, the voice chip, the signal
-- processor, and the main machine: its bus, its disk, transfer, SCSI and serial controllers, the
-- display of its panel, its link to the controller, and what the plug-in exchanges with it.
--
-- The controller (native/kpc_device.c) is a 68HC11 (native/m68hc11_core.c) that runs the firmware
-- of native/kpc_firmware.c. It talks to the main machine through a serial port with two queues,
-- and to the keypad through a synchronous port. The processor gets its memory as two callbacks,
-- which the device fills with its registers. Without firmware, native/kpc_legacy.c answers the
-- main machine in the controller's place. native/hfe_disk.c makes, loads and saves disk images.
-- The main machine (native/rom_probe.c) reads their sectors through a floppy disk controller,
-- whose bytes a transfer controller moves to its memory, as it does those of a SCSI medium. Its
-- serial controller has two channels. One is MIDI. The bytes of the other draw the display of the
-- panel, and go to the keypad and display controller, whose bytes come back on a wire of finite
-- speed. vst3/ProbeMachine.c wraps the machine for the plug-in. native/es5505_core.c plays
-- samples, and native/es5510_core.c runs the program of the effects on them.
--
-- Files. `Base` holds C's tests and conversions, the digits of numbers with the laws of `&`, `|`
-- and `^`, and switch tables. `M68hc11` is native/m68hc11_core.c. `Core` has the struct, the
-- memory accesses and the stack, `Flags` the condition codes, `Inherent`, `Accumulator`, `Memory`
-- and `Wide` a function for each opcode, and `Step` the tables of `m68hc11_step`, the reset and
-- the interrupt entry. A function that takes the core is an action `S M A`, from a core to a
-- result and a core. The callbacks are the record `Bus`, an instance argument, and the context
-- that they get is the field `mem`. `Effects` and `Helpers` have the rules for what an action does
-- to widths, memory and cycles, `Timing` applies them, `Stack`, `Frame` and `Interrupt` are about
-- the stack, `Arithmetic` about MUL, `Compare` about comparisons and branches, and `Progress`
-- about the least and the most cycles. `Kpc.Firmware` is native/kpc_firmware.c. `Kpc.Device` is
-- native/kpc_device.c: `Board` is the struct without its processor, `Serial`, `Panel`, `Bus`,
-- `Timers` and `Step` are its functions, and `Invariant`, `Running`, `Progress`, `Queues`,
-- `Clocks` and `PanelScan` hold the proofs. `Kpc.Legacy` is native/kpc_legacy.c, with `Display`
-- and `Polling` for the proofs. `Hfe` is native/hfe_disk.c: `Codec`, `Image`, `Mfm`, `Encode`,
-- `Decode` and `Files` are its functions, and `Crc`, `RoundTrip`, `Skew`, `Chain`, `InPlace`,
-- `Sectors`, `Scanning`, `Seen`, `Integrity`, `Whole`, `Loading` and `Saving` hold the proofs.
-- `Es5505` is native/es5505_core.c: `Core`, `Registers` and `Render` have the functions,
-- `LoopEnd`, `Voice`, `Halves`, `ReadBack`, `Mixing`, `Frames` and `Chunks` the proofs. `Es5510`
-- is native/es5510_core.c: `Word` has the arithmetic, `Core` the struct and the addresses,
-- `Registers`, `Tables` and `Process` the rest, `Flags`, `Saturation`, `Scaling` and `Signed` the
-- proofs about the operations, `Product` and `Accumulator` about the multiplier, and `Stages` and
-- `Program` about a frame. `Machine` is a part of native/rom_probe.c, and each of its states is a
-- record of the fields of `RomProbeState` that it uses. `Dmac`, `Fdc`, `Scsi` and `Service` have
-- the functions of the disk and transfer controllers, `Bus` the accesses of the processor
-- (`m68k_read_memory_8` to `m68k_write_memory_32`), and `View`, `Floppy`, `Access`, `Sector`,
-- `Stream`, `Memory` and `Words` the proofs. `Serial` has `duart_read`, and `Timer` a proof.
-- `Panel` is what `duart_write` does to the display: `State` has the fields and the meter,
-- `Cursor`, `Level` and `Write` the stages of a byte in their order, and `Text`, `Invariant`,
-- `Shown`, `Bounds`, `Page` and `Lamps` the proofs. `Link` has the rest of `duart_write`,
-- `Link.Physical` the functions `kpc_execution_*`, and `Link.Rings`, `Link.Channel` and
-- `Link.Service` the proofs. `Host` is the port of the signal processor, `es5510_read` and
-- `es5510_write`, with the sampling input, and has the proofs below it. `Plugin` is a part of
-- vst3/ProbeMachine.c, with the proofs below it. The modules `Tests` run the models.
--
-- Numbers are natural numbers with C's conversions written out (`u8`, `u16`, `u32`, `u64`), and a
-- signed word is the word of its digits; `Base.Int` reads it as a signed number. An array is a
-- function of its index; a function that writes into a caller's buffer takes the buffer and gives
-- it back, also where it fails. docs/bringup.md names other replies of the controller than
-- native/kpc_legacy.c gives: the model follows the code.
--
-- Loops. The loop of `sci_tick` runs on fuel, one round for each cycle and one more: a round that
-- goes on takes at least a cycle. The loop of a clocked capture runs on fuel, as many rounds as
-- the processor has counted cycles and one more: a round adds a period of at least one.
-- `kpc_device_run` and the loops that count recurse on the count that is left.
--
-- The loop of the serial controller's timer runs on fuel, one round for each cycle of the clock
-- and one more: a round adds a period of at least four. The loops over the bytes of a wire recurse
-- on their number. The loop that runs the controller up to a cycle runs on fuel, as many rounds as
-- the cycles that it is to reach: an instruction takes at least one. The loop that takes audio
-- frames recurses on the room that is left. A rendering in chunks runs on fuel, one round for each
-- frame: a chunk has at least one. The loops over the tracks and fields of an image recurse on
-- what is left of it, and a frame of the signal processor on the 160 instructions.
--
-- Not modelled: error texts, traces and a lack of memory. Files are what the calls of the C
-- library give, and for a save the calls are a parameter. Settings from the environment are taken
-- as unset. Of native/rom_probe.c the end of a time slice, the live commands and notes, the start
-- of the machine, the scripts and the command line; of its sampling input the branch for a live
-- host, which works in floating point. The devices with states of their own are a parameter of the
-- bus. The 68000 is third-party code. Of vst3/ProbeMachine.c the run loop, the rendering and the
-- snapshots. native/sampling_input_circuit.c and vst3/HostInputResampler.c, which work in floating
-- point. native/live_host.c, the rest of vst3, the tools of eps16 and the panel, which are input
-- and output.
pub mod Base
pub mod M68hc11
pub mod Kpc
pub mod Hfe
pub mod Es5505
pub mod Es5510
pub mod Machine
