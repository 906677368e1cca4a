-- ===== src/Lib.antt =====
-- Gate Link, the firmware of a two-leaf gate controller: a verification of its control logic and of
-- what it tells the outside.
--
-- The program has two hardware-independent crates, gate-core and app-core, and firmware tasks
-- around them. `Controls` (gate-core/src/gate.rs) is the state that the gate task shares with the
-- tasks that watch the inputs and the broker; the gate task owns the two leaf motors
-- (gate-core/src/motor.rs) and runs one command at a time, and persists its state
-- (src/physical/gate.rs); push button, radio remote, wind guard and bypass input are debounced
-- (gate-core/src/debounce.rs) and the light barriers followed by tasks of src/physical/inputs.rs,
-- which call `Controls`; a warning light blinks next to it (gate-core/src/warning_light.rs). Over
-- MQTT the device announces itself (app-core/src/discovery.rs), takes commands and shows its state
-- (app-core/src/mqtt.rs, src/app); its configuration comes from a form (app-core/src/config.rs), is
-- kept in flash (app-core/src/storage.rs) and erased by holding a button
-- (src/infra/reset_button.rs).
--
-- * Motor models gate-core/src/motor.rs: `Motor` with `new`, `run_time`, `settle`, `start` and
--   `stop`. A pin is the log of the writes to it, newest first. Motor/Relays has what its relays
--   do, Motor/Travel how far it gets.
-- * Controls models the shared state of gate-core/src/gate.rs, with each method of `Controls` as a
--   function of the state. `open`, `close` and `stop` are `open_request`, `close_request` and
--   `stop_request`. The texts of `blocked` are the constructors of `Reason`.
-- * Gate models `Gate::new`, `step`, `drive`, `settle` and `plan` of gate-core/src/gate.rs, cut at
--   their awaits: `Task` says where the gate task is suspended, with the locals that live across
--   the await; `round` is the body of the loop of `drive`, `turn` that of the loop over the leaves,
--   `execute` is `step` from a command on. Gate/World has the awaits (`resume`) and the gate task
--   among the others (`run`). Gate/Cover is a specification: the gate as its user sees it.
-- * Light models gate-core/src/warning_light.rs, a task among those of Gate/World.
-- * Physical models the start of the gate task in src/physical/gate.rs and the timing in
--   src/physical/gate_config.rs; Physical/Persistence the loop that writes the flash, and the start
--   from the flash in src/bin/main.rs.
-- * Debounce models gate-core/src/debounce.rs, and the loop of `edge_task` of
--   src/physical/inputs.rs; Levels its `level_task`; Physical/Inputs `edge_task` with the actions
--   that src/bin/main.rs gives it; Physical/Board the tasks of all inputs among the others, in any
--   order (`run_board`).
-- * Mqtt models app-core/src/mqtt.rs, Discovery app-core/src/discovery.rs, and Messages what
--   src/physical/gate.rs, src/app/mqtt_handler.rs and src/app/discovery.rs do with them.
-- * Broker models `publish` of src/infra/mqtt_client.rs, with the bounded channel of embassy_sync
--   as a parameter; Broker/Connection its `run_once` from the CONNECT on (`begin_session`, then
--   `serve` for a round of the loop), with the client of vendor/mqtt-async-embedded as a parameter;
--   the levels of QoS are that library's. Which future of the `select3` is ready is left to the
--   schedule. Broker/Attempts models the transport, `resolve`, `run_once` up to the CONNECT
--   (`connect`), the loop of `task` up to a session (`reconnect`) and the subscriptions of
--   src/app/mqtt_handler.rs, with what the network answers during each attempt as a parameter.
--   Broker/Life has the life of the connection (`live`): attempts, rounds, lost sessions, and the
--   calls of the other tasks in between; what they do while a session starts is taken to come
--   before or after the start.
-- * Firmware models src/bin/main.rs, with the `configure` functions of src/infra/wifi_sta.rs and
--   src/infra/wifi_ap.rs: a boot as the list of what it does (`main`), up to where `main` stays.
--   What the radio driver answers is a parameter. Firmware/Observed reads off that list what each
--   part sees.
-- * Provisioning models app-core/src/provisioning.rs, the handler of src/infra/provisioning_http.rs
--   and the choice of the mode in src/bin/main.rs.
-- * DeviceConfig models app-core/src/config.rs; Storage models app-core/src/storage.rs and
--   src/infra/storage.rs, with the map of sequential_storage as a parameter; Storage/Partition
--   models `open` of src/infra/storage.rs, and gives records behind the lookup of their partition
--   as such a map again (`opened`); ResetButton models src/infra/reset_button.rs.
-- * Time has the two conversions of embassy_time as a parameter, `Ticks`, with their documented
--   laws. Prelude has the shared names, tests and lemmas, and the decoding of UTF-8.
--
-- An atomic is its value, and a `Signal` of embassy_sync is a slot that holds the last value
-- signalled, until a completed wait takes it. Where a theorem follows the leaves to their ends
-- however late the gate task is polled, the milliseconds since the device started, times 255, are
-- assumed to fit in 64 bits, as they do for millions of years. Instants and durations are numbers
-- of ticks; that adding them never overflows 64 bits, where embassy_time panics, is assumed.
-- Products of milliseconds in 64 bits and the counter of a u8 wrap. The clock is read once for each
-- run of a task from one await to the next. Which of the ready futures of a `select` is taken, when
-- the gate task is polled and what the other tasks call in between are arbitrary: they are the
-- events of `run`. The loop of `drive` needs no fuel, since it is cut at its awaits; a movement
-- that nothing disturbs takes four waits for its timer at most. `publish` has fuel for two rounds
-- of its loop, which is enough for a queue that holds one message or more; emptying a queue has
-- fuel for as many rounds as it holds messages, and one more. The attempts to reach the broker are
-- a list of what the network answers, one after the other.
--
-- Not modelled: logging, the HTTP and DHCP servers, the loop that keeps the station connected, the
-- pins, heap and network stack of main, the mock clock of the tests in gate-core/src/sim.rs, and
-- vendor/mqtt-async-embedded, a copy of another project's library.
pub mod Broker
pub mod Controls
pub mod Debounce
pub mod DeviceConfig
pub mod Discovery
pub mod Firmware
pub mod Gate
pub mod Levels
pub mod Light
pub mod Messages
pub mod Motor
pub mod Mqtt
pub mod Physical
pub mod Prelude
pub mod Provisioning
pub mod ResetButton
pub mod Storage
pub mod Time
