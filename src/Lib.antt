-- ===== src/Lib.antt =====
-- Culina: a cooking machine with a safety MCU, an application processor and the link between them.
--
-- The machine has two processors. The application processor sends requests over a serial link
-- (protocol/), the safety MCU (mcu/) serves them and runs the motor, the heater and the lid lock in
-- a control tick of one millisecond, within limits that no request can move. The application
-- processor (app/) runs cooking sessions by such requests, and the host build (sim/, cli/) runs both
-- on a simulated machine by text commands. This library models them as they are written in src/.
--
-- Base: shared names, tests on numbers, lists, words of 8 to 32 bits, bits, slices.
-- Common: src/common. Status and Result (result.h), Crc16 (crc16.cpp), RingBuffer (ring_buffer.h),
--   ParseNumber (parse_number.h, the numbers in arguments), Logging (logging.h and logging.cpp);
--   Floats is the single-precision arithmetic, which is a parameter of every definition that uses
--   it, with the facts of IEEE 754 that the theorems need as the fields of FloatLaws. Text is what
--   the firmware uses of the C library's strings.
-- Hal.Uart: hal/i_uart.h. The state of a UART holds the bytes that reads will give, the numbers
--   that writes will return, and the bytes accepted so far.
-- Protocol: src/protocol. Wire (c1link.h), FrameWriter (write_frame), FrameParser (feed), Link
--   (send, flush_tx, cancel_pending_tx, poll). A pointer to a buffer is the list of its bytes.
-- Sim: src/sim. Lid (lid_model.h) is the lid that the handlers lock, Watchdog and Board are
--   sim_board.h and sim_board.cpp, Plant the models of the motor, the bath and the scale, Transport
--   one direction of in_memory_transport.h. The values of the random noise are arguments.
--   ControlServer (sim_control_server.cpp) takes text commands from a socket; of
--   socket_transport.cpp, Sockets opens one to listen on and SocketTransport is a UART over one. The results of the system calls are arguments, and the open descriptors are in the state.
-- Mcu: src/mcu. Limits, Interlocks, MotorController, HeaterPid, CommandHandler, Telemetry and
--   SafetyMcu are the files of these names. The objects that share pointers in the source share the
--   state Device.Mcu here: each operation takes it and gives the new one. The hardware is part of
--   that state: the clock, the readings, the lid and the UART of this tick, and the heater's power.
--   SafetyMcu.Control, Gates, Outputs and Tick take the tick apart in its order; SafetyMcu.Reach
--   puts ticks in sequence, each on any state of the hardware.
-- App: src/app. McuClient (mcu_client.cpp), TelemetryStore (telemetry_store.cpp) and OtaUpdater
--   (ota/ota_updater.cpp) of the application processor; `McuClient::poll` and `request` are pump and
--   submit. Recipe (recipe/recipe.h), its Parser (recipe/recipe_parser.cpp), from the characters of
--   a file, and RecipeLibrary (recipe/recipe_library.cpp). Cooking holds the programs: TurboPulse,
--   GuidedRecipe, SousVide, and TimedModes (dough_mode.cpp, manual_mode.cpp, steam_mode.cpp);
--   Program is the sum of them, which the source reaches by virtual calls; Controller
--   (cooking/cooking_controller.cpp) is the session that starts, runs and shuts them down. It holds
--   the client, the updater and the watchdog that it has pointers to. Runtime
--   (application_runtime.cpp) is one millisecond of the whole processor.
-- Cli: src/cli/commands.cpp. Numbers are the words and numbers of a line, Commands the environment
--   and the handlers of `add` and `expect`, Execute the other commands and `execute_command`. A
--   chain of `else if` is a list of conditions with their outcomes.
-- System.SystemSim: system/system_sim.cpp, the machine and both processors in lockstep. What the
--   processors share with the machine is copied in front of each tick and back behind it.
-- Tools.C1linkDump: tools/c1link_dump.cpp, which takes a capture of the link apart into frames.
-- Programs: SafeStop and AppMain are apps/culina_app_main.cpp, the application processor as a
--   program with a console, which stops the heater and then the motor before it ends;
--   DeviceViewModel is apps/ui/device_view_model.cpp, what the user interface lets its user do.
-- Examples: tests and instances on concrete data.
--
-- Machine integers keep their wrap-around (u8, u16, u32, sub_u32, to_int16, to_int32). The receive
-- loops of the tick and of the client run on fuel, one more than the bytes that have come; every
-- round takes at least one byte, so this is enough. The scan of a capture runs on as much fuel as it
-- has bytes, the loop on the lines of the control server on as much as it has characters: every
-- round takes one away. All other loops are structural.
--
-- Parameters: `strtof`, `stof`, the reading of a float from a stream, the opening of files and the names
-- that reading a directory gives; the results of the system calls on sockets and of the console; what
-- the line between the processors gives to each end in a millisecond; the arithmetic of `double`, its
-- conversion to `float` and the text of a mass in the user interface.
--
-- Not modelled: the transport of Sim.Transport between the two UARTs of System.SystemSim, since the model
-- of a UART takes the results of its writes beforehand; the console and the runner of scenarios
-- (cli/repl.cpp, cli/script_runner.cpp); the texts and the progress for the display, and the signals
-- of the user interface; the other programs of apps/, which are glue; the handling of signals of
-- the operating system. The conversion of a float that is out of the range of an integer, which the
-- source leaves undefined, is left to the parameter Floats.
pub mod Base
pub mod Common
pub mod Protocol
pub mod Hal
pub mod Sim
pub mod Mcu
pub mod App
pub mod Cli
pub mod System
pub mod Tools
pub mod Programs
mod Examples
