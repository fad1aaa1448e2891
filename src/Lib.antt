-- ===== src/Lib.antt =====
-- OpenDeck: firmware update over the DFU stream, encoders and switches, and the OSC protocol.
--
-- Parts and how they interact.
--
-- - A client sends a firmware image as the command frames of app/common/src/dfu/upload (`Upload`).
--   The chunks carry a DFU stream (header, payload, end command), which
--   app/common/src/dfu/dfu_stream_parser (`DfuStreamParser`) checks byte by byte. It hands the payload
--   to a `DfuWriter` (app/common/src/dfu/writer), which gathers write blocks, erases the sectors
--   that they fall in and writes them to a flash area. `StagedUpdateWriter` of the firmware keeps
--   the header in front of the payload; `DirectUpdateWriter` of the bootloader applies the update, and
--   `StagedUpdateReader` of the bootloader hands a staged update to it.
-- - An encoder (app/firmware/src/io/digital/encoders) is sampled (`Encoders`), its two contacts are
--   decoded and debounced (`FilterHw`), and a step becomes OSC, MIDI and system signals (`Mapper`),
--   by way of the bounded counters of app/firmware/src/util/incdec and the global tempo and
--   programs of app/firmware/src/global.
-- - A switch (app/firmware/src/io/digital/switches) is sampled (`Switches`) and debounced (`FilterHw`),
--   and a press or a release becomes OSC, MIDI and system signals (`Mapper`).
-- - A MIDI message, a preset change or an OSC value becomes the actions of outputs (`Mapper` of
--   app/firmware/src/io/outputs).
-- - OSC signals become packets (app/firmware/src/protocol/osc/packet), which the class `Osc`
--   (app/firmware/src/protocol/osc/instance) queues and sends to up to four destinations; a packet
--   that it receives is parsed and becomes a signal to an output, a refresh or an answer.
--
-- Files.
--
-- - Prelude: shared names, tests and lists on native numbers (Tests, Lists), bit operations (Bits)
--   and signed numbers (Integers).
-- - Dfu/Format: the stream format and its description; Words: the header's words.
-- - Dfu/Backend: what the parser asks of a writer, as an interface; Laws: transfers step by step.
-- - Dfu/Parser: `DfuStreamParser`. Runs, Payload and Prefix follow it through the stages; Stream has
--   the language that it accepts, Errors what it does on rejection, Chunks that a stream may be fed
--   in pieces.
-- - Dfu/Upload: frames, acknowledgements and the command handler; Frames, Acks and Session prove
--   what they are for.
-- - Dfu/Flash: the flash area as an interface; Cells: what a driver guarantees, on its cells; Tiles:
--   where sectors lie.
-- - Dfu/Reader: the reader of the bootloader that hands a staged update to a writer; Cases and Applied
--   say what is in the flash area afterwards.
-- - Dfu/Writer: the three writers, told apart by the field `kind`. Sectors, Frontier, Bytes and
--   Blocks are the layers of the block buffer, Begin, Finish and Stored the life of a transfer,
--   Chunks a transfer in larger pieces, and Update the parser in front of a writer; Sample is a
--   concrete flash area.
-- - Util/IncDec, Global/Bpm, Global/MidiProgram: counters and the global values.
-- - Encoders/Filter, Encoders/Mapper, Encoders/Inputs: the three classes; Encoders/Remote and
--   Encoders/Configuration: the handlers that `Encoders` registers; Encoders/Signals: what they read
--   and publish.
-- - Switches: Filter is the debouncing, Mapper the mapper with its state (State) and messages
--   (Messages), Inputs the class `Switches` with its configuration (Configuration), Settings what they
--   read. Recent, Debounce and Debounced say when a sample counts; Refresh, Latches and Changes what
--   a reading and a refresh change, Presses and Counters what many readings do.
-- - Outputs: Mapper decides what a message, a preset or an OSC value does to each output; Levels
--   is about the levels. What applies the actions to the hardware is left out.
-- - Signaling: the signals that components publish to each other.
-- - Osc/Packet: OSC messages. Writer and Reader are the code of app/firmware/src/protocol/osc/packet;
--   Written, Decimal and Encode say what the writer appends, Scan and Parse what the reader makes of
--   it, RoundTrip and Safety join the two.
-- - Osc/Paths: addresses; Index: the index of an output. Osc/Signals: the packets of signals; Made:
--   that they fit; Sources and Documented: the messages of IO and of sensor signals as the sketches of
--   examples/osc/processing document them; Received: that these are what is read back.
-- - Osc/Destinations: the settings of destinations and their back-off (Address, Backoff). Osc/Node: the
--   class `Osc`; Send, Receive and Configuration are its member functions by what they do, and Sent,
--   Received, Settings and Stored their proofs.
-- - The files called Tests apply the theorems to concrete inputs.
--
-- How the code is read. A member function takes the object and returns its result beside the object
-- that it leaves. Unsigned integers are natural numbers, with the remainder written out wherever
-- the source may wrap. A `std::span` is the list of its bytes, an array is a list, and a call
-- through a reference goes to the state that the object holds. Log lines are left out; published
-- signals are kept in order. The loops of the source run over lists, or count down from a constant,
-- so no other fuel is needed: `prepare` counts down from the greatest block of 2048 bytes, and the
-- loop of `StagedUpdateReader` from the size of the payload, as a round copies at least one byte.
--
-- Parameters. The target UID is made by the build. `Hwa` is the flash driver, `HasCells` what NOR
-- flash does by its documentation: erased cells are 0xFF, and a write into erased cells stores its
-- bytes. The byte-order reads `sys_get_le16` and `sys_get_le32` are of Zephyr, and `bit_read`,
-- `constrain`, `map_range` and the greatest MIDI values of the zlibs library. The numbers of bits and the mask
-- of a byte, 8 and 0xFF, are also named by zlibs and written out here. The configuration of an
-- encoder or of a switch is a function of the section and the index, as `Database::read` gives it. For OSC,
-- `Platform` is the byte order of the machine and of Zephyr and the decimal base of zlibs,
-- `RingBuffer` the queue of zlibs and `Database` the section of OSC settings; an answer of the network
-- is an argument. A float is its pattern of 32 bits.
--
-- Not modelled: hardware and network drivers, the transports of frames (USB and WebSockets), the
-- threads of OSC with their loops, semaphores and locks, the database, the analog
-- inputs, and what applies the actions of the output mapper to the hardware.
pub mod Prelude
pub mod Dfu
pub mod Util
pub mod Global
pub mod Signaling
pub mod Encoders
pub mod Switches
pub mod Outputs
pub mod Osc
