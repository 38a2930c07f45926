-- ===== src/Lib.antt =====
-- S4 MK1 USB to MIDI: a bridge from the Traktor S4 MK1 controller to virtual CoreMIDI ports. USB
-- reports are decoded into control changes and published; feedback messages are turned into USB
-- writes.
--
-- Common holds what the modules share: tests on numbers, lists measured by native numbers, the bits
-- of bytes (shifts, masks, exclusive or), C++ int values as signed integers, and Printing, the
-- texts that the program writes as lists of character codes.
--
-- Protocol is src/s4_generic_protocol.cpp with its header. The mapping tables at the head of that
-- file are an argument (MapTables; s4_tables holds the source's). decode_input returns the new
-- state and the messages; decode_messages, decode_from, byte_messages, byte_view and bit_loop are
-- its parts, down to one flipped bit; encode_output is the feedback direction. Below it: Messages
-- (the form of a message), BitView and BitAnswers, and ByteView (decoding against independent
-- descriptions), Listening (a listener that keeps the bits of a report), Addresses (which
-- controller stands for what), Baseline (the state across reports), Drift (consequences of the
-- deadzone), Feedback.
--
-- Midi is src/core_midi_bridge.cpp. What CoreMIDI answers is an argument: Replies for the three
-- create calls of the constructor, PacketApi for the packet functions. new_bridge and delete_bridge
-- are the constructor and the destructor, with the calls that they make; send publishes one
-- message; read_proc runs the callback over the packets of one call.
--
-- Usb is src/usb_device.cpp. A method is a computation over the state UsbDevice that lists its
-- calls of libusb and returns, throws or reads outside an array (Result); libusb's answers are
-- arguments (OpenReplies, TransferReply). Connection has the constructor, the destructor, close,
-- open (open_usb), find_device and resolve_endpoint_types; Transfers has read_input, write_output,
-- read_from, write_to and write_to_timeout; Descriptors has print_descriptors, whose result is its
-- calls and its lines in order, describe_endpoint and hex_byte. A list or configuration that libusb
-- fails to give is not listed among the calls. Preserving and Mute carry relations on the state,
-- and the absence of transfers, through the methods.
--
-- Cli is the command line of src/main.cpp. A text is the list of its character codes. Cli holds
-- hex_dump and the parse functions, with what stoul and stoi of the standard library do: spaces, a
-- sign, a prefix, digits and an ignored rest, in 64 and in 32 bits; Decimal, HexBytes and
-- PrintedIds read numbers that were printed. Cli/Arguments holds AppOptions and parse_args: the
-- chain of tests on a flag is the table flags, in the order of the source, and the loop is
-- parse_flags, which reads the argument after a flag that has a value.
--
-- Init is src/s4_init.cpp. cmd and led_async take what libusb answers (CmdReplies, LedReplies): the
-- allocations, the codes of the submissions and the rounds of the event loop, each with the
-- callbacks it runs and whether the clock is past the deadline after it. A wait whose rounds end
-- before it does is still_waiting; no theorem reads it as a result. Flight says which transfers are
-- in flight and which are freed, Deadline and LedDeadline that cmd and led_async end. The calls are
-- listed (AsyncCall). Packets holds the LED dumps and the order of the steps; Sequence has the
-- drain of endpoint 0x84, whose callbacks touch only s_drain, and s4_mk1_init, which ends at the
-- first step that throws.
--
-- Bridge is run_bridge of src/main.cpp. Deltas is print_input_deltas, RawSysex the SysEx copy of a
-- packet, Feedback the feedback callback. Loop has connect, over a list of attempts (none where a
-- signal has ended the program), and the main loop as rounds over what read_input is answered
-- (bridge_round, run_rounds): Connecting and Waiting are about connect, Reads says which rounds go
-- on, Published is the specification of what is published, Rounds the proof, Ready and Warned what
-- a round keeps. Events puts the rounds and the callbacks in one sequence (run_events) and in one
-- step relation (Reaches); Whole is the function from its constructors to its destructors
-- (run_bridge). The list of attempts and the list of rounds end where the run that is looked at
-- ends. The lines of print_input_deltas (debug_lines) do not change the state and are no part of a
-- round.
--
-- App is the rest of src/main.cpp: Probe is run_probe, as one list of events (calls of libusb,
-- lines, sleeps), and Main is main, from the arguments to the exit code (main_run).
--
-- Every loop of these parts runs over a list, over eight bits or over the cycles that are left, so
-- no fuel is needed but in decimal, where it is the number itself. Bytes are numbers; a cast is the
-- remainder written out. The documented behaviour of MIDIPacketListAdd, that it takes what fits, is
-- the hypothesis TakesWhatFits. That libusb claims only an interface that the configuration has,
-- and that interfaces are numbered by their indices, as the USB specification has it, are the
-- hypotheses of Usb/Connection/Range (HasInterface, IsNumbered). The feedback callback runs on a
-- thread of CoreMIDI; here each call of it is one step between two rounds, so what a call does in
-- the midst of a round is not covered. Not modelled: the messages on cerr, the text of the usage,
-- the sleeps of connect, name(), which returns a constant, and what the two libraries do inside.
mod Common
pub mod Protocol
pub mod Midi
pub mod Usb
pub mod Cli
pub mod Init
pub mod Bridge
pub mod App
