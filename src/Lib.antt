-- ===== src/Lib.antt =====
-- ROSaic, the ROS driver for Septentrio GNSS receivers.
--
-- The driver receives bytes from a serial port, a TCP socket or a file. A circular buffer hands them
-- from the thread that receives to the thread that parses; the callback handlers walk over a buffer and
-- find the messages in it, `RxMessage` tests and reads a message, and a message that is read is
-- published with a time stamp. All paths below are from the repository's root; those of sources are in
-- src/septentrio_gnss_driver and include/septentrio_gnss_driver.
--
-- Which file models which part:
--   Prelude           shared names, Boolean tests, lists of bytes and laws of exclusive or
--   Crc               crc/crc.c and the table of packed_structs/sbf_structs.hpp: `compute16CCITT` and
--                     `isValid`. Crc/Reference is the division bit by bit that they are compared with.
--   CircularBuffer    communication/circular_buffer.cpp and .hpp. CircularBuffer/Refine has the bounded
--                     queue that it is compared with, CircularBuffer/Client sequences of calls.
--   MessageKey        the strings that name messages, as numbers and lists of bytes
--   Nmea              parsers/nmea_sentence.hpp and the cutting of a sentence into fields
--   Time              `timestampSBF`, `convertUTCtoUnix`, `convertUTCDoubleToSeconds` and the waiting
--                     between two messages of a file
--   Parsers           the four NMEA parsers of parsers/nmea_parsers, with the conversions of
--                     parsers/string_utilities.cpp and parsers/parsing_utilities.cpp that they use
--   RxMessage         communication/rx_message.cpp: `found`, `search`, `next`, `messageSize`,
--                     `messageID`, `isMessage`, `getBlockLength` and the tests for headers. The pointer
--                     `data_` is a position in the memory that the constructor was handed.
--   Read              communication/rx_message.cpp: `read`, all its branches, and `rx_id_map`. The state
--                     is the message, the global flags and a list of what was kept, slept and published.
--   CallbackHandlers  communication/callback_handlers.cpp and .hpp: `readCallback` as a loop of
--                     iterations on the state of the handlers, `handle` in six parts, and the choice of
--                     the block that completes a message made of several blocks.
--   AsyncManager      communication/async_manager.hpp: what each operation does to the members;
--                     AsyncManager/Threads has the two threads as a system of steps in any order. A
--                     handler or a loop is cut where it waits.
--   RosNode           node/rosaic_node.cpp: `defineMessages`. RosNode/Configure has `configureRx` and its
--                     exchange with the receiver, RosNode/Connect `initializeIO`, `connect` and
--                     `reconnect`, RosNode/Params the parameters, RosNode/Period and RosNode/Text the
--                     periods and texts that the commands are made of.
--   Contents          communication/rx_message.cpp: the satellites, status and service in
--                     `GPSFixCallback` and `NavSatFixCallback`, and `DiagnosticArrayCallback`;
--                     Contents/Fields the copies of one block, against msg/, Contents/Pose
--                     `PoseWithCovarianceStampedCallback` and `convertEulerToQuaternion`, and
--                     Contents/Fix the numbers of the two fixes
--   Structs           packed_structs/sbf_structs.hpp: the structs with the places of their members;
--                     Structs/Copies how much `read` copies into them, and Read/Copies what becomes of it
--   PcapReader        communication/pcap_reader.cpp: `read`, and the loop over the packets of a file
--   SerialPort        communication/communication_core.cpp: `initializeSerial` and `setManager`
--   FileReading       communication/communication_core.cpp: the loops of `initializeSBFFileReading` and
--                     `initializePCAPFileReading` over the bytes of a file, with `readCallback` as above.
--
-- Numbers are natural numbers; wrap-around at 16, 32 and 64 bits is written out where the source has it.
-- A throw is a value of the result types, and so is a read past the end of the memory by the check sum or by
-- a copy of a block. A single byte of a header, of a length or of a line end that lies behind the memory
-- reads as 0; the theorems on `readCallback` suppose that the memory goes on far enough. Where the
-- parsing thread would write past the end of its memory the thread stops in the model. The loops are recursive
-- on what is left, but for `readCallback`, which runs on `size + 2` rounds: one for each byte, one for
-- the new message and one that ends the walk, and for the loops over a file. The one over a PCAP file
-- runs on a round for each byte and one more; the one over an SBF file may not end, and has a
-- theorem for every number of rounds.
--
-- Not modelled: the lock itself (what it guards is one step), the callback as a step that takes long,
-- sockets and the opening of files and ports, libpcap, regular expressions, the ROS publishers, and the
-- constants that a GPSFix is filled with. In Contents a block is the memory
-- behind its first byte, and reads behind the block give what lies there. Parameters are the
-- C library's `strtol`, `strtof` and `strtod` and the arithmetic of floating-point numbers where they are
-- used, among them the cut of a hundred times a time to an integer, and its calendar in the time
-- stamps. A packet of a
-- capture file is the list of its bytes; what would be read behind its end, where the source is
-- undefined, is 0 or nothing.
pub mod Prelude
pub mod Crc
pub mod CircularBuffer
pub mod MessageKey
pub mod Nmea
pub mod Parsers
pub mod Time
pub mod RxMessage
pub mod Read
pub mod CallbackHandlers
pub mod AsyncManager
pub mod Contents
pub mod FileReading
pub mod PcapReader
pub mod RosNode
pub mod SerialPort
pub mod Structs
