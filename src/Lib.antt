-- ===== src/Lib.antt =====
-- Verification of the network client of mohpc, a library that speaks the protocol of Medal of Honor:
-- Allied Assault: the byte streams and the encoding of its messages, the channel and the reliable
-- commands below the protocol, and what the client keeps of a game: snapshots, config strings,
-- downloads, requests to a server and messages that wait.
--
-- How the parts interact. A packet is received by the channel (Channel), which puts fragments
-- together and hands a stream on; the message in it is decoded in place with a key that a reliable
-- command takes part in (Encoding, Reliable); it is sent the other way by Transmit. All of them read
-- and write through the stream interface (Stream), and a message (Msg) packs its values into the
-- stream bit by bit (Codec) with a fixed code (Huffman). The entities of a snapshot are read against
-- those of an older one (Entities), and the snapshot becomes one of a ring (Snapshot), whose times drive
-- the client's (Time), a config string is stored in one buffer (ConfigStrings) and may be an info of
-- keys and values (Info), a block of a file goes to the download manager, which answers with
-- reliable commands (Download); strings are scrambled character by character (Chars). Before a game,
-- requests are sent to a server one at a time (Requests), and a dispatcher hands the answers to them
-- (Dispatcher). Scripts and command lines are split into tokens (Scanner, Tokens).
--
-- The files:
--   Base            shared names, Boolean tests on numbers, lists and ranges of them, results, stateful
--                   code with exceptions (Base/Effects), laws of exclusive or on words (Base/Bits)
--   Stream          mohpc-lib/Utility/Misc/MSG/Stream.cpp and include/MOHPC/Utility/Misc/MSG/Stream.h.
--                   Stream/Interface is what a stream promises (IMessageStream); Stream/Fixed and
--                   Stream/Dynamic are the two classes, which fill the interface in
--                   Stream/Fixed/Laws and Stream/Dynamic/Laws; Stream/Copy is streamHelpers::Copy
--   Encoding        mohpc-lib/Network/Remote/Encoding.cpp: XORValues and XOREncoding::convert over any
--                   stream that keeps the promise
--   Reliable        mohpc-lib/Network/Types/Reliable.cpp and
--                   include/MOHPC/Network/Types/ReliableTemplate.h: both sequences over their rows
--   Channel         mohpc-lib/Network/Remote/Channel.cpp: Netchan::receive. Channel/Words is the byte
--                   codec of mohpc-lib/Utility/Misc/MSG/Codec.cpp on little-endian words
--   Transmit        the same file: Netchan::transmit over any stream and the growing stream
--   Huffman         mohpc-lib/Utility/Misc/MSG/HuffmanTree.cpp (addBit, getBit) and the constant tree of
--                   include/MOHPC/Utility/Misc/MSG/HuffmanTree.h; Huffman/Table is the tree of
--                   CodecCompressor.h and CodecDecompressor.h
--   Codec           mohpc-lib/Utility/Misc/MSG/Codec.cpp: the bit codec over any stream. Codec/Writer
--                   and Codec/Rows say what it writes, the other children what it reads
--   Msg             mohpc-lib/Utility/Misc/MSG/MSG.cpp: a message of values of any widths
--   Chars           the same file: the scrambled strings and their tables
--   Snapshot        mohpc-lib/Network/Client/ServerSnapshot.cpp: setNewSnap, getSnapshot, checkTime
--   Time            mohpc-lib/Network/Client/Time.cpp on signed numbers (Base/Int)
--   Entities        mohpc-lib/Network/Parsing/Snapshot.cpp: readOldSnapshot, parsePacketEntities and
--                   parseDeltaEntity; Entities/Reference is the merge of lists they stand for
--   ConfigStrings   mohpc-lib/Network/Types/Configstring.cpp
--   Download        mohpc-lib/Network/Client/DownloadManager.cpp
--   Requests        mohpc-lib/Utility/RequestHandler.cpp: IncomingMessageHandler
--   Dispatcher      mohpc-lib/Utility/MessageDispatcher.cpp: the links of the handlers as a memory
--   Info            mohpc-lib/Utility/Info.cpp: the string of keys and values, and its readers
--   Queue           mohpc-lib/Utility/MessageQueue.cpp
--   Scanner         mohpc-lib/Utility/TokenParser.cpp: its loops over the characters of a text
--   Tokens          the same file: the parser over these loops
-- A component's file holds its state as a record and one function for each operation, named as in the
-- source in this language's spelling (addCommand is add_command). Its children hold the theorems, and
-- its Tests the concrete inputs on which they apply.
--
-- Numbers. size_t is taken as 64 bits and the other integers as the source declares them; where the
-- source wraps around, the remainder is written out (add_size, sub_size, add_u32, sub_u32). Loops
-- are recursion on the number of rounds that is left, or on the list that is gone through, so that
-- no fuel is needed; only the numbers of a snapshot's message are read for as many rounds as are
-- given, the fragments of a message are sent for as many, a dispatcher's loops have as many rounds
-- as there are handlers, and those over the string of an info one for each character; the last two
-- are proved to be enough. The tree of a code is climbed and descended for as many steps as it has
-- nodes, which is enough as no code has more than 11 bits. Comments are skipped for as many rounds as
-- there are characters, which is enough too. The lines of a script are counted without a bound. A
-- stream holds at most 2^60 bytes; below that no position wraps around.
--
-- What is a parameter: memory that is not initialized yet (a function to any bytes of the length),
-- the virtual calls of a request, what a handler on the dispatcher's list does, what a download
-- reads of a message and tells its handlers, the content of a snapshot and of an entity. The socket
-- is the packet it gives, the clock the time it shows.
--
-- What is not modelled: the player state and sounds of a snapshot, the adaptive Huffman tree of
-- compressed messages, the connection and the commands of a server, sockets, the macros of a script,
-- and the library's parts besides the network and the tokens of a script (assets, collision, movement,
-- files, user interface helpers), which compute with floating point or only move data in and out.
pub mod Base
pub mod Stream
pub mod Reliable
pub mod Encoding
pub mod Download
pub mod Snapshot
pub mod Channel
pub mod Requests
pub mod Queue
pub mod ConfigStrings
pub mod Chars
pub mod Entities
pub mod Dispatcher
pub mod Info
pub mod Time
pub mod Transmit
pub mod Huffman
pub mod Codec
pub mod Msg
pub mod Scanner
pub mod Tokens
