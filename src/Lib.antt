-- ===== src/Lib.antt =====
-- Models of the crs library, a C++ toolkit of containers, synchronization primitives and device
-- communication. Each part below is a module of this library. The device manager keeps its
-- devices in an element map, the command line reads its scripts by the scanner of streams, the
-- tracer of regions is a std::map like the one under interval_map, the net peers cut what they
-- receive into packets, and the stubs of clients are net peers that are devices of the manager;
-- the other parts do not call each other in the code either.
--
-- Base: names of the libraries, Boolean tests, the Option monad, vectors as lists under
--   native indices (Base/Arrays), arithmetic of size_t modulo 2 ^ 64 (Base/Words), its masks
--   (Base/Masks), and buffers (Base/Bytes).
-- Heap models crs/heap.h, class heap over any comparison: _ancestor_index, _descendant_index,
--   _bubleup_heap (bubbleup), _bubledown_heap (bubbledown), insert, remove, peek, get and at.
--   Heap/Order has the heap order, Heap/Up and Heap/Down the two loops, Heap/Queue and
--   Heap/Remove the public methods.
-- Serial models crs/sc/serialbyte.h, class serialByte, and processIncomingBytes of
--   crs/sc/basic.rs232port.cpp. The record Port has the fields of the port (_inbox,
--   _incomingPacket, _outgoingPacket, _waitComSection, _waitSyncPacket, _inBuf), the bytes
--   that were written, and the number of calls of incomingData. Serial/Bytes has the packets,
--   with the exceptions of comCheckPacket as the cases of Outcome; Serial/Crc the check sum,
--   Serial/Stream and Serial/Receive the packets of a stream, Serial/Transaction a request
--   with its reply.
-- Rs232 models the serial port that hands on lines: processIncomingBytes, compileResponse,
--   getString and synchronize of crs/sc/basic.rs232port.cpp, class basicRS232port, and
--   handle_read, post, write, handle_write and want2write of crs/sc/posix.rs232port.cpp,
--   class posixRS232port. The answers of the device are a list. Rs232/Lines is about the
--   lines that come in, Rs232/Written about the bytes that go out.
-- Elements models crs/ude/data_core.h: element_list (add, remove, for_each, the destructor)
--   and, in Elements/Domains, element_map. Elements/Removal, Elements/Skipped and
--   Elements/Total are about the loop that both methods share.
-- Server models crs/ude/server.cpp and crs/ude/server.h, class device_manager:
--   register_device, unregister_device, _post, _send, register_request, proceed_request,
--   proceed_response, deliver_response and proceed_request_job (request_loop), with the
--   header of crs/ude/packets.h. It stands on Elements.Domains. Server/Outbox has the order
--   of the packets, Server/Delivery the way to the devices, Server/Job the thread that sends.
--   The method take of a device is an argument; one that posts a packet for other devices
--   waits for the mutex of its caller, and the delivery is none. Server/Stub models class
--   client_stub of the same files: handle_read, which stands on NetPeer and posts to the
--   manager, take and handle_write with the queue of packets; Server/Stub/Posted is about
--   what it receives, Server/Stub/Rounds about one call of handle_write and Server/Stub/Sent
--   about any calls.
-- Packets models crs/ude/packets.h and crs/ude/packets.cpp, class cTalkPacket: construct, the
--   constructor from a raw buffer, and the items with their range checks. Packets/Layout is
--   about the header and the size of the buffer, Packets/Items about its items.
-- NetPeer models crs/ude/net_peer.cpp, class net_peer: send_packet, handle_write, want2write
--   and recv_packet, and in NetPeer/Incoming handle_read, which stands on Packets. The
--   answers of the socket are a list. NetPeer/Transmit is about the bytes that go out over
--   any calls; NetPeer/Receive is about the packets in the buffer, NetPeer/Front about its
--   ends, NetPeer/Fill about a packet that comes in parts, NetPeer/Deliver about one read and
--   NetPeer/Stream about any calls.
-- Sync models crs/semaphore.cpp, crs/semaphore.h (Sync/Semaphore) and crs/barrier.cpp,
--   crs/barrier.h (Sync/Barrier) as step relations: a step is what one thread does between
--   taking the mutex and releasing it or falling asleep. Spurious wake-ups and time-outs are
--   steps too.
-- IntervalMap models crs/interval_map.h, class interval_map for unsigned keys, with the
--   operations of std::map that it uses; IntervalMap/Keys, IntervalMap/Reads and
--   IntervalMap/Values are about the entries and the values that keys read,
--   IntervalMap/Assign and IntervalMap/Assigned about the entries that assign leaves, and
--   IntervalMap/Contract about its methods as a whole.
-- DisjointSet models crs/disjoint_set.cpp and crs/disjoint_set.h, class disjoint_set: find
--   with the compression of the path, join by rank, make_set and clear. DisjointSet/Forest
--   has the forest with a function from items to roots, DisjointSet/Find, DisjointSet/Attach
--   and DisjointSet/Join the two operations, and DisjointSet/Contract the equivalence that
--   the joined pairs generate.
-- Parsing models parts of crs/parsing.cpp: predicate_scan_token and scan_token of strings
--   (Parsing/Tokens) and of streams (Parsing/Stream), search_forward, setCenter and
--   smart_numeral (Parsing/Text), and, with crs/parsing.h, readAndMeasureTable and both
--   versions of tab2fixed (Parsing/Table), with the widths that are measured
--   (Parsing/Widths), the columns of a table (Parsing/Columns) a stream without tables
--   (Parsing/Plain), and its fuel (Parsing/Fuel). A string is the list of the codes of its
--   characters, which are those of the C locale; a stream is the list of what is left to
--   read.
-- CmdLine models crs/cmdLine.cpp and crs/cmdLine.h, class reader: pprocess, get_sw with
--   use_script and read_script, next_command, reset and parseSwitch. It stands on
--   Parsing/Stream. CmdLine/Scripts is about the tokens of a script, CmdLine/Commands about
--   the arguments of a command line. Opening a file is a parameter.
-- IniFile models crs/oio/iniFile.cpp and crs/oio/iniFile.h, classes Var, Hub and cINIFile:
--   create, read, write, _write_contents with its sort, and size. The stream is read line by
--   line; a hub that meets the header of the next one leaves that line. IniFile/Lines and
--   IniFile/Entries are about lines and variables, IniFile/Sections, IniFile/LastHeader and
--   IniFile/Roundtrip about whole files, IniFile/Order about the sort, IniFile/Returns and
--   IniFile/Size about termination and size. IniFile/Access models the access by name, class
--   hub of crs/oio/FileVar.h and crs/oio/FileVar.cpp (get, append, erase, clear) with readvar
--   and writevar of strings and Booleans; IniFile/Names, IniFile/Values and IniFile/Edits are
--   about the names, the values under them and any calls.
-- Handles models crs/handle.h, class cHandle: bind, assign, unbind, addhandle, the
--   constructors and the destructor, over a store of handles and counters. Handles/Count has
--   the invariant of the counters, Handles/Release is about unbind, Handles/Place about the
--   handle that is put in, and Handles/Contract and Handles/Bind about the operations as a
--   whole.
-- Regions models crs/regions.h, class Tracer over the map of IntervalMap: append, remove,
--   clear, the three versions of erase, and select with its cache. Regions/Search is about
--   the search without the cache, Regions/Cache about the iterators that the cache keeps, and
--   Regions/Contract about any calls of the operations.
-- RingPool models crs/msdc/ring_pool.h, crs/msdc/ring_pool.cpp and crs/msdc/pools.cpp,
--   classes bit_mask_calculator, basic_pool, mem_pool, file_pool, ring_pool and its iterator.
--   RingPool/FindBit and RingPool/Metrics are about the masks, RingPool/Positions about
--   iterators, RingPool/Pages, RingPool/Writable and RingPool/Swapped about push and _swap.
--   The hooks _release and _fixLink of _swap are empty in the code and left out.
--
-- Numbers are natural numbers. The positions of the ring pool wrap modulo 2 ^ 64 under its
-- masks, which Base/Masks reads as remainders. The indices of the heap wrap modulo 2 ^ 64 and
-- the counter of the semaphore modulo 2 ^ 32, as in the code; the theorems on the heap ask for
-- fewer than 2 ^ 63 items. A pointer is a number, and the null pointer is 0. An access out of
-- range, which C++ leaves undefined, is none.
--
-- Loops run on fuel: _bubleup_heap on the index it starts from, _bubledown_heap on the size,
-- for_each and find of the disjoint set on the size plus one, compileResponse on the number of
-- bytes, the request loop on the number of packets plus one. Want of fuel is none for the heap,
-- for for_each and for find, so that a theorem that gives the result of a method leaves no case
-- without fuel; compileResponse takes a byte at least in every round. The packets of a buffer
-- are taken on the number of its bytes, as each takes some. The read of an ini file runs on the
-- number of lines, as each hub takes one; pprocess and the scanner of streams run on fuel that
-- stands for tokens, files and characters. The version of tab2fixed for streams runs on fuel
-- that is greater than the number of characters, as each round takes one. A loop over the
-- answers of a socket or of a device ends with their list, and the loop over the queue of a
-- stub with the queue.
--
-- Waiting on a condition variable inside comSection and synchronize is an argument: the
-- function that gives the state of the port when the wait ends. In the theorems on comSection
-- it is processIncomingBytes on any stream of bytes. The write to the port inside of comSection
-- is an append to the bytes written, which does not throw; the copy to the front of the buffer
-- in processIncomingBytes is exact for packets, and none where its areas overlap for lines.
--
-- Not modelled are the drivers, sockets, threads, timers and the event loop, which are calls of
-- the operating system; the numerics of crs/math, which are floating point; and so far the
-- clients of crs/ude, the swap thread and the records of crs/msdc, and the values of ini files
-- that are numbers.
pub mod Base
pub mod Heap
pub mod Serial
pub mod Rs232
pub mod Elements
pub mod Server
pub mod Packets
pub mod NetPeer
pub mod Sync
pub mod IntervalMap
pub mod Regions
pub mod DisjointSet
pub mod Parsing
pub mod IniFile
pub mod CmdLine
pub mod RingPool
pub mod Handles
