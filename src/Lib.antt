-- ===== src/Lib.antt =====
-- RespirMesh: the C++ node of a mesh of ESP8266 chips and Linux machines.
--
-- A node has an orchestrator (RemCppCommon/RemOrchestrator), which holds the list of channels and
-- the pointers to a router, a logger and a connection controller. The controller opens channels and
-- adds them to the list; a channel hands the bytes that it receives to the orchestrator's
-- `receive_fn`, which hands them to the router; the router stamps the size in the packet header,
-- relays the packet or answers a topology report, and sends over the channels that the forwarding
-- type selects. The logger sends each log line to the root as a packet, through the same router.
-- Timers (`TaskLooper`) say when the periodic tasks are due.
--
-- The modules and the code that each is about:
--   Base          arrays, bytes, C strings and machine words over the native numbers
--   Looper        RemCppCommon/TaskLooper.hpp and TaskLooper.cpp; `set` is `set_interval`
--   Wire          RemCppCommon/RemHeaderTypes.hpp and protobuf/rem_nanopb_pb/mesh-packet.pb.h
--   Node          the state of a node, the calls that leave the program, and crashes
--   Channel       send, is_ok and ch_id of RemChannel, in its four classes
--   Router        RemCppCommon/RemRouter.hpp and RemRouter.cpp
--   Logger        RemCppCommon/RemLogger.hpp and RemLogger.cpp
--   Orchestrator  RemCppCommon/RemOrchestrator.hpp and RemOrchestrator.cpp, with `stop` of the classes
--   X86           RemCppCommon/X86_64: the channels of the Linux build and its controller
--   Wifi          RemCppCommon/ESP8266/SimpleWiFiScanner, the controller of the ESP8266 build
--   Esp           RemCppCommon/ESP8266: the channels of the ESP8266 build, and
--                 RemClientCPP/ClientEsp8266/ClientEsp8266.ino, its main program
--   Linux         RemClientCPP/client_libsocket/client_libsocket.cpp, the main program of a Linux node,
--                 and RemCppCommon/X86_64/X86LinuxHardware.hpp
--   Mesh          Linux nodes in a row and in a network of any shape, from the channel of one node to the
--                 reading thread of the next
--   EspOld        RemClientCPP/ClientEsp_OLD/ClientEsp_OLD.ino, the sketch before those classes
--   ClientR1      RemClientCPP/client_r1/client_r1.cpp, the Linux node before those classes
--   ClientT       RemClientCPP/client_t/client_t.cpp, the Linux node in between
--   Sample        a concrete node for the tests, which stand in the modules named Tests and in
--                 Mesh.NetworkTests
--
-- State. `Node` is the memory of one node: the channel objects by pointer, the list of channels, the
-- buffers of the router and of the logger, the counters of the classes, how often the clock has been
-- read and the socket library called, and the log of what has been handed to the transports, which
-- is what the theorems observe. A byte is a number, a buffer a list of them; a store in the header
-- is cut to 8 bits, a size to 16, a time stamp to 32. Code that can crash is a partial state
-- transformer (`M` of Node.Fault), whose `none` is undefined behaviour, an exhausted stack, an exit
-- of the process or a loop that never ends. A socket_exception of `shutdown` or `destroy` is an answer of
-- the channel's `stop`; where nothing catches it, it ends the process. A topology packet of less than
-- five bytes gets the decoder a length past the end of the buffer: `receive_fn` of the orchestrator
-- counts this as undefined behaviour, and the functions of the router behind it are for other packets.
--
-- Parameters. The clock, the device id, the sockets, nanopb and vsnprintf are fields of `Env`; the
-- n-th call of the clock or of a socket gives the n-th answer. `Encodes` states what nanopb documents
-- of its encoder: it stays within the buffer, fails only for want of room, and needs at most the 14 bytes
-- of `RespirMeshInfo_size` for a topology message.
--
-- Fuel. The logger calls itself when an encoding fails. Its fuel is `log_depth`, the number of calls
-- that fit on the stack; a depth of 1 is enough for every call whose text fits and whose encoder
-- keeps the promises, whatever the state. A loop `for (uint8_t i = 0; i < end; i++)` takes 256 rounds as
-- its fuel (`for_u8` of Base.Loops): with an end that 8 bits cannot reach no number of rounds is enough.
--
-- The older programs have states of their own: ClientR1 its globals and the packets for its parent,
-- ClientT its channels and globals, with the TCP library as a parameter; EspOld the globals of the
-- sketch and, in `calls`, the calls of its libraries, whose answers while one function runs are in
-- `Libraries`. A loop that prints reads past the end of what it prints, which is taken to do no harm.
--
-- The threads of a Linux node (the main loop, the accepting thread and a reading thread for each
-- connection) take turns in `Reachable` of Linux.Lifetime, in any order, one whole operation at a time.
-- Router.Race cuts `send_mesh_topo` in two and lets a reading thread in between; other ways in which two
-- threads share memory at once are not modelled. Between the nodes of Mesh each packet arrives
-- whole and alone in one read, which takes its first 64 bytes; in a network it may be lost or late, and
-- the nodes send topology reports and log lines.
--
-- Not modelled: what is printed on the console, the nodes in Python and Go, and the copy of the
-- SimpleNetwork library. The router that RemClientCPP/client_t calls is no longer in the repository and
-- is a parameter.
pub mod Base
pub mod Looper
pub mod Wire
pub mod Node
pub mod Channel
pub mod Router
pub mod Logger
pub mod Orchestrator
pub mod X86
pub mod Wifi
pub mod Esp
pub mod EspOld
pub mod ClientR1
pub mod ClientT
pub mod Linux
pub mod Mesh
pub mod Sample
