-- ===== src/Lib.antt =====
-- NanoNet-ULL: a Linux kernel module that takes packets in a netfilter hook, parses them, tracks TCP
-- connections, decides on market data and answers with frames of its own.
--
-- The parts, in the order in which a packet meets them. A name of the source without its prefix
-- `nanonet_` is the name of the definition that models it.
-- - Hook (src/nanonet.c): the hook. `handle` is a packet that is looked at, `admit` the checks on
--   it, `dispatch`, `process_tcp` and `process_udp` the two protocols, `process` the rest.
-- - Packet, Packet.Parse (src/micro_stack.c, include/nanonet.h): the headers and the parser;
--   Packet.Optimized (src/optimizations.c) the parser that leaves the checksums out. Checksum
--   (src/micro_stack.c) is the sum that they use.
-- - Validate, Config (src/security.c, include/nanonet.h): the checks of packets, configurations and
--   permissions. Conn (src/security.c): the table of TCP connections.
-- - Logic, Order (src/packet_processor.c): the application logic and the orders.
-- - Frame (src/response_sender.c): the frames of responses. Response (src/response_sender.c,
--   src/optimizations.c): their way to the driver; Pool (src/optimizations.c) the buffers.
-- - Stats (src/nanonet.c, include/nanonet.h): the statistics, which the hook, the table and the
--   device change. Debug, Text (src/debug.c): the error log. Errno: the return codes.
-- - Control (src/control_interface.c): the commands of the device. Lifecycle (src/nanonet.c, with
--   src/control_interface.c and src/debug.c): load and unload. Machine: runs of the module, as calls
--   of the hook and of the device one after the other.
-- - Generator, Generator.Main (tools/packet_generator.c): the datagrams of that tool, and its `main`.
-- - Tool, Tool.Main (tools/nanonet_control.c): the command line tool, whose system calls are calls of
--   Control. Layout (include/nanonet.h, src/control_interface.c, tools/nanonet_control.c): the sizes of
--   the structures that cross the device, as each side declares them, and the command numbers.
-- - Report (src/control_interface.c, src/debug.c): what the module prints.
-- - Base: names and lemmas that all share. Examples: packets and settings on which the code runs.
--
-- How the code is modelled:
-- - Numbers are natural numbers with the wrap-around of their width written out; an `atomic64_t` is
--   its bit pattern. The machine is a little-endian x86-64: a field of a packet is the number that a
--   load gives, and `swap16` and `swap32` are `ntohs` and `ntohl`.
-- - A packet is the list of its bytes, as in a linear buffer, and a pointer into it an offset. A load
--   outside is a fault, the `none` of `Option`; so are the panic of `skb_put`, the release of
--   something that is not held, and the division by 0. A packet is shorter than 2 ^ 31 bytes, so that
--   its lengths are not negative as an `int`.
-- - A call is one step, as under its lock. Calls at the same time on several processors, which the
--   plain fields of the statistics and of the configuration allow, are not modelled.
-- - Loops are recursion on lists, on the number of rounds, or on the accessibility of `<` for the two
--   that divide (the carries of the checksum, and the digits of a number), so no fuel is needed.
-- - The kernel is a parameter: `jhash_3words`, the results of `kmalloc`, `alloc_skb`,
--   `dev_get_by_name`, `dev_queue_xmit`, `__ratelimit`, `capable`, the copies from and to user space,
--   the registrations, and the clocks. So are its macro `_IOC` (`ioc`), of which the commands need
--   that it keeps direction, number and size apart, and `inet_aton` and the sockets of the C library.
-- - The first argument of a program, its name, is always there.
-- - src/micro_stack.c, line 85, does not compile as it stands; Packet.Parse says how it is read.
--
-- Not modelled: the lines that go to the kernel log only, the CPU affinity and the per-CPU data, which
-- nothing uses, and the scripts, tests and documents.
pub mod Base
pub mod Checksum
pub mod Packet
pub mod Text
pub mod Errno
pub mod Debug
pub mod Stats
pub mod Conn
pub mod Config
pub mod Validate
pub mod Pool
pub mod Order
pub mod Generator
pub mod Frame
pub mod Response
pub mod Logic
pub mod Hook
pub mod Layout
pub mod Control
pub mod Report
pub mod Tool
pub mod Machine
pub mod Lifecycle
pub mod Examples
