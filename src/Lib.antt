-- ===== src/Lib.antt =====
-- A model of the ATmega A7105 libraries and the sketches that run on them: the driver of the A7105
-- radio chip (libraries/a7105/a7105.cpp and a7105.h), the mesh stack on top of it
-- (libraries/a7105_mesh/a7105_mesh.cpp, a7105_mesh.h and a7105_mesh_packet.h), the serial interface to
-- a host (atmega_a7105.ino, of which examples/serial_mesh_interface/atmega_a7105.ino is a copy) and
-- the sample node examples/register_host_test/atmega_a7105.ino.
--
-- A node of the mesh has registers, each with a name and a value. Nodes send packets of 64 bytes.
-- A client of a node joins the mesh and starts operations on it (ping, list the registers of a node,
-- get or set a register by name, broadcast a value); A7105_Mesh_Update, called over and over,
-- handles packets that came in, ends operations and repeats packets. The serial interface reads commands
-- of a host, in parts that end at a comma or a line end, makes the call of the library that a command asks
-- for, waits for its end, and prints a line of answer; broadcasts of other nodes are printed, or kept in a
-- small cache until the host asks for them.
--
-- Files, and the code that they model:
-- - Prelude: the shared names; Arrays has arrays as lists, where a write past the end does nothing and
--   a read past the end gives 0, Copies has memcpy, memset, memcmp and strncpy, Bits the laws of masks.
-- - Packet: the layout of packets, the HOP/SEQ byte (_A7105_Mesh_Set_Packet_Seq and so on) and
--   _A7105_Mesh_Util_Is_Same_Packet_Sans_Hop.
-- - Register: struct A7105_Mesh_Register and the A7105_Mesh_Util_ setters, getters and the comparison
--   of names.
-- - Codec: _A7105_Mesh_Util_Register_To_Packet, _A7105_Mesh_Util_Packet_To_Register, the register
--   index, and the comparisons of a packet with registers.
-- - World: what the code asks of Arduino, SPI and the chip. Each access is an event, and the answers
--   are functions of the events before (Io), so that every behaviour of the chip is covered. The
--   volatile interrupt counters stand here, with the interrupts that come before an access. Bytes
--   that come in at the serial port (Io.serial_in) wait in the inbox of the world.
-- - Radio, Radio/Setup: the functions of a7105.cpp, as a state monad over World.
-- - Mesh: struct A7105_Mesh with all fields but those of debugging; Mesh/Valid and Mesh/Safe
--   have its invariant, and Mesh/Lawful the clients that keep it; the modules named Safe are about
--   it, part by part.
--   Client has the functions that a client plugs in, which may change the node in any way.
-- - Send: headers, the cache of responses and _A7105_Mesh_Send_Request, _Response and _Broadcast.
-- - Handled: the cache of handled requests, its expiry and _A7105_Mesh_Filter_Packet.
-- - Join: A7105_Mesh_Join, conflicts of node ids, and how an operation ends.
-- - Repeater: the three repeaters and the choice of the packets to repeat.
-- - Ping, Query, Values, Serve: the operations and the handlers of their packets.
-- - Update: _A7105_Mesh_Handle_RX and A7105_Mesh_Update.
-- - Blocking: the public calls A7105_Mesh_Join, A7105_Mesh_Ping and so on, which start an operation and,
--   without a callback of the client, wait for its end.
-- - Setup: A7105_Mesh_Initialize, the seed of the random numbers, and the setters of the client's data.
-- - Broadcasts: the cache of broadcasts of atmega_a7105.ino (broadcast_cache_append and so on).
-- - Text: strings, and numbers as text, in decimal and hexadecimal.
-- - Host: the globals of atmega_a7105.ino, what it prints, value_broadcast_callback, and its calls of the
--   library. That callback changes the globals while the library runs; the registers that it is called
--   with are kept in World.told, and the changes are made right after the call, in their order
--   (settle), since nothing else reads those globals meanwhile. REG_BUFFER is the register that the node
--   has as its broadcast_cache, as in the code.
-- - Console: get_serial_cmd and read_reg_format.
-- - Commands, Commands/Values: the commands of the host, one function each.
-- - Sketch: setup and loop of atmega_a7105.ino.
-- - RegisterHost: the sample node with its three registers and their callbacks.
-- - Tests: the theorems at concrete inputs.
--
-- Bounds and fuel: bytes, the 16-bit ids and the 32-bit clock keep their wrap-around, written as a
-- remainder. Loops over arrays take the number of rounds left. The loops that wait for the chip or
-- for the end of an operation have no bound in the code; here Io.patience bounds them, and a loop
-- that ends for that reason sets World.stuck, from where the model says nothing of the program. The
-- waits for the serial port have the same bound. World.stuck is also set where a response is repeated for
-- the number of a register that the node does not have, since the code reads the memory behind the
-- array of the registers there (_A7105_Mesh_Response_Repeat_Cache_Packet_Prep). The loops over the nodes that are present have
-- 255 rounds, which is enough since each round goes to a larger id below 255.
--
-- Not modelled: debug output; the count of free memory, which nothing calls; PinChangeInt, a library
-- of others; the build script.
pub mod Prelude
pub mod Packet
pub mod Register
pub mod Codec
pub mod World
pub mod Radio
pub mod Mesh
pub mod Send
pub mod Handled
pub mod Join
pub mod Repeater
pub mod Ping
pub mod Query
pub mod Values
pub mod Serve
pub mod Update
pub mod Setup
pub mod Tests
pub mod Broadcasts
pub mod Text
pub mod Host
pub mod Console
pub mod Blocking
pub mod Commands
pub mod Sketch
pub mod RegisterHost
