-- ===== src/Lib.antt =====
-- Verification of the IOCP chat server: the bytes that come in and go out, the sessions, the users, the
-- rooms, the login through Redis, and the packet thread that ties them together.
--
-- The program has two layers. The network layer (Network/) keeps a pool of sessions, each with a send
-- ring; worker threads handle the completions of the I/O completion port, an accepter thread offers idle
-- sessions to new connections, and a sender thread sends what the rings hold. The chat logic (Content/)
-- keeps a pool of users, each with a ring of received bytes, and ten rooms; the packet thread cuts
-- packets out of the rings and calls one handler for each. A Redis thread checks passwords: it takes
-- tasks from one queue and puts the answers into another, which the packet thread empties. The
-- layers meet in the chat server (Content/chat_server.cpp): three delegates carry connections,
-- bytes and disconnections from the workers to the packet thread, and the send function carries
-- packets back into the send rings.
--
-- Files and what they are about:
--   Prelude, Prelude/*   shared names, tests into Bool, lists over native numbers, faults
--   Config               Network/network_config.h, Content/content_config.h, content_constants.h
--   Bytes                memory behind a pointer, C strings, little-endian fields, casts
--   Ring, Ring/*         Network/ring_buffer.{h,cpp} (class RingBuffer)
--   ErrorHandler         Network/error_handler.{h,cpp}
--   Session, Session/*   Network/session.{h,cpp}, overlapped_ex_define.h (class Session)
--   Network, Network/*   Network/network.{h,cpp} (class Network); Network/Runs: its threads interleaved;
--                        Network/Lifecycle: Start, Terminate and the threads
--   Packet, Packet/*     Content/packet.h, packet_id.h, error_code.h, packet_generator.h; the bytes of
--                        the packets that are sent
--   User, User/*         Content/user.{h,cpp} (class User)
--   Users, Users/*       Content/user_manager.{h,cpp} (class UserManager)
--   Room, Room/*         Content/room.{h,cpp} (class Room)
--   Rooms, Rooms/*       Content/room_manager.{h,cpp} (class RoomManager)
--   Redis, Redis/*       Content/redis_task.h, redis_manager.{h,cpp} (class RedisManager)
--   PacketManager, PacketManager/*   the handlers of Content/packet_manager.{h,cpp}
--   Dispatch, Dispatch/*             the queues and the thread of Content/packet_manager.cpp
--   Chat, Chat/*         what the rooms promise: an abstract chat that says where each user is, what it
--                        is for a state to hold it, and the handlers against it, one packet at a time and
--                        over runs (Chat/Runs)
--   ChatServer, ChatServer/*         the delegates, the threads of both layers joined by them
--                        (ChatServer/Runs), the start and the end of Content/chat_server.{h,cpp},
--                        with the start and the end of the packet thread and the Redis thread, and
--                        IOCP_Chatting/host.cpp
--   Tests, Tests/*       sample objects and the theorems applied to them
--
-- How code becomes definitions. A method has the name of its C++ method in snake_case and gives the
-- changed object. A `User*`, `Room*` or `Session*` is the number of the slot that it points to, and
-- NULL is none. `none` as the result of a whole function is undefined behaviour of the C++ program:
-- a dereference of NULL, a read past an allocation, an array overrun. What the sockets, the completion
-- port, the clock and Redis answer is an argument of the function that asks. The packets that
-- the chat logic sends are collected in the field `sent`, in the order of the calls, and the calls of
-- the network's callbacks in the field `events`. A method that holds a lock or works on an atomic is one
-- step, and so is a round of the packet thread, because only that thread touches what it changes apart
-- from the queues and the ring of a user, which another thread may append to between rounds.
--
-- Runs. Dispatch/Reach is the step relation of the chat logic: rounds of the packet thread, bytes and
-- notices from the worker threads, and rounds of the Redis thread, in any order. Network/Runs is that
-- of the network: rounds of the worker threads, visits of the accepter and of the sender, calls of
-- SendPacket, and the system's writes into the receive buffers, with a note of the sessions for which the
-- system owes the completion of an accept. ChatServer/Runs is that of all threads together, joined by
-- the delegates: what a worker reports is put into the queues in its own turn, and what the packet
-- thread sends is put into the send rings in its own.
-- Chat/Runs is that of the packet thread's packets with what each does to the abstract chat; its
-- `Orderly` says what the handlers rely on, and Chat/Ghost, Chat/Relogin and PacketManager/Stranded
-- are about packets for which it fails.
-- Session/Stream is that of one session's send ring: calls of EnqueueSendData and of BindSend, and send
-- completions.
--
-- Bounds. The loops are over lists or over a number of rounds that the source has too, except for two
-- joins: `join_workers` runs for a number of rounds of the workers, for which one more than the workers
-- and the completions that wait is enough, and `join_thread` for a number of steps of the packet
-- thread, of which one is enough when the thread is in its loop. Storages are lists of bytes; the
-- constructors take the uninitialised bytes as an argument. Fields of 8, 16 and 32 bits wrap where the
-- source can reach the bound.
--
-- Not modelled: the vendored Redis client (Content/RedisClient.cpp, RedisClient.hpp), of which only the
-- results of `Get` and `Initialize` are used, as the arguments `redis_get` and `connected`; how the system
-- makes a thread, a socket or the completion port; what uninitialised memory holds in a packet that is
-- sent, as the arguments `type` and `stale`; logging;
-- the joins of the accepter, the sender and the Redis workers, which are taken to return;
-- `Session::GetSessionIpPort`, which only prints; the memory behind a string's terminator, which
-- `CopyMemory` of a fixed length reads, as the argument `past_end`; and two rounds of different
-- threads inside one critical step, such as a receive into a user's ring while the packet thread
-- moves its front.
pub mod Prelude
pub mod Config
pub mod Bytes
pub mod Ring
pub mod Packet
pub mod User
pub mod Users
pub mod Room
pub mod Rooms
pub mod Redis
pub mod PacketManager
pub mod Dispatch
pub mod ErrorHandler
pub mod Session
pub mod Network
pub mod Chat
pub mod ChatServer
pub mod Tests
