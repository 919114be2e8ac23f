-- ===== src/Lib.antt =====
-- The restaurant ordering system: a server that keeps orders, updater clients that make and change
-- them, and display clients that show them. Requests and notices are messages in a text format,
-- framed with a length, over TCP.
--
-- How the parts interact. An updater (src/updater_main.cpp) turns the user's lines into messages and
-- sends them (src/client_util.cpp, src/wire.cpp, src/io.cpp). The server has a thread for each client
-- (src/client.cpp): it checks the login against src/passwd_db.cpp, and then, for an updater, reads
-- messages, calls the server's functions (src/server.cpp) and replies; for a display it registers
-- the client, and sends what it takes out of the client's queue (src/message_queue.cpp), until it
-- cannot send. The server's functions put messages into the queues of the registered displays. A
-- display (src/display_main.cpp) keeps its own copy of the orders from these messages.
--
-- Which file models which part:
--   Except         src/except.cpp, include/except.h: Exception, and Result for what may throw
--   Util           include/util.h: split, trim, invert_map; Util/Parts has the reference definition of split
--   Model          src/model.cpp, include/model.h: Item, Order and their functions; Model/Heap the items
--                  as objects of a heap, with the pointers to them
--   Message        src/message.cpp, include/message.h: Message, its constructors, copies, ==
--   Numbers        std::to_string(int) and std::stoi as the program calls them
--   Wire           src/wire.cpp: Wire::encode and Wire::decode; Wire/Names the name tables,
--                  Wire/Fields the field readers, Wire/Orders encode_order and decode_order
--   Io             src/io.cpp: IO::send and IO::receive
--   OrderedMap     std::map<int, ...> as the server and the display use it
--   MessageQueue   src/message_queue.cpp: enqueue, dequeue; MessageQueue/Threads the same with every
--                  access to the mutex, the semaphore and the deque as a step of its own
--   Server         src/server.cpp: Server and its functions; Server/Requests their runs, Server/Script
--                  the same functions access by access
--   PasswordDb     src/passwd_db.cpp: authenticate
--   ClientUtil     src/client_util.cpp: connect_to_server, send_message, receive_message,
--                  parse_positive_int; ClientUtil/Program the frame of main with include/fd_guard.h
--   Client         src/client.cpp: chat, updater_loop, display_loop
--   Concurrent     src/client.cpp, src/server.cpp, include/guard.h: the threads of all clients, with
--                  every interleaving of their accesses
--   Listener       src/server.cpp, src/server_main.cpp: server_loop, client_thread_start, main
--   Display        src/display_main.cpp: the handlers, the main loop, print_order, refresh_display;
--                  Display/System the server with its displays, Display/Program main
--   Updater        src/updater_main.cpp: the commands and the main loop
--   Base           names of the libraries, native integers, lists and texts
--   Tests          runs at concrete inputs
--
-- How state is modelled. A C++ object is a record, a method that writes to it is a function that
-- returns the new record, a pointer that is never shared is the value itself (Model/Heap has the
-- pointers of an order and its copies). An `int` is an integer
-- (Base/Int); integers are made from text by std::stoi, which is modelled with its 32-bit range.
-- The server's ids count up from 1000 without a bound; the
-- overflow of the `int` behind 2147483647, which C++ leaves undefined, is not modelled. A function
-- that holds the server's mutex for its whole body is one step in Server/Requests and Display/System, where the
-- interleavings of the client threads are the sequences of these steps. Concurrent takes the steps apart
-- into single accesses, and refines Display/System; MessageQueue/Threads does the same for the calls
-- of one queue. Strings are lists of bytes.
--
-- Loops and fuel. `split` has one round more than the text has characters, `show_ℕ` room for n + 1
-- digits, and the updater's main loop one round more than there are input lines: the entries below
-- say so for the first and the last. The loops of a server thread need not end; they
-- are given by their first n rounds.
--
-- Sending may fail. Client has send_message with its result, on a connection that may do anything; in
-- Display/System and Concurrent each round of a display has the result of its send_message as an
-- argument, and both results are steps: a message that is sent reaches the display, one that is not ends
-- the loop, and the client stays registered until its thread has the mutex for unregister_display.
--
-- What is not modelled. Sockets and threads as such: what open_listenfd, accept, pthread_create and
-- open_clientfd return is an argument, and so is errno; signals (EINTR is a value of errno, the call
-- that ignores SIGPIPE is left out), the length of the one-second wait of dequeue, and running out of
-- memory except in server_loop, which handles it. rio_readn and rio_writen of the CS:APP library
-- (src/csapp.cpp) are the operations of the interface Io.Rio; Io.Framing.Stream says what is
-- documented of them on a connection that does not fail.
mod Base
pub mod Except
pub mod Util
pub mod Model
pub mod Message
pub mod Numbers
pub mod Wire
pub mod Io
pub mod OrderedMap
pub mod MessageQueue
pub mod Server
pub mod Display
pub mod PasswordDb
pub mod ClientUtil
pub mod Client
pub mod Concurrent
pub mod Listener
pub mod Updater
pub mod Tests
