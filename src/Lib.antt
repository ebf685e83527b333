-- ===== src/Lib.antt =====
-- mcontrol is a library in C that controls motors. Clients link lib/ and talk by messages to a
-- daemon (daemon/), which hands each request to a worker; lib/ has the requests' handlers, which
-- call the driver of a motor; the one driver, drivers/mdrive, talks to MDrive units over serial
-- lines. The files here model these parts and show what makes them correct.
--
-- How the model corresponds to the code:
-- - State that C keeps in static variables or behind a pointer is a record that the operations
--   take and return; a mutex makes its critical section one step. Pointers that are compared or
--   stored are handles, numbers or indices of slots. Where the C code would leave an array, the
--   model has no result or says so; a `char` is its byte; bit fields keep their width by
--   remainders.
-- - Base: lists as arrays, tables of slots, signed integers by two parts, error numbers. Base/Text is
--   the text of C, "%d" and strtol.
-- - Clock: tsAdd and nsecDiff of lib/message.c.
-- - Callback: lib/callback.c, the timer list: Callback/Order on its order, Callback/Timer on
--   the rounds of the timer thread, with a request in between. It uses the times of Clock.
-- - Locks: lib/locks.c, the zero-ended list of lock ids of a driver.
-- - Registry: lib/driver.c, the driver classes and the cache of driver instances. mcDriverLookup's
--   loop, which can fail to end, is on fuel, and Registry/Lookup says when it ends. The regular
--   expression for connection strings is a function on strings; the initialisation of a driver is
--   an argument.
-- - Motor: lib/motor.c, the connection table of clients, over Registry, with the records of motor.h:
--   Motor/Connect on the table's well-formedness, Motor/Find on the search, Motor/Shared on drivers
--   that clients share.
-- - Requests: the handlers of lib/motion.c, lib/profile.c, lib/locks.c and lib/query.c: a handler finds
--   the connection in the table of Motor and calls its driver, whose entries are an argument;
--   Requests/Units has the conversions of distances, with floating point as an argument,
--   Requests/Profiles lib/profile.c, Requests/Queries lib/query.c, also with the driver's variables of
--   Mdrive/Variables, Requests/Safety when a driver is called, also with the entries of
--   Mdrive/Motion, and Requests/Locking what a lock of Locks does to requests.
-- - Daemon: daemon/worker.c and daemon/scheduler.c: Daemon/Queue has a worker and the thread that
--   enqueues as steps, Daemon/Progress runs a worker that is left alone, Daemon/Choice is the choice
--   of a worker.
-- - Trace: lib/trace.c, the trace subscribers: Trace/Exact is about mask and delivery, Trace/Dump is the
--   text of mcTraceBuffer, and Trace/Channels has the channels and the remote subscribers.
-- - Events: lib/events.c, the registrations of a client: Events/Balance on their count. Events/Server is
--   the server's side, the counts in the connections of Motor and mcSignalEvent: Events/Server/Delivery
--   follows an event to the callbacks of a client through Messages, and Events/Server/Agreement is
--   about registrations and counts together.
-- - Messages: lib/message.c, requests, responses and events as messages, and the client's sending and
--   waiting: Messages/Receive on its inbox, whose events go to the registrations of Events, and
--   Messages/Wait on a request with its response.
-- - Mdrive: drivers/mdrive. Mdrive/Checksum, Mdrive/Response, Mdrive/Reader, Mdrive/Classify and
--   Mdrive/Transaction are serial.c from the bytes of a line up to mdrive_communicate:
--   mdrive_process_response makes a Response, mdrive_async_read calls it and queues the responses,
--   mdrive_classify_response judges one, and mdrive_communicate sends, waits, judges and tries again.
--   Mdrive/Dialogue has the functions of serial.c and config.c that read and set one variable; they
--   take mdrive_communicate as an argument, which Mdrive/Dialogue/Line fills with the transactions.
--   Over it stand Mdrive/Config, config.c; Mdrive/Axis, the unit's settings and the conversions of
--   motion.c; Mdrive/Profile, profile.c; Mdrive/Motion, the moves and stops of motion.c; and
--   Mdrive/Variables, query.c, with its I/O ports in Mdrive/Variables/Ports. Mdrive/Microcode is
--   microcode.c, the upload, in Mdrive/Microcode/Files of a file by its lines, and, in
--   Mdrive/Microcode/Inspection, the labels, on units of any type.
--   Mdrive/Ports is mdrive_connect and mdrive_disconnect of serial.c, Mdrive/Queue is queue.c,
--   Mdrive/Subscribers is events.c.
--
-- Bounds and fuel: mdrive_process_response is recursion on the bytes that are left, as in the
-- code. The waits of mdrive_communicate are on fuel, twice what is queued or can still arrive and
-- two, and Mdrive/Transaction/Fuel shows that this is enough; what arrives is finite, as the code
-- itself has no bound for a unit that never stops to answer. Its tries are recursion on their
-- number. queue_flush is on fuel, the length of the queue and one. The inner loop of
-- mdrive_async_read is on fuel, the bytes that are not processed, and Mdrive/Reader/Progress shows
-- that each round takes one at least.
--
-- What the model takes as an argument: the clock and the outcome of timed waits, whether a process
-- is alive, whether a write to a line succeeds, what read() gives, the result of opening a port, what
-- a driver's initialisation returns, what the message queues of the operating system answer and hand
-- over (record Os, type Arrival), floating point, the id of a scheduled callback, the nested
-- transactions of mdrive_classify_response (record Nested), and, for microcode, the
-- transaction with the unit's error code and the functions of config.c (record Settings).
--
-- What is not modelled: the opening of message queues, lib/dispatch.c and the stubs that the build
-- generates, lib/microcode.c and lib/firmware.c, the functions of lib/events.c that wait for an event;
-- of the driver the estimates of times in motion.c, the change of the baud rate, some entries of
-- query.c, firmware and the search for units; that a transaction of motion.c or profile.c forgets
-- the loaded settings when it finds the unit rebooted, which only the transactions of query.c do
-- here; mcDriverRegister; two clients that take one callback id; latencies; processes, command lines
-- and bindings.
pub mod Base
pub mod Clock
pub mod Callback
pub mod Locks
pub mod Registry
pub mod Motor
pub mod Requests
pub mod Daemon
pub mod Trace
pub mod Events
pub mod Messages
pub mod Mdrive
