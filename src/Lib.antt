-- ===== src/Lib.antt =====
-- A TR-069 (CPE WAN management) client for set-top boxes: tr069_sample/libtr069/tr069.
--
-- The control manager (tr069_control.c) holds the state: event flags that say why a session with
-- the server is due, a queue of tasks, a queue of requests and the parameters to inform. The
-- services (tr069_service.c) let other processes and threads raise events and queue requests: they
-- work on the running manager, or on the status dictionary `tr069_status_ini` while none runs.
-- tr069_dump_environment and tr069_load_environment (tr069.c) carry the state over a restart in that
-- dictionary. A session (tr069_session.c) informs the server of the raised events, sends the queued
-- requests and serves the methods that the server calls, over tr069_rpc.c. The parameters of the
-- device form a tree (tr069_parameter.c), whose values the interface (tr069_interface.c) reads and
-- writes; the timers (tr069_timer.c) make the device inform the server from time to time. The STUN
-- client (tr111_control.c) keeps the public address of the device and takes requests over UDP, which
-- raise an event over the services.
--
-- Files:
--   Base, Base/*        tests on numbers, lists with native indices, C's int
--   Platform            the constants of the vendor's n_stb_tr069.h, sprintf "%d" and atoi
--   CStr, CStr/Compare  strncpy, strcmp, memcmp and the string in an array
--   Ini                 the dictionary of the iniparser library, a parameter, with its laws
--   Ring, Ring/*        tr069_task_queue and tr069_request_queue of tr069_control.h
--   Control             the types and the state functions of tr069_control.c; Control/Init its
--                       tr069_control_init; Control/Events, Control/Queues, Control/Kept and
--                       Control/Invariant what they do
--   Service             tr069_service.c; Service/Events and Service/Flags what its
--                       set_event does
--   Env                 tr069_load_environment and tr069_dump_environment; Env/Flags, Env/Requests
--                       and Env/Informs take the parts, Env/Dump and Env/Restore the whole
--   Rpc                 what the session needs of tr069_rpc.c; Rpc/Names the method names, Rpc/Kept
--                       what an answer of the server leaves alone, Rpc/Null where it reads through
--                       NULL; Rpc/Arguments and Rpc/Methods
--                       the methods that give the device a task, Rpc/Transfer, Rpc/Refusal and
--                       Rpc/Served what they do; Rpc/Params, Rpc/Reading, Rpc/Setting,
--                       Rpc/Attributes and Rpc/Setup the methods on parameters, Rpc/Checked and
--                       Rpc/Whole what setting values does, Rpc/Listed the answer with names
--   Session             tr069_session.c; Session/Progress and Session/Termination how it
--                       ends, Session/Order and Session/Trace what it sends first
--   TaskLoop            tr069_control_picktask_proc of tr069_control.c; TaskLoop/Quit its end,
--                       TaskLoop/Calls when it runs no session
--   Param               tr069_parameter.h and the additions and searches of tr069_parameter.c;
--                       Param/Prune its init, removal and enumeration, Param/Values its values and
--                       attributes; Param/Alloc, Param/Owners and Param/Lifetime follow the ids,
--                       Param/Places, Param/Walk, Param/Search, Param/Insert and Param/Duplicate
--                       the names, Param/Enumerate and Param/Setting the rest
--   Interface           tr069_set_config and tr069_get_config of tr069_interface.c;
--                       Interface/Config one after the other
--   Codes               the parameter codes of tr069_format_param_code in tr069_interface.c, and the
--                       lists of them that notices send
--   Notices             what asks for a session of its own accord: changed values and alarms of
--                       tr069_interface.c, the report of tr069_heartbeat, tr069_control_main_task and
--                       the first boot; Notices/LogMsg the log of tr069_timer.c; Notices/Rows,
--                       Notices/Raised, Notices/Flagged, Notices/Change, Notices/Boot and
--                       Notices/Stopped what they do
--   Stun                tr111_control.h and the requests that tr111_control.c sends; Stun/Parse what
--                       a message does, Stun/Request a request over UDP, Stun/Receive a packet,
--                       Stun/Task a step of the client; Stun/Reader and Stun/Framing read requests
--                       back, Stun/Attributes and Stun/Authentic follow a message, Stun/Change,
--                       Stun/Calm, Stun/Steps and Stun/Binding the steps
--   Timer, Timer/Due    the periodic inform of tr069_timer.c
--   Base64, Base64/*    base64_decode of cu_usb_config.c, its room, and RFC 4648
--   Tests               concrete inputs for the properties
--
-- A function that changes a structure through a pointer returns the new one beside its return code.
-- A read past the end of an array or through NULL is an outcome `none` of its own. Where an answer
-- of the server leads to such a read, the session has the outcome `faulted`. The counters of
-- the source are bytes: `number` of an event wraps at 256, and so the hypothesis that there are
-- fewer events than that. Loops run over an index with the rounds left, which the source's bound
-- gives, so that nothing runs out of fuel. The loop of a session runs on fuel: the answers of the
-- sends that succeed are a list, and 64 rounds for each of them are enough, since the task queue
-- that is worked on between two sends holds at most fifteen tasks. The loop over the attributes of a
-- STUN message has the length of the message as fuel, and each round moves on by four bytes at least.
-- The loops over the elements of a message take as fuel a bound on their number, since the documents
-- are those of a library.
--
-- Not modelled: the log, f_assert, semaphores (commented out in most of the source), saving the
-- dictionary to its file, the sockets of the STUN client, the list of parameters that
-- tr069_parameter_init adds (constants), the configuration service of config_sample (another
-- process, behind n_cfg_get_config and n_cfg_set_config, which are parameters), the HTTP daemon,
-- and the parts that are I/O or calls of SOAP, curl and the vendor's libraries. The session takes
-- the methods of the server as a parameter, and the functions tr069_libsoap_* of tr069_interface.c,
-- which work on the documents of libxml2, too; they are taken to return, which leaves out a Header or
-- Body element without a namespace, whose namespace they read through NULL. What the code relies on
-- in the vendor's constants is the hypothesis IsSane (Platform), in the dictionary Remembers (Ini), in
-- the methods of the server Keeps (Rpc/Kept), in the configuration Keeps (Interface/Config), which has
-- the room of each entry, since the service refuses longer values; each theorem that needs one takes
-- it.
pub mod Base
pub mod Platform
pub mod Ring
pub mod CStr
pub mod Ini
pub mod Control
pub mod Service
pub mod Env
pub mod Rpc
pub mod Session
pub mod TaskLoop
pub mod Base64
pub mod Interface
pub mod Timer
pub mod Param
mod Tests
pub mod Stun
pub mod Codes
pub mod Notices
