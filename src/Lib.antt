-- ===== src/Lib.antt =====
-- llprof, a low-level profiler: the runtime library that a language binding links into the profiled
-- program, and the monitor that collects profiles from it.
--
-- The program's parts, and the files that model them:
-- - Registry: llprofcommon/call_tree.cpp, the record types that a binding registers
--   (llprof_add_counter_pv, llprof_add_event_pv), the ones that LLPROF_RECORDS makes active
--   (llprof_set_record_string, llprof_add_active_record), in Registry/Slots the loops over the counters
--   (llprof_rtype_start_node, llprof_rtype_end_node).
-- - NameTable: llprofcommon/class_table.cpp, from name ids to names.
-- - StrideVector: llprofcommon/data_struct.h, the growing array of records.
-- - Network: llprofcommon/network.cpp, SendFull, RecvFull, SendProfMessage, SocketConnectTo, HashStr.
-- - CallTree: llprofcommon/call_tree.cpp, the state of a thread (ThreadInfo) and the handlers of a
--   call and a return (llprof_call_handler, llprof_return_handler), over the registry and the name
--   table. CallTree/Links, Invariant, Refresh, Handlers and Calls hold the invariant and its proofs;
--   CallTree/Session runs sequences of calls, returns and collections; CallTree/Threads has the list
--   of threads (get_current_thread).
-- - Protocol: llprofcommon/llprof_const.h and CallTree_GetSlide, the messages and the bytes of records.
-- - Server: llprofcommon/server.cpp and the BufferIteration functions of call_tree.cpp, the answers to
--   the monitor's messages. Server/Messages has msg_handler and llprof_message_dispatch, Server/Queries
--   and Server/Dispatch what they do on a whole request and a whole stream.
-- - Webmon: webmon/data_store.h and webmon/data_store.cpp. Webmon/Receive, Webmon/MessageBuf and
--   Webmon/Samples read what Server and Protocol write; Webmon/Slices has the time slices of a
--   thread (GetTimeSlice, Accumulate, MergeTimeSlice), Webmon/Collect the loop of GetProfileData,
--   Webmon/DataStore the rest of it, Webmon/Texts the texts that ReceiveLoop reads when a connection
--   starts. Webmon/Answer, Webmon/DataStore/Asking and Webmon/Texts/RoundTrip put the two ends of a
--   connection together. Webmon/Nodes and Webmon/Current have the nodes and the current tree of a
--   thread (RecordNode, AddCurrentNode, TouchGNID, MarkNodeDirty), Webmon/Clear has ClearDirtyNode,
--   Webmon/Store has Store. Webmon/Totals holds the invariant of the tree and its proofs,
--   Webmon/Polls the calls of Store one after the other, as a relation on the state.
--   Webmon/Integrate has GlobalThreadStore::Integrate, Webmon/Sequence the numbers of GNIDToSeq,
--   Webmon/Dump the JSON of DumpJSON, with the writers of Http/Json. Webmon/Connections has
--   ReceiveLoop, Webmon/Global all the stores with GlobalDataStore::Integrate, NewDataStore and the
--   rounds of DataStore_ReceiveThread, Webmon/Requests DataStoreRequest. Http/Routes takes the last one
--   as an argument.
-- - Http: webmon/http.cpp and webmon/http.h. Http/Requests and Http/Responses parse and build texts,
--   Http/Json has the JSON writers, Http/Routes and Http/Client have client_handler.
-- - Bindings: pyllprof/pyllprof.cpp, rrprofext/rrprof.cpp and lua/llprofpm.cpp, the functions that a
--   program calls and the hooks of its interpreter, over the handlers of CallTree. What the interpreter
--   tells of a method or a code object is an argument. Bindings/Python/Refinement has the profile as
--   the program sees it.
-- - Base: shared notation, lists, maps, words and their lemmas.
-- The Examples files apply the theorems at concrete states.
--
-- How the code is modelled: a failed assertion, an access out of bounds and a read of memory that was
-- not initialised are `none`. Unsigned words wrap around where the code adds. A `std::map` is an
-- association list in the order of its keys. The arrays of a thread are lists; that their sizes in
-- bytes are below 2^31, as the `int` of free_stride_vector asks, is a hypothesis of the theorems on
-- whole runs. The bytes of StrideVector and the numbers of the stores are `none` where an `int` would
-- overflow. The clock and the other counters are functions that a
-- step takes as an argument, one for each loop index; the requests of one connection share them. A
-- socket's sending side has the numbers of bytes
-- that the kernel takes at each call; its receiving side has the pieces in which the bytes arrive.
-- Recursion is on the data, or on fuel: as much as there are slots in the loops over the counters,
-- where a round takes two steps at least; two rounds for each thread and one more in the loop of
-- MSG_REQ_PROFILE_DATA; one more than the bytes of the message in the loops over records; one more than the id of the node
-- where a walk over the parents starts, since parents have smaller ids; one more than the greatest id
-- where ClearDirtyNode starts, since children have greater ones.
--
-- What is not modelled: the mutexes, the threads of the operating system, socket set-up, the reading
-- of the environment, the allocation of memory beyond the sizes in StrideVector, the initialisation of
-- the modules of the interpreters, the PHP extension, whose names come from XHProf, and output for
-- debugging, such as DumpText. The limit of 1024 bytes on the text of a slide is left out: its six lines
-- are far shorter. Times and numbers in the requests of a browser are not negative.
pub mod Base
pub mod Registry
pub mod StrideVector
pub mod NameTable
pub mod Network
pub mod CallTree
pub mod Protocol
pub mod Server
pub mod Webmon
pub mod Http
pub mod Bindings
