-- ===== src/Lib.antt =====
-- GNU Pth, the portable threads: a library of threads that give up control by themselves. A
-- scheduler, which is a thread of its own, runs one thread at a time and moves the threads between
-- five queues; all other parts are data structures and calls of the running thread.
--
-- The parts and their files, the paths of the code being those of the repository:
-- - Ring.antt models src/pth_ring.c and the ring macros of src/pth_p.h. Memory is the link fields of all
--   nodes and the fields of all rings, as functions of addresses, so that rings live side by side. A
--   predicate IsRing says which list of nodes a ring holds; Cycle.antt has the facts on linked cycles
--   that rings and queues share.
-- - Pqueue.antt models src/pth_pqueue.c, the queues of threads, with the priorities as the differences
--   that the code stores. Pqueue/Spec.antt is the sorted list that a queue implements.
-- - Sync.antt and its children model src/pth_sync.c: Lock the mutexes, Rw the read-write locks, Signal
--   the condition variables, Meet the barriers. The mutexes that a thread holds are a ring of Ring.antt
--   at the thread's address. A call is a function of a world: a state and a list of wake-ups, each with
--   what other threads did while the caller waited. A call that waits when no wake-up is left is asleep.
-- - Data.antt models src/pth_data.c, the keys for data of threads.
-- - Threads.antt and its children model src/pth_lib.c (pth_spawn, pth_suspend, pth_resume, pth_yield,
--   pth_thread_exists, pth_exit_cb, pth_join, pth_once, pth_kill), src/pth_cancel.c and
--   src/pth_sched.c (the start and end of the scheduler, the loop of pth_scheduler, cut at the switch of
--   contexts, and the last lines of pth_sched_eventmanager), over the sorted lists of Pqueue/Spec.antt in
--   place of the queues that implement them.
-- - Manager.antt and its children model pth_sched_eventmanager of src/pth_sched.c: Scan its first loop, Late
--   its last one, Round a whole pass and its repetition. The ring of events of a thread is a list here; the
--   threads are those of Threads.antt, and what Threads.antt leaves open, which events have occurred, is
--   computed.
-- - Signals.antt and its children model pth_raise of src/pth_lib.c and what the scheduler does with the
--   signals of a thread around a switch, over the state of Manager.antt.
-- - Clean.antt models src/pth_clean.c, the cleanup handlers.
-- - Message.antt models src/pth_msg.c, the message ports, over the rings of Ring.antt.
-- - Time.antt models src/pth_time.c.
-- - Event.antt and its children model src/pth_event.c: Make the constructor, Cycles the calls on rings of
--   events and pth_wait. Static events use the keys of Data.antt.
-- - Attr.antt models src/pth_attr.c, attribute objects bound to a thread or not.
-- - Util.antt models src/pth_util.c, without the calls on signals.
-- - High.antt and its children model src/pth_high.c: Read, Write, in Vectors the vectors, Socket receiving
--   and sending, Connect connecting and accepting, Select pth_select_ev, Sleep the sleeping
--   calls. The answers of the system to the calls made of it are a list, and so are the outcomes of the
--   waits; the bytes that the system takes are part of the result. The local vector of pth_writev_ev
--   has its number of entries, 32 on the stack or UIO_MAXIOV from malloc, and a copy that runs over it ends
--   the run with a result of its own, for what C leaves undefined.
-- - Base.antt passes on the names that all files share: numbers, tests, lists, memory, and in Base/Int.antt
--   the signed integers.
--
-- Cancellation: pth_wait is a cancellation point, and in Event.antt a caller whose cancellation is requested
-- and enabled ends there. The calls that wait in Sync.antt and High.antt are modelled for a caller that is
-- not canceled in its waits: a wake-up in their lists is one from which pth_wait returns.
--
-- Numbers: unsigned counts of rings, queues, mutexes, waiters and readers wrap around as they do in the
-- code; priorities, times and counts of type int or long are integers without bounds, apart from the
-- result of pth_time_cmp, which is cut to 32 bits. An address is a natural number and null is 0.
--
-- Fuel: the loops over rings and queues take fuel, and where a result is stated the fuel is the number of
-- nodes or a little more, which is what the loops need. The loop of pth_barrier_reach takes the number
-- of its rounds. The loop of pth_msgport_destroy can run for ever, and is given any fuel.
--
-- Parameters: what malloc and calloc return, whether a machine context could be set, the destructors of
-- keys, cleanup handlers, the code that runs when a thread is cleaned up; in Threads.antt which events
-- have occurred in a round of the event manager, in Signals.antt what sigaction finds, and in Manager.antt
-- what select, the pending signals and the functions of events give.
--
-- Not modelled: the allocation of thread control blocks (src/pth_tcb.c), the end of the main thread and
-- most queries of pth_ctrl, loads and the times of threads in the scheduler, polling, reading and writing
-- at an offset and waiting for signals in src/pth_high.c, the interface of POSIX threads (src/pthread.c);
-- and what only calls the system or is taken from elsewhere: forks, machine contexts, src/pth_syscall.c,
-- formatted printing (src/pth_string.c) and debugging output.
pub mod Base
pub mod Cycle
pub mod Ring
pub mod Pqueue
pub mod Sync
pub mod Data
pub mod Threads
pub mod Time
pub mod Message
pub mod Clean
pub mod Util
pub mod Event
pub mod High
pub mod Manager
pub mod Attr
pub mod Signals
