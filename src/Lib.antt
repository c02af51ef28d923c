-- ===== src/Lib.antt =====
-- baba.io is an asynchronous input and output library. A service owns an epoll reactor, a register
-- of events, a self pipe and queues. An asynchronous object (connection, connector, acceptor, timer)
-- owns a descriptor and one event for each of its operations. An operation stores a reaction in its
-- event, sets a bit in the event mask of the descriptor and arms it. The reactor
-- (`epoll_reactor::wait`) queues, for each report, a task that runs the reaction; the reaction makes
-- the system call and queues the completion on the strand of the object; the strand runs the
-- completion, which calls the user. The destructor of an object queues a final event, which goes
-- through the reactor tasks and the strand and deletes the event of the operation and itself once
-- the operation is no longer active.
--
-- The files and the code, by paths from the root of the repository:
--
--   Base            the tests, lists, integers and tables that the parts share
--   Library         detail/library: BlockingQueue, LockableQueue, SafeQueue
--   Os              detail/os/impl: EpollImpl, FileImpl, TimerImpl, and send and recv of SocketImpl;
--                   Kernel is the record of system calls, which is a parameter everywhere
--   Epoll.State     the records of detail/os/reactor/epoll: service, strand, reactor, descriptor
--                   and event
--   Epoll.Memory    steps on that state, which return a value or end in a fault
--   Epoll.Registrar detail/os/common/event_registrar.cpp
--   Epoll.Mask      the event mask of epoll_reactor_event.cpp
--   Epoll.Interrupter, Epoll.Strand, Epoll.Reactor, Epoll.Service
--                   epoll_interrupter.cpp, epoll_completion_strand.cpp, epoll_reactor.cpp and
--                   epoll_service.cpp
--   Epoll.Events    events/epoll_recv.cpp, epoll_send.cpp, epoll_timer.cpp, epoll_connect.cpp,
--                   epoll_accept.cpp
--   Epoll.Deletion  what `dispose` of the events has in common
--   Epoll.Arm       the functions that an object gives its events to arm the descriptor
--   Epoll.Proactor  the loops over reactor tasks and over completions, with what they run
--   Epoll.System    the threads of epoll_service.cpp together, as schedules of the rounds of their
--                   loops
--   Epoll.Io        io/epoll_async_tcp.h, epoll_async_timer.h, epoll_async_connector.h,
--                   epoll_async_acceptor.h
--   Kqueue          detail/os/reactor/kqueue: State (kqueue_reactor_event.h, kqueue_service.h), Memory,
--                   Interrupter, Reactor, Service, Events and Timer (io/async_timer.h), and Impl
--                   (detail/os/impl/kqueue_impl.cpp, kqueue_timer_impl.cpp)
--   Iocp            detail/os/reactor/iocp: State (iocp_reactor_event.h, iocp_service.h), Memory,
--                   Events (events/iocp_timer.cpp), Service (iocp_service.cpp, iocp_reactor.cpp) and
--                   Timer (io/async_timer.h); Impl and TimerImpl are detail/os/impl/iocp_impl.cpp,
--                   windows_file_impl.cpp and windows_timer_impl.cpp
--   Steps           what the states of Kqueue and Iocp share: code that returns a value or faults
--   CancellableTask inc/baba/cancellable_task.h and src/cancellable_task.cpp
--   Interface       the classes that users see, src and src/pimpl: Addresses, Sockets, Connectors,
--                   Acceptors, Timers, Services and Options
--   Net             detail/os/socket, and the calls of detail/os/impl/bsd_socket_impl.cpp with
--                   endpoints and options
--   Net.Wsa         detail/os/impl/wsa_socket_impl.cpp; Winsock is the record of the Windows calls
--
-- How the code is modelled. The whole memory that the parts share is the record `Service`: tables from
-- addresses to descriptors, strands and events, so that two objects that hold one event see the same
-- event. The closures of the code (`react`, `complete`, tasks) are values of data types with what they
-- capture, and one function for each runs them (`run_react`, `run_complete`, `run_task`,
-- `run_reactor_task`). A call of a user's callback is recorded in `calls`; what the callback does then
-- is the subject of later steps. Tasks and calls under a mutex are single steps. A failed assertion, a
-- call of an empty function, and an abort are faults; so is running out of fuel. The loops over queues
-- take fuel: as many rounds as the queue has entries, and one more, are enough. The waiting of
-- `blocking_queue::wait` is replayed against lists of the calls that others make between wake-ups.
-- The threads are interleaved by whole rounds of their loops (`Epoll.System.Turns`): a task that a
-- thread has taken from a queue runs before the next turn. Reports of the reactor, accepts, and the
-- start and destruction of operations are not turns. The phases of `Epoll.System.Invariant` are not
-- in the code; they say which queue refers to an event.
-- The kqueue reactor has a state of its own and the same faults; its events have a closure `initiate`
-- too, it counts the shared pointers to a descriptor, whose last one closes the handle, and its two
-- threads are composed by whole passes over their queues. The completion port has one too, where only
-- timers are objects, as in the code. The events of both carry the scope that the user gives, a number of
-- a lifetime, and the services which lifetimes have not ended; as in the code, nothing reads them.
-- Both services are read as they are meant where their loops take a pointer out of an optional.
-- Integers of a fixed width wrap where the code computes with them.
--
-- Not modelled: the start and the join of threads, datagram events (they are left out of the build),
-- wsa_activator.cpp, which only starts the socket library of Windows, and logging.
mod Base
pub mod Steps
pub mod Library
pub mod Os
pub mod Epoll
pub mod Net
pub mod CancellableTask
pub mod Interface
pub mod Kqueue
pub mod Iocp
