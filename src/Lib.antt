-- ===== src/Lib.antt =====
-- The multicore runtime under common/src/ti and the barriers of the sample kernels: how the two
-- Cortex-M3 cores (SysM3 and AppM3) and the DSP exchange messages with the Linux host (the A9), and
-- how the threads of a kernel wait for each other.
--
-- The parts of the program:
--
-- * The barriers. common/m3.c and common/dsp.c give every kernel callBarrier and callLocalBarrier,
--   spinning barriers on shared words. Barrier models one barrier with any number of threads as a
--   step relation: the critical section between the spinlock calls is one step (arrive), a read of
--   the counter in the waiting loop another. Barrier/Invariant and Barrier/Safety hold the
--   invariant and what follows from it, Barrier/Overtaken what happens when a barrier is entered
--   again too early, Barrier/Memory the words of the different barriers.
-- * The rings. common/src/ti/ipc/rpmsg/VirtQueue.c, with the layout of virtio_ring.h, shares two
--   rings of buffers with each other core: the host puts buffers on the available ring and the
--   firmware gives them back on the used ring. VirtQueue has the ring operations, VirtQueue/Layout
--   the addresses and VirtQueue_addAvailBuf, VirtQueue/Create the registry of the queues and
--   VirtQueue/Isr the mailbox interrupt on each of the three cores. Window, Fifo, Taking, UsedRing
--   and Traffic beneath it relate the rings to first-in first-out queues.
-- * The messages. common/src/ti/ipc/rpmsg/MessageQCopy.c gives tasks endpoints with queues of copied
--   messages. MessageQCopy has the operations on the endpoints of one core; Invariant, Receive,
--   Delivery, Blocks and Endpoints beneath it have their properties. MessageQCopy/Transport joins
--   the endpoints to two rings of VirtQueue: MessageQCopy_swiFxn drains the ring that the host
--   fills, and MessageQCopy_send to another processor takes a buffer of the other ring; Drain and
--   RemoteSend have their properties.
-- * The services. common/src/ti/srvmgr/ServiceMgr.c starts a server for every connection of the
--   host, by name, and remembers it by its endpoint. ServiceMgr has its tables, ServiceMgr/Services
--   creation and deletion; Tables, Registry and Lifecycle beneath it their properties.
-- * The address map. common/src/ti/resources/IpcMemory.c translates between device and physical
--   addresses through the resource table: IpcMemory, with IpcMemory/RoundTrip.
-- * The resource manager's client. common/src/ti/resmgr/IpcResource.c asks the host for resources
--   over an endpoint: IpcResource has the connection, IpcResource/Exchange the requests; Channels,
--   Requests and Success have their properties.
-- * The remote commands. common/src/ti/grcm/RcmServer.c runs functions by index for a client.
--   RcmServer has the tables of the functions, with Symbols, Indices, Removal and Invariant for what
--   the indices lead to; RcmServer/Jobs the job ids, the streams, the pools and the dispatch
--   (children Ids and Release); RcmServer/Process what each type of message does and a round of the
--   server's thread (children Replies and Rounds); RcmServer/Workers a round of a worker thread
--   (children Idle and Runs); RcmServer/Creation the creation and finalization of an instance, with
--   Needs, Fresh, Staff and Ends for how a creation ends. It is the variant with USE_MESSAGEQCOPY.
--   What a function does, whether there is memory and what the packets hold are arguments.
-- * The client of the remote commands. common/src/ti/grcm/RcmClient.c sends messages to such a server
--   and hands the answers to the threads that wait for them. RcmClient/Mailbox has
--   RcmClient_getReturnMsg_P as a step relation: the part under mbxLock between two waits is one
--   step; Sound, Stall, Energy, Rest, Weights and Orphans beneath it have its invariant and what
--   follows. RcmClient/Calls has the messages, RcmClient/Calls/Send the calls, with Remote, Names and
--   Jobs for a call that the server of RcmServer answers, and Ids for the message ids;
--   RcmClient/Instance has creation and deletion. It is the variant for MessageQ and IPC's lists;
--   what joins it to the server, modelled for MessageQCopy, is the packet behind the transport's
--   header.
-- * The hardware spinlocks. common/src/ti/gates/hwspinlock/HwSpinlock.c shares the locks of a core by
--   their ids: HwSpinlock, with HwSpinlock/Users for the counts of the users.
-- * The trace buffer. common/src/ti/trace/SysMin.c copies lines with their times into a ring that the
--   host reads: SysMin, with SysMin/Ring for the ring as the end of a log and SysMin/Lines for whole
--   lines. It is the variant without SMP; what sprintf makes of a time is an argument.
-- * The kernels. sysbios-rpmsg_matmul and sysbios-rpmsg_dotproduct (the directory unoptimized of
--   each) run a loop nest on two M3 cores with two threads each and on the DSP. Kernels has the
--   writes of a thread and their orders; Kernels/MatMul and Kernels/DotProduct the kernels, their
--   children the proofs. An assignment is one step, every += of the matrix product a step of its
--   own.
--
-- Conventions. A machine integer of w bits keeps its wrap-around (% 2 ^ w); a subtraction that can
-- wrap is written as the source's unsigned one. A handle is the index or the address that the source
-- uses. A call that ends the program (a failed assertion, System_abort) or leaves an array's bounds
-- is an outcome of its own.
--
-- Fuel. MessageQCopy_swiFxn loops on fuel; any fuel above the number of buffers that wait is enough.
-- The loop of MessageQCopy_delete has fuel too; the length of the queue is enough. A remote send
-- that finds no buffer takes the ring's later states as a list, one for each time the host wakes it.
-- Loops over an array of fixed size are structural recursion on the number of slots that are left.
--
-- Outside the model: the operating system. Its semaphores, its lists and its heap of blocks are a
-- record of operations and laws (Bios) with a concrete instance in Bios/Tests; cache maintenance,
-- interrupt masking and the text that is printed have no counterpart. ServiceMgr calls the model of
-- RcmServer_create, and gets the handle and the endpoint of a server, and whether RcmServer_delete
-- succeeds, as arguments. In RcmServer_Instance_finalize_P posting a semaphore and joining a thread
-- are taken not to fail. The calls of IpcResource are functions of the answers that they get, and name
-- what they do as a list of actions. In RcmServer a round of a thread is one step, and a queue of
-- packets is the list of their addresses, so what a second List_put of a packet that is still queued
-- does to the links is left out. In RcmClient a call of MessageQ_get that does not block is taken not
-- to fail. The OMX layer, power management and the watchdog are not modelled; the loader of
-- common/src/utils/elfload is a copy of another project. The Floyd-Warshall kernel, whose rounds the
-- barriers do not separate, the image kernels and the optimised variants are not modelled.
pub mod Base
pub mod Barrier
pub mod VirtQueue
pub mod Bios
pub mod MessageQCopy
pub mod IpcResource
pub mod ServiceMgr
pub mod IpcMemory
pub mod RcmServer
pub mod Kernels
pub mod SysMin
pub mod HwSpinlock
pub mod RcmClient
