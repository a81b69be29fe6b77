-- ===== src/Lib.antt =====
-- The kernel of GNU/Windows, a small operating system for x86-64 in C: models of its parts and
-- the theorems about them.
--
-- The parts and how they interact. The boot loader hands the kernel a GW_BOOT_INFO with the
-- memory map of the firmware. The physical memory manager builds its bitmap of pages from it and
-- serves runs of pages. The heap keeps a list of free blocks, sorted by address, in the memory
-- that it gets from there. The scheduler keeps the threads that are ready in a list linked
-- through the threads themselves and switches to the head of the list when the running thread
-- gives way; thread_create takes a slot of a fixed pool and a stack from the heap, and lays out
-- on the stack what the first switch to the thread pops. The file system keeps a tree of nodes in
-- a fixed pool, with the bytes of its files in buffers of the heap, and passes the calls for
-- drive D on. The network layer takes a frame from the card when it is polled, answers ARP and
-- echo requests by itself, and hands other packets to the functions that UDP and TCP have
-- registered; dns_resolve sends its query and waits for the answer through UDP. The file system
-- of drive D reads and writes sectors through one of three disk drivers, and keeps one sector in
-- its buffer. The ELF loader reads a file that lies in memory and writes its segments to their
-- addresses.
--
-- Pmm models kernel/mm/pmm.c, with the constants of kernel/include/gw/pmm.h and the structure of
-- kernel/include/gw/boot_info.h.
--   Pmm.Bitmap   pmm_bitmap as bytes, and bitmap_set, bitmap_clear, bitmap_test
--   Pmm.Pages    mark_range_used, pmm_alloc_page, pmm_alloc_pages, pmm_free_page, pmm_free_pages and
--                the counters, on the record Pmm of the static variables
--   Pmm.Boot     pmm_init: one descriptor of the memory map, the loop over the map, the recount and
--                the protected regions
--   Pmm.Count, Run, Alloc, Free, Mark, Map and Start hold the proofs, and Tests runs.
-- Fat models kernel/fs/fat.c. The disk drivers are a record of functions, and a drive that works
-- is one of its hypotheses. A call yields a value, fails, or is still in a loop when its fuel is
-- used up.
--   Fat.Disk      the static variables, read_abs and write_abs
--   Fat.Names     names of 8 and 3 characters
--   Fat.Table     the table of the clusters
--   Fat.Entries   dir_find and dir_alloc_slot
--   Fat.Walk      resolve_parent and resolve_full
--   Fat.Chain     the loops over the clusters of a file
--   Fat.Files     fat_mkdir, fat_read_file, fat_write_file and fat_unlink
--   Fat.Mount     fat_mount, fat_getcwd and fat_chdir
--   Fat.Drive, Cells, Alloc, Release, Sectors, Parts, Stored, Placed, Rounds, Write, Letters, Slots,
--   Find, Free, Appear, Single, Kept and Save hold the proofs: a drive as a function from sectors to
--   bytes, a chain that holds the bytes of a file, and a directory as a list of sectors.
-- Kbd models kernel/drivers/kbd.c. The controller behind its ports is a record of functions.
--   Kbd.Keys      the scan codes, the ring of characters and the interrupt
--   Kbd.Queue and Letters hold the proofs: the ring as a queue, and the character of a key.
-- Rtc models kernel/drivers/rtc.c. The two ports of the clock are a record of functions.
--   Rtc.Clock     the registers and rtc_read
--   Rtc.Registers holds the proofs: the time that the registers show.
-- Net models kernel/net/net.c, udp.c, dns.c, tcp.c and http.c. A frame is the list of its bytes,
-- and a read outside of it is none. For net.c, the network card and what TCP does with a packet
-- are parameters.
--   Net.Checksum  ip_checksum
--   Net.Frames    addresses, reads of a frame, and the frames and packets that are sent
--   Net.Ipv4      eth_send, arp_xmit, handle_arp, handle_ip and net_poll
--   Net.Send      net_ipv4_send, net_init, net_ping and the registered functions
--   Net.Udp       on_udp, udp_send and udp_recv
--   Net.Dns       parse_ip, the query, the answer and dns_resolve
--   Net.Tcp       segments and on_tcp; what TCP calls of net.c is the record Ipv4
--   Net.Calls     tcp_connect, tcp_send, tcp_recv and tcp_close
--   Net.Url       of kernel/net/http.c: parse_url, the request and the body of an answer
--   Net.Get       http_get of kernel/net/http.c, and net_http_get
--   Net.Sums, Packets, Receive, Exchange, Echo, Answers, Dotted, Queries, Replies, Stream, Urls,
--   BodyBounds and GetBounds hold the proofs.
-- Vfs models kernel/vfs/vfs.c; drive D and kmalloc are the record Services of what it calls.
--   Vfs.Paths     drives, separators, and the parts of a path, as lists of bytes
--   Vfs.Tree      the nodes, alloc_node and the lookups
--   Vfs.Files     vfs_chdir, vfs_mkdir, vfs_create_file, vfs_write and vfs_read
--   Vfs.Dirs      vfs_unlink, vfs_getcwd and vfs_init
--   Vfs.Alike, Create, ReadWrite, Names, Mkdir, Valid, Keep, Steps, Children, Unlink and Invariant
--   hold the proofs.
-- Heap models kernel/mm/heap.c on the bytes of memory, and takes its pages from Pmm.
--   Heap.Blocks   the header of a block, the static variables, and pointers to a link
--   Heap.Insert   insert_free
--   Heap.Alloc    expand_heap, heap_init, kmalloc_aligned and kmalloc
--   Heap.Release  kfree and the counters
--   Heap.Chain, Relink, Place, Store, Splice, Join, Free, Freed, Kfree and Exhausted hold the
--   proofs: the free list as a list of addresses and sizes, and what each write does to it.
-- Sched models kernel/sched/sched.c and thread.c, kernel/include/gw/thread.h, the counter of
-- kernel/arch/x86_64/cpu/timer.c and context_switch of kernel/arch/x86_64/cpu/switch.S.
--   Sched.State    the threads as a function from slots to records, a pointer to a thread as a slot
--                  or NULL; sched_add, dequeue, sched_pick_next, sched_on_timer
--   Sched.Threads  thread_create, thread_yield, thread_exit and the timer
--   Sched.Queue, Add, Pick, Switch, Turn, Start, Rounds, Frame, Create and Exit hold the proofs.
-- Elf models kernel/process/elf.c.
--   Elf.Load      the structures, read from the bytes of the file, the two loops, and elf_load
--   Elf.Copy, Segments, Rounds, Accept, Checks and Refuse hold the proofs.
-- Base holds what these share: numbers, tests, lists, bytes with their bits, and memory as a
-- function from addresses to bytes with little-endian reads and writes.
--
-- State and results. Static variables are the fields of a record that every operation takes and
-- returns. A function that returns 0 or -1 returns a Status, or an Option where it also yields a
-- value; a call that may not end, as a walk along next pointers, returns an Option whose none is
-- a walk that is out of fuel.
--
-- Bounds and fuel. The sums and products of pmm.c and of the loader wrap at 2 ^ 64 where the
-- source computes in uint64_t and the values are not bounded; addresses of memory are plain
-- numbers. The loop over the memory map runs on its number of bytes, with one to spare, and a
-- descriptor takes at least one. The walks along the run queue run on one more than the slots of
-- the pool, and the queue holds no slot twice. The walks along sibling links run on the number of
-- node slots, and names_up on the nodes in use; in a well-formed tree both are enough. The loop
-- of ip_checksum needs two rounds at most, and the one over the labels of a name one for each
-- byte that is left. A walk along a chain of clusters takes its fuel as an argument, since a
-- chain on the drive may be a circle; more fuel than clusters is enough. The second loop of
-- elf_load reads e_phnum in every round; it runs on the first e_phnum and 2 ^ 16 rounds, and its
-- index is a uint16_t. The other loops count down a number that the source computes.
--
-- Not modelled: the messages to the serial port, the registers other than the stack pointer,
-- which context_switch leaves on the stack of the thread, fat_list, the other drivers and what
-- else reads or writes device registers, the boot loader and the firmware, packages, processes
-- and system calls, the page tables, the console, and the assembly of the interrupts. The
-- allocator of the stacks is a parameter of thread_create. dns_resolve is a parameter of
-- http_get. The buffer in which dns_resolve builds its query is a list, with no bound. The pauses
-- between two polls of the network are left out.
pub mod Base
pub mod Elf
pub mod Fat
pub mod Heap
pub mod Kbd
pub mod Net
pub mod Pmm
pub mod Rtc
pub mod Sched
pub mod Vfs
