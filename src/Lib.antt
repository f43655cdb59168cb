-- ===== src/Lib.antt =====
-- GannetOS: memory, tasks, files, system calls, pipes and the network.
--
-- GannetOS is a small 32-bit kernel for the PC. kernel/mem/pmm.c hands out 4 KB frames of physical
-- memory; kernel/arch/x86/paging.c builds page directories and page tables on them;
-- kernel/proc/task.c keeps a table of eight tasks, each with a page directory of its own, and
-- switches between them; kernel/proc/pipe.c passes the output of one command to the next.
-- filesys/fs.c keeps files and directories on a drive; kernel/drivers/net sends and receives
-- packets: TCP and UDP on IPv4 on Ethernet.
--
-- Files and code:
--   Base, Bitmap   shared lemmas on lists, bits and numbers, and arrays of 32-bit words as bitmaps.
--   Pmm            kernel/mem/pmm.c. `Pmm` is the bitmap and the memory of the pool; `init`,
--                  `alloc_frame` and `free_frame` are pmm_init, pmm_alloc_frame, pmm_free_frame.
--                  Pmm/Frames is about one call, Pmm/Ledger about any sequence of calls.
--   Pipe           kernel/proc/pipe.c. `Pipe` is its static state; the operations have the names
--                  of the C functions. A string is a list of bytes, a null pointer `none`; `StringAt` is
--                  where a pointer leads, which may be the capture buffer.
--   Paging         kernel/arch/x86/paging.c. `Paging` has the words of memory that hold directories
--                  and tables, and the pools; paging_clone_kernel_directory is
--                  `clone_kernel_directory`, and so on. An entry is a number as the processor reads
--                  it. The boot code, which halts when it runs out of tables, returns `none` there.
--   Vm             the operations of paging.c that task.c calls, as an interface with the laws that
--                  task.c relies on; Paging/AsVm fills it with the paging code. In
--                  Paging/Translate, `translate` is the table entry of a page, and `user_access` tells
--                  whether the processor lets user code use it.
--   Task           kernel/proc/task.c, over any `Vm`. `Kernel` has the table and the registers that
--                  a switch loads. `Task.Create` has the ways to create a task, `Task.Schedule` the
--                  scheduler; each call of task_switch_asm takes the stack pointer that it saves as
--                  an argument, `saved`.
--   Disk           the drive that filesys/fs.c reaches by ata_read_sector and ata_write_sector: its
--                  sectors by number, any of which may refuse to be read or to be written.
--   Fs             filesys/fs.c. `Fs` is the drive with the static state: the bitmap of sectors,
--                  their number and the table of open files. `Fs.Paths` has the helpers on names and
--                  fs_find, `Fs.Files` fs_open, fs_close, fs_read, fs_delete and fs_stat, `Fs.Writes`
--                  fs_write, `Fs.Directories` fs_mkdir, fs_rmdir and fs_rrmdr, `Fs.Mount` fs_init.
--                  Fs/Tree is about the names as a tree, Fs/Layout about the sectors of the files,
--                  Fs/Calls about any sequence of calls, Fs/Faults about drives that refuse. A path
--                  is its bytes without the terminator, a name in an inode is the array of 128
--                  bytes; -1 is `none` or `false`; a negative descriptor is refused like one of 8 or
--                  more.
--   Net            kernel/drivers/net. A packet is the list of its bytes. `Net.Bytes` is
--                  net_byteorder.h, `Net.Checksum` and `Net.Ipv4` are ipv4.c, `Net.Udp` is udp.c,
--                  `Net.Tcp` is tcp.c (Net/Tcp/Input is tcp_handle_packet, Net/Tcp/Calls the calls),
--                  `Net.Arp`, `Net.Icmp` and `Net.Ethernet` the files of these names, with the names of
--                  the C functions. `Net.Link` is what ipv4.c calls: arp_resolve,
--                  ethernet_poll with task_yield, pit_ticks and ethernet_send. A handler returns its
--                  decision: `Delivery` is the switch over the protocol.
--   Syscall        kernel/proc/syscall.c: the checks of an application's pointers, and sys_puts and
--                  sys_putchar over the pipe model and any screen.
--
-- Numbers: a 32-bit word is a native number below 2 ^ 32. Sums of addresses do not pass 2 ^ 32, since
-- all memory is below 4 GB; where a sum or a difference may wrap, as an offset in a file or a sequence
-- number of TCP, `% 2 ^ 32` is written out. Task ids are counted by an `int`
-- that the model does not wrap. An id or an index of -1 is `none`.
--
-- Loops run over a list or over the number of steps left, which is the C loop's own bound, so no
-- fuel is guessed, with one exception: the wait for an address in ipv4_send goes on until the
-- clock has passed a time-out, so the model takes a number of rounds. The loop of sys_puts has as
-- many rounds as there are addresses behind its pointer. A round of fs_read or fs_write moves at
-- least one byte, so there are as many rounds as bytes. fs_rrmdr calls itself for names that get
-- longer and fit into an inode, so it has a depth of 129, which a theorem shows to be enough.
--
-- Not modelled: task_reap, the other system calls, the waits of icmp_ping, tcp_connect and tcp_send,
-- the interrupt handlers and assembly, the program loader, DNS and HTTP, the drivers, the shell, the
-- applications and the build tools.
pub mod Base
pub mod Bitmap
pub mod Pmm
pub mod Pipe
pub mod Paging
pub mod Vm
pub mod Task
pub mod Disk
pub mod Fs
pub mod Net
pub mod Syscall
