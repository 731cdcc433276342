-- ===== src/Lib.antt =====
-- lkb: small Linux kernel modules, each of which shows one kernel facility. A module is one C file,
-- `<facility>/code.c`, with an init function that `insmod` runs and an exit function that `rmmod`
-- runs; `ioctl/ioctl.c` and `mmap/mmap.c` are programs that use the devices of the two modules. The
-- modules share no code. Two of them, mmap and ioctl, meet in the kernel all the same, at a device
-- number. Otherwise what they share is what the kernel has for them: `container_of`, the lists of
-- linux/list.h, locks, allocators, the memory of a process. Every Makefile names its module `code`, so
-- that no two of them are loaded at the same time.
--
-- The parts.
--   Common               native numbers with Boolean tests (Tests), the C type `int` (Int), lists and
--                        their entries (Lists), the outcome of code that reads memory and loops
--                        (Outcome), straight-line code as the list of its events (Events), runs of
--                        a step relation (Steps)
--   Kernel               what the modules use of the kernel, as records of operations and documented
--                        laws: container_of (ContainerOf), one circular list (ListHead), one whose
--                        readers go on while it changes (RcuList), a mutex and a spin lock (Locks),
--                        the radix tree (RadixApi), interrupt lines (IrqApi), a probe (KprobeApi),
--                        roots of kernfs (KernfsApi), copy_to_user and copy_from_user (UserSpace);
--                        `struct file_operations` (FileOps), register_chrdev (ChrdevApi); Examples
--                        meets ContainerOf, ListHead and IrqApi with concrete functions
--   RbTree               red_black_tree/code.c: `search`, `insert`; RbTree.Start has `print` and
--                        `start`, RbTree.Sorted a sorted list with the same insertion, RbTree.Calls
--                        any calls of the two
--   WorkQueueDedicated   work_queue_dedicated/code.c: `work_handler`, `print_list`;
--                        WorkQueueDedicated.Loading has `start`, `stops` and `my_interrupt` as steps,
--                        and WorkQueueDedicated.Queue these with the runs of the handler
--   LinkList             link_list/code.c: `start`, `print_list`
--   Thread               thread01/code.c: `km_init`, `start_mythread`, `km_exit`; Thread.Stop has
--                        the threads, which run `mfoo`, beside `start_mythread` and `km_exit`,
--                        as steps
--   WaitQueue            wait_queue/code.c: `start` and `mfoo` as steps
--   WorkQueueGlobal      work_queue_global/code.c: `start` and `do_work_handler` as steps
--   Rcu                  rcu/code.c: `start` and its loops, `destroy_old_structure`, `end`; Links is a
--                        list that meets the interface, Race the loop that deletes with callbacks
--                        between
--   RadixTree            radix_tree/code.c: `start`
--   Kitten               container_of/code.c: `start`
--   Interrupt            interrupt01/code.c: `code_init`, `code_cleanup`, `my_interrupt`
--   TaskList             task_struct/code.c: `start`
--   Kprobe               kprobe/code.c and kprobe1/code.c: the handlers, `start` and `stops`
--   Mmap                 mmap/code.c: init, exit and the file operations of the device; Mmap.Program has
--                        `main` of mmap/mmap.c
--   Ioctl                ioctl/code.c: the same, with `dev_ioctl`; Ioctl.Session has the calls from the
--                        load to the unload, Ioctl.Program `main` of ioctl/ioctl.c
--   Devices              mmap/code.c and ioctl/code.c in one kernel, where both want the major number
--                        150; Spec is the abstract device /dev/mmapchar, Files has the open files,
--                        Programs each of the two programs on the device of the other
--   Memory               memory1/code.c `code_init`, memory2/code.c `memory_init`
--   Kernfs               kernfs/code.c: `km_init`, `km_exit` and the operations of its root
--   Mutex, Spinlock      mutex1/code.c and spinlock/code.c: `start`
-- Each module has its definitions in its own file, its proofs in children named for what they
-- prove, and its examples in Tests.
--
-- How code becomes a definition. A pointer is a number, and 0 is NULL. Code that changes memory
-- takes the state as an argument and gives the new one back: `Memory` of RbTree is the objects with
-- their links and the global `root`; `State` of WorkQueueDedicated, LinkList and Thread is the
-- globals, the fields of the objects, the allocated objects, the list and the lines printed.
-- Straight-line code over the kernel is the list of the calls it makes and its result. What the
-- kernel chooses (the pointer that `kmalloc` returns, the result of `register_chrdev`, whether a
-- signal comes) is an argument. An interface has laws beside its operations: a `ListHead` gives the
-- entries of a list, and its laws are what list_add, list_add_tail and list_del do to them. A program
-- is a function of the operations of the device that it opens, and its output stands between the events
-- of the module. A printed line is an event, or a constructor of `Line`; the lines that only announce
-- a stage are left out.
--
-- Loops. The loops of `search`, `insert`, `print`, `for_each_process` and those of Rcu run on
-- fuel, and end in `out_of_fuel` or `none` without it; a theorem that they end asks for more
-- rounds than the tree is high, or than it has objects. A read where no object is gives `fault`.
-- Loops with a fixed number of rounds are recursion on the number.
--
-- Concurrency. Where two parts of a module run at the same time, they are one relation `Step` on the
-- state of both: a step is one statement of either part, a guard is the place that part has come to
-- and the condition that the code tests, and a run is `Steps`. The steps of the parts come in any
-- order, since a pause such as `msleep` orders nothing. The wait queue itself is the kernel's:
-- `wake_up` is its documented effect on a sleeper.
--
-- Numbers. The `int` values that `insert` compares are integers without bound, of which only the
-- order is used. `dev_mmap` works modulo 2^64. `moving_val` and the data of the lists stay small.
--
-- Not modelled. The exit functions that only print, but for `end` of rcu; the colour and the
-- parent of an rb_node, which `insert` does not set (`rb_next` is an argument of `print`);
-- interleavings of the work handler of work_queue_dedicated with itself, which a queue with one
-- thread excludes, and readers of the list of rcu other than `start`; signals to the thread of
-- wait_queue; interrupts and the unload of work_queue_dedicated where its queue could not be created;
-- a file of /dev/mmapchar that two processes share. The modules basic and basic_debug have no model: they only print.
pub mod Common
pub mod Kernel
pub mod Devices
pub mod Interrupt
pub mod Ioctl
pub mod Kernfs
pub mod Kitten
pub mod Kprobe
pub mod LinkList
pub mod Memory
pub mod Mmap
pub mod Mutex
pub mod RadixTree
pub mod RbTree
pub mod Rcu
pub mod Spinlock
pub mod TaskList
pub mod Thread
pub mod WaitQueue
pub mod WorkQueueDedicated
pub mod WorkQueueGlobal
