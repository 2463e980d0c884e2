-- ===== src/Lib.antt =====
-- NVMeVirt, a software-defined NVMe device in the kernel, as a shallow embedding: the latency model
-- of its drives, its zoned, conventional and key-value namespaces, its I/O workers, its admin queue and
-- its registers.
--
-- The parts and their files. `Prelude` holds what all share: Boolean tests, lists over the native
-- numbers, machine words with their wrap-around, and the data family `Returns`, total correctness.
-- `Channel` is channel_model.c: a link as a ring of time slots with credits (`chmodel_init`,
-- `chmodel_request`); its children show how the ring moves on (`Window`), how a request takes
-- credits (`Spend`) and how it is answered (`Request`). `Buffer` is `struct buffer` of ssd.h and its
-- functions in ssd.c. `Ssd` is the rest of ssd.c, ssd.h and ssd_config.h: `Config` the compile-time
-- configurations as values, `Params` the function `ssd_init_params`, `Layout` the structures and
-- `ssd_init`, `Timing` the functions `ssd_advance_nand`, `ssd_advance_pcie`,
-- `ssd_advance_write_buffer` and `ssd_next_idle_time`, which run on the channel models. `Zns` is the
-- zoned namespace on top of the drive: `State` the descriptors, resources, addresses and
-- construction (nvme_zns.h, zns_ftl.h, zns_ftl.c), `Manage` the management commands
-- (zns_mgmt_send.c), `Resources` what the counters count, `Request` and `Placement` what reads and
-- writes share, `Write`, `Zrwa` and `Read` the handlers of zns_read_write.c, `Report` the zone report
-- (zns_mgmt_recv.c), and `Dispatch` the function `zns_proc_nvme_io_cmd`. `Conv` is the conventional
-- namespace on the same drive (conv_ftl.c, conv_ftl.h): `State` an FTL and its construction, `Tables`
-- the mapping tables and the index of a page, `Lines` the write pointers, `Pages` the states of pages,
-- blocks and lines, `Collect` garbage collection, `Part` the parts of a namespace and what they share,
-- `Read` and `Write` the handlers, `Namespace` the construction, flush and dispatch. `Simple` is
-- simple_ftl.c. `Kv` is the key-value namespace (kv_ftl.c, kv_ftl.h, nvme_kv.h): `State` the entries of
-- the hash table, `Mapping` the functions on the table, with its children the chains (`Chained`), the
-- search (`Search`), a deletion (`Removed`), and the way of a new key through `find_next_slot`
-- (`Places`, `Extended`, `Reordered`, `Kept`, `Inserted`), `Allocate` the allocators of append_only.c
-- and bitmap.c, `Command` the commands and `struct kv_ftl`, `Perform` the functions
-- `__do_perform_kv_io` and `__do_perform_kv_batch`, `Iterate` the iterators with what a scan finds
-- (`Scanned`) and what a read gives to the host (`Answer`), and `Namespace` the construction and the
-- dispatch, with the tables that are reached (`Reached`). `Admin` is the dispatcher's side of the host (admin.c): `State` the
-- admin queue, the commands, and the pages that they fill, `Queues` the completions and the creation
-- and deletion of queues, `Posted` how a completion moves the queue on, `Identify` the identify and log
-- commands, `Run` the features, the dispatch and the loop over the queue, `Bars` the function
-- `nvmev_proc_bars` of pci.c with the registers of pci.h, `Dispatch` the function `nvmev_proc_dbs` of
-- main.c, which calls `Run` and the queues of `Worker`, and `Layout` the function
-- `NVMEV_NAMESPACE_INIT`, which gives each namespace its part of the storage. `Worker` is io.c: `State` and `Queue` the queue of a worker as indexes into an array,
-- `Doorbell` the submission and completion queues, `Prp` the transfer of data between the storage and
-- the pages of the host, `Run` a pass of a worker over its queue, which calls the transfer and fills
-- the completions. The handlers of a namespace give the target time at which `Worker` reports a
-- command. `Tests` applies the theorems to concrete drives.
--
-- State is passed explicitly: a handler takes the state and gives its result with the new state.
-- `none` stands for a fault: a failed `BUG_ON`, an access outside an array, a value never assigned,
-- or fuel that ran out. The clock is a function from the number of a reading to its value, and a
-- drive counts its readings. An array in which every index is written is a list, the ring's credits
-- are a function of the index. Operations that a write schedules for later are given back as a list.
-- Division by 0 gives 0 where a definition does not say otherwise; the theorems exclude it where it
-- matters.
--
-- Loops run on fuel. The loop over the slots of the ring has as much fuel as the ring has slots, the
-- transfer of a page as much as it has bytes, and the loops over the pages of a request as much as it
-- has pages. The loops over the slots of the hash table have one more than the table has slots, and a
-- scan as many as there are slots left. The walk through the queue of a worker has as much as the queue has entries, a transfer
-- of data as much as it has bytes. The collection behind a conventional command takes its fuel as an
-- argument, because the loop need not end.
--
-- The priority queue of pqueue.c, a library, is the record `VictimQueue` of the calls that the
-- conventional FTL makes, a parameter of every definition that uses it. The bitmap functions of the
-- kernel are the record `KernelBitmap`, a parameter of the bitmap allocator; the allocator of a
-- key-value namespace is the record `AllocatorOps`, as it is in the code. What the host has in the pages
-- of a new queue is a function of their address and number, `host_sq` and `host_cq`. A page that an
-- admin command fills is the structure written to it, kept with its address.
--
-- Not modelled: the transfer of data with DMA (io.c, dma.c), interrupts, the PCI configuration space
-- and the virtual bus (pci.c), module parameters, memory mapping, threads and proc files (main.c), the
-- layout of identify pages, log pages and zone reports in bytes, and the functions of conv_ftl.c and
-- bitmap.c that nothing calls. Locks are not modelled: each buffer operation and each completion is one
-- step. Memory allocation does not fail. Factors computed in floating point are parameters.
pub mod Prelude
pub mod Channel
pub mod Buffer
pub mod Ssd
pub mod Zns
pub mod Conv
pub mod Simple
pub mod Kv
pub mod Admin
pub mod Worker
pub mod Tests
