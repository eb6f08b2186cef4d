-- ===== src/Lib.antt =====
-- The drivers of the linux-drv repository: the PDM kernel module, pdm/driver, the frame of a
-- card's own driver, template/ukcDrvFrame, which the module calls when a card comes or leaves,
-- and the daemon that manages the processes of the cards, pdm/src and pdm/include.
--
-- Prelude holds the shared notation, Kernel the error codes, the mutexes and the log of calls
-- that leave a driver, with what the log says of classes and device numbers, Card the card types
-- and slot numbers of include/driver/drv_cmm_hdr.h. Pdm/Slots models
-- pdm/driver/src/pdm_drv_ext.c: State the static arrays, Registry the registration of callbacks,
-- Cards pdm_card_online and pdm_card_offline, Irq the requests for interrupts, Isr the interrupt
-- scan and the work handler; its other modules hold the proofs.
--
-- Ioctl models the command tables of include/driver/drv_toolkit.h and their dispatch. Pdm/Regs
-- models pdm/driver/src/pdm_drv_hw.c (Hw the mapping of the cards, Raw the copies between a
-- buffer and the registers) and the file operations of pdm/driver/src/regs_info_dev.c (RegsInfo).
-- Pdm/CardFile models pdm/driver/src/file_op.c: State the data behind the file and its start and
-- end, ReadPoll read and poll, OnOff write and ioctl. It calls Pdm/Slots when a card comes or
-- leaves. Pdm/SysFunc models pdm/driver/src/sys_func_set.c: Device its operations, Pending any
-- sequence of them. Pdm/FastPath models pdm/driver/src/slot_info_fast_path.c: Device the
-- callbacks of a slot and the file that calls them, Start the start and the end of the files.
-- Pdm/Module models pdm/driver/src/dmd.c, which starts and ends all of these: Start its
-- functions, Kept, Stoppable, Failing and Outcome how a start ends, Interrupt its interrupt. Each
-- directory's Tests holds runs at concrete inputs.
--
-- Daemon models pdm/src and pdm/include: State the entries and managers and the lists that link
-- them, Runtime CRtPrcInfo (rt_prc_info.cpp), Manager CPrcMngInfo and how its two subclasses
-- start and stop a process (prc_mng_info.cpp, static_prc_info.cpp, dynamic_prc_info.cpp), Cards
-- what a report of a card does, Timers the callbacks of timers and signals, Events the start of
-- the daemon (pdm_main.cpp) and its callbacks in any order, Stop its end. The children of Inv
-- prove what holds between two callbacks, Live and Filter what one callback does, Progress and
-- Ending what a run leads to. Head models the doubly linked lists of cplist.h: Heap the pointers
-- and the operations on them, Chains, Refines and Entries how they implement the lists of State.
--
-- Frame models template/ukcDrvFrame/src in the build for the kernel: State the data, Halves the
-- bottom half and the top half of an open file (bh/udf_dbh.c, bh/udf_dbh_ext.c, th/udf_dth.c),
-- File the file operations (file_op.c), Device udf_online and udf_offline with the device they
-- make and destroy, Module the start and the end of the driver (udf_drv.c). It calls Pdm/Slots
-- for interrupts and for the registration of the card type, and Pdm/FastPath for the slot's
-- callbacks. Memory and Resources read from the log what a driver holds; the others prove:
-- Opening and Closing of a file, Reading of polls, Control of ioctl, Mapping of mmap, Cards and
-- Leaving of a card's coming and going, Starting of the module's start.
--
-- Fpga models template/ukcDrvFrame/src/fpga/fpga_loader.c: Loader the steps of a download,
-- Outcome what they come to. Delay models template/ukcDrvFrame/src/ukc_usr/ukc_delay.c: Sleep its
-- functions, Target the time that a sleep ends at.
--
-- Not modelled: the build with __TIN_SIM_HW__, file offsets that wrap around, the names in the
-- arguments of a process; of the frame the build for a process (th_lib, bh_lib and the *_uif
-- files), which wraps each function in a system call, and the register accesses of the bottom
-- half. Of the daemon's assertions the one that guards the two signals is modelled, a failed one
-- ending the daemon; the others do nothing, as with NDEBUG. Pages have 4096 bytes. Every loop is
-- recursion on the list or the count that the source's loop runs over, but for two of Delay: the
-- normalisation of a time runs for at most as many rounds as it has nanoseconds, which is enough
-- since a round takes 10^9 of them, and the loop of clock_nanosleep, which ends when a call does
-- not answer a negative number, has as many rounds as its caller gives, more than the number of
-- that call being enough.
--
-- A function of the source takes the state of its file and the log of calls, and returns its
-- result, the new state and the new log. What is not the repository's code (the kernel, callbacks
-- of other modules, the hardware, the C library) is a parameter: an `Os`, or for the daemon a
-- `Sys`, that answers each call from the log so far; the functions that a card's own driver adds
-- to the ioctl table of the frame are functions on the frame's data and the log. Function
-- pointers are numbers. A statement runs to its end without another thread's statements between
-- its own: the interleavings inside a function are not modelled; the daemon has one thread. The
-- callbacks of the card type PDM, pdm_drv_main_init and pdm_drv_main_exit, are function pointers
-- in Pdm/Slots and Pdm/Module and functions in Pdm/CardFile.
pub mod Prelude
pub mod Kernel
pub mod Card
pub mod Ioctl
pub mod Pdm
pub mod Daemon
pub mod Delay
pub mod Fpga
pub mod Frame
