-- ===== src/Lib.antt =====
-- A verification library for the bare-metal RISC-V demos of this repository: programs for the QEMU
-- virt board that share a polled UART driver and little else. Each part below is a translation of
-- the named C files into functions on explicit state, with theorems about them.
--
-- The parts, and where they are modelled (paths from the repository's root):
--
--   src/uart.c                      Uart.antt. The 16550 is two lists, the status readings and the
--                                   received bytes to come; `uart_puts`, `uart_putc`,
--                                   `uart_put_uint`, `uart_put_hex`, `uart_put_dec`, `uart_getc` and
--                                   `uart_init` are functions on it that return nothing when a loop
--                                   never ends. The other parts print texts: Uart/Text.antt gives
--                                   the characters of the numbers in them.
--   src/sched.c, src/sched.h        Sched.antt. The task table, `task_create`, the trampoline and
--                                   `sched_run`. A task body is what it prints between its yields.
--   src/tasks.c, src/main.c         Tasks.antt, on the scheduler.
--   src/shell/cmds.c                Shell.antt. The line editor `read_line` over the characters
--                                   that `uart_getc` returns, `run_command` and `shell_run`.
--   src/virtio-blk/virtio.c         Virtio.antt up to DRIVER_OK, with the registers in
--                                   Virtio/Reg.antt, and Virtio/Queue.antt for descriptors, the
--                                   kick and the polling. The device is a parameter: an answer to
--                                   each register read, and a step on the shared memory.
--   src/virtio-blk/blk.c, bmain.c   Blk.antt and Blk/Main.antt. Blk/Conforming.antt says what is
--                                   relied on of a device.
--   src/preempt/*.c                 Preempt.antt and Preempt/Report.antt. A run is a list of timer
--                                   interrupts with their stamps; mtime is a function from the
--                                   number of a reading to its value.
--   src/smode/*.c                   Smode.antt, Smode/Sort.antt, Smode/Report.antt and
--                                   Smode/Boot.antt, for both builds. An array store outside its
--                                   bounds is an outcome of its own, `overrun`.
--   src/smp/*.c                     Smp.antt and Smp/Harts.antt. Two harts are lists of actions,
--                                   and a step is one action of either of them.
--   src/sv39/sv39_main.c            Sv39.antt, the tables in a memory of doublewords, and
--                                   Sv39/Run.antt, main and the S-mode phase. Sv39/Walk.antt is the
--                                   translation that the privileged specification defines, and
--                                   Sv39/Granted.antt the PMP check of the table reads.
--   src/pmp-priority/pp_main.c      Pmp/Priority.antt, Pmp/Priority/Payload.antt, where every fetch,
--                                   load and store of the payloads asks the PMP, and
--                                   Pmp/Priority/Report.antt, on a hart that boots with medeleg 0;
--                                   Pmp.antt has the NAPOT encodings, also of
--                                   src/pmp-napot-encode/pne_main.c and src/pmp-napot-size/
--                                   pns_main.c, Pmp/Matching.antt the matching rules of the
--                                   privileged specification.
--   src/mtimecmp/mt_main.c          Trials.antt, Trials/Statistics.antt and Trials/Report.antt. An
--                                   attempt is its stamps and the traps taken in its spin loop.
--   src/cycmon/cyc_main.c           Cycmon.antt, for the pairs of reads that the hardware gives.
--   src/lrsc-histogram/lrsc_main.c  Lrsc.antt. An iteration is the results of its sc.w and the value
--                                   that the load behind them reads.
--   src/plic/plic_main.c            Plic.antt. The board answers each register read from the history
--                                   of accesses and printed texts; Plic/Conforming.antt says what is
--                                   relied on of the interrupt controller and the UART in loopback.
--   src/misaligned/mis_main.c       Misaligned.antt, with the layout of the two asm blocks. The hart
--                                   traps or completes each access.
--   src/umode/umode_main.c          Umode.antt, for the csrs that the trap entry reads.
--
-- Timer.antt holds the deadline loop that preempt and smode share, Probe.antt what the single-file
-- demos share (statements that print or check, their counters, the checksum), Base.antt the helpers
-- on lists, options, numbers and bit masks.
--
-- Machine integers are natural numbers with their wrap-around written out: `% 2 ^ 64` for an
-- unsigned long, `% 2 ^ 16` for a ring index.
--
-- Fuel and bounds. The loops of the UART driver consume a list of readings. `sched_run` has fuel for
-- its rounds; Sched/RoundRobin.antt bounds the rounds that it needs. The deadline loop has fuel for
-- its turns; Timer.antt shows how much is enough, and one turn is when the clock does not run
-- a quantum between the two readings of one arming. `virtio_kick_wait` takes its number of polls as an argument, the
-- source's is 100000000; the theorems on it ask that the device is done within them. The attempts of
-- a timer trial are counted down from the source's 100, and its spin loop consumes a list of traps;
-- its histogram has no result when the largest value is 2^64 - 1, where the source's loop is
-- endless.
-- The wait of the PLIC demo for an empty transmitter has fuel, and one turn is enough on a
-- conforming board; its poll of the pending bit counts down the source's 1000000. The hardware walk
-- looks at three levels and a NAPOT register has 54 digits, as specified.
--
-- What is not modelled: the assembly (boot code, `swtch`, the register save of the trap entries),
-- the enable bits in mie and mstatus, memory fences, the finisher device, and the many single-file
-- probes of one CSR or instruction under src/, which are inline assembly around printed results.
pub mod Base
pub mod Uart
pub mod Probe
pub mod Sched
pub mod Tasks
pub mod Shell
pub mod Virtio
pub mod Blk
pub mod Timer
pub mod Preempt
pub mod Smode
pub mod Smp
pub mod Sv39
pub mod Pmp
pub mod Trials
pub mod Cycmon
pub mod Lrsc
pub mod Plic
pub mod Misaligned
pub mod Umode
