-- ===== src/Lib.antt =====
-- A verification of the simulation services of this repository (verilator_utils): the C++ code
-- that ties a simulated design to sockets, to other simulators and to a trace file.
--
-- The parts and their files
--   Queue         the interface of the queue that the servers share with their network threads
--                 (verilator_utils/readerwriterqueue.h, another project's header): operations and
--                 documented laws, taken as a parameter K, and a list as one instance.
--   Server        verilator_utils/Server.cpp: `Listen` from `accept` on is `listen_round`, one pass
--                 of its loop, and `listen_run`, the passes of one connection; `Send` is `send`.
--                 Server/Life is the life of a server: `Start`, `Listen` and the destructor as the
--                 steps of two threads, `Step`.
--   Uart          verilator_utils/UARTServer.cpp: `doUARTServer` is `do_uart_server`, made of
--                 `tx_machine` (from the design to the socket) and `rx_machine` (the other way);
--                 its statics are the records `TxLine` and `RxLine`.
--   Gpio          verilator_utils/GPIOServer.cpp and GPIOClient.cpp: `SendOutputs` is `server_send`
--                 and `client_send`; `doGPIOServer` is `do_gpio_server` with the loop
--                 `server_read`, `doGPIOClient` is `do_gpio_client` with the loop `client_read`.
--   Jtag          verilator_utils/JTAGServer.cpp and JTAGClient.cpp: `do_jtag_server` with the
--                 switch `jtag_command`, and `do_jtag_client`. Jtag/Remote has the network thread
--                 and the calls of `doJTAGServer` as steps of one access of a queue each (`Listens`
--                 and `Calls`), and Jtag/Remote/Obey what the commands mean one after the other.
--   Client        `Start`, `Stop` and the destructors of JTAGClient and GPIOClient: `jtag_start`,
--                 `gpio_start`, `stop` and `destroy`.
--   Sim           verilator_utils/verilator_utils.cpp: `doCycle` is `do_cycle`, and the methods that
--                 call a service on its beat are the functions named `…_tick`. `parseOpts` is
--                 `parse_opts` in Sim/Options, `loadElf` and `loadBin` are in Sim/Load.
--   Script        the steps of a program that may end by `exit`, with loops, and in Script/Refines what
--                 it means that one follows another.
--   Fifo          how the benches of ahb3lite_remote_bridge2/bench wait for a FIFO of the design, put
--                 a word and get one (`put` and `get`; the code is repeated in each bench), and in
--                 Fifo/Served what they rely on of the design (`Serves`).
--   Rig           the class, `_doCycle` and `doCycle` that those benches repeat: `Rig`,
--                 `half_cycle` and `full_cycle`. What lies outside, the verilated design among it, is
--                 the record `World`; the ports that a bench connects are the record `Wiring`. Rig/Main has
--                 the frame of their main programs, and Rig/Launch how they start.
--   Phy           ahb3lite_remote_bridge2/bench/jtag_phy_tb.cpp: `SendReq` and `GetResp` are
--                 `send_req` and `get_resp`; the register accesses, `device_count` and `ir_len` keep
--                 their names, and the body of `main` is `session`. The class and `main` are in
--                 Phy/Bench, the searches at the ends of `device_count` and `ir_len` in Phy/Search.
--   Swd           ahb3lite_remote_bridge2/bench/swd_phy_tb.cpp: the packets, and in Swd/Bench the
--                 class and `main`, and in Swd/Session what is sent, packet by packet
--                 (`exchange`).
--   Adiv5         `write`, `read`, the register accesses and the body of `main`, which
--                 swd_adiv5_tb.cpp, jtag_adiv5_tb.cpp and debug_mux_tb.cpp of the same directory
--                 repeat; Adiv5/Registers says what an ADIv5 debug port and the registers behind it
--                 promise (`port`), and what a session should find out of them (`wanted`). SwdAdiv5, JtagAdiv5 and Mux are the three benches;
--                 Mux/Main has what the last one relies on of a design that switches (`Switched`).
--   Soc           cm3_min_soc/bench/verilator/tb.cpp: the body of the main loop is `body`, a pass of
--                 it `pass`, the loop `run`, and the whole of `main` is `program`, as in the benches.
--   Intercon      ahb3lite_intercon_test/bench/verilator/tb.cpp: the body of the main loop is `body`,
--                 and the loop `run`; its class VerilatorTbUtils is the argument `Utils`.
--   Common        shared names, Boolean tests, lists, fixed-width arithmetic, and bit lemmas.
--   Tests         every result at concrete arguments.
--
-- How they interact. A server owns two queues, named from the socket's side: `tx` is filled by the
-- network thread and emptied by the service at a tick of the simulation, `rx` the other way. A
-- service runs in the thread of the simulator. Server, Uart, Gpio and Jtag take a call of it and a
-- pass of the network loop in one piece; Jtag/Remote takes them apart into their single accesses of
-- the queues. The queue is made for one producer and one consumer, and its operations are taken to
-- be atomic. Each result says what it takes of the contents of the queues.
--
-- Conventions. Numbers are natural numbers and the wrap-around of `uint8_t`, `uint32_t` and
-- `uint64_t` is written out. A field `data` of the source is called `payload`. Undefined behaviour
-- is a value of its own: `none` for a shift by too much or a store behind an array in Gpio and
-- Phy/Search, for a load into the memory of a bench, which is NULL, and for a GPIO command that reaches
-- behind the port IRQ in Soc, and `overflowed` in Server. `fail`, which exits, is `exited`, and in the benches `none`, as
-- is a loop there that lacks fuel. The loop that empties a queue in `doGPIOServer` runs on fuel, of
-- which one unit per queued byte and one more suffice, and `serve` of Soc gives it as much; a loop that
-- waits for a FIFO takes one unit per cycle and one more, and the loop that halts the processor one
-- per try. Runs over many ticks take their number of ticks. The verilated designs are arguments: a
-- result about a bench names what it takes of its design.
-- Server/Life does not follow a server on which `Start` is called twice (`doubled`).
--
-- Not modelled: printing; the calls of the operating system, of which Server/Life and Client tell only
-- the answers; the hardware description files, and the scripts that generate code; argp, which
-- finds the options of a command line; and the queue and the utilities of other projects, which are
-- arguments.
pub mod Common
pub mod Client
pub mod Queue
pub mod Server
pub mod Uart
pub mod Gpio
pub mod Jtag
pub mod Sim
pub mod Script
pub mod Adiv5
pub mod SwdAdiv5
pub mod JtagAdiv5
pub mod Rig
pub mod Fifo
pub mod Phy
pub mod Swd
pub mod Mux
pub mod Soc
pub mod Intercon
pub mod Tests
