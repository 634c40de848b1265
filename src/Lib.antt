-- ===== src/Lib.antt =====
-- rmtdos: remote control of a DOS machine's text screen and keyboard, over raw Ethernet frames.
--
-- The program has a server, a resident DOS program (src/server/, src/lib16/), and a client for
-- Linux (src/client/), which share the layout of their packets (src/common/). The packet driver of
-- the DOS machine calls the server for each frame (src/server/pktdrv.c), which keeps it in a
-- buffer (src/server/bufmgr.c). On each timer tick the server handles the buffers that are ready
-- (src/server/protocol.c): it answers pings and status requests, starts sessions
-- (src/server/session.c) and injects keystrokes. Then it sends a chunk of the screen to every
-- client in session (session_mgr_update_all of src/server/session.c). The client asks for servers
-- and keeps its sessions by timers (src/client/main.c), lists the servers that answer
-- (src/client/hostlist.c), copies the chunks into the screen of its server, and turns what is
-- typed into keystrokes by a keymap (src/client/keyboard.c, src/client/keymaplib.c). All paths
-- here and in the other files are from the repository's root.
--
-- Base has the shared names: Boolean tests, lists on native numbers, and memory as a function from
-- offsets to bytes (Base.Memory), which is how packets and buffers are modelled.
-- Wire gives the packet's fields by their offsets (src/common/protocol.h).
-- Bufmgr is src/server/bufmgr.c: a store of buffers at addresses of one 64 KiB segment, with the
-- two linked lists. Bufmgr.Pool is its specification, two stacks and two sets, Bufmgr.Refine the
-- refinement, and Bufmgr.Run histories of calls.
-- Pktdrv is src/server/pktdrv.c, over the registers of X86. The driver behind x86_call is a
-- parameter.
-- Session is the table of src/server/session.c, Broadcast its session_mgr_update_all with the
-- checksum of src/lib16/video.s. The table's size is any, 4 in session_mgr_init.
-- Protocol is src/server/protocol.c, with pktdrv_send and x86_inject_keystroke as lists of what they
-- were called with; pktdrv_send itself, which raises a length to 60, is in Pktdrv. The loop
-- protocol_process runs on fuel, and one more than the number of ready buffers is enough.
-- Tick is int08_handler of src/server/resident.c, which composes the two. Tick.Run has
-- the driver's calls and the ticks in any order. A call may come between the rounds of a tick's loop,
-- but not within a call of the buffer manager, where interrupts are off, nor within a handler's
-- work on the packet that it was given. Tick.Sound is what they keep, Tick.Served the server from its
-- start on.
-- Resident is the rest of src/server/resident.c, with DEBUG and HAS_INT28 off as in
-- src/server/config.h, and the installation in src/server/main.c.
-- Install is main of src/server/main.c, from its options to its end. The interrupt vectors are one
-- table, which a copy that is removed changes as well. Install.Unload composes it with the copy that
-- is resident.
-- Hex2int is src/lib16/hex2int.c.
-- Network is src/client/network.c, Hostlist src/client/hostlist.c, Client src/client/main.c, and
-- Client.Keyboard src/client/keyboard.c. A pointer to a host is its slot; a time is in
-- microseconds. Client.Events is the loop over what epoll reports, and
-- Client.Start main with its options, its loop over rounds of events, and its end;
-- Client.Start.Upkeep has what the timers send in such a round, Client.Start.Selects a server that
-- is selected and typed to. Client.Probing is the menu's window of servers. Network.Socket opens the
-- socket, through a kernel that is a parameter. Client.Mirror has the packets of a picture in the
-- client, Client.Start.Runs what its main loop keeps, whatever happens: the loop ends with a fault
-- where a packet's text is drawn on a screen without columns. Delivery puts server and client on one
-- network: Delivery.Picture from the timer ticks to the client's window, Delivery.Typing from the
-- keys typed to the BIOS, Delivery.Waiting for a client that joins while the screen stands still.
-- Display is src/client/curses.c: the tables of characters and colours, and in Display.Window what a
-- packet changes in the session's window, with Display.Packet for the way of a packet to the window.
-- Its loop runs on fuel, and one more than the characters of the packet is enough.
-- Keymap is src/client/keymaplib.c, with the C library's string functions in Keymap.Text.
-- Keymap.Save is keymap_save of the same file, on the bytes of the file, with the fgets of
-- keymap_load; a file is read back in lines of at most 1023 bytes.
-- Config is src/tools/keymap_config.c, which edits the sequences of such a file: Config.Capture
-- takes a key's sequence, Config.View shows the list and moves in it, and Config.Loop is the main
-- loop over what getch returns in each iteration and what the system answers to a save.
-- Config.Kept and Config.Safe have what every key keeps, Config.Start and Config.Lossless runs of
-- the tool from its file on.
-- VgaDemo is src/vga_demo/vga_demo.c: its pattern and its keys, over a video library that is a list of
-- calls.
-- Tests has the theorems applied to concrete states.
--
-- Integers of the source that can wrap are taken modulo their size; the others are natural
-- numbers.
-- Not modelled: the assembly but for the checksum, the rest of the drawing through ncurses, printing
-- and debug output, iconv, and the viewer of keys in src/tools. Memory allocation succeeds, but in
-- buffer_init.
pub mod Base
pub mod Wire
pub mod X86
pub mod Bufmgr
pub mod Pktdrv
pub mod Session
pub mod Network
pub mod Protocol
pub mod Broadcast
pub mod Tick
pub mod Resident
pub mod Hex2int
pub mod Install
pub mod Keymap
pub mod Config
pub mod Hostlist
pub mod Client
pub mod Display
pub mod Delivery
pub mod VgaDemo
pub mod Tests
