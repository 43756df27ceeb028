-- ===== src/Lib.antt =====
-- Verification of the SYE laboratories (C): the user programs of the labs and the parts of the SO3
-- kernel that the labs complete.
--
-- Numbers are the native ℕ; a narrowing to uint8_t, uint16_t or uint32_t is written out as a
-- remainder. C arrays are lists with a read of a default and a write that does nothing out of range;
-- the invariants rule such accesses out. Base.antt passes on the library names that the files share,
-- with Boolean tests (Base/Tests), arrays (Base/Arrays), the ints of C (Base/Int), texts
-- (Base/Strings) and bit operations (Base/Bits). Each part of the program is one file, whose children
-- prove its properties and whose Tests file runs it on concrete inputs and applies its theorems there.
-- The parts are separate programs or kernel subsystems; where one calls another the file says so
-- below.
--
-- * Memreplace.antt models l7-lru-wsc/usr/src/memreplace.c: the record `Sim` for the globals
--   `page_table`, `tdu` and `tvc`; `replace_lru`, `replace_wsc`, `update_tdu`, `inc_compteur`,
--   `init_page_table` and `print_memory` for the functions of those names, `access` and `run` for
--   the loop of `main`. Every loop runs NB_PAGES = 16 rounds, as recursion on the rounds left.
-- * Memsim.antt models l6-mem-pte/usr/src/memsim.c: a `Config` for the two configuration macros,
--   a `Mem` for the two arrays; `virt_to_pte`, `get_byte`, `store_byte`, `init_page_table`,
--   `test_mem` and `test_mem_2` for the functions of those names. The loops are recursion on the
--   rounds left.
-- * Process.antt models l5-scheduling-memory/so3/kernel/process.c: a `Kernel` for the process
--   list, the next pid and the error number, a `Pcb` for the fields of a process that these
--   functions use, `Frames` for the reference counts of the pages; `find_proc_by_pid`,
--   `do_renice`, `find_proc_zombie_to_clean`, `find_proc_by_parent`, `remove_proc`, `new_process`,
--   `proc_new_fd`, `proc_register_fd`, `do_sbrk`, `add_page_to_proc` and `release_proc_pages` for
--   the functions of those names. FD_MAX and HEAP_SIZE, and the address that malloc returns, are
--   arguments. Process/Wait.antt holds `do_waitpid`: thread_join and ready, which are the
--   scheduler's, are its parameters, and it keeps the interrupt flag. Process/Fork.antt holds
--   `duplicate_process`, `do_fork` and `do_fork2`, over vfs_clone_fd, user_thread,
--   duplicate_user_space and the format of the name as parameters.
-- * Process/Args.antt models l5-scheduling-memory/so3/kernel/process.c: the page of the
--   arguments of a program: `preserve_args_and_env` and `post_setup_image` for the functions of
--   those names, `place` for the two loops that copy the strings, `relocate` and `relocate_env`
--   for those that adjust the pointers. The fuel of the last loop is the size of the page, which
--   holds fewer pointers.
-- * Process/Exit.antt models l5-scheduling-memory/so3/kernel/process.c: `do_exit` for the
--   function of that name, over do_close, do_kill and thread_exit as parameters.
--   Process/Fork/Life.antt puts fork, exit and waitpid together.
-- * Process/Image.antt models l5-scheduling-memory/so3/kernel/process.c: the pages of a new
--   program: `allocate_page`, `reset_process_stack` and `setup_proc_image_replace` for the
--   functions of those names, over the page tables of Mmu.antt and the arguments page of
--   Process/Args.antt; `drop_image` and `map_image` are the two halves of the last.
-- * Process/Load.antt models l5-scheduling-memory/so3/kernel/process.c: `load_process`, over the
--   headers of a parsed ELF file.
-- * Process/Execve.antt models l5-scheduling-memory/so3/kernel/process.c: `do_execve`, over the
--   ELF functions and user_thread as parameters: `exec_program` is what follows a successful
--   parsing, `transfer` the waiting thread of the parent.
-- * Tictactoe.antt models l2-syscalls-fork/usr/src/tictactoe_gm.c: a `Header` for the constants,
--   a `Game` for the global and the commands exchanged; `minmax`, `computers_turn`, `win`,
--   `init_game`, `get_player_move`, `check_game_state` and `game_manager` for the functions of
--   those names. `minmax` is recursion on the depth, `manager_loop` on fuel, one unit for a turn.
-- * Player.antt models l2-syscalls-fork/usr/src/tictactoe_player.c: `parse_line` and
--   `get_input_move` for the functions of those names, `player_loop` for the loop of `main`. It
--   uses the commands of Tictactoe.antt, and its moves are what `receive` there takes.
-- * Threads.antt models l3-ipc/usr/src/threads.c: a `Worker` for the parameters of a thread and
--   its place in its loop; `count_letters` for the function, `split` and `gather` for the loops of
--   `main`. A schedule is a sequence of rounds of the threads, in any order (Threads/Runs).
-- * Process/Duplicate.antt models l5-scheduling-memory/so3/arch/arm32/mmu.c:
--   `duplicate_user_space` over `Spaces`: the tables of the parent, the first level table of the
--   child, the free pages and the physical memory. `copy_tables` and `copy_entries` are its two
--   loops, and `copy_bytes` is the memcpy as the MMU does it. Process/Duplicate/Child says what
--   the child sees after it; the fuel is for the entries of one table, 256.
-- * Mmu.antt models l5-scheduling-memory/so3/arch/arm32/mmu.c: functions of the same names over
--   `Tables`: the first level table, the second level tables by address, the blocks that memalign
--   will return and those given to free. `release_mapping` is in Mmu/Release. `walk` of Mmu/Walk
--   is what the MMU does with them; `IsMmu` is what the code relies on of the macros. The fuel of
--   `create_mapping` and `release_mapping` bounds the entries of a table, 256, and the sections of
--   the range, 4096 at most.
-- * Shell.antt models l1-intro/usr/src/sh.c: `parse_token` and `process_cmd` for the functions
--   of those names, `command` for a round of the loop of `main`; `scan` for the loop that prepares
--   the arguments of exec, `launch_cmd` for the general case. A value of `Action` says which
--   system calls are made. The fuel of `parse_loop` is the length of the line and one more.
-- * Count.antt models l2-syscalls-fork/usr/host/count_parallel.c: `handle` for the tests of the
--   result of fork, `fork_loop` and `wait_loop` for the two loops of `main`. A run is the list of
--   the children made and of the waits.
--
-- Not modelled: input and output (printing, the GUI, device registers), signals, assembly files and
-- headers with declarations only. What a program calls outside the repository is a parameter.
-- Nor is create_root_process of l5-scheduling-memory/so3/kernel/process.c, which makes the first
-- process: the theorems on processes start from a table that has one.
pub mod Base
pub mod Count
pub mod Memreplace
pub mod Memsim
pub mod Mmu
pub mod Player
pub mod Process
pub mod Shell
pub mod Threads
pub mod Tictactoe
