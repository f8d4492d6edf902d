-- ===== src/Lib.antt =====
-- The bulletin board server: clients write, replace and read numbered messages in one file, and
-- a write or a replacement is carried out on all peers or on none by a two-phase commit.
--
-- The parts, and how they interact. Each call of a client (board-server.cpp) reads, writes or
-- replaces a line of the board's file through file-operations.cpp, under a readers-writer lock.
-- With peers, a thread per peer (peer-communication.cpp) sends PRECOMMIT, COMMIT and the decision
-- to that peer's synchronization server (sync-server.cpp), which carries the operation out with
-- `holdLock`, keeps the lock and an undo action, and settles it when the decision comes.
--
-- The files, and what they model:
--   Text        utilities.cpp: tokenize, trim, is_true, is_number, createMessage,
--               sendMessageToSocket, joinTwoStringsWithDelimiter; strings are lists of byte codes
--   LineReader  tcp-utils.cpp: recv_nonblock, readlineFromSocket; utilities.cpp: readline
--   Lock        file-operations.cpp: AccessData, and the critical sections of acquireWriteLock,
--               releaseWriteLock and readMessageFromFile; Lock/Threads interleaves any number of
--               threads, a section under `mut` at a time, with wake-ups by broadcast and spurious ones
--   Disk        write, read, lseek and truncate on the bytes of one file
--   Splice      file-operations.cpp: the body of optimalReplaceAlgorithm, its three cases and loops
--   Store       file-operations.cpp: the globals with the file, and how a call ends
--   BoardFile   file-operations.cpp: set_initial_message_number, getBulletinBoardFileSize,
--               writeOperation, obtainLengthOfLineToBeReplaced, optimalReplaceAlgorithm,
--               areReplaceArgumentsValid, replaceOperation, getMessageNumberInfo, with the undo
--               actions; BoardFile/Reader: readMessageFromFile
--   SyncServer  sync-server.cpp: one connection in handle_sync_server_client
--   PeerCommunication
--               peer-communication.cpp: the statistics of a transaction, what a thread of
--               communicateWithPeer makes of an answer (react); PeerCommunication/Threads: the threads
--               interleaved (Move);
--               PeerCommunication/Wakeups: which thread sleeps, and which broadcast wakes it;
--               PeerCommunication/Peers: createSocket, and createMasterSocket of utilities.cpp
--   BoardServer board-server.cpp: one command of a client; the transaction of the peers is the
--               parameter `synchronize`, which is given the user and the request; BoardServer/Loop:
--               the loop of handle_bulletin_board_client over what arrives on the socket
--   Transaction peer-communication.cpp with sync-server.cpp: the messages that the master's threads
--               send, and the boards of all peers when the slaves hear them; Transaction/Clients:
--               the command of a client that starts the transaction
--   Pool        board-server.cpp, sync-server.cpp: the accept loops and the states of cancellation;
--               utilities.cpp: createThreads, killThreads, cleanup_handler; the threads interleaved
--               with the signals SIGHUP and SIGQUIT of main.cpp
--   Config      utilities.cpp: readConfigurationParametersFromFile, readKeyFromConfigurationFile
--   Startup     main.cpp: the options of the command line and super_sighup_handler, with
--               setBulletinBoardFile, reconfigureBoardServerGlobalVars and reconfigureSyncServerPort;
--               Startup/Daemon: the descriptors of the daemon
--   Base        shared names, Boolean tests, lists and integers; Tests: runs at concrete inputs
--
-- How code becomes definitions. The globals and the file are the record Store, and an operation is
-- a function from the store to a Result: `done`, `hangs` (an endless loop, or a wait that no other
-- thread ends) or `crashes` (an uncaught exception, a failed assert, an access out of bounds). The
-- undo closures are the data type Undo, run by run_undo. The names are those of the source.
--
-- Loops that read lines take a number of rounds, one more than the bytes of the file: each round
-- reads a byte at least. The loops that move bytes take one more round than the bytes of the file.
-- Where the theorems say that a call returns, the rounds are shown to be enough.
--
-- The loop over a client's requests has one round more than what arrives on the socket, which
-- BoardServer/Rounds shows to be enough. The line of a configuration file is taken to be in bounds
-- or else the process to be down.
--
-- optimalReplaceAlgorithm keeps offsets and sizes in `int`. The new size of the file, which is
-- converted, wraps (wrap_int); an overflow of the offsets, which is undefined in C++, ends the call as a
-- crash. Theorems on REPLACE ask for a file that stays 256 bytes below 2 GiB (IsSmall) or name the
-- bound on the new size.
--
-- In Lock/Threads a thread may keep the lock: it ends with it, or asks for it again, as a thread of
-- sync-server.cpp does after a failed receive.
--
-- The thread that handles a signal is taken to be the main thread. A command is reduced, in Pool, to
-- what it does to its socket and to the lock; Transaction/Clients takes any function for the
-- transaction that ends as a run of its threads does.
--
-- Not modelled: the sockets themselves (what arrives is a list given to the model; connectbyport and
-- passivesocket are parameters), logging and debug pauses, creation of the threads of a transaction,
-- threadIdStatsMapping, which holds the statistics of all transactions (each transaction has its own
-- here; the map is used without its mutex in places), and of main.cpp fork, the file of the process id
-- and the installation of the signal handlers. atoi, what getopt returns and the files are parameters.
-- message_number, the number of lines passed by a search and the lock's counters are natural numbers
-- where the source has an int: an overflow of a count is not modelled. write() and read() are taken to
-- transfer what they are asked to.
mod Base
pub mod Text
pub mod LineReader
pub mod Lock
pub mod Disk
pub mod Splice
pub mod Store
pub mod BoardFile
pub mod Config
pub mod Startup
pub mod SyncServer
pub mod PeerCommunication
pub mod BoardServer
pub mod Transaction
pub mod Pool
mod Tests
