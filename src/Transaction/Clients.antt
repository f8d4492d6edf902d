-- ===== src/Transaction/Clients.antt =====
-- A client's WRITE or REPLACE on a server with peers: board-server.cpp starts the transaction of
-- peer-communication.cpp, waits for its threads, and answers. `synchronize` is any function that
-- ends as the run of the threads does.
use bulletin_board.Store.{Store}
