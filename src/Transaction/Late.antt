-- ===== src/Transaction/Late.antt =====
-- A decision that a slave hears when it has stopped waiting.
use bulletin_board.Store.{Store}
