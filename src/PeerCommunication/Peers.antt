-- ===== src/PeerCommunication/Peers.antt =====
-- peer-communication.cpp: how a thread of a transaction reaches its peer, which the configuration
-- names as host:port; utilities.cpp: the listening socket that it reaches. `connectbyport` and
-- `passivesocket` are parameters; a negative result is an error of theirs.
use bulletin_board.Base.{◌≡◌, ap, List, ◌∷◌, ◌++◌, ℕ}
use bulletin_board.Base.Int.{ℤ, pos, negsuc}
use bulletin_board.Text.{Bytes, tokenize}
use bulletin_board.Text.Tokens.{IsWord, tokenize_two}
use bulletin_board.Text.Lines.{HasNoNul}
use bulletin_board.Store.{Store, done, M, pure, crash}

-- err_host and the other errors of `connectbyport` alike become -1.
abbrev pub connected_or_refused : ℤ → ℤ
connected_or_refused (pos socket) = pos socket
connected_or_refused (negsuc error) = negsuc 0

-- `createSocket`
unfoldable pub create_socket : (connectbyport : Bytes → Bytes → ℤ) → Bytes → Bytes → ℤ
create_socket connectbyport host port = connected_or_refused (connectbyport host port)

-- `peerHostPort[0]` and `peerHostPort[1]`, of which the second is out of bounds in a peer with no ':'
unfoldable pub connect_to_tokens : (connectbyport : Bytes → Bytes → ℤ) → List Bytes → M ℤ
unfolding create_socket
connect_to_tokens connectbyport (host ∷ port ∷ _) = pure (create_socket connectbyport host port)
connect_to_tokens connectbyport _ = crash

-- The first lines of `communicateWithPeer`
unfoldable pub connect_to_peer : (connectbyport : Bytes → Bytes → ℤ) → Bytes → M ℤ
unfolding connect_to_tokens
connect_to_peer connectbyport peer = connect_to_tokens connectbyport (tokenize peer b':')

-- `createMasterSocket`, which tells a failure by the descriptor of the standard output.
unfoldable pub create_master_socket : (passivesocket : ℕ → ℕ → ℤ) → ℕ → ℤ
create_master_socket passivesocket port = elim (passivesocket port 32) [
  | pos socket ↦ pos socket
  | negsuc error ↦ pos 1
]

-- A peer of a host and a port is connected to at that host and that port.
pub connect_to_peer_lem :
    (connectbyport : Bytes → Bytes → ℤ) (host port : Bytes) (s : Store)
    → HasNoNul (host ++ (b':' ∷ port))
    → IsWord b':' host
    → IsWord b':' port
    → connect_to_peer connectbyport (host ++ (b':' ∷ port)) s
      ≡ done (create_socket connectbyport host port) s
unfolding connect_to_peer connect_to_tokens
connect_to_peer_lem connectbyport host port s n h p =
    ap (λ t. connect_to_tokens connectbyport t s) (tokenize_two b':' host port n h p)
