-- ===== src/Sim/SocketTransport.antt =====
-- sim/socket_transport.cpp: a serial line over a socket. What `accept`, `send` and `recv` give is an argument;
-- `accepted` and `closed` are the connections so far, by their descriptors.
pub mod Descriptors
use agentic_engineering_trai.Base.{
  ℕ, List, [], ◌∷◌, ◌++◌, Bool, true, false, not, Option, none, some, if◌then◌else◌,
}
use agentic_engineering_trai.Sim.Sockets.{Opening}

-- What `accept` gives: nothing, or a connection that can be configured or not.
pub data Knock : Type 0 where
  nobody : Knock
  caller : ℕ → Bool → Knock

-- What `recv` gives for one byte.
pub data Got : Type 0 where
  byte : ℕ → Got
  end_of_line nothing_yet : Got

pub record SocketTransport : Type 0 where
  pub listen_fd : Option ℕ
  pub conn_fd : Option ℕ
  pub accepted : List ℕ
  pub closed : List ℕ

-- The transport that `listen_on` and `connect_to` return.
abbrev pub listener : Opening → SocketTransport
listener o = record { listen_fd = o.kept; conn_fd = none; accepted = []; closed = [] }

abbrev pub held_fd : Option ℕ → List ℕ
held_fd none = []
held_fd (some fd) = fd ∷ []

abbrev pub connector : Opening → SocketTransport
connector o = record { listen_fd = none; conn_fd = o.kept; accepted = held_fd o.kept; closed = [] }

abbrev pub answer_call : SocketTransport → Knock → SocketTransport
answer_call t nobody = t
answer_call t (caller fd configured) =
    if not configured
    then record t { accepted = t.accepted ++ fd ∷ []; closed = t.closed ++ fd ∷ [] }
    else record t { accepted = t.accepted ++ fd ∷ []; conn_fd = some fd }

-- `listen_fd_ < 0 || conn_fd_ >= 0` returns at once.
abbrev pub accept_on : Option ℕ → Option ℕ → SocketTransport → Knock → SocketTransport
accept_on none conn t k = t
accept_on (some fd) (some conn) t k = t
accept_on (some fd) none t k = answer_call t k

unfoldable pub accept_pending : SocketTransport → Knock → SocketTransport
accept_pending t k = accept_on t.listen_fd t.conn_fd t k

abbrev pub has_fd : Option ℕ → Bool
has_fd none = false
has_fd (some fd) = true

unfoldable pub link_connected : SocketTransport → Knock → SocketTransport × Bool
link_connected t k = let t' = accept_pending t k in (t', has_fd t'.conn_fd)

-- `sent` is what `send` gives, none for an error.
abbrev pub count_sent : Option ℕ → Option ℕ → ℕ
count_sent none sent = 0
count_sent (some fd) none = 0
count_sent (some fd) (some n) = n

unfoldable pub write_socket : SocketTransport → Knock → Option ℕ → SocketTransport × ℕ
write_socket t k sent = let t' = accept_pending t k in (t', count_sent t'.conn_fd sent)

abbrev pub receive_on : Option ℕ → SocketTransport → Got → SocketTransport × Option ℕ
receive_on none t got = (t, none)
receive_on (some fd) t (byte b) = (t, some b)
receive_on (some fd) t end_of_line =
    (record t { conn_fd = none; closed = t.closed ++ fd ∷ [] }, none)
receive_on (some fd) t nothing_yet = (t, none)

unfoldable pub read_socket : SocketTransport → Knock → Got → SocketTransport × Option ℕ
read_socket t k got = let t' = accept_pending t k in receive_on t'.conn_fd t' got

-- The destructor, with the listening descriptor closed last.
unfoldable pub destroy : SocketTransport → SocketTransport
destroy t = record t {
  conn_fd = none;
  listen_fd = none;
  closed = t.closed ++ held_fd t.conn_fd ++ held_fd t.listen_fd;
}
