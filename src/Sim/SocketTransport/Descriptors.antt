-- ===== src/Sim/SocketTransport/Descriptors.antt =====
-- Every connection is closed once, in the order in which they came.
use agentic_engineering_trai.Base.{
  ℕ, ◌≡◌, refl, sym, ap, ◌∙◌, List, [], ◌∷◌, ◌++◌, append-nil, not, branch, Option, none, some,
}
use agentic_engineering_trai.Sim.SocketTransport.{
  Knock, nobody, caller, Got, byte, end_of_line, nothing_yet, SocketTransport, held_fd, accept_on,
  accept_pending, link_connected, write_socket, receive_on, read_socket, destroy,
}

-- The uses of the transport, with what the system gives.
pub data SocketEvent : Type 0 where
  asks : Knock → SocketEvent
  writes_out : Knock → Option ℕ → SocketEvent
  reads_in : Knock → Got → SocketEvent

unfoldable pub socket_step : SocketTransport → SocketEvent → SocketTransport
socket_step t (asks k) = (link_connected t k).0
socket_step t (writes_out k sent) = (write_socket t k sent).0
socket_step t (reads_in k got) = (read_socket t k got).0

unfoldable pub run_socket : SocketTransport → List SocketEvent → SocketTransport
run_socket t [] = t
run_socket t (e ∷ es) = run_socket (socket_step t e) es

-- The connections are those that were closed and the one that is held.
abbrev pub IsAccounted : SocketTransport → Type 0
IsAccounted t = t.accepted ≡ t.closed ++ held_fd t.conn_fd

accept_on-IsAccounted :
    (l c : Option ℕ) (t : SocketTransport) (k : Knock)
    → t.conn_fd ≡ c
    → IsAccounted t
    → IsAccounted (accept_on l c t k)
accept_on-IsAccounted none c t k same h = h
accept_on-IsAccounted (some fd) (some conn) t k same h = h
accept_on-IsAccounted (some fd) none t nobody same h = h
accept_on-IsAccounted (some fd) none t (caller new configured) same h =
    let all : t.accepted ≡ t.closed =
      h ∙ ap (λ k. t.closed ++ held_fd k) same ∙ append-nil t.closed in
    branch IsAccounted (not configured)
      (λ e.
        ap (λ k. k ++ new ∷ []) all
        ∙ sym (append-nil (t.closed ++ new ∷ []))
        ∙ ap (λ k. (t.closed ++ new ∷ []) ++ held_fd k) (sym same))
      (λ e. ap (λ k. k ++ new ∷ []) all)

accept_pending-IsAccounted :
    (t : SocketTransport) (k : Knock) → IsAccounted t → IsAccounted (accept_pending t k)
unfolding accept_pending
accept_pending-IsAccounted t k h = accept_on-IsAccounted t.listen_fd t.conn_fd t k refl h

receive_on-IsAccounted :
    (c : Option ℕ) (t : SocketTransport) (got : Got)
    → t.conn_fd ≡ c
    → IsAccounted t
    → IsAccounted (receive_on c t got).0
receive_on-IsAccounted none t got same h = h
receive_on-IsAccounted (some fd) t (byte b) same h = h
receive_on-IsAccounted (some fd) t nothing_yet same h = h
receive_on-IsAccounted (some fd) t end_of_line same h =
    h ∙ ap (λ k. t.closed ++ held_fd k) same ∙ sym (append-nil (t.closed ++ fd ∷ []))

socket_step-IsAccounted :
    (t : SocketTransport) (e : SocketEvent) → IsAccounted t → IsAccounted (socket_step t e)
unfolding socket_step link_connected write_socket read_socket
socket_step-IsAccounted t (asks k) h = accept_pending-IsAccounted t k h
socket_step-IsAccounted t (writes_out k sent) h = accept_pending-IsAccounted t k h
socket_step-IsAccounted t (reads_in k got) h =
    let t' = accept_pending t k in
    receive_on-IsAccounted t'.conn_fd t' got refl (accept_pending-IsAccounted t k h)

run_socket-IsAccounted :
    (es : List SocketEvent) (t : SocketTransport) → IsAccounted t → IsAccounted (run_socket t es)
unfolding run_socket
run_socket-IsAccounted [] t h = h
run_socket-IsAccounted (e ∷ es) t h =
    run_socket-IsAccounted es (socket_step t e) (socket_step-IsAccounted t e h)

-- However a transport is used, when it is destroyed exactly the connections that it was given have
-- been closed, each once and in their order, and then the listening socket.
pub destroy-run_socket :
    (es : List SocketEvent) (t : SocketTransport)
    → IsAccounted t
    → (destroy (run_socket t es)).closed
      ≡ (run_socket t es).accepted ++ held_fd (run_socket t es).listen_fd
unfolding destroy
destroy-run_socket es t h =
    let u = run_socket t es in
    ap (λ k. k ++ held_fd u.listen_fd) (sym (run_socket-IsAccounted es t h))
