-- ===== src/Net/Udp/History.antt =====
-- Any sequence of calls on the sockets of udp.c.
use gannet_os.Base.{ℕ, zero, suc, ◌≡◌, refl, ap, ◌∙◌, false, List, [], ◌∷◌, arith, length}
use gannet_os.Net.Udp.{
  Socket, is_bound_to, udp_max_sockets, udp_init, udp_socket_open, udp_socket_close,
  udp_socket_recv, udp_handle_packet,
}
use gannet_os.Net.Udp.Sockets.{
  IsTable, socket_at, udp_socket_open-IsTable, udp_socket_close-IsTable, udp_socket_recv-IsTable,
  udp_handle_packet-IsTable,
}

-- A call of an application, or a packet from the network.
pub data Call : Type 0 where
  open' : (local_port : ℕ) → Call
  close : (handle : ℕ) → Call
  recv : (handle buf_len : ℕ) → Call
  packet : (local_ip : ℕ) (bytes : List ℕ) (src_ip : ℕ) → Call

unfoldable pub step : List Socket → Call → List Socket
step ss (Call.open' port) = (udp_socket_open port ss).1
step ss (Call.close h) = udp_socket_close h ss
step ss (Call.recv h n) = (udp_socket_recv h n ss).1
step ss (Call.packet local_ip bytes src_ip) = udp_handle_packet local_ip bytes src_ip ss

unfoldable pub run : List Socket → List Call → List Socket
run ss [] = ss
run ss (c ∷ cs) = run (step ss c) cs

step-IsTable : (ss : List Socket) (c : Call) → IsTable ss → IsTable (step ss c)
unfolding step
step-IsTable ss (Call.open' port) t = udp_socket_open-IsTable port ss t
step-IsTable ss (Call.close h) t = udp_socket_close-IsTable h ss t
step-IsTable ss (Call.recv h n) t = udp_socket_recv-IsTable h n ss t
step-IsTable ss (Call.packet local_ip bytes src_ip) t =
    udp_handle_packet-IsTable local_ip bytes src_ip ss t

calls-IsTable : (ss : List Socket) (cs : List Call) → IsTable ss → IsTable (run ss cs)
unfolding run
calls-IsTable ss [] t = t
calls-IsTable ss (c ∷ cs) t = calls-IsTable (step ss c) cs (step-IsTable ss c t)

init-unbound :
    (ss : List Socket) (i port : ℕ) → is_bound_to port (socket_at (udp_init ss) i) ≡ false
unfolding udp_init
init-unbound [] i port = refl
init-unbound (s ∷ ss) zero port = refl
init-unbound (s ∷ ss) (suc i) port = init-unbound ss i port

length-udp_init : (ss : List Socket) → length (udp_init ss) ≡ length ss
unfolding udp_init
length-udp_init [] = refl
length-udp_init (s ∷ ss) = ap suc (length-udp_init ss)

udp_init-IsTable : (ss : List Socket) → length ss ≡ udp_max_sockets → IsTable (udp_init ss)
udp_init-IsTable ss h = record {
  size = length-udp_init ss ∙ h;
  unique = λ i j port p q. ground (arith, init-unbound ss i port);
}

-- From a table of eight sockets, whatever the applications and the network do after `udp_init`,
-- the table keeps its eight sockets, and no two open ones ever have the same port.
pub run-IsTable :
    (ss : List Socket) (cs : List Call)
    → length ss ≡ udp_max_sockets
    → IsTable (run (udp_init ss) cs)
run-IsTable ss cs h = calls-IsTable (udp_init ss) cs (udp_init-IsTable ss h)
