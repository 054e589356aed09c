-- ===== src/Spudp/Spec.antt =====
-- apps/speex_udp.c: the connection with the two servers as an abstract state machine.
use roip.Prelude.{ℕ, ◌+◌, ◌≡◌, Bool, true, false, ◌==◌, if◌then◌else◌}
use roip.Spudp.{Spudp, is_connected, server}

pub data Server : Type 0 where
  first second : Server

-- The server that is asked next, or that has answered.
pub data Link : Type 0 where
  trying : Server → Link
  connected : Server → Link

abbrev pub other : Server → Server
other first = second
other second = first

abbrev pub peer : Link → Server
peer (trying s) = s
peer (connected s) = s

-- The server `s` answers.
abbrev pub heard : Server → Link → Link
heard s l = connected s

-- A control packet is due; `stale` says that the last answer is too old.
abbrev pub tick : Bool → Link → Link
tick stale (trying s) = trying (other s)
tick true (connected s) = trying (other s)
tick false (connected s) = connected s

abbrev pub server_number : Server → ℕ
server_number first = 1
server_number second = 2

-- The byte that stands for a link.
abbrev pub encode : Link → ℕ
encode (trying s) = server_number s
encode (connected s) = 128 + server_number s

-- The link that a byte stands for.
abbrev pub view : ℕ → Link
view st =
    let s = if server st == 2 then second else first in
    if is_connected st then connected s else trying s

-- The values that the state ever has.
abbrev pub IsState : ℕ → Type 0
IsState st = encode (view st) ≡ st

abbrev pub address : Spudp → Server → ℕ
address d first = d.server1
address d second = d.server2
