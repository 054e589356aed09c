-- ===== src/Serial/Tests.antt =====
-- The serial line over a plain bounded queue.
use roip.Prelude.{ℕ, ◌-◌, refl, true, false, List, [], ◌∷◌, ◌++◌, length, take, drop, ◌==◌}
use roip.Serial.Interface.{RingBuffer, Laws}
use roip.Serial.Port.{Port, Uart, data_available, Event, History}

record Queue : Type 0 where
  cap : ℕ
  items : List ℕ

abbrev room_of : Queue → ℕ
room_of q = q.cap - length q.items

abbrev put : List ℕ → Queue → Queue
put xs q = record q { items = q.items ++ take (room_of q) xs }

abbrev queues : RingBuffer
queues = record {
  Ring = Queue;
  init = λ n. record { cap = n; items = [] };
  get_free = room_of;
  get_count = λ q. length q.items;
  is_empty = λ q. length q.items == 0;
  flush = λ q. record q { items = [] };
  insert_mult = λ q xs. (length (take (room_of q) xs), put xs q);
  pop_mult = λ q n. (take n q.items, record q { items = drop n q.items });
  tx_handler = λ n q. (take n q.items, record q { items = drop n q.items });
  rx_handler = λ xs q. put xs q;
}

abbrev queues_laws : Laws queues
queues_laws = record {
  contents = λ q. q.items;
  capacity = λ q. q.cap;
  IsMade = λ r. Unit {0};
  init-IsMade = λ k. tt;
  contents-init = λ k. refl;
  capacity-init = λ k. refl;
  get_count_lem = λ r made. refl;
  bytes-pop_mult = λ r n made. refl;
  contents-pop_mult = λ r n made. refl;
  pop_mult-IsMade = λ r n made. tt;
  contents-rx_handler = λ xs r made. refl;
  rx_handler-IsMade = λ xs r made. tt;
}

abbrev port : Port queues
port = record {
  rxring = record { cap = 4; items = 1 ∷ 2 ∷ 3 ∷ [] };
  txring = record { cap = 4; items = 7 ∷ 8 ∷ [] };
}

abbrev uart : Uart
uart = record {
  pending = true;
  interrupt = data_available;
  data_ready = false;
  room = 1;
  received = 4 ∷ 5 ∷ [];
}

abbrev events : List (Event queues)
events =
    Event.interrupt uart
    ∷ Event.send (1 ∷ 2 ∷ 3 ∷ [])
    ∷ Event.read 2
    ∷ Event.send (9 ∷ [])
    ∷ Event.interrupt (record uart { room = 16 })
    ∷ []

-- The first interrupt finds room for one byte, the second for both.
abbrev ended : History queues
ended = record {
  port = record {
    rxring = record { cap = 4; items = 3 ∷ 4 ∷ 4 ∷ 5 ∷ [] };
    txring = record { cap = 4; items = [] };
  };
  heard = 4 ∷ 4 ∷ 5 ∷ [];
  got = 1 ∷ 2 ∷ [];
}
