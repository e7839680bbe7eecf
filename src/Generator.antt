-- ===== src/Generator.antt =====
-- tools/packet_generator.c: the datagrams that it sends, each number in network order.
pub mod Mismatch
pub mod Main
pub mod Sent
use nano_net_ull.Base.{ℕ, ◌+◌, ◌*◌, ◌/◌, ◌%◌, ◌^◌, List, [], ◌∷◌, ◌++◌, swap32, u64}
use nano_net_ull.Order.{store32}
use nano_net_ull.Text.{codes}

-- `htobe64` of a value, as stored.
abbrev store_be64 : ℕ → List ℕ
store_be64 v = store32 (swap32 (v / 2 ^ 32)) ++ store32 (swap32 (v % 2 ^ 32))

abbrev pub price : ℕ
price = 9999

abbrev pub quantity : ℕ
quantity = 1000

-- The packet of round `i` at a given second of the clock.
unfoldable pub market_packet : ℕ → ℕ → List ℕ
market_packet seconds i =
    codes "AAPL    "
    ++ (store32 (swap32 price)
        ++ (store32 (swap32 quantity) ++ store_be64 (u64 (seconds * 1000000000 + i * 1000000))))
