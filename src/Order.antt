-- ===== src/Order.antt =====
-- src/packet_processor.c: `process_market_data`, and the layout of `struct trading_order`.
pub mod Layout
pub mod Decide
use nano_net_ull.Base.{
  ℕ, ◌+◌, ◌/◌, ◌%◌, ◌^◌, Option, none, some, List, [], ◌∷◌, ◌++◌, ltb, if◌then◌else◌,
}
use nano_net_ull.Base.{length, take, drop, u32}
use nano_net_ull.Debug.{Message, market_data_size, order_alloc_failed}
use nano_net_ull.Errno.{Code, success, einval, enomem}
use nano_net_ull.Packet.{SkBuff, ◌>>=◌, load32, region}
use nano_net_ull.Text.{codes, decimal, snprintf}

abbrev sizeof_market_data : ℕ
sizeof_market_data = 24

abbrev pub sizeof_trading_order : ℕ
sizeof_trading_order = 41

-- The bytes that a store leaves, the low byte first.
abbrev pub store16 : ℕ → List ℕ
store16 v = v % 256 ∷ v / 256 % 256 ∷ []

abbrev pub store32 : ℕ → List ℕ
store32 v = v % 256 ∷ v / 256 % 256 ∷ v / 65536 % 256 ∷ v / 16777216 % 256 ∷ []

abbrev pub store64 : ℕ → List ℕ
store64 v = store32 (v % 2 ^ 32) ++ store32 (v / 2 ^ 32)

-- `snprintf(order->clOrdId, 16, "ORD%llu", order->timestamp)`: the text and its zero.
unfoldable pub cl_ord_id : ℕ → List ℕ
cl_ord_id timestamp = snprintf 16 (codes "ORD" ++ decimal timestamp) ++ 0 ∷ []

-- The 41 bytes of the order. `memory` is what `kmalloc` has left in them, of which the end of
-- `clOrdId` stays where the text is shorter.
unfoldable pub order_bytes : List ℕ → List ℕ → ℕ → ℕ → List ℕ
unfolding cl_ord_id
order_bytes memory symbol price timestamp =
    let id = cl_ord_id timestamp in
    symbol
    ++ (store32 (u32 (price + 1))
        ++ (store32 100
            ++ (0 ∷ store64 timestamp
                ++ (id ++ drop (25 + length id) (take sizeof_trading_order memory)))))

-- What `kmalloc` returns, as the contents of the block, and the clock.
pub record OrderEnv : Type 0 where
  pub block : Option (List ℕ)
  pub timestamp : ℕ

-- The result is 1 with an order, 0 without one, or an error.
pub data Decision : Type 0 where
  place : List ℕ → Decision
  ignore : Decision
  fail : Code → Decision

abbrev price_threshold : ℕ
price_threshold = 10000

-- The allocation and the order.
unfoldable pub place_order : OrderEnv → List ℕ → ℕ → Decision × List Message
unfolding order_bytes
place_order env symbol price = elim (env.block) [
  | none ↦ (fail enomem, order_alloc_failed ∷ [])
  | some memory ↦ (place (order_bytes memory symbol price env.timestamp), [])
]

-- `payload` is the offset of the data, `none` a null pointer.
unfoldable pub process_market_data :
    OrderEnv → SkBuff → Option ℕ → ℕ → Option (Decision × List Message)
unfolding load32 region
process_market_data env skb none payload_len = some (fail einval, market_data_size payload_len ∷ [])
process_market_data env skb (some p) payload_len =
    if ltb payload_len sizeof_market_data
    then some (fail einval, market_data_size payload_len ∷ [])
    else load32 skb.bytes (p + 8) >>= λ price.
        if ltb price price_threshold
        then (region skb.bytes p 8 >>= λ symbol. some (place_order env symbol price))
        else some (ignore, [])
