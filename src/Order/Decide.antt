-- ===== src/Order/Decide.antt =====
-- When market data leads to an order, and what the order says.
use nano_net_ull.Base.{
  ℕ, ◌+◌, ◌≤◌, ◌<◌, ◌≡◌, inl, inr, Option-cases, some, List, [], ◌∷◌, ◌++◌, arith,
}
use nano_net_ull.Base.{
  length, length-append, take, drop, get_or, u32, length-take-drop, length-take-le, length-drop,
  get_or-append_right, take-append_self,
}
use nano_net_ull.Order.{
  cl_ord_id, order_bytes, place_order, place, ignore, OrderEnv, process_market_data,
  sizeof_trading_order, store32, store64,
}
use nano_net_ull.Packet.{SkBuff, len, raw8, raw32}
use nano_net_ull.Debug.{Message}
use nano_net_ull.Text.{decimal, snprintf, codes}

-- A buy order for 100, one cent above the price of the data, with the symbol of the data.
pub record IsBid (symbol : List ℕ) (price : ℕ) (order : List ℕ) : Type 0 where
  pub size : length order ≡ sizeof_trading_order
  pub same_symbol : take 8 order ≡ symbol
  pub bid : raw32 order 8 ≡ price + 1
  pub quantity : raw32 order 12 ≡ 100
  pub side : raw8 order 16 ≡ 0

length-cl_ord_id : (t : ℕ) → length (cl_ord_id t) ≤ 16
unfolding cl_ord_id snprintf
length-cl_ord_id t = omega (
  arith,
  length-append (take 15 (codes "ORD" ++ decimal t)) (0 ∷ []),
  length-take-le 15 (codes "ORD" ++ decimal t),
)

module _ (memory symbol : List ℕ) (price t : ℕ) (whole : length memory ≡ 41)
    (eight : length symbol ≡ 8) (low : price < 10000) where
  abbrev id : List ℕ
  id = cl_ord_id t

  abbrev rest : List ℕ
  rest = id ++ drop (25 + length id) (take 41 memory)

  length-rest : length rest ≡ 16
  length-rest = omega (
    arith,
    length-append id (drop (25 + length id) (take 41 memory)),
    length-drop (25 + length id) (take 41 memory),
    length-take-drop 41 0 memory,
    length-cl_ord_id t,
  )

  abbrev fields : List ℕ
  fields = store32 (u32 (price + 1)) ++ (store32 100 ++ (0 ∷ store64 t ++ rest))

  at : (i j : ℕ) → i ≡ 8 + j → get_or (symbol ++ fields) i 0 ≡ get_or fields j 0
  at i j e = get_or-append_right symbol fields i j 0 (omega arith)

  order_bytes-IsBid : IsBid symbol price (order_bytes memory symbol price t)
  unfolding order_bytes
  order_bytes-IsBid = record {
    size = omega (arith, length-append symbol fields, length-rest);
    same_symbol = take-append_self 8 symbol fields eight;
    bid = omega (
      arith,
      at 8 0 (omega arith),
      at 9 1 (omega arith),
      at 10 2 (omega arith),
      at 11 3 (omega arith),
    );
    quantity = omega (
      arith,
      at 12 4 (omega arith),
      at 13 5 (omega arith),
      at 14 6 (omega arith),
      at 15 7 (omega arith),
    );
    side = at 16 8 (omega arith);
  }

-- The symbol and the price of market data at an offset.
abbrev pub symbol : SkBuff → ℕ → List ℕ
symbol skb p = take 8 (drop p skb.bytes)

abbrev pub offered : SkBuff → ℕ → ℕ
offered skb p = raw32 skb.bytes (p + 8)

-- What market data at an offset has led to this order.
pub record IsPlacedFor (env : OrderEnv) (skb : SkBuff) (p n : ℕ) (order : List ℕ) : Type 0 where
  pub enough : 24 ≤ n
  pub low : offered skb p < 10000
  pub memory : List ℕ
  pub block : env.block ≡ some memory
  pub same : order ≡ order_bytes memory (symbol skb p) (offered skb p) env.timestamp

pub process_market_data-IsPlacedFor :
    (env : OrderEnv) (skb : SkBuff) (p n : ℕ) (order : List ℕ) {log : List Message}
    → process_market_data env skb (some p) n ≡ some (place order, log)
    → IsPlacedFor env skb p n order
unfolding process_market_data place_order
process_market_data-IsPlacedFor env skb p n order h = elim (Option-cases env.block) [
  | inl e ↦ absurd (ground arith)
  | inr (memory, e) ↦ record {
    enough = ground arith;
    low = ground arith;
    memory = memory;
    block = e;
    same = ground arith;
  }
]

module _ (env : OrderEnv) (skb : SkBuff) (p n : ℕ) (inside : p + n ≤ len skb)
    (enough : 24 ≤ n) where
  length-symbol : length (symbol skb p) ≡ 8
  length-symbol = length-take-drop 8 p skb.bytes (omega arith)

  module _ (memory : List ℕ) (block : env.block ≡ some memory) (whole : length memory ≡ 41)
      (low : raw32 skb.bytes (p + 8) < 10000) where
    pub process_market_data-place :
        let order = order_bytes memory (symbol skb p) (offered skb p) env.timestamp in
        (process_market_data env skb (some p) n ≡ some (place order, []))
        × IsBid (symbol skb p) (offered skb p) order
    unfolding process_market_data place_order
    process_market_data-place = (
      ground arith,
      order_bytes-IsBid memory (symbol skb p) (offered skb p) env.timestamp whole length-symbol low,
    )

    -- A payload of 24 bytes or more inside the packet, with a price (in the order of the machine)
    -- below 10000, leads to a bid for its symbol, one cent higher, where `kmalloc` gives the 41 bytes.
    process_market_data-bids :
        (order : List ℕ) × (process_market_data env skb (some p) n ≡ some (place order, []))
        × IsBid (take 8 (drop p skb.bytes)) (raw32 skb.bytes (p + 8)) order
    process_market_data-bids =
        let placed = process_market_data-place in
        (order_bytes memory (symbol skb p) (offered skb p) env.timestamp, placed.0, placed.1)

  -- At a price of 10000 or more it leads to none.
  process_market_data-ignores :
      10000 ≤ raw32 skb.bytes (p + 8) → process_market_data env skb (some p) n ≡ some (ignore, [])
  unfolding process_market_data
  process_market_data-ignores high = ground arith
