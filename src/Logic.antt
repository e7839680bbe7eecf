-- ===== src/Logic.antt =====
-- src/packet_processor.c: `nanonet_process_application_logic`.
pub mod Result
pub mod Bidding
pub mod Total
use nano_net_ull.Base.{ℕ, Option, none, some, List, [], ◌∷◌, ◌++◌, ◌==◌, if◌then◌else◌}
use nano_net_ull.Config.{Config}
use nano_net_ull.Debug.{Message, logic_type, send_failed}
use nano_net_ull.Errno.{Code, success, einval, is_error}
use nano_net_ull.Order.{OrderEnv, Decision, place, ignore, fail, process_market_data}
use nano_net_ull.Packet.{SkBuff, ◌>>=◌}
use nano_net_ull.Pool.{Pool}
use nano_net_ull.Response.{SendEnv, Sent, send_response}

-- The `int` that a function returns: a code, or a positive count.
pub data Return : Type 0 where
  code : Code → Return
  positive : ℕ → Return

pub record LogicEnv : Type 0 where
  pub order : OrderEnv
  pub send : SendEnv

-- What a call leaves: its return value, and the rest as for a response that is sent.
pub record Done : Type 0 where
  pub result : Return
  pub config : Config
  pub pool : Pool
  pub log : List Message
  pub frames : List (List ℕ)

abbrev unsent : Config → Pool → Return → List Message → Done
unsent c pool r log = record { result = r; config = c; pool = pool; log = log; frames = [] }

-- Lines 92 to 98 for an order: the result of the send is the result of the function.
unfoldable pub deliver : LogicEnv → Config → Pool → List Message → List ℕ → Option Done
deliver env c pool log order = send_response env.send none order c pool >>= λ sent. some (record {
  result = code sent.code;
  config = sent.config;
  pool = sent.pool;
  log = log ++ (sent.log ++ (if is_error sent.code then send_failed sent.code ∷ [] else []));
  frames = sent.frames;
})

-- What the decision leads to: only an order is sent.
unfoldable pub finish : LogicEnv → Config → Pool → Decision × List Message → Option Done
finish env c pool (place order, log) = deliver env c pool log order
finish env c pool (ignore, log) = some (unsent c pool (code success) log)
finish env c pool (fail e, log) = some (unsent c pool (code e) log)

unfoldable pub process_application_logic :
    LogicEnv → SkBuff → Option ℕ → ℕ → Config → Pool → Option Done
process_application_logic env skb none payload_len c pool = some (unsent c pool (code success) [])
process_application_logic env skb (some p) payload_len c pool =
    if payload_len == 0
    then some (unsent c pool (code success) [])
    else if c.application_logic_type == 0
    then (process_market_data env.order skb (some p) payload_len >>= λ d. finish env c pool d)
    else some (unsent c pool (code einval) (logic_type c.application_logic_type ∷ []))
