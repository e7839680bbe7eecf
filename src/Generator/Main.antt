-- ===== src/Generator/Main.antt =====
-- `main` of tools/packet_generator.c. `inet_aton` and the results of the socket calls are parameters.
use Prim.Native.String.{String}
use text.Mathlib.Text.{◌==◌ as str_eq}
use nano_net_ull.Base.{
  ℕ, ◌+◌, zero, suc, Bool, true, false, not, ◌&&◌, Option, none, some, List, [], ◌∷◌, ◌++◌,
}
use nano_net_ull.Base.{length, ◌==◌, if◌then◌else◌}
use nano_net_ull.Generator.{market_packet}
use nano_net_ull.Text.{codes}
use nano_net_ull.Tool.{arg, port_of}

-- The results of `socket`, `setsockopt`, `connect`, and of the sends; `seconds i` is the clock in round
-- `i`.
pub record Sockets : Type 0 where
  pub opened : Bool
  pub joined : Bool
  pub connected : Bool
  pub sent : ℕ → Bool
  pub seconds : ℕ → ℕ

-- A run that ends: the status, the lines on the output and the texts of `perror`, the address and the
-- port that are sent to, the group that was joined, and the packets that were sent.
pub record Run : Type 0 where
  pub status : ℕ
  pub lines : List (List ℕ)
  pub errors : List (List ℕ)
  pub target : Option (ℕ × ℕ)
  pub group : Option ℕ
  pub packets : List (List ℕ)

abbrev pub refused : List (List ℕ) → List (List ℕ) → Run
refused lines errors = record {
  status = 1;
  lines = lines;
  errors = errors;
  target = none;
  group = none;
  packets = [];
}

-- The loop, with `left` rounds to go from round `i` on, and whether it ended by a failure.
unfoldable pub send_loop : Sockets → ℕ → ℕ → List (List ℕ) × Bool
send_loop s zero i = ([], false)
send_loop s (suc left) i =
    let rest = send_loop s left (i + 1) in
    if s.sent i then (market_packet (s.seconds i) i ∷ rest.0, rest.1) else ([], true)

abbrev pub rounds : ℕ
rounds = 1000

-- Lines 73 to 104.
unfoldable pub send_all : Sockets → String → ℕ → ℕ → Option ℕ → Run
unfolding send_loop
send_all s proto address port group =
    if str_eq proto "tcp" && not s.connected
    then record (refused [] (codes "Failed to connect" ∷ [])) { group = group }
    else (let loop = send_loop s rounds 0 in
        record {
          status = 0;
          lines = [];
          errors = if loop.1 then codes "Failed to send packet" ∷ [] else [];
          target = some (address, port);
          group = group;
          packets = loop.0;
        })

abbrev pub usage : String → List (List ℕ)
usage prog =
    (codes "Usage: " ++ (codes prog ++ codes " <ip> <port> <protocol> [multicast <group>]"))
    ∷ (codes "Example: " ++ (codes prog ++ codes " 192.168.1.100 8080 udp multicast 239.1.1.1"))
    ∷ []

module _ (inet_aton : String → Option ℕ) (s : Sockets) where
  -- Lines 55 to 71. A null pointer given to `inet_aton` is a crash, `none`.
  unfoldable pub join_group : List String → String → ℕ → ℕ → Option Run
  join_group argv proto address port =
      if length argv == 5
        && (str_eq proto "udp"
            && elim (arg argv 4) [ none ↦ false | some a ↦ str_eq a "multicast" ])
      then elim (arg argv 5) [
        | none ↦ none
        | some text ↦ elim (inet_aton text) [
          | none ↦ some (refused ((codes "Invalid multicast group: " ++ codes text) ∷ []) [])
          | some a ↦
              if s.joined
              then some (send_all s proto a port (some a))
              else some (refused [] (codes "Failed to join multicast group" ∷ []))
        ]
      ]
      else some (send_all s proto address port none)

  -- Lines 41 to 53.
  unfoldable pub resolve : List String → String → String → String → Option Run
  unfolding join_group
  resolve argv ip port proto =
      if not s.opened
      then some (refused [] (codes "Failed to create socket" ∷ []))
      else elim (inet_aton ip) [
        | none ↦ some (refused ((codes "Invalid IP address: " ++ codes ip) ∷ []) [])
        | some address ↦ join_group argv proto address (port_of port)
      ]

  unfoldable pub generator_main : List String → Option Run
  unfolding resolve
  generator_main (prog ∷ ip ∷ port ∷ proto ∷ rest) =
      let argv = prog ∷ ip ∷ port ∷ proto ∷ rest in
      if str_eq proto "multicast" && not (length argv == 5)
      then some (refused (usage prog) [])
      else if str_eq proto "tcp"
      then resolve argv ip port proto
      else if str_eq proto "udp"
      then resolve argv ip port proto
      else some (refused ((codes "Invalid protocol: " ++ codes proto) ∷ []) [])
  generator_main (prog ∷ rest) = some (refused (usage prog) [])
  generator_main [] = some (refused [] [])
