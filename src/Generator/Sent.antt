-- ===== src/Generator/Sent.antt =====
-- What the generator sends, and where to.
use Prim.Native.String.{String}
use nano_net_ull.Base.{
  ℕ, zero, suc, ◌+◌, ◌<◌, ◌≡◌, ◌⊎◌, inl, inr, refl, ap, arith, Bool, true, false, Option, none,
  some, List, [], ◌∷◌, Option-cases, Bool-cases,
}
use nano_net_ull.Generator.{market_packet}
use nano_net_ull.Generator.Main.{
  Sockets, Run, send_loop, rounds, send_all, join_group, resolve, generator_main,
}
use nano_net_ull.Tool.{arg, port_of}
use nano_net_ull.Tool.Args.{arg-length}

-- The packets of the rounds from `i` on, `n` of them.
pub stream : Sockets → ℕ → ℕ → List (List ℕ)
stream s i zero = []
stream s i (suc n) = market_packet (s.seconds i) i ∷ stream s (i + 1) n

-- The packets of the first rounds of the loop: of all of them where no send fails, and otherwise of
-- those before the first that fails.
pub record IsStream (s : Sockets) (i left : ℕ) (packets : List (List ℕ)) (broke : Bool)
    : Type 0 where
  pub n : ℕ
  pub same : packets ≡ stream s i n
  pub before : (j : ℕ) → j < n → s.sent (i + j) ≡ true
  pub ending :
      ((broke ≡ false) × (n ≡ left)) ⊎ ((broke ≡ true) × (n < left) × (s.sent (i + n) ≡ false))

sent_from :
    (s : Sockets) (i n : ℕ)
    → s.sent i ≡ true
    → ((j : ℕ) → j < n → s.sent (i + 1 + j) ≡ true)
    → (j : ℕ) → j < suc n
    → s.sent (i + j) ≡ true
sent_from s i n ok h zero lt = let e : i + 0 ≡ i = omega arith in rw e ok
sent_from s i n ok h (suc j) lt =
    let e : i + suc j ≡ i + 1 + j = omega arith in rw e (h j (omega arith))

send_loop-IsStream :
    (s : Sockets) (left i : ℕ) → IsStream s i left (send_loop s left i).0 (send_loop s left i).1
unfolding send_loop stream
send_loop-IsStream s zero i = record {
  n = 0;
  same = refl;
  before = λ j h. absurd (omega arith);
  ending = inl (refl, refl);
}
send_loop-IsStream s (suc left) i = elim (Bool-cases (s.sent i)) [
  | inl ok ↦
      let r = send_loop-IsStream s left (i + 1) in
      let e : i + suc r.n ≡ i + 1 + r.n = omega arith in
      rw ok (record {
        n = suc r.n;
        same = ap (λ (l : List (List ℕ)). market_packet (s.seconds i) i ∷ l) r.same;
        before = sent_from s i r.n ok r.before;
        ending = rw e (ground (arith, r.ending));
      })
  | inr bad ↦
      let e : i + 0 ≡ i = omega arith in
      rw bad (record {
        n = 0;
        same = refl;
        before = λ j h. absurd (omega arith);
        ending = rw e (ground (arith, bad));
      })
]

-- A run that has sent to an address.
pub record IsSent (inet_aton : String → Option ℕ) (s : Sockets) (argv : List String) (r : Run)
    : Type 0 where
  pub ip : String
  pub port : String
  pub first : arg argv 1 ≡ some ip
  pub second : arg argv 2 ≡ some port
  pub address : ℕ
  pub resolved : inet_aton ip ≡ some address
  pub target : r.target ≡ some (address, port_of port)
  pub single : r.group ≡ none
  pub broke : Bool
  pub sent : IsStream s 0 1000 r.packets broke

module _ (inet_aton : String → Option ℕ) (s : Sockets) where
  -- The group is read from behind the last argument.
  join_group-send_all :
      (argv : List String) (proto : String) (address port : ℕ) {r : Run}
      → join_group inet_aton s argv proto address port ≡ some r
      → r ≡ send_all s proto address port none
  unfolding join_group
  join_group-send_all argv proto address port h = ground (arith, arg-length argv)

  send_all-sent :
      (proto : String) (address port : ℕ)
      → let r = send_all s proto address port none in
        r.status ≡ 0
        → (r.target ≡ some (address, port))
          × (r.group ≡ none)
          × (r.packets ≡ (send_loop s rounds 0).0)
  unfolding send_all
  send_all-sent proto address port h = ground arith

  resolve-IsSent :
      (argv : List String) (ip port proto : String) {r : Run}
      → arg argv 1 ≡ some ip
      → arg argv 2 ≡ some port
      → resolve inet_aton s argv ip port proto ≡ some r
      → r.status ≡ 0
      → IsSent inet_aton s argv r
  unfolding resolve
  resolve-IsSent argv ip port proto {r} first second h ok = elim (Bool-cases (s.opened)) [
    | inr closed ↦ absurd (ground arith)
    | inl open_ ↦ elim (Option-cases (inet_aton ip)) [
      | inl e ↦ absurd (ground arith)
      | inr (a, e) ↦
          let all : r ≡ send_all s proto a (port_of port) none =
            ground (arith, join_group-send_all argv proto a (port_of port) {r = r}) in
          let t = send_all-sent proto a (port_of port) in
          record {
            ip = ip;
            port = port;
            first = first;
            second = second;
            address = a;
            resolved = e;
            target = ground (arith, t);
            single = ground (arith, t);
            broke = (send_loop s rounds 0).1;
            sent =
                let same : r.packets ≡ (send_loop s rounds 0).0 = ground (arith, t) in
                rw same (send_loop-IsStream s 1000 0);
          }
    ]
  ]

  -- A run of the generator that ends with status 0 has sent to the address and the port of its first
  -- two arguments, whatever the others are, and has joined no group: the 1000 packets, or, where a send
  -- fails, those before it.
  pub generator_main-IsSent :
      (argv : List String) {r : Run}
      → generator_main inet_aton s argv ≡ some r
      → r.status ≡ 0
      → IsSent inet_aton s argv r
  unfolding generator_main
  generator_main-IsSent [] h ok = absurd (ground arith)
  generator_main-IsSent (a ∷ []) h ok = absurd (ground arith)
  generator_main-IsSent (a ∷ b ∷ []) h ok = absurd (ground arith)
  generator_main-IsSent (a ∷ b ∷ c ∷ []) h ok = absurd (ground arith)
  generator_main-IsSent (prog ∷ ip ∷ port ∷ proto ∷ rest) {r} h ok =
      resolve-IsSent (prog ∷ ip ∷ port ∷ proto ∷ rest) ip port proto refl refl (ground arith) ok
