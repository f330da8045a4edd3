-- ===== src/Net/Node/Durable/Delivery.antt =====
-- What a subscription hands on of the messages that its peers have published.
use mathlib.Core.List.{append-nil, append_assoc}
use para_p2p.Common.{
  ℕ, suc, zero, ◌≡◌, refl, ◌∙◌, sym, ap, String, List, [], ◌∷◌, ◌++◌, Option, none, some, arith,
  length, unwrap_or,
}
use para_p2p.Common.HashMap.{string_eq, nat_eq}
use para_p2p.Net.Crypto.{Bytes}
use para_p2p.Net.Node.{P2pNode, poll_sub, send}
use para_p2p.Net.Node.Durable.{create_operation, sync_delivers}
use para_p2p.Net.Node.Network.{P2panda, operation_received}

module _ (N : P2panda) (sub : ℕ) (topic : String) where
  open N use {Hash}

  -- A peer's operation arrives, with the message, its number and its predecessor.
  abbrev pub arrives : Bytes × ℕ × Option Hash → P2pNode N → P2pNode N
  arrives (m, seq_num, backlink) =
      sync_delivers N sub topic (operation_received (create_operation N m seq_num backlink).1.body)

  abbrev pub arrive_all : List (Bytes × ℕ × Option Hash) → P2pNode N → P2pNode N
  arrive_all [] n = n
  arrive_all (m ∷ ms) n = arrive_all ms (arrives m n)

  abbrev pub messages : List (Bytes × ℕ × Option Hash) → List Bytes
  messages [] = []
  messages ((m, seq_num, backlink) ∷ ms) = m ∷ messages ms

  -- The answers to that many polls.
  abbrev pub polled : ℕ → P2pNode N → List (Option Bytes)
  polled zero n = []
  polled (suc k) n = (poll_sub N sub n).0 ∷ polled k (poll_sub N sub n).1

  abbrev pub all_some : List Bytes → List (Option Bytes)
  all_some [] = none ∷ []
  all_some (m ∷ ms) = some m ∷ all_some ms

  -- A message is the payload that its operation carries, also the empty one.
  payload :
      (m : Bytes) (seq_num : ℕ) (backlink : Option Hash)
      → unwrap_or (create_operation N m seq_num backlink).1.body [] ≡ m
  unfolding create_operation
  payload [] seq_num backlink = refl
  payload (x ∷ m) seq_num backlink = ground arith

  arrives-subs :
      (m : Bytes) (seq_num : ℕ) (backlink : Option Hash) (n : P2pNode N) (queue : List Bytes)
      → n.subs sub ≡ some queue
      → (arrives (m, seq_num, backlink) n).subs sub ≡ some (queue ++ (m ∷ []))
  unfolding sync_delivers send
  arrives-subs m seq_num backlink n queue h = ground (arith, payload m seq_num backlink)

  arrive_all-subs :
      (ms : List (Bytes × ℕ × Option Hash)) (n : P2pNode N) (queue : List Bytes)
      → n.subs sub ≡ some queue
      → (arrive_all ms n).subs sub ≡ some (queue ++ messages ms)
  arrive_all-subs [] n queue h = h ∙ ap some (sym (append-nil queue))
  arrive_all-subs ((m, k, b) ∷ ms) n queue h =
      arrive_all-subs ms (arrives (m, k, b) n) (queue ++ (m ∷ [])) (arrives-subs m k b n queue h)
      ∙ ap some (append_assoc queue (m ∷ []) (messages ms))

  polled-queue :
      (queue : List Bytes) (n : P2pNode N)
      → n.subs sub ≡ some queue
      → polled (suc (length queue)) n ≡ all_some queue
  unfolding poll_sub
  polled-queue [] n h = ground arith
  polled-queue (m ∷ queue) n h = ground (arith, polled-queue queue (poll_sub N sub n).1)

  -- Peers publish messages on a topic, empty ones too, and their operations arrive at a
  -- subscription with nothing pending. Its polls hand the messages on in the order of their
  -- arrival, each once, and then nothing.
  pub polled-arrive_all :
      (ms : List (Bytes × ℕ × Option Hash)) (n : P2pNode N)
      → n.subs sub ≡ some []
      → polled (suc (length (messages ms))) (arrive_all ms n) ≡ all_some (messages ms)
  polled-arrive_all ms n h =
      polled-queue (messages ms) (arrive_all ms n) (arrive_all-subs ms n [] h)
