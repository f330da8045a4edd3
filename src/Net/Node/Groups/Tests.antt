-- ===== src/Net/Node/Groups/Tests.antt =====
-- A poll of an encrypted group whose channel holds the key bundle of a member and a message.
use para_p2p.Common.{ℕ, String, List, [], ◌∷◌, none, some, ◌≡◌, ◌≢◌, refl, false, true, arith}
use para_p2p.Common.HashSet
use para_p2p.Common.Io.{Result, ok, err, pure}
use native.Mathlib.Decide.{ℕ_discrete}
use para_p2p.Common.Order.{nat_ord, string_discrete}
use para_p2p.Net.Crypto.{Crypto, Bytes, application, key_bundle}
use para_p2p.Net.Group.{receive}
use para_p2p.Net.Node.{start, poll_sub}
use para_p2p.Net.Node.Groups.{
  GroupNode, GroupEntry, group_poll, pop_inbox, take_raw, send_all, on_entry,
}
use para_p2p.Net.Node.Groups.Polls.{group_poll-ends}
use para_p2p.Net.Node.Network.{P2panda}

-- A network that takes everything and brings nothing.
abbrev quiet : P2panda
quiet = record {
  World = Unit {0};
  GossipHandle = Unit {0};
  SyncHandle = Unit {0};
  Header = ℕ;
  Hash = ℕ;
  join_gossip = λ topic. pure tt;
  publish_gossip = λ handle message. pure tt;
  begin = pure tt;
  commit = pure tt;
  associate = λ topic. pure tt;
  insert_operation = λ op. pure tt;
  join_sync = λ topic. pure tt;
  publish_sync = λ handle op. pure tt;
  subscribe_sync = λ handle. pure tt;
  build = λ message seq_num backlink. seq_num;
  hash = λ header. header;
}

-- A manager that encrypts nothing, of actor 1; the empty operation is the key bundle of actor 2.
abbrev open_manager : Crypto ℕ
open_manager = record {
  State = Unit {0};
  SpaceId = String;
  SpacesOp = Bytes;
  Access = Unit {0};
  read_access = tt;
  digest = λ topic. topic;
  to_wire = λ op. op;
  from_wire = ok;
  is_application = λ op. false;
  id = λ s. 1;
  key_bundle_message = pure [];
  create_space = λ space initial. pure [];
  publish = λ space plaintext. pure plaintext;
  add = λ space member access. pure [];
  remove = λ space member. pure [];
  receive = λ op. elim op [
    | [] ↦ pure (key_bundle 2 ∷ [])
    | n ∷ rest ↦ pure (application (n ∷ rest) ∷ [])
  ];
  is_member = λ space actor. pure true;
}

abbrev no_key : String → Result ℕ
no_key s = err "no key"

abbrev entry : GroupEntry quiet open_manager (pure tt) no_key
entry = record {
  group = record {
    crypto = tt;
    space_id = "room";
    members = 1 ∷ 2 ∷ [];
    me = 1;
    creator = false;
    welcomed = true;
    added = HashSet.empty;
    known_bundles = HashSet.empty;
    pending = none;
  };
  inbox = [];
}

abbrev member : List Bytes → GroupNode quiet open_manager (pure tt) no_key
member channel = record {
  node = record (start quiet tt) { subs = λ id. some channel };
  crypto = some tt;
  groups = λ topic. some entry;
  group_subs = λ id. some "room";
}

abbrev channel : List Bytes
channel = [] ∷ (5 ∷ []) ∷ []

member-polled :
    (group_poll quiet open_manager (pure tt) no_key 3 0 (member channel)).0
    ≡ ok (some (some (5 ∷ [])))
unfolding group_poll pop_inbox take_raw send_all on_entry poll_sub receive start string_discrete
    ℕ_discrete
member-polled = refl

group_poll-ends_example :
    (group_poll quiet open_manager (pure tt) no_key 3 0 (member channel)).0 ≢ ok none
group_poll-ends_example =
    group_poll-ends quiet open_manager (pure tt) no_key 3 0 (member channel) (omega arith)
