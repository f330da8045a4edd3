-- ===== src/Net/Spaces/Tests.antt =====
-- A store with one place in each table, a manager that answers with numbers, and a log that is a
-- list.
use para_p2p.Common.{ℕ, List, [], ◌∷◌, Option, none, some, ◌≡◌, refl, sym, arith}
use para_p2p.Common.Io.{ok, err, pure}
use para_p2p.Common.Io.Succeeds.{pure-ok}
use para_p2p.Net.Crypto.{Event}
use para_p2p.Net.Spaces.{
  P2pandaSpaces, SpacesArgs, SpacesOp, all_parts, add, open_space, persist, receive, persist_groups,
  persist_space,
}
use para_p2p.Net.Spaces.Forge.{
  P2pandaLog, LogLaws, next_place, mint, forge, forge_all, latest_of, IsChain, onto,
  forge_all-IsChain,
}
use para_p2p.Net.Spaces.Persisted.{Change, answer, change-persisted, receive-persisted}
use para_p2p.Net.Spaces.Stored.{StoreLaws, HasGroups, HasSpace}

record Store : Type 0 where
  pub groups : Option ℕ
  pub space : Option ℕ
  pub operation : Option ℕ

abbrev spaces : P2pandaSpaces ℕ
spaces = record {
  World = Store;
  SpaceId = Unit {0};
  Header = ℕ;
  Hash = Unit {0};
  Access = Unit {0};
  AuthGroupState = ℕ;
  SpacesState = ℕ;
  SpacesStoreState = ℕ;
  Space = Unit {0};
  Permit = Unit {0};
  read_access = tt;
  digest_space = λ topic. tt;
  digest = λ b. tt;
  encode = λ h. h ∷ [];
  decode = λ b. elim b [ h ∷ [] ↦ ok h | _ ↦ err "no header" ];
  hash = λ h. tt;
  extensions = λ h. SpacesArgs.control;
  id = λ w. 1;
  key_bundle_message = pure 1;
  create_space = λ id initial. pure (5, 6, 7 ∷ []);
  space = λ id. pure (some tt);
  process = λ h. pure (some h, none, Event.key_bundle 2 ∷ []);
  publish = λ s b. pure (8, 9);
  add = λ s m a. pure (3, 4, 10, 11);
  remove = λ s m. pure (3, 4, 10, 11);
  members = λ s. pure [];
  space_id = λ z. tt;
  into_store = λ z. z;
  begin = pure tt;
  commit = λ p. pure tt;
  set_groups_state_tx = λ key y w. (ok tt, record w { groups = some y });
  set_space_state_tx = λ id z w. (ok tt, record w { space = some z });
  insert_operation = λ key h w. (ok tt, record w { operation = some h });
}

abbrev store_laws : StoreLaws spaces
store_laws = record {
  groups_at = λ w key. w.groups;
  space_at = λ w id. w.space;
  operation_at = λ w key. w.operation;
  set_groups-commit = λ w u v t permit key y b s c. (ground arith, λ id. ground arith);
  set_space-commit = λ w u v t permit id z b s c. (ground arith, λ key. ground arith);
  insert_operation-commit = λ w u v t permit key op b s c. ground arith;
}

abbrev fresh : Store
fresh = record { groups = none; space = none; operation = none }

added_run : add spaces tt 2 tt fresh ≡ (
  ok (all_parts spaces (10 ∷ 11 ∷ [])),
  record { groups = some 3; space = some 4; operation = none },
)
unfolding add open_space persist persist_groups persist_space
added_run = refl

abbrev after_add : Store
after_add = record { groups = some 3; space = some 4; operation = none }

change-persisted_example :
    (y z : ℕ) × (headers : List ℕ) × (u : Store) × (answer spaces (Change.added 2 tt) tt fresh
      ≡ (ok (y, z, headers), u))
    × HasGroups spaces store_laws after_add y
    × HasSpace spaces store_laws after_add z
    × (all_parts spaces (10 ∷ 11 ∷ []) ≡ all_parts spaces headers)
change-persisted_example =
    change-persisted spaces store_laws (Change.added 2 tt) tt fresh after_add
      (all_parts spaces (10 ∷ 11 ∷ [])) added_run

abbrev incoming : SpacesOp spaces
incoming = record { header = 12 }

abbrev after_receive : Store
after_receive = record { groups = some 12; space = none; operation = some 12 }

received_run : receive spaces incoming fresh ≡ (ok (Event.key_bundle 2 ∷ []), after_receive)
unfolding receive persist_groups persist_space
received_run = refl

receive-persisted_example :
    (groups space : Option ℕ) × (u v : Store) × (u.operation ≡ some 12)
    × (spaces.process 12 u ≡ (ok (groups, space, Event.key_bundle 2 ∷ []), v))
    × ((y : ℕ) → groups ≡ some y → HasGroups spaces store_laws after_receive y)
    × ((z : ℕ) → space ≡ some z → HasSpace spaces store_laws after_receive z)
receive-persisted_example =
    receive-persisted spaces store_laws incoming fresh after_receive (Event.key_bundle 2 ∷ [])
      received_run

-- A header is its number, the number that it links to, and its arguments.
record Signed : Type 0 where
  pub number : ℕ
  pub link : Option ℕ
  pub content : ℕ

abbrev chain : P2pandaLog
chain = record {
  World = List Signed;
  Header = Signed;
  Hash = ℕ;
  SpacesArgs = ℕ;
  Permit = Unit {0};
  build = λ n link args. record { number = n; link = link; content = args };
  seq_num = λ h. h.number;
  backlink = λ h. h.link;
  hash = λ h. h.number;
  begin = pure tt;
  commit = λ p. pure tt;
  get_latest_entry_tx = λ id w. (ok (elim w [ [] ↦ none | h ∷ rest ↦ some h ]), w);
  insert_operation = λ key h id w. (ok tt, h ∷ w);
}

chain-latest :
    (w t : List Signed) (op : Option Signed)
    → chain.get_latest_entry_tx 0 w ≡ (ok op, t)
    → (op ≡ latest_of chain w) × (t ≡ w)
chain-latest [] t op h = let (a, b) = pure-ok none op [] t h in (sym a, sym b)
chain-latest (x ∷ w) t op h = let (a, b) = pure-ok (some x) op (x ∷ w) t h in (sym a, sym b)

abbrev chain_laws : LogLaws chain
chain_laws = record {
  log = λ w. w;
  begin-log = λ w t permit h. ground arith;
  latest-log = chain-latest;
  insert-log = λ w t op h. ground arith;
  commit-log = λ w t permit h. ground arith;
  seq_num-build = λ n link args. refl;
  backlink-build = λ n link args. refl;
}

abbrev minted : List Signed
minted =
    record { number = 0; link = none; content = 7 }
    ∷ record { number = 1; link = some 0; content = 8 }
    ∷ []

minted_run : forge_all chain (7 ∷ 8 ∷ []) [] ≡ (ok minted, onto chain minted [])
unfolding forge_all forge mint next_place
minted_run = refl

forge_all-IsChain_example :
    (onto chain minted [] ≡ onto chain minted []) × IsChain chain (onto chain minted [])
forge_all-IsChain_example =
    forge_all-IsChain chain chain_laws (7 ∷ 8 ∷ []) [] (onto chain minted []) minted minted_run tt
