-- ===== src/Net/Tests.antt =====
-- Runs of crates/noeta-para-p2p-net over small stand-ins for the manager, and its theorems at inputs
-- that meet their hypotheses.
use mathlib.Core.List.{Memᴰ}
use mathlib.Core.List.Memᴰ.{head, tail}
use para_p2p.Common.{
  suc, ◌≤◌, ◌≡◌, ◌↔◌, refl, String, Bool, true, false, List, [], ◌∷◌, none, arith, eq, filter, not,
}
use para_p2p.Common.Io.{Io, ok, err, pure, fail}
use para_p2p.Common.Order.{string_ord}
use para_p2p.Net.Crypto.{Crypto, Bytes, application, key_bundle}
use para_p2p.Net.Crypto.Traced.{traced}
use para_p2p.Net.Group.{
  EncryptedGroup, on_crypto, opened, announce, create, open_group, welcome_each, welcome_eligible,
  is_eligible, publish, flush, join, receive, add_member, remove_member, take_events, plaintexts,
  learn_bundles, same, minimum, is_creator,
}
use para_p2p.Net.Group.Election.{is_creator_unique}
use para_p2p.Net.Group.Steps.{Request, publishing, receiving, adding, removing, after_all}
use para_p2p.Net.Group.Pending.{publishing_all, join-publishing_all, join_failed}
use para_p2p.Net.Group.Rights.{after_all-IsGuest}
use para_p2p.Net.Group.Welcome.{welcome_eligible_lost}
use para_p2p.Net.Group.Once.{adds, removals, occurs, adds_once}

abbrev is_named : String → String → Bool
is_named a b = elim (string_ord.cmp a b) [ eq ↦ true | _ ↦ false ]

-- The manager of the actor `me`, which knows the members of one space. "Z" cannot be added, the
-- empty state cannot be encrypted, and the empty operation is the key bundle of "B".
abbrev toy : String → Crypto String
toy me = record {
  State = List String;
  SpaceId = String;
  SpacesOp = Bytes;
  Access = Unit {0};
  read_access = tt;
  digest = λ topic. topic;
  to_wire = λ op. op;
  from_wire = ok;
  is_application = λ op. false;
  id = λ s. me;
  key_bundle_message = pure [];
  create_space = λ space initial s. (ok [], me ∷ s);
  publish = λ space plaintext. elim plaintext [ [] ↦ fail "empty" | n ∷ rest ↦ pure (n ∷ rest) ];
  add = λ space member access.
      if_named member (fail "no bundle") (λ s. (ok ((1 ∷ []) ∷ []), member ∷ s));
  remove = λ space member s. (ok ((2 ∷ []) ∷ []), filter (λ m. not (is_named m member)) s);
  receive = λ op. elim op [
    | [] ↦ pure (key_bundle "B" ∷ [])
    | n ∷ rest ↦ pure (application (n ∷ rest) ∷ [])
  ];
  is_member = λ space actor. pure true;
}
  where
    if_named :
        String
        → Io (List String) (List Bytes)
        → Io (List String) (List Bytes)
        → Io (List String) (List Bytes)
    if_named member m n = elim (is_named member "Z") as (λ b. Io (List String) (List Bytes)) [
      | true ↦ m
      | false ↦ n
    ]

swapped : (m : String) → Memᴰ m ("B" ∷ "A" ∷ []) ↔ Memᴰ m ("A" ∷ "B" ∷ [])
swapped m = (swap "B" "A", swap "A" "B")
  where
    swap : (a b : String) → Memᴰ m (a ∷ b ∷ []) → Memᴰ m (b ∷ a ∷ [])
    swap a b (head e) = tail (head e)
    swap a b (tail (head e)) = head e
    swap a b (tail (tail k)) = elim k [ ]

is_creator_unique_example :
    (elected : String) × Memᴰ elected ("B" ∷ "A" ∷ [])
    × ((me : String)
        → ((is_creator ("B" ∷ "A" ∷ []) me ≡ true) ↔ (me ≡ elected))
          × ((is_creator ("A" ∷ "B" ∷ []) me ≡ true) ↔ (me ≡ elected)))
is_creator_unique_example = is_creator_unique ("B" ∷ "A" ∷ []) ("A" ∷ "B" ∷ []) (λ e. cc e) swapped

abbrev names : List String
names = "A" ∷ "B" ∷ []

abbrev requests : List (Request String)
requests =
    receiving []
    ∷ publishing (5 ∷ [])
    ∷ removing "B"
    ∷ adding "B"
    ∷ receiving []
    ∷ receiving []
    ∷ []

B-welcome : (after_all (toy "B") requests (open_group (toy "B") "room" names []).1).welcomed ≡ true
unfolding open_group announce create on_crypto receive take_events plaintexts learn_bundles
    welcome_eligible is_eligible welcome_each join flush publish remove_member add_member is_creator
    minimum same
B-welcome = refl

-- The group of "B" before the welcome.
abbrev waiting : EncryptedGroup (toy "B")
waiting = opened (toy "B") [] "room" names

join-publishing_all_example :
    join (toy "B") (after_all (toy "B") (publishing_all (toy "B") ((4 ∷ []) ∷ []) (5 ∷ [])) waiting)
    ≡ (ok ((5 ∷ []) ∷ []), record waiting { crypto = []; welcomed = true; pending = none })
join-publishing_all_example =
    join-publishing_all (toy "B") ((4 ∷ []) ∷ []) (5 ∷ []) waiting [] [] (5 ∷ []) refl refl refl

join_failed_example :
    let settled : EncryptedGroup (toy "B") = record waiting {
      crypto = [];
      welcomed = true;
      pending = none;
    } in
    (join (toy "B") (after_all (toy "B") (publishing_all (toy "B") ((4 ∷ []) ∷ []) []) waiting)
      ≡ (err "empty", settled))
    × (join (toy "B") settled ≡ (ok [], settled))
join_failed_example = join_failed (toy "B") ((4 ∷ []) ∷ []) [] waiting [] [] "empty" refl refl refl

B-guest : is_creator names "B" ≡ false
unfolding is_creator minimum same
B-guest = refl

after_all-IsGuest_example :
    (after_all
      (traced (toy "B"))
      requests
      (open_group (traced (toy "B")) "room" names ([], [])).1).crypto.1
    ≡ []
after_all-IsGuest_example = after_all-IsGuest (toy "B") "room" names [] [] requests B-guest

-- The group of the creator "A" that knows every bundle.
abbrev leading : List String → EncryptedGroup (toy "A")
leading members = record {
  crypto = "A" ∷ [];
  space_id = "room";
  members = members;
  me = "A";
  creator = true;
  welcomed = true;
  added = λ m. is_named m "A";
  known_bundles = λ m. true;
  pending = none;
}

B-welcomed : (welcome_eligible (toy "A") (leading names)).0 ≡ ok ((1 ∷ []) ∷ [])
unfolding welcome_eligible is_eligible welcome_each on_crypto same
B-welcomed = refl

abbrev with_absent : EncryptedGroup (toy "A")
with_absent = leading ("A" ∷ "B" ∷ "Z" ∷ [])

B-Z-eligible : filter (is_eligible (toy "A") with_absent) with_absent.members ≡ "B" ∷ "Z" ∷ []
unfolding is_eligible same
B-Z-eligible = refl

welcome_eligible_lost_example :
    ((welcome_eligible (toy "A") with_absent).0 ≡ err "no bundle")
    × (is_eligible (toy "A") (welcome_eligible (toy "A") with_absent).1 "B" ≡ false)
welcome_eligible_lost_example =
    welcome_eligible_lost (toy "A") with_absent "B" "Z" [] ((1 ∷ []) ∷ []) "no bundle" refl
      B-Z-eligible refl refl

B-once : occurs "B" names ≤ 1
unfolding same
B-once = omega arith

adds_once_example :
    adds "B"
      (after_all
        (traced (toy "A"))
        requests
        (open_group (traced (toy "A")) "room" names ([], [])).1).crypto.1
    ≤ suc (removals "B" requests)
adds_once_example = adds_once (toy "A") "B" "room" names [] requests B-once

-- "B" is welcomed when its bundle arrives, and again after its removal.
welcomed_again :
    adds "B"
      (after_all
        (traced (toy "A"))
        requests
        (open_group (traced (toy "A")) "room" names ([], [])).1).crypto.1
    ≡ 2
unfolding open_group announce create on_crypto receive take_events plaintexts learn_bundles
    welcome_eligible is_eligible welcome_each join publish remove_member add_member is_creator
    minimum same
welcomed_again = refl

-- A list that names "B" twice has it added twice.
added_twice :
    adds "B"
      (after_all
        (traced (toy "A"))
        (receiving [] ∷ [])
        (open_group (traced (toy "A")) "room" ("A" ∷ "B" ∷ "B" ∷ []) ([], [])).1).crypto.1
    ≡ 2
unfolding open_group announce create on_crypto receive take_events plaintexts learn_bundles
    welcome_eligible is_eligible welcome_each join is_creator minimum same
added_twice = refl
