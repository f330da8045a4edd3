-- ===== src/Crdt/Tests.antt =====
-- Runs of crates/noeta-crdt on small states, and its theorems at inputs that meet their hypotheses.
use Prim.Native.Nat.Ordering.{lt}
use mathlib.Core.List.Memᴰ.{head}
use para_p2p.Common.{ℕ, ◌≡◌, refl, String, Bool, true, false, not, List, [], ◌∷◌, some, arith}
use para_p2p.Common.Order.{string_ord, nat_ord}
use para_p2p.Common.BTree.{get, upsert, merge_with, values, keys}
use para_p2p.Crdt.Clock.{Dot, next_after, dot_ord, cmp_dot}
use para_p2p.Crdt.GCounter
use para_p2p.Crdt.GCounter.{GCounter}
use para_p2p.Crdt.GCounter.Laws as GCounterLaws
use para_p2p.Crdt.GCounter.Laws.{gcounter_mergeable}
use para_p2p.Crdt.GCounter.Replay.{merge-replay, replay, only}
use para_p2p.Crdt.PnCounter
use para_p2p.Crdt.PnCounter.{PnCounter}
use para_p2p.Crdt.GSet as GSets
use para_p2p.Crdt.GSet.{GSet}
use para_p2p.Crdt.GSet.Laws as GSetLaws
use para_p2p.Crdt.GSet.Laws.{contains-merge}
use para_p2p.Crdt.Lww
use para_p2p.Crdt.Lww.{LwwRegister}
use para_p2p.Crdt.Lww.Writes.{merge-set_later}
use para_p2p.Crdt.OrSet
use para_p2p.Crdt.OrSet.{OrSet}
use para_p2p.Crdt.OrSet.Edits.{Edit, edit, edit_all, edit_plain, edit_all_plain, contains-edit_all}
use para_p2p.Crdt.OrSet.Peers.{Peers, start, put, post, Step, Reaches}
use para_p2p.Crdt.OrSet.Peers.Reached.{contains-edit_reached}
use para_p2p.Crdt.OrSet.Tags.{
  IsValid, new-IsValid, insert-IsValid, remove-IsValid, observed, entombed,
}
use para_p2p.Crdt.OrSet.Laws.{OrSet-join, merge-IsValid}
use para_p2p.Crdt.OrSet.Membership.{contains-merge-remove, contains-merge-remove_unseen}
use para_p2p.Crdt.OrSet.Fresh.{minted, contains-merge-insert, contains-remove_shared}

-- Counters of two replicas that both know of each other.
abbrev counter_a : GCounter
counter_a = GCounter.increment (GCounter.increment GCounter.new "A" 3) "B" 1

abbrev counter_b : GCounter
counter_b = GCounter.increment (GCounter.increment GCounter.new "A" 2) "B" 9

gcounter_merge_max : GCounter.value (GCounter.merge counter_a counter_b) ≡ 12
unfolding GCounter.value GCounter.merge GCounter.increment GCounter.new merge_with upsert values
gcounter_merge_max = refl

counter_a-IsValid : GCounterLaws.IsValid counter_a
counter_a-IsValid =
    GCounterLaws.increment-IsValid (GCounter.increment GCounter.new "A" 3) "B" 1
      (GCounterLaws.increment-IsValid GCounter.new "A" 3 GCounterLaws.new-IsValid)

counter_b-IsValid : GCounterLaws.IsValid counter_b
counter_b-IsValid =
    GCounterLaws.increment-IsValid (GCounter.increment GCounter.new "A" 2) "B" 9
      (GCounterLaws.increment-IsValid GCounter.new "A" 2 GCounterLaws.new-IsValid)

abbrev own_a : String → Bool
own_a r = elim (string_ord.cmp r "B") [ lt ↦ true | _ ↦ false ]

abbrev history : List (String × ℕ)
history = ("A", 3) ∷ ("B", 1) ∷ ("A", 2) ∷ []

merge-replay_example :
    GCounter.merge
      (replay GCounter.new (only own_a history))
      (replay GCounter.new (only (λ r. not (own_a r)) history))
    ≡ replay GCounter.new history
merge-replay_example = merge-replay own_a history

abbrev balance : PnCounter
balance = PnCounter.increment PnCounter.new "A" 5

counter-value : (GCounter.value balance.positive ≡ 5) × (GCounter.value balance.negative ≡ 0)
unfolding PnCounter.increment PnCounter.new GCounter.value GCounter.increment GCounter.new upsert
    values
counter-value = (refl, refl)

abbrev names : GSet
names = GSets.insert (GSets.insert GSets.new "x") "y"

names-IsValid : GSetLaws.IsValid names
names-IsValid =
    GSetLaws.insert-IsValid (GSets.insert GSets.new "x") "y"
      (GSetLaws.insert-IsValid GSets.new "x" GSetLaws.new-IsValid)

-- Registers.
abbrev draft : LwwRegister ℕ
draft = Lww.set Lww.new "A" 1

draft-counter : (Lww.merge (Lww.new {V = ℕ}) draft).stamp.counter ≡ 1
unfolding Lww.merge Lww.set Lww.new next_after cmp_dot Lww.cmp_write
draft-counter = refl

merge-set_later_example :
    let c = Lww.set (Lww.merge Lww.new draft) "0" 2 in
    (Lww.merge draft c ≡ c) × (Lww.merge c draft ≡ c) × (Lww.get c ≡ some 2)
merge-set_later_example = merge-set_later draft Lww.new "0" 2 (omega (arith, draft-counter))

-- Sets: two replicas, of which the first inserted 5 and the second 7 and 5.
abbrev nothing : OrSet ℕ
nothing = OrSet.new

abbrev fives : OrSet ℕ
fives = OrSet.insert nothing "A" 5

abbrev both : OrSet ℕ
both = OrSet.insert (OrSet.insert nothing "B" 7) "B" 5

fives-IsValid : IsValid fives
fives-IsValid = insert-IsValid nothing "A" 5 new-IsValid

both-IsValid : IsValid both
both-IsValid =
    insert-IsValid (OrSet.insert nothing "B" 7) "B" 5 (insert-IsValid nothing "B" 7 new-IsValid)

OrSet-join_example :
    (OrSet.merge fives both ≡ OrSet.merge both fives)
    × (OrSet.merge (OrSet.merge fives both) nothing ≡ OrSet.merge fives (OrSet.merge both nothing))
    × (OrSet.merge fives fives ≡ fives)
OrSet-join_example = OrSet-join fives both nothing fives-IsValid both-IsValid new-IsValid

-- The tag of the one insertion of 5 that the first replica made.
abbrev five : Dot
five = next_after 0 "A"

fives-observed : (observed fives 5 five ≡ true) × (entombed fives five ≡ false)
unfolding OrSet.insert OrSet.new OrSet.tags_of OrSet.highest_counter get upsert values keys
    next_after cmp_dot
fives-observed = (refl, refl)

both-observed : (observed both 5 five ≡ false) × (entombed both five ≡ false)
unfolding OrSet.insert OrSet.new OrSet.tags_of OrSet.highest_counter get upsert values keys
    next_after cmp_dot
both-observed = (refl, refl)

contains-merge-remove_unseen_example :
    (OrSet.contains (OrSet.merge (OrSet.remove both 5) fives) 5 ≡ true)
    × (OrSet.contains (OrSet.merge fives (OrSet.remove both 5)) 5 ≡ true)
contains-merge-remove_unseen_example =
    contains-merge-remove_unseen both fives 5 five both-IsValid fives-IsValid fives-observed
      both-observed.0 both-observed.1

contains-merge-remove_example :
    (OrSet.contains (OrSet.merge (OrSet.remove fives 5) fives) 5 ≡ false)
    × (OrSet.contains (OrSet.merge fives (OrSet.remove fives 5)) 5 ≡ false)
contains-merge-remove_example =
    contains-merge-remove fives fives 5 fives-IsValid fives-IsValid (λ d h. h)

abbrev gone : OrSet ℕ
gone = OrSet.remove fives 5

gone-counter : (OrSet.highest_counter gone ≡ 1) × (entombed both (minted gone "A") ≡ false)
unfolding OrSet.insert OrSet.remove OrSet.new OrSet.highest_counter get upsert merge_with values
    keys next_after cmp_dot
gone-counter = (refl, refl)

contains-merge-insert_example :
    (OrSet.contains (OrSet.insert gone "A" 5) 5 ≡ true)
    × (OrSet.contains (OrSet.merge (OrSet.insert gone "A" 5) both) 5 ≡ true)
contains-merge-insert_example =
    contains-merge-insert gone both "A" 5 (remove-IsValid fives 5 fives-IsValid) both-IsValid
      (omega (arith, gone-counter)) gone-counter.1

-- Two replicas that share the id "A" and insert from one state: the two elements get one tag.
abbrev shared : OrSet ℕ
shared = OrSet.merge fives (OrSet.insert nothing "A" 9)

shared-IsValid : IsValid shared
shared-IsValid =
    merge-IsValid fives (OrSet.insert nothing "A" 9) fives-IsValid
      (insert-IsValid nothing "A" 9 new-IsValid)

shared-tags :
    (OrSet.tags_of shared 5 ≡ (five, tt) ∷ []) × (OrSet.tags_of shared 9 ≡ (five, tt) ∷ [])
unfolding OrSet.insert OrSet.merge OrSet.new OrSet.tags_of OrSet.highest_counter get upsert
    merge_with values keys next_after cmp_dot
shared-tags = (refl, refl)

contains-remove_shared_example : OrSet.contains (OrSet.remove shared 5) 9 ≡ false
contains-remove_shared_example =
    contains-remove_shared shared 5 9 shared-IsValid
      (λ d k. rw shared-tags.0 (rw shared-tags.1 at k.0))

-- An element that one replica removes and another adds again, on one state.
abbrev edits : List (Edit ℕ)
edits =
    Edit.insertion "A" 5
    ∷ Edit.insertion "B" 7
    ∷ Edit.removal 5
    ∷ Edit.insertion "B" 5
    ∷ Edit.removal 7
    ∷ []

contains-edit_all_example :
    OrSet.contains (edit_all nothing edits) 5 ≡ edit_all_plain (λ e. false) edits 5
contains-edit_all_example = contains-edit_all edits 5 (omega arith)

-- The replica A inserts 5 and sends its state, which B merges twice.
abbrev inserted : Peers ℕ
inserted = put start "A" (OrSet.insert (start.states "A") "A" 5)

abbrev sent : Peers ℕ
sent = post inserted "A"

abbrev received : Peers ℕ
received = put sent "B" (OrSet.merge (sent.states "B") (inserted.states "A"))

abbrev received_again : Peers ℕ
received_again = put received "B" (OrSet.merge (received.states "B") (inserted.states "A"))

received_again-Reaches : Reaches 4 received_again
unfolding post put
received_again-Reaches =
    Reaches.next
      (Reaches.next
        (Reaches.next (Reaches.next Reaches.here (Step.insert_at start "A" 5))
          (Step.send_from inserted "A"))
        (Step.receive_at sent "B" (inserted.states "A") (head refl)))
      (Step.receive_at received "B" (inserted.states "A") (head refl))

contains-edit_reached_example :
    OrSet.contains (edit (received_again.states "B") (Edit.removal 5)) 5
    ≡ edit_plain (OrSet.contains (received_again.states "B")) (Edit.removal 5) 5
contains-edit_reached_example =
    contains-edit_reached received_again-Reaches (omega arith) "B" (Edit.removal 5) 5
