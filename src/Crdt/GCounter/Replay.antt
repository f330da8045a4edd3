-- ===== src/Crdt/GCounter/Replay.antt =====
-- Histories of increments. A replica counts only under its own id, so a node's state is the replay
-- of the operations that its own ids made.
use para_p2p.Common.{
  ℕ, ◌≡◌, ◌≢◌, refl, ap, ◌∙◌, inl, inr, String, List, [], ◌∷◌, Option, none, some, Bool, true,
  false, arith, not, unwrap_or, saturating_add, if◌then◌else◌, Bool-cases, eq,
}
use para_p2p.Common.Order.{string_ord}
use para_p2p.Common.BTree.{get}
use para_p2p.Common.BTree.Lookup.{get-upsert}
use para_p2p.Crdt.GCounter.{GCounter, new, increment, merge}
use para_p2p.Crdt.GCounter.Laws.{
  IsValid, new-IsValid, increment-IsValid, merge-IsValid, get-merge, GCounter-ext,
}

-- `ops.iter().fold(c, |c, (r, by)| c.increment(r, *by))`.
pub replay : GCounter → List (String × ℕ) → GCounter
replay c [] = c
replay c ((r, by) ∷ ops) = replay (increment c r by) ops

-- The operations of the replicas that `own` picks.
pub only : (String → Bool) → List (String × ℕ) → List (String × ℕ)
only own [] = []
only own ((r, by) ∷ ops) = if own r then (r, by) ∷ only own ops else only own ops

-- What one increment, by the replica `r`, makes of the count of `q`.
abbrev counted : Option ℕ → String → String → ℕ → Option ℕ
counted slot q r by = elim (string_ord.cmp q r) [
  | eq ↦ some (saturating_add (unwrap_or slot 0) by)
  | _ ↦ slot
]

-- What the operations make of the count of one replica.
tally : Option ℕ → String → List (String × ℕ) → Option ℕ
tally slot q [] = slot
tally slot q ((r, by) ∷ ops) = tally (counted slot q r by) q ops

get-increment :
    (c : GCounter) (q r : String) (n : ℕ)
    → get q (increment c r n).counts ≡ counted (get q c.counts) q r n
unfolding increment
get-increment c q r n = ground (
  arith,
  get-upsert q r (λ slot. saturating_add (unwrap_or slot 0) n) c.counts,
  string_ord.eq_of_cmp q r,
)

counted_other :
    (own : String → Bool) (slot : Option ℕ) (q r : String) (n : ℕ)
    → own q ≢ own r
    → counted slot q r n ≡ slot
counted_other own slot q r n h = ground (arith, string_ord.eq_of_cmp q r)

get-replay :
    (c : GCounter) (q : String) (ops : List (String × ℕ))
    → get q (replay c ops).counts ≡ tally (get q c.counts) q ops
unfolding replay tally
get-replay c q [] = refl
get-replay c q ((r, n) ∷ ops) = rw (← get-increment c q r n) (get-replay (increment c r n) q ops)

replay-IsValid : (c : GCounter) (ops : List (String × ℕ)) → IsValid c → IsValid (replay c ops)
unfolding replay
replay-IsValid c [] v = v
replay-IsValid c ((r, n) ∷ ops) v = replay-IsValid (increment c r n) ops (increment-IsValid c r n v)

tally-only :
    (own : String → Bool) (slot : Option ℕ) (q : String) (ops : List (String × ℕ))
    → own q ≡ true
    → tally slot q (only own ops) ≡ tally slot q ops
unfolding tally only
tally-only own slot q [] h = refl
tally-only own slot q ((r, n) ∷ ops) h = elim (Bool-cases (own r)) [
  | inl mine ↦ rw mine (tally-only own (counted slot q r n) q ops h)
  | inr other ↦ rw (other, counted_other own slot q r n (λ e. cc)) (tally-only own slot q ops h)
]

tally-only_other :
    (own : String → Bool) (slot : Option ℕ) (q : String) (ops : List (String × ℕ))
    → own q ≡ false
    → tally slot q (only own ops) ≡ slot
unfolding tally only
tally-only_other own slot q [] h = refl
tally-only_other own slot q ((r, n) ∷ ops) h = elim (Bool-cases (own r)) [
  | inl mine ↦ rw mine (
      ap (λ o. tally o q (only own ops)) (counted_other own slot q r n (λ e. cc))
      ∙ tally-only_other own slot q ops h)
  | inr other ↦ rw other (tally-only_other own slot q ops h)
]

get_new : (q : String) → get q new.counts ≡ none
unfolding get new
get_new q = refl

-- Split the replicas of a history between two nodes, so that each counts only under its own ids:
-- the merge of their states is the state of one node that saw every operation.
pub merge-replay :
    (own : String → Bool) (ops : List (String × ℕ))
    → merge (replay new (only own ops)) (replay new (only (λ r. not (own r)) ops)) ≡ replay new ops
merge-replay own ops =
    let mine = replay new (only own ops) in
    let others = replay new (only (λ r. not (own r)) ops) in
    let valid = λ (h : List (String × ℕ)). replay-IsValid new h new-IsValid in
    GCounter-ext (merge mine others) (replay new ops)
      (merge-IsValid mine others (valid (only own ops)) (valid (only (λ r. not (own r)) ops)))
      (valid ops)
      λ q. ground (
        arith,
        get-merge mine others q (valid (only (λ r. not (own r)) ops)),
        get-replay new q ops,
        get-replay new q (only own ops),
        get-replay new q (only (λ r. not (own r)) ops),
        get_new q,
        tally-only own none q ops,
        tally-only_other own none q ops,
        tally-only (λ r. not (own r)) none q ops,
        tally-only_other (λ r. not (own r)) none q ops,
        Bool-cases (own q),
      )
