-- ===== src/Crdt/OrSet/Peers/Reached.antt =====
-- The steps of the replicas of Crdt/OrSet/Peers, and the states that they reach.
use para_p2p.Common.{ℕ, ◌+◌, ◌≤◌, ◌<◌, ◌≡◌, String, arith, u64_max, Memᴰ-All}
use para_p2p.Common.Order.{Ord, string_ord}
use para_p2p.Crdt.Clock.{dot_ord}
use para_p2p.Crdt.OrSet.{OrSet, contains}
use para_p2p.Crdt.OrSet.Edits.{
  Edit, edit, edit_plain, new-IsFresh, contains-edit, insert-IsFresh, remove-IsFresh,
}
use para_p2p.Crdt.OrSet.Peers.{
  Peers, start, post, Step, insert_at, remove_at, send_from, receive_at, Reaches, here, next,
}
use para_p2p.Crdt.OrSet.Peers.Consistent.{
  All-map, IsKnown, IsConsistent, states-IsFresh, put-IsConsistent, insert-Extends, remove-Extends,
  merge-Extends, merge-IsFresh,
}

module _ {ℓ} {V : Type ℓ} ⦃o : Ord V⦄ where
  -- Nothing but the mail changes when a state is sent.
  post-IsKnown :
      (p : Peers V) (r : String) (n : ℕ) (t : OrSet V)
      → IsKnown p n t
      → IsKnown (post p r) (n + 1) t
  unfolding post
  post-IsKnown p r n t k = record {
    valid = k.valid;
    owned = k.owned;
    bounded = omega (arith, k.bounded);
  }

  post-IsConsistent :
      (p : Peers V) (r : String) (n : ℕ) → IsConsistent p n → IsConsistent (post p r) (n + 1)
  unfolding post
  post-IsConsistent p r n c = record {
    known = λ q. post-IsKnown p r n (p.states q) (c.known q);
    unique = c.unique;
    posted =
        (post-IsKnown p r n (p.states r) (c.known r), All-map p.mail (post-IsKnown p r n) c.posted);
  }

  Step-IsConsistent :
      {p q : Peers V} (n : ℕ) → Step p q → IsConsistent p n → n < u64_max → IsConsistent q (n + 1)
  Step-IsConsistent n (insert_at p r e) c h =
      put-IsConsistent p r _ n c (insert-IsFresh (p.states r) n r e (states-IsFresh p n r c) h)
        (insert-Extends p r e (c.known r).owned)
  Step-IsConsistent n (remove_at p r e) c h =
      put-IsConsistent p r _ n c (remove-IsFresh (p.states r) n e (states-IsFresh p n r c))
        (remove-Extends p r e (c.known r).owned)
  Step-IsConsistent n (send_from p r) c h = post-IsConsistent p r n c
  Step-IsConsistent n (receive_at p r t m) c h =
      let k : IsKnown p n t = Memᴰ-All (IsKnown p n) t p.mail c.posted m in
      put-IsConsistent p r _ n c (merge-IsFresh p r t n c k)
        (merge-Extends p r t (c.known r).owned k.valid k.owned)

  Reaches-IsConsistent : {n : ℕ} {p : Peers V} → Reaches n p → n ≤ u64_max → IsConsistent p n
  unfolding start
  Reaches-IsConsistent here h = record {
    known = λ r. record {
      valid = new-IsFresh.valid;
      owned = λ e d k. k;
      bounded = new-IsFresh.bounded;
    };
    unique = λ r. new-IsFresh.unique;
    posted = tt;
  }
  Reaches-IsConsistent (next {n = n} before step) h =
      Step-IsConsistent n step (Reaches-IsConsistent before (omega arith)) (omega arith)

  -- Replicas with an id each start from the empty set; they insert under their own id, remove, send
  -- their states and merge any that were sent, in any order and however often, in fewer steps than
  -- the counters of `u64` last. An insertion or a removal then does to the members at a replica
  -- what it does to a plain set: the element itself is a member or not, and every other element is
  -- as it was.
  pub contains-edit_reached :
      {n : ℕ} {p : Peers V}
      → Reaches n p
      → n < u64_max
      → (r : String) (x : Edit V) (q : V)
      → contains (edit (p.states r) x) q ≡ edit_plain (contains (p.states r)) x q
  contains-edit_reached {n} {p} reached h r x q =
      contains-edit (p.states r) n x q
        (states-IsFresh p n r (Reaches-IsConsistent reached (omega arith))) h
