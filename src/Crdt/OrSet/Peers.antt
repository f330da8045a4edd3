-- ===== src/Crdt/OrSet/Peers.antt =====
-- Any number of replicas, each with an id of its own, which edit their states, send them and merge
-- what arrives: late, out of order, repeatedly or never.
pub mod Consistent
pub mod Reached
use mathlib.Core.List.{Memᴰ}
use para_p2p.Common.{
  ℕ, zero, suc, ◌+◌, ◌≤◌, ◌<◌, ◌≡◌, ◌⊎◌, refl, sym, ap, ◌∙◌, String, Bool, true, false, List, [],
  ◌∷◌, arith, Bool-cases, inl, inr, u64_max, if◌then◌else◌, All, Memᴰ-All,
}
use para_p2p.Common.Order.{Ord, string_ord, cmp_refl}
use para_p2p.Common.BTree.Sets.{is_eq}
use para_p2p.Crdt.Clock.{Dot, dot_ord, next_after}
use para_p2p.Crdt.OrSet.{OrSet, new, highest_counter, insert, remove, contains, merge}
use para_p2p.Crdt.OrSet.Counters.{
  counter-le_of_observed, counter-le_of_entombed, highest_counter-le,
}
use para_p2p.Crdt.OrSet.Edits.{
  Edit, edit, edit_plain, IsFresh, new-IsFresh, contains-edit, insert-IsFresh, remove-IsFresh,
}
use para_p2p.Crdt.OrSet.Fresh.{TagsAreUnique, minted}
use para_p2p.Crdt.OrSet.Laws.{merge-IsValid}
use para_p2p.Crdt.OrSet.Membership.{observed-remove}
use para_p2p.Crdt.OrSet.Tags.{
  IsValid, observed, entombed, observed-insert, observed-merge, entombed-merge,
}

pub record Peers {ℓ} (V : Type ℓ) : Type ℓ where
  pub states : String → OrSet V
  -- Every state that was ever sent.
  pub mail : List (OrSet V)

module _ {ℓ} {V : Type ℓ} where
  pub start : Peers V
  start = record { states = λ r. new; mail = [] }

  unfoldable pub put : Peers V → String → OrSet V → Peers V
  put p r s = record {
    states = λ q. if is_eq (string_ord.cmp q r) then s else p.states q;
    mail = p.mail;
  }

  unfoldable pub post : Peers V → String → Peers V
  post p r = record { states = p.states; mail = p.states r ∷ p.mail }

module _ {ℓ} {V : Type ℓ} ⦃o : Ord V⦄ where
  pub data Step : Peers V → Peers V → Type ℓ where
    insert_at : (p : Peers V) (r : String) (e : V) → Step p (put p r (insert (p.states r) r e))
    remove_at : (p : Peers V) (r : String) (e : V) → Step p (put p r (remove (p.states r) e))
    send_from : (p : Peers V) (r : String) → Step p (post p r)
    receive_at :
        (p : Peers V) (r : String) (t : OrSet V)
        → Memᴰ t p.mail
        → Step p (put p r (merge (p.states r) t))

  pub data Reaches : ℕ → Peers V → Type ℓ where
    here : Reaches 0 start
    next : {n : ℕ} {p q : Peers V} → Reaches n p → Step p q → Reaches (n + 1) q
