-- ===== src/Para/Synced/Lattice.antt =====
-- A CRDT type behind the box of a synced signal: what the dynamic operations do at that type. From
-- it follow the laws of the values of a signal, and that signals converge.
use mathlib.Core.List.{Memᴰ}
use mathlib.Core.List.Memᴰ.{head, tail}
use para_p2p.Common.{
  List, [], ◌∷◌, Option, none, some, ◌≡◌, refl, sym, ap, ◌∙◌, subst, inl, inr, All, Option-cases,
}
use para_p2p.Crdt.Mergeable.{Mergeable, deliver}
use para_p2p.Crdt.Mergeable.Convergence.{deliver_converges}
use para_p2p.Net.Crypto.{Bytes}
use para_p2p.Para.Ctx.{DynCrdt, boxed_as}
use para_p2p.Para.Synced.TakeIn.{with_message, with_messages, with_message-none, with_message-some}

pub record Lattice {E : Type 0} (D : DynCrdt E) : Type 1 where
  pub A : Type 0
  pub mergeable : Mergeable A
  pub box : A → E
  pub to_bytes : A → Bytes
  pub from_bytes : Bytes → Option A
  pub box_injective : (a b : A) → box a ≡ box b → a ≡ b
  pub merge_dyn_box : (a b : A) → D.merge_dyn (box a) (box b) ≡ some (box (mergeable.merge a b))
  pub to_bytes_dyn_box : (a : A) → D.to_bytes_dyn (box a) ≡ some (to_bytes a)
  pub from_bytes_like_box :
      (a : A) (b : Bytes) → D.from_bytes_like (box a) b ≡ boxed_as box (from_bytes b)
  pub from_bytes-IsValid : (b : Bytes) (a : A) → from_bytes b ≡ some a → mergeable.IsValid a

module _ {E : Type 0} {D : DynCrdt E} (K : Lattice D) where
  open K use {A, box, from_bytes}
  open K.mergeable use {merge, IsValid}

  abbrev keep : Option A → List A → List A
  keep none xs = xs
  keep (some a) xs = a ∷ xs

  -- The states among the messages.
  unfoldable pub received : List Bytes → List A
  received [] = []
  received (b ∷ bs) = keep (from_bytes b) (received bs)

  received-none :
      (b : Bytes) (bs : List Bytes) → from_bytes b ≡ none → received (b ∷ bs) ≡ received bs
  unfolding received
  received-none b bs h = rw h refl

  received-some :
      (b : Bytes) (bs : List Bytes) (a : A)
      → from_bytes b ≡ some a
      → received (b ∷ bs) ≡ a ∷ received bs
  unfolding received
  received-some b bs a h = rw h refl

  with_message-box_none :
      (a : A) (b : Bytes) → from_bytes b ≡ none → with_message D (box a) b ≡ box a
  with_message-box_none a b h =
      with_message-none D (box a) b (K.from_bytes_like_box a b ∙ ap (boxed_as box) h)

  pub with_message-box_some :
      (a p : A) (b : Bytes) → from_bytes b ≡ some p → with_message D (box a) b ≡ box (merge a p)
  with_message-box_some a p b h =
      with_message-some D (box a) (box p) (box (merge a p)) b
        (K.from_bytes_like_box a b ∙ ap (boxed_as box) h) (K.merge_dyn_box a p)

  with_messages-box :
      (a : A) (bs : List Bytes)
      → with_messages D (box a) bs ≡ box (deliver K.mergeable a (received bs))
  unfolding with_messages received
  with_messages-box a [] = refl
  with_messages-box a (b ∷ bs) = elim (Option-cases (from_bytes b)) [
    | inl h ↦ rw (received-none b bs h, with_message-box_none a b h) (with_messages-box a bs)
    | inr (p, h) ↦
        rw (received-some b bs p h, with_message-box_some a p b h)
          (with_messages-box (merge a p) bs)
  ]

  received-IsValid : (bs : List Bytes) → All IsValid (received bs)
  unfolding received
  received-IsValid [] = tt
  received-IsValid (b ∷ bs) = elim (Option-cases (from_bytes b)) [
    | inl h ↦ rw (received-none b bs h) (received-IsValid bs)
    | inr (p, h) ↦ rw (received-some b bs p h) (K.from_bytes-IsValid b p h, received-IsValid bs)
  ]

  mem-received :
      (x : A) (bs : List Bytes)
      → Memᴰ x (received bs)
      → (b : Bytes) × Memᴰ b bs × (from_bytes b ≡ some x)
  unfolding received
  mem-received x [] = λ o. elim o [ ]
  mem-received x (b ∷ bs) = elim (Option-cases (from_bytes b)) [
    | inl h ↦ λ o.
        let (c, i, k) = mem-received x bs (subst (Memᴰ x) (received-none b bs h) o) in
        (c, tail i, k)
    | inr (p, h) ↦ λ o. elim (subst (Memᴰ x) (received-some b bs p h) o) [
      | head e ↦ (b, head refl, h ∙ ap some (sym e))
      | tail o' ↦ let (c, i, k) = mem-received x bs o' in (c, tail i, k)
    ]
  ]

  received-mem :
      (x : A) (b : Bytes) (bs : List Bytes)
      → Memᴰ b bs
      → from_bytes b ≡ some x
      → Memᴰ x (received bs)
  unfolding received
  received-mem x b [] o h = elim o [ ]
  received-mem x b (c ∷ bs) (head e) h =
      subst (Memᴰ x) (sym (received-some c bs x (ap from_bytes (sym e) ∙ h))) (head refl)
  received-mem x b (c ∷ bs) (tail o) h = elim (Option-cases (from_bytes c)) [
    | inl k ↦ subst (Memᴰ x) (sym (received-none c bs k)) (received-mem x b bs o h)
    | inr (p, k) ↦ subst (Memᴰ x) (sym (received-some c bs p k)) (tail (received-mem x b bs o h))
  ]

  -- Messages that are the same, in whatever order and however often each comes, end in one value.
  pub with_messages_converge :
      (a : A) (bs cs : List Bytes)
      → IsValid a
      → ((b : Bytes) → Memᴰ b bs → Memᴰ b cs)
      → ((b : Bytes) → Memᴰ b cs → Memᴰ b bs)
      → with_messages D (box a) bs ≡ with_messages D (box a) cs
  with_messages_converge a bs cs v to from =
      with_messages-box a bs
      ∙ ap box (
          deliver_converges K.mergeable a (received bs) (received cs) v (received-IsValid bs)
            (received-IsValid cs) (received_sub bs cs to) (received_sub cs bs from))
      ∙ sym (with_messages-box a cs)
    where
      received_sub :
          (xs ys : List Bytes)
          → ((b : Bytes) → Memᴰ b xs → Memᴰ b ys)
          → (x : A) → Memᴰ x (received xs)
          → Memᴰ x (received ys)
      received_sub xs ys h x o =
          let (b, i, k) = mem-received x xs o in received-mem x b ys (h b i) k
