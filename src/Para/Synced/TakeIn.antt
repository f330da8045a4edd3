-- ===== src/Para/Synced/TakeIn.antt =====
-- What one message of a peer does to a synced signal.
use para_p2p.Common.{
  not, List, foldl, none, some, unwrap_or, ◌≡◌, sym, ◌∙◌, subst, arith, Bool-cases, Option-cases,
  inl, inr,
}
use para_p2p.Common.Io.{ok}
use para_p2p.Net.Crypto.{Bytes}
use para_p2p.Para.Ctx.{NativeCtx, Nodes, DynCrdt}
use para_p2p.Para.Synced.{clone_crdt, merge_peer_bytes, free}
use para_p2p.Para.Synced.Methods.{Handle, replace, take_in}
use para_p2p.Para.Synced.Laws.{CrdtLaws, HostLaws, Holds}

-- The value with a message merged in; a message that is no state of its type changes nothing.
unfoldable pub with_message : {E : Type 0} → DynCrdt E → E → Bytes → E
with_message D v b = elim (D.from_bytes_like v b) [
  | none ↦ v
  | some p ↦ unwrap_or (D.merge_dyn v p) v
]

unfoldable pub with_messages : {E : Type 0} → DynCrdt E → E → List Bytes → E
with_messages D = foldl (with_message D)

module _ {E : Type 0} (D : DynCrdt E) where
  pub with_message-none :
      (v : E) (b : Bytes) → D.from_bytes_like v b ≡ none → with_message D v b ≡ v
  unfolding with_message
  with_message-none v b h = ground arith

  pub with_message-some :
      (v p m : E) (b : Bytes)
      → D.from_bytes_like v b ≡ some p
      → D.merge_dyn v p ≡ some m
      → with_message D v b ≡ m
  unfolding with_message
  with_message-some v p m b h k = ground arith

module _ {C : NativeCtx} {P : Nodes C.State} {D : DynCrdt C.Extern} (L : CrdtLaws D)
    (handle : Handle C P D) (H : HostLaws C P D L.IsCrdt handle) where
  open C use {State, Slot, Extern}
  open L use {IsCrdt, IsBelow}
  open H use {value, waiting, same}

  pub clone_crdt-Holds :
      (x : Slot) (e : Extern) (s : State)
      → IsCrdt e
      → Holds C P D x e s
      → clone_crdt C D x s ≡ (ok (some e), s)
  unfolding clone_crdt
  clone_crdt-Holds x e s c h = let (b, k) = L.encodes e c in ground arith

  merge_peer_bytes-none :
      (x : Slot) (e : Extern) (b : Bytes) (s : State)
      → IsCrdt e
      → Holds C P D x e s
      → D.from_bytes_like e b ≡ none
      → merge_peer_bytes C D x b s ≡ (ok none, s)
  unfolding merge_peer_bytes
  merge_peer_bytes-none x e b s c h n = let k = clone_crdt-Holds x e s c h in ground arith

  merge_peer_bytes-some :
      (x : Slot) (e p m : Extern) (b : Bytes) (s : State)
      → IsCrdt e
      → Holds C P D x e s
      → D.from_bytes_like e b ≡ some p
      → D.merge_dyn e p ≡ some m
      → (y : Slot) × (t : State) × (merge_peer_bytes C D x b s ≡ (ok (some y), t))
        × Holds C P D x e t
        × Holds C P D y m t
        × (value t ≡ value s)
        × (waiting t ≡ waiting s)
  unfolding merge_peer_bytes
  merge_peer_bytes-some x e p m b s c h f g =
      let (y, t, i, hy, keep, v, w) = H.intern_extern m s in
      let k = clone_crdt-Holds x e s c h in (y, t, ground arith, keep x e h, hy, v, w)

  replace-value :
      (x y : Slot) (m : Extern) (s : State)
      → IsCrdt (value s)
      → IsCrdt m
      → Holds C P D x (value s) s
      → Holds C P D y m s
      → (t : State) × (replace C P D handle x y s ≡ (ok (not (same (value s) m)), t))
        × (value t ≡ m)
        × (waiting t ≡ waiting s)
  unfolding replace free
  replace-value x y m s c d hx hy = elim (Bool-cases (same (value s) m)) [
    | inl e ↦ (
      C.free y s,
      ground (arith, H.values_equal x y (value s) m s hx hy),
      H.free-value y s ∙ H.eq_of_same (value s) m c d e,
      H.free-waiting y s,
    )
    | inr e ↦
        let (t, r, v, w) = H.retained_set y m s hy in
        (
          C.free y t,
          ground (arith, H.values_equal x y (value s) m s hx hy),
          H.free-value y t ∙ v,
          H.free-waiting y t ∙ w,
        )
  ]

  -- What one message does, from the state `s`.
  abbrev pub Takes : State → Bytes → Extern → Type 0
  Takes s b m =
      (t : State) × (take_in C P D handle b s ≡ (ok (not (same (value s) m)), t))
      × (value t ≡ m)
      × (waiting t ≡ waiting s)

  take_in-none :
      (s : State) (b : Bytes)
      → IsCrdt (value s)
      → D.from_bytes_like (value s) b ≡ none
      → Takes s b (value s)
  unfolding take_in free
  take_in-none s b c f =
      let (x, t, r, hx, keep, v, w) = H.retained_get s in
      let k = merge_peer_bytes-none x (value s) b t c hx f in
      (
        C.free x t,
        ground (arith, H.same_refl (value s)),
        H.free-value x t ∙ v,
        H.free-waiting x t ∙ w,
      )

  take_in-some :
      (s : State) (b : Bytes) (p m : Extern)
      → IsCrdt (value s)
      → D.from_bytes_like (value s) b ≡ some p
      → D.merge_dyn (value s) p ≡ some m
      → IsCrdt m
      → Takes s b m
  unfolding take_in free
  take_in-some s b p m c f g d =
      let (x, t, r, hx, keep, v, w) = H.retained_get s in
      let (y, t', i, hx', hy, v', w') = merge_peer_bytes-some x (value s) p m b t c hx f g in
      let e = v' ∙ v in
      let (u, j, v'', w'') =
        replace-value x y m t' (subst IsCrdt (sym e) c) d
          (subst (λ a. Holds C P D x a t') (sym e) hx') hy in
      (C.free x u, ground arith, H.free-value x u ∙ v'', H.free-waiting x u ∙ w'' ∙ w' ∙ w)

  pub take_in-value :
      (s : State) (b : Bytes)
      → IsCrdt (value s)
      → Takes s b (with_message D (value s) b)
        × IsCrdt (with_message D (value s) b)
        × IsBelow (value s) (with_message D (value s) b)
  take_in-value s b c = elim (Option-cases (D.from_bytes_like (value s) b)) [
    | inl f ↦
        subst Fits (sym (with_message-none D (value s) b f))
          (take_in-none s b c f, c, L.below_refl (value s))
    | inr (p, f) ↦
        let (m, g, d, i) = L.merges (value s) p b c f in
        subst Fits (sym (with_message-some D (value s) p m b f g))
          (take_in-some s b p m c f g d, d, i)
  ]
    where
      Fits : Extern → Type 0
      Fits m = Takes s b m × IsCrdt m × IsBelow (value s) m
