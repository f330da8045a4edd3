-- ===== src/Para/Synced/Drain.antt =====
-- `sync` takes in all that waits, and wakes what depends on the signal only for a new value.
use para_p2p.Common.{
  ℕ, zero, suc, ◌<◌, Bool, true, false, not, ◌||◌, if◌then◌else◌, List, [], ◌∷◌, length, none, some,
  ◌≡◌, refl, sym, ap, ◌∙◌, subst, arith, Bool-cases, inl, inr,
}
use para_p2p.Common.Io.{ok, pure, ◌>>◌}
use para_p2p.Net.Crypto.{Bytes}
use para_p2p.Para.Ctx.{NativeCtx, Nodes, DynCrdt}
use para_p2p.Para.Synced.Methods.{Handle, poll, take_in, drain, sync}
use para_p2p.Para.Synced.Laws.{CrdtLaws, HostLaws}
use para_p2p.Para.Synced.TakeIn.{with_message, with_messages, take_in-value}

module _ {C : NativeCtx} {P : Nodes C.State} {D : DynCrdt C.Extern} (L : CrdtLaws D)
    (handle : Handle C P D) (H : HostLaws C P D L.IsCrdt handle) where
  open C use {State, Slot, Extern}
  open L use {IsCrdt, IsBelow}
  open H use {value, waiting, same}

  -- Values that only grow have changed in the end if they have changed on the way.
  changed_twice :
      (a b c : Extern)
      → IsCrdt a
      → IsCrdt b
      → IsCrdt c
      → IsBelow a b
      → IsBelow b c
      → not (same a b) || not (same b c) ≡ not (same a c)
  changed_twice a b c ca cb cd h k = elim (Bool-cases (same a b)) [
    | inl e ↦ let f = H.eq_of_same a b ca cb e in rw f (rw (H.same_refl b) refl)
    | inr e ↦ elim (Bool-cases (same a c)) [
      | inl f ↦
          let g = L.below_antisym a b h (subst (IsBelow b) (sym (H.eq_of_same a c ca cd f)) k) in
          let i : same a b ≡ true = rw g (H.same_refl b) in absurd (ground arith)
      | inr f ↦ ground arith
    ]
  ]

  drain-step :
      (fuel : ℕ) (s t u : State) (b : Bytes) (changed c : Bool)
      → poll C P D handle s ≡ (ok (some b), t)
      → take_in C P D handle b t ≡ (ok c, u)
      → drain C P D (suc fuel) handle changed s ≡ drain C P D fuel handle (changed || c) u
  unfolding drain
  drain-step fuel s t u b changed c h k = rw h (rw k refl)

  drain-end :
      (fuel : ℕ) (s t : State) (changed c : Bool)
      → c ≡ true
      → poll C P D handle s ≡ (ok none, t)
      → drain C P D (suc fuel) handle changed s ≡ (ok (some (changed || not c)), t)
  unfolding drain
  drain-end fuel s t changed c h k = ground arith

  -- What `sync` does with what the loop reports.
  sync-drain :
      (fuel : ℕ) (s t : State) (kept : Bool)
      → drain C P D fuel handle false s ≡ (ok (some (not kept)), t)
      → sync C P D fuel handle s
        ≡ (if kept then pure (some tt) else (C.wake handle.node >> pure (some tt))) t
  unfolding sync
  sync-drain fuel s t true h = rw h refl
  sync-drain fuel s t false h = rw h refl

  or_assoc : (a b c : Bool) → (a || b) || c ≡ a || (b || c)
  or_assoc a b c = ground arith

  -- What the loop does, from the state `s` and the value `v`.
  abbrev Drains : ℕ → Bool → State → List Bytes → Extern → Type 0
  Drains fuel changed s bs v =
      (t : State) × (drain C P D fuel handle changed s
        ≡ (ok (some (changed || not (same v (with_messages D v bs)))), t))
      × (value t ≡ with_messages D v bs)
      × (waiting t ≡ [])
      × IsBelow v (with_messages D v bs)
      × IsCrdt (with_messages D v bs)

  drain-value :
      (fuel : ℕ) (bs : List Bytes) (s : State) (changed : Bool)
      → IsCrdt (value s)
      → waiting s ≡ bs
      → length bs < fuel
      → Drains fuel changed s bs (value s)
  unfolding with_messages
  drain-value zero bs s changed c w l = absurd (omega arith)
  drain-value (suc fuel) [] s changed c w l =
      let (t, p, v, w') = H.poll_none s w in
      (
        t,
        drain-end fuel s t changed (same (value s) (value s)) (H.same_refl (value s)) p,
        v,
        w',
        L.below_refl (value s),
        c,
      )
  drain-value (suc fuel) (b ∷ bs) s changed c w l =
      let (t, p, v, w') = H.poll_some s b bs w in
      let ((u, q, v', w''), c', below) = take_in-value L handle H t b (subst IsCrdt (sym v) c) in
      let m : Extern = with_message D (value t) b in
      let d : Bool = not (same (value t) m) in
      let (z, r, v'', e, below', last) = subst (Drains fuel (changed || d) u bs) v' (
        drain-value fuel bs u (changed || d) (subst IsCrdt (sym v') c') (w'' ∙ w') (omega arith)) in
      subst (Drains (suc fuel) changed s (b ∷ bs)) v (
        z,
        drain-step fuel s t u b changed d p q
            ∙ r
            ∙ ap (λ x. (ok (some x), z))
                (or_assoc changed d (not (same m (with_messages D m bs)))
                  ∙ ap (λ x. changed || x)
                      (changed_twice (value t) m (with_messages D m bs) (subst IsCrdt (sym v) c) c'
                        last below below')),
        v'',
        e,
        L.below_trans (value t) m (with_messages D m bs) below below',
        last,
      )

  -- Given a host, a transport and CRDT values that do what they document, and fuel for more polls
  -- than messages wait: `sync` ends, leaves no message waiting and leaves in the cell the value
  -- with every waiting message merged in, in order, where a message that is no state of its type
  -- changes nothing; and then it wakes what depends on the signal, once, if and only if the value
  -- differs from the one before.
  pub sync_lem :
      (fuel : ℕ) (s : State)
      → IsCrdt (value s)
      → length (waiting s) < fuel
      → (t : State) × (value t ≡ with_messages D (value s) (waiting s))
        × (waiting t ≡ [])
        × (sync C P D fuel handle s
            ≡ (if same (value s) (value t)
                  then pure (some tt)
                  else (C.wake handle.node >> pure (some tt)))
                t)
  sync_lem fuel s c l =
      let (t, r, v, w, b, d) = drain-value fuel (waiting s) s false c refl l in
      (
        t,
        v,
        w,
        sync-drain fuel s t (same (value s) (value t))
            (r ∙ ap (λ x. (ok (some (not (same (value s) x))), t)) (sym v)),
      )
