-- ===== src/Para/Synced/Converge.antt =====
-- A signal over a CRDT type of this package has lawful values, and two signals that wait for the
-- same messages settle on one value.
use mathlib.Core.List.{Memᴰ}
use para_p2p.Common.{
  ℕ, ◌<◌, if◌then◌else◌, [], length, Option, none, some, ◌≡◌, refl, sym, ap, ◌∙◌, subst, ◌⊎◌, inl,
  inr, arith,
}
use para_p2p.Common.Io.{pure, ◌>>◌}
use para_p2p.Crdt.Mergeable.{Reflects}
use para_p2p.Crdt.Mergeable.Convergence.{Reflects-trans, Reflects-antisym, merge-Reflects_left}
use para_p2p.Net.Crypto.{Bytes}
use para_p2p.Para.Ctx.{NativeCtx, Nodes, DynCrdt, boxed_as}
use para_p2p.Para.Synced.Methods.{Handle, sync}
use para_p2p.Para.Synced.Laws.{CrdtLaws, HostLaws}
use para_p2p.Para.Synced.TakeIn.{with_message, with_messages}
use para_p2p.Para.Synced.Drain.{sync_lem}
use para_p2p.Para.Synced.Lattice.{Lattice, with_message-box_some, with_messages_converge}

module _ {E : Type 0} {D : DynCrdt E} (K : Lattice D) where
  open K use {A, box}
  open K.mergeable use {merge, IsValid}

  abbrev pub IsBoxed : E → Type 0
  IsBoxed e = (a : A) × (e ≡ box a) × IsValid a

  abbrev IsBelow : E → E → Type 0
  IsBelow e f =
      (e ≡ f)
      ⊎ ((a : A) × (b : A) × (e ≡ box a)
          × (f ≡ box b)
          × IsValid a
          × IsValid b
          × Reflects K.mergeable b a)

  IsBelow-trans : (d e f : E) → IsBelow d e → IsBelow e f → IsBelow d f
  IsBelow-trans d e f (inl p) k = subst (λ x. IsBelow x f) (sym p) k
  IsBelow-trans d e f (inr h) (inl q) = subst (IsBelow d) q (inr h)
  IsBelow-trans d e f (inr (a, b, p, q, va, vb, r)) (inr (b', c, p', q', vb', vc, r')) =
      let same = K.box_injective b' b (sym p' ∙ q) in
      inr (
        a,
        c,
        p,
        q',
        va,
        vc,
        Reflects-trans K.mergeable a b c va vb vc (subst (Reflects K.mergeable c) same r') r,
      )

  IsBelow-antisym : (e f : E) → IsBelow e f → IsBelow f e → e ≡ f
  IsBelow-antisym e f (inl p) k = p
  IsBelow-antisym e f (inr h) (inl q) = sym q
  IsBelow-antisym e f (inr (a, b, p, q, va, vb, r)) (inr (b', a', q', p', vb', va', r')) =
      let i = K.box_injective a' a (sym p' ∙ p) in
      let j = K.box_injective b' b (sym q' ∙ q) in
      p
      ∙ ap box (
          Reflects-antisym K.mergeable a b va vb
            (subst (λ x. Reflects K.mergeable x b) i (subst (Reflects K.mergeable a') j r')) r)
      ∙ sym q

  boxed_as-some :
      (o : Option A) (p : E) → boxed_as box o ≡ some p → (q : A) × (o ≡ some q) × (p ≡ box q)
  boxed_as-some none p h = cc
  boxed_as-some (some q) p h = (q, refl, cc)

  merges :
      (e p : E) (b : Bytes)
      → IsBoxed e
      → D.from_bytes_like e b ≡ some p
      → (m : E) × (D.merge_dyn e p ≡ some m) × IsBoxed m × IsBelow e m
  merges e p b (a, h, v) f =
      let from_bytes_at = K.from_bytes_like_box a b in
      let (q, r, i) = boxed_as-some (K.from_bytes b) p (ground arith) in
      let w = K.from_bytes-IsValid b q r in
      let merged = K.merge_dyn_box a q in
      (
        box (merge a q),
        ground arith,
        (merge a q, refl, K.mergeable.merge-IsValid a q v w),
        inr (
          a,
          merge a q,
          h,
          refl,
          v,
          K.mergeable.merge-IsValid a q v w,
          merge-Reflects_left K.mergeable a q v w,
        ),
      )

  merge_dyn-IsBoxed : (e f m : E) → IsBoxed e → IsBoxed f → D.merge_dyn e f ≡ some m → IsBoxed m
  merge_dyn-IsBoxed e f m (a, h, v) (b, k, w) g =
      let merged = K.merge_dyn_box a b in (merge a b, cc, K.mergeable.merge-IsValid a b v w)

  pub crdt_laws : CrdtLaws D
  crdt_laws = record {
    IsCrdt = IsBoxed;
    IsBelow = IsBelow;
    below_refl = λ e. inl refl;
    below_trans = IsBelow-trans;
    below_antisym = IsBelow-antisym;
    encodes = λ e (a, h, v). (K.to_bytes a, ap D.to_bytes_dyn h ∙ K.to_bytes_dyn_box a);
    merges = merges;
    merge_dyn-IsCrdt = merge_dyn-IsBoxed;
  }

  -- Two peers that send each other their states end in one value.
  pub states_exchange :
      (a b : A)
      → IsValid a
      → IsValid b
      → K.from_bytes (K.to_bytes a) ≡ some a
      → K.from_bytes (K.to_bytes b) ≡ some b
      → (x : Bytes) × (y : Bytes) × (D.to_bytes_dyn (box a) ≡ some x)
        × (D.to_bytes_dyn (box b) ≡ some y)
        × (with_message D (box a) y ≡ with_message D (box b) x)
  states_exchange a b v w h k = (
    K.to_bytes a,
    K.to_bytes b,
    K.to_bytes_dyn_box a,
    K.to_bytes_dyn_box b,
    with_message-box_some K a b (K.to_bytes b) k
        ∙ ap box (K.mergeable.merge_comm a b v w)
        ∙ sym (with_message-box_some K b a (K.to_bytes a) h),
  )

module _ {C : NativeCtx} {P : Nodes C.State} {D : DynCrdt C.Extern} (K : Lattice D) where
  open K use {A, box}
  open K.mergeable use {IsValid}

  -- `sync` ends here, with no message left, but for waking what depends on a new value.
  abbrev pub Settles :
      (handle : Handle C P D) → HostLaws C P D (IsBoxed K) handle → ℕ → C.State → C.State → Type 0
  Settles handle H fuel s t =
      (H.waiting t ≡ [])
      × (sync C P D fuel handle s
          ≡ (if H.same (H.value s) (H.value t)
                then pure (some tt)
                else (C.wake handle.node >> pure (some tt)))
              t)

  -- Given hosts and transports that do what they document: two peers whose signals hold the same
  -- valid state of a CRDT type, and for whom the same messages wait, in whatever order and however
  -- often each, both end `sync` with no message left (on fuel for more polls than messages wait),
  -- and then their signals hold one and the same value.
  pub sync_converges :
      (mine yours : Handle C P D) (M : HostLaws C P D (IsBoxed K) mine)
      (Y : HostLaws C P D (IsBoxed K) yours) (fuel : ℕ) (s t : C.State) (a : A)
      → IsValid a
      → M.value s ≡ box a
      → Y.value t ≡ box a
      → ((b : Bytes) → Memᴰ b (M.waiting s) → Memᴰ b (Y.waiting t))
      → ((b : Bytes) → Memᴰ b (Y.waiting t) → Memᴰ b (M.waiting s))
      → length (M.waiting s) < fuel
      → length (Y.waiting t) < fuel
      → (s' : C.State) × (t' : C.State) × Settles mine M fuel s s'
        × Settles yours Y fuel t t'
        × (M.value s' ≡ Y.value t')
  unfolding crdt_laws
  sync_converges mine yours M Y fuel s t a v p q to from l k =
      let (s', x, w, r) = sync_lem (crdt_laws K) mine M fuel s (a, p, v) l in
      let (t', y, w', r') = sync_lem (crdt_laws K) yours Y fuel t (a, q, v) k in
      (
        s',
        t',
        (w, r),
        (w', r'),
        x
            ∙ ap (λ e. with_messages D e (M.waiting s)) p
            ∙ with_messages_converge K a (M.waiting s) (Y.waiting t) v to from
            ∙ ap (λ e. with_messages D e (Y.waiting t)) (sym q)
            ∙ sym y,
      )
