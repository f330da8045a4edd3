-- ===== src/Para/Synced/Local.antt =====
-- `merge` with a value of the program.
use para_p2p.Common.{
  [], Option, none, some, unwrap_or, ◌≡◌, refl, sym, ◌∙◌, subst, Option-cases, inl, inr,
}
use para_p2p.Common.Io.{Result, ok, err, ◌>>◌}
use para_p2p.Net.Crypto.{Bytes}
use para_p2p.Para.Ctx.{NativeCtx, Nodes, DynCrdt}
use para_p2p.Para.Synced.{merge_slots, slot_to_bytes, free, both, mismatched_merge}
use para_p2p.Para.Synced.Methods.{Handle, merge, announce}
use para_p2p.Para.Synced.Laws.{CrdtLaws, HostLaws, Holds}
use para_p2p.Para.Synced.TakeIn.{clone_crdt-Holds}

module _ {C : NativeCtx} {P : Nodes C.State} {D : DynCrdt C.Extern} (L : CrdtLaws D)
    (handle : Handle C P D) (H : HostLaws C P D L.IsCrdt handle) where
  open C use {State, Slot, Extern}
  open L use {IsCrdt, IsBelow}
  open H use {value, waiting, same}

  -- What is left to do of a `merge` once the value is in the cell, or what it comes to for values
  -- of two types.
  abbrev pub after_merge : Option Extern → State → Result (Unit {0}) × State
  after_merge none t = (err mismatched_merge, t)
  after_merge (some m) t =
      (C.wake handle.node
          >> announce C P D handle.p2p_node handle.members handle.topic
              (unwrap_or (D.to_bytes_dyn m) []))
        t

  merge_slots-none :
      (x y : Slot) (a b : Extern) (s : State)
      → IsCrdt a
      → IsCrdt b
      → Holds C P D x a s
      → Holds C P D y b s
      → D.merge_dyn a b ≡ none
      → merge_slots C D x y s ≡ (err mismatched_merge, s)
  unfolding merge_slots both
  merge_slots-none x y a b s ca cb hx hy n =
      rw (clone_crdt-Holds L handle H x a s ca hx)
        (rw (clone_crdt-Holds L handle H y b s cb hy) (rw n refl))

  merge_slots-some :
      (x y : Slot) (a b m : Extern) (s : State)
      → IsCrdt a
      → IsCrdt b
      → Holds C P D x a s
      → Holds C P D y b s
      → D.merge_dyn a b ≡ some m
      → merge_slots C D x y s ≡ C.intern_extern m s
  unfolding merge_slots both
  merge_slots-some x y a b m s ca cb hx hy n =
      rw (clone_crdt-Holds L handle H x a s ca hx)
        (rw (clone_crdt-Holds L handle H y b s cb hy) (rw n refl))

  slot_to_bytes-Holds :
      (x : Slot) (a : Extern) (s : State)
      → IsCrdt a
      → Holds C P D x a s
      → slot_to_bytes C D x s ≡ (ok (unwrap_or (D.to_bytes_dyn a) []), s)
  unfolding slot_to_bytes
  slot_to_bytes-Holds x a s c h =
      let (b, e) = L.encodes a c in rw (clone_crdt-Holds L handle H x a s c h) (rw e refl)

  -- A chain of calls, from what each of its parts does.
  merge-some :
      (s t u v : State) (x y delta : Slot) (bytes : Bytes)
      → C.retained_get handle.cell s ≡ (ok x, t)
      → merge_slots C D x delta t ≡ (ok y, u)
      → slot_to_bytes C D y u ≡ (ok bytes, u)
      → C.retained_set handle.cell y u ≡ (ok tt, v)
      → merge C P D handle delta s
        ≡ (C.wake handle.node >> announce C P D handle.p2p_node handle.members handle.topic bytes)
            (C.free x (C.free y v))
  unfolding merge free
  merge-some s t u v x y delta bytes p q r e = rw p (rw q (rw r (rw e refl)))

  merge-none :
      (s t : State) (x delta : Slot)
      → C.retained_get handle.cell s ≡ (ok x, t)
      → merge_slots C D x delta t ≡ (err mismatched_merge, t)
      → merge C P D handle delta s ≡ (err mismatched_merge, t)
  unfolding merge
  merge-none s t x delta p q = rw p (rw q refl)

  -- What a `merge` comes to, from the state `s`, if the values merge to `r`.
  abbrev pub Merges : State → Slot → Option Extern → Type 0
  Merges s delta r =
      (t : State) × (value t ≡ unwrap_or r (value s))
      × (waiting t ≡ waiting s)
      × (merge C P D handle delta s ≡ after_merge r t)

  Merges-none :
      (s : State) (delta : Slot) (d : Extern)
      → IsCrdt (value s)
      → IsCrdt d
      → Holds C P D delta d s
      → D.merge_dyn (value s) d ≡ none
      → Merges s delta none
  Merges-none s delta d c cd h n =
      let (x, t, p, hx, keep, v, w) = H.retained_get s in
      (
        t,
        v,
        w,
        merge-none s t x delta p
            (merge_slots-none x delta (value s) d t c cd hx (keep delta d h) n),
      )

  Merges-some :
      (s : State) (delta : Slot) (d m : Extern)
      → IsCrdt (value s)
      → IsCrdt d
      → Holds C P D delta d s
      → D.merge_dyn (value s) d ≡ some m
      → Merges s delta (some m)
  Merges-some s delta d m c cd h n =
      let (x, t, p, hx, keep, v, w) = H.retained_get s in
      let (y, u, q, hy, keep', v', w') = H.intern_extern m t in
      let (z, e, v'', w'') = H.retained_set y m u hy in
      (
        C.free x (C.free y z),
        H.free-value x (C.free y z) ∙ H.free-value y z ∙ v'',
        H.free-waiting x (C.free y z) ∙ H.free-waiting y z ∙ w'' ∙ w' ∙ w,
        merge-some s t u z x y delta (unwrap_or (D.to_bytes_dyn m) []) p
            (merge_slots-some x delta (value s) d m t c cd hx (keep delta d h) n ∙ q)
            (slot_to_bytes-Holds y m u (L.merge_dyn-IsCrdt (value s) d m c cd n) hy) e,
      )

  -- Given a host and CRDT values that do what they document: `merge` with a value of the same type
  -- leaves the merged value in the cell and then wakes what depends on the signal and announces the
  -- encoding of the merged value; with a value of another type it fails, and leaves the cell and
  -- the waiting messages as they were.
  pub merge_lem :
      (s : State) (delta : Slot) (d : Extern)
      → IsCrdt (value s)
      → IsCrdt d
      → Holds C P D delta d s
      → Merges s delta (D.merge_dyn (value s) d)
  merge_lem s delta d c cd h = elim (Option-cases (D.merge_dyn (value s) d)) [
    | inl e ↦ subst (Merges s delta) (sym e) (Merges-none s delta d c cd h e)
    | inr (m, e) ↦ subst (Merges s delta) (sym e) (Merges-some s delta d m c cd h e)
  ]
