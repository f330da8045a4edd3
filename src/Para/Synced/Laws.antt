-- ===== src/Para/Synced/Laws.antt =====
-- What a synced signal relies on: of the CRDT values, that a merge only adds to a value; of the
-- host, that the cell of the signal keeps what is put there and that a slot keeps its box; of the
-- transport, that a poll takes the oldest message.
use para_p2p.Common.{Bool, true, List, [], ◌∷◌, none, some, ◌≡◌}
use para_p2p.Common.Io.{ok}
use para_p2p.Net.Crypto.{Bytes}
use para_p2p.Para.Ctx.{NativeCtx, Nodes, DynCrdt}
use para_p2p.Para.Synced.Methods.{Handle, poll}

pub record CrdtLaws {E : Type 0} (D : DynCrdt E) : Type 1 where
  pub IsCrdt : E → Type 0
  -- `a ⊑ b`: what `a` says is reflected in `b`.
  pub IsBelow : E → E → Type 0
  pub below_refl : (a : E) → IsBelow a a
  pub below_trans : (a b c : E) → IsBelow a b → IsBelow b c → IsBelow a c
  pub below_antisym : (a b : E) → IsBelow a b → IsBelow b a → a ≡ b
  pub encodes : (a : E) → IsCrdt a → (b : Bytes) × (D.to_bytes_dyn a ≡ some b)
  pub merges :
      (a p : E) (b : Bytes)
      → IsCrdt a
      → D.from_bytes_like a b ≡ some p
      → (m : E) × (D.merge_dyn a p ≡ some m) × IsCrdt m × IsBelow a m
  pub merge_dyn-IsCrdt : (a b m : E) → IsCrdt a → IsCrdt b → D.merge_dyn a b ≡ some m → IsCrdt m

module _ (C : NativeCtx) (P : Nodes C.State) (D : DynCrdt C.Extern) where
  open C use {State, Slot, Extern}

  -- The slot has this in its box.
  abbrev pub Holds : Slot → Extern → State → Type 0
  Holds x e s = C.with_extern x s ≡ (ok e, s)

  -- The host and the transport from where a signal stands: the value in its cell, and the messages
  -- that wait in its subscription. `IsCrdt` is what may stand in the cell.
  pub record HostLaws (IsCrdt : Extern → Type 0) (handle : Handle C P D) : Type 0 where
    pub value : State → Extern
    pub waiting : State → List Bytes
    pub same : Extern → Extern → Bool
    pub same_refl : (a : Extern) → same a a ≡ true
    -- Boxes of other types may count as the same and differ, as documents with the same heads do.
    pub eq_of_same : (a b : Extern) → IsCrdt a → IsCrdt b → same a b ≡ true → a ≡ b
    pub retained_get :
        (s : State)
        → (x : Slot) × (t : State) × (C.retained_get handle.cell s ≡ (ok x, t))
          × Holds x (value s) t
          × ((y : Slot) (v : Extern) → Holds y v s → Holds y v t)
          × (value t ≡ value s)
          × (waiting t ≡ waiting s)
    pub intern_extern :
        (e : Extern) (s : State)
        → (x : Slot) × (t : State) × (C.intern_extern e s ≡ (ok x, t))
          × Holds x e t
          × ((y : Slot) (v : Extern) → Holds y v s → Holds y v t)
          × (value t ≡ value s)
          × (waiting t ≡ waiting s)
    pub values_equal :
        (x y : Slot) (a b : Extern) (s : State)
        → Holds x a s
        → Holds y b s
        → C.values_equal x y s ≡ (ok (same a b), s)
    pub retained_set :
        (y : Slot) (b : Extern) (s : State)
        → Holds y b s
        → (t : State) × (C.retained_set handle.cell y s ≡ (ok tt, t))
          × (value t ≡ b)
          × (waiting t ≡ waiting s)
    pub free-value : (x : Slot) (s : State) → value (C.free x s) ≡ value s
    pub free-waiting : (x : Slot) (s : State) → waiting (C.free x s) ≡ waiting s
    pub poll_none :
        (s : State)
        → waiting s ≡ []
        → (t : State) × (poll C P D handle s ≡ (ok none, t))
          × (value t ≡ value s)
          × (waiting t ≡ [])
    pub poll_some :
        (s : State) (b : Bytes) (rest : List Bytes)
        → waiting s ≡ b ∷ rest
        → (t : State) × (poll C P D handle s ≡ (ok (some b), t))
          × (value t ≡ value s)
          × (waiting t ≡ rest)
