-- ===== src/Para/Synced/Tests.antt =====
-- A host with one signal, whose value is the largest number that was merged into it, and a plain
-- transport; a message holds one number.
use mathlib.Core.List.{Memᴰ}
use mathlib.Core.List.Memᴰ.{head, tail}
use para_p2p.Common.{
  ℕ, ◌+◌, ◌≤◌, max, List, [], ◌∷◌, Option, none, some, ◌≡◌, refl, arith, ◌==◌, if◌then◌else◌,
}
use para_p2p.Common.Io.{Result, Io, ok, pure, fail, ◌>>◌}
use para_p2p.Crdt.Mergeable.{Mergeable}
use para_p2p.Net.Crypto.{Bytes}
use para_p2p.Net.Node.Network.{synced}
use para_p2p.Para.Ctx.{SyncedSignalBox, NativeCtx, Nodes, DynCrdt, boxed_as}
use para_p2p.Para.Native.{NativeValue}
use para_p2p.Para.Synced.Methods.{sync, merge, poll, is_encrypted, drain, take_in, announce}
use para_p2p.Para.Synced.Laws.{CrdtLaws, HostLaws}
use para_p2p.Para.Synced.TakeIn.{with_messages}
use para_p2p.Para.Synced.Drain.{sync_lem}
use para_p2p.Para.Synced.Lattice.{Lattice}
use para_p2p.Para.Synced.Converge.{IsBoxed, Settles, sync_converges}
use para_p2p.Para.Synced.Local.{Merges, merge_lem}

record Host : Type 0 where
  pub held : ℕ
  pub queue : List Bytes
  pub sent : List Bytes
  pub runs : ℕ

-- A slot is what it holds.
abbrev host : NativeCtx
host = record {
  State = Host;
  Slot = ℕ;
  Retained = Unit {0};
  NodeId = Unit {0};
  Extern = ℕ;
  F64 = ℕ;
  F32 = ℕ;
  with_extern = pure;
  box_signal = λ b. 0;
  downcast_signal = λ n. none;
  view = λ x. pure (NativeValue.extern x);
  intern_extern = pure;
  intern_bytes = λ b. pure 0;
  bytes_of = λ x. pure none;
  call_method = λ x m xs. pure none;
  values_equal = λ x y. pure (x == y);
  free = λ x s. s;
  retain = λ x s. (ok tt, record s { held = x });
  retained_get = λ c s. (ok s.held, s);
  retained_set = λ c x s. (ok tt, record s { held = x });
  create_source = λ c s. (tt, s);
  read_source = λ n s. (tt, s);
  wake = λ n s. (ok tt, record s { runs = s.runs + 1 });
  display_usize = λ n. "3";
  ctx_arity = λ m xs n. ok tt;
  type_error = λ m t. t;
  no_function_error = λ m f. f;
  no_method_error = λ t m. m;
}

abbrev poll_queue : Io Host (Option Bytes)
poll_queue s = elim s.queue [
  | [] ↦ (ok none, s)
  | b ∷ rest ↦ (ok (some b), record s { queue = rest })
]

abbrev nodes : Nodes Host
nodes = record {
  default_node = λ s. none;
  subscribe_durable = λ n t. pure 0;
  publish_durable = λ n t b s. (ok tt, record s { sent = b ∷ s.sent });
  poll_sub = λ n i. poll_queue;
  sync_status = λ n t. pure synced;
  status_word = λ s. "synced";
  group_open = λ n t m. pure 0;
  group_publish = λ n t b. fail "no groups";
  group_poll = λ n i. fail "no groups";
  group_add = λ n t m. fail "no groups";
  group_remove = λ n t m. fail "no groups";
}

abbrev number_of : Bytes → Option ℕ
number_of (n ∷ []) = some n
number_of _ = none

abbrev largest : DynCrdt ℕ
largest = record {
  merge_dyn = λ a b. some (max a b);
  to_bytes_dyn = λ a. some (a ∷ []);
  from_bytes_like = λ a b. number_of b;
}

abbrev largest_laws : CrdtLaws largest
largest_laws = record {
  IsCrdt = λ a. Unit;
  IsBelow = λ a b. a ≤ b;
  below_refl = λ a. omega arith;
  below_trans = λ a b c h k. omega arith;
  below_antisym = λ a b h k. omega arith;
  encodes = λ a c. (a ∷ [], refl);
  merges = λ a p b c h. (max a p, refl, tt, omega arith);
  merge_dyn-IsCrdt = λ a b m c d h. tt;
}

abbrev signal : SyncedSignalBox (Unit {0}) (Unit {0})
signal = record {
  node = tt;
  cell = tt;
  subscription = 0;
  topic = "scores";
  members = [];
  p2p_node = none;
}

poll-queue :
    (s : Host) (rest : List Bytes) (b : Bytes)
    → s.queue ≡ b ∷ rest
    → poll host nodes largest signal s ≡ (ok (some b), record s { queue = rest })
unfolding poll is_encrypted
poll-queue s rest b h = rw h refl

poll-empty : (s : Host) → s.queue ≡ [] → poll host nodes largest signal s ≡ (ok none, s)
unfolding poll is_encrypted
poll-empty s h = rw h refl

abbrev host_laws : (I : ℕ → Type 0) → HostLaws host nodes largest I signal
host_laws I = record {
  value = λ s. s.held;
  waiting = λ s. s.queue;
  same = λ a b. a == b;
  same_refl = λ a. ground arith;
  eq_of_same = λ a b c d h. ground arith;
  retained_get = λ s. (s.held, s, refl, refl, λ y v h. ground arith, refl, refl);
  intern_extern = λ e s. (e, s, refl, refl, λ y v h. ground arith, refl, refl);
  values_equal = λ x y a b s h k. ground arith;
  retained_set = λ y b s h. (record s { held = y }, refl, ground arith, refl);
  free-value = λ x s. refl;
  free-waiting = λ x s. refl;
  poll_none = λ s h. (s, poll-empty s h, refl, h);
  poll_some = λ s b rest h. (record s { queue = rest }, poll-queue s rest b h, refl, refl);
}

-- Two states, and between them a message that is none.
abbrev before : Host
before = record { held = 4; queue = (3 ∷ []) ∷ [] ∷ (9 ∷ []) ∷ []; sent = []; runs = 0 }

abbrev run : Result (Option (Unit {0})) × Host
run = (ok (some tt), record { held = 9; queue = []; sent = []; runs = 1 })

before-run : sync host nodes largest 4 signal before ≡ run
unfolding sync drain poll take_in
before-run = refl

sync_example :
    (t : Host) × (t.held ≡ with_messages largest 4 before.queue)
    × (t.queue ≡ [])
    × (sync host nodes largest 4 signal before
        ≡ (if 4 == t.held then pure (some tt) else (host.wake tt >> pure (some tt))) t)
sync_example = sync_lem largest_laws signal (host_laws (λ a. Unit)) 4 before tt (omega arith)

abbrev merged : Result (Unit {0}) × Host
merged = (ok tt, record { held = 7; queue = before.queue; sent = (7 ∷ []) ∷ []; runs = 1 })

before-merged : merge host nodes largest signal 7 before ≡ merged
unfolding merge announce
before-merged = refl

merge_example : Merges largest_laws signal (host_laws (λ a. Unit)) before 7 (some 7)
merge_example = merge_lem largest_laws signal (host_laws (λ a. Unit)) before 7 7 tt tt refl

abbrev largest_mergeable : Mergeable ℕ
largest_mergeable = record {
  merge = max;
  IsValid = λ a. Unit;
  merge-IsValid = λ a b v w. tt;
  merge_comm = λ a b v w. omega arith;
  merge_assoc = λ a b c u v w. omega arith;
  merge_idem = λ a v. omega arith;
}

number_of_boxed : (b : Bytes) → number_of b ≡ boxed_as (λ a. a) (number_of b)
number_of_boxed [] = refl
number_of_boxed (n ∷ []) = refl
number_of_boxed (n ∷ m ∷ b) = refl

abbrev largest_lattice : Lattice largest
largest_lattice = record {
  A = ℕ;
  mergeable = largest_mergeable;
  box = λ a. a;
  to_bytes = λ a. a ∷ [];
  from_bytes = number_of;
  box_injective = λ a b h. h;
  merge_dyn_box = λ a b. refl;
  to_bytes_dyn_box = λ a. refl;
  from_bytes_like_box = λ a b. number_of_boxed b;
  from_bytes-IsValid = λ b a h. tt;
}

abbrev boxed_laws : HostLaws host nodes largest (IsBoxed largest_lattice) signal
boxed_laws = host_laws (IsBoxed largest_lattice)

-- A peer to whom the same messages came in another order, one of them twice.
abbrev other_peer : Host
other_peer = record {
  held = 4;
  queue = (9 ∷ []) ∷ (3 ∷ []) ∷ (9 ∷ []) ∷ [] ∷ [];
  sent = [];
  runs = 0;
}

to_other : (b : Bytes) → Memᴰ b before.queue → Memᴰ b other_peer.queue
to_other b (head e) = tail (head e)
to_other b (tail (head e)) = tail (tail (tail (head e)))
to_other b (tail (tail (head e))) = head e
to_other b (tail (tail (tail m))) = elim m [ ]

from_other : (b : Bytes) → Memᴰ b other_peer.queue → Memᴰ b before.queue
from_other b (head e) = tail (tail (head e))
from_other b (tail (head e)) = head e
from_other b (tail (tail (head e))) = tail (tail (head e))
from_other b (tail (tail (tail (head e)))) = tail (head e)
from_other b (tail (tail (tail (tail m)))) = elim m [ ]

sync_converges_example :
    (s : Host) × (t : Host) × Settles largest_lattice signal boxed_laws 5 before s
    × Settles largest_lattice signal boxed_laws 5 other_peer t
    × (s.held ≡ t.held)
sync_converges_example =
    sync_converges largest_lattice signal signal boxed_laws boxed_laws 5 before other_peer 4 tt refl
      refl to_other from_other (omega arith) (omega arith)
