-- ===== src/Para/Crdt/Tests.antt =====
-- A setting with numbers for floats and a document that is its number of edits, and a wire format
-- that knows one replica's share of a counter.
use mathlib.Core.List.{Memᴰ}
use mathlib.Core.List.Memᴰ.{head, tail}
use para_p2p.Common.{
  ℕ, zero, suc, true, List, [], ◌∷◌, Option, none, some, if◌then◌else◌, ◌≡◌, ◌↔◌, false, refl,
  subst, arith,
}
use para_p2p.Common.BTree.{values}
use para_p2p.Common.Int.{pos}
use para_p2p.Common.Io.{ok, err}
use para_p2p.Common.Order.{is_text, nat_ord, string_discrete}
use para_p2p.Crdt.GCounter.{GCounter}
use para_p2p.Crdt.GCounter.Laws.{IsValid}
use para_p2p.Net.Crypto.{Bytes}
use para_p2p.Para.AutoDoc.{Automerge}
use para_p2p.Para.Crdt.{Setting, ExternValue, Arg}
use para_p2p.Para.Crdt.Conforms.{is_kind, Answers}
use para_p2p.Crdt.Value.Display.{FloatText}
use para_p2p.Para.Crdt.Display.{display}
use para_p2p.Para.Crdt.Equality.{eq_value, eq_value_iff}
use para_p2p.Para.Crdt.Dyn.{Codec, Postcard, to_bytes_dyn, dyn_crdt}
use para_p2p.Para.Crdt.Dyn.Converge.{messages_converge, exchange}
use para_p2p.Para.Crdt.Dyn.Kinds.{Kind, Decodes}
use para_p2p.Para.Crdt.Methods.{gcounter_method_dispatch}
use para_p2p.Para.Crdt.Registry.{ExtType, methods_answer, dispatch_missing}
use para_p2p.Para.Crdt.Signatures.{ExtFn, SigType, method, gcounter_methods}
use para_p2p.Para.Native.{NativeValue, Scalar}
use para_p2p.Para.Synced.TakeIn.{with_message, with_messages}

abbrev edits : Automerge
edits = record {
  AutoCommit = ℕ;
  ChangeHash = ℕ;
  new_doc = 0;
  get_heads = λ d. (d ∷ [], d);
  same_heads = λ a b. true;
  save = λ d. d ∷ [];
  load = λ b. elim b [ n ∷ [] ↦ ok n | _ ↦ err "no document" ];
  merge_doc = λ a b. ok b;
  put_str = λ d k v. ok (suc d);
  delete = λ d k. ok (suc d);
  get_str = λ d k. none;
  sorted_keys = λ d. [];
}

abbrev setting : Setting
setting = record {
  F64 = ℕ;
  F32 = ℕ;
  f64_ord = nat_ord;
  f32_ord = nat_ord;
  automerge = edits;
  Other = Unit;
  other_identity = λ o. "reactive.Signal";
  arity_error = λ f want got. f;
  type_error = λ f t. t;
  no_function_error = λ f t. t;
  no_method_error = λ t f. f;
}

abbrev held_counter : GCounter
held_counter = record { counts = ("a", 3) ∷ [] }

abbrev other_counter : GCounter
other_counter = record { counts = ("b", 5) ∷ [] }

abbrev held : ExternValue setting
held = ExternValue.gcounter held_counter

abbrev counter : ExtType setting
counter = record {
  name = "GCounter";
  methods = gcounter_methods;
  dispatch = gcounter_method_dispatch setting;
}

abbrev increment_fn : ExtFn
increment_fn =
    method "increment" (SigType.string ∷ SigType.optional SigType.int ∷ [])
      (SigType.named "GCounter")

abbrev args : List (Arg setting)
args = NativeValue.str "b" ∷ NativeValue.scalar (Scalar.int (pos 2)) ∷ []

held_kind : is_kind setting "GCounter" held ≡ true
unfolding is_kind string_discrete
held_kind = refl

methods_answer_example :
    Answers setting
      (SigType.named "GCounter")
      "increment"
      args
      (gcounter_method_dispatch setting held "increment" args)
methods_answer_example =
    methods_answer setting counter held increment_fn args (head refl, held_kind) (head refl)
      (("b", refl), ((pos 2, refl), tt))

dispatch_missing_example : gcounter_method_dispatch setting held "decrement" args ≡ err "decrement"
unfolding string_discrete
dispatch_missing_example =
    dispatch_missing setting counter held "decrement" args (head refl, held_kind)
      (refl, (refl, (refl, tt)))

-- The share of the replica `a` or `b`.
abbrev share : Bytes → Option GCounter
share (zero ∷ n ∷ []) = some (record { counts = ("a", n) ∷ [] })
share (suc r ∷ n ∷ []) = some (record { counts = ("b", n) ∷ [] })
share _ = none

abbrev share_bytes : GCounter → Bytes
share_bytes c = elim c.counts [
  | [] ↦ []
  | (r, n) ∷ rest ↦ (if is_text r "a" then 0 else 1) ∷ n ∷ []
]

abbrev nothing : {A : Type 0} → Codec A
nothing = record { to_bytes = λ a. []; from_bytes = λ b. none }

abbrev wire : Postcard setting
wire = record {
  gcounter = record { to_bytes = share_bytes; from_bytes = share };
  pncounter = nothing;
  gset = nothing;
  lww = nothing;
  orset = nothing;
}

wire-Decodes : Decodes setting wire Kind.gcounter
wire-Decodes (zero ∷ n ∷ []) a h =
    let e : record { counts = ("a", n) ∷ [] } ≡ a = cc in subst IsValid e (tt, tt)
wire-Decodes (suc r ∷ n ∷ []) a h =
    let e : record { counts = ("b", n) ∷ [] } ≡ a = cc in subst IsValid e (tt, tt)
wire-Decodes [] a h = cc
wire-Decodes (x ∷ []) a h = absurd (ground arith)
wire-Decodes (zero ∷ y ∷ z ∷ b) a h = cc
wire-Decodes (suc x ∷ y ∷ z ∷ b) a h = cc

-- Two shares, and a message that is none; then another order, with one of them twice.
abbrev sent : List Bytes
sent = (0 ∷ 7 ∷ []) ∷ [] ∷ (1 ∷ 2 ∷ []) ∷ []

abbrev arrived : List Bytes
arrived = (1 ∷ 2 ∷ []) ∷ (0 ∷ 7 ∷ []) ∷ (1 ∷ 2 ∷ []) ∷ [] ∷ []

sent_arrived : (b : Bytes) → Memᴰ b sent → Memᴰ b arrived
sent_arrived b (head e) = tail (head e)
sent_arrived b (tail (head e)) = tail (tail (tail (head e)))
sent_arrived b (tail (tail (head e))) = head e
sent_arrived b (tail (tail (tail m))) = elim m [ ]

arrived_sent : (b : Bytes) → Memᴰ b arrived → Memᴰ b sent
arrived_sent b (head e) = tail (tail (head e))
arrived_sent b (tail (head e)) = head e
arrived_sent b (tail (tail (head e))) = tail (tail (head e))
arrived_sent b (tail (tail (tail (head e)))) = tail (head e)
arrived_sent b (tail (tail (tail (tail m)))) = elim m [ ]

held_sorted : IsValid held_counter
held_sorted = (tt, tt)

messages_converge_example :
    with_messages (dyn_crdt setting wire) held sent
    ≡ with_messages (dyn_crdt setting wire) held arrived
messages_converge_example =
    messages_converge setting wire Kind.gcounter held_counter sent arrived wire-Decodes held_sorted
      sent_arrived arrived_sent

exchange_example :
    (x : Bytes) × (y : Bytes) × (to_bytes_dyn setting wire held ≡ some x)
    × (to_bytes_dyn setting wire (ExternValue.gcounter other_counter) ≡ some y)
    × (with_message (dyn_crdt setting wire) held y
        ≡ with_message (dyn_crdt setting wire) (ExternValue.gcounter other_counter) x)
unfolding string_discrete
exchange_example =
    exchange setting wire Kind.gcounter held_counter other_counter wire-Decodes held_sorted (tt, tt)
      refl refl

eq_value_iff_example :
    (eq_value setting (λ o e. false) held (ExternValue.gcounter other_counter) ≡ true)
    ↔ (held ≡ ExternValue.gcounter other_counter)
eq_value_iff_example =
    eq_value_iff setting (λ o e. false) Kind.gcounter held_counter
      (ExternValue.gcounter other_counter)

abbrev floats : FloatText ℕ ℕ
floats = record {
  is_finite = λ x. true;
  fract = λ x. 0;
  is_zero = λ x. true;
  one_decimal = λ x. "0.0";
  shortest = λ x. "0";
  widen = λ x. x;
}

display-held : display setting floats (λ o. "other") held ≡ "<gcounter 3>"
unfolding display values
display-held = refl
