-- ===== src/Para/Provider/Sandbox.antt =====
-- Where the host permits no networking, or the transport is not built in, there is one broker.
use para_p2p.Common.{◌≡◌, refl, sym, ap, ◌∙◌, Bool, false, Option, none, some, arith, ◌&&◌}
use para_p2p.Common.Io.{Io, ok}
use para_p2p.Net.Config.{P2pConfig}
use para_p2p.Para.Directory.{FileSystem}
use para_p2p.Para.Provider.{
  NodeConfig, backend_key, Transport, Registry, create_backend, find_or_start, backend_in,
}
use para_p2p.Para.Provider.Calls.{find_live, find-filed}

backend_key_sandboxed :
    (ring permitted : Bool) (q : Option NodeConfig)
    → (permitted && ring) ≡ false
    → backend_key ring q permitted ≡ none
unfolding backend_key
backend_key_sandboxed ring permitted none h = refl
backend_key_sandboxed ring permitted (some config) h = rw h

backend_in_broker :
    (T : Transport) (ring permitted : Bool) (fs : FileSystem) (q : Option NodeConfig)
    (r : Registry T.World T.Backend)
    → (permitted && ring) ≡ false
    → backend_in T ring fs q permitted r ≡ find_or_start T ring fs none r
unfolding backend_in
backend_in_broker T ring permitted fs q r h =
    ap (λ key. find_or_start T ring fs key r) (backend_key_sandboxed ring permitted q h)

module _ (T : Transport) (ring : Bool) where
  open T use {World, Backend}

  -- The registry's broker, if it has none yet a new one.
  abbrev broker : Registry World Backend → Backend
  broker r = elim (r.nodes none) [ some b ↦ b | none ↦ (T.new_broker r.world).0 ]

  find_broker :
      (fs : FileSystem) (r : Registry World Backend)
      → (find_or_start T ring fs none r).0 ≡ ok (broker r)
  unfolding find_or_start create_backend
  find_broker fs r = ground arith

  find_never_starts :
      (start : P2pConfig → Io World Backend) (fs : FileSystem) (r : Registry World Backend)
      → find_or_start (record T { start_with_config = start }) ring fs none r
        ≡ find_or_start T ring fs none r
  unfolding find_or_start create_backend
  find_never_starts start fs r = ground arith

  -- Where the host permits no networking, or the transport is not built in, every request succeeds,
  -- whatever it names, with the one broker that every later request has too. It would do the same
  -- with any other way to start a node, so it starts none.
  pub backend_in_sandboxed :
      (permitted : Bool) (fs : FileSystem) (q : Option NodeConfig) (r : Registry World Backend)
      → (permitted && ring) ≡ false
      → (b : Backend) × ((backend_in T ring fs q permitted r).0 ≡ ok b)
        × ((later : FileSystem) (p : Option NodeConfig)
            → let s : Registry World Backend = (backend_in T ring fs q permitted r).1 in
              backend_in T ring later p permitted s ≡ (ok b, s))
        × ((start : P2pConfig → Io World Backend)
            → backend_in (record T { start_with_config = start }) ring fs q permitted r
              ≡ backend_in T ring fs q permitted r)
  backend_in_sandboxed permitted fs q r h =
      let e = backend_in_broker T ring permitted fs q r h in
      (
        broker r,
        rw e (find_broker fs r),
        λ later p.
            rw (e, backend_in_broker T ring permitted later p (find_or_start T ring fs none r).1 h)
              (find_live T ring later none (find_or_start T ring fs none r).1 (broker r)
                (find-filed T ring fs none (broker r) r (find_broker fs r))),
        λ start.
            backend_in_broker (record T { start_with_config = start }) ring permitted fs q r h
            ∙ find_never_starts start fs r
            ∙ sym e,
      )
