-- ===== src/Net/Node/Identity/Again.antt =====
-- A node that restarts over its files is the node that it was.
use para_p2p.Common.{
  Option, none, some, length, ◌==◌, ◌≡◌, refl, ap, ◌∙◌, arith, Option-cases, Bool-cases, inl, inr,
}
use para_p2p.Common.FilePath.{PathBuf}
use para_p2p.Common.Io.{Io, ok, err, Result-cases}
use para_p2p.Net.Crypto.{Bytes}
use para_p2p.Net.Group.{same}
use para_p2p.Net.Group.Election.{same_iff}
use para_p2p.Net.Node.Identity.{
  Machine, write_private, generate, create_identity, load_or_create_identity, create_credentials,
  load_or_create_credentials,
}

module _ (M : Machine) where
  open M use {World, SigningKey, SecretKey, Credentials}

  -- One file that can be written, and keys and credentials that survive their encoding. `content` is
  -- what the file holds, if it can be read.
  pub record FileLaws (path : PathBuf) : Type 0 where
    pub content : World → Option Bytes
    pub read_some :
        (w : World) (b : Bytes)
        → content w ≡ some b
        → (t : World) × (M.read path w ≡ (ok b, t)) × (content t ≡ some b)
    pub read_none :
        (w : World)
        → content w ≡ none
        → (e : _) × (t : World) × (M.read path w ≡ (err e, t)) × (content t ≡ none)
    pub write :
        (w : World) (b : Bytes)
        → (t : World) × (M.write path b w ≡ (ok tt, t)) × (content t ≡ some b)
    pub set_private_file :
        (w : World)
        → (t : World) × (M.set_private_file path w ≡ (ok tt, t)) × (content t ≡ content w)
    pub generate-content : (w : World) → content (M.generate w).1 ≡ content w
    pub secret_from_rng :
        (w : World)
        → (s : SecretKey) × (t : World) × (M.secret_from_rng w ≡ (ok s, t))
          × (content t ≡ content w)

  pub record KeyLaws : Type 0 where
    pub length-as_bytes : (k : SigningKey) → length (M.as_bytes k) ≡ 32
    pub from_bytes-as_bytes : (k : SigningKey) → M.from_bytes (M.as_bytes k) ≡ k
    pub key-from_keys :
        (k : SigningKey) (s : SecretKey) → M.credentials_key (M.from_keys k s) ≡ M.verifying_key k
    pub encodes : (c : Credentials) → (b : Bytes) × (M.encode c ≡ ok b) × (M.decode b ≡ ok c)

  module _ {path : PathBuf} (F : FileLaws path) (K : KeyLaws) where
    open F use {content}

    write_private-content :
        (w : World) (b : Bytes)
        → (t : World) × (write_private M path b w ≡ (ok tt, t)) × (content t ≡ some b)
    unfolding write_private
    write_private-content w b =
        let (u, h, c) = F.write w b in
        let (t, k, d) = F.set_private_file u in (t, ground arith, d ∙ c)

    -- What a file says once it holds a key of 32 bytes.
    load-some :
        (w : World) (b : Bytes)
        → content w ≡ some b
        → length b ≡ 32
        → (t : World) × (load_or_create_identity M path w ≡ (ok (M.from_bytes b), t))
          × (content t ≡ some b)
    unfolding load_or_create_identity
    load-some w b h l = let (t, r, c) = F.read_some w b h in (t, ground arith, c)

    create-content :
        (w : World)
        → (k : SigningKey) × (t : World) × (create_identity M path w ≡ (ok k, t))
          × (content t ≡ some (M.as_bytes k))
    unfolding create_identity generate
    create-content w =
        let k = (M.generate w).0 in
        let (t, h, c) = write_private-content (M.generate w).1 (M.as_bytes k) in
        (k, t, ground arith, c)

    -- The file that a start leaves holds the key that it gave.
    load-content :
        (w : World)
        → (k : SigningKey) × (t : World) × (b : Bytes) × (load_or_create_identity M path w
            ≡ (ok k, t))
          × (content t ≡ some b)
          × (length b ≡ 32)
          × (M.from_bytes b ≡ k)
    unfolding load_or_create_identity
    load-content w = elim (Option-cases (content w)) [
      | inl h ↦
          let (e, u, r, c) = F.read_none w h in
          let (k, t, m, d) = create-content u in
          (k, t, M.as_bytes k, ground arith, d, K.length-as_bytes k, K.from_bytes-as_bytes k)
      | inr (b, h) ↦ elim (Bool-cases (length b == 32)) [
        | inl l ↦
            let (u, r, c) = F.read_some w b h in
            (M.from_bytes b, u, b, ground arith, c, ground arith, refl)
        | inr l ↦
            let (u, r, c) = F.read_some w b h in
            let (k, t, m, d) = create-content u in
            (k, t, M.as_bytes k, ground arith, d, K.length-as_bytes k, K.from_bytes-as_bytes k)
      ]
    ]

    -- Where the key file can be written, reading finds what was written, and a key decodes from its
    -- 32 bytes: whatever the file held, also nothing or no key, a start has a key, and the next
    -- start over the files that it leaves has the same.
    pub identity_again :
        (w : World)
        → (k : SigningKey) × (t : World) × (u : World) × (load_or_create_identity M path w
            ≡ (ok k, t))
          × (load_or_create_identity M path t ≡ (ok k, u))
    identity_again w =
        let (k, t, b, h, c, l, e) = load-content w in
        let (u, r, d) = load-some t b c l in (k, t, u, h, r ∙ ap (λ x. (ok x, u)) e)

    -- What a file says once it holds credentials of the node.
    load_credentials-some :
        (key : SigningKey) (w : World) (b : Bytes) (c : Credentials)
        → content w ≡ some b
        → M.decode b ≡ ok c
        → M.credentials_key c ≡ M.verifying_key key
        → (t : World) × (load_or_create_credentials M path key w ≡ (ok c, t)) × (content t ≡ some b)
    unfolding load_or_create_credentials
    load_credentials-some key w b c h d e =
        let (t, r, k) = F.read_some w b h in
        let s = (same_iff ⦃o = M.key_ord⦄ (M.credentials_key c) (M.verifying_key key)).1 e in
        (t, ground arith, k)

    -- The credentials that a start gives are of the key of the node, and its file holds them.
    abbrev Leaves : SigningKey → Io World Credentials → World → Type 0
    Leaves key call w =
        (c : Credentials) × (t : World) × (b : Bytes) × (call w ≡ (ok c, t))
        × (content t ≡ some b)
        × (M.decode b ≡ ok c)
        × (M.credentials_key c ≡ M.verifying_key key)

    create_credentials-content :
        (key : SigningKey) (w : World) → Leaves key (create_credentials M path key) w
    unfolding create_credentials
    create_credentials-content key w =
        let (s, u, r, h) = F.secret_from_rng w in
        let c = M.from_keys key s in
        let (b, e, d) = K.encodes c in
        let (t, k, g) = write_private-content u b in
        (c, t, b, ground arith, g, d, K.key-from_keys key s)

    load_credentials-content :
        (key : SigningKey) (w : World) → Leaves key (load_or_create_credentials M path key) w
    unfolding load_or_create_credentials
    load_credentials-content key w = elim (Option-cases (content w)) [
      | inl h ↦
          let (e, u, r, k) = F.read_none w h in
          let (c, t, b, m, g, d, i) = create_credentials-content key u in
          (c, t, b, ground arith, g, d, i)
      | inr (b, h) ↦
          let (u, r, k) = F.read_some w b h in
          elim (Result-cases (M.decode b)) [
            | inl (c, d) ↦
                elim (Bool-cases
                  (same ⦃o = M.key_ord⦄ (M.credentials_key c) (M.verifying_key key))) [
                    | inl s ↦ (
                      c,
                      u,
                      b,
                      ground arith,
                      k,
                      d,
                      (same_iff ⦃o = M.key_ord⦄ (M.credentials_key c) (M.verifying_key key)).0 s,
                    )
                    | inr s ↦
                        let (c', t, b', m, g, d', i) = create_credentials-content key u in
                        (c', t, b', ground arith, g, d', i)
                  ]
            | inr (e, d) ↦
                let (c, t, b', m, g, d', i) = create_credentials-content key u in
                (c, t, b', ground arith, g, d', i)
          ]
    ]

    -- Where the file of the credentials can be written, reading finds what was written, and
    -- credentials survive their encoding: whatever the file held, also nothing or the credentials
    -- of another key, a start has credentials for the signing key of the node, and the next start
    -- over the files that it leaves has the same.
    pub credentials_again :
        (key : SigningKey) (w : World)
        → (c : Credentials) × (t : World) × (u : World) × (load_or_create_credentials M path key w
            ≡ (ok c, t))
          × (load_or_create_credentials M path key t ≡ (ok c, u))
          × (M.credentials_key c ≡ M.verifying_key key)
    credentials_again key w =
        let (c, t, b, h, g, d, e) = load_credentials-content key w in
        let (u, r, k) = load_credentials-some key t b c g d e in (c, t, u, h, r, e)
