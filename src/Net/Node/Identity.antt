-- ===== src/Net/Node/Identity.antt =====
-- The files of a node in crates/noeta-para-p2p-net/src/p2p_node.rs: where they lie, its key and its
-- credentials, which it finds again when it restarts. The warnings that are printed have no model.
pub mod Again
mod Tests
use para_p2p.Common.{
  String, Bool, true, false, List, Option, none, some, length, ◌==◌, if◌then◌else◌,
}
use para_p2p.Common.FilePath.{PathBuf, join}
use para_p2p.Common.Io.{Io, Result, ok, err, pure, attempt, ◌>>=◌, ◌>>◌}
use para_p2p.Common.Order.{Ord}
use para_p2p.Net.Config.{P2pConfig}
use para_p2p.Net.Config.DataDir.{Environment, Platform, default_data_dir, or_else}
use para_p2p.Net.Crypto.{Bytes}
use para_p2p.Net.Group.{same}

-- What the code calls of `std::fs`, of the keys of p2panda and of the codec `postcard`. `World` is
-- the file system with the source of random numbers. `set_mode` does nothing but on Unix.
pub record Machine : Type 1 where
  pub World : Type 0
  pub SigningKey : Type 0
  pub VerifyingKey : Type 0
  pub SecretKey : Type 0
  pub Credentials : Type 0
  pub exists : PathBuf → World → Bool
  pub create_dir_all : PathBuf → Io World (Unit {0})
  pub set_private_dir : PathBuf → Io World (Unit {0})
  pub set_private_file : PathBuf → Io World (Unit {0})
  pub read : PathBuf → Io World Bytes
  pub write : PathBuf → Bytes → Io World (Unit {0})
  pub generate : World → SigningKey × World
  -- of 32 bytes
  pub from_bytes : Bytes → SigningKey
  pub as_bytes : SigningKey → Bytes
  pub verifying_key : SigningKey → VerifyingKey
  pub to_hex : VerifyingKey → String
  pub key_ord : Ord VerifyingKey
  pub secret_from_rng : Io World SecretKey
  pub from_keys : SigningKey → SecretKey → Credentials
  pub credentials_key : Credentials → VerifyingKey
  pub encode : Credentials → Result Bytes
  pub decode : Bytes → Result Credentials

module _ (M : Machine) where
  open M use {World, SigningKey, Credentials}

  unfoldable pub ensure_dir : PathBuf → Io World (Unit {0})
  ensure_dir dir w =
      if M.exists dir w then pure tt w else (do M.create_dir_all dir; M.set_private_dir dir) w

  unfoldable pub write_private : PathBuf → Bytes → Io World (Unit {0})
  write_private path bytes = do M.write path bytes; M.set_private_file path

  -- Where the state of a node lies, if anywhere: a directory that cannot be used is none.
  unfoldable pub state_dir : Environment → Platform → P2pConfig → Io World (Option PathBuf)
  unfolding ensure_dir
  state_dir env platform config =
      if config.persist
      then elim (or_else config.data_dir (default_data_dir env platform config.app_id)) [
        | some dir ↦ (do
          r ← attempt (ensure_dir dir)
          elim r [ ok _ ↦ pure (some dir) | err _ ↦ pure none ])
        | none ↦ pure none
      ]
      else pure none

  unfoldable pub generate : Io World SigningKey
  generate w = (ok (M.generate w).0, (M.generate w).1)

  -- A key that cannot be written is used all the same.
  unfoldable pub create_identity : PathBuf → Io World SigningKey
  unfolding generate write_private
  create_identity path = do key ← generate; attempt (write_private path (M.as_bytes key)); pure key

  unfoldable pub load_or_create_identity : PathBuf → Io World SigningKey
  unfolding create_identity
  load_or_create_identity path = do
    r ← attempt (M.read path)
    elim r [
      | ok bytes ↦ if length bytes == 32 then pure (M.from_bytes bytes) else create_identity path
      | err _ ↦ create_identity path
    ]

  -- The key of a node, by where its state lies.
  unfoldable pub signing_key : Option PathBuf → Io World SigningKey
  unfolding load_or_create_identity generate
  signing_key (some dir) = load_or_create_identity (join dir "identity.key")
  signing_key none = generate

  unfoldable pub create_credentials : PathBuf → SigningKey → Io World Credentials
  unfolding write_private
  create_credentials path signing_key = do
    identity_secret ← M.secret_from_rng
    (let credentials = M.from_keys signing_key identity_secret in
        elim (M.encode credentials) [
          | ok bytes ↦ (do attempt (write_private path bytes); pure credentials)
          | err _ ↦ pure credentials
        ])

  unfoldable pub load_or_create_credentials : PathBuf → SigningKey → Io World Credentials
  unfolding create_credentials
  load_or_create_credentials path signing_key = do
    r ← attempt (M.read path)
    elim r [
      | ok bytes ↦ elim (M.decode bytes) [
        | ok creds ↦
            if same ⦃o = M.key_ord⦄ (M.credentials_key creds) (M.verifying_key signing_key)
            then pure creds
            else create_credentials path signing_key
        | err _ ↦ create_credentials path signing_key
      ]
      | err _ ↦ create_credentials path signing_key
    ]

  -- `P2pNode::identity`
  unfoldable pub identity : SigningKey → String
  identity key = M.to_hex (M.verifying_key key)
