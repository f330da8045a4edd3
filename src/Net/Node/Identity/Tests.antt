-- ===== src/Net/Node/Identity/Tests.antt =====
-- A machine with one file and numbers for keys.
use para_p2p.Common.{ℕ, suc, true, ◌+◌, [], ◌∷◌, Option, none, some, ◌≡◌, refl}
use para_p2p.Common.FilePath.{PathBuf, normal}
use para_p2p.Common.Io.{Result, ok, err, pure}
use para_p2p.Common.Order.{nat_ord}
use para_p2p.Net.Crypto.{Bytes}
use para_p2p.Net.Node.Identity.{
  Machine, load_or_create_identity, load_or_create_credentials, create_identity, generate,
  write_private,
}
use para_p2p.Net.Node.Identity.Again.{FileLaws, KeyLaws, identity_again, credentials_again}

record Disk : Type 0 where
  pub file : Option Bytes
  pub seed : ℕ

abbrev padding : Bytes
padding =
    0 ∷ 0 ∷ 0 ∷ 0 ∷ 0 ∷ 0 ∷ 0 ∷ 0 ∷ 0 ∷ 0 ∷ 0 ∷ 0 ∷ 0 ∷ 0 ∷ 0 ∷ 0 ∷ 0 ∷ 0 ∷ 0 ∷ 0 ∷ 0 ∷ 0 ∷ 0 ∷ 0
    ∷ 0 ∷ 0 ∷ 0 ∷ 0 ∷ 0 ∷ 0 ∷ 0 ∷ []

abbrev read_file : Option Bytes → Result Bytes
read_file none = err "no such file"
read_file (some b) = ok b

abbrev machine : Machine
machine = record {
  World = Disk;
  SigningKey = ℕ;
  VerifyingKey = ℕ;
  SecretKey = ℕ;
  Credentials = ℕ × ℕ;
  exists = λ p w. true;
  create_dir_all = λ p. pure tt;
  set_private_dir = λ p. pure tt;
  set_private_file = λ p. pure tt;
  read = λ p w. (read_file w.file, w);
  write = λ p b w. (ok tt, record w { file = some b });
  generate = λ w. (w.seed, record w { seed = suc w.seed });
  from_bytes = λ b. elim b [ [] ↦ 0 | n ∷ rest ↦ n ];
  as_bytes = λ k. k ∷ padding;
  verifying_key = λ k. k + 100;
  to_hex = λ k. "key";
  key_ord = nat_ord;
  secret_from_rng = λ w. (ok w.seed, record w { seed = suc w.seed });
  from_keys = λ k s. (k + 100, s);
  credentials_key = λ c. c.0;
  encode = λ c. ok (c.0 ∷ c.1 ∷ []);
  decode = λ b. elim b [ k ∷ s ∷ [] ↦ ok (k, s) | _ ↦ err "malformed" ];
}

abbrev path : PathBuf
path = normal "identity.key" ∷ []

read-some :
    (w : Disk) (b : Bytes)
    → w.file ≡ some b
    → (t : Disk) × (machine.read path w ≡ (ok b, t)) × (t.file ≡ some b)
read-some w b h = (w, rw h refl, h)

read-none :
    (w : Disk)
    → w.file ≡ none
    → (e : _) × (t : Disk) × (machine.read path w ≡ (err e, t)) × (t.file ≡ none)
read-none w h = ("no such file", w, rw h refl, h)

abbrev file_laws : FileLaws machine path
file_laws = record {
  content = λ w. w.file;
  read_some = read-some;
  read_none = read-none;
  write = λ w b. (record w { file = some b }, refl, refl);
  set_private_file = λ w. (w, refl, refl);
  generate-content = λ w. refl;
  secret_from_rng = λ w. (w.seed, record w { seed = suc w.seed }, refl, refl);
}

abbrev key_laws : KeyLaws machine
key_laws = record {
  length-as_bytes = λ k. refl;
  from_bytes-as_bytes = λ k. refl;
  key-from_keys = λ k s. refl;
  encodes = λ c. (c.0 ∷ c.1 ∷ [], refl, refl);
}

-- The file holds no key.
abbrev broken : Disk
broken = record { file = some (1 ∷ 2 ∷ []); seed = 7 }

broken-identity : (load_or_create_identity machine path broken).0 ≡ ok 7
unfolding load_or_create_identity create_identity generate write_private
broken-identity = refl

identity_again_example :
    (k : ℕ) × (t u : Disk) × (load_or_create_identity machine path broken ≡ (ok k, t))
    × (load_or_create_identity machine path t ≡ (ok k, u))
identity_again_example = identity_again machine file_laws key_laws broken

credentials_again_example :
    (c : ℕ × ℕ) × (t u : Disk) × (load_or_create_credentials machine path 7 broken ≡ (ok c, t))
    × (load_or_create_credentials machine path 7 t ≡ (ok c, u))
    × (c.0 ≡ 107)
credentials_again_example = credentials_again machine file_laws key_laws 7 broken
