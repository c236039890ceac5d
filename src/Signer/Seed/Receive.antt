-- ===== src/Signer/Seed/Receive.antt =====
-- The address shown on the verification screen belongs to a key that the review knows as own.
use savepoint_signer.Prelude.{
  ℕ, ◌+◌, ◌≤◌, ◌<◌, ◌≡◌, true, some, List, [], ◌∷◌, arith, Option-cases, inl, inr,
}
use mathlib.Core.Option
use savepoint_signer.Signer.Result.{ok}
use savepoint_signer.Signer.Bitcoin.{Bitcoin}
use savepoint_signer.Signer.Seed.{
  SeedSession, hardened, max_address_index, coin_type, master, derive_all, account_xpub, in_account,
  public_at, receive_address,
}

-- BIP32, as the crate documents it: for child numbers that are not hardened, the public derivation
-- from the account's public key gives the public key of the private derivation.
abbrev pub PublicDerivation : Bitcoin → Type 0
PublicDerivation c =
    (account a b : ℕ)
    → a < hardened
    → b < hardened
    → c.derive_pub (c.xpub_of account) (a ∷ b ∷ [])
      ≡ Option.map c.public_key (derive_all c account (a ∷ b ∷ []))

abbrev pub receive_path : SeedSession → ℕ → List ℕ
receive_path s i = (hardened + 84) ∷ (hardened + coin_type s) ∷ hardened ∷ 0 ∷ i ∷ []

derive_all_split :
    (c : Bitcoin) (node account p q a b i : ℕ)
    → derive_all c node (p ∷ q ∷ a ∷ []) ≡ some account
    → derive_all c node (p ∷ q ∷ a ∷ b ∷ i ∷ []) ≡ derive_all c account (b ∷ i ∷ [])
unfolding derive_all
derive_all_split c node account p q a b i h = ground arith

receive_path-in_account :
    (s : SeedSession) (i : ℕ) → i ≤ max_address_index → in_account s (receive_path s i) ≡ true
unfolding in_account
receive_path-in_account s i h = ground arith

receive_address-ok :
    (c : Bitcoin) (s : SeedSession) (i : ℕ) (text : List ℕ)
    → receive_address c s i ≡ ok text
    → (node : ℕ) × (account : ℕ) × (key : ℕ) × (i ≤ max_address_index)
      × (master c s ≡ ok node)
      × (derive_all c node ((hardened + 84) ∷ (hardened + coin_type s) ∷ hardened ∷ [])
          ≡ some account)
      × (c.derive_pub (c.xpub_of account) (0 ∷ i ∷ []) ≡ some key)
      × (text ≡ c.p2wpkh_text key s.network)
unfolding receive_address account_xpub master
receive_address-ok c s i text h = elim (Option-cases (c.new_master s.network s.seed)) [
  | inl e ↦ absurd (ground arith)
  | inr (node, e) ↦
      elim (Option-cases
        (derive_all c node ((hardened + 84) ∷ (hardened + coin_type s) ∷ hardened ∷ []))) [
          | inl f ↦ absurd (ground arith)
          | inr (account, f) ↦ elim (Option-cases (c.derive_pub (c.xpub_of account) (0 ∷ i ∷ []))) [
            | inl g ↦ absurd (ground arith)
            | inr (key, g) ↦ (node, account, key, ground arith, ground arith, f, g, ground arith)
          ]
        ]
]

-- The text of receive address `i` is the P2WPKH address of the key that `public_at` derives from the session for the
-- path m/84'/coin'/0'/0/i, and the index is at most 1000.
pub receive_address-public_at :
    (c : Bitcoin) (s : SeedSession) (i : ℕ) (text : List ℕ)
    → PublicDerivation c
    → receive_address c s i ≡ ok text
    → (key : ℕ) × (i ≤ max_address_index)
      × (public_at c s (receive_path s i) ≡ ok key)
      × (text ≡ c.p2wpkh_text key s.network)
unfolding public_at
receive_address-public_at c s i text law h =
    let (node, account, key, le, m, d, p, e) = receive_address-ok c s i text h in
    let own = receive_path-in_account s i le in
    let split =
      derive_all_split c node account (hardened + 84) (hardened + coin_type s) hardened 0 i d in
    let l = law account 0 i (omega arith) (omega arith) in (key, le, ground arith, e)
