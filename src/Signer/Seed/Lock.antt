-- ===== src/Signer/Seed/Lock.antt =====
-- `SeedSession::lock`: the seed is erased, and every operation that needs it refuses.
use savepoint_signer.Prelude.{ℕ, ◌≡◌, refl, Bool, zeros}
use savepoint_signer.Signer.Result.{err}
use savepoint_signer.Signer.Bitcoin.{Bitcoin}
use savepoint_signer.Signer.Seed.{
  SeedSession, locked_seed, lock, master, fingerprint, account_xpub, account_export,
  change_public_key, receive_address,
}

-- A locked session holds 64 zero bytes; fingerprint, account key, account export, change key and
-- receive addresses are all refused with `Locked`, whatever was in the session before; and locking
-- again changes nothing.
pub lock_refuses :
    (c : Bitcoin) (s : SeedSession) (segwit : Bool) (i : ℕ)
    → ((lock s).seed ≡ zeros 64)
      × (lock (lock s) ≡ lock s)
      × (fingerprint c (lock s) ≡ err locked_seed)
      × (account_xpub c (lock s) ≡ err locked_seed)
      × (account_export c (lock s) segwit ≡ err locked_seed)
      × (change_public_key c (lock s) ≡ err locked_seed)
      × (receive_address c (lock s) i ≡ err locked_seed)
unfolding lock master fingerprint account_xpub account_export change_public_key receive_address
lock_refuses c s segwit i = (refl, refl, refl, refl, refl, refl, refl)
