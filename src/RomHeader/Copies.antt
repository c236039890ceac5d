-- ===== src/RomHeader/Copies.antt =====
-- The two readers of src/rom_info.rs and cartridge-core/src/rom_info.rs compared.
use mathlib.Core.Path.{subst}
use savepoint_signer.Prelude.{
  ℕ, zero, suc, ◌≤◌, ◌≡◌, refl, sym, ◌⊎◌, Option, none, some, List, leb, length, arith, get_elem?,
  Bool-cases, inl, inr,
}
use savepoint_signer.Signer.Result.{Result, ok, err, panic, ◌>>=◌, index, ok_or}
use savepoint_signer.RomHeader.{
  RomInfo, lookup, mbc_type, rom_banks, file_name, describe, from_rom_bytes, host_mbc_type,
  host_rom_banks, host_file_name, host_describe, host_from_rom_bytes,
}

-- The firmware and the reader for the host end alike, or, with a code of the RAM size above 5, in a
-- panic and in None.
abbrev pub Agree : ℕ → Result (Unit {0}) RomInfo → Result (Unit {0}) RomInfo → Type 0
Agree ram firmware host = (firmware ≡ host) ⊎ ((6 ≤ ram) × (firmware ≡ panic) × (host ≡ err tt))

lookup-none : (ram : ℕ) → get_elem? lookup ram ≡ none → 6 ≤ ram
lookup-none zero h = absurd (cc h)
lookup-none (suc zero) h = absurd (cc h)
lookup-none (suc (suc zero)) h = absurd (cc h)
lookup-none (suc (suc (suc zero))) h = absurd (cc h)
lookup-none (suc (suc (suc (suc zero)))) h = absurd (cc h)
lookup-none (suc (suc (suc (suc (suc zero))))) h = absurd (cc h)
lookup-none (suc (suc (suc (suc (suc (suc n)))))) h = omega arith

-- A missing entry is a panic in one copy and None in the other.
looked_up-Agree :
    (o : Option ℕ) (ram : ℕ) (next : ℕ → Result (Unit {0}) RomInfo)
    → (o ≡ none → 6 ≤ ram)
    → Agree ram (elim o [ some a ↦ ok a | none ↦ panic ] >>= next) (ok_or o tt >>= next)
looked_up-Agree (some a) ram next h = inl refl
looked_up-Agree none ram next h = inr (h refl, refl, refl)

next-Agree :
    {A : Type 0} (ram : ℕ) (m : Result (Unit {0}) A) (f g : A → Result (Unit {0}) RomInfo)
    → ((a : A) → Agree ram (f a) (g a))
    → Agree ram (m >>= f) (m >>= g)
next-Agree ram (ok a) f g k = k a
next-Agree ram (err e) f g k = inl refl
next-Agree ram panic f g k = inl refl

size-Agree :
    (ram : ℕ) (o : Option ℕ) (f g : ℕ → Result (Unit {0}) RomInfo)
    → o ≡ some ram
    → Agree ram (f ram) (g ram)
    → Agree ram
        (elim o [ some a ↦ ok a | none ↦ panic ] >>= f)
        (elim o [ some a ↦ ok a | none ↦ panic ] >>= g)
size-Agree ram none f g h k = absurd (cc h)
size-Agree ram (some a) f g h k =
    let e : a ≡ ram = cc h in subst (λ n. Agree ram (f n) (g n)) (sym e) k

-- On an image of at least 0x150 bytes the two readers, each with its own tables, give the same
-- description or fail alike, but for a code of the RAM size above 5: there the firmware may panic, and
-- the reader for the host then returns None.
pub from_rom_bytes-eq-host :
    (bank name : List ℕ) (ram : ℕ)
    → 0x150 ≤ length bank
    → get_elem? bank 0x149 ≡ some ram
    → Agree ram (from_rom_bytes bank name) (host_from_rom_bytes bank name)
unfolding from_rom_bytes host_from_rom_bytes mbc_type host_mbc_type describe host_describe rom_banks
    host_rom_banks file_name host_file_name
from_rom_bytes-eq-host bank name ram long at = elim (Bool-cases (leb 0x150 (length bank))) [
  | inr e ↦ absurd (ground (arith, e, long))
  | inl e ↦ rw e (
      next-Agree ram (index bank 0x147) _ _ (λ dat.
        next-Agree ram (ok_or (mbc_type dat) tt) _ _ (λ kind.
          size-Agree ram (get_elem? bank 0x149) _ _ at (
            looked_up-Agree (get_elem? lookup ram) ram (describe bank name kind)
              (lookup-none ram)))))
]
