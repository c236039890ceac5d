-- ===== src/Mbc/Edges.antt =====
-- What the controller signals on edges: the RTC latch and the end of an SRAM session.
use savepoint_signer.Prelude.{
  ℕ, ◌+◌, ◌^◌, ◌<◌, ◌≡◌, refl, ap, sym, ◌∙◌, Bool, not, ◌&&◌, List, [], ◌∷◌, arith, ◌==◌,
  if◌then◌else◌,
}
use savepoint_signer.SaveCoordinator.{Atomics, publish_sram_transition}
use savepoint_signer.Mbc.{
  Call, trigger_latch, Cartridge, is_enable, Region, ram_enable, bank_select, ram_select, latch,
  elsewhere, region, Mbc3State, route, commit, mbc3_step, mbc3_write,
}

-- Writes of the game: an address and a byte each.
unfoldable pub mbc3_writes : List (ℕ × ℕ) → Mbc3State × Cartridge → Mbc3State × Cartridge
mbc3_writes [] m = m
mbc3_writes ((addr, d) ∷ ws) m = mbc3_writes ws (mbc3_write addr d m)

abbrev pub is_trigger : Call → ℕ
is_trigger trigger_latch = 1
is_trigger k = 0

unfoldable pub count_triggers : List Call → ℕ
count_triggers [] = 0
count_triggers (k ∷ ks) = is_trigger k + count_triggers ks

abbrev rises : Bool → ℕ → ℕ
rises was d = if was then 0 else if d == 0 then 0 else 1

abbrev latched : Bool → Region → ℕ → Bool
latched was latch d = not (d == 0)
latched was r d = was

abbrev rising : Bool → Region → ℕ → ℕ
rising was latch d = rises was d
rising was r d = 0

-- How often the value written to 0x6000-0x7FFF turns from zero to non-zero.
unfoldable pub count_rising : Bool → List (ℕ × ℕ) → ℕ
count_rising was [] = 0
count_rising was ((addr, d) ∷ ws) =
    rising was (region addr) d + count_rising (latched was (region addr) d) ws

route-latch :
    (r : Region) (d : ℕ) (m : Mbc3State × Cartridge)
    → ((commit (route r d m)).0.rtc_latch ≡ latched m.0.rtc_latch r d)
      × (count_triggers (commit (route r d m)).1.calls
          ≡ rising m.0.rtc_latch r d + count_triggers m.1.calls)
unfolding route commit count_triggers
route-latch ram_enable d m = ground arith
route-latch bank_select d m = ground arith
route-latch ram_select d m = ground arith
route-latch latch d m = ground arith
route-latch elsewhere d m = ground arith

write-latch :
    (addr d : ℕ) (m : Mbc3State × Cartridge)
    → ((mbc3_write addr d m).0.rtc_latch ≡ latched m.0.rtc_latch (region addr) d)
      × (count_triggers (mbc3_write addr d m).1.calls
          ≡ rising m.0.rtc_latch (region addr) d + count_triggers m.1.calls)
unfolding mbc3_write mbc3_step
write-latch addr d m = route-latch (region addr) d m

-- Over any writes of the game the RTC is latched exactly once for each turn from zero to non-zero.
pub triggers-eq-rising :
    (ws : List (ℕ × ℕ)) (m : Mbc3State × Cartridge)
    → count_triggers (mbc3_writes ws m).1.calls
      ≡ count_rising m.0.rtc_latch ws + count_triggers m.1.calls
unfolding mbc3_writes count_rising
triggers-eq-rising [] m = omega arith
triggers-eq-rising ((addr, d) ∷ ws) m =
    let (a, b) = write-latch addr d m in
    let rest = triggers-eq-rising ws (mbc3_write addr d m) in
    let counted = ap (λ w. count_rising w ws) a in omega (arith, rest, counted, b)

abbrev enabled : Bool → Region → ℕ → Bool
enabled was ram_enable d = is_enable d
enabled was r d = was

abbrev ends : Bool → Bool → ℕ
ends was now = if was && not now then 1 else 0

-- How often SRAM turns from enabled to disabled.
unfoldable pub count_ends : Bool → List (ℕ × ℕ) → ℕ
count_ends was [] = 0
count_ends was ((addr, d) ∷ ws) =
    let now = enabled was (region addr) d in ends was now + count_ends now ws

route-enabled :
    (r : Region) (d : ℕ) (m : Mbc3State × Cartridge)
    → ((commit (route r d m)).0.ram_enabled ≡ enabled m.0.ram_enabled r d)
      × ((commit (route r d m)).1.atomics ≡ m.1.atomics)
unfolding route commit
route-enabled ram_enable d m = ground arith
route-enabled bank_select d m = ground arith
route-enabled ram_select d m = ground arith
route-enabled latch d m = ground arith
route-enabled elsewhere d m = ground arith

write-enabled :
    (addr d : ℕ) (m : Mbc3State × Cartridge)
    → let now = enabled m.0.ram_enabled (region addr) d in
      ((mbc3_write addr d m).0.ram_enabled ≡ now)
      × ((mbc3_write addr d m).1.atomics ≡ publish_sram_transition m.0.ram_enabled now m.1.atomics)
unfolding mbc3_write mbc3_step
write-enabled addr d m = let (a, b) = route-enabled (region addr) d m in (a, rw (a, b) refl)

publish-generation :
    (was now : Bool) (a : Atomics)
    → a.generation + ends was now < 2 ^ 32
    → ((publish_sram_transition was now a).generation ≡ a.generation + ends was now)
      × ((publish_sram_transition was now a).enabled ≡ now)
unfolding publish_sram_transition
publish-generation was now a h = ground arith

-- Over any writes of the game the save generation grows by one for each SRAM session that ends,
-- as long as it stays below 2^32, and SRAM_ENABLED keeps up with the controller.
pub generation-eq-ends :
    (ws : List (ℕ × ℕ)) (m : Mbc3State × Cartridge)
    → m.1.atomics.enabled ≡ m.0.ram_enabled
    → m.1.atomics.generation + count_ends m.0.ram_enabled ws < 2 ^ 32
    → ((mbc3_writes ws m).1.atomics.generation
        ≡ m.1.atomics.generation + count_ends m.0.ram_enabled ws)
      × ((mbc3_writes ws m).1.atomics.enabled ≡ (mbc3_writes ws m).0.ram_enabled)
unfolding mbc3_writes count_ends
generation-eq-ends [] m e b = (omega arith, e)
generation-eq-ends ((addr, d) ∷ ws) m e b =
    let now = enabled m.0.ram_enabled (region addr) d in
    let n = mbc3_write addr d m in
    let (a, p) = write-enabled addr d m in
    let (g, k) = publish-generation m.0.ram_enabled now m.1.atomics (omega arith) in
    let g' : n.1.atomics.generation ≡ m.1.atomics.generation + ends m.0.ram_enabled now =
      ap (λ (x : Atomics). x.generation) p ∙ g in
    let same : n.1.atomics.enabled ≡ n.0.ram_enabled =
      ap (λ (x : Atomics). x.enabled) p ∙ k ∙ sym a in
    let counted : count_ends n.0.ram_enabled ws ≡ count_ends now ws = ap (λ w. count_ends w ws) a in
    let rest = generation-eq-ends ws n same (omega arith) in (omega arith, rest.1)
