-- ===== src/Signer/Terminal.antt =====
-- signer-probe/src/terminal.rs: the state of the terminal and the operations on it. The state and
-- command bytes are read as data types. `none` stands for a panic of the Rust code.
pub mod Command
pub mod Flow
pub mod Gate
pub mod Matches
pub mod Custody
pub mod Signing
pub mod Invariant
pub mod Words
pub mod Total
pub mod Report
use Prim.Native.Nat.{bit_or}
use Prim.Native.String.{String}
use savepoint_signer.Prelude.{
  ℕ, zero, suc, ◌+◌, ◌-◌, ◌*◌, ◌/◌, ◌%◌, ◌^◌, ◌<◌, Bool, true, false, ◌&&◌, Option, none, some,
  List, [], ◌∷◌, ◌++◌, min, max, ltb, leb, ◌==◌, if◌then◌else◌, length, get_elem?, get_or, set,
  take, drop, zeros, copy_at, codes,
}
use savepoint_signer.SeedLink.{starts_with}
use savepoint_signer.Signer.Bitcoin.{Network, testnet}
use savepoint_signer.Signer.Seed.{SeedSession, Review}

pub data State : Type 0 where
  locked entering_words entering_passphrase busy showing_identity active failed : State
  qr_ready qr_error loading reviewing signing error saving saved listing choosing : State

-- The byte of the state in the report.
unfoldable pub state_code : State → ℕ
state_code locked = 0
state_code entering_words = 1
state_code entering_passphrase = 2
state_code busy = 3
state_code showing_identity = 4
state_code active = 5
state_code failed = 6
state_code qr_ready = 7
state_code qr_error = 8
state_code loading = 9
state_code reviewing = 10
state_code signing = 11
state_code error = 13
state_code saving = 14
state_code saved = 15
state_code listing = 16
state_code choosing = 17

-- The tests on the state that guard the worker's calls.
abbrev pub is_busy : State → Bool
is_busy busy = true
is_busy _ = false

abbrev pub is_loading : State → Bool
is_loading loading = true
is_loading _ = false

abbrev pub is_signing : State → Bool
is_signing signing = true
is_signing _ = false

abbrev pub is_saving : State → Bool
is_saving saving = true
is_saving _ = false

abbrev pub is_listing : State → Bool
is_listing listing = true
is_listing _ = false

pub record PsbtFile : Type 0 where
  pub name : List ℕ  -- characters
  pub alias : List ℕ
  pub size : ℕ

abbrev pub qr_max_modules : ℕ
qr_max_modules = 41

abbrev pub qr_buffer_bytes : ℕ
qr_buffer_bytes = (41 * 41 + 7) / 8

pub record Terminal : Type 0 where
  pub state : State
  pub files : List PsbtFile
  pub file_index : ℕ
  pub name_page : ℕ
  pub review : Option Review
  pub review_page : ℕ
  pub psbt_message : List ℕ  -- the bytes of its text
  pub network : Network
  pub count : ℕ
  pub slot : ℕ
  pub words : List ℕ
  pub prefix : List ℕ
  pub prefix_len : ℕ
  pub candidate : ℕ
  pub pass : List ℕ
  pub pass_len : ℕ
  pub seed : Option SeedSession
  pub identity : List ℕ
  pub address_index : ℕ
  pub qr_size : ℕ
  pub qr_buffer : List ℕ

abbrev pub default : Terminal
default = record {
  state = locked;
  files = [];
  file_index = 0;
  name_page = 0;
  review = none;
  review_page = 0;
  psbt_message = [];
  network = testnet;
  count = 0;
  slot = 0;
  words = zeros 24;
  prefix = zeros 4;
  prefix_len = 0;
  candidate = 0;
  pass = zeros 100;
  pass_len = 0;
  seed = none;
  identity = zeros 52;
  address_index = 0;
  qr_size = 0;
  qr_buffer = zeros qr_buffer_bytes;
}

-- `xs[i] = v`, with the panic on an index out of bounds.
abbrev pub store : List ℕ → ℕ → ℕ → Option (List ℕ)
store xs i v = if ltb i (length xs) then some (set xs i v) else none

-- `a % n`, with the panic on 0.
abbrev pub rem : ℕ → ℕ → Option ℕ
rem a n = if n == 0 then none else some (a % n)

unfoldable pub clear_entry : Terminal → Terminal
clear_entry t = record t {
  words = zeros 24;
  prefix = zeros 4;
  pass = zeros 100;
  prefix_len = 0;
  pass_len = 0;
  candidate = 0;
}

unfoldable pub clear_qr : Terminal → Terminal
clear_qr t = record t { qr_size = 0; qr_buffer = zeros qr_buffer_bytes }

-- `matches`: the words of the list that begin with the prefix, with their indices from `i` on.
unfoldable pub matches_from : ℕ → List (List ℕ) → List ℕ → List (ℕ × List ℕ)
matches_from i [] prefix = []
matches_from i (w ∷ ws) prefix =
    let rest = matches_from (i + 1) ws prefix in
    if starts_with w prefix then (i, w) ∷ rest else rest

-- The slice of the source panics for a length above 4; here it is then the whole prefix.
unfoldable pub matches : List (List ℕ) → Terminal → List (ℕ × List ℕ)
matches word_list t = matches_from 0 word_list (take t.prefix_len t.prefix)

-- A QR code as the vendored `qrcodegen` returns it.
pub record QrCode : Type 0 where
  pub size : ℕ
  pub get_module : ℕ → ℕ → Bool

-- The double loop of `export_qr`: `i` counts modules row by row; a dark one sets its bit.
unfoldable pub set_module : List ℕ → ℕ → Bool → List ℕ
set_module buffer i dark =
    if dark then set buffer (i / 8) (bit_or (get_or buffer (i / 8) 0) (2 ^ (i % 8))) else buffer

unfoldable pub pack_row : QrCode → ℕ → ℕ → ℕ → ℕ → List ℕ → List ℕ
unfolding set_module
pack_row qr y x i zero buffer = buffer
pack_row qr y x i (suc n) buffer =
    pack_row qr y (x + 1) (i + 1) n (set_module buffer i (qr.get_module x y))

unfoldable pub pack_rows : QrCode → ℕ → ℕ → ℕ → List ℕ → List ℕ
unfolding pack_row
pack_rows qr y i zero buffer = buffer
pack_rows qr y i (suc n) buffer =
    pack_rows qr (y + 1) (i + qr.size) n (pack_row qr y 0 i qr.size buffer)

unfoldable pub pack_qr : QrCode → List ℕ
unfolding pack_rows
pack_qr qr = pack_rows qr 0 0 qr.size (zeros qr_buffer_bytes)

unfoldable pub psbt_error : Terminal → String → Terminal
psbt_error t message = record t {
  files = [];
  review = none;
  psbt_message = codes message;
  state = error;
}
