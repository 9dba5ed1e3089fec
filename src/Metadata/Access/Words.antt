-- ===== src/Metadata/Access/Words.antt =====
-- Values of several bytes in memory, for src/util/metadata/side_metadata/global.rs.
use mmtk_core.Base.{
  ℕ, zero, suc, ◌+◌, ◌/◌, ◌%◌, ◌^◌, ◌≤◌, ◌<◌, ◌≡◌, refl, arith, update, update_self, update_ne,
}
use native.Mathlib.Nat.{pow-suc}
use mmtk_core.Metadata.Access.{Memory, load_value, store_value}

abbrev pub IsBytes : Memory → Type 0
IsBytes mem = (a : ℕ) → mem a < 256

pub update-IsBytes : (mem : Memory) (a x : ℕ) → IsBytes mem → x < 256 → IsBytes (update mem a x)
update-IsBytes mem a x h hx c = ground (arith, h c)

pub load_value_agree :
    (n : ℕ) (mem other : Memory) (addr : ℕ)
    → ((a : ℕ) → addr ≤ a → a < addr + n → mem a ≡ other a)
    → load_value n mem addr ≡ load_value n other addr
unfolding load_value
load_value_agree zero mem other addr h = refl
load_value_agree (suc n) mem other addr h = omega (
  arith,
  h addr (omega arith) (omega arith),
  load_value_agree n mem other (addr + 1) (λ a lo hi. h a (omega arith) (omega arith)),
)

pub load_value-below :
    (n : ℕ) (mem : Memory) (addr : ℕ) → IsBytes mem → load_value n mem addr < 256 ^ n
unfolding load_value
load_value-below zero mem addr h = omega arith
load_value-below (suc n) mem addr h =
    omega (arith, h addr, pow-suc 256 n, load_value-below n mem (addr + 1) h)

pub store_value_before :
    (n : ℕ) (mem : Memory) (addr v a : ℕ) → a < addr → store_value n mem addr v a ≡ mem a
unfolding store_value
store_value_before zero mem addr v a h = refl
store_value_before (suc n) mem addr v a h =
    ground (arith, store_value_before n mem (addr + 1) (v / 256) a (omega arith))

pub store_value_after :
    (n : ℕ) (mem : Memory) (addr v a : ℕ) → addr + n ≤ a → store_value n mem addr v a ≡ mem a
unfolding store_value
store_value_after zero mem addr v a h = refl
store_value_after (suc n) mem addr v a h =
    ground (arith, store_value_after n mem (addr + 1) (v / 256) a (omega arith))

pub store_value-IsBytes :
    (n : ℕ) (mem : Memory) (addr v : ℕ) → IsBytes mem → IsBytes (store_value n mem addr v)
unfolding store_value
store_value-IsBytes zero mem addr v h = h
store_value-IsBytes (suc n) mem addr v h =
    update-IsBytes (store_value n mem (addr + 1) (v / 2 ^ 8)) addr (v % 2 ^ 8)
      (store_value-IsBytes n mem (addr + 1) (v / 2 ^ 8) h) (omega arith)

pub load_value-store_value :
    (n : ℕ) (mem : Memory) (addr v : ℕ)
    → v < 256 ^ n
    → load_value n (store_value n mem addr v) addr ≡ v
unfolding load_value store_value
load_value-store_value zero mem addr v h = omega arith
load_value-store_value (suc n) mem addr v h = omega (
  arith,
  update_self inner addr (v % 2 ^ 8),
  load_value_agree n (update inner addr (v % 2 ^ 8)) inner (addr + 1)
      (λ a lo hi. update_ne inner addr a (v % 2 ^ 8) (omega arith)),
  load_value-store_value n mem (addr + 1) (v / 2 ^ 8) (omega (arith, pow-suc 256 n)),
)
  where
    inner : Memory
    inner = store_value n mem (addr + 1) (v / 2 ^ 8)
