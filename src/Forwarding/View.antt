-- ===== src/Forwarding/View.antt =====
-- What the steps of the workers do to the forwarding status and the forwarding pointer, without the
-- words that hold them. The copies of the object are counted.
use mmtk_core.Base.{ℕ, ◌+◌, ◌≡◌, ◌≢◌, Bool, true, false}
use mmtk_core.Forwarding.{
  forwarding_not_triggered_yet, being_forwarded, forwarded, Pc, attempt, loaded, won, copied,
  pointer_written, spinning, returned,
}

pub record Status : Type 0 where
  pub bits : ℕ
  pub pointer : ℕ
  pub copies : ℕ

pub data Move (object : ℕ) (combined : Bool) (m : Status) : Pc → Status → Pc → Type 0 where
  load : Move object combined m attempt m (loaded m.bits)
  not_first :
      {old : ℕ}
      → old ≢ forwarding_not_triggered_yet
      → Move object combined m (loaded old) m (spinning old)
  exchange :
      {old : ℕ}
      → old ≡ forwarding_not_triggered_yet
      → m.bits ≡ old
      → Move object combined m (loaded old) (record m { bits = being_forwarded }) won
  exchange_fails :
      {old : ℕ} → old ≡ forwarding_not_triggered_yet → Move object combined m (loaded old) m attempt
  copy :
      (new_object : ℕ)
      → Move object combined m won (record m { copies = m.copies + 1 }) (copied new_object)
  store_both :
      {new : ℕ}
      → combined ≡ true
      → Move object combined m
          (copied new)
          (record m { bits = forwarded; pointer = new })
          (returned new)
  write_forwarding_pointer :
      {new : ℕ}
      → combined ≡ false
      → Move object combined m (copied new) (record m { pointer = new }) (pointer_written new)
  store_bits :
      {new : ℕ}
      → Move object combined m (pointer_written new) (record m { bits = forwarded }) (returned new)
  spin : {b : ℕ} → b ≡ being_forwarded → Move object combined m (spinning b) m (spinning m.bits)
  read_forwarding_pointer :
      {b : ℕ} → b ≡ forwarded → Move object combined m (spinning b) m (returned m.pointer)
  not_forwarded :
      {b : ℕ}
      → b ≢ being_forwarded
      → b ≢ forwarded
      → Move object combined m (spinning b) m (returned object)

-- A system as its workers see it.
pub record Seen : Type 0 where
  pub metadata : Status
  pub pc : ℕ → Pc
