-- ===== src/Forwarding/Packed.antt =====
-- The forwarding bits and the pointer in their words: reading what was written.
use mmtk_core.Base.{ℕ, zero, suc, ◌+◌, ◌*◌, ◌<◌, ◌≡◌, refl, ap, true, arith}
use mmtk_core.Metadata.Bytes.{shl8, get_bits, get_bits-put_bits, put_bits-below}
use mmtk_core.Metadata.Spec.{meta_byte_mask}
use Prim.Native.Nat.{bit_or}
use mmtk_core.Forwarding
use mmtk_core.Forwarding.View
use mmtk_core.Forwarding.{
  Word, Layout, in_low, in_high, apart, Metadata, combined, get_forwarding_status,
  set_forwarding_status, with_forwarded, of_reference, write_pointer, read_pointer, IsPacked,
  IsPlaced, Pc, forwarded,
}
use mmtk_core.Forwarding.View.{Status}

abbrev pub view : Layout → Metadata → Status
view l m = record { bits = get_forwarding_status l m; pointer = read_pointer m; copies = m.copies }

-- A store to the bits is read again, and changes nothing else of what is read.
pub view-set :
    (l : Layout) (m : Metadata) (status : ℕ)
    → IsPlaced l
    → IsPacked l m
    → status < 4
    → (view l (set_forwarding_status l m status) ≡ record (view l m) { bits = status })
      × IsPacked l (set_forwarding_status l m status)
unfolding get_forwarding_status set_forwarding_status read_pointer
view-set in_low m status at h lt = (
  ap (λ b. record (view in_low m) { bits = b })
      (get_bits-put_bits 1 0 (omega arith) (omega arith) m.word.low status h.low lt),
  record {
    low = put_bits-below 1 0 (omega arith) (omega arith) m.word.low status h.low lt;
    high = h.high;
    byte = h.byte;
  },
)
view-set (in_high place) m status at h lt = (
  ap (λ b. record (view (in_high place) m) { bits = b })
      (get_bits-put_bits 1 place (omega arith) at m.word.high status h.high lt),
  record {
    low = h.low;
    high = put_bits-below 1 place (omega arith) at m.word.high status h.high lt;
    byte = h.byte;
  },
)
view-set (apart place) m status at h lt = (
  ap (λ b. record (view (apart place) m) { bits = b })
      (get_bits-put_bits 1 place (omega arith) at m.byte status h.byte lt),
  record {
    low = h.low;
    high = h.high;
    byte = put_bits-below 1 place (omega arith) at m.byte status h.byte lt;
  },
)

-- The shifted status beside the pointer.
shifted :
    (place : ℕ)
    → place < 4
    → (get_bits 1 (place * 2) (bit_or 0 (shl8 forwarded (place * 2))) ≡ 3)
      × (bit_or 0 (shl8 forwarded (place * 2)) < 256)
unfolding meta_byte_mask
shifted zero h = (refl, omega arith)
shifted (suc zero) h = (refl, omega arith)
shifted (suc (suc zero)) h = (refl, omega arith)
shifted (suc (suc (suc zero))) h = (refl, omega arith)
shifted (suc (suc (suc (suc place)))) h = absurd (omega arith)

-- One store of the pointer with the shifted status sets both.
pub view-both :
    (l : Layout) (m : Metadata) (new : ℕ)
    → IsPlaced l
    → IsPacked l m
    → combined l ≡ true
    → (view l (record m { word = with_forwarded l new })
        ≡ record (view l m) { bits = forwarded; pointer = new })
      × IsPacked l (record m { word = with_forwarded l new })
unfolding get_forwarding_status with_forwarded of_reference read_pointer combined
view-both in_low m new at h c = (
  ap (λ b. record (view in_low m) { bits = b; pointer = new }) (shifted 0 (omega arith)).0,
  record { low = (shifted 0 (omega arith)).1; high = omega arith; byte = h.byte },
)
view-both (in_high place) m new at h c = (
  ap (λ b. record (view (in_high place) m) { bits = b; pointer = new }) (shifted place at).0,
  record { low = omega arith; high = (shifted place at).1; byte = h.byte },
)
view-both (apart place) m new at h c = cc

view-write :
    (l : Layout) (m : Metadata) (new : ℕ)
    → IsPacked l m
    → (view l (write_pointer m new) ≡ record (view l m) { pointer = new })
      × IsPacked l (write_pointer m new)
unfolding get_forwarding_status write_pointer read_pointer
view-write in_low m new h = (refl, record { low = h.low; high = h.high; byte = h.byte })
view-write (in_high place) m new h = (refl, record { low = h.low; high = h.high; byte = h.byte })
view-write (apart place) m new h = (refl, record { low = h.low; high = h.high; byte = h.byte })

view-copy :
    (l : Layout) (m : Metadata) (n : ℕ)
    → IsPacked l m
    → (view l (record m { copies = n }) ≡ record (view l m) { copies = n })
      × IsPacked l (record m { copies = n })
unfolding get_forwarding_status read_pointer
view-copy in_low m n h = (refl, record { low = h.low; high = h.high; byte = h.byte })
view-copy (in_high place) m n h = (refl, record { low = h.low; high = h.high; byte = h.byte })
view-copy (apart place) m n h = (refl, record { low = h.low; high = h.high; byte = h.byte })

-- A step on the words is a step on what is read from them.
pub Move-view :
    {object : ℕ} {l : Layout} {m m' : Metadata} {p p' : Pc}
    → IsPlaced l
    → IsPacked l m
    → Forwarding.Move object l m p m' p'
    → View.Move object (combined l) (view l m) p (view l m') p' × IsPacked l m'
Move-view at h Forwarding.load = (View.load, h)
Move-view at h (Forwarding.not_first e) = (View.not_first e, h)
Move-view {l} {m} at h (Forwarding.exchange e f) =
    let (v, packed) = view-set l m 2 at h (omega arith) in (rw v (View.exchange e f), packed)
Move-view at h (Forwarding.exchange_fails e) = (View.exchange_fails e, h)
Move-view {l} {m} at h (Forwarding.copy new) =
    let (v, packed) = view-copy l m (m.copies + 1) h in (rw v (View.copy new), packed)
Move-view {l} {m} at h (Forwarding.store_both {new} e) =
    let (v, packed) = view-both l m new at h e in (rw v (View.store_both e), packed)
Move-view {l} {m} at h (Forwarding.write_forwarding_pointer {new} e) =
    let (v, packed) = view-write l m new h in (rw v (View.write_forwarding_pointer e), packed)
Move-view {l} {m} at h Forwarding.store_bits =
    let (v, packed) = view-set l m 3 at h (omega arith) in (rw v View.store_bits, packed)
Move-view at h (Forwarding.spin e) = (View.spin e, h)
Move-view at h (Forwarding.read_forwarding_pointer e) = (View.read_forwarding_pointer e, h)
Move-view at h (Forwarding.not_forwarded e f) = (View.not_forwarded e f, h)
