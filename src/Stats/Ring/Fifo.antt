-- ===== src/Stats/Ring/Fifo.antt =====
-- src/core/stats.cpp: the ring beside the bounded queue of its samples.
use native.Mathlib.Decide.{dec_lt}
use native.Mathlib.Nat.{
  one-le-pow, pow-le-pow_right, mod-add-mod, mod-eq_of_lt, mod-eq-sub-mod, mod-lt,
}
use titan_bench.Base.{
  ℕ, zero, suc, ◌+◌, ◌-◌, ◌^◌, ◌%◌, ◌≤◌, ◌<◌, ◌≡◌, ◌≢◌, refl, ap, ap₂, ◌∙◌, List, [], ◌∷◌, ◌++◌,
  arith, length, get_or, set, length-set, length-replicate, get_or-set_self, get_or-set_ne, bit_and,
  bit_and_mask, u64,
}
use titan_bench.Stats.Sample.{RequestSample, default_sample}
use titan_bench.Stats.Queue.{Queue, offer}
use titan_bench.Stats.Ring.{WriterState, new_writer, record_in}

-- `n` samples from index `r` on, in a ring of `m` slots.
abbrev pub window : List RequestSample → ℕ → ℕ → ℕ → List RequestSample
window ring m r zero = []
window ring m r (suc n) = get_or ring (r % m) default_sample ∷ window ring m (r + 1) n

-- What has been recorded and not drained.
abbrev pub pending : WriterState → List RequestSample
pending s = window s.ring (length s.ring) s.read_index (s.write_index - s.read_index)

pub record IsValid (s : WriterState) : Type 0 where
  pub bits : ℕ
  pub narrow : bits ≤ 63
  pub size : length s.ring ≡ 2 ^ bits
  pub mask : s.ring_mask ≡ 2 ^ bits - 1
  pub ordered : s.read_index ≤ s.write_index
  pub bounded : s.write_index - s.read_index ≤ length s.ring
  pub no_wrap : s.write_index < u64

module _ {s : WriterState} (v : IsValid s) where
  pub size_bounds : (0 < length s.ring) × (length s.ring ≤ 2 ^ 63)
  size_bounds =
      let fits : 2 ^ v.bits ≤ 2 ^ 63 = pow-le-pow_right (omega arith) v.narrow in
      omega (arith, v.size, one-le-pow v.bits 2)

  pub slot : (i : ℕ) → bit_and i s.ring_mask ≡ i % length s.ring
  slot i = rw (v.mask, v.size) (bit_and_mask v.bits i)

pub new_writer-IsValid : (bits : ℕ) → bits ≤ 63 → IsValid (new_writer (2 ^ bits))
unfolding new_writer
new_writer-IsValid bits h =
    let fits : 2 ^ bits ≤ 2 ^ 63 = pow-le-pow_right (omega arith) h in
    record {
      bits = bits;
      narrow = h;
      size = length-replicate (2 ^ bits) default_sample;
      mask = omega (arith, one-le-pow bits 2);
      ordered = omega arith;
      bounded = omega arith;
      no_wrap = omega arith;
    }

pub length-window : (ring : List RequestSample) (m r n : ℕ) → length (window ring m r n) ≡ n
length-window ring m r zero = refl
length-window ring m r (suc n) = ap suc (length-window ring m (r + 1) n)

pub length-pending : (s : WriterState) → length (pending s) ≡ s.write_index - s.read_index
length-pending s = length-window s.ring (length s.ring) s.read_index (s.write_index - s.read_index)

-- Fewer than `m` steps round the ring lead to another slot.
step_ne : (m h k : ℕ) → h < m → suc k < m → (h + suc k) % m ≢ h
step_ne m h k hh hk = elim (dec_lt (h + suc k) m) [
  | yes p ↦ omega (arith, mod-eq_of_lt p)
  | no p ↦ omega (
    arith,
    mod-eq-sub-mod {n = h + suc k} {m = m} (omega arith),
    mod-eq_of_lt {n = h + suc k - m} {m = m} (omega arith),
  )
]

slot_ne : (m r k : ℕ) → suc k < m → (r + suc k) % m ≢ r % m
slot_ne m r k h e = step_ne m (r % m) k (mod-lt r (omega arith)) h (mod-add-mod r m (suc k) ∙ e)

-- A write just past a window extends it by that sample.
window-set :
    (ring : List RequestSample) (m : ℕ) (x : RequestSample) (n r i : ℕ)
    → length ring ≡ m
    → n < m
    → i ≡ (r + n) % m
    → window (set ring i x) m r (suc n) ≡ window ring m r n ++ (x ∷ [])
window-set ring m x zero r i size h e =
    let here : i ≡ r % m = e ∙ ap (λ k. k % m) (omega arith) in
    rw (
      here,
      get_or-set_self ring (r % m) x default_sample (omega (arith, mod-lt r {m = m} (omega arith))),
    )
window-set ring m x (suc n) r i size h e =
    ap₂ ◌∷◌ (get_or-set_ne ring i (r % m) x default_sample (rw e (slot_ne m r n h)))
      (window-set ring m x n (r + 1) i size (omega arith) (e ∙ ap (λ k. k % m) (omega arith)))

-- A write just past a window leaves the window as it was.
pub window-set_past :
    (ring : List RequestSample) (m : ℕ) (x : RequestSample) (n r i : ℕ)
    → n < m
    → i ≡ (r + n) % m
    → window (set ring i x) m r n ≡ window ring m r n
window-set_past ring m x zero r i h e = refl
window-set_past ring m x (suc n) r i h e =
    ap₂ ◌∷◌ (get_or-set_ne ring i (r % m) x default_sample (rw e (slot_ne m r n h)))
      (window-set_past ring m x n (r + 1) i (omega arith) (e ∙ ap (λ k. k % m) (omega arith)))

-- A window that grows by one slot takes in what that slot holds.
pub window-suc :
    (ring : List RequestSample) (m n r w : ℕ)
    → r + n ≡ w
    → window ring m r (suc n) ≡ window ring m r n ++ (get_or ring (w % m) default_sample ∷ [])
window-suc ring m zero r w e = let e' : r ≡ w = omega arith in rw e'
window-suc ring m (suc n) r w e =
    ap (◌∷◌ (get_or ring (r % m) default_sample)) (window-suc ring m n (r + 1) w (omega arith))

abbrev pub view : WriterState → Queue
view s = record { items = pending s; lost = s.dropped }

-- `Record` keeps the ring well formed as long as the write index does not wrap.
pub record_in-IsValid :
    {s : WriterState} (x : RequestSample)
    → IsValid s
    → s.write_index + 1 < u64
    → IsValid (record_in s x)
unfolding record_in
record_in-IsValid {s} x v h =
    ground (arith, size_bounds v, length-set s.ring (bit_and s.write_index s.ring_mask) x)

-- `Record` on a ring is `offer` on the queue of the samples that it holds: a full ring counts the
-- sample as dropped and keeps the rest, any other takes it in as the newest.
pub record_in-refines :
    {s : WriterState} (x : RequestSample)
    → IsValid s
    → s.write_index + 1 < u64
    → view (record_in s x) ≡ offer (length s.ring) (view s) x
unfolding record_in offer
record_in-refines {s} x v h =
    let at = bit_and s.write_index s.ring_mask in
    ground (arith, size_bounds v, length-pending s, length-set s.ring at x, room)
  where
    room :
        s.write_index - s.read_index < length s.ring
        → window
            (set s.ring (bit_and s.write_index s.ring_mask) x)
            (length s.ring)
            s.read_index
            (s.write_index + 1 - s.read_index)
          ≡ pending s ++ (x ∷ [])
    room fits =
        let e : s.write_index + 1 - s.read_index ≡ suc (s.write_index - s.read_index) =
          omega arith in
        rw e (
          window-set s.ring (length s.ring) x (s.write_index - s.read_index) s.read_index _ refl
            fits (slot v s.write_index ∙ ap (λ k. k % length s.ring) (omega arith)))
