-- ===== src/Ring.antt =====
-- internal/repository/history_ring.go: the ring buffer of signal samples. The type of a sample is a
-- parameter: the ring only copies samples, and `stamp` is the write of the current time into a
-- sample whose time is zero. A `*Ring` is a record, a method that writes returns the new record, and
-- each method runs under the ring's mutex, so it is one step.
pub mod Order
mod Tests
use proton5g.Base.{
  ℕ, zero, suc, ◌+◌, ◌%◌, Bool, List, [], ◌∷◌, ltb, ◌==◌, if◌then◌else◌, set, get_or, replicate,
}

pub record Ring {ℓ} (A : Type ℓ) : Type ℓ where
  pub buf : List A
  pub cap : ℕ
  pub head : ℕ  -- next write index
  pub size : ℕ

module _ {ℓ} {A : Type ℓ} where
  -- `NewRing`; `blank` is the zero sample that `make` fills the buffer with
  unfoldable pub new_ring : A → ℕ → Ring A
  new_ring blank capacity =
      let n = if ltb capacity 1 then 1 else capacity in
      record { buf = replicate n blank; cap = n; head = 0; size = 0 }

  -- `Add`; `is_zero` and `stamp` are `Timestamp.IsZero()` and the write of `time.Now()`
  unfoldable pub add : (A → Bool) → (A → A) → A → Ring A → Ring A
  add is_zero stamp s r = record {
    buf = set r.buf r.head (if is_zero s then stamp s else s);
    cap = r.cap;
    head = (r.head + 1) % r.cap;
    size = if ltb r.size r.cap then r.size + 1 else r.size;
  }

  -- the loop of `Snapshot`: `n` rounds left, at index `i`
  unfoldable pub read_from : A → List A → ℕ → ℕ → ℕ → ℕ → List A
  read_from blank buf cap start zero i = []
  read_from blank buf cap start (suc n) i =
      get_or buf ((start + i) % cap) blank ∷ read_from blank buf cap start n (i + 1)

  -- `Snapshot`
  unfoldable pub snapshot : A → Ring A → List A
  unfolding read_from
  snapshot blank r =
      let start = if r.size == r.cap then r.head else 0 in
      if r.size == 0 then [] else read_from blank r.buf r.cap start r.size 0

  -- `Cap` and `Len`
  unfoldable pub cap_of : Ring A → ℕ
  cap_of r = r.cap

  unfoldable pub len_of : Ring A → ℕ
  len_of r = r.size
