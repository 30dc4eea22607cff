-- ===== src/Headers/Store/Room.antt =====
-- http/http_headers.cpp: the two allocations.
use gweb_plusplus.Base.{List, ℕ, ◌+◌, ◌≤◌, Bool, true, false, length, All, arith, ◌≡◌, ap, ltb, ◌∙◌}
use gweb_plusplus.Headers.Store.{Store}
use gweb_plusplus.Headers.Store.Change.{rounded, allocate, allocate_data, allocate_both}
use gweb_plusplus.Headers.Store.View.{Field, view, IsInside}

-- The entries and the data lie within their arrays, and offsets into the data fit 16 bits.
pub record IsSound (s : Store) : Type 0 where
  pub inside : All (IsInside s.data') s.headers
  pub slots : length s.headers ≤ s.size
  pub fits : length s.data' ≤ s.data_size
  pub small : s.data_size ≤ 64512

-- A call leaves sound headers whose fields are `fs` if it succeeds, and the fields as they were if not.
abbrev pub Gives : Store → List Field → Store × Bool → Type 0
Gives s fs (t, true) = IsSound t × (view t ≡ fs)
Gives s fs (t, false) = IsSound t × (view t ≡ view s)

-- The list and the data are as they were; on a success there is room for `n` more entries and `len` more
-- bytes.
abbrev pub HasRoom : Store → ℕ → ℕ → Store × Bool → Type 0
HasRoom s n len (t, true) =
    IsSound t
    × (t.headers ≡ s.headers)
    × (t.data' ≡ s.data')
    × (length s.headers + n ≤ t.size)
    × (length s.data' + len ≤ t.data_size)
    × (s.size ≤ t.size)
HasRoom s n len (t, false) = IsSound t × (t.headers ≡ s.headers) × (t.data' ≡ s.data')

larger-IsSound : (s : Store) (n : ℕ) → IsSound s → s.size ≤ n → IsSound (record s { size = n })
larger-IsSound s n v le = record {
  inside = v.inside;
  slots = omega (arith, v.slots);
  fits = v.fits;
  small = v.small;
}

longer-IsSound :
    (s : Store) (n : ℕ)
    → IsSound s
    → s.data_size ≤ n
    → n ≤ 64512
    → IsSound (record s { data_size = n })
longer-IsSound s n v le small = record {
  inside = v.inside;
  slots = v.slots;
  fits = omega (arith, v.fits);
  small = small;
}

pub allocate-HasRoom :
    (realloc : ℕ → Bool) (s : Store) → IsSound s → HasRoom s 1 0 (allocate realloc s)
unfolding allocate
allocate-HasRoom realloc s v = ground (arith, larger-IsSound s (s.size + 10) v)

rounded_bounds : (n : ℕ) → ltb 65535 (rounded n) ≡ false → (n ≤ rounded n) × (rounded n ≤ 64512)
rounded_bounds n e = (ground arith, ground arith)

pub allocate_data-HasRoom :
    (realloc : ℕ → Bool) (s : Store) (len : ℕ)
    → IsSound s
    → HasRoom s 0 len (allocate_data realloc s len)
unfolding allocate_data
allocate_data-HasRoom realloc s len v =
    let size = length s.data' + len in
    ground (arith, rounded_bounds size, longer-IsSound s (rounded size) v)

pub allocate_both-HasRoom :
    (realloc : ℕ → Bool) (s : Store) (len : ℕ) (r : Store × Bool)
    → HasRoom s 1 0 r
    → HasRoom s 1 len (allocate_both realloc r len)
unfolding allocate_both
allocate_both-HasRoom realloc s len (t, true) h =
    more (allocate_data realloc t len) (allocate_data-HasRoom realloc t len h.0)
  where
    more : (r : Store × Bool) → HasRoom t 0 len r → HasRoom s 1 len r
    more (u, true) k =
        (k.0, k.1 ∙ h.1, k.2 ∙ h.2, omega arith, omega (arith, ap length h.2), omega arith)
    more (u, false) k = (k.0, k.1 ∙ h.1, k.2 ∙ h.2)
allocate_both-HasRoom realloc s len (t, false) h = h
