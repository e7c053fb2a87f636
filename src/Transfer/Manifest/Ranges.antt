-- ===== src/Transfer/Manifest/Ranges.antt =====
-- Where the chunks of a file lie.
use native.Mathlib.Nat.{le-div_iff_mul-le}
use p2p_file.Common.{
  ℕ, suc, ◌+◌, ◌-◌, ◌*◌, ◌≤◌, ◌<◌, ◌≡◌, ◌∙◌, ap, ◌⊎◌, ◌↔◌, inl, inr, min, ◌||◌, none, some, ltb,
  ◌==◌, arith, length, Bool-cases,
}
use p2p_file.Common.Bytes.{u32_mod, u64_mod}
use p2p_file.Transfer.Manifest.{
  FileManifest, chunk_count, chunk_len_at, chunk_offset, chunk_len, chunk_range,
}

-- A chunk number is in range exactly when its offset lies inside the file.
pub lt-chunk_count :
    (index total_len chunk_size : ℕ)
    → 0 < chunk_size
    → (index < chunk_count total_len chunk_size) ↔ (index * chunk_size < total_len)
unfolding chunk_count
lt-chunk_count i t s h = elim (Bool-cases (t == 0 || s == 0)) [
  | inl e ↦ rw e (λ l. elim l [ ], λ l. ground arith)
  | inr e ↦ rw e (
    λ l. omega (arith, (le-div_iff_mul-le {x = suc i} {y = t + s - 1} h).0 l),
    λ l. (le-div_iff_mul-le {x = suc i} {y = t + s - 1} h).1 (omega arith),
  )
]

pub chunk_len_at_in_range :
    (index total_len chunk_size : ℕ)
    → 0 < chunk_size
    → chunk_size < u32_mod
    → total_len < u64_mod
    → index * chunk_size < total_len
    → chunk_len_at index total_len chunk_size
      ≡ some (min (total_len - index * chunk_size) chunk_size)
unfolding chunk_len_at
chunk_len_at_in_range i t s h k u l = ground (arith, (lt-chunk_count i t s h).1 l)

-- What `validate` establishes of the sizes of a manifest whose length is a u64.
pub record IsSized (m : FileManifest) : Type 0 where
  pub size_pos : 0 < m.chunk_size
  pub size_u32 : m.chunk_size < u32_mod
  pub total_u64 : m.total_len < u64_mod
  pub count_u32 : length m.chunks < u32_mod
  pub count : length m.chunks ≡ chunk_count m.total_len m.chunk_size

pub chunk_range_in :
    (m : FileManifest) (index : ℕ)
    → IsSized m
    → index < length m.chunks
    → (index * m.chunk_size < m.total_len)
      × (chunk_len m index ≡ some (min (m.total_len - index * m.chunk_size) m.chunk_size))
      × (chunk_offset m index ≡ some (index * m.chunk_size))
      × (chunk_range m index
          ≡ some (index * m.chunk_size, min (m.total_len - index * m.chunk_size) m.chunk_size))
unfolding chunk_range chunk_offset chunk_len
chunk_range_in m index v h = (inside, len, offset, ground (arith, len, offset))
  where
    inside : index * m.chunk_size < m.total_len
    inside = (lt-chunk_count index m.total_len m.chunk_size v.size_pos).0 (omega (arith, v.count))

    len :
        chunk_len_at index m.total_len m.chunk_size
        ≡ some (min (m.total_len - index * m.chunk_size) m.chunk_size)
    len =
        chunk_len_at_in_range index m.total_len m.chunk_size v.size_pos v.size_u32 v.total_u64
          inside

    offset : chunk_offset m index ≡ some (index * m.chunk_size)
    offset = ground (arith, inside, v.count_u32, v.total_u64)

-- For a manifest of consistent sizes the chunks tile the file: no range past the last chunk,
-- otherwise a range that is not empty, no longer than a chunk, and is followed at once by the
-- next chunk or ends where the file does.
pub chunk_range_tiles :
    (m : FileManifest) (index : ℕ)
    → IsSized m
    → ((length m.chunks ≤ index) × (chunk_range m index ≡ none))
      ⊎ ((offset : ℕ) × (len : ℕ) × (chunk_range m index ≡ some (offset, len))
          × (0 < len)
          × (len ≤ m.chunk_size)
          × ((chunk_offset m (suc index) ≡ some (offset + len))
              ⊎ ((suc index ≡ length m.chunks) × (offset + len ≡ m.total_len))))
unfolding chunk_range chunk_offset
chunk_range_tiles m index v = elim (Bool-cases (ltb index (length m.chunks))) [
  | inl e ↦ inr (at_index (ground arith))
  | inr e ↦ inl (ground arith, ground (arith, v.count_u32))
]
  where
    len : ℕ
    len = min (m.total_len - index * m.chunk_size) m.chunk_size

    next :
        index < length m.chunks
        → (chunk_offset m (suc index) ≡ some (index * m.chunk_size + len))
          ⊎ ((suc index ≡ length m.chunks) × (index * m.chunk_size + len ≡ m.total_len))
    next h = elim (Bool-cases (ltb (suc index) (length m.chunks))) [
      | inl e ↦ inl (
          (chunk_range_in m (suc index) v (ground arith)).2
          ∙ ap some (omega (arith, (chunk_range_in m (suc index) v (ground arith)).0)))
      | inr e ↦
          inr (ground arith, omega (arith, (chunk_range_in m index v h).0, past_end (ground arith)))
    ]
      where
        past_end : length m.chunks ≤ suc index → m.total_len ≤ suc index * m.chunk_size
        past_end l = elim (Bool-cases (ltb (suc index * m.chunk_size) m.total_len)) [
          | inl q ↦ absurd (
              omega (
                arith,
                v.count,
                (lt-chunk_count (suc index) m.total_len m.chunk_size v.size_pos).1 (ground arith),
              ))
          | inr q ↦ ground arith
        ]

    at_index :
        index < length m.chunks
        → (offset : ℕ) × (len : ℕ) × (chunk_range m index ≡ some (offset, len))
          × (0 < len)
          × (len ≤ m.chunk_size)
          × ((chunk_offset m (suc index) ≡ some (offset + len))
              ⊎ ((suc index ≡ length m.chunks) × (offset + len ≡ m.total_len)))
    at_index h = (
      index * m.chunk_size,
      len,
      (chunk_range_in m index v h).3,
      omega (arith, (chunk_range_in m index v h).0, v.size_pos),
      omega arith,
      next h,
    )
