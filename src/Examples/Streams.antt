-- ===== src/Examples/Streams.antt =====
-- A reader that is interrupted and gives at most two bytes at a time, and a writer with a limit.
use p2p_file.Common.{
  ℕ, zero, suc, ◌+◌, ◌≤◌, ◌<◌, ◌≡◌, ◌≢◌, refl, List, [], ◌∷◌, ◌++◌, map, none, some, if◌then◌else◌,
  ltb, length, take, drop, take-append-drop, length-take, arith,
}
use p2p_file.Common.Bytes.{u32_mod, from_le_bytes}
use p2p_file.Transfer.Chunker
use p2p_file.Transfer.Chunker.{manifest_from_reader}
use p2p_file.Transfer.Chunker.Pieces.{pieces}
use p2p_file.Transfer.Chunker.Whole.{manifest_from_reader_lem}
use p2p_file.Transfer.Manifest.{FileManifest, chunk_count}
use p2p_file.Transfer.Manifest.Validity.{IsValid}
use p2p_file.Protocol.Frame.{
  ok, err, length_over_limit, length_cut, write_raw_frame_limited, read_raw_frame_limited,
  read_payload,
}
use p2p_file.Protocol.Frame.Reading.{read_raw_frame_sound}
use p2p_file.Protocol.Frame.Writing.{read-write_raw_frame}
use p2p_file.Common.Streams.{
  Reader, IsLawful, Writer, IsFaithful, Read, got, interrupted, broken, Exact, exactly, early_end,
  exact_broken, fill,
}

abbrev few : ℕ → ℕ
few zero = 0
few (suc zero) = 1
few (suc (suc n)) = 2

abbrev read_slowly : ℕ × List ℕ → ℕ → (ℕ × List ℕ) × Read
read_slowly (zero, bytes) n = ((zero, drop (few n) bytes), got (take (few n) bytes))
read_slowly (suc pauses, bytes) n = ((pauses, bytes), interrupted)

abbrev read_exactly : ℕ × List ℕ → ℕ → (ℕ × List ℕ) × Exact
read_exactly (pauses, bytes) n =
    if ltb (length bytes) n
    then ((pauses, bytes), early_end)
    else ((0, drop n bytes), exactly (take n bytes))

abbrev slow : Reader
slow = record { State = ℕ × List ℕ; read = read_slowly; read_exact = read_exactly }

slow_got :
    (s t : ℕ × List ℕ) (n : ℕ) (bs : List ℕ)
    → read_slowly s (suc n) ≡ (t, got bs)
    → (s.1 ≡ bs ++ t.1) × (length bs ≤ suc n) × (bs ≡ [] → t.1 ≡ []) × (t.0 ≤ s.0)
slow_got (zero, []) (p, ys) zero bs h = ground arith
slow_got (zero, x ∷ xs) (p, ys) zero bs h = ground arith
slow_got (zero, []) (p, ys) (suc n) bs h = ground arith
slow_got (zero, x ∷ []) (p, ys) (suc n) bs h = ground arith
slow_got (zero, x ∷ y ∷ xs) (p, ys) (suc n) bs h = ground arith
slow_got (suc k, xs) t n bs h = absurd (ground arith)

slow_interrupted :
    (s t : ℕ × List ℕ) (n : ℕ) → read_slowly s n ≡ (t, interrupted) → (s.1 ≡ t.1) × (t.0 < s.0)
slow_interrupted (zero, xs) t n h = absurd (ground arith)
slow_interrupted (suc k, xs) (p, ys) n h = ground arith

slow_healthy :
    (s t : ℕ × List ℕ) (n : ℕ) (r : Read)
    → Unit {0}
    → read_slowly s n ≡ (t, r)
    → Unit {0} × ((e : ℕ) → r ≢ broken e)
slow_healthy (zero, xs) (p, ys) n r k h = (tt, λ e q. ground arith)
slow_healthy (suc m, xs) (p, ys) n r k h = (tt, λ e q. ground arith)

exact_got_slow :
    (s t : ℕ × List ℕ) (n : ℕ) (bs : List ℕ)
    → read_exactly s n ≡ (t, exactly bs)
    → (s.1 ≡ bs ++ t.1) × (length bs ≡ n)
exact_got_slow (m, xs) (p, ys) n bs h = ground (arith, take-append-drop n xs, length-take n xs)

exact_early_slow : (s t : ℕ × List ℕ) (n : ℕ) → read_exactly s n ≡ (t, early_end) → length s.1 < n
exact_early_slow (m, xs) t n h = ground arith

exact_healthy_slow :
    (s t : ℕ × List ℕ) (n : ℕ) (r : Exact)
    → Unit {0}
    → read_exactly s n ≡ (t, r)
    → Unit {0} × ((e : ℕ) → r ≢ exact_broken e)
exact_healthy_slow (m, xs) t n r k h = (tt, λ e q. ground arith)

abbrev slow-IsLawful : IsLawful slow
slow-IsLawful = record {
  rest = λ s. s.1;
  interruptions = λ s. s.0;
  IsHealthy = λ s. Unit {0};
  read_got = slow_got;
  read_interrupted = slow_interrupted;
  read_healthy = slow_healthy;
  exact_got = exact_got_slow;
  exact_early = exact_early_slow;
  exact_healthy = exact_healthy_slow;
}

-- A writer on a disk of a hundred bytes.
abbrev small_disk : Writer
small_disk = record {
  State = List ℕ;
  write_all = λ w bs. if ltb 100 (length w + length bs) then none else some (w ++ bs);
  flush = some;
}

appends :
    (s t bs : List ℕ)
    → (if ltb 100 (length s + length bs) then none else some (s ++ bs)) ≡ some t
    → t ≡ s ++ bs
appends s t bs h = ground arith

keeps : (s t : List ℕ) → some s ≡ some t → t ≡ s
keeps s t h = ground arith

abbrev small_disk-IsFaithful : IsFaithful small_disk
small_disk-IsFaithful = record { written = λ w. w; write_appends = appends; flush_keeps = keeps }

-- The frame of 7, 8, 9 behind two bytes that were there.
abbrev after_frame : List ℕ
after_frame = 1 ∷ 2 ∷ 3 ∷ 0 ∷ 0 ∷ 0 ∷ 7 ∷ 8 ∷ 9 ∷ []

write_example : write_raw_frame_limited small_disk (1 ∷ 2 ∷ []) (7 ∷ 8 ∷ 9 ∷ []) 10 ≡ ok after_frame
unfolding write_raw_frame_limited
write_example = refl

-- Interrupted once, then the frame and one byte more.
abbrev at_frame : ℕ × List ℕ
at_frame = (1, 3 ∷ 0 ∷ 0 ∷ 0 ∷ 7 ∷ 8 ∷ 9 ∷ 5 ∷ [])

read_example : read_raw_frame_limited slow 5 at_frame 10 ≡ ok ((0, 5 ∷ []), some (7 ∷ 8 ∷ 9 ∷ []))
unfolding read_raw_frame_limited read_payload fill
read_example = refl

read_too_large : read_raw_frame_limited slow 5 at_frame 2 ≡ err (length_over_limit 3)
unfolding read_raw_frame_limited read_payload fill
read_too_large = refl

read_cut : read_raw_frame_limited slow 5 (0, 3 ∷ 0 ∷ []) 10 ≡ err (length_cut 2)
unfolding read_raw_frame_limited read_payload fill
read_cut = refl

read-write_raw_frame_example :
    (t : ℕ × List ℕ) × (read_raw_frame_limited slow 5 at_frame 10 ≡ ok (t, some (7 ∷ 8 ∷ 9 ∷ [])))
    × (t.1 ≡ 5 ∷ [])
    × Unit {0}
read-write_raw_frame_example =
    read-write_raw_frame small_disk small_disk-IsFaithful slow slow-IsLawful (1 ∷ 2 ∷ [])
      after_frame (7 ∷ 8 ∷ 9 ∷ []) (5 ∷ []) 10 5 at_frame (omega arith) write_example refl tt
      (omega arith)

read_raw_frame_sound_example :
    (head : List ℕ) × (length head ≡ 4)
    × (from_le_bytes head ≡ 3)
    × (at_frame.1 ≡ head ++ ((7 ∷ 8 ∷ 9 ∷ []) ++ (5 ∷ [])))
    × (3 ≤ 10)
read_raw_frame_sound_example =
    read_raw_frame_sound slow slow-IsLawful 5 at_frame (0, 5 ∷ []) 10 (7 ∷ 8 ∷ 9 ∷ []) read_example

one_chunk : chunk_count 3 16384 < u32_mod
unfolding chunk_count
one_chunk = omega arith

manifest_from_reader_lem_example :
    (m : FileManifest) × (manifest_from_reader slow
        (λ bs. 7 ∷ [])
        4
        16386
        (b'a' ∷ [])
        16384
        (2, 1 ∷ 2 ∷ 3 ∷ [])
      ≡ Chunker.ok m)
    × IsValid (λ bs. 7 ∷ []) m
    × (m.file_name ≡ b'a' ∷ [])
    × (m.chunk_size ≡ 16384)
    × (m.total_len ≡ 3)
    × (m.chunks ≡ map (λ bs. 7 ∷ []) (pieces 16384 (1 ∷ 2 ∷ 3 ∷ [])))
manifest_from_reader_lem_example =
    manifest_from_reader_lem (λ bs. 7 ∷ []) slow slow-IsLawful (b'a' ∷ []) 4 16386 16384
      (2, 1 ∷ 2 ∷ 3 ∷ []) tt (omega arith) (omega arith) (omega arith) (omega arith) (omega arith)
      one_chunk
