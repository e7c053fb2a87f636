-- ===== src/Transfer/Chunker/Whole.antt =====
-- The manifest that is built from a stream.
use p2p_file.Common.{ℕ, ◌+◌, ◌≤◌, ◌<◌, ◌≡◌, refl, ◌∙◌, ap, List, [], ◌∷◌, map, length, arith}
use p2p_file.Common.Bytes.{u32_mod, u64_mod}
use p2p_file.Common.Streams.{Reader, IsLawful}
use p2p_file.Transfer.Manifest.{
  FileManifest, chunk_count, validate_chunk_size, min_chunk_size, max_chunk_size, root_hash_of, new,
  validate,
}
use p2p_file.Transfer.Manifest
use p2p_file.Transfer.Manifest.Validity.{IsValid, validate_iff}
use p2p_file.Transfer.Chunker.{ok, hash_chunks, manifest_from_reader}
use p2p_file.Transfer.Chunker.Pieces.{pieces, cut_fuel, length-cut, hash_chunks_lem}

length-map : (f : List ℕ → List ℕ) (xs : List (List ℕ)) → length (map f xs) ≡ length xs
length-map f [] = refl
length-map f (x ∷ xs) = ground (arith, length-map f xs)

module _ (blake3 : List ℕ → List ℕ) where
  abbrev pub described : List ℕ → ℕ → List ℕ → FileManifest
  described file_name chunk_size data' = record {
    file_name = file_name;
    total_len = length data';
    chunk_size = chunk_size;
    chunks = map blake3 (pieces chunk_size data');
    root_hash =
        root_hash_of blake3 file_name (length data') chunk_size
          (map blake3 (pieces chunk_size data'));
  }

  described-IsValid :
      (file_name : List ℕ) (chunk_size : ℕ) (data' : List ℕ)
      → min_chunk_size ≤ chunk_size
      → chunk_size ≤ max_chunk_size
      → chunk_count (length data') chunk_size < u32_mod
      → IsValid blake3 (described file_name chunk_size data')
  described-IsValid f s d l h c =
      let e =
        length-map blake3 (pieces s d)
        ∙ length-cut (length d) s d (omega (arith, l)) (omega arith) in
      record {
        size_low = l;
        size_high = h;
        count_u32 = omega (arith, e, c);
        count = e;
        root = refl;
      }

  new_ok :
      (f : List ℕ) (n s : ℕ) (cs : List (List ℕ)) (m : FileManifest)
      → m ≡ record {
        file_name = f;
        total_len = n;
        chunk_size = s;
        chunks = cs;
        root_hash = root_hash_of blake3 f n s cs;
      }
      → min_chunk_size ≤ s
      → s ≤ max_chunk_size
      → validate blake3 m ≡ Manifest.ok tt
      → new blake3 f n s cs ≡ Manifest.ok m
  unfolding new validate_chunk_size
  new_ok f n s cs m e l h v = ground arith

  module _ (R : Reader) (L : IsLawful R) where
    open L use {rest, interruptions, IsHealthy}

    from_parts :
        (f : List ℕ) (rounds calls size : ℕ) (s : R.State) (n : ℕ) (cs : List (List ℕ))
        (m : FileManifest)
        → hash_chunks R blake3 rounds calls s size ≡ ok (n, cs)
        → new blake3 f n size cs ≡ Manifest.ok m
        → min_chunk_size ≤ size
        → size ≤ max_chunk_size
        → manifest_from_reader R blake3 rounds calls f size s ≡ ok m
    unfolding manifest_from_reader validate_chunk_size
    from_parts f rounds calls size s n cs m e q l h = ground arith

    -- From a healthy reader, with a chunk size in range, a length that is a u64, fewer than 2^32
    -- chunks and fuel for the bytes and the interruptions, manifest_from_reader returns a valid
    -- manifest of the name, the chunk size, the length and the hashes of the pieces of the
    -- stream.
    pub manifest_from_reader_lem :
        (file_name : List ℕ) (rounds calls chunk_size : ℕ) (s : R.State)
        → IsHealthy s
        → chunk_size + interruptions s ≤ calls
        → length (rest s) < rounds
        → length (rest s) < u64_mod
        → min_chunk_size ≤ chunk_size
        → chunk_size ≤ max_chunk_size
        → chunk_count (length (rest s)) chunk_size < u32_mod
        → (m : FileManifest) × (manifest_from_reader R blake3 rounds calls file_name chunk_size s
            ≡ ok m)
          × IsValid blake3 m
          × (m.file_name ≡ file_name)
          × (m.chunk_size ≡ chunk_size)
          × (m.total_len ≡ length (rest s))
          × (m.chunks ≡ map blake3 (pieces chunk_size (rest s)))
    manifest_from_reader_lem f rounds calls size s k c r u l h n =
        let m = described f size (rest s) in
        let v = described-IsValid f size (rest s) l h n in
        let made =
          new_ok f (length (rest s)) size (map blake3 (pieces size (rest s))) m refl l h
            ((validate_iff blake3 m).1 v) in
        let same =
          cut_fuel rounds (length (rest s)) size (rest s) (omega (arith, l)) (omega (arith, r))
            (omega arith) in
        let read =
          hash_chunks_lem R L blake3 rounds calls size s (omega (arith, l)) k c r u
          ∙ ap (λ z. ok (length (rest s), map blake3 z)) same in
        (
          m,
          from_parts f rounds calls size s (length (rest s)) (map blake3 (pieces size (rest s))) m
              read made l h,
          v,
          refl,
          refl,
          refl,
          refl,
        )
