-- ===== src/Examples/Disks.antt =====
-- A transfer of three bytes to a disk in memory.
use p2p_file.Common.{
  ℕ, ◌≤◌, ◌≡◌, ◌≢◌, refl, sym, ◌∙◌, subst, ◌⊎◌, Bool, true, false, List, [], ◌∷◌, ◌||◌, ◌==◌, none,
  some, length, take, arith,
}
use p2p_file.Storage.Disk.{not_found}
use p2p_file.Transfer.Bitmap.{
  ChunkBitmap, new, is_set, set_chunk, check_index, present, missing, indices, to_bytes, from_bytes,
  clear_padding_bits, padding_bits_are_clear, is_complete, count_set, sum_ones,
}
use p2p_file.Transfer.Bitmap
use p2p_file.Transfer.Manifest.{
  FileManifest, validate, validate_chunk_size, verify_root_hash, root_hash_of, chunk_count,
  manifest_chunk_count, verify_chunk, verify, chunk_len, chunk_len_at, chunk_offset, chunk_range,
}
use p2p_file.Storage.Download.{
  PartialDownload, default_policy, ok, err, rejected_chunk, create, survey, load_bitmap, recheck,
  recheck_each, verified_bytes, prepare, save_bitmap, write_chunk, store_chunk, checkpoint_if_due,
  checkpoint, prepare_desktop_publication, finalize, clean_up, publish_from,
}
use p2p_file.Transfer.Receiver.{
  Message, complete, request_chunk, resume, chunk, keep_alive, done, failed, unrequested_chunk,
  receive_file_on_stream, receive_chunks, initial, request_missing, refill, on_event, take_chunk,
  conclude, confirm,
}
use p2p_file.Transfer.Receiver.Bounds.{receive_chunks_bound}
use p2p_file.Transfer.Receiver.Outcome.{Reported, receive_file_on_stream_lem}
use p2p_file.Storage.Download.Soundness.{IsSound, part}
use p2p_file.Storage.Download.Writing.{write_chunk_lem}
use p2p_file.Storage.Download.Creation.{create_lem}
use p2p_file.Storage.Download.Runs.{
  Step, Run, stop, go, wrote, restarted, stays_open, named_chunks_stable,
  prepare_desktop_publication_safe,
}
use p2p_file.Examples.Memory.{Memory, memory, memory-IsReliable, with_file, never}

-- The first two bytes for a hash.
abbrev two_bytes : List ℕ → List ℕ
two_bytes = take 2

abbrev three_bytes : FileManifest
three_bytes = record {
  file_name = b'a' ∷ [];
  total_len = 3;
  chunk_size = 16384;
  chunks = (1 ∷ 2 ∷ []) ∷ [];
  root_hash = b'p' ∷ b'2' ∷ [];
}

-- An empty disk, the disk of a new download, and that with the chunk on it.
abbrev empty_disk : Memory
empty_disk = record {
  is_there = false;
  content = [];
  stable = [];
  bitmap = none;
  tmp = none;
  files = λ n. none;
  lasting = λ n. none;
}

abbrev new_disk : Memory
new_disk = record {
  content = 0 ∷ 0 ∷ 0 ∷ [];
  stable = 0 ∷ 0 ∷ 0 ∷ [];
  bitmap = some (0 ∷ []);
  tmp = some (0 ∷ []);
  is_there = true;
  files = λ n. none;
  lasting = λ n. none;
}

abbrev no_chunk : ChunkBitmap
no_chunk = record { chunk_count = 1; bits = 0 ∷ [] }

abbrev one_chunk : ChunkBitmap
one_chunk = record { chunk_count = 1; bits = 1 ∷ [] }

abbrev new_download : PartialDownload
new_download = record {
  manifest = three_bytes;
  is_open = true;
  written_bitmap = no_chunk;
  durable_bitmap = no_chunk;
  dirty_bytes = 0;
  last_checkpoint = 5;
  checkpoint_policy = default_policy;
}

created :
    create memory two_bytes 5 default_policy (λ n. true) empty_disk three_bytes
    ≡ (new_disk, ok new_download)
unfolding create survey load_bitmap verified_bytes prepare save_bitmap validate validate_chunk_size
    verify_root_hash root_hash_of chunk_count manifest_chunk_count new to_bytes present is_set
    indices
created = refl

created-IsSound : IsSound memory memory-IsReliable two_bytes new_disk new_download
created-IsSound =
    (create_lem memory memory-IsReliable two_bytes 5 default_policy (λ n. true) empty_disk new_disk
      three_bytes new_download (omega arith) (λ i n. ground arith) created).0

missing_chunk : is_set no_chunk 0 ≡ false
unfolding is_set
missing_chunk = refl

-- The disk when the chunk has been written, and the download; a second later it is saved.
abbrev full_disk : Memory
full_disk = record {
  content = 1 ∷ 2 ∷ 3 ∷ [];
  stable = 1 ∷ 2 ∷ 3 ∷ [];
  bitmap = some (1 ∷ []);
  tmp = some (1 ∷ []);
  is_there = true;
  files = λ n. none;
  lasting = λ n. none;
}

abbrev full_download : PartialDownload
full_download = record new_download {
  written_bitmap = one_chunk;
  durable_bitmap = one_chunk;
  last_checkpoint = 1005;
}

chunk_written :
    write_chunk memory two_bytes 1005 new_disk new_download 0 (1 ∷ 2 ∷ 3 ∷ [])
    ≡ (full_disk, full_download, ok tt)
unfolding write_chunk store_chunk checkpoint_if_due checkpoint save_bitmap verify_chunk verify
    chunk_len chunk_len_at chunk_offset manifest_chunk_count chunk_count set_chunk check_index
    to_bytes
chunk_written = refl

chunk_rejected :
    write_chunk memory two_bytes 1005 new_disk new_download 0 (1 ∷ 7 ∷ 3 ∷ [])
    ≡ (new_disk, new_download, err rejected_chunk)
unfolding write_chunk verify_chunk verify chunk_len chunk_len_at chunk_count
chunk_rejected = refl

write_chunk_lem_example :
    IsSound memory memory-IsReliable two_bytes
      (write_chunk memory two_bytes 1005 new_disk new_download 0 (1 ∷ 2 ∷ 3 ∷ [])).0
      (write_chunk memory two_bytes 1005 new_disk new_download 0 (1 ∷ 2 ∷ 3 ∷ [])).1
    × ((write_chunk memory two_bytes 1005 new_disk new_download 0 (1 ∷ 2 ∷ 3 ∷ [])).1.manifest
        ≡ three_bytes)
    × ((((write_chunk memory two_bytes 1005 new_disk new_download 0
              (1 ∷ 2 ∷ 3 ∷ [])).1.written_bitmap
            ≡ no_chunk)
          × ((write_chunk memory two_bytes 1005 new_disk new_download 0 (1 ∷ 2 ∷ 3 ∷ [])).2
              ≢ ok tt))
        ⊎ ((j : ℕ)
            → is_set
                (write_chunk memory two_bytes 1005 new_disk new_download 0
                  (1 ∷ 2 ∷ 3 ∷ [])).1.written_bitmap
                j
              ≡ (0 == j || is_set no_chunk j)))
write_chunk_lem_example =
    write_chunk_lem memory memory-IsReliable two_bytes 1005 new_disk new_download 0 (1 ∷ 2 ∷ 3 ∷ [])
      created-IsSound missing_chunk

-- The chunk comes once more, which a bitmap file names now.
abbrev again_download : PartialDownload
again_download = record full_download { dirty_bytes = 3 }

chunk_again :
    write_chunk memory two_bytes 1006 full_disk full_download 0 (1 ∷ 2 ∷ 3 ∷ [])
    ≡ (full_disk, again_download, ok tt)
unfolding write_chunk store_chunk checkpoint_if_due verify_chunk verify chunk_len chunk_len_at
    chunk_offset manifest_chunk_count chunk_count set_chunk check_index
chunk_again = refl

first_write : Step memory memory-IsReliable two_bytes new_disk new_download full_disk full_download
first_write =
    subst (λ q. Step memory memory-IsReliable two_bytes new_disk new_download q.0 q.1) chunk_written
      (wrote 1005 0 (1 ∷ 2 ∷ 3 ∷ []) (λ e h. absurd (never (sym e ∙ missing_chunk))))

second_write :
    Step memory memory-IsReliable two_bytes full_disk full_download full_disk again_download
second_write =
    subst (λ q. Step memory memory-IsReliable two_bytes full_disk full_download q.0 q.1) chunk_again
      (wrote 1006 0 (1 ∷ 2 ∷ 3 ∷ []) (λ e h. refl))

-- After a crash the file is opened again.
abbrev reopened_download : PartialDownload
reopened_download = record full_download { last_checkpoint = 2000 }

reopened :
    create memory two_bytes 2000 default_policy (λ n. true) full_disk three_bytes
    ≡ (full_disk, ok reopened_download)
unfolding create survey load_bitmap recheck_each recheck verified_bytes prepare save_bitmap validate
    validate_chunk_size verify_root_hash root_hash_of chunk_count manifest_chunk_count new to_bytes
    present is_set indices from_bytes clear_padding_bits padding_bits_are_clear verify_chunk verify
    chunk_len chunk_len_at chunk_offset chunk_range
reopened = refl

whole_transfer :
    Run memory memory-IsReliable two_bytes new_disk new_download full_disk reopened_download
whole_transfer =
    go first_write
      (go second_write (go (restarted 2000 default_policy (λ n. true) refl refl reopened) stop))

decoded : from_bytes 1 (1 ∷ []) ≡ Bitmap.ok one_chunk
unfolding from_bytes clear_padding_bits padding_bits_are_clear
decoded = refl

chunk_set : is_set one_chunk 0 ≡ true
unfolding is_set
chunk_set = refl

named_chunks_stable_example :
    ((false ≡ true) × (memory.part_len full_disk ≡ not_found))
    ⊎ (verify_chunk two_bytes three_bytes 0 (part three_bytes 0 (1 ∷ 2 ∷ 3 ∷ [])) ≡ true)
named_chunks_stable_example =
    named_chunks_stable memory memory-IsReliable two_bytes 5 default_policy (λ n. true) empty_disk
      new_disk full_disk full_disk three_bytes new_download reopened_download reopened_download
      false 0 (omega arith) (λ i n. ground arith) created whole_transfer stays_open
      (1 ∷ [], one_chunk, refl, decoded, chunk_set)

full-IsSound : IsSound memory memory-IsReliable two_bytes full_disk full_download
full-IsSound =
    subst (λ q. IsSound memory memory-IsReliable two_bytes q.0 q.1) chunk_written
      (write_chunk_lem memory memory-IsReliable two_bytes 1005 new_disk new_download 0
        (1 ∷ 2 ∷ 3 ∷ []) created-IsSound missing_chunk).0

published :
    prepare_desktop_publication memory 1006 full_disk full_download
    ≡ (full_disk, record full_download { is_open = false; last_checkpoint = 1006 }, ok tt)
unfolding prepare_desktop_publication checkpoint save_bitmap is_complete count_set sum_ones to_bytes
published = refl

prepare_desktop_publication_safe_example :
    verify_chunk two_bytes three_bytes 0 (part three_bytes 0 (1 ∷ 2 ∷ 3 ∷ [])) ≡ true
prepare_desktop_publication_safe_example =
    prepare_desktop_publication_safe memory memory-IsReliable two_bytes 1006 full_disk full_disk
      full_download (record full_download { is_open = false; last_checkpoint = 1006 }) 0
      full-IsSound published (omega arith)

create_lem_example :
    IsSound memory memory-IsReliable two_bytes new_disk new_download
    × (three_bytes ≡ three_bytes)
    × (true ≡ true)
    × (no_chunk ≡ no_chunk)
create_lem_example =
    create_lem memory memory-IsReliable two_bytes 5 default_policy (λ n. true) empty_disk new_disk
      three_bytes new_download (omega arith) (λ i n. ground arith) created

-- A transfer of the three bytes, with a sign of life in between.
abbrev takes_all : List Message → Message → Bool
takes_all sent m = true

abbrev conversation : List Message
conversation = complete (b'p' ∷ b'2' ∷ []) ∷ request_chunk 0 ∷ resume (0 ∷ []) ∷ []

abbrev emptied_disk : Memory
emptied_disk = record {
  is_there = false;
  content = [];
  stable = [];
  bitmap = none;
  tmp = some (1 ∷ []);
  files = with_file 0 full_disk;
  lasting = with_file 0 full_disk;
}

received :
    receive_file_on_stream memory two_bytes takes_all 5 1006
      (keep_alive ∷ chunk 7 0 (1 ∷ 2 ∷ 3 ∷ []) ∷ [])
      empty_disk
      three_bytes
    ≡ (emptied_disk, conversation, done (record { chunks_received = 1; candidate = 0 }))
unfolding receive_file_on_stream receive_chunks request_missing refill on_event take_chunk conclude
    confirm finalize clean_up publish_from prepare_desktop_publication create survey load_bitmap
    verified_bytes prepare save_bitmap validate validate_chunk_size verify_root_hash root_hash_of
    chunk_count manifest_chunk_count new to_bytes present missing is_set indices write_chunk
    store_chunk checkpoint_if_due checkpoint verify_chunk verify chunk_len chunk_len_at chunk_offset
    set_chunk check_index is_complete count_set sum_ones
received = refl

refused :
    (receive_file_on_stream memory two_bytes takes_all 5 1006
      (chunk 7 1 (1 ∷ 2 ∷ 3 ∷ []) ∷ [])
      empty_disk
      three_bytes).2
    ≡ failed unrequested_chunk
unfolding receive_file_on_stream receive_chunks request_missing refill on_event create survey
    load_bitmap verified_bytes prepare save_bitmap validate validate_chunk_size verify_root_hash
    root_hash_of chunk_count manifest_chunk_count new to_bytes present missing is_set indices
refused = refl

receive_file_on_stream_lem_example :
    Reported memory memory-IsReliable two_bytes takes_all three_bytes emptied_disk conversation 0
receive_file_on_stream_lem_example =
    receive_file_on_stream_lem memory memory-IsReliable two_bytes takes_all 5 1006
      (keep_alive ∷ chunk 7 0 (1 ∷ 2 ∷ 3 ∷ []) ∷ []) empty_disk emptied_disk three_bytes
      conversation (record { chunks_received = 1; candidate = 0 }) (omega arith)
      (λ i n. ground arith) received

receive_chunks_bound_example :
    length
      (receive_chunks memory two_bytes takes_all
        (chunk 7 0 (1 ∷ 2 ∷ 3 ∷ []) ∷ [])
        (initial memory two_bytes takes_all new_disk new_download)).0.outstanding
    ≤ 16
receive_chunks_bound_example =
    receive_chunks_bound memory two_bytes takes_all (chunk 7 0 (1 ∷ 2 ∷ 3 ∷ []) ∷ [])
      (initial memory two_bytes takes_all new_disk new_download) (omega arith)
