-- ===== src/Storage/Download.antt =====
-- A download in progress, src/storage/mod.rs, on a Unix system and without a directory capability.
-- The paths of a download are fixed names on its disk (Storage.Disk); `now` is the clock, in
-- milliseconds. Each operation gives the disk and the download that it leaves, errors included.
pub mod Soundness
pub mod Writing
pub mod Resuming
pub mod Creation
pub mod Publication
pub mod Ending
pub mod Runs
pub mod Rechecking
use p2p_file.Common.{
  ℕ, zero, suc, ◌+◌, ◌-◌, min, Bool, true, false, not, ◌||◌, List, [], ◌∷◌, Option, none, some,
  if◌then◌else◌, leb, ltb, ◌==◌, ◌!=◌, length,
}
use p2p_file.Common.Bytes.{u64_mod}
use p2p_file.Common.Streams.{Exact, exactly, early_end, exact_broken}
use p2p_file.Transfer.Bitmap.{ChunkBitmap, is_set, set_chunk, is_complete, to_bytes}
use p2p_file.Transfer.Bitmap
use p2p_file.Transfer.Manifest.{
  FileManifest, manifest_chunk_count, chunk_range, chunk_offset, verify_chunk,
}
use p2p_file.Transfer.Manifest
use p2p_file.Storage.Disk.{
  Disk, Found, found, not_found, unreadable, Linked, linked, taken, refused, DirEntry, present,
  absent, unknown, ◌>=>◌,
}

abbrev pub max_finalize_suffix : ℕ
max_finalize_suffix = 10000

abbrev pub checkpoint_bytes : ℕ
checkpoint_bytes = 67108864

abbrev pub checkpoint_interval : ℕ
checkpoint_interval = 1000

pub record CheckpointPolicy : Type 0 where
  pub bytes : ℕ
  pub interval : ℕ

abbrev pub default_policy : CheckpointPolicy
default_policy = record { bytes = checkpoint_bytes; interval = checkpoint_interval }

pub record PartialDownload : Type 0 where
  pub manifest : FileManifest
  pub is_open : Bool  -- `file` is not `None`
  pub written_bitmap : ChunkBitmap
  pub durable_bitmap : ChunkBitmap
  pub dirty_bytes : ℕ
  pub last_checkpoint : ℕ
  pub checkpoint_policy : CheckpointPolicy

pub data Error : Type 0 where
  bad_manifest : Manifest.Error → Error
  bad_bitmap : Bitmap.Error → Error
  rejected_chunk chunk_out_of_range already_finished incomplete progress_overflow : Error
  not_admitted io names_exhausted : Error

pub data Result {ℓ} (A : Type ℓ) : Type ℓ where
  ok : A → Result A
  err : Error → Result A

abbrev pub bitmap_result {ℓ} : {A : Type ℓ} → Bitmap.Result A → Result A
bitmap_result (Bitmap.ok a) = ok a
bitmap_result (Bitmap.err e) = err (bad_bitmap e)

abbrev pub exists_part : Found ℕ → Bool
exists_part (found len) = true
exists_part not_found = false
exists_part unreadable = false

-- `saturating_add` on a u64
abbrev pub saturating_add : ℕ → ℕ → ℕ
saturating_add a b = min (a + b) (u64_mod - 1)

module _ (D : Disk) where
  -- The disk and the download after an operation, with what it returns.
  abbrev pub Outcome : Type 0 → Type 0
  Outcome A = D.State × PartialDownload × Result A

  unfoldable pub save_bitmap : D.State → ChunkBitmap → D.State × Bool
  save_bitmap s bitmap =
      D.write_tmp s (to_bytes bitmap) >=> D.sync_tmp >=> D.rename_tmp >=> D.sync_dir

  unfoldable pub load_bitmap : D.State → ℕ → Result (ChunkBitmap × Bool)
  load_bitmap s chunk_count = elim (D.read_state s) [
    | found bytes ↦ elim (Bitmap.from_bytes chunk_count bytes) [
      | Bitmap.ok bitmap ↦ ok (bitmap, false)
      | Bitmap.err e ↦ ok (Bitmap.new chunk_count, true)
    ]
    | not_found ↦ ok (Bitmap.new chunk_count, false)
    | unreadable ↦ err io
  ]

  unfoldable pub checkpoint : ℕ → D.State → PartialDownload → Outcome (Unit {0})
  unfolding save_bitmap
  checkpoint now s d =
      if not d.is_open
      then (s, d, err already_finished)
      else let (t, synced) = D.sync_data s in
        if not synced
        then (t, d, err io)
        else let (u, saved) = save_bitmap t d.written_bitmap in
          if not saved then (u, d, err io) else (
            u,
            record d { durable_bitmap = d.written_bitmap; dirty_bytes = 0; last_checkpoint = now },
            ok tt,
          )

  unfoldable pub checkpoint_if_due : ℕ → D.State → PartialDownload → Outcome (Unit {0})
  unfolding checkpoint
  checkpoint_if_due now s d =
      if leb d.checkpoint_policy.bytes d.dirty_bytes
        || leb d.checkpoint_policy.interval (now - d.last_checkpoint)
      then checkpoint now s d
      else (s, d, ok tt)

  -- The part of `write_chunk` from the write to the file on.
  unfoldable pub store_chunk : ℕ → D.State → PartialDownload → ℕ → ℕ → List ℕ → Outcome (Unit {0})
  unfolding checkpoint_if_due
  store_chunk now s d index offset bytes =
      if not d.is_open
      then (s, d, err already_finished)
      else let (t, stored) = D.write_at s offset bytes in
        if not stored then (t, d, err io) else elim (set_chunk d.written_bitmap index) [
          | Bitmap.err e ↦ (t, d, err (bad_bitmap e))
          | Bitmap.ok written ↦ checkpoint_if_due now t (record d {
            written_bitmap = written;
            dirty_bytes = saturating_add d.dirty_bytes (length bytes);
          })
        ]

  -- `existing`, or `open_part`
  abbrev pub part_opened : D.State → D.State × Bool
  part_opened s = if exists_part (D.part_len s) then (s, true) else D.create_part s

  abbrev pub part_emptied : FileManifest → D.State → D.State × Bool
  part_emptied m s = D.set_len s 0 >=> (λ t. D.set_len t m.total_len) >=> D.sync_all

  -- The changes that `create` makes once it is admitted.
  unfoldable pub prepare : D.State → FileManifest → ChunkBitmap → Bool → Bool → D.State × Bool
  unfolding save_bitmap
  prepare s m bitmap changed reset = part_opened s >=> λ t.
      if reset
      then (part_emptied m t >=> λ u. save_bitmap u bitmap)
      else if changed
      then save_bitmap t bitmap
      else (t, true)

  module _ (blake3 : List ℕ → List ℕ) where
    unfoldable pub write_chunk : ℕ → D.State → PartialDownload → ℕ → List ℕ → Outcome (Unit {0})
    unfolding store_chunk
    write_chunk now s d index bytes =
        if not (verify_chunk blake3 d.manifest index bytes)
        then (s, d, err rejected_chunk)
        else elim (chunk_offset d.manifest index) [
          | none ↦ (s, d, err chunk_out_of_range)
          | some offset ↦ store_chunk now s d index offset bytes
        ]

    -- One round of the loop of `create` over the chunks that the bitmap names.
    unfoldable pub recheck :
        D.State → FileManifest → ℕ → ChunkBitmap × Bool → Result (ChunkBitmap × Bool)
    recheck s m index (bitmap, changed) = elim (chunk_range m index) [
      | none ↦ err chunk_out_of_range
      | some (offset, len) ↦ elim (D.read_at s offset len) [
        | exactly bytes ↦
            if verify_chunk blake3 m index bytes then ok (bitmap, changed) else forget bitmap
        | early_end ↦ forget bitmap
        | exact_broken e ↦ err io
      ]
    ]
      where
        forget : ChunkBitmap → Result (ChunkBitmap × Bool)
        forget bitmap = elim (Bitmap.clear bitmap index) [
          | Bitmap.ok cleared ↦ ok (cleared, true)
          | Bitmap.err e ↦ err (bad_bitmap e)
        ]

    unfoldable pub recheck_each :
        D.State → FileManifest → List ℕ → ChunkBitmap × Bool → Result (ChunkBitmap × Bool)
    unfolding recheck
    recheck_each s m [] state = ok state
    recheck_each s m (index ∷ rest) state = elim (recheck s m index state) [
      | err e ↦ err e
      | ok next ↦ recheck_each s m rest next
    ]

    unfoldable pub verified_bytes : FileManifest → List ℕ → ℕ → Result ℕ
    verified_bytes m [] sum = ok sum
    verified_bytes m (index ∷ rest) sum = elim (chunk_range m index) [
      | none ↦ err chunk_out_of_range
      | some (offset, len) ↦
          if leb u64_mod (sum + len)
          then err progress_overflow
          else verified_bytes m rest (sum + len)
    ]

    -- What `create` finds on the disk before it asks for admission: the bitmap, whether it has to be
    -- saved, and whether the part file starts anew.
    unfoldable pub survey : D.State → FileManifest → Result (ChunkBitmap × Bool × Bool)
    unfolding load_bitmap recheck_each
    survey s m = elim (load_bitmap s (manifest_chunk_count m)) [
      | err e ↦ err e
      | ok (bitmap, repair) ↦ elim (D.part_len s) [
        | unreadable ↦ err io
        | not_found ↦ ok (Bitmap.new (manifest_chunk_count m), repair, true)
        | found len ↦
            if len != m.total_len
            then ok (Bitmap.new (manifest_chunk_count m), repair, true)
            else elim (recheck_each s m (Bitmap.present bitmap) (bitmap, repair)) [
              | err e ↦ err e
              | ok (checked, changed) ↦ ok (checked, changed, false)
            ]
      ]
    ]

    -- `create_in_with_admission`; `admit` is given the bytes that are still missing.
    unfoldable pub create :
        ℕ
        → CheckpointPolicy
        → (ℕ → Bool)
        → D.State
        → FileManifest
        → D.State × Result PartialDownload
    unfolding survey verified_bytes prepare
    create now policy admit s m = elim (Manifest.validate blake3 m) [
      | Manifest.err e ↦ (s, err (bad_manifest e))
      | Manifest.ok _ ↦ elim (survey s m) [
        | err e ↦ (s, err e)
        | ok (bitmap, changed, reset) ↦ elim (verified_bytes m (Bitmap.present bitmap) 0) [
          | err e ↦ (s, err e)
          | ok verified ↦
              if not (admit (m.total_len - verified))
              then (s, err not_admitted)
              else let (t, prepared) = prepare s m bitmap changed reset in
                if not prepared then (t, err io) else (
                  t,
                  ok (record {
                    manifest = m;
                    is_open = true;
                    written_bitmap = bitmap;
                    durable_bitmap = bitmap;
                    dirty_bytes = 0;
                    last_checkpoint = now;
                    checkpoint_policy = policy;
                  }),
                )
        ]
      ]
    ]

  -- `publish_no_replace`, from the candidate of a number on.
  unfoldable pub publish_from : ℕ → ℕ → D.State → D.State × Result ℕ
  publish_from zero candidate s = (s, err names_exhausted)
  publish_from (suc left) candidate s =
      let (t, outcome) = D.hard_link s candidate in
      let later = publish_from left (suc candidate) t in
      elim outcome [
        | linked ↦
            let (u, removed) = D.remove_part t in if removed then (u, ok candidate) else (u, err io)
        | taken ↦ later
        | refused ↦ elim (D.entry t candidate) [
          | present ↦ later
          | absent ↦ (t, err io)
          | unknown ↦ (t, err io)
        ]
      ]

  -- Also the first part of `finalize`.
  unfoldable pub prepare_desktop_publication : ℕ → D.State → PartialDownload → Outcome (Unit {0})
  unfolding checkpoint
  prepare_desktop_publication now s d =
      if not (is_complete d.written_bitmap)
      then (s, d, err incomplete)
      else let (t, c, saved) = checkpoint now s d in
        elim saved [
          | err e ↦ (t, c, err e)
          | ok _ ↦
              let (u, synced) = D.sync_all t in
              if synced then (u, record c { is_open = false }, ok tt) else (u, c, err io)
        ]

  -- What `finalize` does after the publication.
  unfoldable pub clean_up : PartialDownload → D.State × Result ℕ → Outcome ℕ
  clean_up c (u, published) = elim published [
    | err e ↦ (u, c, err e)
    | ok candidate ↦
        let (v, cleaned) = D.sync_dir u >=> D.remove_state >=> D.sync_dir in
        if cleaned then (v, c, ok candidate) else (v, c, err io)
  ]

  unfoldable pub finalize : ℕ → D.State → PartialDownload → Outcome ℕ
  unfolding prepare_desktop_publication publish_from clean_up
  finalize now s d =
      let (t, c, prepared) = prepare_desktop_publication now s d in
      elim prepared [
        | err e ↦ (t, c, err e)
        | ok _ ↦ clean_up c (publish_from (suc max_finalize_suffix) 0 t)
      ]

  -- Failures to remove are ignored.
  unfoldable pub discard : D.State → D.State
  discard s = (D.remove_state (D.remove_part s).0).0
