-- ===== src/Transfer/Receiver.antt =====
-- The receiver of src/transfer/receiver.rs on a stream whose manifest has been read. What the peer
-- sends is a list of events, a chunk with the time of its arrival, and the messages that were sent
-- are a list, the last one first; `writable` tells whether the stream takes a message. The disk is that
-- of Storage.Disk.
pub mod Window
pub mod Rounds
pub mod Bounds
pub mod Outcome
use p2p_file.Common.{
  ℕ, zero, suc, ◌+◌, ◌%◌, Bool, true, false, not, ◌||◌, ◌==◌, List, [], ◌∷◌, if◌then◌else◌, leb,
  length, select,
}
use p2p_file.Common.Bytes.{u32_mod}
use p2p_file.Transfer.Bitmap.{is_complete, missing, to_bytes}
use p2p_file.Transfer.Bitmap.Fill.{contains}
use p2p_file.Transfer.Manifest.{FileManifest, validate}
use p2p_file.Transfer.Manifest
use p2p_file.Storage.Disk.{Disk}
use p2p_file.Storage.Download.{
  PartialDownload, default_policy, ok, err, create, write_chunk, finalize, discard,
}
use p2p_file.Storage.Download

abbrev pub default_window : ℕ
default_window = 16

pub data Event : Type 0 where
  chunk : ℕ → ℕ → List ℕ → Event
  keep_alive : Event
  abort : Event
  other : Event
  -- A timeout, or a stream that cannot be read.
  broken_stream : Event

pub data Message : Type 0 where
  resume : List ℕ → Message
  request_chunk : ℕ → Message
  complete : List ℕ → Message
  abort_transfer : Message

pub data Error : Type 0 where
  bad_manifest : Manifest.Error → Error
  storage : Download.Error → Error
  not_sent peer_closed stream_failed unrequested_chunk peer_aborted unexpected_message
        chunks_missing :
      Error

pub data Result {ℓ} (A : Type ℓ) : Type ℓ where
  done : A → Result A
  failed : Error → Result A

-- `OutstandingChunks`
abbrev pub request : ℕ → List ℕ → List ℕ
request index indexes = if contains indexes index then indexes else index ∷ indexes

abbrev pub complete_chunk : ℕ → List ℕ → List ℕ
complete_chunk index indexes = select (λ i. not (index == i)) indexes

-- Requests up to the window; what is left of `pending`, what is outstanding, what has been sent. When
-- a request cannot be sent, those before it are not recorded.
unfoldable pub refill :
    (List Message → Message → Bool)
    → List ℕ
    → List ℕ
    → List Message
    → Result (List ℕ × List ℕ × List Message)
refill writable [] outstanding sent = done ([], outstanding, sent)
refill writable (index ∷ pending) outstanding sent =
    let rest = refill writable pending (request index outstanding) (request_chunk index ∷ sent) in
    if leb default_window (length outstanding)
    then done (index ∷ pending, outstanding, sent)
    else if writable sent (request_chunk index)
    then rest
    else failed not_sent

pub record Report : Type 0 where
  pub chunks_received : ℕ
  pub candidate : ℕ  -- which of the names the file has got

module _ (D : Disk) (blake3 : List ℕ → List ℕ) (writable : List Message → Message → Bool) where
  pub record Transfer : Type 0 where
    pub disk : D.State
    pub download : PartialDownload
    pub pending : List ℕ
    pub outstanding : List ℕ
    pub received : ℕ
    pub sent : List Message

  abbrev pub Loop : Type 0
  Loop = Transfer × Result (Unit {0})

  -- The part of a round that answers a chunk which was asked for.
  unfoldable pub take_chunk : ℕ → ℕ → List ℕ → Transfer → Loop
  take_chunk now index bytes t =
      let (s, d, r) = write_chunk D blake3 now t.disk t.download index bytes in
      elim r [
        | err e ↦ (record t { disk = s; download = d }, failed (storage e))
        | ok _ ↦ (
          record t {
            disk = s;
            download = d;
            outstanding = complete_chunk index t.outstanding;
            received = (t.received + 1) % u32_mod;
          },
          done tt,
        )
      ]

  abbrev pub discarded : Transfer → Transfer
  discarded t = record t { disk = discard D t.disk }

  -- What a round does with the event that it has read.
  unfoldable pub on_event : Event → Transfer → Loop
  unfolding take_chunk
  on_event (chunk now index bytes) t =
      if contains t.outstanding index
      then take_chunk now index bytes t
      else (discarded t, failed unrequested_chunk)
  on_event keep_alive t = (t, done tt)
  on_event abort t = (discarded t, failed peer_aborted)
  on_event other t = (discarded t, failed unexpected_message)
  on_event broken_stream t = (t, failed stream_failed)

  -- A round up to the reading of a message: `none` when nothing is outstanding.
  unfoldable pub request_missing : Transfer → Loop
  unfolding refill
  request_missing t = elim (refill writable t.pending t.outstanding t.sent) [
    | failed e ↦ (t, failed e)
    | done (pending, outstanding, sent) ↦
        (record t { pending = pending; outstanding = outstanding; sent = sent }, done tt)
  ]

  abbrev pub is_empty : List ℕ → Bool
  is_empty [] = true
  is_empty (_ ∷ _) = false

  unfoldable pub receive_chunks : List Event → Transfer → Loop
  unfolding request_missing on_event
  receive_chunks [] t =
      let (u, r) = request_missing t in
      elim r [
        | failed e ↦ (u, failed e)
        | done _ ↦ if is_empty u.outstanding then (u, done tt) else (u, failed peer_closed)
      ]
  receive_chunks (event ∷ events) t =
      let (u, r) = request_missing t in
      elim r [
        | failed e ↦ (u, failed e)
        | done _ ↦ elim (is_empty u.outstanding) [
          | true ↦ (u, done tt)
          | false ↦
              let (v, o) = on_event event u in
              elim o [ failed e ↦ (v, failed e) | done _ ↦ receive_chunks events v ]
        ]
      ]

  -- The end of `receive_file_on_stream`, when nothing is missing.
  unfoldable pub confirm : ℕ → FileManifest → Transfer → D.State × List Message × Result Report
  confirm now m t =
      let (s, d, r) = finalize D now t.disk t.download in
      elim r [
        -- That the abort may not be sent either is only logged.
        | err e ↦ (s, abort_transfer ∷ t.sent, failed (storage e))
        | ok candidate ↦
            if writable t.sent (complete m.root_hash)
            then (
              s,
              complete m.root_hash ∷ t.sent,
              done (record { chunks_received = t.received; candidate = candidate }),
            )
            else (s, t.sent, failed not_sent)
      ]

  unfoldable pub conclude : ℕ → FileManifest → Transfer → D.State × List Message × Result Report
  unfolding confirm
  conclude now m t =
      if is_complete t.download.written_bitmap
      then confirm now m t
      else (discard D t.disk, t.sent, failed chunks_missing)

  abbrev pub initial : D.State → PartialDownload → Transfer
  initial s d = record {
    disk = s;
    download = d;
    pending = missing d.written_bitmap;
    outstanding = [];
    received = 0;
    sent = resume (to_bytes d.written_bitmap) ∷ [];
  }

  -- `receive_file_on_stream`; the clock reads `start` when the file is opened and `end` when it is
  -- finalized.
  unfoldable pub receive_file_on_stream :
      ℕ → ℕ → List Event → D.State → FileManifest → D.State × List Message × Result Report
  unfolding receive_chunks conclude
  receive_file_on_stream start end events s m = elim (validate blake3 m) [
    | Manifest.err e ↦ (s, [], failed (bad_manifest e))
    | Manifest.ok _ ↦
        let (t, r) = create D blake3 start default_policy (λ n. true) s m in
        elim r [
          | err e ↦ (t, [], failed (storage e))
          | ok d ↦
              if not (writable [] (resume (to_bytes d.written_bitmap)))
              then (t, [], failed not_sent)
              else let (u, o) = receive_chunks events (initial t d) in
                elim o [ failed e ↦ (u.disk, u.sent, failed e) | done _ ↦ conclude end m u ]
        ]
  ]
