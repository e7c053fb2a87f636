-- ===== src/Storage/Download/Publication.antt =====
-- The publication of a download under one of the names.
use p2p_file.Common.{
  ℕ, zero, suc, ◌≡◌, refl, sym, ◌∙◌, ap, inl, inr, Bool, true, false, List, none, some, arith,
  Bool-cases, if_lem,
}
use p2p_file.Storage.Disk.{
  Disk, IsReliable, Linked, linked, taken, refused, DirEntry, present, absent, unknown, ◌>=>◌,
}
use p2p_file.Storage.Download.{PartialDownload, Result, ok, err, io, publish_from, clean_up}
use p2p_file.Storage.Download.Resuming.{chain_done}

-- The three ends of an attempt to link.
pub any_outcome {κ} :
    {X : Type 0} (P : X → Type κ) (o : Linked) (x y z : X)
    → (o ≡ linked → P x)
    → P y
    → P z
    → P (elim o [ linked ↦ x | taken ↦ y | refused ↦ z ])
any_outcome P linked x y z a b c = a refl
any_outcome P taken x y z a b c = b
any_outcome P refused x y z a b c = c

pub any_entry {κ} :
    {X : Type 0} (P : X → Type κ) (o : DirEntry) (x y : X)
    → P x
    → P y
    → P (elim o [ present ↦ x | absent ↦ y | unknown ↦ y ])
any_entry P present x y a b = a
any_entry P absent x y a b = b
any_entry P unknown x y a b = b

chain_first : {S : Type 0} (r : S × Bool) (f : S → S × Bool) → (r >=> f).1 ≡ true → r.1 ≡ true
chain_first (t, true) f h = refl
chain_first (t, false) f h = h

module _ (D : Disk) (R : IsReliable D) where
  open R use {content, stable, bitmap, linked_file, lasting}

  abbrev IsNamed : List ℕ → D.State × Result ℕ → Type 0
  IsNamed bytes (u, r) = (k : ℕ) → r ≡ ok k → linked_file u k ≡ some bytes

  -- A synced part file that gets a name is the file of that name.
  pub publish_from-IsNamed :
      (left candidate : ℕ) (s : D.State) (bytes : List ℕ)
      → stable s ≡ content s
      → content s ≡ bytes
      → IsNamed bytes (publish_from D left candidate s)
  unfolding publish_from
  publish_from-IsNamed zero candidate s bytes h e = λ k q. absurd (ground arith)
  publish_from-IsNamed (suc left) candidate s bytes h e =
      let (t, o) = D.hard_link s candidate in
      let later =
        publish_from-IsNamed left (suc candidate) t bytes (R.link_synced s candidate h)
          ((R.link_keeps s candidate).same ∙ e) in
      any_outcome (IsNamed bytes) o _ (publish_from D left (suc candidate) t) _
        (λ l.
          let named =
            R.remove_part_file t candidate bytes
              (R.link_done s t candidate (ap (λ q. (t, q)) l) h ∙ ap some e) in
          if_lem (IsNamed bytes) (D.remove_part t).1 ((D.remove_part t).0, ok candidate)
            ((D.remove_part t).0, err io)
            (λ r k q.
              let same : candidate ≡ k = ground arith in
              ap (linked_file (D.remove_part t).0) (sym same) ∙ named)
            (λ r k q. absurd (ground arith)))
        later
        (any_entry (IsNamed bytes) (D.entry t candidate) (publish_from D left (suc candidate) t)
          (t, err io) later (λ k q. absurd (ground arith)))

  -- When what follows a publication succeeds, the name lasts and the bitmap file is gone.
  pub clean_up_lem :
      (c b : PartialDownload) (u v : D.State) (r : Result ℕ) (k : ℕ) (bytes : List ℕ)
      → IsNamed bytes (u, r)
      → clean_up D c (u, r) ≡ (v, b, ok k)
      → (lasting v k ≡ some bytes) × (bitmap v ≡ none)
  unfolding clean_up
  clean_up_lem c b u v (err e) k bytes n h = absurd (ground arith)
  clean_up_lem c b u v (ok candidate) k bytes n h =
      let first = D.sync_dir u in
      let second = first >=> D.remove_state in
      let last = second >=> D.sync_dir in
      elim (Bool-cases last.1) [
        | inr e ↦ absurd (ground arith)
        | inl e ↦
            let removed = chain_first second D.sync_dir e in
            let two = chain_done first D.remove_state removed in
            let three = chain_done second D.sync_dir e in
            let named : linked_file first.0 candidate ≡ some bytes =
              R.sync_dir_file u candidate bytes (n candidate refl) in
            let kept_name : linked_file second.0 candidate ≡ some bytes =
              ap (λ q. linked_file q.0 candidate) two
              ∙ R.remove_state_file first.0 candidate bytes named in
            let same : last.0 ≡ v = ground arith in
            let number : candidate ≡ k = ground arith in
            (
              ap (λ q. lasting v q) (sym number)
                  ∙ ap (λ q. lasting q candidate) (sym same)
                  ∙ R.sync_dir_done second.0 last.0 candidate bytes
                      (sym three ∙ ap (λ q. (last.0, q)) e) kept_name,
              ap bitmap (sym same)
                  ∙ ap (λ q. bitmap q.0) three
                  ∙ R.sync_dir_bitmap second.0
                  ∙ R.remove_state_done first.0 second.0
                      (sym two ∙ ap (λ q. (second.0, q)) removed),
            )
      ]
