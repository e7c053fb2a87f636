-- ===== src/Examples/Memory.antt =====
-- A disk in memory: writes reach stable storage when the part file is synced.
use p2p_file.Common.{
  ℕ, zero, suc, ◌+◌, ◌-◌, ◌≤◌, ◌<◌, ◌≡◌, ◌≢◌, refl, sym, ◌∙◌, subst, ap, inl, inr, Bool, true,
  false, List, [], ◌∷◌, ◌++◌, ◌==◌, Option, none, some, if◌then◌else◌, ltb, length, take, replicate,
  All, arith, Bool-cases, ==_iff,
}
use p2p_file.Common.Streams.{Exact, exactly, early_end}
use p2p_file.Storage.Disk.{
  Disk, IsReliable, Keeps, Found, found, not_found, unreadable, linked, absent, slice,
}

pub record Memory : Type 0 where
  pub is_there : Bool
  pub content : List ℕ
  pub stable : List ℕ
  pub bitmap : Option (List ℕ)
  pub tmp : Option (List ℕ)
  -- The files that were linked when they were synced, and those whose names last.
  pub files : ℕ → Option (List ℕ)
  pub lasting : ℕ → Option (List ℕ)

-- The bytes written over a file from an offset on; a gap is filled with zeros.
abbrev put : ℕ → List ℕ → List ℕ → List ℕ
put zero [] xs = xs
put zero (b ∷ bs) [] = b ∷ put zero bs []
put zero (b ∷ bs) (x ∷ xs) = b ∷ put zero bs xs
put (suc o) bs [] = 0 ∷ put o bs []
put (suc o) bs (x ∷ xs) = x ∷ put o bs xs

put_there : (o : ℕ) (bs xs : List ℕ) → slice o (length bs) (put o bs xs) ≡ bs
put_there zero [] xs = refl
put_there zero (b ∷ bs) [] = ap (λ t. b ∷ t) (put_there zero bs [])
put_there zero (b ∷ bs) (x ∷ xs) = ap (λ t. b ∷ t) (put_there zero bs xs)
put_there (suc o) bs [] = put_there o bs []
put_there (suc o) bs (x ∷ xs) = put_there o bs xs

pub put_before :
    (o l p : ℕ) (bs xs : List ℕ)
    → o + l ≤ p
    → length (slice o l xs) ≡ l
    → slice o l (put p bs xs) ≡ slice o l xs
put_before o zero p bs xs h f = refl
put_before zero (suc l) zero bs xs h f = absurd (omega arith)
put_before (suc o) (suc l) zero bs xs h f = absurd (omega arith)
put_before zero (suc l) (suc p) bs [] h f = absurd (omega arith)
put_before zero (suc l) (suc p) bs (x ∷ xs) h f =
    ap (λ t. x ∷ t) (put_before zero l p bs xs (omega arith) (omega arith))
put_before (suc o) (suc l) (suc p) bs [] h f = absurd (omega arith)
put_before (suc o) (suc l) (suc p) bs (x ∷ xs) h f = put_before o (suc l) p bs xs (omega arith) f

pub put_after :
    (o l p : ℕ) (bs xs : List ℕ)
    → p + length bs ≤ o
    → length (slice o l xs) ≡ l
    → slice o l (put p bs xs) ≡ slice o l xs
put_after o zero p bs xs h f = refl
put_after zero (suc l) zero [] xs h f = refl
put_after zero (suc l) zero (b ∷ bs) xs h f = absurd (omega arith)
put_after zero (suc l) (suc p) bs xs h f = absurd (omega arith)
put_after (suc o) (suc l) zero [] xs h f = refl
put_after (suc o) (suc l) p bs [] h f = absurd (omega arith)
put_after (suc o) (suc l) zero (b ∷ bs) (x ∷ xs) h f =
    put_after o (suc l) zero bs xs (omega arith) f
put_after (suc o) (suc l) (suc p) bs (x ∷ xs) h f = put_after o (suc l) p bs xs (omega arith) f

put_prefix : (bs xs : List ℕ) → take (length bs) xs ≡ bs → put 0 bs xs ≡ xs
put_prefix [] xs h = refl
put_prefix (b ∷ bs) [] h = absurd (ground arith)
put_prefix (b ∷ bs) (x ∷ xs) h =
    let same : x ≡ b = ground arith in
    let rest : take (length bs) xs ≡ bs = ground arith in
    ap (λ c. c ∷ put 0 bs xs) (sym same) ∙ ap (λ t. x ∷ t) (put_prefix bs xs rest)

pub put_same :
    (o : ℕ) (bs xs : List ℕ) → 0 < length bs → slice o (length bs) xs ≡ bs → put o bs xs ≡ xs
put_same zero bs xs n h = put_prefix bs xs h
put_same (suc o) [] xs n h = absurd (ground arith)
put_same (suc o) (b ∷ bs) [] n h = absurd (ground arith)
put_same (suc o) (b ∷ bs) (x ∷ xs) n h = ap (λ t. x ∷ t) (put_same o (b ∷ bs) xs n h)

abbrev are_bytes : List ℕ → Bool
are_bytes [] = true
are_bytes (b ∷ bs) = if ltb b 256 then are_bytes bs else false

are_bytes_lem : (bs : List ℕ) → are_bytes bs ≡ true → All (λ x. x < 256) bs
are_bytes_lem [] h = tt
are_bytes_lem (b ∷ bs) h = ground (arith, are_bytes_lem bs)

abbrev read_memory : Memory → ℕ → ℕ → Exact
read_memory m o l =
    if ltb (length (slice o l m.content)) l then early_end else exactly (slice o l m.content)

abbrev bitmap_found : Option (List ℕ) → Found (List ℕ)
bitmap_found none = not_found
bitmap_found (some bytes) = if are_bytes bytes then found bytes else unreadable

abbrev pub with_file : ℕ → Memory → ℕ → Option (List ℕ)
with_file k m n = if k == n then some m.stable else m.files n

abbrev pub memory : Disk
memory = record {
  State = Memory;
  part_len = λ m. if m.is_there then found (length m.content) else not_found;
  create_part = λ m. (record m { is_there = true }, true);
  set_len =
      λ m n. (record m { content = take n m.content ++ replicate (n - length m.content) 0 }, true);
  read_at = read_memory;
  write_at = λ m o bs. (record m { content = put o bs m.content }, true);
  sync_data = λ m. (record m { stable = m.content }, true);
  sync_all = λ m. (record m { stable = m.content }, true);
  read_state = λ m. bitmap_found m.bitmap;
  write_tmp = λ m bs. (record m { tmp = some bs }, true);
  sync_tmp = λ m. (m, true);
  rename_tmp = λ m. (record m { bitmap = m.tmp }, true);
  sync_dir = λ m. (record m { lasting = m.files }, true);
  hard_link = λ m k. (record m { files = with_file k m }, linked);
  entry = λ m k. absent;
  remove_part = λ m. (record m { is_there = false; content = []; stable = [] }, true);
  remove_state = λ m. (record m { bitmap = none }, true);
}

abbrev held :
    (s t : Memory)
    → t.content ≡ s.content
    → t.stable ≡ s.stable
    → Keeps memory (λ m. m.content) (λ m. m.stable) s t
held s t e f = record { same = e; still = λ o l h. ap (slice o l) f ∙ h ∙ ap (slice o l) (sym e) }

abbrev synced :
    (s t : Memory)
    → t.content ≡ s.content
    → t.stable ≡ s.content
    → Keeps memory (λ m. m.content) (λ m. m.stable) s t
synced s t e f = record { same = e; still = λ o l h. ap (slice o l) f ∙ ap (slice o l) (sym e) }

pub found_state :
    (b : Option (List ℕ)) (bytes : List ℕ)
    → bitmap_found b ≡ found bytes
    → (b ≡ some bytes) × All (λ x. x < 256) bytes
found_state none bytes h = absurd (ground arith)
found_state (some bs) bytes h = elim (Bool-cases (are_bytes bs)) [
  | inl e ↦
      let same : bs ≡ bytes = ground arith in
      (ap some same, subst (All (λ x. x < 256)) same (are_bytes_lem bs e))
  | inr e ↦ absurd (ground arith)
]

pub absent_state : (b : Option (List ℕ)) → bitmap_found b ≡ not_found → b ≡ none
absent_state none h = refl
absent_state (some bs) h = absurd (ground arith)

pub written :
    (s t : Memory) (p : ℕ) (bs : List ℕ)
    → memory.write_at s p bs ≡ (t, true)
    → slice p (length bs) t.content ≡ bs
written s t p bs h =
    let same : put p bs s.content ≡ t.content = ap (λ q. q.0.content) h in
    ap (slice p (length bs)) (sym same) ∙ put_there p bs s.content

pub with_file_self : (k : ℕ) (s : Memory) → with_file k s k ≡ some s.stable
with_file_self k s = ground (arith, ==_iff k k)

pub never : true ≢ false
never h = ground arith

pub read_all :
    (s : Memory) (o l : ℕ) (bytes : List ℕ)
    → read_memory s o l ≡ exactly bytes
    → bytes ≡ slice o l s.content
read_all s o l bytes h = ground arith

pub read_less :
    (s : Memory) (o l : ℕ) → read_memory s o l ≡ early_end → length (slice o l s.content) < l
read_less s o l h = ground arith

abbrev pub memory-IsReliable : IsReliable memory
memory-IsReliable = record {
  content = λ m. m.content;
  stable = λ m. m.stable;
  bitmap = λ m. m.bitmap;
  tmp = λ m. m.tmp;
  linked_file = λ m. m.files;
  lasting = λ m. m.lasting;
  write_elsewhere = λ s p bs o l h f. elim h [
    | inl a ↦ put_before o l p bs s.content a f
    | inr a ↦ put_after o l p bs s.content a f
  ];
  write_stable = λ s p bs o l h f. refl;
  write_there = λ s t p bs h. written s t p bs h;
  write_again = λ s p bs n h. held s (memory.write_at s p bs).0 (put_same p bs s.content n h) refl;
  write_bitmap = λ s o bs. refl;
  sync_keeps = λ s. synced s (memory.sync_data s).0 refl refl;
  sync_bitmap = λ s. refl;
  sync_done = λ s t h. ap (λ q. q.0.stable) (sym h) ∙ ap (λ q. q.0.content) h;
  sync_all_keeps = λ s. synced s (memory.sync_all s).0 refl refl;
  sync_all_bitmap = λ s. refl;
  sync_all_done = λ s t h. ap (λ q. q.0.stable) (sym h) ∙ ap (λ q. q.0.content) h;
  tmp_keeps = λ s bs. held s (memory.write_tmp s bs).0 refl refl;
  tmp_bitmap = λ s bs. refl;
  tmp_written = λ s t bs h. ap (λ q. q.0.tmp) (sym h);
  sync_tmp_keeps = λ s. held s s refl refl;
  sync_tmp_bitmap = λ s. (refl, refl);
  rename_keeps = λ s. held s (memory.rename_tmp s).0 refl refl;
  rename_done = λ s t h. ap (λ q. q.0.bitmap) (sym h);
  rename_failed = λ s t h. absurd (never (ap (λ q. q.1) h));
  sync_dir_keeps = λ s. held s (memory.sync_dir s).0 refl refl;
  sync_dir_bitmap = λ s. refl;
  sync_dir_part = λ s. refl;
  sync_dir_file = λ s k bs h. h;
  sync_dir_done = λ s t k bs h f. ap (λ q. q.0.lasting k) (sym h) ∙ f;
  link_keeps = λ s k. held s (memory.hard_link s k).0 refl refl;
  link_bitmap = λ s k. refl;
  link_synced = λ s k h. h;
  link_done = λ s t k h f. ap (λ q. q.0.files k) (sym h) ∙ with_file_self k s ∙ ap some f;
  remove_part_file = λ s k bs h. h;
  remove_part_bitmap = λ s. refl;
  remove_part_done = λ s t h. ap (λ q. memory.part_len q.0) (sym h);
  remove_part_failed = λ s t h. absurd (never (ap (λ q. q.1) h));
  remove_state_keeps = λ s. held s (memory.remove_state s).0 refl refl;
  remove_state_part = λ s. refl;
  remove_state_file = λ s k bs h. h;
  remove_state_done = λ s t h. ap (λ q. q.0.bitmap) (sym h);
  remove_state_failed = λ s t h. absurd (never (ap (λ q. q.1) h));
  read_whole = read_all;
  read_short = read_less;
  state_found = λ s bytes h. found_state s.bitmap bytes h;
  state_absent = λ s h. absent_state s.bitmap h;
}
