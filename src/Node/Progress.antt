-- ===== src/Node/Progress.antt =====
-- The progress figures of src/node/core/queue.rs: `group_progress` and `RateSampler`. A rate is the
-- dividend and the divisor of the code's one division; rounding to `f64` is left out.
use p2p_file.Common.{
  ℕ, ◌+◌, ◌-◌, ◌*◌, ◌≤◌, ◌≡◌, refl, min, Bool, true, false, not, ◌&&◌, ◌||◌, List, [], ◌∷◌, Option,
  none, some, if◌then◌else◌, leb, ltb, ◌==◌, length, arith, Bool-cases, inl, inr,
}
use p2p_file.Common.Bytes.{u64_mod}
use p2p_file.Node.Task.{failed, interrupted, same_state, ProgressHint}
use p2p_file.Node.Task.Record.{TaskRecord, is_completed}

pub record GroupProgress : Type 0 where
  pub children : ℕ
  pub completed_children : ℕ
  pub failed_children : ℕ
  pub total_bytes : ℕ
  pub confirmed_bytes : ℕ
  pub complete : Bool

abbrev pub no_progress : GroupProgress
no_progress = record {
  children = 0;
  completed_children = 0;
  failed_children = 0;
  total_bytes = 0;
  confirmed_bytes = 0;
  complete = false;
}

abbrev pub saturating_add : ℕ → ℕ → ℕ
saturating_add a b = min (a + b) (u64_mod - 1)

abbrev pub verified : Option ProgressHint → ℕ
verified none = 0
verified (some hint) = hint.verified_bytes

abbrev pub is_failure : TaskRecord → Bool
is_failure r = same_state r.state failed || same_state r.state interrupted

abbrev pub confirmed_of : TaskRecord → ℕ
confirmed_of r =
    let total = r.manifest_identity.total_bytes in
    if is_completed r then total else min (verified r.progress_hint) total

unfoldable pub add_child : GroupProgress → TaskRecord → GroupProgress
add_child g r = record {
  children = g.children + 1;
  completed_children = g.completed_children + (if is_completed r then 1 else 0);
  failed_children = g.failed_children + (if is_failure r then 1 else 0);
  total_bytes = saturating_add g.total_bytes r.manifest_identity.total_bytes;
  confirmed_bytes = saturating_add g.confirmed_bytes (confirmed_of r);
  complete = g.complete;
}

unfoldable pub add_children : GroupProgress → List TaskRecord → GroupProgress
add_children g [] = g
add_children g (r ∷ rs) = add_children (add_child g r) rs

unfoldable pub group_progress : List TaskRecord → GroupProgress
group_progress records =
    let g = add_children no_progress records in
    record g { complete = ltb 0 g.children && g.completed_children == g.children }

pub record RateSampler : Type 0 where
  pub points : List (ℕ × ℕ)
  pub latest : ℕ
  pub last_ms : ℕ

unfoldable pub reset : RateSampler → ℕ → ℕ → RateSampler
reset s now_ms confirmed = record {
  points = (now_ms, confirmed) ∷ [];
  latest = confirmed;
  last_ms = now_ms;
}

-- `pop_back` of a last point of the same time, then `push_back`.
abbrev pub push_point : List (ℕ × ℕ) → ℕ → ℕ → List (ℕ × ℕ)
push_point [] now_ms confirmed = (now_ms, confirmed) ∷ []
push_point ((t, b) ∷ []) now_ms confirmed =
    if t == now_ms then (now_ms, confirmed) ∷ [] else (t, b) ∷ (now_ms, confirmed) ∷ []
push_point ((t, b) ∷ p ∷ ps) now_ms confirmed = (t, b) ∷ push_point (p ∷ ps) now_ms confirmed

-- The first point is dropped while more than two are left and the second is out of the window.
abbrev pub drop_old : ℕ → List (ℕ × ℕ) → List (ℕ × ℕ)
drop_old start [] = []
drop_old start (p ∷ []) = p ∷ []
drop_old start (p ∷ q ∷ []) = p ∷ q ∷ []
drop_old start (p ∷ q ∷ r ∷ ps) =
    let rest = drop_old start (q ∷ r ∷ ps) in if leb q.0 start then rest else p ∷ q ∷ r ∷ ps

abbrev pub drop_excess : List (ℕ × ℕ) → List (ℕ × ℕ)
drop_excess [] = []
drop_excess (p ∷ ps) =
    let rest = drop_excess ps in if ltb 32 (length (p ∷ ps)) then rest else p ∷ ps

abbrev pub is_empty : List (ℕ × ℕ) → Bool
is_empty [] = true
is_empty (_ ∷ _) = false

unfoldable pub observe : RateSampler → ℕ → ℕ → RateSampler
unfolding reset
observe s now_ms confirmed =
    if is_empty s.points || ltb now_ms s.last_ms || ltb confirmed s.latest
    then reset s now_ms confirmed
    else record {
      points = drop_excess (drop_old (now_ms - 2000) (push_point s.points now_ms confirmed));
      latest = confirmed;
      last_ms = now_ms;
    }

unfoldable pub bytes_per_second : RateSampler → ℕ → Bool → Option (ℕ × ℕ)
bytes_per_second s now_ms transferring =
    if not transferring || ltb now_ms s.last_ms || leb 2000 (now_ms - s.last_ms)
    then none
    else elim s.points [
      | [] ↦ none
      | (started, bytes) ∷ _ ↦
          if now_ms - started == 0 then none else some ((s.latest - bytes) * 1000, now_ms - started)
    ]

-- What stays true while the children are counted.
record IsCounted (g : GroupProgress) : Type 0 where
  counts : g.completed_children + g.failed_children ≤ g.children
  bytes : g.confirmed_bytes ≤ g.total_bytes
  together : g.completed_children ≡ g.children → g.confirmed_bytes ≡ g.total_bytes
  not_more : g.completed_children ≤ g.children

exclusive : (r : TaskRecord) → (is_completed r && is_failure r) ≡ false
exclusive r = ground arith

add_child-IsCounted : (g : GroupProgress) (r : TaskRecord) → IsCounted g → IsCounted (add_child g r)
unfolding add_child
add_child-IsCounted g r c = elim (Bool-cases (is_completed r)) [
  | inl e ↦ record {
    counts = ground (arith, exclusive r, c.counts);
    bytes = ground (arith, c.bytes);
    together = λ h. ground (arith, c.together);
    not_more = ground (arith, c.not_more);
  }
  | inr e ↦ record {
    counts = ground (arith, c.counts);
    bytes = ground (arith, c.bytes);
    together = λ h. absurd (ground (arith, c.not_more));
    not_more = ground (arith, c.not_more);
  }
]

add_children-IsCounted :
    (g : GroupProgress) (rs : List TaskRecord) → IsCounted g → IsCounted (add_children g rs)
unfolding add_children
add_children-IsCounted g [] c = c
add_children-IsCounted g (r ∷ rs) c =
    add_children-IsCounted (add_child g r) rs (add_child-IsCounted g r c)

-- Of a group of tasks, those completed and those failed are together no more than all, no more
-- bytes are confirmed than there are, and a group that is complete has all its bytes confirmed.
pub group_progress_lem :
    (rs : List TaskRecord)
    → ((group_progress rs).completed_children + (group_progress rs).failed_children
        ≤ (group_progress rs).children)
      × ((group_progress rs).confirmed_bytes ≤ (group_progress rs).total_bytes)
      × ((group_progress rs).complete ≡ true
          → (group_progress rs).confirmed_bytes ≡ (group_progress rs).total_bytes)
unfolding group_progress
group_progress_lem rs =
    let c = add_children-IsCounted no_progress rs (record {
      counts = omega arith;
      bytes = omega arith;
      together = λ h. refl;
      not_more = omega arith;
    }) in
    (c.counts, c.bytes, λ h. ground (arith, c.together))

length-drop_excess-le : (ps : List (ℕ × ℕ)) → length (drop_excess ps) ≤ 32
length-drop_excess-le [] = omega arith
length-drop_excess-le (p ∷ ps) = ground (arith, length-drop_excess-le ps)

-- An observation leaves at most 32 points in the sampler, whatever it held.
pub observe_bound :
    (s : RateSampler) (now_ms confirmed : ℕ) → length (observe s now_ms confirmed).points ≤ 32
unfolding observe reset
observe_bound s now_ms confirmed =
    ground (
      arith,
      length-drop_excess-le (drop_old (now_ms - 2000) (push_point s.points now_ms confirmed)),
    )
