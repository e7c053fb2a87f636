-- ===== src/Common/Streams.antt =====
-- Byte streams that the program reads and writes. The transports are other packages' code: a reader
-- is a record of the two calls that the program makes of it, and what it relies on is a record of
-- laws.
use Prim.Native.Nat.{ℕ, zero, suc, ◌+◌, ◌-◌, ◌≤◌, ◌<◌}
use mathlib.Core.Path.{◌≡◌, refl, ap, subst}
use mathlib.Core.Logic.{◌≢◌, ◌⊎◌, inl, inr}
use mathlib.Core.List.{List, [], ◌∷◌, ◌++◌, append_assoc}
use mathlib.Core.Option.{Option, some}
use native.Mathlib.Omega.{arith}
use p2p_file.Common.Lists.{length, length-append}

-- What one call of `read` returns; `got []` is the end of the stream.
pub data Read : Type 0 where
  got : List ℕ → Read
  interrupted : Read
  broken : ℕ → Read

-- What `read_exact` returns.
pub data Exact : Type 0 where
  exactly : List ℕ → Exact
  early_end : Exact
  exact_broken : ℕ → Exact

pub record Reader : Type 1 where
  pub State : Type 0
  pub read : State → ℕ → State × Read
  pub read_exact : State → ℕ → State × Exact

-- The documented behaviour of a reader: it yields the bytes of its stream in their order, never more
-- than were asked for, and none only at the end; it is interrupted finitely often; and a reader that
-- is healthy stays so and does not fail.
pub record IsLawful (R : Reader) : Type 1 where
  pub rest : R.State → List ℕ
  pub interruptions : R.State → ℕ
  pub IsHealthy : R.State → Type 0
  pub read_got :
      (s t : R.State) (n : ℕ) (bs : List ℕ)
      → R.read s (suc n) ≡ (t, got bs)
      → (rest s ≡ bs ++ rest t)
        × (length bs ≤ suc n)
        × (bs ≡ [] → rest t ≡ [])
        × (interruptions t ≤ interruptions s)
  pub read_interrupted :
      (s t : R.State) (n : ℕ)
      → R.read s n ≡ (t, interrupted)
      → (rest s ≡ rest t) × (interruptions t < interruptions s)
  pub read_healthy :
      (s t : R.State) (n : ℕ) (r : Read)
      → IsHealthy s
      → R.read s n ≡ (t, r)
      → IsHealthy t × ((e : ℕ) → r ≢ broken e)
  pub exact_got :
      (s t : R.State) (n : ℕ) (bs : List ℕ)
      → R.read_exact s n ≡ (t, exactly bs)
      → (rest s ≡ bs ++ rest t) × (length bs ≡ n)
  pub exact_early :
      (s t : R.State) (n : ℕ) → R.read_exact s n ≡ (t, early_end) → length (rest s) < n
  pub exact_healthy :
      (s t : R.State) (n : ℕ) (r : Exact)
      → IsHealthy s
      → R.read_exact s n ≡ (t, r)
      → IsHealthy t × ((e : ℕ) → r ≢ exact_broken e)

pub record Writer : Type 1 where
  pub State : Type 0
  pub write_all : State → List ℕ → Option State
  pub flush : State → Option State

-- What is written stays written, in its order.
pub record IsFaithful (W : Writer) : Type 0 where
  pub written : W.State → List ℕ
  pub write_appends :
      (s t : W.State) (bs : List ℕ) → W.write_all s bs ≡ some t → written t ≡ written s ++ bs
  pub flush_keeps : (s t : W.State) → W.flush s ≡ some t → written t ≡ written s

module _ (R : Reader) where
  pub data Filled : Type 0 where
    filled : R.State → List ℕ → Filled
    failed : ℕ → Filled
    exhausted : Filled

  abbrev pub prepend : List ℕ → Filled → Filled
  prepend bs (filled t cs) = filled t (bs ++ cs)
  prepend bs (failed e) = failed e
  prepend bs exhausted = exhausted

  -- Reads until `n` bytes are there or the stream ends, and again after an interruption. The fuel
  -- bounds the calls.
  unfoldable pub fill : ℕ → R.State → ℕ → Filled
  fill fuel s zero = filled s []
  fill zero s (suc n) = exhausted
  fill (suc fuel) s (suc n) =
      let (t, r) = R.read s (suc n) in
      elim r [
        | got bs ↦ elim bs [
          | [] ↦ filled t []
          | b ∷ cs ↦ prepend (b ∷ cs) (fill fuel t (n - length cs))
        ]
        | interrupted ↦ fill fuel t (suc n)
        | broken e ↦ failed e
      ]

Read-cases :
    (r : Read)
    → (r ≡ got [])
      ⊎ (((b : ℕ) × (cs : List ℕ) × (r ≡ got (b ∷ cs)))
          ⊎ ((r ≡ interrupted) ⊎ ((e : ℕ) × (r ≡ broken e))))
Read-cases (got []) = inl refl
Read-cases (got (b ∷ cs)) = inr (inl (b, cs, refl))
Read-cases interrupted = inr (inr (inl refl))
Read-cases (broken e) = inr (inr (inr (e, refl)))

pub Exact-cases :
    (r : Exact)
    → ((bs : List ℕ) × (r ≡ exactly bs)) ⊎ ((r ≡ early_end) ⊎ ((e : ℕ) × (r ≡ exact_broken e)))
Exact-cases (exactly bs) = inl (bs, refl)
Exact-cases early_end = inr (inl refl)
Exact-cases (exact_broken e) = inr (inr (e, refl))

module _ (R : Reader) where
  pub Filled-cases :
      (o : Filled R)
      → ((t : R.State) × (bs : List ℕ) × (o ≡ filled t bs))
        ⊎ (((e : ℕ) × (o ≡ failed e)) ⊎ (o ≡ exhausted))
  Filled-cases (filled t bs) = inl (t, bs, refl)
  Filled-cases (failed e) = inr (inl (e, refl))
  Filled-cases exhausted = inr (inr refl)

module _ (R : Reader) (L : IsLawful R) where
  open L use {rest, interruptions, IsHealthy}

  result : (s : R.State) (n : ℕ) (r : Read) → (R.read s n).1 ≡ r → R.read s n ≡ ((R.read s n).0, r)
  result s n r h = ap (λ q. ((R.read s n).0, q)) h

  -- What a filled buffer holds is what comes next in the stream, and it is full unless the stream has
  -- ended.
  pub fill_lem :
      (fuel : ℕ) (s t : R.State) (n : ℕ) (bs : List ℕ)
      → fill R fuel s n ≡ filled t bs
      → (rest s ≡ bs ++ rest t) × (length bs ≤ n) × (length bs < n → rest t ≡ [])
  unfolding fill
  fill_lem fuel s t zero bs h = ground arith
  fill_lem zero s t (suc n) bs h = absurd (ground arith)
  fill_lem (suc fuel) s t (suc n) bs h = elim (Read-cases (R.read s (suc n)).1) [
    | inl p ↦
        let (a, b, c, d) = L.read_got s (R.read s (suc n)).0 n [] (result s (suc n) (got []) p) in
        ground (arith, c refl)
    | inr (inl (b, cs, p)) ↦
        let u = (R.read s (suc n)).0 in
        let (a, l, c, d) = L.read_got s u n (b ∷ cs) (result s (suc n) (got (b ∷ cs)) p) in
        elim (Filled-cases R (fill R fuel u (n - length cs))) [
          | inl (v, ds, q) ↦
              let ih = fill_lem fuel u v (n - length cs) ds q in
              ground (arith, length-append (b ∷ cs) ds, append_assoc (b ∷ cs) ds (rest v))
          | inr (inl (e, q)) ↦ absurd (ground arith)
          | inr (inr q) ↦ absurd (ground arith)
        ]
    | inr (inr (inl p)) ↦
        let (a, d) =
          L.read_interrupted s (R.read s (suc n)).0 (suc n) (result s (suc n) interrupted p) in
        ground (arith, fill_lem fuel (R.read s (suc n)).0 t (suc n) bs)
    | inr (inr (inr (e, p))) ↦ absurd (ground arith)
  ]

  -- With fuel for the bytes and the interruptions the buffer is filled, or the reader has failed.
  pub fill_ends :
      (fuel : ℕ) (s : R.State) (n : ℕ) → n + interruptions s ≤ fuel → fill R fuel s n ≢ exhausted
  unfolding fill
  fill_ends fuel s zero h = λ e. cc
  fill_ends zero s (suc n) h = absurd (omega arith)
  fill_ends (suc fuel) s (suc n) h = elim (Read-cases (R.read s (suc n)).1) [
    | inl p ↦ λ e. ground arith
    | inr (inl (b, cs, p)) ↦
        let u = (R.read s (suc n)).0 in
        let (a, l, c, d) = L.read_got s u n (b ∷ cs) (result s (suc n) (got (b ∷ cs)) p) in
        let ih = fill_ends fuel u (n - length cs) (omega arith) in
        λ e. elim (Filled-cases R (fill R fuel u (n - length cs))) [
          | inl (v, ds, q) ↦ ground arith
          | inr (inl (x, q)) ↦ ground arith
          | inr (inr q) ↦ ih q
        ]
    | inr (inr (inl p)) ↦
        let u = (R.read s (suc n)).0 in
        let (a, d) = L.read_interrupted s u (suc n) (result s (suc n) interrupted p) in
        let ih = fill_ends fuel u (suc n) (omega arith) in λ e. ih (ground arith)
    | inr (inr (inr (x, p))) ↦ λ e. ground arith
  ]

  -- A healthy reader does not fail, and is healthy afterwards.
  pub fill_healthy :
      (fuel : ℕ) (s : R.State) (n : ℕ)
      → IsHealthy s
      → ((e : ℕ) → fill R fuel s n ≢ failed e)
        × ((t : R.State) (bs : List ℕ) → fill R fuel s n ≡ filled t bs → IsHealthy t)
  unfolding fill
  fill_healthy fuel s zero h =
      (λ e q. ground arith, λ t bs q. let same : s ≡ t = ground arith in subst IsHealthy same h)
  fill_healthy zero s (suc n) h = (λ e q. ground arith, λ t bs q. absurd (ground arith))
  fill_healthy (suc fuel) s (suc n) h =
      let u = (R.read s (suc n)).0 in
      let (k, never) = L.read_healthy s u (suc n) (R.read s (suc n)).1 h refl in
      elim (Read-cases (R.read s (suc n)).1) [
        | inl p ↦ (
          λ e q. ground arith,
          λ t bs q. let same : u ≡ t = ground arith in subst IsHealthy same k,
        )
        | inr (inl (b, cs, p)) ↦
            let (x, y) = fill_healthy fuel u (n - length cs) k in
            elim (Filled-cases R (fill R fuel u (n - length cs))) [
              | inl (v, ds, q) ↦ (
                λ e z. ground arith,
                λ t bs z. let same : v ≡ t = ground arith in subst IsHealthy same (y v ds q),
              )
              | inr (inl (e, q)) ↦ absurd (x e q)
              | inr (inr q) ↦ (λ e z. ground arith, λ t bs z. absurd (ground arith))
            ]
        | inr (inr (inl p)) ↦
            let (x, y) = fill_healthy fuel u (suc n) k in
            (λ e q. x e (ground arith), λ t bs q. y t bs (ground arith))
        | inr (inr (inr (e, p))) ↦ absurd (never e p)
      ]

  pub fill_interruptions :
      (fuel : ℕ) (s t : R.State) (n : ℕ) (bs : List ℕ)
      → fill R fuel s n ≡ filled t bs
      → interruptions t ≤ interruptions s
  unfolding fill
  fill_interruptions fuel s t zero bs h =
      let same : s ≡ t = ground arith in
      subst (λ z. interruptions z ≤ interruptions s) same (omega arith)
  fill_interruptions zero s t (suc n) bs h = absurd (ground arith)
  fill_interruptions (suc fuel) s t (suc n) bs h =
      let u = (R.read s (suc n)).0 in
      elim (Read-cases (R.read s (suc n)).1) [
        | inl p ↦
            let (a, b, c, d) = L.read_got s u n [] (result s (suc n) (got []) p) in
            let same : u ≡ t = ground arith in subst (λ z. interruptions z ≤ interruptions s) same d
        | inr (inl (b, cs, p)) ↦
            let (a, l, c, d) = L.read_got s u n (b ∷ cs) (result s (suc n) (got (b ∷ cs)) p) in
            elim (Filled-cases R (fill R fuel u (n - length cs))) [
              | inl (v, ds, q) ↦
                  let ih = fill_interruptions fuel u v (n - length cs) ds q in
                  let same : v ≡ t = ground arith in
                  subst (λ z. interruptions z ≤ interruptions s) same (omega arith)
              | inr (inl (e, q)) ↦ absurd (ground arith)
              | inr (inr q) ↦ absurd (ground arith)
            ]
        | inr (inr (inl p)) ↦
            let (a, d) = L.read_interrupted s u (suc n) (result s (suc n) interrupted p) in
            let ih = fill_interruptions fuel u t (suc n) bs (ground arith) in omega arith
        | inr (inr (inr (e, p))) ↦ absurd (ground arith)
      ]
