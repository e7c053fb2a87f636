-- ===== src/Discovery/ShortIds/Allocation.antt =====
-- What a registration does to the numbers.
use p2p_file.Common.{
  ℕ, ◌+◌, ◌-◌, ◌≤◌, ◌<◌, ◌≡◌, refl, sym, ◌∙◌, subst, ◌⊎◌, inl, inr, Bool, not, List, [], ◌∷◌,
  Option, none, some, if◌then◌else◌, ltb, leb, ◌==◌, arith, Bool-cases, Option-cases, if_lem,
  ==_iff,
}
use p2p_file.Common.Bytes.{same_bytes, same_bytes_iff}
use p2p_file.Identity.{from_hex}
use p2p_file.Discovery.ShortIds.{
  ShortIdStore, Mapping, AllocationLimits, Error, Result, ok, err, first_short_id, last_short_id,
  id_of, identity_of, touch, insert, new_short_id, allocate, register_with_limits, lookup_short_id,
  converted, database, limited, not_admitted, exhausted, mappings_full,
}

-- The numbers given are those below the next one, and the two columns agree.
pub record IsConsistent (s : ShortIdStore) : Type 0 where
  pub next_low : first_short_id ≤ s.next_id
  pub next_high : s.next_id ≤ last_short_id + 1
  pub used :
      (id : ℕ) (who : List ℕ)
      → identity_of s.mappings id ≡ some who
      → (first_short_id ≤ id) × (id < s.next_id)
  pub paired :
      (id : ℕ) (who : List ℕ)
      → id_of s.mappings who ≡ some id
      → identity_of s.mappings id ≡ some who

identity_of-touch :
    (now : ℕ) (who : List ℕ) (ms : List Mapping) (id : ℕ)
    → identity_of (touch now who ms) id ≡ identity_of ms id
identity_of-touch now who [] id = refl
identity_of-touch now who (m ∷ ms) id = elim (Bool-cases (same_bytes m.device_identity who)) [
  | inl e ↦ ground (arith, e, identity_of-touch now who ms id)
  | inr e ↦ ground (arith, e, identity_of-touch now who ms id)
]

id_of-touch :
    (now : ℕ) (who : List ℕ) (ms : List Mapping) (x : List ℕ)
    → id_of (touch now who ms) x ≡ id_of ms x
id_of-touch now who [] x = refl
id_of-touch now who (m ∷ ms) x = elim (Bool-cases (same_bytes m.device_identity who)) [
  | inl e ↦ ground (arith, e, id_of-touch now who ms x)
  | inr e ↦ ground (arith, e, id_of-touch now who ms x)
]

touched :
    (now : ℕ) (who : List ℕ) (s : ShortIdStore)
    → IsConsistent s
    → IsConsistent (record s { mappings = touch now who s.mappings })
touched now who s v = record {
  next_low = v.next_low;
  next_high = v.next_high;
  used = λ id x h. v.used id x (sym (identity_of-touch now who s.mappings id) ∙ h);
  paired = λ id x h.
      identity_of-touch now who s.mappings id
      ∙ v.paired id x (sym (id_of-touch now who s.mappings x) ∙ h);
}

added :
    (s : ShortIdStore) (m : Mapping) (started allocations : ℕ)
    → IsConsistent s
    → m.short_id ≡ s.next_id
    → s.next_id ≤ last_short_id
    → IsConsistent (record {
      mappings = m ∷ s.mappings;
      next_id = s.next_id + 1;
      window_started = started;
      allocations = allocations;
    })
added s m started allocations v e l = record {
  next_low = omega (arith, v.next_low);
  next_high = omega arith;
  used = λ id x h. elim (Bool-cases (m.short_id == id)) [
    | inl q ↦ let r = (==_iff m.short_id id).0 q in (omega (arith, v.next_low), omega arith)
    | inr q ↦ let (a, b) = v.used id x (ground arith) in (a, omega arith)
  ];
  paired = λ id x h. elim (Bool-cases (same_bytes m.device_identity x)) [
    | inl q ↦
        let r = (same_bytes_iff m.device_identity x).0 q in
        let c = (==_iff m.short_id id).1 in ground arith
    | inr q ↦ let p = v.paired id x (ground arith) in let (a, b) = v.used id x p in ground arith
  ];
}

-- Every number that was given keeps its identity, and is looked up as before.
abbrev pub Extends : (List ℕ → Option (List ℕ)) → ShortIdStore → ShortIdStore → Type 0
Extends hex_decode s t =
    (id : ℕ) (who : List ℕ)
    → identity_of s.mappings id ≡ some who
    → (identity_of t.mappings id ≡ some who)
      × (lookup_short_id hex_decode t id ≡ lookup_short_id hex_decode s id)

abbrev pub Registered :
    (List ℕ → Option (List ℕ)) → ShortIdStore → List ℕ → ShortIdStore × Result ℕ → Type 0
Registered hex_decode s who (t, r) =
    ((e : Error) × (r ≡ err e) × (t ≡ s))
    ⊎ ((id : ℕ) × (r ≡ ok id)
        × IsConsistent t
        × (first_short_id ≤ id)
        × (id ≤ last_short_id)
        × (identity_of t.mappings id ≡ some who)
        × (lookup_short_id hex_decode t id ≡ converted (from_hex hex_decode who))
        × Extends hex_decode s t
        × ((id_of s.mappings who ≡ some id) ⊎ (id_of s.mappings who ≡ none)))

stored_identity :
    (hex_decode : List ℕ → Option (List ℕ)) (s : ShortIdStore) (id : ℕ) (who : List ℕ)
    → identity_of s.mappings id ≡ some who
    → lookup_short_id hex_decode s id ≡ converted (from_hex hex_decode who)
unfolding lookup_short_id
stored_identity hex_decode s id who h = rw (lookup_short_id, h) refl

-- A store that has the pairs of another looks them up alike.
extended :
    (hex_decode : List ℕ → Option (List ℕ)) (s t : ShortIdStore)
    → ((id : ℕ) (who : List ℕ)
        → identity_of s.mappings id ≡ some who
        → identity_of t.mappings id ≡ some who)
    → Extends hex_decode s t
extended hex_decode s t f id who h = (
  f id who h,
  stored_identity hex_decode t id who (f id who h) ∙ sym (stored_identity hex_decode s id who h),
)

Short-cases : (r : Option (List Mapping)) → (r ≡ none) ⊎ ((ms : List Mapping) × (r ≡ some ms))
Short-cases none = inl refl
Short-cases (some ms) = inr (ms, refl)

insert_lem :
    (ms ns : List Mapping) (m : Mapping)
    → insert ms m ≡ some ns
    → (ns ≡ m ∷ ms) × (identity_of ms m.short_id ≡ none)
unfolding insert
insert_lem ms ns m h = elim (Option-cases (id_of ms m.device_identity)) [
  | inr (i, p) ↦ absurd (ground arith)
  | inl p ↦ elim (Option-cases (identity_of ms m.short_id)) [
    | inr (x, q) ↦ absurd (ground arith)
    | inl q ↦ (ground arith, q)
  ]
]

new_short_id_lem : (n : ℕ) → first_short_id ≤ n → n ≤ last_short_id → new_short_id n ≡ ok n
unfolding new_short_id
new_short_id_lem n a b = ground arith

allocate_lem :
    (hex_decode : List ℕ → Option (List ℕ)) (who : List ℕ) (limits : AllocationLimits)
    (admits : Bool) (now : ℕ) (commits : Bool) (s : ShortIdStore)
    → IsConsistent s
    → s.next_id ≤ last_short_id
    → id_of s.mappings who ≡ none
    → Registered hex_decode s who (allocate who limits admits now commits s)
unfolding allocate
allocate_lem hex_decode who limits admits now commits s v l new =
    let expired = leb 60 (now - s.window_started) in
    let started = if expired then now else s.window_started in
    let allocations = if expired then 0 else s.allocations in
    let m : Mapping = record {
      device_identity = who;
      short_id = s.next_id;
      created_at = now;
      last_seen_at = now;
    } in
    let number = new_short_id_lem s.next_id v.next_low l in
    if_lem (Registered hex_decode s who) (leb limits.per_window allocations) (s, err limited) _
      (λ e. inl (limited, refl, refl))
      (λ e.
        if_lem (Registered hex_decode s who) (not admits) (s, err not_admitted) _
          (λ f. inl (not_admitted, refl, refl))
          (λ f. rw number (elim (Short-cases (insert s.mappings m)) [
            | inl p ↦ rw p (inl (database, refl, refl))
            | inr (ns, p) ↦
                let (q, free) = insert_lem s.mappings ns m p in
                let after : ShortIdStore = record {
                  mappings = m ∷ s.mappings;
                  next_id = s.next_id + 1;
                  window_started = started;
                  allocations = allocations + 1;
                } in
                let here : identity_of (m ∷ s.mappings) s.next_id ≡ some who =
                  ground (arith, ==_iff s.next_id s.next_id) in
                rw (p, q)
                  (if_lem (Registered hex_decode s who) commits _ (s, err database)
                    (λ c. inr (
                      s.next_id,
                      refl,
                      added s m started (allocations + 1) v refl l,
                      v.next_low,
                      l,
                      here,
                      stored_identity hex_decode after s.next_id who here,
                      extended hex_decode s after
                          (λ i x h. let (a, b) = v.used i x h in ground arith),
                      inr new,
                    ))
                    (λ c. inl (database, refl, refl)))
          ])))

unknown :
    (who : List ℕ) (limits : AllocationLimits) (admits : Bool) (now : ℕ) (commits : Bool)
    (s : ShortIdStore)
    → id_of s.mappings who ≡ none
    → register_with_limits who limits admits now commits s ≡ (
        if ltb last_short_id s.next_id
        then (s, err exhausted)
        else (if leb limits.max_mappings (s.next_id - first_short_id)
            then (s, err mappings_full)
            else allocate who limits admits now commits s))
unfolding register_with_limits
unknown who limits admits now commits s p = rw (register_with_limits, p) refl

known :
    (who : List ℕ) (limits : AllocationLimits) (admits : Bool) (now : ℕ) (commits : Bool)
    (s : ShortIdStore) (id : ℕ)
    → id_of s.mappings who ≡ some id
    → new_short_id id ≡ ok id
    → register_with_limits who limits admits now commits s ≡ (
        if commits
        then (record s { mappings = touch now who s.mappings }, ok id)
        else (s, err database))
unfolding register_with_limits
known who limits admits now commits s id p q = rw (register_with_limits, p, q) refl

-- A registration in a consistent store either returns an error and changes nothing, or returns a
-- number of nine digits under which the store, consistent again, has the text of the identity,
-- and lookup converts that text or returns the error of a text that is no identity; every number
-- given before keeps its identity and is looked up as before, and an identity that had a number
-- gets it again.
pub register_with_limits_lem :
    (hex_decode : List ℕ → Option (List ℕ)) (who : List ℕ) (limits : AllocationLimits)
    (admits : Bool) (now : ℕ) (commits : Bool) (s : ShortIdStore)
    → IsConsistent s
    → Registered hex_decode s who (register_with_limits who limits admits now commits s)
unfolding register_with_limits
register_with_limits_lem hex_decode who limits admits now commits s v =
    elim (Option-cases (id_of s.mappings who)) [
      | inr (id, p) ↦
          let pair = v.paired id who p in
          let (a, b) = v.used id who pair in
          subst (Registered hex_decode s who)
            (sym (
              known who limits admits now commits s id p
                (new_short_id_lem id a (omega (arith, v.next_high)))))
            (if_lem (Registered hex_decode s who) commits _ (s, err database)
              (λ c. inr (
                id,
                refl,
                touched now who s v,
                a,
                omega (arith, v.next_high),
                identity_of-touch now who s.mappings id ∙ pair,
                stored_identity hex_decode (record s { mappings = touch now who s.mappings }) id who
                    (identity_of-touch now who s.mappings id ∙ pair),
                extended hex_decode s (record s { mappings = touch now who s.mappings })
                    (λ i x h. identity_of-touch now who s.mappings i ∙ h),
                inl p,
              ))
              (λ c. inl (database, refl, refl)))
      | inl p ↦
          subst (Registered hex_decode s who) (sym (unknown who limits admits now commits s p)) (
            if_lem (Registered hex_decode s who) (ltb last_short_id s.next_id) (s, err exhausted) _
              (λ e. inl (exhausted, refl, refl))
              (λ e.
                if_lem (Registered hex_decode s who)
                  (leb limits.max_mappings (s.next_id - first_short_id)) (s, err mappings_full) _
                  (λ f. inl (mappings_full, refl, refl))
                  (λ f.
                    allocate_lem hex_decode who limits admits now commits s v (ground arith) p)))
    ]
