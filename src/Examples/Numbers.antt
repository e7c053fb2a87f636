-- ===== src/Examples/Numbers.antt =====
-- Short numbers for two devices.
use p2p_file.Common.{ℕ, ◌≡◌, refl, true, List, [], ◌∷◌, Option, none, some, take, replicate, arith}
use p2p_file.Identity.{from_hex}
use p2p_file.Discovery.ShortIds.{
  ShortIdStore, AllocationLimits, ok, err, limited, empty_store, register_with_limits, allocate,
  insert, new_short_id, lookup_short_id, bad_identity,
}
use p2p_file.Discovery.ShortIds.Allocation.{IsConsistent, Registered, register_with_limits_lem}

-- A text decodes to its first 16 characters.
abbrev decode : List ℕ → Option (List ℕ)
decode text = some (take 16 text)

abbrev device_a : List ℕ
device_a = replicate 32 b'a'

abbrev one_a_minute : AllocationLimits
one_a_minute = record { max_mappings = 10; per_window = 1 }

empty-IsConsistent : IsConsistent empty_store
empty-IsConsistent = record {
  next_low = omega arith;
  next_high = omega arith;
  used = λ id who h. absurd (ground arith);
  paired = λ id who h. absurd (ground arith);
}

register_with_limits_lem_example :
    Registered decode empty_store device_a
      (register_with_limits device_a one_a_minute true 100 true empty_store)
register_with_limits_lem_example =
    register_with_limits_lem decode device_a one_a_minute true 100 true empty_store
      empty-IsConsistent

abbrev after_first : ShortIdStore
after_first = record {
  mappings =
      record {
        device_identity = device_a;
        short_id = 100000000;
        created_at = 100;
        last_seen_at = 100;
      }
      ∷ [];
  next_id = 100000001;
  window_started = 100;
  allocations = 1;
}

first_number :
    register_with_limits device_a one_a_minute true 100 true empty_store
    ≡ (after_first, ok 100000000)
unfolding register_with_limits allocate insert new_short_id
first_number = refl

second_waits :
    register_with_limits (b'b' ∷ []) one_a_minute true 159 true after_first
    ≡ (after_first, err limited)
unfolding register_with_limits allocate insert new_short_id
second_waits = refl

looked_up : lookup_short_id decode after_first 100000000 ≡ ok (some (replicate 16 b'a'))
unfolding lookup_short_id from_hex
looked_up = refl

not_given : lookup_short_id decode after_first 100000001 ≡ ok none
unfolding lookup_short_id
not_given = refl

unreadable_identity : lookup_short_id (λ text. none) after_first 100000000 ≡ err bad_identity
unfolding lookup_short_id from_hex
unreadable_identity = refl
