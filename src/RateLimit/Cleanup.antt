-- ===== src/RateLimit/Cleanup.antt =====
-- What the hourly cleanup does to a sliding window, and what the keys do to one another.
use pre_code.Common.{
  ℕ, ◌+◌, ◌<◌, ◌≡◌, refl, ap, ◌∙◌, false, none, some, [], String, IsDict, lookup, insert, retain,
  lookup-insert, lookup-erase, lookup-retain, insert-IsDict, leb, str_eq, str_eq_refl, lt→leb,
}
use pre_code.RateLimit.{
  Limiter, Algorithm, WindowBucket, sliding_window, get_or_create_bucket, bucket_or_new, allow_key,
  allow_bucket, cleanup, reset_key, hour,
}

-- A call for one key leaves the bucket of every other key as it was; resetting one key forgets it
-- and no other.
pub allow_key-others :
    (key j : String) (now : ℕ) (l : Limiter)
    → str_eq key j ≡ false
    → (lookup j (allow_key key now l).0.buckets ≡ lookup j l.buckets)
      × (lookup j (reset_key key l).buckets ≡ lookup j l.buckets)
      × (lookup key (reset_key key l).buckets ≡ none)
unfolding allow_key reset_key
allow_key-others key j now l n =
    (rw (lookup-insert, n) refl, rw (lookup-erase, n) refl, rw (lookup-erase, str_eq_refl key) refl)

last_refill-sliding :
    (a : Algorithm) (limit window now : ℕ) (b : WindowBucket)
    → a ≡ sliding_window
    → (allow_bucket a limit window now b).0.last_refill ≡ b.last_refill
unfolding allow_bucket
last_refill-sliding a limit window now b e = rw (e, allow_bucket) refl

-- In a limiter by sliding window, whose keys have one bucket each: a call does not renew the time
-- that `cleanup` looks at. So a key whose bucket was created more than an hour ago loses it, and
-- with it the count of its calls, at a tick right behind a call of this key.
pub cleanup-drops_active :
    (key : String) (now : ℕ) (l : Limiter) (b : WindowBucket)
    → l.algorithm ≡ sliding_window
    → IsDict l.buckets
    → lookup key l.buckets ≡ some b
    → b.last_refill + hour < now
    → (lookup key (cleanup now (allow_key key now l).0).buckets ≡ none)
      × ((get_or_create_bucket key now (cleanup now (allow_key key now l).0)).requests ≡ [])
unfolding allow_key cleanup get_or_create_bucket allow_bucket
cleanup-drops_active key now l b a d y old = (gone, rw (gone, bucket_or_new) refl)
  where
    b' : WindowBucket
    b' = (allow_bucket l.algorithm l.limit l.window now (get_or_create_bucket key now l)).0

    present : get_or_create_bucket key now l ≡ b
    present = rw (y, bucket_or_new) refl

    same : b'.last_refill ≡ b.last_refill
    same =
        last_refill-sliding l.algorithm l.limit l.window now (get_or_create_bucket key now l) a
        ∙ ap (λ (c : WindowBucket). c.last_refill) present

    gone :
        lookup key (retain (λ k c. leb now (c.last_refill + hour)) (insert key b' l.buckets)) ≡ none
    gone =
        lookup-retain (λ k c. leb now (c.last_refill + hour)) key (insert key b' l.buckets)
          (insert-IsDict key b' l.buckets d)
        ∙ simp (lookup-insert, str_eq_refl key) (rw same (rw (lt→leb _ _ old) refl))
