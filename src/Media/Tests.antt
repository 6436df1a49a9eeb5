-- ===== src/Media/Tests.antt =====
-- Two jobs where one may run, crates/media/src/exec.rs.
use cloud_desk_os.Prelude.{◌+◌, ◌≤◌, ◌≡◌, refl, [], ◌∷◌}
use cloud_desk_os.Media.Limiter.{
  JobLimiter, new, enter, try_acquire, drop_permit, world, enters, takes, misses, drops, Reach,
  here, next,
}
use cloud_desk_os.Media.Concurrent.{count, active, Reach-limits}

abbrev taken : JobLimiter
taken = (try_acquire (enter "u1" (new 1 2)).1).1

abbrev missed : JobLimiter
missed = (try_acquire (enter "u2" taken).1).1

-- The second job finds no permit; the first one ends before the second gives its count back.
crossing :
    Reach (world (new 1 2) [] [] [] []) (world (drop_permit missed) [] [] ("u2" ∷ []) ("u1" ∷ []))
unfolding enter try_acquire
crossing =
    next
      (next
        (next
          (next (next here (enters "u1" (new 1 2) [] [] [] [] refl))
            (takes "u1" (enter "u1" (new 1 2)).1 [] [] [] [] [] refl))
          (enters "u2" taken [] ("u1" ∷ []) [] [] refl))
        (misses "u2" (enter "u2" taken).1 [] [] ("u1" ∷ []) [] [] refl))
      (drops "u1" missed [] [] [] ("u2" ∷ []) [])

frees_permit : (drop_permit missed).global ≡ 1
unfolding enter try_acquire drop_permit
frees_permit = refl

Reach-limits_example :
    ((drop_permit missed).global + 0 ≡ 1)
    × (count "u2" [] ≤ 2)
    × (active (drop_permit missed) "u2"
        ≡ count "u2" [] + count "u2" [] + count "u2" ("u2" ∷ []) + count "u2" ("u1" ∷ []))
Reach-limits_example =
    Reach-limits 1 2 (drop_permit missed) [] [] ("u2" ∷ []) ("u1" ∷ []) "u2" crossing
