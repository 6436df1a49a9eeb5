-- ===== src/Media/Concurrent.antt =====
-- What `JobLimiter` of crates/media/src/exec.rs keeps, however its tasks take turns.
use cloud_desk_os.Prelude.{
  ℕ, zero, suc, ◌+◌, ◌≤◌, ◌<◌, true, false, Option, none, some, List, [], ◌∷◌, ◌++◌, ◌≡◌, refl, sym,
  subst, String, str_eq, eq_iff, leb, if◌then◌else◌, length, arith, Bool-cases, inl, inr,
}
use cloud_desk_os.Media.Limiter.{
  JobLimiter, new, or_zero, set_entry, enter, try_permit, try_acquire, leave, drop_count,
  drop_permit, World, world, Step, enters, refused, takes, misses, leaves, drops, dropped, Reach,
  here, next,
}

-- How often a user stands in a list.
abbrev same_user : String → String → ℕ
same_user user u = if str_eq user u then 1 else 0

abbrev pub count : String → List String → ℕ
count user [] = 0
count user (u ∷ us) = same_user user u + count user us

-- What the map says of a user.
abbrev pub active : JobLimiter → String → ℕ
active l user = or_zero (l.active_by_user user)

count-middle :
    (user u : String) (us vs : List String)
    → count user (us ++ u ∷ vs) ≡ same_user user u + count user (us ++ vs)
count-middle user u [] vs = refl
count-middle user u (v ∷ us) vs = omega (arith, count-middle user u us vs)

length-middle : (u : String) (us vs : List String) → length (us ++ u ∷ vs) ≡ suc (length (us ++ vs))
length-middle u [] vs = refl
length-middle u (v ∷ us) vs = omega (arith, length-middle u us vs)

-- A new entry changes the count of its user alone.
active-set_entry :
    (user u : String) (entry : Option ℕ) (l : JobLimiter) (more less : ℕ)
    → or_zero entry + less ≡ active l u + more
    → active (set_entry u entry l) user + (if str_eq user u then less else 0)
      ≡ active l user + (if str_eq user u then more else 0)
unfolding set_entry
active-set_entry user u entry l more less h = elim (Bool-cases (str_eq user u)) [
  | inr other ↦ rw other refl
  | inl same ↦
      rw same
        (subst (λ v. or_zero entry + less ≡ active l v + more) (sym ((eq_iff user u).0 same)) h)
]

same_self : (u : String) → same_user u u ≡ 1
same_self u = rw ((eq_iff u u).1 refl) refl

room_for :
    (user u : String) (l : JobLimiter) (most : ℕ)
    → active l u < most
    → active l user ≤ most
    → active l user + same_user user u ≤ most
room_for user u l most room fits = elim (Bool-cases (str_eq user u)) [
  | inr other ↦ rw other (omega (arith, fits))
  | inl same ↦
      rw same
        (subst (λ v. active l v + 1 ≤ most) (sym ((eq_iff user u).0 same)) (omega (arith, room)))
]

-- The semaphore gives a permit, or stays as it is.
taken_lem : (l : JobLimiter) → (try_acquire l).0 ≡ true → suc (try_acquire l).1.global ≡ l.global
unfolding try_acquire try_permit
taken_lem l h = by_permits l.global h
  where
    by_permits : (n : ℕ) → (try_permit n).0 ≡ true → suc (try_permit n).1 ≡ n
    by_permits zero h = cc
    by_permits (suc n) h = refl

missed_lem : (l : JobLimiter) → (try_acquire l).0 ≡ false → (try_acquire l).1.global ≡ l.global
unfolding try_acquire try_permit
missed_lem l h = by_permits l.global h
  where
    by_permits : (n : ℕ) → (try_permit n).0 ≡ false → (try_permit n).1 ≡ n
    by_permits zero h = refl
    by_permits (suc n) h = cc

record Enters (user u : String) (l l' : JobLimiter) : Type 0 where
  counted : active l' user ≡ active l user + same_user user u
  room : active l u < l.per_user_max
  same_global : l'.global ≡ l.global
  same_max : l'.per_user_max ≡ l.per_user_max

enter-Enters :
    (user u : String) (l : JobLimiter) → (enter u l).0 ≡ true → Enters user u l (enter u l).1
unfolding enter
enter-Enters user u l h = elim (Bool-cases (leb l.per_user_max (active l u))) [
  | inl full ↦ absurd (ground (arith, full, h))
  | inr room ↦ rw room (record {
    counted = ground (arith, active-set_entry user u (some (active l u + 1)) l 1 0);
    room = ground arith;
    same_global = unfold set_entry in refl;
    same_max = unfold set_entry in refl;
  })
]

-- The counts of a limiter after one less for a user, and the rest as it was.
record Leaves (user u : String) (l l' : JobLimiter) : Type 0 where
  counted : active l' user + same_user user u ≡ active l user
  same_global : l'.global ≡ l.global
  same_max : l'.per_user_max ≡ l.per_user_max

leave-Leaves : (user u : String) (l : JobLimiter) → 1 ≤ active l u → Leaves user u l (leave u l)
unfolding leave
leave-Leaves user u l h = by_entry (l.active_by_user u) refl
  where
    by_entry : (o : Option ℕ) → l.active_by_user u ≡ o → Leaves user u l (leave u l)
    by_entry none e = absurd (omega (arith, subst (λ o. 1 ≤ or_zero o) e h))
    by_entry (some zero) e = absurd (omega (arith, subst (λ o. 1 ≤ or_zero o) e h))
    by_entry (some (suc n)) e =
        rw (leave, e)
          (record {
            counted = ground (arith, active-set_entry user u (some n) l 0 1 (rw e (omega arith)));
            same_global = unfold set_entry in refl;
            same_max = unfold set_entry in refl;
          })

drop_count-Leaves :
    (user u : String) (l : JobLimiter) → 1 ≤ active l u → Leaves user u l (drop_count u l)
unfolding drop_count
drop_count-Leaves user u l h = by_entry (l.active_by_user u) refl
  where
    by_entry : (o : Option ℕ) → l.active_by_user u ≡ o → Leaves user u l (drop_count u l)
    by_entry none e = absurd (omega (arith, subst (λ o. 1 ≤ or_zero o) e h))
    by_entry (some zero) e = absurd (omega (arith, subst (λ o. 1 ≤ or_zero o) e h))
    by_entry (some (suc zero)) e =
        rw (drop_count, e)
          (record {
            counted = ground (arith, active-set_entry user u none l 0 1 (rw e (omega arith)));
            same_global = unfold set_entry in refl;
            same_max = unfold set_entry in refl;
          })
    by_entry (some (suc (suc n))) e =
        rw (drop_count, e)
          (record {
            counted =
                ground (arith, active-set_entry user u (some (suc n)) l 0 1 (rw e (omega arith)));
            same_global = unfold set_entry in refl;
            same_max = unfold set_entry in refl;
          })

-- A refusal leaves every count as it was.
refused_lem :
    (user u : String) (l : JobLimiter)
    → (enter u l).0 ≡ false
    → (active (enter u l).1 user ≡ active l user)
      × ((enter u l).1.global ≡ l.global)
      × ((enter u l).1.per_user_max ≡ l.per_user_max)
unfolding enter
refused_lem user u l h = elim (Bool-cases (leb l.per_user_max (active l u))) [
  | inr room ↦ absurd (ground (arith, room, h))
  | inl full ↦ rw full (
    ground (arith, active-set_entry user u (some (active l u)) l 0 0),
    unfold set_entry in refl,
    unfold set_entry in refl,
  )
]

-- What holds of the counts and of the permits, with the limits of `new`.
pub record Fits (global_max per_user_max : ℕ) (l : JobLimiter)
    (trying held leaving dropping : List String) : Type 0 where
  pub max_kept : l.per_user_max ≡ per_user_max
  pub permits : l.global + length held ≡ global_max
  pub counted :
      (user : String)
      → active l user
        ≡ count user trying + count user held + count user leaving + count user dropping
  pub limited : (user : String) → active l user ≤ per_user_max

abbrev pub IsWithin : ℕ → ℕ → World → Type 0
IsWithin global_max per_user_max (world l trying held leaving dropping) =
    Fits global_max per_user_max l trying held leaving dropping

module _ (g m : ℕ) where
  Step-IsWithin : {s t : World} → Step s t → IsWithin g m s → IsWithin g m t
  Step-IsWithin (enters u l trying held leaving dropping h) fits =
      let e = λ (user : String). enter-Enters user u l h in
      record {
        max_kept = omega (arith, (e u).same_max, fits.max_kept);
        permits = omega (arith, (e u).same_global, fits.permits);
        counted = λ user. omega (arith, (e user).counted, fits.counted user);
        limited = λ user.
            rw (e user).counted
              (room_for user u l m (omega (arith, (e u).room, fits.max_kept)) (fits.limited user));
      }
  Step-IsWithin (refused u l trying held leaving dropping h) fits =
      let e = λ (user : String). refused_lem user u l h in
      record {
        max_kept = omega (arith, (e u).2, fits.max_kept);
        permits = omega (arith, (e u).1, fits.permits);
        counted = λ user. omega (arith, (e user).0, fits.counted user);
        limited = λ user. omega (arith, (e user).0, fits.limited user);
      }
  Step-IsWithin (takes u l before after held leaving dropping h) fits = record {
    max_kept = unfold try_acquire in fits.max_kept;
    permits = omega (arith, taken_lem l h, fits.permits);
    counted = λ user.
        unfold try_acquire in omega (arith, fits.counted user, count-middle user u before after);
    limited = λ user. unfold try_acquire in fits.limited user;
  }
  Step-IsWithin (misses u l before after held leaving dropping h) fits = record {
    max_kept = unfold try_acquire in fits.max_kept;
    permits = omega (arith, missed_lem l h, fits.permits);
    counted = λ user.
        unfold try_acquire in omega (arith, fits.counted user, count-middle user u before after);
    limited = λ user. unfold try_acquire in fits.limited user;
  }
  Step-IsWithin (leaves u l trying held before after dropping) fits =
      let e = λ (user : String).
        leave-Leaves user u l
          (omega (arith, fits.counted u, count-middle u u before after, same_self u)) in
      record {
        max_kept = omega (arith, (e u).same_max, fits.max_kept);
        permits = omega (arith, (e u).same_global, fits.permits);
        counted = λ user.
            omega (arith, (e user).counted, fits.counted user, count-middle user u before after);
        limited = λ user. omega (arith, (e user).counted, fits.limited user);
      }
  Step-IsWithin (drops u l trying before after leaving dropping) fits = record {
    max_kept = unfold drop_permit in fits.max_kept;
    permits = unfold drop_permit in omega (arith, fits.permits, length-middle u before after);
    counted = λ user.
        unfold drop_permit in omega (arith, fits.counted user, count-middle user u before after);
    limited = λ user. unfold drop_permit in fits.limited user;
  }
  Step-IsWithin (dropped u l trying held leaving before after) fits =
      let e = λ (user : String).
        drop_count-Leaves user u l
          (omega (arith, fits.counted u, count-middle u u before after, same_self u)) in
      record {
        max_kept = omega (arith, (e u).same_max, fits.max_kept);
        permits = omega (arith, (e u).same_global, fits.permits);
        counted = λ user.
            omega (arith, (e user).counted, fits.counted user, count-middle user u before after);
        limited = λ user. omega (arith, (e user).counted, fits.limited user);
      }

  Reach-IsWithin : {s t : World} → Reach s t → IsWithin g m s → IsWithin g m t
  Reach-IsWithin here fits = fits
  Reach-IsWithin (next r step) fits = Step-IsWithin step (Reach-IsWithin r fits)

  new-IsWithin : IsWithin g m (world (new g m) [] [] [] [])
  new-IsWithin = record {
    max_kept = refl;
    permits = omega arith;
    counted = λ user. refl;
    limited = λ user. omega arith;
  }

  -- However requests, failures and ends of jobs take turns, every permit of the semaphore is held or
  -- free, so that at most the global limit are held; one user holds at most the limit for a user;
  -- and no count is lost: that of a user is the number of the permits that the user holds, and of
  -- the user's tasks that are under way.
  pub Reach-limits :
      (l : JobLimiter) (trying held leaving dropping : List String) (user : String)
      → Reach (world (new g m) [] [] [] []) (world l trying held leaving dropping)
      → (l.global + length held ≡ g)
        × (count user held ≤ m)
        × (active l user
            ≡ count user trying + count user held + count user leaving + count user dropping)
  Reach-limits l trying held leaving dropping user r =
      let fits = Reach-IsWithin r new-IsWithin in
      (fits.permits, omega (arith, fits.counted user, fits.limited user), fits.counted user)
