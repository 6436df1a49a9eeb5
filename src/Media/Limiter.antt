-- ===== src/Media/Limiter.antt =====
-- `JobLimiter` of crates/media/src/exec.rs, by the sections between which other tasks may run: the
-- two locks of `acquire` with the try on the semaphore between them, and the two parts of the drop
-- of a `JobPermit`.
use cloud_desk_os.Prelude.{
  ℕ, zero, suc, ◌+◌, Bool, true, false, Option, none, some, List, ◌∷◌, ◌++◌, ◌≡◌, String, str_eq,
  leb, ◌==◌, if◌then◌else◌,
}

-- The permits that the semaphore has left, and the map of counts.
pub record JobLimiter : Type 0 where
  pub global : ℕ
  pub per_user_max : ℕ
  pub active_by_user : String → Option ℕ

abbrev pub new : ℕ → ℕ → JobLimiter
new global_max per_user_max = record {
  global = global_max;
  per_user_max = per_user_max;
  active_by_user = λ user. none;
}

abbrev pub or_zero : Option ℕ → ℕ
or_zero none = 0
or_zero (some count) = count

unfoldable pub set_entry : String → Option ℕ → JobLimiter → JobLimiter
set_entry user entry l = record l {
  active_by_user = λ u. if str_eq u user then entry else l.active_by_user u;
}

-- The first section of `acquire`: whether the user may have one more.
unfoldable pub enter : String → JobLimiter → Bool × JobLimiter
unfolding set_entry
enter user l =
    let count = or_zero (l.active_by_user user) in
    if leb l.per_user_max count
    then (false, set_entry user (some count) l)
    else (true, set_entry user (some (count + 1)) l)

-- `try_acquire_owned`.
unfoldable pub try_permit : ℕ → Bool × ℕ
try_permit zero = (false, zero)
try_permit (suc permits) = (true, permits)

unfoldable pub try_acquire : JobLimiter → Bool × JobLimiter
unfolding try_permit
try_acquire l = let (taken, left) = try_permit l.global in (taken, record l { global = left })

-- `saturating_sub(1)`.
abbrev pub less_one : ℕ → ℕ
less_one zero = zero
less_one (suc count) = count

-- The second lock of `acquire`, after the semaphore had no permit.
unfoldable pub leave : String → JobLimiter → JobLimiter
unfolding set_entry
leave user l = elim (l.active_by_user user) [
  | none ↦ l
  | some count ↦ set_entry user (some (less_one count)) l
]

-- The drop of a permit: the task that it spawns, and the permit that goes back to the semaphore.
unfoldable pub drop_count : String → JobLimiter → JobLimiter
unfolding set_entry
drop_count user l = elim (l.active_by_user user) [
  | none ↦ l
  | some count ↦ set_entry user (if less_one count == 0 then none else some (less_one count)) l
]

unfoldable pub drop_permit : JobLimiter → JobLimiter
drop_permit l = record l { global = l.global + 1 }

-- The limiter, with the users of the tasks that are between the two sections of `acquire`, of the
-- permits that are held, of the tasks before the second lock, and of the spawned tasks. The two parts
-- of a drop, that the task is spawned and that the permit goes back, are one step; that an `acquire`
-- is cancelled between its sections is not modelled.
pub data World : Type 0 where
  world : JobLimiter → List String → List String → List String → List String → World

pub data Step : World → World → Type 0 where
  enters :
      (user : String) (l : JobLimiter) (trying held leaving dropping : List String)
      → (enter user l).0 ≡ true
      → Step
          (world l trying held leaving dropping)
          (world (enter user l).1 (user ∷ trying) held leaving dropping)
  refused :
      (user : String) (l : JobLimiter) (trying held leaving dropping : List String)
      → (enter user l).0 ≡ false
      → Step
          (world l trying held leaving dropping)
          (world (enter user l).1 trying held leaving dropping)
  takes :
      (user : String) (l : JobLimiter) (before after held leaving dropping : List String)
      → (try_acquire l).0 ≡ true
      → Step
          (world l (before ++ user ∷ after) held leaving dropping)
          (world (try_acquire l).1 (before ++ after) (user ∷ held) leaving dropping)
  misses :
      (user : String) (l : JobLimiter) (before after held leaving dropping : List String)
      → (try_acquire l).0 ≡ false
      → Step
          (world l (before ++ user ∷ after) held leaving dropping)
          (world (try_acquire l).1 (before ++ after) held (user ∷ leaving) dropping)
  leaves :
      (user : String) (l : JobLimiter) (trying held before after dropping : List String)
      → Step
          (world l trying held (before ++ user ∷ after) dropping)
          (world (leave user l) trying held (before ++ after) dropping)
  drops :
      (user : String) (l : JobLimiter) (trying before after leaving dropping : List String)
      → Step
          (world l trying (before ++ user ∷ after) leaving dropping)
          (world (drop_permit l) trying (before ++ after) leaving (user ∷ dropping))
  dropped :
      (user : String) (l : JobLimiter) (trying held leaving before after : List String)
      → Step
          (world l trying held leaving (before ++ user ∷ after))
          (world (drop_count user l) trying held leaving (before ++ after))

pub data Reach (s : World) : World → Type 0 where
  here : Reach s s
  next : {t u : World} → Reach s t → Step t u → Reach s u
