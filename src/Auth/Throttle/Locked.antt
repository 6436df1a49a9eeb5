-- ===== src/Auth/Throttle/Locked.antt =====
-- What it means that a log-in is not throttled.
use cloud_desk_os.Prelude.{
  ℕ, ◌≡◌, refl, Bool, false, ◌&&◌, ◌||◌, String, List, [], ◌∷◌, ltb, ok, arith, any, Bool-cases,
  Option-cases, inl, inr,
}
use cloud_desk_os.Prelude.Table.{select_where}
use cloud_desk_os.Auth.Model.{account, ip, Bucket, Database}
use cloud_desk_os.Auth.Throttle.{is_bucket, max_locked, is_locked, enforce_rate_limit}

-- A time is before the latest lock exactly if it is before some lock.
pub is_locked-max_locked :
    (p : Bucket → Bool) (t : ℕ) (bs : List Bucket)
    → is_locked (max_locked (select_where p bs)) t ≡ any (λ b. p b && ltb t b.locked_until) bs
unfolding is_locked max_locked select_where any
is_locked-max_locked p t [] = refl
is_locked-max_locked p t (b ∷ bs) = elim (Bool-cases (p b)) [
  | inr e ↦ rw (e, is_locked-max_locked p t bs)
  | inl e ↦ elim (Option-cases (max_locked (select_where p bs))) [
    | inl f ↦ ground (arith, is_locked-max_locked p t bs)
    | inr (m, f) ↦ ground (arith, is_locked-max_locked p t bs)
  ]
]

-- A bucket of the account or of the address that is locked at a time.
abbrev pub is_locked_bucket : String → String → ℕ → Bucket → Bool
is_locked_bucket account_key ip_key t b =
    (is_bucket account account_key b || is_bucket ip ip_key b) && ltb t b.locked_until

pub enforce_rate_limit-unlocked :
    (account_key ip_key : String) (t : ℕ) (db : Database)
    → enforce_rate_limit account_key ip_key t db ≡ ok tt
    → any (is_locked_bucket account_key ip_key t) db.buckets ≡ false
unfolding enforce_rate_limit
enforce_rate_limit-unlocked account_key ip_key t db h =
    let same =
      is_locked-max_locked (λ b. is_bucket account account_key b || is_bucket ip ip_key b) t
        db.buckets in
    ground (arith, same, h)
