-- ===== src/Vfs/Archive/Quota.antt =====
-- How much an extraction writes, crates/vfs/src/archive.rs.
use cloud_desk_os.Prelude.{
  ℕ, ◌+◌, ◌≤◌, Option, none, some, List, [], ◌∷◌, ok, err, ltb, length, ◌≡◌, refl, subst, arith,
  Bool-cases, inl, inr,
}
use cloud_desk_os.Prelude.Texts.{Text}
use cloud_desk_os.Vfs.Paths.{VfsError, VfsResult, io}
use cloud_desk_os.Vfs.Program.{
  PathBuf, Call, write_all, Value, Prog, done, call, ◌>>=◌, act, catch, or_io, run, System,
}
use cloud_desk_os.Vfs.Archive.{copy_with_quota, max_extract_bytes}

-- The bytes that a call writes into an extracted file.
abbrev pub cost : Call → ℕ
cost (write_all target chunk) = length chunk
cost _ = 0

-- The bytes that a run asks to write.
unfoldable pub spent : {S A : Type 0} → System S → Prog A → S → ℕ
spent system (done r) s = 0
spent system (call c k) s = let (o, t) = system c s in cost c + spent system (k o) t

-- From a count so far, a program stays within the limit, and its answer fits the count then.
abbrev pub Spends : {A : Type 0} → ℕ → (VfsResult A → ℕ → Type 0) → Prog A → Type 0
Spends n Q (done r) = Q r n
Spends n Q (call c k) =
    (n + cost c ≤ max_extract_bytes) × ((o : Option (Value c)) → Spends (n + cost c) Q (k o))

pub run-Spends :
    {S A : Type 0} (system : System S) (n : ℕ) (Q : VfsResult A → ℕ → Type 0) (p : Prog A) (s : S)
    → n ≤ max_extract_bytes
    → Spends n Q p
    → (n + spent system p s ≤ max_extract_bytes) × Q (run system p s).0 (n + spent system p s)
unfolding run spent
run-Spends system n Q (done r) s below h = (omega arith, subst (Q r) (omega arith) h)
run-Spends system n Q (call c k) s below h =
    subst (λ m. (m ≤ max_extract_bytes) × Q (run system (k (system c s).0) (system c s).1).0 m)
      (omega arith)
      (run-Spends system (n + cost c) Q (k (system c s).0) (system c s).1 h.0 (h.1 (system c s).0))

pub caught-Spends :
    {A B : Type 0} (n : ℕ) (Q : VfsResult A → ℕ → Type 0) (R : VfsResult B → ℕ → Type 0)
    (p : Prog A) (next : VfsResult A → Prog B)
    → n ≤ max_extract_bytes
    → Spends n Q p
    → ((r : VfsResult A) (m : ℕ) → m ≤ max_extract_bytes → Q r m → Spends m R (next r))
    → Spends n R (catch p >>= next)
unfolding catch ◌>>=◌
caught-Spends n Q R (done r) next below h f = f r n below h
caught-Spends n Q R (call c k) next below h f =
    (h.0, λ o. caught-Spends (n + cost c) Q R (k o) next h.0 (h.1 o) f)

pub after-Spends :
    {A B : Type 0} (n : ℕ) (Q : VfsResult A → ℕ → Type 0) (R : VfsResult B → ℕ → Type 0)
    (p : Prog A) (next : A → Prog B)
    → n ≤ max_extract_bytes
    → Spends n Q p
    → ((a : A) (m : ℕ) → m ≤ max_extract_bytes → Q (ok a) m → Spends m R (next a))
    → ((e : VfsError) (m : ℕ) → R (err e) m)
    → Spends n R (p >>= next)
unfolding ◌>>=◌
after-Spends n Q R (done (ok a)) next below h f g = f a n below h
after-Spends n Q R (done (err e)) next below h f g = g e n
after-Spends n Q R (call c k) next below h f g =
    (h.0, λ o. after-Spends (n + cost c) Q R (k o) next h.0 (h.1 o) f g)

-- A call that writes nothing into a file.
pub free-Spends :
    {B : Type 0} (n : ℕ) (Q : VfsResult B → ℕ → Type 0) (c : Call) (next : Value c → Prog B)
    → cost c ≡ 0
    → n ≤ max_extract_bytes
    → Q (err io) n
    → ((v : Value c) → Spends n Q (next v))
    → Spends n Q (act c >>= next)
unfolding ◌>>=◌
free-Spends n Q c next free below failed f = (omega arith, go)
  where
    same : n ≡ n + cost c
    same = omega arith

    go : (o : Option (Value c)) → Spends (n + cost c) Q (or_io o >>= next)
    go none = subst (Q (err io)) same failed
    go (some v) = subst (λ m. Spends m Q (next v)) same (f v)

-- The count after a copy is the running total.
abbrev pub Total : VfsResult ℕ → ℕ → Type 0
Total (ok total) m = m ≡ total
Total (err e) m = Unit

pub copy-Spends :
    (target : PathBuf) (reads : List (Option Text)) (total : ℕ)
    → total ≤ max_extract_bytes
    → Spends total Total (copy_with_quota target reads total)
unfolding copy_with_quota
copy-Spends target [] total below = refl
copy-Spends target (none ∷ reads) total below = tt
copy-Spends target (some [] ∷ reads) total below = refl
copy-Spends target (some (b ∷ bs) ∷ reads) total below =
    elim (Bool-cases (ltb max_extract_bytes (total + length (b ∷ bs)))) [
      | inl over ↦ rw over tt
      | inr within ↦
          rw within (writes (ground arith) (copy-Spends target reads (total + length (b ∷ bs))))
    ]
  where
    writes :
        total + length (b ∷ bs) ≤ max_extract_bytes
        → (total + length (b ∷ bs) ≤ max_extract_bytes
            → Spends
                (total + length (b ∷ bs))
                Total
                (copy_with_quota target reads (total + length (b ∷ bs))))
        → Spends total Total (
            act (write_all target (b ∷ bs))
            >>= (λ u. copy_with_quota target reads (total + length (b ∷ bs))))
    writes fits ih = unfold ◌>>=◌ in (fits, go)
      where
        go :
            (o : Option (Unit {0}))
            → Spends
                (total + length (b ∷ bs))
                Total
                (or_io o >>= (λ u. copy_with_quota target reads (total + length (b ∷ bs))))
        go none = unfold ◌>>=◌ in tt
        go (some u) = unfold ◌>>=◌ in ih fits
