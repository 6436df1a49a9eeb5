-- ===== src/Vfs/Create/Ends.antt =====
-- Programs of calls that give a value, or an error that the code of crates/vfs/src has.
use cloud_desk_os.Prelude.{Bool, true, false, Option, none, some, ok, err, ◌≡◌, ◌≢◌, refl, require}
use cloud_desk_os.Vfs.Paths.{VfsError, VfsResult, unfinished}
use cloud_desk_os.Vfs.Paths.Fine.{Fine}
use cloud_desk_os.Vfs.Program.{Call, Value, Prog, done, call, ◌>>=◌, or_io, act, run, System}
use cloud_desk_os.Vfs.Provider.{checked}

pub require-Fine : (b : Bool) (e : VfsError) → e ≢ unfinished → Fine (require b e)
require-Fine true e h = tt
require-Fine false e h = h

-- A value with a property, or an error that the code has.
abbrev pub Gives : {A : Type 0} → (A → Type 0) → VfsResult A → Type 0
Gives P (ok a) = P a
Gives P (err e) = e ≢ unfinished

abbrev pub Always : {A : Type 0} → A → Type 0
Always a = Unit

module _ {S : Type 0} (system : System S) where
  abbrev pub Ends : {A : Type 0} → (A → Type 0) → Prog A → Type 0
  Ends P p = (s : S) → Gives P (run system p s).0

  run-bind-Gives :
      {A B : Type 0} (P : A → Type 0) (Q : B → Type 0) (p : Prog A) (next : A → Prog B) (s : S)
      → Gives P (run system p s).0
      → ((a : A) → P a → Ends Q (next a))
      → Gives Q (run system (p >>= next) s).0
  unfolding ◌>>=◌ run
  run-bind-Gives P Q (done (ok a)) next s h f = f a h s
  run-bind-Gives P Q (done (err e)) next s h f = h
  run-bind-Gives P Q (call c k) next s h f =
      run-bind-Gives P Q (k (system c s).0) next (system c s).1 h f

  pub Ends-bind :
      {A B : Type 0} (P : A → Type 0) (Q : B → Type 0) (p : Prog A) (next : A → Prog B)
      → Ends P p
      → ((a : A) → P a → Ends Q (next a))
      → Ends Q (p >>= next)
  Ends-bind P Q p next h f s = run-bind-Gives P Q p next s (h s) f

  -- What a call answers at some time.
  abbrev pub Answered : (c : Call) → Value c → Type 0
  Answered c v = (s : S) × ((system c s).0 ≡ some v)

  pub Ends-act : (c : Call) → Ends (Answered c) (act c)
  unfolding run
  Ends-act c s = by_answer (system c s).0 (system c s).1 refl
    where
      by_answer :
          (o : Option (Value c)) (t : S)
          → (system c s).0 ≡ o
          → Gives (Answered c) (run system (or_io o) t).0
      by_answer none t e = λ e. cc
      by_answer (some v) t e = (s, e)

  pub Ends-then :
      {B : Type 0} (Q : B → Type 0) (c : Call) (next : Value c → Prog B)
      → ((v : Value c) → Answered c v → Ends Q (next v))
      → Ends Q (act c >>= next)
  Ends-then Q c next = Ends-bind (Answered c) Q (act c) next (Ends-act c)

  pub Ends-checked :
      {A B : Type 0} (Q : B → Type 0) (r : VfsResult A) (next : A → Prog B)
      → Fine r
      → ((a : A) → r ≡ ok a → Ends Q (next a))
      → Ends Q (checked r >>= next)
  unfolding ◌>>=◌ run
  Ends-checked Q (ok a) next h f s = f a refl s
  Ends-checked Q (err e) next h f s = h
