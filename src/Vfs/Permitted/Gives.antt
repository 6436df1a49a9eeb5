-- ===== src/Vfs/Permitted/Gives.antt =====
-- Programs whose calls are permitted and whose answers satisfy a predicate, for crates/vfs/src.
use cloud_desk_os.Prelude.{Option, none, some, ok, err}
use cloud_desk_os.Vfs.Paths.{VfsResult, io}
use cloud_desk_os.Vfs.Program.{
  Call, Value, Prog, done, call, ◌>>=◌, act, catch, Every, or_io, WellFormed,
}

abbrev pub Always : {A : Type 0} → VfsResult A → Type 0
Always r = Unit

-- A program whose calls are permitted and whose answer satisfies a predicate.
abbrev pub Gives : {A : Type 0} → (Call → Type 0) → (VfsResult A → Type 0) → Prog A → Type 0
Gives P Q (done r) = Q r
Gives P Q (call c k) = P c × ((o : Option (Value c)) → WellFormed c o → Gives P Q (k o))

-- What follows a failure that is caught may use what the answer is.
pub Gives-caught :
    {A B : Type 0} (P : Call → Type 0) (Q : VfsResult A → Type 0) (R : VfsResult B → Type 0)
    (p : Prog A) (next : VfsResult A → Prog B)
    → Gives P Q p
    → ((r : VfsResult A) → Q r → Gives P R (next r))
    → Gives P R (catch p >>= next)
unfolding catch ◌>>=◌
Gives-caught P Q R (done r) next h f = f r h
Gives-caught P Q R (call c k) next h f = (h.0, λ o w. Gives-caught P Q R (k o) next (h.1 o w) f)

-- What follows an answer may use it.
pub Every-after :
    {A B : Type 0} (P : Call → Type 0) (Q : VfsResult A → Type 0) (p : Prog A) (next : A → Prog B)
    → Gives P Q p
    → ((a : A) → Q (ok a) → Every P (next a))
    → Every P (p >>= next)
unfolding ◌>>=◌
Every-after P Q (done (ok a)) next h f = f a h
Every-after P Q (done (err e)) next h f = tt
Every-after P Q (call c k) next h f = (h.0, λ o w. Every-after P Q (k o) next (h.1 o w) f)

-- Any answer will do.
pub Every-Gives :
    {A : Type 0} (P : Call → Type 0) (Q : VfsResult A → Type 0) (p : Prog A)
    → Every P p
    → ((r : VfsResult A) → Q r)
    → Gives P Q p
Every-Gives P Q (done r) h all = all r
Every-Gives P Q (call c k) h all = (h.0, λ o w. Every-Gives P Q (k o) (h.1 o w) all)

pub Gives-then :
    {B : Type 0} (P : Call → Type 0) (Q : VfsResult B → Type 0) (c : Call) (next : Value c → Prog B)
    → P c
    → Q (err io)
    → ((v : Value c) → Gives P Q (next v))
    → Gives P Q (act c >>= next)
unfolding ◌>>=◌
Gives-then P Q c next h failed f = (h, go)
  where
    go : (o : Option (Value c)) → WellFormed c o → Gives P Q (or_io o >>= next)
    go none w = failed
    go (some v) w = f v
