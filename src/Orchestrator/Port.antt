-- ===== src/Orchestrator/Port.antt =====
-- crates/orchestrator/src/port.rs: loopback ports that no two instances hold at once.
use cloud_desk_os.Prelude.{
  ℕ, zero, suc, ◌≡◌, refl, Bool, true, false, ◌||◌, Option, none, some, List, [], ◌∷◌, arith, ◌==◌,
  if◌then◌else◌, Bool-cases, Option-cases, inl, inr,
}

-- The set of reserved ports, as a list.
abbrev pub Reserved : Type 0
Reserved = List ℕ

unfoldable pub is_reserved : ℕ → Reserved → Bool
is_reserved port [] = false
is_reserved port (p ∷ ps) = p == port || is_reserved port ps

-- The 32 rounds of `allocate`: `binds` is the port that the system offers in each round, or `none`
-- where binding it or asking for its address fails.
unfoldable pub allocate_loop : ℕ → (ℕ → Option ℕ) → Reserved → Option ℕ × Reserved
unfolding is_reserved
allocate_loop zero binds reserved = (none, reserved)
allocate_loop (suc left) binds reserved =
    let again = allocate_loop left binds reserved in
    elim (binds left) [
      | none ↦ again
      | some port ↦ if is_reserved port reserved then again else (some port, port ∷ reserved)
    ]

unfoldable pub allocate : (ℕ → Option ℕ) → Reserved → Option ℕ × Reserved
unfolding allocate_loop
allocate binds reserved = allocate_loop 32 binds reserved

unfoldable pub release : ℕ → Reserved → Reserved
release port [] = []
release port (p ∷ ps) = let rest = release port ps in if p == port then rest else p ∷ rest

release_free : (p : ℕ) (ps : Reserved) → is_reserved p ps ≡ false → release p ps ≡ ps
unfolding is_reserved release
release_free p [] h = refl
release_free p (x ∷ xs) h = ground (arith, release_free p xs)

-- What a call of `allocate` answers.
abbrev pub Allocates : Option ℕ × Reserved → Reserved → Type 0
Allocates (none, after) reserved = after ≡ reserved
Allocates (some port, after) reserved =
    (is_reserved port reserved ≡ false)
    × (is_reserved port after ≡ true)
    × (release port after ≡ reserved)

kept : (port : ℕ) (reserved : Reserved) → is_reserved port (port ∷ reserved) ≡ true
unfolding is_reserved
kept port reserved = ground arith

released :
    (port : ℕ) (reserved : Reserved)
    → is_reserved port reserved ≡ false
    → release port (port ∷ reserved) ≡ reserved
unfolding release
released port reserved new = ground (arith, release_free port reserved new)

allocate_loop-Allocates :
    (left : ℕ) (binds : ℕ → Option ℕ) (reserved : Reserved)
    → Allocates (allocate_loop left binds reserved) reserved
unfolding allocate_loop
allocate_loop-Allocates zero binds reserved = refl
allocate_loop-Allocates (suc left) binds reserved = elim (Option-cases (binds left)) [
  | inl e ↦ rw (e, allocate_loop) (allocate_loop-Allocates left binds reserved)
  | inr (port, e) ↦ elim (Bool-cases (is_reserved port reserved)) [
    | inl old ↦ rw (e, allocate_loop, old) (allocate_loop-Allocates left binds reserved)
    | inr new ↦ rw (e, allocate_loop, new) (new, kept port reserved, released port reserved new)
  ]
]

-- A port that `allocate` hands out was free, is reserved from then on, and releasing it restores
-- the set of reserved ports; a call that finds none changes nothing.
pub allocate-Allocates :
    (binds : ℕ → Option ℕ) (reserved : Reserved) → Allocates (allocate binds reserved) reserved
unfolding allocate
allocate-Allocates binds reserved = allocate_loop-Allocates 32 binds reserved
