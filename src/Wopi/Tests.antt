-- ===== src/Wopi/Tests.antt =====
-- Concrete locks on which the theorems about the WOPI host apply.
use cloud_desk_os.Prelude.{ℕ, ◌≡◌, refl, true, String, eq_iff, none, some, List, [], ◌∷◌, arith}
use cloud_desk_os.Prelude.Table.{find_where}
use cloud_desk_os.Wopi.Locks.{LockRow, is_file, fresh_lock}
use cloud_desk_os.Wopi.Operation.{lock, unlock, Request}
use cloud_desk_os.Wopi.Exclusion.{run, run_kept}
use cloud_desk_os.Wopi.Refines.{responses, expected_responses, responses-refine}

abbrev lock_a : LockRow
lock_a = fresh_lock "f" "A" "u1" 10 5 100

abbrev takes : String → Request
takes value = record {
  file_id = "f";
  override = lock;
  presented_lock = value;
  lock_bytes = 1;
  user_id = "u2";
  read_write = true;
  size = 10;
  mtime = 5;
}

abbrev attempts : List (Request × ℕ)
attempts = (takes "B", 110) ∷ (record (takes "C") { override = unlock }, 699) ∷ []

found_lock : find_where (is_file "f") (lock_a ∷ []) ≡ some lock_a
unfolding find_where
found_lock = refl

run_kept_example : find_where (is_file "f") (run attempts (lock_a ∷ [])) ≡ some lock_a
run_kept_example = run_kept attempts "f" lock_a (lock_a ∷ []) found_lock (
  (λ e. ground (arith, eq_iff "B" "A"), omega arith),
  ((λ e. ground (arith, eq_iff "C" "A"), omega arith), tt),
)

responses-refine_example : responses attempts [] ≡ expected_responses attempts (λ file. none)
responses-refine_example = responses-refine attempts (omega arith, (omega arith, tt))
