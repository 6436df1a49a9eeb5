-- ===== src/Audit/Tests.antt =====
-- Concrete events on which the theorems about the audit log apply.
use cloud_desk_os.Prelude.{
  ℕ, true, zero, suc, ◌≤◌, ◌<◌, ◌↔◌, ◌≡◌, refl, String, str_eq, eq_iff, none, some, List, [], ◌∷◌,
  map, arith, ◌⊎◌, if◌then◌else◌, ok, err,
}
use cloud_desk_os.Audit.Event.{null, NewAuditEvent, Format, ReadsBack, sort_json}
use cloud_desk_os.Audit.Chain.{
  Log, empty, AuditError, append_in_transaction, append, Try, done, busy, verify_chain, verify_row,
}
use cloud_desk_os.Audit.Integrity.{content, append_all, IsSound, append_all_verified}
use cloud_desk_os.Audit.Tamper.{NeverEmpty, Collision, verify_chain_unique}
use cloud_desk_os.Audit.Retry.{IsBusy, Stores, append_once}

-- A format that reads back lists of at most one role and the value `null`, and whose digest is the
-- action.
abbrev one_role : List String → String
one_role [] = "[]"
one_role (role ∷ _) = role

abbrev tiny : Format
tiny = record {
  roles_to_string = one_role;
  roles_from_str = λ s. some (if str_eq s "[]" then [] else s ∷ []);
  value_to_string = λ v. "null";
  value_from_str = λ s. some null;
  digest = λ e. if str_eq e.action "" then "none" else e.action;
}

tiny-NeverEmpty : NeverEmpty tiny
tiny-NeverEmpty e = ground (arith, eq_iff e.action "", eq_iff "none" "")

abbrev login : NewAuditEvent
login = record {
  timestamp = 100;
  user_id = some "u1";
  role_snapshot = "admin" ∷ [];
  session_id_hash = none;
  source_ip = "127.0.0.1";
  user_agent = "";
  action = "login";
  resource_type = "session";
  resource_id = none;
  path = none;
  remote_target = none;
  result = "success";
  metadata = null;
}

abbrev logout : NewAuditEvent
logout = record login { timestamp = 200; action = "logout"; role_snapshot = [] }

abbrev two_events : List NewAuditEvent
two_events = login ∷ logout ∷ []

append_all_verified_example : IsSound tiny (append_all tiny two_events empty)
append_all_verified_example = append_all_verified tiny two_events (login_back, (logout_back, tt))
  where
    login_back : ReadsBack tiny login
    login_back = record { roles = refl; metadata = unfold sort_json in refl }

    logout_back : ReadsBack tiny logout
    logout_back = record { roles = refl; metadata = unfold sort_json in refl }

abbrev two_rows : Log
two_rows = append_all tiny two_events empty

two_rows_verified : verify_chain tiny two_rows ≡ ok tt
unfolding verify_chain append_in_transaction verify_row
two_rows_verified = refl

verify_chain_unique_example :
    (map content two_rows.rows ≡ map content two_rows.rows) ⊎ Collision tiny
verify_chain_unique_example =
    verify_chain_unique tiny two_rows two_rows tiny-NeverEmpty two_rows_verified two_rows_verified
      refl

-- A try in which all is done, and one in which reading the head finds the database locked.
abbrev good_try : Try
good_try = record {
  begins = done;
  locks_head = done;
  reads_head = done;
  serializes = true;
  inserts = done;
  moves_head = done;
  commits = done;
}

abbrev second_try : ℕ → Try
second_try zero = record good_try { reads_head = busy }
second_try (suc n) = good_try

append_once_example :
    let (receipt, log') = append_in_transaction tiny login empty in
    ((append tiny second_try login empty ≡ (ok receipt, log'))
      ⊎ ((e : AuditError) × (append tiny second_try login empty ≡ (err e, empty))))
    × ((append tiny second_try login empty ≡ (ok receipt, log'))
        ↔ ((n : ℕ) × (n ≤ 30) × ((i : ℕ) → i < n → IsBusy (second_try i)) × Stores (second_try n)))
append_once_example = append_once tiny second_try login empty
