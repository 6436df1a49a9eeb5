-- ===== src/Audit/Event.antt =====
-- Audit events of crates/audit/src/lib.rs: the values that callers log, the record that is hashed,
-- and what the code takes from `serde_json` and `sha2`.
use cloud_desk_os.Prelude.{
  ℕ, ◌≡◌, String, Option, some, List, [], ◌∷◌, Bool, true, false, if◌then◌else◌, ◌||◌, ◌&&◌, ltb,
  ◌==◌,
}

-- `serde_json::Value`. A key is the list of its bytes.
mutual
  pub data Value : Type 0 where
    null : Value
    bool : Bool → Value
    number : ℕ → Value
    string : String → Value
    array : Values → Value
    object : Entries → Value

  pub data Values : Type 0 where
    nil : Values
    cons : Value → Values → Values

  pub data Entries : Type 0 where
    end : Entries
    entry : List ℕ → Value → Entries → Entries

-- `left.0.cmp(&right.0)` is not `Greater`.
unfoldable pub key_le : List ℕ → List ℕ → Bool
key_le [] k = true
key_le (a ∷ j) [] = false
key_le (a ∷ j) (b ∷ k) = ltb a b || (a == b && key_le j k)

-- The stable sort of the entries, by insertion.
unfoldable pub insert_entry : List ℕ → Value → Entries → Entries
unfolding key_le
insert_entry k v end = entry k v end
insert_entry k v (entry j w es) =
    let rest = insert_entry k v es in
    if key_le k j then entry k v (entry j w es) else entry j w rest

unfoldable mutual
  unfolding insert_entry

  pub sort_json : Value → Value
  sort_json null = null
  sort_json (bool b) = bool b
  sort_json (number n) = number n
  sort_json (string s) = string s
  sort_json (array vs) = array (sort_values vs)
  sort_json (object es) = object (sort_entries es)

  pub sort_values : Values → Values
  sort_values nil = nil
  sort_values (cons v vs) = cons (sort_json v) (sort_values vs)

  pub sort_entries : Entries → Entries
  sort_entries end = end
  sort_entries (entry k v es) = insert_entry k (sort_json v) (sort_entries es)

pub record NewAuditEvent : Type 0 where
  pub timestamp : ℕ
  pub user_id : Option String
  pub role_snapshot : List String
  pub session_id_hash : Option String
  pub source_ip : String
  pub user_agent : String
  pub action : String
  pub resource_type : String
  pub resource_id : Option String
  pub path : Option String
  pub remote_target : Option String
  pub result : String
  pub metadata : Value

pub record CanonicalEvent : Type 0 where
  pub timestamp : ℕ
  pub user_id : Option String
  pub role_snapshot : String
  pub session_id_hash : Option String
  pub source_ip : String
  pub user_agent : String
  pub action : String
  pub resource_type : String
  pub resource_id : Option String
  pub path : Option String
  pub remote_target : Option String
  pub result : String
  pub metadata_json : String
  pub previous_hash : String

-- `serde_json` on role lists and values, and the hexadecimal SHA-256 of the JSON of an event.
pub record Format : Type 0 where
  pub roles_to_string : List String → String
  pub roles_from_str : String → Option (List String)
  pub value_to_string : Value → String
  pub value_from_str : String → Option Value
  pub digest : CanonicalEvent → String

-- What the code prints of an event can be parsed again.
pub record ReadsBack (format : Format) (event : NewAuditEvent) : Type 0 where
  pub roles :
      format.roles_from_str (format.roles_to_string event.role_snapshot) ≡ some event.role_snapshot
  pub metadata :
      format.value_from_str (format.value_to_string (sort_json event.metadata))
      ≡ some (sort_json event.metadata)
