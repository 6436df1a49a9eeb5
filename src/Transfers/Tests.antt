-- ===== src/Transfers/Tests.antt =====
-- Concrete queues on which the theorems about transfers apply, and runs of the code on them.
use cloud_desk_os.Prelude.{
  ℕ, ◌+◌, ◌≤◌, ◌≡◌, ◌≢◌, refl, sym, Bool-cases, inl, inr, String, str_eq, eq_iff, ◌&&◌, Option,
  true, false, none, some, [], ◌∷◌, arith, All, length, ◌*◌, ◌⊎◌, ◌↔◌, if◌then◌else◌, ok, err,
}
use cloud_desk_os.Prelude.Texts.{text_eq, text_eq_sound}
use cloud_desk_os.Prelude.Table.{count_where, find_where}
use cloud_desk_os.Transfers.Endpoint.{
  Bytes, TransferEndpoint, validate_scp_remote_path, max_filename_bytes,
}
use cloud_desk_os.Transfers.Names.{
  running, completed, failed, invalid_endpoint, invalid_transition, state_eq,
}
use cloud_desk_os.Transfers.Rows.{Serde, NewTransfer, Row, Rows}
use cloud_desk_os.Transfers.Queue.{
  has_id, enqueue, claim_id, claim_row, get_owned, is_due, retry, recover_interrupted, is_running,
  complete,
}
use cloud_desk_os.Transfers.History.{claims, step}
use cloud_desk_os.Transfers.Moves.{Move, SameJob}
use cloud_desk_os.Transfers.Policy.{Climbs, validate_scp_remote_path_iff}
use cloud_desk_os.Transfers.Codec.{new_job, Decodes, fresh_row, get_owned-enqueue}
use cloud_desk_os.Transfers.Claims.{NoEarlier, claim_id_first}
use cloud_desk_os.Transfers.Recovery.{requeue_row, recover_interrupted_lem}
use cloud_desk_os.Transfers.Lifecycle.{step_moves}
use cloud_desk_os.Transfers.Worker.{work}
use cloud_desk_os.Transfers.Worker.Retry.{after_failure, failing_turns, retry_lem, work_gives_up}

abbrev upload : NewTransfer
upload = record {
  source = TransferEndpoint.local (b'/' ∷ b'a' ∷ []);
  destination = TransferEndpoint.scp "srv" (b'/' ∷ b'b' ∷ []);
  bytes_total = some 10;
}

abbrev climbing : NewTransfer
climbing = record {
  source = TransferEndpoint.local (b'/' ∷ b'a' ∷ []);
  destination = TransferEndpoint.scp "srv" (b'b' ∷ b'/' ∷ b'.' ∷ b'.' ∷ []);
  bytes_total = none;
}

abbrev path_a : Bytes
path_a = b'/' ∷ b'a' ∷ []

abbrev path_b : Bytes
path_b = b'/' ∷ b'b' ∷ []

-- An encoding of the two endpoints of `upload`.
tiny_to_string : TransferEndpoint → Option String
tiny_to_string (TransferEndpoint.local path) = if text_eq path path_a then some "local" else none
tiny_to_string (TransferEndpoint.scp server path) =
    if str_eq server "srv" && text_eq path path_b then some "scp" else none
tiny_to_string _ = none

tiny_from_str : String → Option TransferEndpoint
tiny_from_str text =
    if str_eq text "local"
    then some (TransferEndpoint.local path_a)
    else if str_eq text "scp"
    then some (TransferEndpoint.scp "srv" path_b)
    else none

abbrev tiny_serde : Serde
tiny_serde = record { to_string = tiny_to_string; from_str = tiny_from_str }

tiny_reads_back :
    (endpoint : TransferEndpoint) (text : String)
    → tiny_to_string endpoint ≡ some text
    → tiny_from_str text ≡ some endpoint
unfolding tiny_to_string tiny_from_str
tiny_reads_back (TransferEndpoint.local path) text h = elim (Bool-cases (text_eq path path_a)) [
  | inr other ↦ absurd (ground (arith, other, h))
  | inl same ↦
      let named : "local" ≡ text = ground (arith, same, h) in
      let there : path_a ≡ path = sym (text_eq_sound path path_a same) in rw (← named, ← there)
]
tiny_reads_back (TransferEndpoint.scp server path) text h =
    elim (Bool-cases (str_eq server "srv" && text_eq path path_b)) [
      | inr other ↦ absurd (ground (arith, other, h))
      | inl same ↦
          let named : "scp" ≡ text = ground (arith, same, h) in
          let there : path_b ≡ path = sym (text_eq_sound path path_b (ground arith)) in
          let host : "srv" ≡ server = sym ((eq_iff server "srv").0 (ground arith)) in
          rw (← named, ← there, ← host)
    ]
tiny_reads_back (TransferEndpoint.sftp server path) text h = cc
tiny_reads_back (TransferEndpoint.web_dav server path) text h = cc
tiny_reads_back (TransferEndpoint.s3 server bucket key) text h = cc

abbrev first_row : Row
first_row = fresh_row 7 upload "local" "scp" 1 100

abbrev second_row : Row
second_row = fresh_row 7 upload "local" "scp" 2 90

abbrev two_rows : Rows
two_rows = first_row ∷ second_row ∷ []

abbrev done_row : Row
done_row = record first_row { state = completed }

-- The older job goes first, although it was inserted later.
claims_older : (claim_id 100 two_rows).0 ≡ some 2
unfolding claim_id
claims_older = refl

rejects_climbing : (enqueue tiny_serde 7 climbing 3 100 two_rows).0 ≡ err invalid_endpoint
unfolding enqueue tiny_to_string text_eq
rejects_climbing = refl

accepts_upload : (enqueue tiny_serde 7 upload 1 100 []).0 ≡ ok 1
unfolding enqueue tiny_to_string text_eq
accepts_upload = refl

completes_once : (complete 1 none 110 (done_row ∷ [])).0 ≡ err invalid_transition
unfolding complete
completes_once = refl

found_first : find_where (has_id 1) two_rows ≡ some first_row
unfolding find_where
found_first = refl

step_moves_example :
    (q : Row) × (find_where (has_id 1) (step tiny_serde (claims 100) two_rows) ≡ some q)
    × SameJob first_row q
    × Move first_row.state q.state
step_moves_example = step_moves tiny_serde (claims 100) two_rows 1 first_row found_first

claim_id_first_example :
    ((claim_id 100 two_rows ≡ (none, two_rows)) × All (λ q. is_due 100 q ≡ false) two_rows)
    ⊎ ((r : Row) × ((claim_id 100 two_rows).0 ≡ some r.id)
        × (find_where (has_id r.id) two_rows ≡ some r)
        × (is_due 100 r ≡ true)
        × All (NoEarlier 100 r) two_rows
        × (find_where (has_id r.id) (claim_id 100 two_rows).1 ≡ some (claim_row 100 r)))
claim_id_first_example = claim_id_first 100 two_rows (omega arith)

retry_lem_example :
    let (answer, rows') = retry 1 [] true 120 120 two_rows in
    (answer ≡ (if state_eq first_row.state running then ok tt else err invalid_transition))
    × (find_where (has_id 1) rows'
        ≡ some (
            if state_eq first_row.state running
            then after_failure [] true 120 120 first_row
            else first_row))
retry_lem_example = retry_lem 1 [] true 120 120 two_rows first_row (omega arith) found_first

abbrev hourly : ℕ → ℕ
hourly k = 100 + k * 3600

tiny-Decodes : Decodes tiny_serde first_row upload.source upload.destination
unfolding tiny_from_str
tiny-Decodes = (refl, refl)

work_gives_up_example :
    (q : Row) × (work tiny_serde (failing_turns [] hourly 0 6) (first_row ∷ []) ≡ q ∷ [])
    × (q.id ≡ 1)
    × (q.state ≡ failed)
    × (q.attempts ≡ 6)
work_gives_up_example =
    work_gives_up tiny_serde upload.source upload.destination [] hourly 0 6 first_row
      (λ i. omega arith) tiny-Decodes refl (omega arith) (omega arith) refl

abbrev plain_path : Bytes
plain_path = b'/' ∷ b'b' ∷ []

validate_scp_remote_path_iff_example : (validate_scp_remote_path plain_path ≡ true) ↔ (
    (plain_path ≢ [])
    × (length plain_path ≤ max_filename_bytes)
    × All (λ b. 0x20 ≤ b) plain_path
    × (¬ Climbs plain_path))
validate_scp_remote_path_iff_example = validate_scp_remote_path_iff plain_path

get_owned-enqueue_example :
    (◌≡◌ {A = ℕ} 1 1)
    × (get_owned tiny_serde 1 7 (enqueue tiny_serde 7 upload 1 100 []).1
        ≡ ok (new_job 7 upload 1 100))
get_owned-enqueue_example =
    get_owned-enqueue tiny_serde 7 upload 1 100 [] 1 tiny_reads_back accepts_upload

abbrev half_done : Rows
half_done = record first_row { state = running; attempts = 1 } ∷ second_row ∷ []

half_done_first :
    find_where (has_id 1) half_done ≡ some (record first_row { state = running; attempts = 1 })
unfolding find_where
half_done_first = refl

recover_interrupted_lem_example :
    let (n, rows') = recover_interrupted [] 200 half_done in
    (n ≡ count_where is_running half_done)
    × All (λ q. is_running q ≡ false) rows'
    × (find_where (has_id 1) rows'
        ≡ some (requeue_row [] 200 (record first_row { state = running; attempts = 1 })))
unfolding state_eq
recover_interrupted_lem_example =
    recover_interrupted_lem [] 200 half_done 1 (record first_row { state = running; attempts = 1 })
      half_done_first
